-- ===== src/Lsp/Server/Handlers.antt =====
-- internal/lsp/server.go: the handlers of notifications on files. The disk is a dictionary of the files
-- that can be read.
pub mod Loaded
pub mod Deleted
use regal.Base.{
  Bool, true, false, not, ◌&&◌, Option, none, some, List, [], ◌∷◌, ◌++◌, if◌then◌else◌, Text, codes,
  wrapped, Outcome, ok, err, panicked, unfinished, text_eq,
}
use regal.Base.Dict.{Dict, lookup}
use regal.Lsp.Types.{Range}
use regal.Lsp.Uri.{to_path}
use regal.Lsp.Cache
use regal.Lsp.Server.{Env, State, ignore_uri, update_parse, send_file_diagnostics}

-- The next statement of a handler, where the one before neither returned an error nor panicked.
abbrev pub seq :
    {M : Type 0}
    → State M × Outcome (Unit {0})
    → (State M → State M × Outcome (Unit {0}))
    → State M × Outcome (Unit {0})
seq (s, ok _) k = k s
seq (s, err e) k = (s, err e)
seq (s, panicked) k = (s, panicked)
seq (s, unfinished) k = (s, unfinished)

-- The text of the last change of the whole document.
unfoldable pub last_contents : List (Option Range × Text) → Text → Text
last_contents [] contents = contents
last_contents ((none, text) ∷ changes) contents = last_contents changes text
last_contents ((some _, _) ∷ changes) contents = last_contents changes contents

unfoldable pub delete_and_send : {M : Type 0} → State M → Text → State M
unfolding send_file_diagnostics
delete_and_send s uri = send_file_diagnostics (record s { cache = Cache.delete s.cache uri }) uri

module _ {M G : Type 0} (env : Env M G) where
  -- What a handler does with the result of `updateParse`: an error is only logged.
  unfoldable pub note_parsed : Text → State M × Outcome Bool → State M × Outcome (Unit {0})
  note_parsed uri (s, ok parse_success) =
      if env.server_testing && parse_success
      then (record s { test_jobs = s.test_jobs ++ uri ∷ [] }, ok tt)
      else (s, ok tt)
  note_parsed uri (s, err _) = (s, ok tt)
  note_parsed uri (s, panicked) = (s, panicked)
  note_parsed uri (s, unfinished) = (s, unfinished)

  abbrev pub ask_to_lint : Text → State M → State M × Outcome (Unit {0})
  ask_to_lint reason s = (record s { lint_jobs = s.lint_jobs ++ reason ∷ [] }, ok tt)

  unfoldable pub parse_and_lint : State M → Text → (reason : Text) → State M × Outcome (Unit {0})
  unfolding update_parse note_parsed
  parse_and_lint s uri reason = seq (note_parsed uri (update_parse env s uri)) (ask_to_lint reason)

  -- `is_templating` of `handleTextDocumentDidOpen`
  unfoldable pub open_contents : State M → Text → Text → State M
  open_contents s uri text = elim (lookup uri s.templating_files) [
    | some _ ↦ s
    | none ↦ record s { cache = Cache.set_file_contents s.cache uri text }
  ]

  -- For a server that has a workspace.
  unfoldable pub did_open : State M → Text → Text → State M × Outcome (Unit {0})
  unfolding parse_and_lint open_contents
  did_open s uri text =
      if ignore_uri env uri
      then (record s { cache = Cache.set_ignored_file_contents s.cache uri text }, ok tt)
      else parse_and_lint (open_contents s uri text) uri (codes "textDocument/didOpen")

  unfoldable pub did_close : State M → Text → State M × Outcome (Unit {0})
  did_close s uri =
      if ignore_uri env uri
      then (record s { cache = Cache.delete s.cache uri }, ok tt)
      else (s, ok tt)

  unfoldable pub maybe_ignored_contents : State M → Text → Option Text
  maybe_ignored_contents s uri =
      if ignore_uri env uri
      then Cache.get_ignored_file_contents s.cache uri
      else Cache.get_file_contents s.cache uri

  unfoldable pub set_maybe_ignored_contents : State M → Text → Text → State M × Bool
  set_maybe_ignored_contents s uri contents =
      if ignore_uri env uri
      then (record s { cache = Cache.set_ignored_file_contents s.cache uri contents }, true)
      else (record s { cache = Cache.set_file_contents s.cache uri contents }, false)

  unfoldable pub did_change_to : State M × Bool → Text → State M × Outcome (Unit {0})
  unfolding parse_and_lint
  did_change_to (s, true) uri = (s, ok tt)
  did_change_to (s, false) uri = parse_and_lint s uri (codes "textDocument/didChange")

  unfoldable pub did_change :
      State M → Text → List (Option Range × Text) → State M × Outcome (Unit {0})
  unfolding did_change_to set_maybe_ignored_contents last_contents
  did_change s uri [] = (s, ok tt)
  did_change s uri (c ∷ changes) =
      did_change_to (set_maybe_ignored_contents s uri (last_contents (c ∷ changes) [])) uri

  abbrev pub read_back : State M → Cache.Cache M × Outcome (Bool × Text) → State M × Outcome Text
  read_back s (c, ok (_, content)) = (record s { cache = c }, ok content)
  read_back s (c, err e) =
      (record s { cache = c }, err (wrapped (codes "failed to update cache for uri:") e))
  read_back s (c, panicked) = (record s { cache = c }, panicked)
  read_back s (c, unfinished) = (record s { cache = c }, unfinished)

  -- The cache after `UpdateForURIFromDisk`.
  abbrev pub from_disk : Dict Text Text → State M → Text → State M × Outcome Text
  from_disk disk s uri = read_back s (Cache.update_for_uri_from_disk disk s.cache uri (to_path uri))

  abbrev pub ask_for_template : Text → State M → State M × Outcome (Unit {0})
  ask_for_template uri s = (record s { template_jobs = s.template_jobs ++ uri ∷ [] }, ok tt)

  unfoldable pub created : State M × Outcome Text → Text → State M × Outcome (Unit {0})
  unfolding parse_and_lint
  created (s, ok _) uri =
      seq (parse_and_lint s uri (codes "textDocument/didCreate")) (ask_for_template uri)
  created (s, err e) uri = (s, err e)
  created (s, panicked) uri = (s, panicked)
  created (s, unfinished) uri = (s, unfinished)

  unfoldable pub create_files : Dict Text Text → State M → List Text → State M × Outcome (Unit {0})
  unfolding created
  create_files disk s [] = (s, ok tt)
  create_files disk s (uri ∷ uris) =
      seq (created (from_disk disk s uri) uri) (λ s'. create_files disk s' uris)

  -- Only the first file is asked about, and there must be one.
  unfoldable pub did_create_files :
      Dict Text Text → State M → List Text → State M × Outcome (Unit {0})
  unfolding create_files
  did_create_files disk s [] = (s, panicked)
  did_create_files disk s (uri ∷ uris) =
      if ignore_uri env uri then (s, ok tt) else create_files disk s (uri ∷ uris)

  unfoldable pub did_delete_files : State M → List Text → State M
  unfolding delete_and_send
  did_delete_files s [] = s
  did_delete_files s (uri ∷ uris) =
      did_delete_files (if not (ignore_uri env uri) then delete_and_send s uri else s) uris

  -- The content of the old file in the cache, or else that of the new one on the disk.
  abbrev pub renamed_content :
      Dict Text Text → State M → Text → Option Text → State M × Outcome Text
  renamed_content disk s new_uri none = from_disk disk s new_uri
  renamed_content disk s new_uri (some []) = from_disk disk s new_uri
  renamed_content disk s new_uri (some (c ∷ content)) = (s, ok (c ∷ content))

  unfoldable pub renamed :
      State M × Outcome Text → (old_uri new_uri : Text) → State M × Outcome (Unit {0})
  unfolding delete_and_send parse_and_lint
  renamed (s, ok content) old_uri new_uri =
      let s1 = delete_and_send s old_uri in
      if ignore_uri env new_uri
      then (s1, ok tt)
      else seq
          (parse_and_lint (record s1 { cache = Cache.set_file_contents s1.cache new_uri content })
            new_uri (codes "textDocument/didRename"))
          (ask_for_template new_uri)
  renamed (s, err e) old_uri new_uri = (s, err e)
  renamed (s, panicked) old_uri new_uri = (s, panicked)
  renamed (s, unfinished) old_uri new_uri = (s, unfinished)

  unfoldable pub rename_file :
      Dict Text Text → State M → (old_uri new_uri : Text) → State M × Outcome (Unit {0})
  unfolding renamed
  rename_file disk s old_uri new_uri =
      if ignore_uri env old_uri && ignore_uri env new_uri
      then (s, ok tt)
      else renamed (renamed_content disk s new_uri (Cache.get_file_contents s.cache old_uri))
          old_uri new_uri

  unfoldable pub did_rename_files :
      Dict Text Text → State M → List (Text × Text) → State M × Outcome (Unit {0})
  unfolding rename_file
  did_rename_files disk s [] = (s, ok tt)
  did_rename_files disk s ((old_uri, new_uri) ∷ files) =
      seq (rename_file disk s old_uri new_uri) (λ s'. did_rename_files disk s' files)

  -- What the loop of `handleWorkspaceDidChangeWatchedFiles` does with the result of `updateParse`.
  unfoldable pub note_watched : Text → State M × Outcome Bool → Bool → State M × Outcome Bool
  note_watched uri (s, ok parse_success) changes =
      if env.server_testing && parse_success
      then (record s { test_jobs = s.test_jobs ++ uri ∷ [] }, ok true)
      else (s, ok true)
  note_watched uri (s, err _) changes = (s, ok changes)
  note_watched uri (s, panicked) changes = (s, panicked)
  note_watched uri (s, unfinished) changes = (s, unfinished)

  abbrev pub seq_watched :
      State M × Outcome Bool
      → (State M → Bool → State M × Outcome (Unit {0}))
      → State M × Outcome (Unit {0})
  seq_watched (s, ok changes) k = k s changes
  seq_watched (s, err e) k = (s, err e)
  seq_watched (s, panicked) k = (s, panicked)
  seq_watched (s, unfinished) k = (s, unfinished)

  -- The loop over the changes, of which repeated ones are left out. What ignored files, which may be
  -- inputs or configurations, bring about outside this state is not modelled.
  unfoldable pub watch_files : State M → List Text → (changes : Bool) → State M × Outcome (Unit {0})
  unfolding note_watched update_parse
  watch_files s [] changes =
      if changes then ask_to_lint (codes "workspace/didChangeWatchedFiles") s else (s, ok tt)
  watch_files s (uri ∷ uris) changes =
      let skipped = watch_files s uris changes in
      let parsed_file =
        seq_watched (note_watched uri (update_parse env s uri) changes)
          (λ s' c. watch_files s' uris c) in
      if ignore_uri env uri then skipped else parsed_file

  unfoldable pub did_change_watched_files : State M → List Text → State M × Outcome (Unit {0})
  unfolding watch_files
  did_change_watched_files s uris = watch_files s uris false
