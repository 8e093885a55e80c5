-- ===== src/Lsp/Server/Fresh/Alone.antt =====
-- internal/lsp/server.go: a handler or a run of the linter that no other thread interrupts. The threads
-- that overlap are those of Lsp/Server/Threads.antt.
use regal.Base.{
  ◌≡◌, refl, sym, ◌∙◌, subst, inl, inr, false, Option, none, some, List, [], ◌∷◌, arith, Bool-cases,
  Text, Outcome, ok, err, panicked, unfinished, >>=-eq-ok, ok_injective, text_eq,
}
use regal.Base.Dict.{Dict, lookup, keys}
use regal.Lsp.Concurrent.{get}
use regal.Lsp.Types.{Range, Diagnostic}
use regal.Linter.Run.{Engine}
use regal.Lsp.Diagnostics.{convert_report_to_diagnostics, or_empty}
use regal.Lsp.Cache.{
  Cache, set_file_diagnostics, get_all_files, get_all_modules, get_parse_errors, get_module,
  get_file_contents,
}
use regal.Lsp.Server.{Env, State, ignore_uri, parse_uri, send_file_diagnostics}
use regal.Lsp.Server.Handlers.{
  did_open, did_close, did_change_watched_files, did_change, did_create_files, did_delete_files,
  did_rename_files,
}
use regal.Lsp.Server.Linted.{
  Rules, lint_workspace, note_linted, update_workspace_diagnostics, set_all_diagnostics, send_all,
  has_no_errors, new_input,
}
use regal.Lsp.Server.Fresh.{Agrees, Fits, IsFresh}
use regal.Lsp.Server.Fresh.Handled.{
  did_open-IsFresh, watch_files-IsFresh, did_close-IsFresh, did_change-IsFresh,
  did_delete_files-IsFresh,
}
use regal.Lsp.Server.Fresh.FromDisk.{did_create_files-IsFresh, did_rename_files-IsFresh}

-- A notification of the client, with the disk as it is where the handler reads it, or a run of the linter.
pub data Event : Type 0 where
  opened : (uri text : Text) → Event
  closed : (uri : Text) → Event
  changed : (uri : Text) → List (Option Range × Text) → Event
  created : (disk : Dict Text Text) → (uris : List Text) → Event
  deleted : (uris : List Text) → Event
  renamed : (disk : Dict Text Text) → (files : List (Text × Text)) → Event
  watched : (uris : List Text) → Event
  linted : Event

module _ {M Q O G : Type 0} (env : Env M G) (engine : Engine M Q O G) (rules : Rules M) where
  unfoldable pub handle : Event → State M → State M
  handle (opened uri text) s = (did_open env s uri text).0
  handle (closed uri) s = (did_close env s uri).0
  handle (changed uri changes) s = (did_change env s uri changes).0
  handle (created disk uris) s = (did_create_files env disk s uris).0
  handle (deleted uris) s = did_delete_files env s uris
  handle (renamed disk files) s = (did_rename_files env disk s files).0
  handle (watched uris) s = (did_change_watched_files env s uris).0
  handle linted s = (lint_workspace env engine rules s).0

  set_all_diagnostics-IsFresh :
      (diags : Dict Text (List Diagnostic)) (uris : List Text) (c : Cache M)
      → IsFresh env c
      → IsFresh env (set_all_diagnostics diags uris c)
  unfolding set_all_diagnostics set_file_diagnostics
  set_all_diagnostics-IsFresh diags [] c h = h
  set_all_diagnostics-IsFresh diags (uri ∷ uris) c h =
      elim (Bool-cases (has_no_errors (get_parse_errors c uri))) [
        | inl clean ↦
            rw (clean, set_all_diagnostics)
              (set_all_diagnostics-IsFresh diags uris
                (set_file_diagnostics c uri (or_empty (lookup uri diags))) h)
        | inr errors ↦ rw (errors, set_all_diagnostics) (set_all_diagnostics-IsFresh diags uris c h)
      ]

  send_file_diagnostics-cache :
      (s : State M) (uri : Text) → (send_file_diagnostics s uri).cache ≡ s.cache
  unfolding send_file_diagnostics
  send_file_diagnostics-cache s uri = ground arith

  send_all-cache : (s : State M) (uris : List Text) → (send_all s uris).cache ≡ s.cache
  unfolding send_all
  send_all-cache s [] = refl
  send_all-cache s (uri ∷ uris) =
      send_all-cache (send_file_diagnostics s uri) uris ∙ send_file_diagnostics-cache s uri

  note_linted-IsFresh :
      (s : State M) (o : Outcome (Cache M))
      → IsFresh env s.cache
      → ((c : Cache M) → o ≡ ok c → IsFresh env c)
      → IsFresh env (note_linted env engine rules s o).0.cache
  unfolding note_linted
  note_linted-IsFresh s (ok c) h made =
      subst (IsFresh env) (sym (send_all-cache (record s { cache = c }) (keys (get_all_files c))))
        (made c refl)
  note_linted-IsFresh s (err e) h made = h
  note_linted-IsFresh s panicked h made = h
  note_linted-IsFresh s unfinished h made = h

  linted-IsFresh :
      (s : State M) → IsFresh env s.cache → IsFresh env (lint_workspace env engine rules s).0.cache
  unfolding lint_workspace update_workspace_diagnostics
  linted-IsFresh s h =
      note_linted-IsFresh s (update_workspace_diagnostics env engine rules s.cache) h (λ c e.
        let (rpt, found, e1) = >>=-eq-ok _ _ e in
        subst (IsFresh env) (ok_injective e1) (
          set_all_diagnostics-IsFresh (convert_report_to_diagnostics rpt.violations env.root_uri)
            (new_input (get_all_files s.cache) (get_all_modules s.cache)).file_names s.cache h))

  pub handle-IsFresh :
      (e : Event) (s : State M) → IsFresh env s.cache → IsFresh env (handle e s).cache
  unfolding handle did_change_watched_files
  handle-IsFresh (opened uri text) s h = did_open-IsFresh env s uri text h
  handle-IsFresh (closed uri) s h = did_close-IsFresh env s uri h
  handle-IsFresh (changed uri changes) s h = did_change-IsFresh env s uri changes h
  handle-IsFresh (created disk uris) s h = did_create_files-IsFresh env disk s uris h
  handle-IsFresh (deleted uris) s h = did_delete_files-IsFresh env s uris h
  handle-IsFresh (renamed disk files) s h = did_rename_files-IsFresh env disk s files h
  handle-IsFresh (watched uris) s h = watch_files-IsFresh env s uris false h
  handle-IsFresh linted s h = linted-IsFresh s h

  Fits-content :
      (u : Text) (content : Option Text) (m : M)
      → Fits env u content (some m) (some [])
      → (t : Text) × (content ≡ some t) × Agrees (parse_uri env u t) m
  Fits-content u none m h = absurd h
  Fits-content u (some t) m h = (t, refl, h)

  -- While no other thread interrupts it, the handler of a notification on files, or a run of the
  -- linter, keeps the modules in step with the contents: if before it every file that is not ignored,
  -- and that has a module and no parse errors, has contents that the parser makes this module of, or
  -- fails on without an error of the engine, then so does every such file after it.
  pub handle-Agrees :
      (e : Event) (s : State M)
      → IsFresh env s.cache
      → (u : Text) (m : M) → ignore_uri env u ≡ false
      → get_module (handle e s).cache u ≡ some m
      → get_parse_errors (handle e s).cache u ≡ some []
      → (content : Text) × (get_file_contents (handle e s).cache u ≡ some content)
        × Agrees (parse_uri env u content) m
  unfolding get_module get_parse_errors get_file_contents get
  handle-Agrees e s h u m seen has_module clean =
      let c = (handle e s).cache in
      Fits-content u (lookup u c.file_contents) m (
        subst (λ x. Fits env u (lookup u c.file_contents) (some m) x) clean
          (subst
            (λ x. Fits env u (lookup u c.file_contents) x (lookup u c.diagnostics_parse_errors))
            has_module (handle-IsFresh e s h u seen)))
