-- ===== src/Lsp/Server/Threads.antt =====
-- internal/lsp/server.go and internal/lsp/lint.go: the handlers as threads. The connection runs each
-- notification in a goroutine of its own (internal/lsp/connection/connection.go), beside the workers,
-- and only a single call on a map of the cache is protected by a lock. A thread is the list of the calls
-- that it still has to make, and reading decides about the calls that follow. The configuration is
-- fixed; what a thread does outside the cache is left out.
pub mod Given
pub mod Reached
pub mod Race
pub mod Alone
mod Tests
use regal.Base.{
  ℕ, Bool, ◌&&◌, Option, none, some, List, [], ◌∷◌, ◌++◌, if◌then◌else◌, ◌==◌, Text, text_eq,
  nat_eq,
}
use regal.Lsp.Types.{Range, Diagnostic}
use regal.Util.Lines
use regal.Lsp.Concurrent.{delete_key}
use regal.Lsp.Cache
use regal.Lsp.Cache.{Cache}
use regal.Lsp.Diagnostics.{error_diagnostics}
use regal.Lsp.Server.{Env, Parsed, parsed, failed, unknown, ignore_uri, parse_uri}
use regal.Lsp.Server.Handlers.{last_contents}

-- The maps of the cache, one of which a call of `Delete` empties at a key at a time.
pub data Part : Type 0 where
  contents_part ignored_part modules_part diagnostics_part errors_part counts_part : Part

-- A call on the cache. `loads` is `UpdateForURIFromDisk` once the file was read, and `copies` the
-- reading of the old file's contents in `handleWorkspaceDidRenameFiles`.
pub data Call (M : Type 0) : Type 0 where
  sets : (uri text : Text) → Call M
  sets_ignored : (uri text : Text) → Call M
  parses : (uri : Text) → Call M
  sets_errors : (uri : Text) → List Diagnostic → Call M
  sets_module : (uri : Text) → M → Call M
  sets_count : (uri : Text) → ℕ → Call M
  sets_diagnostics : (uri : Text) → List Diagnostic → Call M
  loads : (uri text : Text) → Call M
  copies : (old_uri new_uri : Text) → (on_disk : Option Text) → Call M
  drops : Part → (uri : Text) → Call M
  clears_diagnostics : Call M

unfoldable pub drop_part : {M : Type 0} → Part → Cache M → Text → Cache M
drop_part contents_part c uri = record c { file_contents = delete_key c.file_contents uri }
drop_part ignored_part c uri = record c {
  ignored_file_contents = delete_key c.ignored_file_contents uri;
}
drop_part modules_part c uri = record c { modules = delete_key c.modules uri }
drop_part diagnostics_part c uri = record c { diagnostics_file = delete_key c.diagnostics_file uri }
drop_part errors_part c uri = record c {
  diagnostics_parse_errors = delete_key c.diagnostics_parse_errors uri;
}
drop_part counts_part c uri = record c {
  successful_parse_line_counts = delete_key c.successful_parse_line_counts uri;
}

-- `Delete`
abbrev pub delete_parts : {M : Type 0} → Text → List (Call M)
delete_parts uri =
    drops contents_part uri
    ∷ drops ignored_part uri
    ∷ drops modules_part uri
    ∷ drops diagnostics_part uri
    ∷ drops errors_part uri
    ∷ drops counts_part uri
    ∷ []

-- What `updateParse` does with the result of the parser.
abbrev pub stores : {M : Type 0} → Text → Text → Parsed M → List (Call M)
stores uri content (parsed m) =
    sets_errors uri [] ∷ sets_module uri m ∷ sets_count uri (Lines.num_lines content) ∷ []
stores uri content (failed errors) = sets_errors uri (error_diagnostics content errors) ∷ []
stores uri content (unknown _) = []

-- What is set where the file on the disk was read and differs.
abbrev pub refreshed : {M : Type 0} → Text → Text → Option Text → List (Call M)
refreshed uri text none = sets uri text ∷ []
refreshed uri text (some cached) = if cached == text then [] else sets uri text ∷ []

-- What a thread still has to do after a call.
abbrev pub continued : {M : Type 0} → Option (List (Call M)) → List (Call M) → List (Call M)
continued none rest = []
continued (some more) rest = more ++ rest

-- A notification of the client; with a text that was read from the disk where the handler reads it,
-- and none where reading fails. `watched` is for files that changed on the disk; `didSave` makes no
-- call on the cache.
pub data Notification : Type 0 where
  opened : (uri text : Text) → (is_templating : Bool) → Notification
  closed : (uri : Text) → Notification
  changed : (uri : Text) → List (Option Range × Text) → Notification
  created : (files : List (Text × Option Text)) → Notification
  deleted : (uris : List Text) → Notification
  renamed : (files : List ((Text × Text) × Option Text)) → Notification
  watched : (uris : List Text) → Notification

-- The cache and the threads.
pub record World (M : Type 0) : Type 0 where
  pub cache : Cache M
  pub threads : List (List (Call M))

module _ {M G : Type 0} (env : Env M G) where
  abbrev pub parsed_calls : Text → Option Text → List (Call M)
  parsed_calls uri none = []
  parsed_calls uri (some content) = stores uri content (parse_uri env uri content)

  -- The rest of a rename, with the contents that were found.
  abbrev pub moves : (old_uri new_uri text : Text) → List (Call M)
  moves old_uri new_uri text =
      delete_parts old_uri
      ++ (if ignore_uri env new_uri then [] else sets new_uri text ∷ parses new_uri ∷ [])

  -- Without contents, those on the disk are taken, and without these the handler ends with an error.
  abbrev pub copied_calls :
      (old_uri new_uri : Text) → Option Text → Option Text → Option (List (Call M))
  copied_calls old_uri new_uri on_disk (some (c ∷ text)) = some (moves old_uri new_uri (c ∷ text))
  copied_calls old_uri new_uri none _ = none
  copied_calls old_uri new_uri (some text) _ =
      some (loads new_uri text ∷ moves old_uri new_uri text)

  -- The cache after a call, and the calls that its thread makes next because of it, or none where the
  -- thread ends.
  unfoldable pub perform : Call M → Cache M → Cache M × Option (List (Call M))
  unfolding drop_part
  perform (sets uri text) c = (Cache.set_file_contents c uri text, some [])
  perform (sets_ignored uri text) c = (Cache.set_ignored_file_contents c uri text, some [])
  perform (parses uri) c = (c, some (parsed_calls uri (Cache.get_file_contents c uri)))
  perform (sets_errors uri diags) c = (Cache.set_parse_errors c uri diags, some [])
  perform (sets_module uri m) c = (Cache.set_module c uri m, some [])
  perform (sets_count uri n) c = (Cache.set_successful_parse_line_count c uri n, some [])
  perform (sets_diagnostics uri diags) c = (Cache.set_file_diagnostics c uri diags, some [])
  perform (loads uri text) c = (c, some (refreshed uri text (Cache.get_file_contents c uri)))
  perform (copies old_uri new_uri on_disk) c =
      (c, copied_calls old_uri new_uri on_disk (Cache.get_file_contents c old_uri))
  perform (drops part uri) c = (drop_part part c uri, some [])
  perform clears_diagnostics c = (Cache.clear_file_diagnostics c, some [])

  abbrev pub create_calls : List (Text × Option Text) → List (Call M)
  create_calls [] = []
  create_calls ((uri, none) ∷ files) = []
  create_calls ((uri, some text) ∷ files) = loads uri text ∷ parses uri ∷ create_calls files

  abbrev pub delete_calls : List Text → List (Call M)
  delete_calls [] = []
  delete_calls (uri ∷ uris) =
      let rest = delete_calls uris in if ignore_uri env uri then rest else delete_parts uri ++ rest

  abbrev pub rename_calls : List ((Text × Text) × Option Text) → List (Call M)
  rename_calls [] = []
  rename_calls (((old_uri, new_uri), on_disk) ∷ files) =
      let rest = rename_calls files in
      if ignore_uri env old_uri && ignore_uri env new_uri
      then rest
      else copies old_uri new_uri on_disk ∷ rest

  abbrev pub watch_calls : List Text → List (Call M)
  watch_calls [] = []
  watch_calls (uri ∷ uris) =
      let rest = watch_calls uris in if ignore_uri env uri then rest else parses uri ∷ rest

  abbrev pub change_calls : Text → List (Option Range × Text) → List (Call M)
  change_calls uri [] = []
  change_calls uri (c ∷ changes) =
      let text = last_contents (c ∷ changes) [] in
      if ignore_uri env uri then sets_ignored uri text ∷ [] else sets uri text ∷ parses uri ∷ []

  -- The calls that the handler of a notification starts with.
  unfoldable pub calls_of : Notification → List (Call M)
  calls_of (opened uri text is_templating) =
      if ignore_uri env uri
      then sets_ignored uri text ∷ []
      else if is_templating
      then parses uri ∷ []
      else sets uri text ∷ parses uri ∷ []
  calls_of (closed uri) = if ignore_uri env uri then delete_parts uri else []
  calls_of (changed uri changes) = change_calls uri changes
  -- Without files, the handler panics.
  calls_of (created []) = []
  calls_of (created ((uri, text) ∷ files)) =
      if ignore_uri env uri then [] else create_calls ((uri, text) ∷ files)
  calls_of (deleted uris) = delete_calls uris
  calls_of (renamed files) = rename_calls files
  calls_of (watched uris) = watch_calls uris
