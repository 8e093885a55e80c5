-- ===== src/Lsp/Server.antt =====
-- internal/lsp/server.go: the state of the language server, and what it does with one file. A queue
-- of jobs is the list of those that were sent; messages to the log are left out.
pub mod Handlers
pub mod Linted
pub mod Threads
mod Fresh
mod Tests
use regal.Base.{
  ℕ, Bool, true, false, not, ◌&&◌, none, some, List, [], ◌∷◌, ◌++◌, leb, if◌then◌else◌, length,
  Text, codes, Error, message, wrapped, Outcome, ok, err, panicked, unfinished, text_eq,
}
use regal.Base.Dict.{Dict, lookup, insert}
use regal.Go.Strings.{has_prefix}
use regal.Go.Paths.{join_path, dir}
use regal.Util.Lines
use regal.Config.Filter.{filter_ignored_paths, trim_prefix, has_suffix}
use regal.Config.Settings.Types.{Config, RegoVersion, rego_undefined}
use regal.Lsp.Types.{Diagnostic}
use regal.Lsp.Uri.{to_path, to_relative_path}
use regal.Lsp.Cache
use regal.Lsp.Cache.{Cache}
use regal.Lsp.Diagnostics.{AstError, error_diagnostics, or_empty}

-- What the parser comes to: a module, errors of the engine, one or several, or another error.
pub data Parsed (M : Type 0) : Type 0 where
  parsed : M → Parsed M
  failed : List AstError → Parsed M
  unknown : Error → Parsed M

-- A reference that a module defines.
pub record Ref : Type 0 where
  pub is_package : Bool
  pub label : Text

-- What the server works with: its workspace and its configuration, and the parser, the globs and the
-- conversions of the engine. `store_module` says whether a module can be written to the store.
pub record Env (M G : Type 0) : Type 0 where
  pub root_uri : Text
  pub config : Config
  pub all_rego_versions : Dict Text RegoVersion
  pub server_testing : Bool
  pub glob : Text → Outcome G
  pub matches : G → Text → Bool
  pub walk : Text → List Text → Outcome (List Text)
  pub parse : (file_name content : Text) → RegoVersion → Parsed M
  pub store_module : M → Outcome (Unit {0})
  pub defined_refs : M → List Ref

-- The cache, the store, the queues, and the diagnostics that the client was sent.
pub record State (M : Type 0) : Type 0 where
  pub cache : Cache M
  pub stored_modules : Dict Text M
  pub stored_refs : Dict Text (List Text)
  pub lint_jobs : List Text
  pub template_jobs : List Text
  pub test_jobs : List Text
  pub templating_files : Dict Text Bool
  pub sent : List (Text × List Diagnostic)
  pub is_connected : Bool

-- One step of the loop of `RegoVersionFromMap`, with the longest match and the version so far.
unfoldable pub next_version : Text → Text → RegoVersion → ℕ × RegoVersion → ℕ × RegoVersion
next_version dir_name versioned_dir version (longest, selected) =
    if has_prefix dir_name (join_path (codes "/" ∷ versioned_dir ∷ codes "/" ∷ []))
      && leb longest (length versioned_dir)
    then (length versioned_dir, version)
    else (longest, selected)

unfoldable pub search_versions : Text → Dict Text RegoVersion → ℕ × RegoVersion → ℕ × RegoVersion
unfolding next_version
search_versions dir_name [] best = best
search_versions dir_name ((versioned_dir, version) ∷ m) best =
    search_versions dir_name m (next_version dir_name versioned_dir version best)

unfoldable pub rego_version_from_map : Dict Text RegoVersion → Text → RegoVersion → RegoVersion
unfolding search_versions
rego_version_from_map versions filename default_version =
    (search_versions (dir filename) versions (0, default_version)).1

unfoldable pub labels : List Ref → List Text
labels [] = []
labels (r ∷ rs) = let rest = labels rs in if not r.is_package then r.label ∷ rest else rest

abbrev pub rego_suffix : Text
rego_suffix = codes ".rego"

-- An error, or no path left.
abbrev pub is_dropped : Outcome (List Text) → Bool
is_dropped (ok []) = true
is_dropped (ok (_ ∷ _)) = false
is_dropped _ = true

-- Parse errors come before the diagnostics of the linter.
unfoldable pub file_diagnostics_of : {M : Type 0} → Cache M → Text → List Diagnostic
file_diagnostics_of c file_uri = elim (Cache.get_parse_errors c file_uri) [
  | none ↦ or_empty (Cache.get_file_diagnostics c file_uri)
  | some [] ↦ or_empty (Cache.get_file_diagnostics c file_uri)
  | some (d ∷ ds) ↦ d ∷ ds
]

unfoldable pub send_file_diagnostics : {M : Type 0} → State M → Text → State M
unfolding file_diagnostics_of
send_file_diagnostics s file_uri =
    if not s.is_connected
    then s
    else record s { sent = s.sent ++ (file_uri, file_diagnostics_of s.cache file_uri) ∷ [] }

module _ {M G : Type 0} (env : Env M G) where
  unfoldable pub ignore_uri : Text → Bool
  ignore_uri file_uri =
      if not (has_suffix file_uri rego_suffix)
      then true
      else is_dropped (
          filter_ignored_paths env.glob env.matches env.walk (to_path file_uri ∷ [])
            env.config.ignore.files false (to_path env.root_uri))

  unfoldable pub rego_version_for_uri : Text → RegoVersion
  unfolding rego_version_from_map
  rego_version_for_uri file_uri =
      rego_version_from_map env.all_rego_versions
        (trim_prefix (to_path file_uri) (to_path env.root_uri)) rego_undefined

  -- The parser with the options of `parseOpts`.
  unfoldable pub parse_uri : Text → Text → Parsed M
  unfolding rego_version_for_uri
  parse_uri file_uri content =
      env.parse (to_relative_path file_uri env.root_uri) content (rego_version_for_uri file_uri)

  -- The capacity of the list of labels is one less than the number of references, and must not be
  -- negative.
  unfoldable pub put_refs : State M → Text → List Ref → State M × Outcome Bool
  unfolding labels
  put_refs s file_uri [] = (s, panicked)
  put_refs s file_uri (r ∷ rs) =
      (record s { stored_refs = insert file_uri (labels (r ∷ rs)) s.stored_refs }, ok true)

  unfoldable pub put_module : State M → Text → M → Outcome (Unit {0}) → State M × Outcome Bool
  unfolding put_refs
  put_module s file_uri m (ok _) =
      put_refs (record s { stored_modules = insert file_uri m s.stored_modules }) file_uri
        (env.defined_refs m)
  put_module s file_uri m (err e) =
      (s, err (wrapped (codes "failed to update rego store with parsed module:") e))
  put_module s file_uri m panicked = (s, panicked)
  put_module s file_uri m unfinished = (s, unfinished)

  abbrev pub cached_module : Cache M → Text → Text → M → Cache M
  cached_module c file_uri content m =
      Cache.set_successful_parse_line_count
        (Cache.set_module (Cache.set_parse_errors c file_uri []) file_uri m) file_uri
        (Lines.num_lines content)

  -- What happens after the parser has returned.
  unfoldable pub take_parsed : State M → Text → Text → Parsed M → State M × Outcome Bool
  unfolding put_module
  take_parsed s file_uri content (parsed m) =
      put_module (record s { cache = cached_module s.cache file_uri content m }) file_uri m
        (env.store_module m)
  take_parsed s file_uri content (failed []) = (
    record s { cache = Cache.set_parse_errors s.cache file_uri [] },
    err (message (codes "failed to parse module, but no errors were set as diagnostics")),
  )
  take_parsed s file_uri content (failed (e ∷ es)) = (
    record s {
      cache = Cache.set_parse_errors s.cache file_uri (error_diagnostics content (e ∷ es));
    },
    ok false,
  )
  take_parsed s file_uri content (unknown e) = (s, err (wrapped (codes "unknown error type:") e))

  unfoldable pub update_parse : State M → Text → State M × Outcome Bool
  unfolding take_parsed parse_uri
  update_parse s file_uri = elim (Cache.get_file_contents s.cache file_uri) [
    | none ↦ (s, err (message (codes "updateParse: failed to get file contents for uri")))
    | some content ↦ take_parsed s file_uri content (parse_uri file_uri content)
  ]
