-- ===== src/Lsp/Server/Linted.antt =====
-- internal/lsp/lint.go and the diagnostics worker of internal/lsp/server.go: the linter over what the
-- cache holds.
pub mod Published
use regal.Base.{
  ◌⊎◌, Bool, true, false, Option, none, some, List, [], ◌∷◌, if◌then◌else◌, Text, codes, Error,
  Outcome, ok, err, panicked, unfinished, ◌>>=◌, ◌>>◌, wrap, text_eq,
}
use regal.Base.Dict.{Dict, lookup, keys}
use regal.Semver.Order.{text_ltb}
use regal.Util.Slices.{map_get_or}
use regal.Linter.Types.{Linter, Bundle, Input, Report}
use regal.Linter.Options.{
  new_linter, with_path_prefix, with_custom_rules_paths, with_user_config, with_input_modules,
}
use regal.Linter.Run.{Engine, lint_all}
use regal.Linter.Prepare.{prepare}
use regal.Config.Settings.Types.{Config}
use regal.Lsp.Types.{Diagnostic}
use regal.Lsp.Cache
use regal.Lsp.Cache.{Cache}
use regal.Lsp.Diagnostics.{convert_report_to_diagnostics, or_empty}
use regal.Lsp.Server.{Env, State, send_file_diagnostics}

unfoldable pub insert_text : Text → List Text → List Text
insert_text a [] = a ∷ []
insert_text a (b ∷ bs) = if text_ltb b a then b ∷ insert_text a bs else a ∷ b ∷ bs

-- `util.KeysSorted`
unfoldable pub sort_texts : List Text → List Text
unfolding insert_text
sort_texts [] = []
sort_texts (a ∷ as_) = insert_text a (sort_texts as_)

abbrev pub all_modules : {M : Type 0} → Dict Text M → Dict Text (Option M)
all_modules [] = []
all_modules ((uri, m) ∷ modules) = (uri, some m) ∷ all_modules modules

-- `rules.NewInput`
unfoldable pub new_input : {M : Type 0} → Dict Text Text → Dict Text M → Input M
unfolding sort_texts
new_input file_content modules = record {
  file_content = file_content;
  modules = all_modules modules;
  file_names = sort_texts (keys modules);
}

-- No parse error, or none that is known.
abbrev pub has_no_errors : Option (List Diagnostic) → Bool
has_no_errors none = true
has_no_errors (some []) = true
has_no_errors (some (_ ∷ _)) = false

-- The loop over the names of the input.
unfoldable pub set_all_diagnostics :
    {M : Type 0} → Dict Text (List Diagnostic) → List Text → Cache M → Cache M
set_all_diagnostics diags [] c = c
set_all_diagnostics diags (uri ∷ uris) c = set_all_diagnostics diags uris (
    if has_no_errors (Cache.get_parse_errors c uri)
    then Cache.set_file_diagnostics c uri (or_empty (lookup uri diags))
    else c)

unfoldable pub send_all : {M : Type 0} → State M → List Text → State M
send_all s [] = s
send_all s (uri ∷ uris) = send_all (send_file_diagnostics s uri) uris

-- The rules of the program and what reads those of the user.
pub record Rules (M : Type 0) : Type 0 where
  pub embedded : Bundle M
  pub custom_rules_path : Text
  pub is_dir : Text → Bool
  pub read_file : Text → Error ⊎ Text
  pub modules_of_dir : Text → Error ⊎ List M
  pub modules_of_file : Text → Text → Error ⊎ List M

module _ {M Q O G : Type 0} (env : Env M G) (engine : Engine M Q O G) (rules : Rules M) where
  unfoldable pub workspace_linter : Cache M → Linter M Q
  unfolding new_input
  workspace_linter c =
      let l =
        with_custom_rules_paths rules.is_dir rules.read_file rules.modules_of_dir
          rules.modules_of_file (with_path_prefix (new_linter rules.embedded) env.root_uri)
          (rules.custom_rules_path ∷ []) in
      with_input_modules (with_user_config l env.config)
        (some (new_input (Cache.get_all_files c) (Cache.get_all_modules c)))

  unfoldable pub report_of : Linter M Q → Outcome (Report O)
  report_of l = do
    prepared ←
        wrap (codes "failed to prepare linter:")
          (prepare engine.combine engine.path_of engine.print engine.compile engine.run_prepare l)
    wrap (codes "failed to lint:") (lint_all engine prepared)

  unfoldable pub update_workspace_diagnostics : Cache M → Outcome (Cache M)
  unfolding report_of workspace_linter set_all_diagnostics
  update_workspace_diagnostics c = do
    rpt ← report_of (workspace_linter c)
    ok (
        set_all_diagnostics (convert_report_to_diagnostics rpt.violations env.root_uri)
          (new_input (Cache.get_all_files c) (Cache.get_all_modules c)).file_names c)

  -- What the worker does with the result: an error is only logged.
  unfoldable pub note_linted : State M → Outcome (Cache M) → State M × Outcome (Unit {0})
  unfolding send_all
  note_linted s (ok c) = (send_all (record s { cache = c }) (keys (Cache.get_all_files c)), ok tt)
  note_linted s (err e) = (s, ok tt)
  note_linted s panicked = (s, panicked)
  note_linted s unfinished = (s, unfinished)

  unfoldable pub lint_workspace : State M → State M × Outcome (Unit {0})
  unfolding update_workspace_diagnostics note_linted
  lint_workspace s = note_linted s (update_workspace_diagnostics s.cache)
