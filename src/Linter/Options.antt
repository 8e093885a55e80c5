-- ===== src/Linter/Options.antt =====
-- pkg/linter/linter.go: the methods `With…`, each on a copy of the linter. The print hook and the
-- metrics only observe a run.
use regal.Base.{
  ◌⊎◌, inl, inr, Bool, false, not, Option, none, some, List, [], ◌∷◌, ◌++◌, if◌then◌else◌, ◌==◌,
  Text, codes, Error, wrapped, text_eq, nat_eq,
}
use regal.Config.Settings.Types.{Config}
use regal.Linter.Types.{Bundle, Input, Linter}

-- The paths that `WithCustomRulesPaths` passes on.
unfoldable pub non_empty : List Text → List Text
non_empty [] = []
non_empty (path ∷ paths) =
    let rest = non_empty paths in if not (path == []) then path ∷ rest else rest

module _ {M Q : Type 0} where
  unfoldable pub new_empty_linter : Linter M Q
  new_empty_linter = record {
    input_modules = none;
    user_config = none;
    combined_cfg = none;
    path_prefix = [];
    custom_rule_error = none;
    input_paths = [];
    rule_bundles = [];
    disable = [];
    disable_category = [];
    enable = [];
    enable_category = [];
    ignore_files = [];
    custom_rule_modules = [];
    use_collect_query = false;
    debug_mode = false;
    export_aggregates = false;
    disable_all = false;
    enable_all = false;
    profiling = false;
    instrumentation = false;
    is_prepared = false;
    prepared_query = none;
  }

  unfoldable pub new_linter : Bundle M → Linter M Q
  unfolding new_empty_linter
  new_linter loaded = record new_empty_linter { rule_bundles = loaded ∷ [] }

  unfoldable pub not_prepared : Linter M Q → Linter M Q
  not_prepared l = record l { is_prepared = false }

  unfoldable pub with_input_paths : Linter M Q → List Text → Linter M Q
  with_input_paths l paths = record l { input_paths = paths }

  unfoldable pub with_input_modules : Linter M Q → Option (Input M) → Linter M Q
  with_input_modules l input = record l { input_modules = input }

  unfoldable pub with_added_bundle : Linter M Q → Bundle M → Linter M Q
  unfolding not_prepared
  with_added_bundle l b = not_prepared (record l { rule_bundles = l.rule_bundles ++ b ∷ [] })

  -- The argument is what `rio.ModulesFromCustomRuleFS` comes to on the file system that is given, and
  -- `none` stands for a file system that is nil.
  unfoldable pub with_custom_rules_from_fs : Linter M Q → Option (Error ⊎ List M) → Linter M Q
  unfolding not_prepared
  with_custom_rules_from_fs l none = not_prepared l
  with_custom_rules_from_fs l (some (inr modules)) =
      not_prepared (record l { custom_rule_modules = l.custom_rule_modules ++ modules })
  with_custom_rules_from_fs l (some (inl e)) =
      not_prepared (record l { custom_rule_error = some e })

  module _ (is_dir : Text → Bool) (read_file : Text → Error ⊎ Text)
      (modules_of_dir : Text → Error ⊎ List M)
      (modules_of_file : Text → Text → Error ⊎ List M) where
    unfoldable pub with_custom_rules : Linter M Q → List Text → Linter M Q
    unfolding not_prepared with_custom_rules_from_fs
    with_custom_rules l [] = not_prepared l
    with_custom_rules l (path ∷ paths) =
        let from_dir =
          with_custom_rules (with_custom_rules_from_fs l (some (modules_of_dir path))) paths in
        let from_file = λ (contents : Text).
          with_custom_rules (with_custom_rules_from_fs l (some (modules_of_file path contents)))
            paths in
        if is_dir path then from_dir else elim (read_file path) [
          | inr contents ↦ from_file contents
          | inl e ↦ not_prepared (record l {
            custom_rule_error =
                some (wrapped (codes "failed to read custom rule file " ++ (path ++ codes ":")) e);
          })
        ]

    unfoldable pub with_custom_rules_paths : Linter M Q → List Text → Linter M Q
    unfolding with_custom_rules non_empty
    with_custom_rules_paths l paths = with_custom_rules l (non_empty paths)

  unfoldable pub with_debug_mode : Linter M Q → Bool → Linter M Q
  with_debug_mode l debug_mode = record l { debug_mode = debug_mode }

  unfoldable pub with_user_config : Linter M Q → Config → Linter M Q
  unfolding not_prepared
  with_user_config l cfg = not_prepared (record l { user_config = some cfg })

  unfoldable pub with_disabled_rules : Linter M Q → List Text → Linter M Q
  unfolding not_prepared
  with_disabled_rules l disable = not_prepared (record l { disable = disable })

  unfoldable pub with_disable_all : Linter M Q → Bool → Linter M Q
  unfolding not_prepared
  with_disable_all l disable_all = not_prepared (record l { disable_all = disable_all })

  unfoldable pub with_disabled_categories : Linter M Q → List Text → Linter M Q
  unfolding not_prepared
  with_disabled_categories l disable_category =
      not_prepared (record l { disable_category = disable_category })

  unfoldable pub with_enabled_rules : Linter M Q → List Text → Linter M Q
  unfolding not_prepared
  with_enabled_rules l enable = not_prepared (record l { enable = enable })

  unfoldable pub with_enable_all : Linter M Q → Bool → Linter M Q
  unfolding not_prepared
  with_enable_all l enable_all = not_prepared (record l { enable_all = enable_all })

  unfoldable pub with_enabled_categories : Linter M Q → List Text → Linter M Q
  unfolding not_prepared
  with_enabled_categories l enable_category =
      not_prepared (record l { enable_category = enable_category })

  unfoldable pub with_ignore : Linter M Q → List Text → Linter M Q
  unfolding not_prepared
  with_ignore l ignore = not_prepared (record l { ignore_files = ignore })

  unfoldable pub with_profiling : Linter M Q → Bool → Linter M Q
  with_profiling l enabled = record l { profiling = enabled }

  unfoldable pub with_instrumentation : Linter M Q → Bool → Linter M Q
  with_instrumentation l enabled = record l { instrumentation = enabled }

  unfoldable pub with_path_prefix : Linter M Q → Text → Linter M Q
  unfolding not_prepared
  with_path_prefix l path_prefix = not_prepared (record l { path_prefix = path_prefix })

  unfoldable pub with_export_aggregates : Linter M Q → Bool → Linter M Q
  with_export_aggregates l enabled = record l { export_aggregates = enabled }

  unfoldable pub with_collect_query : Linter M Q → Bool → Linter M Q
  with_collect_query l enabled = record l { use_collect_query = enabled }
