-- ===== src/Linter/Types.antt =====
-- pkg/linter/linter.go, pkg/report/report.go and pkg/rules/rules.go: the linter and what it works on.
-- `M` stands for a parsed module and `O` for an object of the policy engine.
use regal.Base.{ℕ, Bool, Option, List, Text, Error, text_eq}
use regal.Base.Dict.{Dict}
use regal.Profile.{ProfileEntry}
use regal.Fixer.Fixes.{Violation}
use regal.Config.Settings.Types.{Config}

pub record Notice : Type 0 where
  pub title : Text
  pub description : Text
  pub category : Text
  pub level : Text
  pub severity : Text

pub record Summary : Type 0 where
  pub files_scanned : ℕ
  pub files_failed : ℕ
  pub rules_skipped : ℕ
  pub num_violations : ℕ

-- `Aggregates` is an object by file name, nil or not; the directives are an object that only the
-- policies read. The profile and the metrics may be nil.
pub record Report (O : Type 0) : Type 0 where
  pub aggregates : Option (Dict Text O)
  pub aggregate_profile : Option (Dict Text ProfileEntry)
  pub ignore_directives : Option O
  pub violations : List Violation
  pub notices : List Notice
  pub profile : List ProfileEntry
  pub summary : Summary

-- `rules.Input`; a module may be nil.
pub record Input (M : Type 0) : Type 0 where
  pub file_content : Dict Text Text
  pub modules : Dict Text (Option M)
  pub file_names : List Text

-- A bundle: its modules.
pub record Bundle (M : Type 0) : Type 0 where
  pub modules : List M

-- `Q` stands for a prepared query.
pub record Linter (M Q : Type 0) : Type 0 where
  pub input_modules : Option (Input M)
  pub user_config : Option Config
  pub combined_cfg : Option Config
  pub path_prefix : Text
  pub custom_rule_error : Option Error
  pub input_paths : List Text
  pub rule_bundles : List (Bundle M)
  pub disable : List Text
  pub disable_category : List Text
  pub enable : List Text
  pub enable_category : List Text
  pub ignore_files : List Text
  pub custom_rule_modules : List M
  pub use_collect_query : Bool
  pub debug_mode : Bool
  pub export_aggregates : Bool
  pub disable_all : Bool
  pub enable_all : Bool
  pub profiling : Bool
  pub instrumentation : Bool
  pub is_prepared : Bool
  pub prepared_query : Option Q
