-- ===== src/Linter/Run/Tests.antt =====
-- The linter over a small engine: a module is the path of its package, a query a number, an object a
-- number, and a glob a text.
use regal.Base.{
  ℕ, ◌+◌, ◌≡◌, refl, ◌↔◌, Bool, true, false, ◌||◌, Option, none, some, List, [], ◌∷◌, ◌++◌, ltb,
  length, ◌==◌, contains, Text, codes, text_beq, pos, Error, Outcome, ok, ◌>>=◌, wrap, text_eq,
  nat_eq,
}
use regal.Base.Dict.{lookup, insert}
use regal.Fixer.Fixes.{Violation}
use regal.Profile.{ProfileEntry, time_at}
use regal.Config.Settings.Types.{Config, zero_config, zero_rule}
use regal.Util.Set.{Set}
use regal.Linter.Types.{Bundle, Input, Linter, Notice, Report}
use regal.Linter.Options.{new_linter, with_input_paths, with_user_config}
use regal.Linter.Validate.{validate}
use regal.Linter.Validate.Accepts.{names_category, names_rule, has_category, has_rule, validate_iff}
use regal.Linter.Merge.{empty_report, results_of, lint, lint_with_aggregate_rules, entries_or_none}
use regal.Linter.Merge.Joined.{all_violations, all_notices, times_of, lint_lem}
use regal.Linter.Notices.{notice_eq, count_skipped_from_notices}
use regal.Linter.Notices.Counted.{
  IsSorted, HasNoRepeats, count_none, count_skipped_from_notices_lem,
}
use regal.Linter.Prepare.{get_config, prepare}
use regal.Linter.Run.{Engine, with_aggregates, ensure_prepared, lint_all}
use regal.Linter.Run.Summed.{Linted, lint_all-Linted}
use regal.Linter.Run.Again.{with_user_config_ignored}

abbrev conf : Config
conf = record zero_config { rules = (codes "style", (codes "line-length", zero_rule) ∷ []) ∷ [] }

abbrev line_length : List Text
line_length = codes "regal" ∷ codes "rules" ∷ codes "style" ∷ codes "line-length" ∷ []

abbrev loaded : Bundle (List Text)
loaded = record { modules = line_length ∷ [] }

-- A violation in a file.
abbrev too_long : Text → Violation
too_long file = record {
  title = codes "line-length";
  description = [];
  category = codes "style";
  level = codes "error";
  location = record { end = none; text = none; file = file; column = pos 1; row = pos 1 };
  is_aggregate = false;
}

abbrev found_in : Text → Report ℕ
found_in name = record empty_report {
  violations = too_long name ∷ [];
  aggregates = some ((name, 1) ∷ []);
  ignore_directives = some 1;
}

abbrev across : Report ℕ
across = record empty_report { violations = too_long (codes "all") ∷ [] }

abbrev skipped : Notice
skipped = record {
  title = codes "use-some";
  description = [];
  category = codes "style";
  level = codes "notice";
  severity = codes "low";
}

abbrev engine : Engine (List Text) ℕ ℕ Text
engine = record {
  combine = λ user. ok conf;
  path_of = λ m. m;
  print = λ s. [];
  compile = λ l c. ok 0;
  run_prepare = λ q. ok q;
  glob = λ p. ok p;
  matches = λ g name. g == name;
  walk = λ p found. ok (found ++ p ∷ []);
  read_inputs = λ paths path_prefix versions.
      ok (record { file_names = paths; file_content = []; modules = [] });
  evaluate = λ q collect profiling name content m. ok (found_in name);
  evaluate_aggregates = λ q profiling aggregates directives. ok across;
  empty_object = 0;
  merge_objects = λ a b. some (a + b);
  is_cancelled = λ e. false;
  prepared_notices = λ q. skipped ∷ skipped ∷ [];
}

abbrev l : Linter (List Text) ℕ
l = with_input_paths (new_linter loaded) (codes "a.rego" ∷ codes "b.rego" ∷ [])

abbrev ready : Linter (List Text) ℕ
ready = record l { combined_cfg = some conf; prepared_query = some 0; is_prepared = true }

ready_lem :
    prepare engine.combine engine.path_of engine.print engine.compile engine.run_prepare l
    ≡ ok ready
unfolding prepare ◌>>=◌ with_input_paths new_linter validate regal.Util.Set.size regal.Util.Set.diff
    regal.Util.Set.add regal.Util.Set.new_set regal.Util.Set.put contains
    regal.Util.Set.contains_all text_beq
ready_lem = refl

abbrev ready_again : Linter (List Text) ℕ
ready_again = record ready { user_config = some zero_config }

ready_again_lem :
    prepare engine.combine engine.path_of engine.print engine.compile engine.run_prepare
      (with_user_config ready zero_config)
    ≡ ok ready_again
unfolding prepare ◌>>=◌ with_input_paths with_user_config new_linter validate regal.Util.Set.size
    regal.Util.Set.diff regal.Util.Set.add regal.Util.Set.new_set regal.Util.Set.put contains
    regal.Util.Set.contains_all text_beq
ready_again_lem = refl

with_user_config_ignored_example :
    (get_config engine.combine (with_user_config ready zero_config)
      ≡ get_config engine.combine ready)
    × (ready_again.combined_cfg ≡ ready.combined_cfg)
    × (ready_again.user_config ≡ some zero_config)
with_user_config_ignored_example =
    with_user_config_ignored engine.combine engine.path_of engine.print engine.compile
      engine.run_prepare l ready ready_again zero_config ready_lem ready_again_lem

validate_iff_example : (validate engine.path_of engine.print l conf ≡ ok tt) ↔ (
    (l.custom_rule_error ≡ none)
    × ((c : Text) → names_category l conf c ≡ true → has_category engine.path_of l c ≡ true)
    × ((r : Text) → names_rule l conf r ≡ true → has_rule engine.path_of l r ≡ true))
validate_iff_example = validate_iff engine.path_of engine.print l conf

abbrev marked : Violation
marked = record (too_long (codes "all")) { is_aggregate = true }

abbrev report : Report ℕ
report = record empty_report {
  violations = too_long (codes "a.rego") ∷ too_long (codes "b.rego") ∷ marked ∷ [];
  notices = skipped ∷ [];
  ignore_directives = some 2;
  summary = record { files_scanned = 2; files_failed = 3; rules_skipped = 1; num_violations = 3 };
}

linted : lint_all engine l ≡ ok report
unfolding lint_all ◌>>=◌ with_input_paths new_linter prepare validate regal.Util.Set.size
    regal.Util.Set.diff regal.Util.Set.add regal.Util.Set.new_set regal.Util.Set.put contains
    regal.Util.Set.contains_all text_beq regal.Config.Filter.filter_ignored_paths
    regal.Config.Filter.filter_paths regal.Config.Filter.walk_all insert lookup wrap
    regal.Config.Filter.compile_all regal.Config.Filter.compile_patterns
    regal.Config.Filter.ensure_suffix regal.Config.Filter.exclude_file regal.Config.Filter.excluded
    regal.Config.Filter.has_suffix regal.Config.Filter.keep_files lint lint_with_aggregate_rules
    count_skipped_from_notices regal.Profile.violations_file_count regal.Linter.Notices.above
    regal.Linter.Notices.same_notice
linted = refl

lint_all-Linted_example :
    (l' : Linter (List Text) ℕ) × (ensure_prepared engine l ≡ ok l')
    × (conf' : Config) × (q : ℕ) × (l'.combined_cfg ≡ some conf')
    × (l'.prepared_query ≡ some q)
    × Linted engine l' conf' q report
lint_all-Linted_example = lint_all-Linted engine l report linted

abbrev input : Input (List Text)
input = record {
  file_names = codes "a.rego" ∷ codes "b.rego" ∷ [];
  file_content = [];
  modules = [];
}

abbrev evaluate : Bool → Text → Text → Option (List Text) → Outcome (Report ℕ)
evaluate collect name content m = ok (found_in name)

abbrev merge : ℕ → ℕ → Option ℕ
merge a b = some (a + b)

abbrev never : Error → Bool
never e = false

abbrev both : Report ℕ
both = record empty_report {
  violations = too_long (codes "a.rego") ∷ too_long (codes "b.rego") ∷ [];
  aggregates = some ((codes "a.rego", 1) ∷ (codes "b.rego", 1) ∷ []);
  ignore_directives = some 2;
  aggregate_profile = some [];
}

both_lem : lint evaluate merge never false true input ≡ ok both
unfolding lint regal.Base.◌>>=◌ insert regal.Profile.add_profile_entries regal.Base.text_beq
both_lem = refl

lint_lem_example :
    (results : List (Report ℕ)) × (results_of evaluate
        (ltb 1 (length input.file_names) || false)
        input
        input.file_names
      ≡ ok results)
    × (both.violations ≡ all_violations results)
    × (both.notices ≡ all_notices results)
    × (◌≡◌ {A = Bool} true true
        → (loc : Text)
        → time_at loc (entries_or_none both.aggregate_profile) ≡ times_of loc results)
lint_lem_example = lint_lem evaluate merge never false true input both both_lem

count_skipped_from_notices_lem_example :
    let (out, n) =
      count_skipped_from_notices (skipped ∷ []) (record both { notices = skipped ∷ [] }) in
    ((x : Notice)
      → contains out.notices x ≡ (contains (skipped ∷ []) x || contains (skipped ∷ []) x))
    × IsSorted out.notices
    × HasNoRepeats out.notices
    × (n + count_none out.notices ≡ length out.notices)
    × (out.violations ≡ both.violations)
count_skipped_from_notices_lem_example =
    count_skipped_from_notices_lem (skipped ∷ []) (record both { notices = skipped ∷ [] })

abbrev profiled : Linter (List Text) ℕ
profiled = record ready { profiling = true }

abbrev across_marked : Report ℕ
across_marked = record across { violations = marked ∷ [] }

abbrev extended : Report ℕ
extended = record both {
  violations = too_long (codes "a.rego") ∷ too_long (codes "b.rego") ∷ marked ∷ [];
  aggregate_profile = none;
}

across_lem :
    lint_with_aggregate_rules engine.empty_object
      (engine.evaluate_aggregates 0 true)
      both.aggregates
      both.ignore_directives
    ≡ ok across_marked
unfolding lint_with_aggregate_rules regal.Base.◌>>=◌
across_lem = refl

extended_lem : with_aggregates engine profiled 0 2 both ≡ ok extended
unfolding with_aggregates regal.Base.◌>>=◌ lint_with_aggregate_rules
extended_lem = refl
