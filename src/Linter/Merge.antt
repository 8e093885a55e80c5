-- ===== src/Linter/Merge.antt =====
-- pkg/linter/linter.go: `lint` and `lintWithAggregateRules`. `evaluate` lints one file: it converts the
-- module, runs the query and reads its result; `merge_objects` is `Merge` of two objects of the policy
-- engine. The goroutines only share the results, one place each; where several files fail, the error
-- is that of the first by position.
pub mod Joined
pub mod Returns
mod Tests
use regal.Base.{
  Bool, true, ◌||◌, Option, none, some, List, [], ◌∷◌, ◌++◌, ltb, if◌then◌else◌, length, Text,
  codes, Error, wrapped, Outcome, ok, err, panicked, unfinished, ◌>>=◌, ◌>>◌, wrap, text_eq,
}
use regal.Base.Dict.{Dict, lookup, insert}
use regal.Fixer.Fixes.{Violation}
use regal.Profile.{ProfileEntry, add_profile_entries}
use regal.Linter.Types.{Input, Report, Summary}

abbrev pub empty_report : {O : Type 0} → Report O
empty_report = record {
  aggregates = none;
  aggregate_profile = none;
  ignore_directives = none;
  violations = [];
  notices = [];
  profile = [];
  summary = record { files_scanned = 0; files_failed = 0; rules_skipped = 0; num_violations = 0 };
}

-- `m[k]` for a string, and for a module
abbrev pub content_of : Option Text → Text
content_of none = []
content_of (some s) = s

abbrev pub module_of : {M : Type 0} → Option (Option M) → Option M
module_of none = none
module_of (some m) = m

abbrev pub entries_or_none : Option (Dict Text ProfileEntry) → Dict Text ProfileEntry
entries_or_none none = []
entries_or_none (some m) = m

-- `Foreach` with `Insert`
unfoldable pub insert_all : {O : Type 0} → Dict Text O → Dict Text O → Dict Text O
insert_all [] into = into
insert_all ((k, v) ∷ from) into = insert_all from (insert k v into)

-- A method of a nil object panics.
unfoldable pub merge_aggregates :
    {O : Type 0} → (into from : Option (Dict Text O)) → Outcome (Option (Dict Text O))
unfolding insert_all
merge_aggregates (some into) (some from) = ok (some (insert_all from into))
merge_aggregates none from = panicked
merge_aggregates (some into) none = panicked

module _ {O : Type 0} (merge_objects : O → O → Option O) where
  unfoldable pub merge_directives : (into from : Option O) → Outcome (Option O)
  merge_directives into none = ok into
  merge_directives none (some from) = panicked
  merge_directives (some into) (some from) = ok (merge_objects into from)

  -- The body of the loop over `results[1:]`.
  unfoldable pub merge_result : (profiling : Bool) → Report O → Report O → Outcome (Report O)
  unfolding merge_aggregates merge_directives
  merge_result profiling r result = do
    aggregates' ← merge_aggregates r.aggregates result.aggregates
    directives' ← merge_directives r.ignore_directives result.ignore_directives
    ok (record r {
      violations = r.violations ++ result.violations;
      notices = r.notices ++ result.notices;
      aggregates = aggregates';
      ignore_directives = directives';
      aggregate_profile =
          if profiling
          then some (
              add_profile_entries (entries_or_none r.aggregate_profile)
                (entries_or_none result.aggregate_profile))
          else r.aggregate_profile;
    })

  unfoldable pub merge_results :
      (profiling : Bool) → Report O → List (Report O) → Outcome (Report O)
  unfolding merge_result
  merge_results profiling r [] = ok r
  merge_results profiling r (result ∷ results) = do
    r' ← merge_result profiling r result
    merge_results profiling r' results

  unfoldable pub merged : (profiling : Bool) → List (Report O) → Outcome (Report O)
  unfolding merge_results
  merged profiling [] = ok empty_report
  merged profiling (first ∷ results) = merge_results profiling first results

module _ {O : Type 0} (is_cancelled : Error → Bool) where
  unfoldable pub wait : Outcome (List (Report O)) → Outcome (List (Report O))
  wait (ok rs) = ok rs
  wait (err e) =
      if is_cancelled e
      then err (wrapped (codes "context cancelled:") e)
      else err (wrapped (codes "error encountered in rule evaluation") e)
  wait panicked = panicked
  wait unfinished = unfinished

module _ {M O : Type 0}
    (evaluate : (collect : Bool) → (name content : Text) → Option M → Outcome (Report O)) where
  unfoldable pub results_of : (collect : Bool) → Input M → List Text → Outcome (List (Report O))
  results_of collect input [] = ok []
  results_of collect input (name ∷ names) = do
    r ←
        evaluate collect name (content_of (lookup name input.file_content))
          (module_of (lookup name input.modules))
    rs ← results_of collect input names
    ok (r ∷ rs)

  module _ (merge_objects : O → O → Option O) (is_cancelled : Error → Bool) where
    unfoldable pub lint : (use_collect_query profiling : Bool) → Input M → Outcome (Report O)
    unfolding results_of wait merged
    lint use_collect_query profiling input = do
      let collect = ltb 1 (length input.file_names) || use_collect_query
      results ← wait is_cancelled (results_of collect input input.file_names)
      merged merge_objects profiling results

-- `rep.Violations[i].IsAggregate = true`
unfoldable pub mark_aggregate : List Violation → List Violation
mark_aggregate [] = []
mark_aggregate (v ∷ vs) = record v { is_aggregate = true } ∷ mark_aggregate vs

-- Aggregates that are there and not empty.
unfoldable pub given : {O : Type 0} → Option (Dict Text O) → Option (Dict Text O)
given none = none
given (some []) = none
given (some (a ∷ as_)) = some (a ∷ as_)

-- `evaluate_aggregates` runs the query on aggregates and directives.
module _ {O : Type 0} (empty_object : O)
    (evaluate_aggregates : (aggregates : Option (Dict Text O))
      → (ignore_directives : O) → Outcome (Report O)) where
  unfoldable pub directives_or_empty : Option O → O
  directives_or_empty none = empty_object
  directives_or_empty (some d) = d

  unfoldable pub lint_with_aggregate_rules :
      (aggregates : Option (Dict Text O)) → (ignore_directives : Option O) → Outcome (Report O)
  unfolding directives_or_empty given mark_aggregate
  lint_with_aggregate_rules aggregates ignore_directives = do
    rep ←
        wrap (codes "error evaluating aggregate rules:")
          (evaluate_aggregates (given aggregates) (directives_or_empty ignore_directives))
    ok (record rep { violations = mark_aggregate rep.violations })
