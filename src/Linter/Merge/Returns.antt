-- ===== src/Linter/Merge/Returns.antt =====
-- pkg/linter/linter.go: when the reports of the files can be joined. The directives of a file are an
-- object whose keys are names of files, its own as bundle/regal/main/main.rego makes it.
use regal.Base.{
  ◌≡◌, refl, sym, ap, ◌≢◌, inl, inr, Bool, true, false, ◌||◌, Option, none, some, List, [], ◌∷◌,
  ◌++◌, append-nil, arith, ltb, if◌then◌else◌, Bool-cases, length, All, contains, contains-append,
  Text, Error, Outcome, ok, ◌>>=◌, text_eq,
}
use regal.Base.Dict.{Dict}
use regal.Linter.Types.{Input, Report}
use regal.Linter.Merge.{
  empty_report, insert_all, entries_or_none, merge_aggregates, merge_directives, merge_result,
  merge_results, merged, results_of, wait, lint,
}
use regal.Profile.{add_profile_entries}

-- No key of the first list is in the second.
abbrev pub AreApart : List Text → List Text → Type 0
AreApart as_ bs = (k : Text) → contains as_ k ≡ true → contains bs k ≡ false

-- `Merge` of two objects of the engine: without a key in common they merge, and the result has the keys
-- of both. Of other objects nothing is said; values that cannot be merged make it fail.
pub record IsMerge {O : Type 0} (keys_of : O → List Text) (merge_objects : O → O → Option O)
    : Type 0 where
  pub merges :
      (a b : O)
      → AreApart (keys_of a) (keys_of b)
      → (c : O) × (merge_objects a b ≡ some c)
        × ((k : Text) → contains (keys_of c) k ≡ (contains (keys_of a) k || contains (keys_of b) k))

module _ {O : Type 0} (keys_of : O → List Text) where
  -- What evaluating a file in order to lint many of them gives: both objects are there.
  abbrev pub IsComplete : Report O → Type 0
  IsComplete r = (r.aggregates ≢ none) × (r.ignore_directives ≢ none)

  abbrev pub keys_or_none : Option O → List Text
  keys_or_none none = []
  keys_or_none (some o) = keys_of o

  -- The keys of the directives of a report.
  abbrev pub directive_keys : Report O → List Text
  directive_keys r = keys_or_none r.ignore_directives

  abbrev pub all_directive_keys : List (Report O) → List Text
  all_directive_keys [] = []
  all_directive_keys (r ∷ rs) = directive_keys r ++ all_directive_keys rs

  -- The directives of each report are about files that no later report has directives about.
  abbrev pub HaveOwnKeys : List (Report O) → Type 0
  HaveOwnKeys [] = Unit
  HaveOwnKeys (r ∷ rs) = AreApart (directive_keys r) (all_directive_keys rs) × HaveOwnKeys rs

  module _ (merge_objects : O → O → Option O) (law : IsMerge keys_of merge_objects) where
    merge_directives-IsMerge :
        (into from : Option O)
        → into ≢ none
        → from ≢ none
        → AreApart (keys_or_none into) (keys_or_none from)
        → (c : O) × (merge_directives merge_objects into from ≡ ok (some c))
          × ((k : Text)
              → contains (keys_of c) k
                ≡ (contains (keys_or_none into) k || contains (keys_or_none from) k))
    unfolding merge_directives
    merge_directives-IsMerge none from d d' apart = absurd (d refl)
    merge_directives-IsMerge (some a) none d d' apart = absurd (d' refl)
    merge_directives-IsMerge (some a) (some b) d d' apart =
        let (c, made, ks) = law.merges a b apart in (c, rw made refl, ks)

    merge_aggregates-some :
        (into from : Option (Dict Text O))
        → into ≢ none
        → from ≢ none
        → (x : Dict Text O) × (merge_aggregates into from ≡ ok (some x))
    unfolding merge_aggregates
    merge_aggregates-some none from a a' = absurd (a refl)
    merge_aggregates-some (some x) none a a' = absurd (a' refl)
    merge_aggregates-some (some x) (some y) a a' = (insert_all y x, refl)

    merge_result-IsComplete :
        (profiling : Bool) (r result : Report O)
        → IsComplete r
        → IsComplete result
        → AreApart (directive_keys r) (directive_keys result)
        → (out : Report O) × (merge_result merge_objects profiling r result ≡ ok out)
          × IsComplete out
          × ((k : Text)
              → contains (directive_keys out) k
                ≡ (contains (directive_keys r) k || contains (directive_keys result) k))
    unfolding merge_result ◌>>=◌
    merge_result-IsComplete profiling r result (a, d) (a', d') apart =
        let (x, e) = merge_aggregates-some r.aggregates result.aggregates a a' in
        let (c, f, ks) =
          merge_directives-IsMerge r.ignore_directives result.ignore_directives d d' apart in
        let out : Report O = record r {
          violations = r.violations ++ result.violations;
          notices = r.notices ++ result.notices;
          aggregates = some x;
          ignore_directives = some c;
          aggregate_profile =
              if profiling
              then some (
                  add_profile_entries (entries_or_none r.aggregate_profile)
                    (entries_or_none result.aggregate_profile))
              else r.aggregate_profile;
        } in
        (out, rw (e, f) refl, ((λ q. cc), (λ q. cc)), ks)

    apart_rest :
        (a b c all : List Text)
        → AreApart a (b ++ all)
        → AreApart b all
        → ((k : Text) → contains c k ≡ (contains a k || contains b k))
        → AreApart c all
    apart_rest a b c all p q ks k h = elim (Bool-cases (contains a k)) [
      | inl in_a ↦ ground (arith, p k in_a, contains-append b all k)
      | inr not_a ↦ q k (ground (arith, ks k, h, not_a))
    ]

    apart_first : (a b all : List Text) → AreApart a (b ++ all) → AreApart a b
    apart_first a b all p k h = ground (arith, p k h, contains-append b all k)

    merge_results_returns :
        (profiling : Bool) (r : Report O) (results : List (Report O))
        → IsComplete r
        → All IsComplete results
        → HaveOwnKeys (r ∷ results)
        → (out : Report O) × (merge_results merge_objects profiling r results ≡ ok out)
          × ((k : Text)
              → contains (directive_keys out) k ≡ contains (all_directive_keys (r ∷ results)) k)
    unfolding merge_results ◌>>=◌
    merge_results_returns profiling r [] c cs own =
        (r, refl, λ k. ap (λ x. contains x k) (sym (append-nil (directive_keys r))))
    merge_results_returns profiling r (result ∷ results) c (c', cs) (apart, (apart', own)) =
        let all = all_directive_keys results in
        let (r1, one, c1, ks) =
          merge_result-IsComplete profiling r result c c'
            (apart_first (directive_keys r) (directive_keys result) all apart) in
        let (out, rest, ks') = merge_results_returns profiling r1 results c1 cs (
          apart_rest (directive_keys r) (directive_keys result) (directive_keys r1) all apart apart'
              ks,
          own,
        ) in
        (
          out,
          rw one rest,
          λ k. ground (
            arith,
            ks' k,
            ks k,
            contains-append (directive_keys r1) all k,
            contains-append (directive_keys result) all k,
            contains-append (directive_keys r) (directive_keys result ++ all) k,
          ),
        )

    merged_returns :
        (profiling : Bool) (results : List (Report O))
        → All IsComplete results
        → HaveOwnKeys results
        → (out : Report O) × (merged merge_objects profiling results ≡ ok out)
          × ((k : Text) → contains (directive_keys out) k ≡ contains (all_directive_keys results) k)
    unfolding merged
    merged_returns profiling [] cs own = (empty_report, refl, λ k. refl)
    merged_returns profiling (r ∷ results) (c, cs) own =
        merge_results_returns profiling r results c cs own

module _ {M O : Type 0}
    (evaluate : (collect : Bool) → (name content : Text) → Option M → Outcome (Report O))
    (merge_objects : O → O → Option O) (is_cancelled : Error → Bool) (keys_of : O → List Text) where
  -- If every file can be evaluated, with aggregates and directives in each report, and the directives
  -- of each are about files that no other report has directives about, then `lint` returns a report,
  -- and its directives are about the files that those of the reports are about. Of the merging of two
  -- objects it is assumed that it succeeds without a common key, and that the result has both's keys.
  pub lint_returns :
      (use_collect_query profiling : Bool) (input : Input M) (results : List (Report O))
      → IsMerge keys_of merge_objects
      → results_of evaluate
          (ltb 1 (length input.file_names) || use_collect_query)
          input
          input.file_names
        ≡ ok results
      → All (IsComplete keys_of) results
      → HaveOwnKeys keys_of results
      → (out : Report O) × (lint evaluate merge_objects is_cancelled use_collect_query profiling
            input
          ≡ ok out)
        × ((k : Text)
            → contains (directive_keys keys_of out) k
              ≡ contains (all_directive_keys keys_of results) k)
  unfolding lint wait ◌>>=◌
  lint_returns use_collect_query profiling input results law evaluated complete own =
      let (out, done, ks) =
        merged_returns keys_of merge_objects law profiling results complete own in
      (out, rw evaluated done, ks)
