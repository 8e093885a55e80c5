-- ===== src/Linter/Merge/Joined.antt =====
-- pkg/linter/linter.go: the report of `lint` is made of those of the files, in their order.
use regal.Base.{
  ℕ, ◌+◌, ◌≡◌, refl, sym, ap, ◌∙◌, Bool, true, ◌||◌, Option, some, List, [], ◌∷◌, ◌++◌,
  append_assoc, append-nil, arith, ltb, length, Text, Error, Outcome, ok, err, panicked, unfinished,
  >>=-eq-ok, text_eq,
}
use regal.Base.Dict.{lookup}
use regal.Fixer.Fixes.{Violation}
use regal.Profile.{add_profile_entries, add_profile_entries_lem, time_at, time_in}
use regal.Linter.Types.{Input, Notice, Report}
use regal.Linter.Merge.{
  empty_report, entries_or_none, merge_result, merge_results, merged, results_of, wait, lint,
}

module _ {O : Type 0} where
  abbrev pub all_violations : List (Report O) → List Violation
  all_violations [] = []
  all_violations (r ∷ rs) = r.violations ++ all_violations rs

  abbrev pub all_notices : List (Report O) → List Notice
  all_notices [] = []
  all_notices (r ∷ rs) = r.notices ++ all_notices rs

  abbrev pub all_times : Text → List (Report O) → ℕ
  all_times loc [] = 0
  all_times loc (r ∷ rs) = time_in loc (entries_or_none r.aggregate_profile) + all_times loc rs

module _ {O : Type 0} (merge_objects : O → O → Option O) where
  merge_result_lem :
      (profiling : Bool) (r result out : Report O)
      → merge_result merge_objects profiling r result ≡ ok out
      → (out.violations ≡ r.violations ++ result.violations)
        × (out.notices ≡ r.notices ++ result.notices)
        × (profiling ≡ true
            → out.aggregate_profile
              ≡ some (
                  add_profile_entries
                    (entries_or_none r.aggregate_profile)
                    (entries_or_none result.aggregate_profile)))
  unfolding merge_result
  merge_result_lem profiling r result out h =
      let (a, _, h1) = >>=-eq-ok _ _ h in
      let (d, _, done) = >>=-eq-ok _ _ h1 in
      (ground (arith, done), ground (arith, done), λ on. ground (arith, done, on))

  merge_results_lem :
      (profiling : Bool) (r out : Report O) (results : List (Report O))
      → merge_results merge_objects profiling r results ≡ ok out
      → (out.violations ≡ r.violations ++ all_violations results)
        × (out.notices ≡ r.notices ++ all_notices results)
        × (profiling ≡ true
            → (loc : Text)
            → time_at loc (entries_or_none out.aggregate_profile)
              ≡ time_at loc (entries_or_none r.aggregate_profile) + all_times loc results)
  unfolding merge_results
  merge_results_lem profiling r out [] h =
      let same : r ≡ out = ground (arith, h) in
      rw (← same) (sym (append-nil r.violations), sym (append-nil r.notices), λ on loc. omega arith)
  merge_results_lem profiling r out (result ∷ results) h =
      let (r1, one, rest) = >>=-eq-ok _ _ h in
      let (vs, ns, ps) = merge_result_lem profiling r result r1 one in
      let (vs', ns', ps') = merge_results_lem profiling r1 out results rest in
      (
        vs'
            ∙ ap (λ l. l ++ all_violations results) vs
            ∙ append_assoc r.violations result.violations (all_violations results),
        ns'
            ∙ ap (λ l. l ++ all_notices results) ns
            ∙ append_assoc r.notices result.notices (all_notices results),
        λ on loc. omega (
          arith,
          ps' on loc,
          ap (λ p. time_at loc (entries_or_none p)) (ps on),
          add_profile_entries_lem (entries_or_none r.aggregate_profile)
              (entries_or_none result.aggregate_profile) loc,
        ),
      )

module _ {O : Type 0} where
  abbrev pub times_of : Text → List (Report O) → ℕ
  times_of loc [] = 0
  times_of loc (r ∷ rs) = time_at loc (entries_or_none r.aggregate_profile) + all_times loc rs

wait-eq-ok :
    {O : Type 0} (is_cancelled : Error → Bool) (m : Outcome (List (Report O)))
    (rs : List (Report O))
    → wait is_cancelled m ≡ ok rs
    → m ≡ ok rs
unfolding wait
wait-eq-ok is_cancelled (ok rs) out h = h
wait-eq-ok is_cancelled (err e) out h = absurd (ground (arith, h))
wait-eq-ok is_cancelled panicked out h = cc
wait-eq-ok is_cancelled unfinished out h = cc

merged_lem :
    {O : Type 0} (merge_objects : O → O → Option O) (profiling : Bool) (results : List (Report O))
    (out : Report O)
    → merged merge_objects profiling results ≡ ok out
    → (out.violations ≡ all_violations results)
      × (out.notices ≡ all_notices results)
      × (profiling ≡ true
          → (loc : Text)
          → time_at loc (entries_or_none out.aggregate_profile) ≡ times_of loc results)
unfolding merged lookup
merged_lem merge_objects profiling [] out h =
    let same : empty_report ≡ out = ground (arith, h) in rw (← same) (refl, refl, λ on loc. refl)
merged_lem merge_objects profiling (r ∷ results) out h =
    merge_results_lem merge_objects profiling r out results h

module _ {M O : Type 0}
    (evaluate : (collect : Bool) → (name content : Text) → Option M → Outcome (Report O))
    (merge_objects : O → O → Option O) (is_cancelled : Error → Bool) where
  -- Where `lint` returns a report, every file was evaluated, with aggregates collected if there are
  -- several of them or the linter is told to; its violations and its notices are those of the files,
  -- in the order of the file names; and with profiling, the time at each location is the sum of the
  -- times that the files have there.
  pub lint_lem :
      (use_collect_query profiling : Bool) (input : Input M) (out : Report O)
      → lint evaluate merge_objects is_cancelled use_collect_query profiling input ≡ ok out
      → (results : List (Report O)) × (results_of evaluate
            (ltb 1 (length input.file_names) || use_collect_query)
            input
            input.file_names
          ≡ ok results)
        × (out.violations ≡ all_violations results)
        × (out.notices ≡ all_notices results)
        × (profiling ≡ true
            → (loc : Text)
            → time_at loc (entries_or_none out.aggregate_profile) ≡ times_of loc results)
  unfolding lint
  lint_lem use_collect_query profiling input out h =
      let (results, waited, rest) = >>=-eq-ok _ _ h in
      let (vs, ns, ps) = merged_lem merge_objects profiling results out rest in
      (results, wait-eq-ok is_cancelled _ results waited, vs, ns, ps)
