-- ===== src/Linter/Run/Summed.antt =====
-- pkg/linter/linter.go: what a report of `Lint` says.
use regal.Base.{
  ℕ, ◌+◌, ◌≤◌, ◌≡◌, refl, sym, ap, ◌∙◌, inl, inr, Bool, true, false, ◌&&◌, ◌||◌, Option, none, some,
  List, [], ◌∷◌, ◌++◌, append-nil, arith, ltb, if◌then◌else◌, Bool-cases, Option-cases, length, All,
  contains, Text, Error, Outcome, ok, err, >>=-eq-ok, wrap-eq-ok, text_eq,
}
use regal.Base.Dict.{Dict, lookup, insert}
use regal.Fixer.Fixes.{Violation}
use regal.Profile.{or_zero, violations_file_count}
use regal.Config.Settings.Types.{Config}
use regal.Linter.Types.{Input, Linter, Notice, Report}
use regal.Linter.Merge.{mark_aggregate, lint, results_of, lint_with_aggregate_rules}
use regal.Linter.Merge.Joined.{all_violations, all_notices, lint_lem}
use regal.Linter.Notices.{notice_eq, count_skipped_from_notices}
use regal.Linter.Notices.Counted.{count_none, count_skipped_from_notices_lem}
use regal.Linter.Run.{
  Engine, has_aggregates, summed, inputs, nothing_given, with_aggregates, lint_prepared,
  ensure_prepared, lint_ready, lint_all,
}

length-insert :
    {V : Type 0} (k : Text) (v : V) (d : Dict Text V) → length (insert k v d) ≤ length d + 1
unfolding insert
length-insert k v [] = omega arith
length-insert k v ((j, w) ∷ d) = ground (arith, length-insert k v d)

violations_file_count-le :
    (vs : List Violation) (fc : Dict Text ℕ)
    → length (violations_file_count vs fc) ≤ length fc + length vs
unfolding violations_file_count
violations_file_count-le [] fc = omega arith
violations_file_count-le (v ∷ vs) fc =
    let n = or_zero (lookup v.location.file fc) + 1 in
    omega (
      arith,
      violations_file_count-le vs (insert v.location.file n fc),
      length-insert v.location.file n fc,
    )

abbrev pub IsAggregate : Violation → Type 0
IsAggregate v = v.is_aggregate ≡ true

mark_aggregate-All : (vs : List Violation) → All IsAggregate (mark_aggregate vs)
unfolding mark_aggregate
mark_aggregate-All [] = tt
mark_aggregate-All (v ∷ vs) = (refl, mark_aggregate-All vs)

-- The numbers in the report are those of its contents.
pub record IsSummed {O : Type 0} (files_scanned : ℕ) (r : Report O) : Type 0 where
  pub scanned : r.summary.files_scanned ≡ files_scanned
  pub violations_counted : r.summary.num_violations ≡ length r.violations
  pub notices_counted : r.summary.rules_skipped + count_none r.notices ≡ length r.notices
  pub failed_bounded : r.summary.files_failed ≤ r.summary.num_violations

summed_lem :
    {O : Type 0} (export_aggregates profiling : Bool) (files_scanned : ℕ) (r : Report O)
    (skipped : ℕ)
    → let out = summed export_aggregates profiling files_scanned (r, skipped) in
      (out.violations ≡ r.violations)
      × (out.notices ≡ r.notices)
      × (out.summary ≡ record {
        files_scanned = files_scanned;
        files_failed = length (violations_file_count r.violations []);
        rules_skipped = skipped;
        num_violations = length r.violations;
      })
      × (export_aggregates ≡ false → out.aggregates ≡ none)
unfolding summed
summed_lem export_aggregates false files_scanned r skipped = (refl, refl, refl, λ e. rw e refl)
summed_lem export_aggregates true files_scanned r skipped =
    elim (Option-cases r.aggregate_profile) [
      | inl nothing ↦ rw (nothing, summed) (refl, refl, refl, λ e. rw e refl)
      | inr (m, profiled) ↦ rw (profiled, summed) (refl, refl, refl, λ e. rw e refl)
    ]

summed-IsSummed :
    {O : Type 0} (export_aggregates profiling : Bool) (files_scanned : ℕ) (prepared : List Notice)
    (r : Report O)
    → IsSummed files_scanned
        (summed export_aggregates profiling files_scanned (count_skipped_from_notices prepared r))
summed-IsSummed export_aggregates profiling files_scanned prepared r =
    let (counted, skipped) = count_skipped_from_notices prepared r in
    let (vs, ns, summary, _) =
      summed_lem export_aggregates profiling files_scanned counted skipped in
    let (_, _, _, counts, _) = count_skipped_from_notices_lem prepared r in
    record {
      scanned = ap (λ s. s.files_scanned) summary;
      violations_counted = ap (λ s. s.num_violations) summary ∙ ap (λ l. length l) (sym vs);
      notices_counted = omega (
        arith,
        ap (λ s. s.rules_skipped) summary,
        ap (λ l. count_none l) ns,
        ap (λ l. length l) ns,
        counts,
      );
      failed_bounded = omega (
        arith,
        ap (λ s. s.files_failed) summary,
        ap (λ s. s.num_violations) summary,
        violations_file_count-le counted.violations [],
      );
    }

module _ {M Q O G : Type 0} (engine : Engine M Q O G) where
  with_aggregates_lem :
      (l : Linter M Q) (q : Q) (num_files : ℕ) (r out : Report O)
      → with_aggregates engine l q num_files r ≡ ok out
      → (extra : List Violation) × (out.violations ≡ r.violations ++ extra)
        × All IsAggregate extra
        × (out.notices ≡ r.notices)
        × ((ltb 1 num_files && has_aggregates r.aggregates) ≡ false → extra ≡ [])
  unfolding with_aggregates lint_with_aggregate_rules
  with_aggregates_lem l q num_files r out h =
      elim (Bool-cases (ltb 1 num_files && has_aggregates r.aggregates)) [
        | inl needed ↦
            let (rep, found, done) = >>=-eq-ok _ _ (rw needed at h) in
            let (raw, _, marked) = >>=-eq-ok _ _ (wrap-eq-ok _ _ found) in
            (
              rep.violations,
              ground (arith, done),
              (let e : mark_aggregate raw.violations ≡ rep.violations = ground (arith, marked) in
                  rw (← e) (mark_aggregate-All raw.violations)),
              ground (arith, done),
              λ e. absurd (cc (e, needed)),
            )
        | inr single ↦
            let same : r ≡ out = ground (arith, h, single) in
            ([], rw (← same) (sym (append-nil r.violations)), tt, rw (← same) refl, λ e. refl)
      ]

module _ {M Q O G : Type 0} (engine : Engine M Q O G) where
  -- How a report comes from the inputs of a linter that is prepared.
  pub record Linted (l : Linter M Q) (conf : Config) (q : Q) (r : Report O) : Type 0 where
    pub input : Input M
    pub read : inputs engine l conf ≡ ok input
    pub given : nothing_given engine l ≡ false
    pub results : List (Report O)
    pub evaluated :
        results_of
          (λ collect name content m. engine.evaluate q collect l.profiling name content m)
          (ltb 1 (length input.file_names) || l.use_collect_query)
          input
          input.file_names
        ≡ ok results
    pub extra : List Violation
    pub joined : r.violations ≡ all_violations results ++ extra
    pub aggregate : All IsAggregate extra
    pub alone : ltb 1 (length input.file_names) ≡ false → extra ≡ []
    pub noticed :
        (n : Notice)
        → contains r.notices n
          ≡ (contains (all_notices results) n || contains (engine.prepared_notices q) n)
    pub totals : IsSummed (length input.file_names) r
    pub not_exported : l.export_aggregates ≡ false → r.aggregates ≡ none

  not_nothing :
      (b : Bool) (e : Error) (m : Outcome (Report O)) (r1 : Report O)
      → (if b then err e else m) ≡ ok r1
      → (b ≡ false) × (m ≡ ok r1)
  not_nothing true e m r1 h = cc
  not_nothing false e m r1 h = (refl, h)

  from_steps :
      (l : Linter M Q) (conf : Config) (q : Q) (input : Input M) (r1 r2 r : Report O)
      → inputs engine l conf ≡ ok input
      → nothing_given engine l ≡ false
      → lint
          (λ collect name content m. engine.evaluate q collect l.profiling name content m)
          engine.merge_objects
          engine.is_cancelled
          l.use_collect_query
          l.profiling
          input
        ≡ ok r1
      → with_aggregates engine l q (length input.file_names) r1 ≡ ok r2
      → summed l.export_aggregates l.profiling
          (length input.file_names)
          (count_skipped_from_notices (engine.prepared_notices q) r2)
        ≡ r
      → Linted l conf q r
  from_steps l conf q input r1 r2 r read something linted extended done =
      let (results, evaluated, vs, ns, _) =
        lint_lem (λ collect name content m. engine.evaluate q collect l.profiling name content m)
          engine.merge_objects engine.is_cancelled l.use_collect_query l.profiling input r1
          linted in
      let (extra, vs', aggregate, ns', single) =
        with_aggregates_lem engine l q (length input.file_names) r1 r2 extended in
      let (counted, skipped) = count_skipped_from_notices (engine.prepared_notices q) r2 in
      let (kept, _, _, _, same) = count_skipped_from_notices_lem (engine.prepared_notices q) r2 in
      let (vs'', ns'', _, hidden) =
        summed_lem l.export_aggregates l.profiling (length input.file_names) counted skipped in
      rw (← done) (record {
        input = input;
        read = read;
        given = something;
        results = results;
        evaluated = evaluated;
        extra = extra;
        joined = vs'' ∙ same ∙ vs' ∙ ap (λ x. x ++ extra) vs;
        aggregate = aggregate;
        alone = λ e. single (ground (arith, e));
        noticed = λ n.
            ap (λ x. contains x n) ns''
            ∙ kept n
            ∙ ap (λ x. contains x n || contains (engine.prepared_notices q) n) (ns' ∙ ns);
        totals =
            summed-IsSummed l.export_aggregates l.profiling (length input.file_names)
              (engine.prepared_notices q) r2;
        not_exported = hidden;
      })

  lint_prepared-Linted :
      (l : Linter M Q) (conf : Config) (q : Q) (r : Report O)
      → lint_prepared engine l conf q ≡ ok r
      → Linted l conf q r
  unfolding lint_prepared
  lint_prepared-Linted l conf q r h =
      let (input, read, h1) = >>=-eq-ok _ _ h in
      let (r1, checked, h2) = >>=-eq-ok _ _ h1 in
      let (r2, extended, done) = >>=-eq-ok _ _ h2 in
      let (something, linted) = not_nothing _ _ _ r1 checked in
      from_steps l conf q input r1 r2 r read something (wrap-eq-ok _ _ linted) extended
        (let final : (x : Report O) → ok x ≡ ok r → x ≡ r = λ x e. cc (e) in final _ done)

  both_there :
      (l : Linter M Q) (c : Option Config) (p : Option Q) (r : Report O)
      → lint_ready engine l c p ≡ ok r
      → (conf : Config) × (q : Q) × (c ≡ some conf)
        × (p ≡ some q)
        × (lint_prepared engine l conf q ≡ ok r)
  unfolding lint_ready
  both_there l none p r h = cc
  both_there l (some conf) none r h = cc
  both_there l (some conf) (some q) r h = (conf, q, refl, refl, h)

  -- Where `Lint` returns a report, it is that of the linter itself, if it was prepared, and else that
  -- of the linter that `Prepare` makes of it; something was given to lint; every file was evaluated;
  -- the violations are those of the files in order, and behind them only aggregate violations, none
  -- if there is one file; the notices are those of the files and of the preparation; the summary
  -- counts the files, the violations and the notices that are not silent, and no more failed files
  -- than violations; and aggregates are returned only where that is asked for.
  pub lint_all-Linted :
      (l : Linter M Q) (r : Report O)
      → lint_all engine l ≡ ok r
      → (l' : Linter M Q) × (ensure_prepared engine l ≡ ok l')
        × (conf : Config) × (q : Q) × (l'.combined_cfg ≡ some conf)
        × (l'.prepared_query ≡ some q)
        × Linted l' conf q r
  unfolding lint_all
  lint_all-Linted l r h =
      let (l', ready, h1) = >>=-eq-ok _ _ h in
      let (conf, q, has_config, has_query, linted) =
        both_there l' l'.combined_cfg l'.prepared_query r h1 in
      (l', ready, conf, q, has_config, has_query, lint_prepared-Linted l' conf q r linted)
