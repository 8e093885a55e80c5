-- ===== src/Fixer/Run/Settled.antt =====
-- pkg/fixer/fixer.go `Fix`: what is true when its loop has come to an end.
use regal.Base.{
  ℕ, zero, suc, ◌≡◌, refl, ap, ◌∙◌, subst, ◌≢◌, ◌⊎◌, inl, inr, Bool, true, false, not, Option, none,
  some, List, [], ◌∷◌, arith, if◌then◌else◌, length, All, ◌==◌, Text, codes, Outcome, ok, ◌>>=◌,
  wrap, >>=-eq-ok, wrap-eq-ok, text_eq, nat_eq,
}
use regal.Fixer.Provider.{FileProvider}
use regal.Fixer.Fixes.{Violation, Config, FixResult, Fix}
use regal.Fixer.Report.{Report, new_report}
use regal.Fixer.Setup.{Fixer, Linter}
use regal.Fixer.Run.{
  call_fix, first_result, fix_violation, apply_one_fix, round, lint_and_fix, fixable,
  apply_linter_fixes, fix,
}

module _ {S : Type 0} (fp : FileProvider S) (candidate : Text → Text) (abs : Text → Outcome Text)
    (fuel : ℕ) (f : Fixer) where
  -- Every call of a fix for a violation that it is named after finds nothing to do.
  abbrev pub NothingToDo : Outcome (Option Config) → S → Fix → Violation → Type 0
  NothingToDo config s fix v =
      (v.title == fix.name) ≡ true
      → (c : Option Config) × (config ≡ ok c) × (call_fix fp candidate abs fuel f fix v c s ≡ ok [])

  first_result-none :
      (starting_files : List Text) (file : Text) (results : List FixResult)
      (rest : Outcome (Option (S × Report))) (st : S × Report)
      → first_result fp candidate abs fuel f starting_files file results rest st ≡ ok none
      → (results ≡ []) × (rest ≡ ok none)
  unfolding first_result
  first_result-none starting_files file [] rest st h = (refl, h)
  first_result-none starting_files file (r ∷ rs) rest st h =
      let (st', e, made) = >>=-eq-ok _ _ h in cc

  module _ (config : Outcome (Option Config)) (starting_files : List Text) (s : S)
      (r : Report) where
    -- One violation, with the rest of the loop: whether or not the fix is named after it.
    one_violation-none :
        (fix : Fix) (v : Violation) (rest : Outcome (Option (S × Report))) (b : Bool)
        → (v.title == fix.name) ≡ b
        → (if not b then rest else do
          c ← wrap (codes "failed to get config") config
          results ← call_fix fp candidate abs fuel f fix v c s
          first_result fp candidate abs fuel f starting_files v.location.file results rest (s, r))
          ≡ ok none
        → NothingToDo config s fix v × (rest ≡ ok none)
    one_violation-none fix v rest false e h = (λ same. cc, h)
    one_violation-none fix v rest true e h =
        let (c, hc, h1) = >>=-eq-ok _ _ h in
        let (results, called, h2) = >>=-eq-ok _ _ h1 in
        let (empty, done) =
          first_result-none starting_files v.location.file results rest (s, r) h2 in
        (λ _. (c, wrap-eq-ok (codes "failed to get config") config hc, called ∙ ap ok empty), done)

    fix_violation-none :
        (fix : Fix) (vs : List Violation)
        → fix_violation fp candidate abs fuel f config starting_files fix vs (s, r) ≡ ok none
        → All (NothingToDo config s fix) vs
    unfolding fix_violation
    fix_violation-none fix [] h = tt
    fix_violation-none fix (v ∷ vs) h =
        let (here, later) =
          one_violation-none fix v
            (fix_violation fp candidate abs fuel f config starting_files fix vs (s, r))
            (v.title == fix.name) refl h in
        (here, fix_violation-none fix vs later)

    made-none :
        (made : Option (S × Report)) (rest : Outcome (Option (S × Report)))
        → elim made [ some st' ↦ ok (some st') | none ↦ rest ] ≡ ok none
        → (made ≡ none) × (rest ≡ ok none)
    made-none none rest h = (refl, h)
    made-none (some st) rest h = cc

    apply_one_fix-none :
        (fixes : List Fix) (vs : List Violation)
        → apply_one_fix fp candidate abs fuel f config starting_files fixes vs (s, r) ≡ ok none
        → All (λ fix. All (NothingToDo config s fix) vs) fixes
    unfolding apply_one_fix
    apply_one_fix-none [] vs h = tt
    apply_one_fix-none (fix ∷ fixes) vs h =
        let rest = apply_one_fix fp candidate abs fuel f config starting_files fixes vs (s, r) in
        let (made, e, h1) = >>=-eq-ok _ _ h in
        let (nothing, done) = made-none made rest h1 in
        (fix_violation-none fix vs (e ∙ ap ok nothing), apply_one_fix-none fixes vs done)

  module _ (l : Linter S) where
    -- The linter, on the rules that were asked for, finds nothing in these files, or every call of
    -- a registered fix for a violation of its name finds nothing to do.
    abbrev pub Settled : List Text → S → Type 0
    Settled rules s =
        (vs : List Violation) × (l.lint rules s ≡ ok vs)
        × ((vs ≡ []) ⊎ All (λ fix. All (NothingToDo l.get_config s fix) vs) f.registered_fixes)

    none_or_fixes-Settled :
        (rules starting_files : List Text) (s : S) (r : Report) (vs : List Violation)
        → l.lint rules s ≡ ok vs
        → (if length vs == 0
            then ok none
            else apply_one_fix fp candidate abs fuel f l.get_config starting_files
                f.registered_fixes vs
                (s, r))
          ≡ ok none
        → Settled rules s
    none_or_fixes-Settled rules starting_files s r [] e h = ([], e, inl refl)
    none_or_fixes-Settled rules starting_files s r (v ∷ vs) e h = (
      v ∷ vs,
      e,
      inr (
          apply_one_fix-none l.get_config starting_files s r f.registered_fixes (v ∷ vs)
            (ground (arith, h))),
    )

    round-none :
        (rules starting_files : List Text) (s : S) (r : Report)
        → round fp candidate abs fuel f l rules starting_files (s, r) ≡ ok none
        → Settled rules s
    unfolding round
    round-none rules starting_files s r h =
        let (vs, e, h1) = >>=-eq-ok _ _ h in
        none_or_fixes-Settled rules starting_files s r vs
          (wrap-eq-ok (codes "failed to lint before fixing") (l.lint rules s) e) h1

    last_round-Settled :
        (rounds : ℕ) (rules starting_files : List Text) (st st' : S × Report)
        (made : Option (S × Report))
        → ((st1 : S × Report)
            → lint_and_fix fp candidate abs fuel f rounds l rules starting_files st1 ≡ ok st'
            → Settled rules st'.0)
        → round fp candidate abs fuel f l rules starting_files st ≡ ok made
        → elim made [
          | none ↦ ok st
          | some st1 ↦ lint_and_fix fp candidate abs fuel f rounds l rules starting_files st1
        ]
          ≡ ok st'
        → Settled rules st'.0
    last_round-Settled rounds rules starting_files st st' none later e h =
        let same : st ≡ st' = cc h in
        subst (λ x. Settled rules x.0) same (round-none rules starting_files st.0 st.1 e)
    last_round-Settled rounds rules starting_files st st' (some st1) later e h = later st1 h

    lint_and_fix-Settled :
        (rounds : ℕ) (rules starting_files : List Text) (st st' : S × Report)
        → lint_and_fix fp candidate abs fuel f rounds l rules starting_files st ≡ ok st'
        → Settled rules st'.0
    unfolding lint_and_fix
    lint_and_fix-Settled zero rules starting_files st st' h = cc
    lint_and_fix-Settled (suc rounds) rules starting_files st st' h =
        let (made, e, h1) = >>=-eq-ok _ _ h in
        last_round-Settled rounds rules starting_files st st' made
          (λ st1 h2. lint_and_fix-Settled rounds rules starting_files st1 st' h2) e h1

    apply_linter_fixes-Settled :
        (rounds : ℕ) (st st' : S × Report)
        → apply_linter_fixes fp candidate abs fuel f rounds l st ≡ ok st'
        → (enabled : List Text) × (l.determine_enabled_rules ≡ ok enabled)
          × Settled (fixable fp candidate abs fuel f enabled) st'.0
    unfolding apply_linter_fixes
    apply_linter_fixes-Settled rounds st st' h =
        let (enabled, e, h1) = >>=-eq-ok _ _ h in
        let (starting_files, _, h2) = >>=-eq-ok _ _ h1 in
        let (_, _, h3) = >>=-eq-ok _ _ h2 in
        (
          enabled,
          wrap-eq-ok _ l.determine_enabled_rules e,
          lint_and_fix-Settled rounds (fixable fp candidate abs fuel f enabled) starting_files st
              st' h3,
        )

    -- If a fixer that has fixes runs to its end, then for the files as they are now the linter finds
    -- nothing by the enabled rules that have a fix, or every call of a registered fix for a
    -- violation of its name finds nothing to do.
    pub fix-Settled :
        (rounds : ℕ) (s s' : S) (rep : Report)
        → f.registered_fixes ≢ []
        → fix fp candidate abs fuel f rounds l s ≡ ok (s', rep)
        → (enabled : List Text) × (l.determine_enabled_rules ≡ ok enabled)
          × Settled (fixable fp candidate abs fuel f enabled) s'
    unfolding fix
    fix-Settled rounds s s' rep some_fix h = go f.registered_fixes refl h
      where
        go :
            (fixes : List Fix)
            → f.registered_fixes ≡ fixes
            → ◌≡◌ {A = Outcome (S × Report)}
                (elim fixes [
                  | [] ↦ ok (s, new_report)
                  | _ ∷ _ ↦ apply_linter_fixes fp candidate abs fuel f rounds l (s, new_report)
                ])
                (ok (s', rep))
            → (enabled : List Text) × (l.determine_enabled_rules ≡ ok enabled)
              × Settled (fixable fp candidate abs fuel f enabled) s'
        go [] none_registered k = absurd (some_fix none_registered)
        go (fix ∷ fixes) e k = apply_linter_fixes-Settled rounds (s, new_report) (s', rep) k
