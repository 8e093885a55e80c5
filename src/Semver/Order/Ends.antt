-- ===== src/Semver/Order/Ends.antt =====
-- internal/semver/semver.go `Compare`: when its loop ends.
use regal.Base.{
  ℕ, zero, suc, ◌≤◌, ◌<◌, ◌≡◌, refl, sym, ap, ◌∙◌, subst, ◌≢◌, ◌↔◌, inl, inr, true, ◌&&◌, Option,
  none, some, List, [], ◌∷◌, arith, Bool-cases, length, All, ◌==◌, eq_iff, Text, ℤ, pos, negsuc,
  Outcome, ok, ne-of_beq, text_eq, nat_eq,
}
use regal.Go.Strings.{Lacks, split, join, join-split, split-Lacks, split-ne-nil}
use regal.Semver.{Version, cut, all_parts, is_meta_identifier, IsValid}
use regal.Semver.Cut.{cut-join}
use regal.Semver.Order.{
  text_ltb, is_all_decimals, int_verdict, text_verdict, after_verdict, or_else, numbers_verdict,
  same_kind_verdict, verdict, compare_fields, compare_pre_release, compare,
}

text_verdict-none : (a b : Text) → text_verdict a b ≡ none → a ≡ b
unfolding text_verdict text_ltb
text_verdict-none [] [] h = refl
text_verdict-none [] (c ∷ t) h = ground arith
text_verdict-none (b ∷ s) [] h = ground arith
text_verdict-none (b ∷ s) (c ∷ t) h = ground (arith, text_verdict-none s t)

int_verdict-none : (a b : ℤ) → int_verdict a b ≡ none → a ≡ b
unfolding int_verdict
int_verdict-none a b h = ground arith

module _ (atoi : Text → ℤ) where
  -- Two identifiers that are numbers differ in value if they differ in text.
  abbrev pub TellsApart : Text → Text → Type 0
  TellsApart a b = is_all_decimals a ≡ true → is_all_decimals b ≡ true → atoi a ≡ atoi b → a ≡ b

  -- The identifiers at the same position.
  abbrev pub AllToldApart : List Text → List Text → Type 0
  AllToldApart (a ∷ as') (b ∷ bs) = TellsApart a b × AllToldApart as' bs
  AllToldApart _ _ = Unit

  same_kind_verdict-none : (a b : Text) → TellsApart a b → same_kind_verdict atoi a b ≡ none → a ≡ b
  unfolding same_kind_verdict
  same_kind_verdict-none a b apart h = elim (Bool-cases (is_all_decimals a && is_all_decimals b)) [
    | inl numbers ↦
        apart (ground arith) (ground arith)
          (int_verdict-none (atoi a) (atoi b) (ground (arith, h, numbers)))
    | inr words ↦ text_verdict-none a b (ground (arith, h, words))
  ]

  after_verdict-none : (a b : Text) → after_verdict a b ≡ none → (a ≡ []) ↔ (b ≡ [])
  unfolding after_verdict
  after_verdict-none a b h = (
    λ e. ground (arith, h, eq_iff a [], eq_iff b []),
    λ e. ground (arith, h, eq_iff a [], eq_iff b []),
  )

  or_else-none : (p q : Option ℤ) → or_else p q ≡ none → (p ≡ none) × (q ≡ none)
  or_else-none none q h = (refl, h)
  or_else-none (some r) q h = cc

  verdict-none :
      (a after_a b after_b : Text)
      → TellsApart a b
      → verdict atoi a after_a b after_b ≡ none
      → (a ≡ b) × ((after_a ≡ []) ↔ (after_b ≡ []))
  unfolding verdict
  verdict-none a after_a b after_b apart h =
      let (kind, after) =
        or_else-none (same_kind_verdict atoi a b) (after_verdict after_a after_b)
          (ground (arith, h)) in
      (same_kind_verdict-none a b apart kind, after_verdict-none after_a after_b after)

  abbrev Ends : Outcome ℤ → Type 0
  Ends answer = (r : ℤ) × (answer ≡ ok r)

  round-Ends :
      (p : Option ℤ) (next : Outcome ℤ)
      → (p ≡ none → Ends next)
      → Ends (elim p [ some r ↦ ok r | none ↦ next ])
  round-Ends none next h = h refl
  round-Ends (some r) next h = (r, refl)

  abbrev AreFields : List Text → Type 0
  AreFields ps = All (λ p. (p ≢ []) × Lacks b'.' p) ps

  join-ne-nil : (p : Text) (ps : List Text) → p ≢ [] → join (p ∷ ps) b'.' ≢ []
  unfolding join
  join-ne-nil [] ps h e = h refl
  join-ne-nil (c ∷ p) ps h e = cc

  abbrev FieldsEnd : ℕ → Type 0
  FieldsEnd fuel =
      (a : Text) (as' : List Text) (b : Text) (bs : List Text)
      → AreFields (a ∷ as')
      → AreFields (b ∷ bs)
      → AllToldApart (a ∷ as') (b ∷ bs)
      → a ∷ as' ≢ b ∷ bs
      → length as' < fuel
      → Ends (compare_fields atoi fuel a (join as' b'.') b (join bs b'.'))

  next_fields-Ends :
      (fuel : ℕ) (as' bs : List Text)
      → FieldsEnd fuel
      → AreFields as'
      → AreFields bs
      → AllToldApart as' bs
      → ((join as' b'.' ≡ []) ↔ (join bs b'.' ≡ []))
      → as' ≢ bs
      → length as' < suc fuel
      → Ends (
          compare_fields atoi fuel
            (cut (join as' b'.') b'.').0
            (cut (join as' b'.') b'.').1
            (cut (join bs b'.') b'.').0
            (cut (join bs b'.') b'.').1)
  next_fields-Ends fuel [] [] go fas fbs told ends differ h = absurd (differ refl)
  next_fields-Ends fuel [] (b ∷ bs) go fas ((fb, _), fbs) told ends differ h =
      absurd (join-ne-nil b bs fb (ends.0 (unfold join in refl)))
  next_fields-Ends fuel (a ∷ as') [] go ((fa, _), fas) fbs told ends differ h =
      absurd (join-ne-nil a as' fa (ends.1 (unfold join in refl)))
  next_fields-Ends fuel (a ∷ as') (b ∷ bs) go (fa, fas) (fb, fbs) told ends differ h =
      rw (cut-join a as' b'.' fa.1, cut-join b bs b'.' fb.1)
        (go a as' b bs (fa, fas) (fb, fbs) told differ (omega (arith, h)))

  compare_fields-Ends : (fuel : ℕ) → FieldsEnd fuel
  unfolding compare_fields
  compare_fields-Ends zero a as' b bs fa fb told differ h = absurd (omega arith)
  compare_fields-Ends (suc fuel) a as' b bs (fa, fas) (fb, fbs) (apart, told) differ h =
      round-Ends (verdict atoi a (join as' b'.') b (join bs b'.')) _ (λ e.
        let (same, ends) = verdict-none a (join as' b'.') b (join bs b'.') apart e in
        next_fields-Ends fuel as' bs (compare_fields-Ends fuel) fas fbs told ends
          (λ s. differ (cc (same, s))) h)

  parts-AreFields : (ps : List Text) → all_parts ps ≡ true → All (Lacks b'.') ps → AreFields ps
  parts-AreFields [] h l = tt
  parts-AreFields (p ∷ ps) h (l, ls) =
      ((λ e. ground (arith, h, eq_iff p []), l), parts-AreFields ps (ground (arith, h)) ls)

  -- Two different, valid pre-releases.
  fields_of-Ends :
      (fuel : ℕ) (ps qs : List Text)
      → ps ≢ []
      → qs ≢ []
      → AreFields ps
      → AreFields qs
      → AllToldApart ps qs
      → ps ≢ qs
      → length ps ≤ fuel
      → Ends (
          compare_fields atoi fuel
            (cut (join ps b'.') b'.').0
            (cut (join ps b'.') b'.').1
            (cut (join qs b'.') b'.').0
            (cut (join qs b'.') b'.').1)
  fields_of-Ends fuel [] qs np nq fp fq told differ h = absurd (np refl)
  fields_of-Ends fuel (p ∷ ps) [] np nq fp fq told differ h = absurd (nq refl)
  fields_of-Ends fuel (p ∷ ps) (q ∷ qs) np nq (fp, fps) (fq, fqs) told differ h =
      rw (cut-join p ps b'.' fp.1, cut-join q qs b'.' fq.1)
        (compare_fields-Ends fuel p ps q qs (fp, fps) (fq, fqs) told differ (omega (arith, h)))

  parts_of-AreFields : (p : Text) → p ≢ [] → IsValid p → AreFields (split p b'.')
  unfolding is_meta_identifier
  parts_of-AreFields p some_text (inl empty) = absurd (some_text empty)
  parts_of-AreFields p some_text (inr valid) =
      parts-AreFields (split p b'.') valid (split-Lacks p b'.')

  fields_of_texts-Ends :
      (fuel : ℕ) (p q : Text)
      → IsValid p
      → IsValid q
      → AllToldApart (split p b'.') (split q b'.')
      → length (split p b'.') ≤ fuel
      → p ≢ q
      → p ≢ []
      → q ≢ []
      → Ends (compare_fields atoi fuel (cut p b'.').0 (cut p b'.').1 (cut q b'.').0 (cut q b'.').1)
  fields_of_texts-Ends fuel p q hp hq told h differ np nq =
      let ends =
        fields_of-Ends fuel (split p b'.') (split q b'.') (split-ne-nil p b'.')
          (split-ne-nil q b'.') (parts_of-AreFields p np hp) (parts_of-AreFields q nq hq) told
          (λ e. differ (sym (join-split p b'.') ∙ ap (λ l. join l b'.') e ∙ join-split q b'.')) h in
      subst
        (λ x.
          Ends
            (compare_fields atoi fuel (cut x b'.').0 (cut x b'.').1 (cut q b'.').0 (cut q b'.').1))
        (join-split p b'.')
        (subst
          (λ y. Ends (
            compare_fields atoi fuel (cut (join (split p b'.') b'.') b'.').0
              (cut (join (split p b'.') b'.') b'.').1 (cut y b'.').0 (cut y b'.').1))
          (join-split q b'.') ends)

  compare_pre_release-Ends :
      (fuel : ℕ) (p q : Text)
      → IsValid p
      → IsValid q
      → AllToldApart (split p b'.') (split q b'.')
      → length (split p b'.') ≤ fuel
      → Ends (compare_pre_release atoi fuel p q)
  unfolding compare_pre_release
  compare_pre_release-Ends fuel p q hp hq told h = elim (Bool-cases (p == q)) [
    | inl same ↦ (pos 0, ground (arith, same))
    | inr differ ↦ elim (Bool-cases (p == [])) [
      | inl ep ↦ elim (Bool-cases (q == [])) [
        | inl eq ↦ absurd (ne-of_beq p q differ ((eq_iff p []).0 ep ∙ sym ((eq_iff q []).0 eq)))
        | inr nq ↦ (pos 1, ground (arith, differ, ep, nq))
      ]
      | inr np ↦ elim (Bool-cases (q == [])) [
        | inl eq ↦ (negsuc 0, ground (arith, differ, np, eq))
        | inr nq ↦
            let (r, e) =
              fields_of_texts-Ends fuel p q hp hq told h (ne-of_beq p q differ) (ne-of_beq p [] np)
                (ne-of_beq q [] nq) in
            (r, rw (differ, np, nq, compare_pre_release) e)
      ]
    ]
  ]

  -- Fuel for every identifier of the first pre-release is enough for a comparison of two versions
  -- with valid pre-releases to end, if no two numbers at one position differ in text alone, as by
  -- leading zeros.
  pub compare-Ends :
      (fuel : ℕ) (v w : Version)
      → IsValid v.pre_release
      → IsValid w.pre_release
      → AllToldApart (split v.pre_release b'.') (split w.pre_release b'.')
      → length (split v.pre_release b'.') ≤ fuel
      → (r : ℤ) × (compare atoi fuel v w ≡ ok r)
  unfolding compare
  compare-Ends fuel v w hv hw told h =
      round-Ends (numbers_verdict v w) _
        (λ _. compare_pre_release-Ends fuel v.pre_release w.pre_release hv hw told h)
