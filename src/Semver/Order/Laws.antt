-- ===== src/Semver/Order/Laws.antt =====
-- internal/semver/semver.go `Compare`: what its answers have to do with each other.
use regal.Base.{
  ℕ, zero, suc, ◌≡◌, refl, ◌≢◌, ◌↔◌, true, false, Option, none, some, [], ◌∷◌, arith, eq_iff, Text,
  ℤ, pos, negsuc, Outcome, ok, err, panicked, unfinished, text_eq,
}
use regal.Semver.{Version, cut}
use regal.Semver.Order.{
  text_ltb, int_verdict, text_verdict, after_verdict, or_else, numbers_verdict, same_kind_verdict,
  verdict, compare_fields, compare_pre_release, compare,
}

abbrev pub opposite : ℤ → ℤ
opposite (pos zero) = pos 0
opposite (pos (suc n)) = negsuc n
opposite (negsuc n) = pos (suc n)

abbrev pub opposites : Option ℤ → Option ℤ
opposites none = none
opposites (some r) = some (opposite r)

-- The opposite answer, where there is one.
abbrev pub turned : Outcome ℤ → Outcome ℤ
turned (ok r) = ok (opposite r)
turned (err e) = err e
turned panicked = panicked
turned unfinished = unfinished

text_ltb_asym : (s t : Text) → text_ltb s t ≡ true → text_ltb t s ≡ false
unfolding text_ltb
text_ltb_asym [] [] h = cc
text_ltb_asym [] (c ∷ t) h = refl
text_ltb_asym (b ∷ s) [] h = cc
text_ltb_asym (b ∷ s) (c ∷ t) h = ground (arith, text_ltb_asym s t)

int_verdict_swap : (a b : ℤ) → int_verdict b a ≡ opposites (int_verdict a b)
unfolding int_verdict
int_verdict_swap a b = ground arith

text_verdict_swap : (a b : Text) → text_verdict b a ≡ opposites (text_verdict a b)
unfolding text_verdict
text_verdict_swap a b = ground (arith, text_ltb_asym a b, text_ltb_asym b a)

after_verdict_swap : (a b : Text) → after_verdict b a ≡ opposites (after_verdict a b)
unfolding after_verdict
after_verdict_swap a b = ground arith

or_else_swap : (p q : Option ℤ) → or_else (opposites p) (opposites q) ≡ opposites (or_else p q)
or_else_swap none q = refl
or_else_swap (some r) q = refl

numbers_verdict_swap : (v w : Version) → numbers_verdict w v ≡ opposites (numbers_verdict v w)
unfolding numbers_verdict
numbers_verdict_swap v w = ground (
  arith,
  int_verdict_swap v.major w.major,
  int_verdict_swap v.minor w.minor,
  int_verdict_swap v.patch w.patch,
)

-- No verdict is an equality, and none is given only to equal numbers.
int_verdict_lem :
    (a b : ℤ) → (int_verdict a b ≢ some (pos 0)) × ((int_verdict a b ≡ none) ↔ (a ≡ b))
unfolding int_verdict
int_verdict_lem a b = (λ h. ground arith, (λ h. ground arith, λ h. ground arith))

numbers_verdict_lem :
    (v w : Version)
    → (numbers_verdict v w ≢ some (pos 0))
      × ((numbers_verdict v w ≡ none)
          ↔ ((v.major ≡ w.major) × (v.minor ≡ w.minor) × (v.patch ≡ w.patch)))
unfolding numbers_verdict
numbers_verdict_lem v w =
    let (x, xs) = int_verdict_lem v.major w.major in
    let (y, ys) = int_verdict_lem v.minor w.minor in
    let (z, zs) = int_verdict_lem v.patch w.patch in
    (
      λ h. ground (arith, x, y, z),
      (λ h. ground (arith, xs, ys, zs), λ h. ground (arith, xs, ys, zs)),
    )

module _ (atoi : Text → ℤ) where
  same_kind_verdict_swap :
      (a b : Text) → same_kind_verdict atoi b a ≡ opposites (same_kind_verdict atoi a b)
  unfolding same_kind_verdict
  same_kind_verdict_swap a b =
      ground (arith, int_verdict_swap (atoi a) (atoi b), text_verdict_swap a b)

  verdict_swap :
      (a after_a b after_b : Text)
      → verdict atoi b after_b a after_a ≡ opposites (verdict atoi a after_a b after_b)
  unfolding verdict
  verdict_swap a after_a b after_b = ground (
    arith,
    same_kind_verdict_swap a b,
    after_verdict_swap after_a after_b,
    or_else_swap (same_kind_verdict atoi a b) (after_verdict after_a after_b),
  )

  answer_swap :
      (p : Option ℤ) (next next' : Outcome ℤ)
      → next' ≡ turned next
      → elim (opposites p) [ some r ↦ ok r | none ↦ next' ]
        ≡ turned (elim p [ some r ↦ ok r | none ↦ next ])
  answer_swap none next next' h = h
  answer_swap (some r) next next' h = refl

  compare_fields_swap :
      (fuel : ℕ) (a after_a b after_b : Text)
      → compare_fields atoi fuel b after_b a after_a
        ≡ turned (compare_fields atoi fuel a after_a b after_b)
  unfolding compare_fields
  compare_fields_swap zero a after_a b after_b = refl
  compare_fields_swap (suc fuel) a after_a b after_b =
      let (next_a, rest_a) = cut after_a b'.' in
      let (next_b, rest_b) = cut after_b b'.' in
      rw (verdict_swap a after_a b after_b, compare_fields)
        (answer_swap (verdict atoi a after_a b after_b) _ _
          (compare_fields_swap fuel next_a rest_a next_b rest_b))

  compare_pre_release_swap :
      (fuel : ℕ) (p q : Text)
      → compare_pre_release atoi fuel q p ≡ turned (compare_pre_release atoi fuel p q)
  unfolding compare_pre_release
  compare_pre_release_swap fuel p q =
      let (a, after_a) = cut p b'.' in
      let (b, after_b) = cut q b'.' in
      ground (arith, eq_iff p q, eq_iff q p, compare_fields_swap fuel a after_a b after_b)

  -- Comparing two versions the other way round gives the opposite answer, and fails to end exactly
  -- where the first comparison does.
  pub compare_swap :
      (fuel : ℕ) (v w : Version) → compare atoi fuel w v ≡ turned (compare atoi fuel v w)
  unfolding compare
  compare_swap fuel v w =
      rw (numbers_verdict_swap v w, compare)
        (answer_swap (numbers_verdict v w) _ _
          (compare_pre_release_swap fuel v.pre_release w.pre_release))

  verdict_not_zero : (a after_a b after_b : Text) → verdict atoi a after_a b after_b ≢ some (pos 0)
  unfolding verdict same_kind_verdict text_verdict after_verdict
  verdict_not_zero a after_a b after_b h = ground (arith, (int_verdict_lem (atoi a) (atoi b)).0, h)

  compare_fields_not_zero :
      (fuel : ℕ) (a after_a b after_b : Text)
      → compare_fields atoi fuel a after_a b after_b ≢ ok (pos 0)
  unfolding compare_fields
  compare_fields_not_zero zero a after_a b after_b h = cc
  compare_fields_not_zero (suc fuel) a after_a b after_b h =
      let (next_a, rest_a) = cut after_a b'.' in
      let (next_b, rest_b) = cut after_b b'.' in
      ground (
        arith,
        verdict_not_zero a after_a b after_b,
        compare_fields_not_zero fuel next_a rest_a next_b rest_b,
      )

  compare_pre_release_zero :
      (fuel : ℕ) (p q : Text) → (compare_pre_release atoi fuel p q ≡ ok (pos 0)) ↔ (p ≡ q)
  unfolding compare_pre_release
  compare_pre_release_zero fuel p q =
      let (a, after_a) = cut p b'.' in
      let (b, after_b) = cut q b'.' in
      let other = compare_fields_not_zero fuel a after_a b after_b in
      (λ h. ground (arith, eq_iff p q, other), λ h. ground (arith, eq_iff p q))

  -- The answer is 0 exactly for versions that agree in everything but the metadata.
  pub compare_zero_iff :
      (fuel : ℕ) (v w : Version)
      → (compare atoi fuel v w ≡ ok (pos 0)) ↔ (
          (v.major ≡ w.major)
          × (v.minor ≡ w.minor)
          × (v.patch ≡ w.patch)
          × (v.pre_release ≡ w.pre_release))
  unfolding compare
  compare_zero_iff fuel v w =
      let (not_zero, same) = numbers_verdict_lem v w in
      let pre = compare_pre_release_zero fuel v.pre_release w.pre_release in
      (λ h. ground (arith, not_zero, same, pre), λ h. ground (arith, not_zero, same, pre))
