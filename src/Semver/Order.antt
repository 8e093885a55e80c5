-- ===== src/Semver/Order.antt =====
-- internal/semver/semver.go `Compare`. `atoi` stands for the value of `util.Atoi` of the policy
-- engine, whose error the code ignores. The loop over the identifiers takes one unit of fuel a round.
pub mod Laws
pub mod Ends
pub mod Loops
mod Tests
use regal.Base.{
  ℕ, zero, suc, Bool, true, false, not, ◌&&◌, Option, none, some, [], ◌∷◌, ltb, if◌then◌else◌, ◌==◌,
  Text, ℤ, pos, negsuc, ltb_ℤ, Outcome, ok, unfinished, text_eq, nat_eq,
}
use regal.Go.Strings.{index_byte}
use regal.Go.Decimal.{all_digits}
use regal.Semver.{Version, cut}

-- `a < b` of two strings
unfoldable pub text_ltb : Text → Text → Bool
text_ltb s [] = false
text_ltb [] (c ∷ t) = true
text_ltb (b ∷ s) (c ∷ t) = if ltb b c then true else if ltb c b then false else text_ltb s t

unfoldable pub is_all_decimals : Text → Bool
is_all_decimals s = all_digits s && not (s == [])

-- A comparison that returns unless the two are equal.
unfoldable pub int_verdict : ℤ → ℤ → Option ℤ
int_verdict a b = if ltb_ℤ b a then some (pos 1) else if ltb_ℤ a b then some (negsuc 0) else none

unfoldable pub text_verdict : Text → Text → Option ℤ
text_verdict a b =
    if text_ltb b a then some (pos 1) else if text_ltb a b then some (negsuc 0) else none

unfoldable pub after_verdict : (after_a after_b : Text) → Option ℤ
after_verdict after_a after_b =
    if not (after_a == []) && after_b == []
    then some (pos 1)
    else if after_a == [] && not (after_b == [])
    then some (negsuc 0)
    else none

-- The first answer, or else the second.
abbrev pub or_else : Option ℤ → Option ℤ → Option ℤ
or_else none q = q
or_else (some r) q = some r

-- The three numbers, the major one first.
unfoldable pub numbers_verdict : Version → Version → Option ℤ
numbers_verdict v other =
    or_else (int_verdict v.major other.major)
      (or_else (int_verdict v.minor other.minor) (int_verdict v.patch other.patch))

module _ (atoi : Text → ℤ) where
  -- Two identifiers, both or neither of which are numbers.
  unfoldable pub same_kind_verdict : Text → Text → Option ℤ
  same_kind_verdict a b =
      if is_all_decimals a && is_all_decimals b
      then int_verdict (atoi a) (atoi b)
      else text_verdict a b

  -- One round of the loop: what it returns, if it does.
  unfoldable pub verdict : (a after_a b after_b : Text) → Option ℤ
  verdict a after_a b after_b =
      if a == [] && not (b == [])
      then some (negsuc 0)
      else if not (a == []) && b == []
      then some (pos 1)
      else if is_all_decimals a && not (is_all_decimals b)
      then some (negsuc 0)
      else if not (is_all_decimals a) && is_all_decimals b
      then some (pos 1)
      else or_else (same_kind_verdict a b) (after_verdict after_a after_b)

  unfoldable pub compare_fields : ℕ → (a after_a b after_b : Text) → Outcome ℤ
  compare_fields zero a after_a b after_b = unfinished
  compare_fields (suc fuel) a after_a b after_b =
      let (next_a, rest_a) = cut after_a b'.' in
      let (next_b, rest_b) = cut after_b b'.' in
      let next = compare_fields fuel next_a rest_a next_b rest_b in
      elim (verdict a after_a b after_b) [ some r ↦ ok r | none ↦ next ]

  unfoldable pub compare_pre_release : ℕ → Text → Text → Outcome ℤ
  compare_pre_release fuel p q =
      let (a, after_a) = cut p b'.' in
      let (b, after_b) = cut q b'.' in
      if p == q
      then ok (pos 0)
      else if p == [] && not (q == [])
      then ok (pos 1)
      else if q == [] && not (p == [])
      then ok (negsuc 0)
      else compare_fields fuel a after_a b after_b

  unfoldable pub compare : ℕ → Version → Version → Outcome ℤ
  compare fuel v other = elim (numbers_verdict v other) [
    | some r ↦ ok r
    | none ↦ compare_pre_release fuel v.pre_release other.pre_release
  ]
