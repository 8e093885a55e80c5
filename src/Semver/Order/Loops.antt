-- ===== src/Semver/Order/Loops.antt =====
-- internal/semver/semver.go `Compare`: when its loop does not end.
use regal.Base.{
  ℕ, zero, suc, ◌≡◌, refl, ◌≢◌, true, none, [], ◌∷◌, arith, eq_iff, Text, text_beq, ℤ, unfinished,
  text_eq, nat_eq,
}
use regal.Go.Strings.{index_byte, Lacks}
use regal.Go.Decimal.{all_digits}
use regal.Semver.{Version, cut}
use regal.Semver.Cut.{cut-Lacks}
use regal.Semver.Order.{
  text_ltb, is_all_decimals, int_verdict, text_verdict, after_verdict, numbers_verdict,
  same_kind_verdict, verdict, compare_fields, compare_pre_release, compare,
}

module _ (atoi : Text → ℤ) where
  -- The loop goes on for ever once both pre-releases are used up.
  empty_fields-loop : (fuel : ℕ) → compare_fields atoi fuel [] [] [] [] ≡ unfinished
  unfolding compare_fields verdict same_kind_verdict text_verdict text_ltb after_verdict
      is_all_decimals cut text_beq index_byte
  empty_fields-loop zero = refl
  empty_fields-loop (suc fuel) = empty_fields-loop fuel

  int_verdict_self : (a b : ℤ) → a ≡ b → int_verdict a b ≡ none
  unfolding int_verdict
  int_verdict_self a b h = ground (arith, h)

  all_digits-Lacks : (s : Text) → all_digits s ≡ true → Lacks b'.' s
  all_digits-Lacks [] h = tt
  all_digits-Lacks (c ∷ s) h = (λ e. ground (arith, h, e), all_digits-Lacks s (ground (arith, h)))

  same_number-loop :
      (fuel : ℕ) (p q : Text)
      → is_all_decimals p ≡ true
      → is_all_decimals q ≡ true
      → atoi p ≡ atoi q
      → compare_fields atoi fuel p [] q [] ≡ unfinished
  unfolding compare_fields verdict same_kind_verdict after_verdict is_all_decimals
  same_number-loop zero p q dp dq same = refl
  same_number-loop (suc fuel) p q dp dq same = ground (
    arith,
    dp,
    dq,
    int_verdict_self (atoi p) (atoi q) same,
    empty_fields-loop fuel,
    cut-Lacks [] b'.' tt,
  )

  -- Whatever the fuel, two versions with the same three numbers do not get to an answer if their
  -- pre-releases are two different texts of digits with the same value, such as `1` and `01`.
  pub compare_loops :
      (fuel : ℕ) (v w : Version)
      → v.major ≡ w.major
      → v.minor ≡ w.minor
      → v.patch ≡ w.patch
      → is_all_decimals v.pre_release ≡ true
      → is_all_decimals w.pre_release ≡ true
      → v.pre_release ≢ w.pre_release
      → atoi v.pre_release ≡ atoi w.pre_release
      → compare atoi fuel v w ≡ unfinished
  unfolding compare compare_pre_release numbers_verdict is_all_decimals
  compare_loops fuel v w h1 h2 h3 dv dw differ same = ground (
    arith,
    int_verdict_self v.major w.major h1,
    int_verdict_self v.minor w.minor h2,
    int_verdict_self v.patch w.patch h3,
    eq_iff v.pre_release w.pre_release,
    dv,
    dw,
    differ,
    cut-Lacks v.pre_release b'.' (all_digits-Lacks v.pre_release (ground (arith, dv))),
    cut-Lacks w.pre_release b'.' (all_digits-Lacks w.pre_release (ground (arith, dw))),
    same_number-loop fuel v.pre_release w.pre_release dv dw same,
  )
