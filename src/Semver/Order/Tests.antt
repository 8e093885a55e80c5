-- ===== src/Semver/Order/Tests.antt =====
-- internal/semver/semver.go: versions compared, printed and read.
use regal.Base.{
  ◌+◌, ◌-◌, ◌*◌, ◌≡◌, refl, ◌≢◌, ◌↔◌, inr, true, [], ◌∷◌, arith, length, Text, codes, text_beq, ℤ,
  pos, negsuc, ok, unfinished, ne-of_beq, text_eq,
}
use regal.Go.Strings.{split}
use regal.Semver.{Version, IsValid, is_meta_identifier, parse, to_string}
use regal.Semver.Order.{compare, is_all_decimals}
use regal.Semver.Order.Ends.{AllToldApart, compare-Ends}
use regal.Semver.Order.Loops.{compare_loops}
use regal.Semver.Printed.{parse-to_string}

abbrev one : Text → Text → Version
one pre_release metadata = record {
  major = pos 1;
  minor = pos 0;
  patch = pos 2;
  pre_release = pre_release;
  metadata = metadata;
}

abbrev alpha : Version
alpha = one (codes "alpha.1") []

abbrev beta : Version
beta = one (codes "alpha.beta") (codes "b5")

-- The value of one or two digits.
abbrev atoi : Text → ℤ
atoi (a ∷ []) = pos (a - 48)
atoi (a ∷ b ∷ []) = pos ((a - 48) * 10 + (b - 48))
atoi _ = pos 0

less : compare atoi 2 alpha beta ≡ ok (negsuc 0)
unfolding compare regal.Semver.Order.numbers_verdict regal.Semver.Order.int_verdict
    regal.Semver.Order.compare_pre_release regal.Base.text_beq regal.Semver.Order.compare_fields
    regal.Semver.Order.verdict regal.Semver.cut regal.Go.Strings.index_byte is_all_decimals
    regal.Semver.Order.same_kind_verdict regal.Semver.Order.text_verdict regal.Semver.Order.text_ltb
    regal.Semver.Order.after_verdict
less = refl

alpha-IsValid : is_meta_identifier (codes "alpha.1") ≡ true
unfolding is_meta_identifier split regal.Base.text_beq
alpha-IsValid = refl

beta-IsValid : is_meta_identifier (codes "alpha.beta") ≡ true
unfolding is_meta_identifier split regal.Base.text_beq
beta-IsValid = refl

two_parts : length (split (codes "alpha.1") b'.') ≡ 2
unfolding split
two_parts = refl

told : AllToldApart atoi (split (codes "alpha.1") b'.') (split (codes "alpha.beta") b'.')
unfolding split
told = (λ a b e. refl, (λ a b e. cc, tt))

compare-Ends_example : (r : ℤ) × (compare atoi 2 alpha beta ≡ ok r)
compare-Ends_example =
    compare-Ends atoi 2 alpha beta (inr alpha-IsValid) (inr beta-IsValid) told
      (omega (arith, two_parts))

digits_1 : is_all_decimals (codes "1") ≡ true
unfolding is_all_decimals regal.Base.text_beq
digits_1 = refl

digits_01 : is_all_decimals (codes "01") ≡ true
unfolding is_all_decimals regal.Base.text_beq
digits_01 = refl

apart : codes "1" ≢ codes "01"
unfolding regal.Base.text_beq
apart = ne-of_beq (codes "1") (codes "01") refl

compare_loops_example : compare atoi 1000 (one (codes "1") []) (one (codes "01") []) ≡ unfinished
compare_loops_example =
    compare_loops atoi 1000 (one (codes "1") []) (one (codes "01") []) refl refl refl digits_1
      digits_01 apart refl

metadata-IsValid : is_meta_identifier (codes "b5") ≡ true
unfolding is_meta_identifier split regal.Base.text_beq
metadata-IsValid = refl

parse-to_string_example : parse (to_string beta) ≡ ok beta
parse-to_string_example =
    parse-to_string beta 1 0 2 refl refl refl (omega arith) (omega arith) (omega arith)
      (inr beta-IsValid) (inr metadata-IsValid)
