-- ===== src/Go/Decimal.antt =====
-- Numbers in decimal, as `strconv` and `fmt` write them, and the value of digits.
use regal.Go.Slices.{append_cons-ne-nil}
use regal.Base.{
  ℕ, zero, suc, ◌+◌, ◌-◌, ◌*◌, ◌/◌, ◌%◌, ◌^◌, ◌<◌, ◌≡◌, refl, ◌∙◌, ◌≢◌, inl, inr, Bool, true, ◌&&◌,
  [], ◌∷◌, ◌++◌, arith, ltb, leb, if◌then◌else◌, Bool-cases, Text, codes, ℤ, pos, negsuc, text_eq,
}

-- The digits of `n`, with one more unit of fuel than `n`.
digits_from : ℕ → ℕ → Text
digits_from zero n = []
digits_from (suc f) n =
    let high = digits_from f (n / 10) in
    if ltb n 10 then (b'0' + n) ∷ [] else high ++ (b'0' + n % 10) ∷ []

unfoldable pub format_nat : ℕ → Text
unfolding digits_from
format_nat n = digits_from (suc n) n

-- `%d` of an `int`, `strconv.AppendInt(…, 10)`
unfoldable pub format_int : ℤ → Text
unfolding format_nat
format_int (pos n) = format_nat n
format_int (negsuc n) = b'-' ∷ format_nat (suc n)

abbrev pub is_digit : ℕ → Bool
is_digit c = leb b'0' c && leb c b'9'

abbrev pub all_digits : Text → Bool
all_digits [] = true
all_digits (c ∷ s) = is_digit c && all_digits s

-- The number that digits spell behind `n`.
abbrev pub value_from : ℕ → Text → ℕ
value_from n [] = n
value_from n (c ∷ s) = value_from (n * 10 + (c - b'0')) s

value_from-append : (n : ℕ) (s t : Text) → value_from n (s ++ t) ≡ value_from (value_from n s) t
value_from-append n [] t = refl
value_from-append n (c ∷ s) t = value_from-append (n * 10 + (c - b'0')) s t

all_digits-append : (s t : Text) → all_digits (s ++ t) ≡ (all_digits s && all_digits t)
all_digits-append [] t = refl
all_digits-append (c ∷ s) t = ground (arith, all_digits-append s t)

digits_from-lem :
    (f n : ℕ)
    → n < f
    → (value_from 0 (digits_from f n) ≡ n)
      × (all_digits (digits_from f n) ≡ true)
      × (digits_from f n ≢ [])
unfolding digits_from
digits_from-lem zero n h = absurd (omega arith)
digits_from-lem (suc f) n h = elim (Bool-cases (ltb n 10)) [
  | inl small ↦ rw small (ground arith, ground arith, λ e. ground arith)
  | inr large ↦
      let high = digits_from f (n / 10) in
      let (value, digits, some_digit) = digits_from-lem f (n / 10) (ground arith) in
      let last = (b'0' + n % 10) ∷ [] in
      rw large (
        value_from-append 0 high last
            ∙ (let e : value_from 0 high ≡ n / 10 = value in rw e (omega arith)),
        all_digits-append high last ∙ rw digits (ground arith),
        append_cons-ne-nil high (b'0' + n % 10) [],
      )
]

-- What is written for a number is one or more digits, which spell the number.
pub format_nat_lem :
    (n : ℕ)
    → (value_from 0 (format_nat n) ≡ n) × (all_digits (format_nat n) ≡ true) × (format_nat n ≢ [])
unfolding format_nat
format_nat_lem n = digits_from-lem (suc n) n (omega arith)

big : format_int (negsuc (2 ^ 63 - 1)) ≡ codes "-9223372036854775808"
unfolding format_int
big = refl
