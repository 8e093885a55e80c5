-- ===== src/Semver/Printed.antt =====
-- internal/semver/semver.go: a version that is printed and read again.
use regal.Base.{
  ℕ, ◌+◌, ◌-◌, ◌^◌, ◌≤◌, ◌<◌, ◌≡◌, refl, sym, ap, ◌∙◌, subst, ◌≢◌, inl, inr, true, false, not, ◌&&◌,
  some, List, [], ◌∷◌, ◌++◌, append_assoc, append-nil, arith, All-append, ◌==◌, eq_iff, Text,
  text_beq, pos, ok, text_eq, nat_eq,
}
use regal.Go.Strings.{count_byte, Lacks, split, join, join_rest, join-split}
use regal.Go.Decimal.{all_digits, value_from, format_int, format_nat, format_nat_lem}
use regal.Semver.{
  Version, cut, all_identifier, all_parts, is_meta_identifier, trim_v, parse_digits, parse_int,
  parse_numbers, parse, marked, append_text, to_string, IsValid,
}
use regal.Semver.Cut.{cut-Lacks, cut-append}

digits-Lacks : (b : ℕ) (s : Text) → b < b'0' → all_digits s ≡ true → Lacks b s
digits-Lacks b [] h d = tt
digits-Lacks b (c ∷ s) h d = (λ e. ground (arith, h, d, e), digits-Lacks b s h (ground (arith, d)))

parse_digits_lem :
    (bound : ℕ) (s : Text)
    → s ≢ []
    → all_digits s ≡ true
    → value_from 0 s ≤ bound
    → parse_digits bound s ≡ some (value_from 0 s)
unfolding parse_digits
parse_digits_lem bound s some_digit d h = ground (arith, eq_iff s [], some_digit, d, h)

parse_int_digits :
    (s : Text)
    → s ≢ []
    → all_digits s ≡ true
    → value_from 0 s < 2 ^ 63
    → parse_int s ≡ some (pos (value_from 0 s))
unfolding parse_int
parse_int_digits [] some_digit d h = absurd (some_digit refl)
parse_int_digits (c ∷ s) some_digit d h =
    ground (arith, d, parse_digits_lem (2 ^ 63 - 1) (c ∷ s) some_digit d (omega (arith, h)))

parse_int-format : (n : ℕ) → n < 2 ^ 63 → parse_int (format_nat n) ≡ some (pos n)
parse_int-format n h =
    let (value, digits, some_digit) = format_nat_lem n in
    parse_int_digits (format_nat n) some_digit digits (omega (arith, value, h))
    ∙ ap (λ k. some (pos k)) value

cut-marked : (s part : Text) (sep : ℕ) → Lacks sep s → cut (s ++ marked sep part) sep ≡ (s, part)
unfolding text_beq
cut-marked s [] sep h = rw append-nil (cut-Lacks s sep h)
cut-marked s (c ∷ part) sep h = cut-append s (c ∷ part) sep h

count_byte-append :
    (sep : ℕ) (s t : Text) → count_byte sep (s ++ t) ≡ count_byte sep s + count_byte sep t
count_byte-append sep [] t = omega arith
count_byte-append sep (c ∷ s) t = omega (arith, count_byte-append sep s t)

count_byte-Lacks : (sep : ℕ) (s : Text) → Lacks sep s → count_byte sep s ≡ 0
count_byte-Lacks sep [] h = refl
count_byte-Lacks sep (c ∷ s) (h, hs) = ground (arith, h, count_byte-Lacks sep s hs, eq_iff c sep)

identifier-Lacks_plus : (s : Text) → all_identifier s ≡ true → Lacks b'+' s
identifier-Lacks_plus [] h = tt
identifier-Lacks_plus (c ∷ s) h =
    (λ e. ground (arith, h, e), identifier-Lacks_plus s (ground (arith, h)))

all_parts_cons :
    (p : Text) (ps : List Text)
    → all_parts (p ∷ ps) ≡ true
    → (all_identifier p ≡ true) × (all_parts ps ≡ true)
all_parts_cons p ps h = ground (arith, h)

join_rest-Lacks_plus : (ps : List Text) → all_parts ps ≡ true → Lacks b'+' (join_rest b'.' ps)
unfolding join_rest
join_rest-Lacks_plus [] h = tt
join_rest-Lacks_plus (p ∷ ps) h =
    let (here, later) = all_parts_cons p ps h in
    (
      λ e. omega (arith, e),
      All-append (λ c. c ≢ b'+') p _ (identifier-Lacks_plus p here) (join_rest-Lacks_plus ps later),
    )

join-Lacks_plus : (ps : List Text) → all_parts ps ≡ true → Lacks b'+' (join ps b'.')
unfolding join
join-Lacks_plus [] h = tt
join-Lacks_plus (p ∷ ps) h =
    let (here, later) = all_parts_cons p ps h in
    All-append (λ c. c ≢ b'+') p _ (identifier-Lacks_plus p here) (join_rest-Lacks_plus ps later)

marked-Lacks_plus : (part : Text) → IsValid part → Lacks b'+' (marked b'-' part)
unfolding is_meta_identifier text_beq
marked-Lacks_plus [] h = tt
marked-Lacks_plus (c ∷ part) (inl empty) = cc
marked-Lacks_plus (c ∷ part) (inr valid) = (
  λ e. omega (arith, e),
  subst (λ t. Lacks b'+' t) (join-split (c ∷ part) b'.')
      (join-Lacks_plus (split (c ∷ part) b'.') valid),
)

module _ (x y z : ℕ) where
  abbrev numbers : Text
  numbers = format_nat x ++ b'.' ∷ (format_nat y ++ b'.' ∷ format_nat z)

  numbers-Lacks : (b : ℕ) → b < b'0' → b ≢ b'.' → Lacks b numbers
  numbers-Lacks b h dot =
      let digits = λ (n : ℕ). digits-Lacks b (format_nat n) h (format_nat_lem n).1 in
      All-append (λ c. c ≢ b) (format_nat x) _ (digits x)
        (
          λ e. dot (sym e),
          All-append (λ c. c ≢ b) (format_nat y) _ (digits y) (λ e. dot (sym e), digits z),
        )

  dots_of_numbers : count_byte b'.' numbers ≡ 2
  dots_of_numbers =
      let none_in = λ (n : ℕ).
        count_byte-Lacks b'.' (format_nat n)
          (digits-Lacks b'.' (format_nat n) (omega arith) (format_nat_lem n).1) in
      omega (
        arith,
        count_byte-append b'.' (format_nat x) (b'.' ∷ (format_nat y ++ b'.' ∷ format_nat z)),
        count_byte-append b'.' (format_nat y) (b'.' ∷ format_nat z),
        none_in x,
        none_in y,
        none_in z,
      )

  parse_numbers_lem :
      (pre_release metadata : Text)
      → x < 2 ^ 63
      → y < 2 ^ 63
      → z < 2 ^ 63
      → parse_numbers numbers pre_release metadata
        ≡ ok (record {
          major = pos x;
          minor = pos y;
          patch = pos z;
          pre_release = pre_release;
          metadata = metadata;
        })
  unfolding parse_numbers
  parse_numbers_lem pre_release metadata hx hy hz =
      let lacks = λ (n : ℕ). digits-Lacks b'.' (format_nat n) (omega arith) (format_nat_lem n).1 in
      let first : cut numbers b'.' ≡ (format_nat x, format_nat y ++ b'.' ∷ format_nat z) =
        cut-append (format_nat x) (format_nat y ++ b'.' ∷ format_nat z) b'.' (lacks x) in
      let second = cut-append (format_nat y) (format_nat z) b'.' (lacks y) in
      rw (dots_of_numbers, ap (λ p. p.0) first, parse_int-format x hx, parse_numbers)
        (rw (ap (λ p. p.1) first, ap (λ p. p.0) second, parse_int-format y hy)
          (rw (ap (λ p. p.1) first, ap (λ p. p.1) second, parse_int-format z hz) refl))

  trim_v_digits : (s t : Text) → s ≢ [] → all_digits s ≡ true → trim_v (s ++ t) ≡ s ++ t
  trim_v_digits [] t h d = absurd (h refl)
  trim_v_digits (c ∷ s) t h d = ground (arith, d)

  trim_v-numbers : (t : Text) → trim_v (numbers ++ t) ≡ numbers ++ t
  trim_v-numbers t =
      let (_, digits, some_digit) = format_nat_lem x in
      let rest = b'.' ∷ (format_nat y ++ b'.' ∷ format_nat z) in
      ap trim_v (append_assoc (format_nat x) rest t)
      ∙ trim_v_digits (format_nat x) (rest ++ t) some_digit digits
      ∙ sym (append_assoc (format_nat x) rest t)

-- The text of a version, cut at its two marks.
abbrev version_of : (x y z : ℕ) → (pre_release metadata : Text) → Version
version_of x y z pre_release metadata = record {
  major = pos x;
  minor = pos y;
  patch = pos z;
  pre_release = pre_release;
  metadata = metadata;
}

to_string_lem :
    (x y z : ℕ) (pre_release metadata : Text)
    → trim_v (to_string (version_of x y z pre_release metadata))
      ≡ (numbers x y z ++ marked b'-' pre_release) ++ marked b'+' metadata
unfolding to_string append_text format_int
to_string_lem x y z pre_release metadata =
    trim_v-numbers x y z (marked b'-' pre_release ++ marked b'+' metadata)
    ∙ sym (append_assoc (numbers x y z) (marked b'-' pre_release) (marked b'+' metadata))

IsValid-passes :
    (part : Text) → IsValid part → (not (part == []) && not (is_meta_identifier part)) ≡ false
IsValid-passes part h = ground (arith, h, eq_iff part [])

parsed :
    (x y z : ℕ) (pre_release metadata : Text)
    → x < 2 ^ 63
    → y < 2 ^ 63
    → z < 2 ^ 63
    → IsValid pre_release
    → IsValid metadata
    → parse (to_string (version_of x y z pre_release metadata))
      ≡ ok (version_of x y z pre_release metadata)
unfolding parse
parsed x y z pre_release metadata hx hy hz hp hm =
    let body = numbers x y z ++ marked b'-' pre_release in
    let plus : cut (body ++ marked b'+' metadata) b'+' ≡ (body, metadata) =
      cut-marked body metadata b'+' (
        All-append (λ c. c ≢ b'+') (numbers x y z) _
          (numbers-Lacks x y z b'+' (omega arith) (λ e. omega (arith, e)))
          (marked-Lacks_plus pre_release hp)) in
    let minus : cut body b'-' ≡ (numbers x y z, pre_release) =
      cut-marked (numbers x y z) pre_release b'-'
        (numbers-Lacks x y z b'-' (omega arith) (λ e. omega (arith, e))) in
    rw (to_string_lem x y z pre_release metadata, parse)
      (rw (ap (λ p. p.0) plus, ap (λ p. p.1) plus)
        (rw (IsValid-passes metadata hm, ap (λ p. p.0) minus, ap (λ p. p.1) minus)
          (rw (IsValid-passes pre_release hp)
            (parse_numbers_lem x y z pre_release metadata hx hy hz))))

-- A version that is printed is read back as it was, if its numbers are not negative and fit an
-- `int64`, and its pre-release and metadata are empty or valid identifiers.
pub parse-to_string :
    (v : Version) (x y z : ℕ)
    → v.major ≡ pos x
    → v.minor ≡ pos y
    → v.patch ≡ pos z
    → x < 2 ^ 63
    → y < 2 ^ 63
    → z < 2 ^ 63
    → IsValid v.pre_release
    → IsValid v.metadata
    → parse (to_string v) ≡ ok v
parse-to_string v x y z ex ey ez hx hy hz hp hm =
    let same : v ≡ version_of x y z v.pre_release v.metadata = cc (ex, ey, ez) in
    rw same (parsed x y z v.pre_release v.metadata hx hy hz hp hm)
