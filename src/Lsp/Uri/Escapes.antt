-- ===== src/Lsp/Uri/Escapes.antt =====
-- `net/url`: `QueryEscape` and `QueryUnescape`, byte by byte, and the replacement of `+` behind the
-- first.
use regal.Base.{
  ℕ, ◌+◌, ◌-◌, ◌*◌, ◌/◌, ◌%◌, ◌<◌, ◌≡◌, refl, ap, ◌∙◌, inl, inr, Bool, false, ◌&&◌, ◌||◌, Option,
  none, some, [], ◌∷◌, ◌++◌, arith, ltb, leb, if◌then◌else◌, Bool-cases, ◌==◌, Text, codes, text_eq,
  nat_eq,
}

abbrev pub is_unreserved : ℕ → Bool
is_unreserved c =
    (leb b'a' c && leb c b'z')
    || ((leb b'A' c && leb c b'Z')
        || ((leb b'0' c && leb c b'9') || (c == b'-' || (c == b'_' || (c == b'.' || c == b'~')))))

abbrev pub hex : ℕ → ℕ
hex n = if ltb n 10 then b'0' + n else b'A' + n - 10

abbrev pub unhex : ℕ → Option ℕ
unhex c =
    if leb b'0' c && leb c b'9'
    then some (c - b'0')
    else if leb b'a' c && leb c b'f'
    then some (c - b'a' + 10)
    else if leb b'A' c && leb c b'F'
    then some (c - b'A' + 10)
    else none

unfoldable pub escape_byte : ℕ → Text
escape_byte c =
    if is_unreserved c
    then c ∷ []
    else if c == b' '
    then b'+' ∷ []
    else b'%' ∷ hex (c / 16) ∷ hex (c % 16) ∷ []

unfoldable pub query_escape : Text → Text
unfolding escape_byte
query_escape [] = []
query_escape (c ∷ s) = escape_byte c ++ query_escape s

-- `strings.ReplaceAll(s, "+", "%20")`
unfoldable pub replace_plus : Text → Text
replace_plus [] = []
replace_plus (c ∷ s) =
    let rest = replace_plus s in if c == b'+' then codes "%20" ++ rest else c ∷ rest

unfoldable pub escape_part : Text → Text
unfolding query_escape replace_plus
escape_part part = replace_plus (query_escape part)

abbrev joined : Option ℕ → Option ℕ → Option Text → Option Text
joined (some a) (some b) (some s) = some ((a * 16 + b) ∷ s)
joined _ _ _ = none

abbrev pub kept : ℕ → Option Text → Option Text
kept c none = none
kept c (some s) = some (c ∷ s)

-- None where a `%` is not followed by two digits.
unfoldable pub query_unescape : Text → Option Text
query_unescape [] = some []
query_unescape (c ∷ []) = if c == b'%' then none else some ((if c == b'+' then b' ' else c) ∷ [])
query_unescape (c ∷ d ∷ []) =
    let rest = query_unescape (d ∷ []) in
    if c == b'%' then none else kept (if c == b'+' then b' ' else c) rest
query_unescape (c ∷ d ∷ e ∷ s) =
    let after = query_unescape s in
    let rest = query_unescape (d ∷ e ∷ s) in
    if c == b'%'
    then joined (unhex d) (unhex e) after
    else kept (if c == b'+' then b' ' else c) rest

-- The text that escaping a byte puts in its place.
pub escaped : ℕ → Text
escaped c =
    if is_unreserved c
    then c ∷ []
    else if c == b' '
    then codes "%20"
    else b'%' ∷ hex (c / 16) ∷ hex (c % 16) ∷ []

hex-unhex : (n : ℕ) → n < 16 → unhex (hex n) ≡ some n
hex-unhex n h = ground arith

pub unescape_kept :
    (c : ℕ) (rest : Text)
    → (c == b'%') ≡ false
    → (c == b'+') ≡ false
    → query_unescape (c ∷ rest) ≡ kept c (query_unescape rest)
unfolding query_unescape
unescape_kept c [] p q = ground (arith, p, q)
unescape_kept c (d ∷ []) p q = ground (arith, p, q)
unescape_kept c (d ∷ e ∷ s) p q = ground (arith, p, q)

pub unescape_digits :
    (a b : ℕ) (rest : Text)
    → a < 16
    → b < 16
    → query_unescape (b'%' ∷ hex a ∷ hex b ∷ rest) ≡ kept (a * 16 + b) (query_unescape rest)
unfolding query_unescape
unescape_digits a b rest h k =
    rw (hex-unhex a h, hex-unhex b k) (Option-kept (a * 16 + b) (query_unescape rest))
  where
    Option-kept : (n : ℕ) (o : Option Text) → joined (some a) (some b) o ≡ kept (a * 16 + b) o
    Option-kept n none = refl
    Option-kept n (some s) = refl

-- A byte other than a separator comes back.
pub unescape-escaped :
    (c : ℕ) (rest : Text)
    → c < 256
    → query_unescape (escaped c ++ rest) ≡ kept c (query_unescape rest)
unfolding escaped
unescape-escaped c rest small = elim (Bool-cases (is_unreserved c)) [
  | inl plain ↦ rw plain (unescape_kept c rest (ground (arith, plain)) (ground (arith, plain)))
  | inr other ↦ elim (Bool-cases (c == b' ')) [
    | inl space ↦
        let e : 32 ≡ c = ground (arith, space) in
        rw (other, space)
          (unescape_digits 2 0 rest (omega arith) (omega arith)
            ∙ ap (λ x. kept x (query_unescape rest)) e)
    | inr shown ↦
        let e : c / 16 * 16 + c % 16 ≡ c = omega arith in
        rw (other, shown)
          (unescape_digits (c / 16) (c % 16) rest (omega arith) (omega arith)
            ∙ ap (λ x. kept x (query_unescape rest)) e)
  ]
]

replace_plus-append :
    (c : ℕ) (rest : Text)
    → c < 256
    → replace_plus (escape_byte c ++ rest) ≡ escaped c ++ replace_plus rest
unfolding replace_plus escape_byte escaped
replace_plus-append c rest small = elim (Bool-cases (is_unreserved c)) [
  | inl plain ↦
      let no_plus : (c == b'+') ≡ false = ground (arith, plain) in rw plain (rw no_plus refl)
  | inr other ↦ elim (Bool-cases (c == b' ')) [
    | inl space ↦ rw (other, space) refl
    | inr shown ↦
        let high : (hex (c / 16) == b'+') ≡ false = ground arith in
        let low : (hex (c % 16) == b'+') ≡ false = ground arith in
        rw (other, shown) (rw (high, low) refl)
  ]
]

-- `escape_part` byte by byte.
pub escape_part-cons :
    (c : ℕ) (part : Text) → c < 256 → escape_part (c ∷ part) ≡ escaped c ++ escape_part part
unfolding escape_part query_escape
escape_part-cons c part small = replace_plus-append c (query_escape part) small

pub unescape_plus : (rest : Text) → query_unescape (b'+' ∷ rest) ≡ kept b' ' (query_unescape rest)
unfolding query_unescape
unescape_plus [] = refl
unescape_plus (d ∷ []) = ground arith
unescape_plus (d ∷ e ∷ s) = ground arith
