-- ===== src/Semver.antt =====
-- internal/semver/semver.go: versions, read and written. A version whose parts do not parse comes
-- with an error, and is not looked at.
pub mod Cut
pub mod Order
pub mod Printed
use mathlib.Core.Option
use regal.Base.{
  ℕ, zero, suc, ◌+◌, ◌-◌, ◌^◌, ◌≡◌, ◌⊎◌, Bool, true, not, ◌&&◌, ◌||◌, Option, none, some, List, [],
  ◌∷◌, ◌++◌, map, leb, if◌then◌else◌, take, drop, ◌==◌, Text, codes, ℤ, pos, negsuc, Error, message,
  Outcome, ok, err, text_eq, nat_eq,
}
use regal.Go.Strings.{split, index_byte, count_byte}
use regal.Go.Decimal.{format_int, all_digits, value_from}

pub record Version : Type 0 where
  pub major : ℤ
  pub minor : ℤ
  pub patch : ℤ
  pub pre_release : Text
  pub metadata : Text

-- `cut`: what stands before and behind the first separator.
unfoldable pub cut : Text → ℕ → Text × Text
cut s sep = elim (index_byte s sep) [ none ↦ (s, []) | some i ↦ (take i s, drop (suc i) s) ]

-- `[0-9A-Za-z-]`
abbrev pub is_identifier_byte : ℕ → Bool
is_identifier_byte c =
    (leb b'0' c && leb c b'9')
    || (leb b'A' c && leb c b'Z')
    || (leb b'a' c && leb c b'z')
    || c == b'-'

abbrev pub all_identifier : Text → Bool
all_identifier [] = true
all_identifier (c ∷ s) = is_identifier_byte c && all_identifier s

abbrev pub all_parts : List Text → Bool
all_parts [] = true
all_parts (p ∷ ps) = not (p == []) && all_identifier p && all_parts ps

-- `reMetaIdentifier`: one or more identifiers, with dots between them.
unfoldable pub is_meta_identifier : Text → Bool
is_meta_identifier s = all_parts (split s b'.')

-- Empty, as where there is none, or of that form.
abbrev pub IsValid : Text → Type 0
IsValid p = (p ≡ []) ⊎ (is_meta_identifier p ≡ true)

abbrev pub trim_v : Text → Text
trim_v [] = []
trim_v (c ∷ s) = if c == b'v' then s else c ∷ s

-- Digits, without a sign, whose value is at most `bound`.
unfoldable pub parse_digits : (bound : ℕ) → Text → Option ℕ
parse_digits bound s =
    if s == [] || not (all_digits s)
    then none
    else if leb (value_from 0 s) bound
    then some (value_from 0 s)
    else none

-- `strconv.ParseInt(s, 10, 64)`, with none for an error
unfoldable pub parse_int : Text → Option ℤ
unfolding parse_digits
parse_int [] = none
parse_int (c ∷ s) =
    if c == b'-'
    then elim (parse_digits (2 ^ 63) s) [
      | none ↦ none
      | some zero ↦ some (pos 0)
      | some (suc n) ↦ some (negsuc n)
    ]
    else Option.map pos (parse_digits (2 ^ 63 - 1) (if c == b'+' then s else c ∷ s))

abbrev pub invalid_number : Error
invalid_number = message (codes "invalid syntax or value out of range")

-- `Parse` behind the two checks of identifiers: the three numbers.
unfoldable pub parse_numbers : Text → (pre_release metadata : Text) → Outcome Version
parse_numbers version pre_release metadata =
    if not (count_byte b'.' version == 2)
    then err (message (version ++ codes " should contain major, minor, and patch versions"))
    else let (first, after) = cut version b'.' in
      let (second, third) = cut after b'.' in
      elim (parse_int first) [
        | none ↦ err invalid_number
        | some major ↦ elim (parse_int second) [
          | none ↦ err invalid_number
          | some minor ↦ elim (parse_int third) [
            | none ↦ err invalid_number
            | some patch ↦ ok (record {
              major = major;
              minor = minor;
              patch = patch;
              pre_release = pre_release;
              metadata = metadata;
            })
          ]
        ]
      ]

unfoldable pub parse : Text → Outcome Version
parse text =
    let (rest, metadata) = cut (trim_v text) b'+' in
    if not (metadata == []) && not (is_meta_identifier metadata)
    then err (message (codes "invalid metadata identifier: " ++ metadata))
    else let (version, pre_release) = cut rest b'-' in
      if not (pre_release == []) && not (is_meta_identifier pre_release)
      then err (message (codes "invalid pre-release identifier: " ++ pre_release))
      else parse_numbers version pre_release metadata

-- A part with its mark, or nothing where it is empty.
abbrev pub marked : ℕ → Text → Text
marked mark part = if part == [] then [] else mark ∷ part

-- `AppendText` and `String`
unfoldable pub append_text : Version → Text → Text
append_text v b =
    let numbers = format_int v.major ++ b'.' ∷ (format_int v.minor ++ b'.' ∷ format_int v.patch) in
    b ++ (numbers ++ (marked b'-' v.pre_release ++ marked b'+' v.metadata))

unfoldable pub to_string : Version → Text
unfolding append_text
to_string v = append_text v []
