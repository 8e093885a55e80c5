-- ===== src/Util/Lines.antt =====
-- internal/util/util.go: the lines of a text, and the conversions between `int` and `uint`.
pub mod Split
mod Tests
use regal.Base.{
  ℕ, zero, suc, ◌+◌, ◌-◌, ◌%◌, ◌^◌, Bool, true, false, ◌&&◌, none, some, List, [], ◌∷◌, ltb,
  if◌then◌else◌, get_elem?, take, drop, ◌==◌, Text, ℤ, pos, negsuc, ◌-ℤ◌, text_eq, nat_eq,
}
use regal.Go.Strings.{index_byte, count_byte}

abbrev pub line_break : ℕ
line_break = 10

-- `SafeUintToInt`, on a `uint`, and `SafeIntToUint`, on an `int`, both of 64 bits
unfoldable pub safe_uint_to_int : ℕ → ℤ
safe_uint_to_int u = if ltb (2 ^ 63 - 1) u then pos (2 ^ 63 - 1) else pos u

unfoldable pub safe_int_to_uint : ℤ → ℕ
safe_int_to_uint (pos n) = n
safe_int_to_uint (negsuc n) = 0

-- `NumLines` and `BytesNumLines`
unfoldable pub num_lines : Text → ℕ
unfolding safe_int_to_uint
num_lines s = (safe_int_to_uint (pos (count_byte line_break s)) + 1) % 2 ^ 64

-- The loop of `IndexByteNth` with its `i`.
unfoldable pub index_from : Text → ℕ → (n i : ℕ) → ℤ
index_from s b zero i = pos i -ℤ pos 1
index_from s b (suc n) i = elim (index_byte (drop i s) b) [
  | none ↦ negsuc 0
  | some d ↦ index_from s b n (i + suc d)
]

unfoldable pub index_byte_nth : Text → ℕ → ℕ → ℤ
index_byte_nth s b n = index_from s b n 0

-- The text up to the first line break.
unfoldable pub first_line : Text → Text
first_line s = elim (index_byte s line_break) [ none ↦ s | some i ↦ take i s ]

-- `Line` for a line that is not the first, from the index of the line break before it.
unfoldable pub line_behind : Text → ℤ → Text × Bool
line_behind s (pos i) = (first_line (drop (suc i) s), true)
line_behind s (negsuc i) = ([], false)

-- `Line`, which counts from 1.
unfoldable pub line : Text → ℕ → Text × Bool
line s zero = ([], false)
line s (suc zero) = (first_line s, true)
line s (suc (suc n)) = line_behind s (index_byte_nth s line_break (suc n))

-- `bytes.Lines`: each line with its line break, and none behind the last one.
add_byte : ℕ → List Text → List Text
add_byte c [] = (c ∷ []) ∷ []
add_byte c (l ∷ ls) = (c ∷ l) ∷ ls

unfoldable pub lines : Text → List Text
unfolding add_byte
lines [] = []
lines (c ∷ s) = let rest = lines s in if c == line_break then (c ∷ []) ∷ rest else add_byte c rest

unfoldable pub trim_line_break : Text → Text
trim_line_break [] = []
trim_line_break (c ∷ s) = if s == [] && c == line_break then [] else c ∷ trim_line_break s

-- `LineContents`, which counts from 0; nil for a line that is not there.
unfoldable pub line_contents : Text → ℕ → Text
unfolding lines trim_line_break
line_contents document line_num = elim (get_elem? (lines document) line_num) [
  | none ↦ []
  | some l ↦ trim_line_break l
]
