-- ===== src/Util/Lines/Split.antt =====
-- internal/util/util.go: the functions on lines against the list of lines that `strings.Split` gives.
use regal.Base.{
  ℕ, zero, suc, ◌+◌, ◌-◌, ◌^◌, ◌<◌, ◌≡◌, refl, ◌∙◌, ◌≢◌, inl, inr, Bool, true, false, Option, none,
  some, List, [], ◌∷◌, arith, Bool-cases, Option-cases, length, get_elem?, take, drop, ◌==◌, eq_iff,
  Text, text_beq, pos, ◌-ℤ◌, text_eq, nat_eq,
}
use regal.Go.Slices.{drop-drop}
use regal.Go.Strings.{count_byte, split, split-ne-nil, index_byte, grow}
use regal.Util.Lines.{
  line_break, num_lines, safe_int_to_uint, index_from, index_byte_nth, first_line, line_behind,
  line, add_byte, lines, trim_line_break, line_contents,
}

split-whole : (t : Text) → index_byte t line_break ≡ none → split t line_break ≡ t ∷ []
unfolding split index_byte
split-whole [] h = refl
split-whole (c ∷ t) h = elim (Option-cases (index_byte t line_break)) [
  | inl absent ↦ ground (arith, h, absent, split-whole t absent)
  | inr (d, found) ↦ ground (arith, h, found)
]

split-first :
    (t : Text) (d : ℕ)
    → index_byte t line_break ≡ some d
    → split t line_break ≡ take d t ∷ split (drop (suc d) t) line_break
unfolding split index_byte
split-first [] d h = cc
split-first (c ∷ t) zero h = elim (Option-cases (index_byte t line_break)) [
  | inl absent ↦ ground (arith, h, absent)
  | inr (d, found) ↦ ground (arith, h, found)
]
split-first (c ∷ t) (suc d) h = elim (Option-cases (index_byte t line_break)) [
  | inl absent ↦ ground (arith, h, absent)
  | inr (e, found) ↦ ground (arith, h, found, split-first t e found)
]

first_line-split : (t : Text) → get_elem? (split t line_break) 0 ≡ some (first_line t)
unfolding first_line
first_line-split t = elim (Option-cases (index_byte t line_break)) [
  | inl absent ↦ rw (absent, split-whole t absent, first_line) refl
  | inr (d, found) ↦ rw (found, split-first t d found, first_line) refl
]

-- What `Line` makes of an optional line.
abbrev pub found_or_not : Option Text → Text × Bool
found_or_not none = ([], false)
found_or_not (some l) = (l, true)

last_index : (i d : ℕ) → pos (i + suc d) -ℤ pos 1 ≡ pos (i + d)
unfolding ◌-ℤ◌
last_index i d = ground arith

-- A step of the loop, behind the line break at `d`.
index_from-step :
    (s : Text) (n i d : ℕ)
    → index_byte (drop i s) line_break ≡ some d
    → line_behind s (index_from s line_break n (i + suc d))
      ≡ found_or_not (get_elem? (split (drop (i + suc d) s) line_break) n)
    → line_behind s (index_from s line_break (suc n) i)
      ≡ found_or_not (get_elem? (split (drop i s) line_break) (suc n))
unfolding index_from
index_from-step s n i d found later =
    rw (found, index_from, split-first (drop i s) d found) (rw (drop-drop s i (suc d)) later)

last_line :
    (s : Text) (i d : ℕ)
    → line_behind s (index_from s line_break 0 (i + suc d))
      ≡ found_or_not (get_elem? (split (drop (i + suc d) s) line_break) 0)
unfolding line_behind index_from
last_line s i d =
    let next : suc (i + d) ≡ i + suc d = omega arith in
    rw (last_index i d, first_line-split (drop (i + suc d) s)) (rw next refl)

absent_line :
    (s : Text) (n i : ℕ)
    → index_byte (drop i s) line_break ≡ none
    → line_behind s (index_from s line_break (suc n) i)
      ≡ found_or_not (get_elem? (split (drop i s) line_break) (suc n))
unfolding line_behind index_from
absent_line s n i absent = rw (absent, index_from, split-whole (drop i s) absent) refl

index_from-split :
    (s : Text) (n i : ℕ)
    → line_behind s (index_from s line_break (suc n) i)
      ≡ found_or_not (get_elem? (split (drop i s) line_break) (suc n))
index_from-split s zero i = elim (Option-cases (index_byte (drop i s) line_break)) [
  | inl absent ↦ absent_line s 0 i absent
  | inr (d, found) ↦ index_from-step s 0 i d found (last_line s i d)
]
index_from-split s (suc n) i = elim (Option-cases (index_byte (drop i s) line_break)) [
  | inl absent ↦ absent_line s (suc n) i absent
  | inr (d, found) ↦ index_from-step s (suc n) i d found (index_from-split s n (i + suc d))
]

-- `Line` gives the line that `strings.Split` gives, counted from 1, and false where there is none.
pub line-split :
    (s : Text) (n : ℕ) → line s (suc n) ≡ found_or_not (get_elem? (split s line_break) n)
unfolding line index_byte_nth
line-split s zero = rw (first_line-split s) refl
line-split s (suc n) = index_from-split s n 0

length-grown : (c : ℕ) (parts : List Text) → parts ≢ [] → length (grow c parts) ≡ length parts
unfolding grow
length-grown c [] h = absurd (h refl)
length-grown c (p ∷ ps) h = refl

count_byte-split : (s : Text) → suc (count_byte line_break s) ≡ length (split s line_break)
unfolding split
count_byte-split [] = refl
count_byte-split (c ∷ s) =
    ground
      (arith, count_byte-split s, length-grown c (split s line_break) (split-ne-nil s line_break))

-- `NumLines` is the number of lines, for a text whose line breaks are fewer than a `uint` holds.
pub num_lines-split :
    (s : Text) → count_byte line_break s < 2 ^ 64 - 1 → num_lines s ≡ length (split s line_break)
unfolding num_lines safe_int_to_uint
num_lines-split s h = omega (arith, h, count_byte-split s)

abbrev trimmed : Option Text → Text
trimmed none = []
trimmed (some l) = trim_line_break l

-- A byte that is no line break, in front of both.
grown :
    (c : ℕ) (ls ps : List Text)
    → c ≢ line_break
    → ps ≢ []
    → ((n : ℕ) → trimmed (get_elem? ls n) ≡ (found_or_not (get_elem? ps n)).0)
    → (n : ℕ) → trimmed (get_elem? (add_byte c ls) n) ≡ (found_or_not (get_elem? (grow c ps) n)).0
unfolding add_byte grow trim_line_break
grown c [] [] h some_part same n = absurd (some_part refl)
grown c (l ∷ ls) [] h some_part same n = absurd (some_part refl)
grown c [] (p ∷ ps) h some_part same zero = ground (arith, same 0, h, eq_iff c line_break)
grown c [] (p ∷ ps) h some_part same (suc n) = same (suc n)
grown c (l ∷ ls) (p ∷ ps) h some_part same zero = ground (arith, same 0, h, eq_iff c line_break)
grown c (l ∷ ls) (p ∷ ps) h some_part same (suc n) = same (suc n)

first_or_later :
    (c : ℕ) (s : Text)
    → (c == line_break) ≡ true
    → ((n : ℕ)
        → trimmed (get_elem? (lines s) n) ≡ (found_or_not (get_elem? (split s line_break) n)).0)
    → (n : ℕ)
    → trimmed (get_elem? ((c ∷ []) ∷ lines s) n)
      ≡ (found_or_not (get_elem? ([] ∷ split s line_break) n)).0
unfolding trim_line_break text_beq
first_or_later c s break same zero = ground (arith, break)
first_or_later c s break same (suc n) = same n

lines-split :
    (s : Text) (n : ℕ)
    → trimmed (get_elem? (lines s) n) ≡ (found_or_not (get_elem? (split s line_break) n)).0
unfolding lines split trim_line_break
lines-split [] zero = refl
lines-split [] (suc n) = refl
lines-split (c ∷ s) n = elim (Bool-cases (c == line_break)) [
  | inl break ↦ rw break (first_or_later c s break (lines-split s) n)
  | inr other ↦ rw other (
      grown c (lines s) (split s line_break) (λ e. ground (arith, other, e, eq_iff c line_break))
        (split-ne-nil s line_break) (lines-split s) n)
]

-- `LineContents` gives the line that `strings.Split` gives, counted from 0, and nil where there is
-- none.
pub line_contents-split :
    (s : Text) (n : ℕ) → line_contents s n ≡ (found_or_not (get_elem? (split s line_break) n)).0
unfolding line_contents
line_contents-split s n = trimmed_same (get_elem? (lines s) n) ∙ lines-split s n
  where
    trimmed_same :
        (found : Option Text)
        → elim found [ none ↦ [] | some l ↦ trim_line_break l ] ≡ trimmed found
    trimmed_same none = refl
    trimmed_same (some l) = refl
