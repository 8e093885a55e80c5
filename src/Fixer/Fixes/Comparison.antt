-- ===== src/Fixer/Fixes/Comparison.antt =====
-- pkg/fixer/fixes/preferequalscomparison.go: the first `=` from a column on becomes `==`. The code
-- reads the line before it tests the row, so a row outside the text is a panic.
use regal.Base.{
  ℕ, zero, suc, ◌+◌, ◌≤◌, ◌<◌, ◌≡◌, sym, ◌∙◌, ◌⊎◌, inl, inr, Bool, true, false, ◌||◌, Option, none,
  some, List, ◌∷◌, ◌++◌, arith, ltb, if◌then◌else◌, Bool-cases, Option-cases, length, get_elem?,
  set, take, drop, length-drop, All, Text, codes, ℤ, pos, negsuc, ◌+ℤ◌, ◌-ℤ◌, ◌≤ℤ◌, ltb_ℤ, leb_ℤ,
  Outcome, ok, err, panicked, ◌>>=◌, length-drop, text_eq,
}
use regal.Go.Slices.{
  before_column_one, before_column_zero, offset_index, drop-drop, index_out, each_inv-All,
  each_panics, int_length, index, set_index, get_elem?-some, slice_to, slice_from, each,
  get_elem?-lt, index_before, set_index_before, slice_to_ok, slice_from_ok, row_index,
}
use regal.Go.Strings.{split, index_byte, index_byte-some}
use regal.Fixer.Fixes.{
  Location, RuntimeOptions, FixCandidate, FixResult, newline, missing_options, finish,
}
use regal.Fixer.Fixes.Edits.{
  Edited, same, EachLine, EachLine-refl, EachLine-insert, length-EachLine, Answers, finish-Answers,
}

abbrev pub name : Text
name = codes "prefer-equals-comparison"

-- `lines[row] = line[0:i] + "=" + line[i:]`
put_equals : List Text → Text → (row i : ℤ) → Outcome (List Text × Bool)
unfolding ◌>>=◌
put_equals lines line row i = do
  before ← slice_to line i
  after ← slice_from line i
  lines' ← set_index lines row (before ++ b'=' ∷ after)
  ok (lines', true)

step_at : List Text × Bool → (row column : ℤ) → Outcome (List Text × Bool)
unfolding ◌>>=◌ put_equals
step_at (lines, fixed) row column = do
  line ← index lines (row -ℤ pos 1)
  if ltb_ℤ (int_length lines) row
        || ltb_ℤ (column -ℤ pos 1) (pos 0)
        || leb_ℤ (int_length line) (column -ℤ pos 1)
      then ok (lines, fixed)
      else do
        targeted ← slice_from line (column -ℤ pos 1)
        elim (index_byte targeted b'=') [
          | none ↦ ok (lines, fixed)
          | some i ↦ put_equals lines line (row -ℤ pos 1) (pos i +ℤ column -ℤ pos 1)
        ]

step : List Text × Bool → Location → Outcome (List Text × Bool)
unfolding step_at
step s loc = step_at s loc.row loc.column

pub fix : FixCandidate → Option RuntimeOptions → Outcome (List FixResult)
unfolding ◌>>=◌ step
fix fc none = err missing_options
fix fc (some opts) = do
  s ← each step (split fc.contents newline, false) opts.locations
  finish name opts.base_dir s

abbrev pub BeforeEquals : Text → Text → Type 0
BeforeEquals before after = (rest : Text) × (after ≡ b'=' ∷ rest)

-- The first `=` behind the first `k` bytes of a line, and the text from there on.
index_byte-drop :
    (line : Text) (k i : ℕ)
    → index_byte (drop k line) b'=' ≡ some i
    → (rest : Text) × (drop (k + i) line ≡ b'=' ∷ rest) × (k + i < length line)
index_byte-drop line k i h =
    let (rest, there, inside) = index_byte-some (drop k line) b'=' i h in
    (rest, sym (drop-drop line k i) ∙ there, omega (arith, length-drop k line))

put_equals_lem :
    (lines : List Text) (r n : ℕ) (line : Text)
    → r < length lines
    → n ≤ length line
    → put_equals lines line (pos (suc r) -ℤ pos 1) (pos n)
      ≡ ok (set lines r (take n line ++ b'=' ∷ drop n line), true)
unfolding put_equals
put_equals_lem lines r n line row column =
    rw (slice_to_ok line n column, slice_from_ok line n column)
      (rw (set_index_before lines r (take n line ++ b'=' ∷ drop n line) row))

step_at_equals :
    (lines : List Text) (fixed : Bool) (r k i : ℕ) (line : Text)
    → get_elem? lines r ≡ some line
    → k < length line
    → index_byte (drop k line) b'=' ≡ some i
    → step_at (lines, fixed) (pos (suc r)) (pos (suc k))
      ≡ ok (set lines r (take (k + i) line ++ b'=' ∷ drop (k + i) line), true)
unfolding step_at
step_at_equals lines fixed r k i line found within equals =
    rw (index_before lines r line found, row_index k)
      (ground (
        arith,
        offset_index i k,
        get_elem?-some {0} lines r found,
        slice_from_ok line k,
        equals,
        put_equals_lem lines r (k + i) line,
        (index_byte-drop line k i equals).2,
      ))

module _ (start : List Text) where
  abbrev Kept : List Text × Bool → Type 0
  Kept s = EachLine (Edited b'=' BeforeEquals) start s.0

  in_line :
      (lines : List Text) (fixed : Bool) (r : ℕ) (line : Text) (column : ℤ)
      → get_elem? lines r ≡ some line
      → index lines (pos (suc r) -ℤ pos 1) ≡ ok line
      → Kept (lines, fixed)
      → (s' : List Text × Bool) × (step_at (lines, fixed) (pos (suc r)) column ≡ ok s') × Kept s'
  unfolding step_at
  in_line lines fixed r line (negsuc n) found at h =
      ((lines, fixed), ground (arith, before_column_one n), h)
  in_line lines fixed r line (pos zero) found at h =
      ((lines, fixed), ground (arith, before_column_zero), h)
  in_line lines fixed r line (pos (suc k)) found at h = elim (Bool-cases (ltb k (length line))) [
    | inr out ↦
        ((lines, fixed), rw (row_index k) (ground (arith, get_elem?-some {0} lines r found)), h)
    | inl within ↦ elim (Option-cases (index_byte (drop k line) b'=')) [
      | inl absent ↦ (
        (lines, fixed),
        rw (row_index k) (ground (arith, slice_from_ok line k, get_elem?-some {0} lines r found)),
        h,
      )
      | inr (i, equals) ↦
          let (rest, there, inside) = index_byte-drop line k i equals in
          (
            (set lines r (take (k + i) line ++ b'=' ∷ drop (k + i) line), true),
            step_at_equals lines fixed r k i line found (ground arith) equals,
            EachLine-insert b'=' BeforeEquals start lines r (k + i) line h found (rest, there),
          )
    ]
  ]

  -- A row of the text.
  abbrev pub InText : Location → Type 0
  InText loc = (pos 1 ≤ℤ loc.row) × (loc.row ≤ℤ int_length start)

  step_lem :
      (s : List Text × Bool) (loc : Location)
      → InText loc
      → Kept s
      → (s' : List Text × Bool) × (step s loc ≡ ok s') × Kept s'
  unfolding step
  step_lem (lines, fixed) loc within h = in_row loc.row within
    where
      in_row :
          (row : ℤ)
          → (pos 1 ≤ℤ row) × (row ≤ℤ int_length start)
          → (s' : List Text × Bool) × (step_at (lines, fixed) row loc.column ≡ ok s') × Kept s'
      in_row (negsuc n) w = absurd (omega (arith, w.0))
      in_row (pos zero) w = absurd (omega (arith, w.0))
      in_row (pos (suc r)) w =
          let (line, found) =
            get_elem?-lt lines r
              (omega (arith, w.1, length-EachLine (Edited b'=' BeforeEquals) start lines h)) in
          in_line lines fixed r line loc.column found (index_before lines r line found) h

-- If every location's row is a row of the text, the fix does not fail. It returns nothing, or one
-- result, whose lines are those of the text with a `=` put in, any number of times, directly before
-- a `=`; lines are neither added nor removed.
pub prefer_equals_comparison-Answers :
    (fc : FixCandidate) (opts : RuntimeOptions)
    → All (InText (split fc.contents newline)) opts.locations
    → Answers b'=' BeforeEquals fc.contents (fix fc (some opts))
unfolding fix
prefer_equals_comparison-Answers fc opts rows =
    let start = split fc.contents newline in
    let (s, ran, kept) =
      each_inv-All (Kept start) (InText start) step (λ s loc w h. step_lem start s loc w h)
        (start, false) opts.locations rows
        (EachLine-refl (Edited b'=' BeforeEquals) (λ l. same) start) in
    rw ran (finish-Answers b'=' BeforeEquals fc.contents name opts.base_dir s (omega arith) kept)

-- If the first location's row lies before or behind the text, the fix panics: it reads that line
-- before it tests the row.
pub prefer_equals_comparison_panics :
    (fc : FixCandidate) (opts : RuntimeOptions) (loc : Location) (rest : List Location)
    → opts.locations ≡ loc ∷ rest
    → (loc.row ≤ℤ pos 0) ⊎ (int_length (split fc.contents newline) +ℤ pos 1 ≤ℤ loc.row)
    → fix fc (some opts) ≡ panicked
unfolding fix
prefer_equals_comparison_panics fc opts loc rest first out =
    let lines = split fc.contents newline in
    let fails : step (lines, false) loc ≡ panicked =
      unfold step step_at in rw (index_out lines loc.row out) in
    rw first (rw (each_panics step (lines, false) loc rest fails))
