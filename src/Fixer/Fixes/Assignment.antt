-- ===== src/Fixer/Fixes/Assignment.antt =====
-- pkg/fixer/fixes/useassignmentoperator.go: `=` becomes `:=` in the head of a rule.
use regal.Base.{
  ℕ, zero, suc, ◌≡◌, inl, inr, Bool, true, false, not, ◌||◌, Option, none, some, List, [], ◌∷◌,
  ◌++◌, arith, ltb, if◌then◌else◌, ltb→lt, Bool-cases, length, get_elem?, set, take, drop, ◌==◌,
  Text, codes, ℤ, pos, negsuc, ◌-ℤ◌, ltb_ℤ, leb_ℤ, Outcome, ok, err, ◌>>=◌, text_eq, nat_eq,
}
use regal.Go.Slices.{
  before_column_one, before_column_zero, int_length, index, set_index, each_one, get_elem?-some,
  slice_to, slice_from, each, each_inv, get_elem?-lt, drop_lem, index_before, set_index_before,
  slice_to_ok, slice_from_ok, row_index,
}
use regal.Go.Strings.{split, join}
use regal.Fixer.Fixes.{
  Location, RuntimeOptions, FixCandidate, FixResult, newline, missing_options, finish,
}
use regal.Fixer.Fixes.Edits.{
  Edited, same, EachLine, EachLine-refl, EachLine-insert, Answers, finish-Answers,
}

abbrev pub name : Text
name = codes "use-assignment-operator"

step_at : List Text × Bool → (row column : ℤ) → Outcome (List Text × Bool)
unfolding ◌>>=◌
step_at (lines, fixed) row column =
    if ltb_ℤ row (pos 1) || ltb_ℤ (int_length lines) row then ok (lines, fixed) else do
      line ← index lines (row -ℤ pos 1)
      if ltb_ℤ (column -ℤ pos 1) (pos 0) || leb_ℤ (int_length line) (column -ℤ pos 1)
          then ok (lines, fixed)
          else do
            c ← index line (column -ℤ pos 1)
            if not (c == b'=') then ok (lines, fixed) else do
              before ← slice_to line (column -ℤ pos 1)
              after ← slice_from line (column -ℤ pos 1)
              lines' ← set_index lines (row -ℤ pos 1) (before ++ b':' ∷ after)
              ok (lines', true)

step : List Text × Bool → Location → Outcome (List Text × Bool)
unfolding step_at
step s loc = step_at s loc.row loc.column

pub fix : FixCandidate → Option RuntimeOptions → Outcome (List FixResult)
unfolding ◌>>=◌ step
fix fc none = err missing_options
fix fc (some opts) = do
  s ← each step (split fc.contents newline, false) opts.locations
  finish name opts.base_dir s

abbrev pub BeforeEquals : Text → Text → Type 0
BeforeEquals before after = (rest : Text) × (after ≡ b'=' ∷ rest)

step_at_equals :
    (lines : List Text) (fixed : Bool) (r k : ℕ) (line : Text)
    → get_elem? lines r ≡ some line
    → get_elem? line k ≡ some b'='
    → step_at (lines, fixed) (pos (suc r)) (pos (suc k))
      ≡ ok (set lines r (take k line ++ b':' ∷ drop k line), true)
unfolding step_at
step_at_equals lines fixed r k line found equals = rw (row_index k) (
    ground (
      arith,
      index_before lines r line found,
      index_before line k b'=' equals,
      row_index k,
      get_elem?-some {0} lines r found,
      get_elem?-some {0} line k equals,
      slice_to_ok line k,
      slice_from_ok line k,
      set_index_before lines r (take k line ++ b':' ∷ drop k line),
    ))

module _ (start : List Text) where
  abbrev Kept : List Text × Bool → Type 0
  Kept s = EachLine (Edited b':' BeforeEquals) start s.0

  in_line :
      (lines : List Text) (fixed : Bool) (r : ℕ) (line : Text) (column : ℤ)
      → get_elem? lines r ≡ some line
      → index lines (pos (suc r) -ℤ pos 1) ≡ ok line
      → Kept (lines, fixed)
      → (s' : List Text × Bool) × (step_at (lines, fixed) (pos (suc r)) column ≡ ok s') × Kept s'
  unfolding step_at
  in_line lines fixed r line (negsuc n) found at h =
      ((lines, fixed), ground (arith, before_column_one n, get_elem?-some {0} lines r found), h)
  in_line lines fixed r line (pos zero) found at h =
      ((lines, fixed), ground (arith, before_column_zero, get_elem?-some {0} lines r found), h)
  in_line lines fixed r line (pos (suc k)) found at h = elim (Bool-cases (ltb k (length line))) [
    | inr out ↦
        ((lines, fixed), rw (row_index k) (ground (arith, get_elem?-some {0} lines r found)), h)
    | inl within ↦
        let (c, byte) = get_elem?-lt line k (ltb→lt _ _ within) in
        elim (Bool-cases (c == b'=')) [
          | inr differ ↦ (
            (lines, fixed),
            rw (row_index k) (
                ground (
                  arith,
                  index_before line k c byte,
                  row_index k,
                  get_elem?-some {0} lines r found,
                )),
            h,
          )
          | inl equals ↦ (
            (set lines r (take k line ++ b':' ∷ drop k line), true),
            step_at_equals lines fixed r k line found (ground arith),
            EachLine-insert b':' BeforeEquals start lines r k line h found
                (drop (suc k) line, drop_lem line k (ground arith)),
          )
        ]
  ]

  step_at_lem :
      (s : List Text × Bool) (row column : ℤ)
      → Kept s
      → (s' : List Text × Bool) × (step_at s row column ≡ ok s') × Kept s'
  unfolding step_at
  step_at_lem (lines, fixed) (negsuc n) column h = ((lines, fixed), ground arith, h)
  step_at_lem (lines, fixed) (pos zero) column h = ((lines, fixed), ground arith, h)
  step_at_lem (lines, fixed) (pos (suc r)) column h = elim (Bool-cases (ltb r (length lines))) [
    | inr out ↦ ((lines, fixed), ground arith, h)
    | inl inside ↦
        let (line, found) = get_elem?-lt lines r (ltb→lt _ _ inside) in
        in_line lines fixed r line column found (index_before lines r line found) h
  ]

-- Whatever the text and the locations, even ones outside the text, the fix does not fail. It
-- returns nothing, or one result, whose lines are those of the text with a `:` put in, any number
-- of times, directly before a `=`; lines are neither added nor removed.
pub use_assignment_operator-Answers :
    (fc : FixCandidate) (opts : RuntimeOptions)
    → Answers b':' BeforeEquals fc.contents (fix fc (some opts))
unfolding fix
use_assignment_operator-Answers fc opts =
    let start = split fc.contents newline in
    let (s, ran, kept) =
      each_inv (Kept start) step
        (λ s loc h. unfold step in step_at_lem start s loc.row loc.column h) (start, false)
        opts.locations (EachLine-refl (Edited b':' BeforeEquals) (λ l. same) start) in
    rw ran (finish-Answers b':' BeforeEquals fc.contents name opts.base_dir s (omega arith) kept)

-- A single location that points at a `=` gives one result: the text with a `:` before that `=`.
pub use_assignment_operator_at :
    (fc : FixCandidate) (opts : RuntimeOptions) (loc : Location) (r k : ℕ) (line : Text)
    → opts.locations ≡ loc ∷ []
    → loc.row ≡ pos (suc r)
    → loc.column ≡ pos (suc k)
    → get_elem? (split fc.contents newline) r ≡ some line
    → get_elem? line k ≡ some b'='
    → fix fc (some opts)
      ≡ ok (
          record {
            rename = none;
            title = name;
            root = opts.base_dir;
            contents =
                join
                  (set (split fc.contents newline) r (take k line ++ b':' ∷ drop k line))
                  newline;
          }
          ∷ [])
unfolding fix finish
use_assignment_operator_at fc opts loc r k line one row column found equals =
    let lines = split fc.contents newline in
    let inserted : step (lines, false) loc
        ≡ ok (set lines r (take k line ++ b':' ∷ drop k line), true) =
      unfold step in rw (row, column) (step_at_equals lines false r k line found equals) in
    rw one (rw (each_one step (lines, false) _ loc inserted))
