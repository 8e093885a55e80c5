-- ===== src/Fixer/Fixes/Whitespace.antt =====
-- pkg/fixer/fixes/nowhitespacecomment.go: a space behind the `#` of a comment.
use regal.Base.{
  ℕ, zero, suc, ◌≡◌, inl, inr, Bool, true, false, not, ◌||◌, Option, none, some, List, [], ◌∷◌,
  ◌++◌, arith, ltb, if◌then◌else◌, ltb→lt, Bool-cases, length, get_elem?, set, take, drop, ◌==◌,
  Text, codes, ℤ, pos, negsuc, ◌-ℤ◌, ltb_ℤ, Outcome, ok, err, ◌>>=◌, text_eq, nat_eq,
}
use regal.Go.Slices.{
  int_length, index, set_index, each_one, get_elem?-some, slice_to, slice_from, each, each_inv,
  get_elem?-lt, take-suc, index_before, set_index_before, slice_to_ok, slice_from_ok,
}
use regal.Go.Strings.{split, join}
use regal.Fixer.Fixes.{
  Location, RuntimeOptions, FixCandidate, FixResult, newline, missing_options, finish,
}
use regal.Fixer.Fixes.Edits.{
  Edited, same, EachLine, EachLine-refl, EachLine-insert, Answers, finish-Answers,
}

abbrev pub name : Text
name = codes "no-whitespace-comment"

step_at : List Text × Bool → (row column : ℤ) → Outcome (List Text × Bool)
unfolding ◌>>=◌
step_at (lines, fixed) row column =
    if ltb_ℤ row (pos 1) || ltb_ℤ column (pos 1) || ltb_ℤ (int_length lines) row
    then ok (lines, fixed)
    else do
      line ← index lines (row -ℤ pos 1)
      if ltb_ℤ (int_length line) column then ok (lines, fixed) else do
        c ← index line (column -ℤ pos 1)
        if not (c == b'#') then ok (lines, fixed) else do
          before ← slice_to line column
          after ← slice_from line column
          lines' ← set_index lines (row -ℤ pos 1) (before ++ b' ' ∷ after)
          ok (lines', true)

step : List Text × Bool → Location → Outcome (List Text × Bool)
unfolding step_at
step s loc = step_at s loc.row loc.column

pub fix : FixCandidate → Option RuntimeOptions → Outcome (List FixResult)
unfolding ◌>>=◌ step
fix fc none = err missing_options
fix fc (some opts) = do
  s ← each step (split fc.contents newline, false) opts.locations
  finish name opts.base_dir s

abbrev pub BehindHash : Text → Text → Type 0
BehindHash before after = (start : Text) × (before ≡ start ++ b'#' ∷ [])

behind_hash :
    (line : Text) (k c : ℕ)
    → get_elem? line k ≡ some c
    → (c == b'#') ≡ true
    → take (suc k) line ≡ take k line ++ b'#' ∷ []
behind_hash line k c byte hash = ground (arith, take-suc {0} line k byte)

step_at_hash :
    (lines : List Text) (fixed : Bool) (r k : ℕ) (line : Text)
    → get_elem? lines r ≡ some line
    → get_elem? line k ≡ some b'#'
    → step_at (lines, fixed) (pos (suc r)) (pos (suc k))
      ≡ ok (set lines r (take (suc k) line ++ b' ' ∷ drop (suc k) line), true)
unfolding step_at
step_at_hash lines fixed r k line found hash = ground (
  arith,
  index_before lines r line found,
  index_before line k b'#' hash,
  get_elem?-some {0} lines r found,
  get_elem?-some {0} line k hash,
  slice_to_ok line (suc k),
  slice_from_ok line (suc k),
  set_index_before lines r (take (suc k) line ++ b' ' ∷ drop (suc k) line),
)

module _ (start : List Text) where
  abbrev Kept : List Text × Bool → Type 0
  Kept s = EachLine (Edited b' ' BehindHash) start s.0

  step_at_lem :
      (s : List Text × Bool) (row column : ℤ)
      → Kept s
      → (s' : List Text × Bool) × (step_at s row column ≡ ok s') × Kept s'
  unfolding step_at
  step_at_lem (lines, fixed) (negsuc n) column h = ((lines, fixed), ground arith, h)
  step_at_lem (lines, fixed) (pos zero) column h = ((lines, fixed), ground arith, h)
  step_at_lem (lines, fixed) (pos (suc r)) (negsuc n) h = ((lines, fixed), ground arith, h)
  step_at_lem (lines, fixed) (pos (suc r)) (pos zero) h = ((lines, fixed), ground arith, h)
  step_at_lem (lines, fixed) (pos (suc r)) (pos (suc k)) h =
      elim (Bool-cases (ltb r (length lines))) [
        | inr out ↦ ((lines, fixed), ground arith, h)
        | inl inside ↦
            let (line, found) = get_elem?-lt lines r (ltb→lt _ _ inside) in
            elim (Bool-cases (ltb k (length line))) [
              | inr out ↦ ((lines, fixed), ground (arith, index_before lines r line found), h)
              | inl within ↦
                  let (c, byte) = get_elem?-lt line k (ltb→lt _ _ within) in
                  let row_found = index_before lines r line found in
                  let byte_found = index_before line k c byte in
                  elim (Bool-cases (c == b'#')) [
                    | inr differ ↦ ((lines, fixed), ground (arith, row_found, byte_found), h)
                    | inl hash ↦
                        let l = take (suc k) line ++ b' ' ∷ drop (suc k) line in
                        (
                          (set lines r l, true),
                          step_at_hash lines fixed r k line found (ground arith),
                          EachLine-insert b' ' BehindHash start lines r (suc k) line h found
                              (take k line, behind_hash line k c byte hash),
                        )
                  ]
            ]
      ]

-- Whatever the text and the locations, even ones outside the text, the fix does not fail. It
-- returns nothing, or one result, whose lines are those of the text with a space put in, any number
-- of times, directly behind a `#`; lines are neither added nor removed.
pub no_whitespace_comment-Answers :
    (fc : FixCandidate) (opts : RuntimeOptions)
    → Answers b' ' BehindHash fc.contents (fix fc (some opts))
unfolding fix
no_whitespace_comment-Answers fc opts =
    let start = split fc.contents newline in
    let (s, ran, kept) =
      each_inv (Kept start) step
        (λ s loc h. unfold step in step_at_lem start s loc.row loc.column h) (start, false)
        opts.locations (EachLine-refl (Edited b' ' BehindHash) (λ l. same) start) in
    rw ran (finish-Answers b' ' BehindHash fc.contents name opts.base_dir s (omega arith) kept)

-- A single location that points at a `#` gives one result: the text with a space behind that `#`.
pub no_whitespace_comment_at :
    (fc : FixCandidate) (opts : RuntimeOptions) (loc : Location) (r k : ℕ) (line : Text)
    → opts.locations ≡ loc ∷ []
    → loc.row ≡ pos (suc r)
    → loc.column ≡ pos (suc k)
    → get_elem? (split fc.contents newline) r ≡ some line
    → get_elem? line k ≡ some b'#'
    → fix fc (some opts)
      ≡ ok (
          record {
            rename = none;
            title = name;
            root = opts.base_dir;
            contents =
                join
                  (set
                    (split fc.contents newline)
                    r
                    (take (suc k) line ++ b' ' ∷ drop (suc k) line))
                  newline;
          }
          ∷ [])
unfolding fix finish
no_whitespace_comment_at fc opts loc r k line one row column found hash =
    let lines = split fc.contents newline in
    let inserted : step (lines, false) loc
        ≡ ok (set lines r (take (suc k) line ++ b' ' ∷ drop (suc k) line), true) =
      unfold step in rw (row, column) (step_at_hash lines false r k line found hash) in
    rw one (rw (each_one step (lines, false) _ loc inserted))
