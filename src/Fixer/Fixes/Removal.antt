-- ===== src/Fixer/Fixes/Removal.antt =====
-- pkg/fixer/fixes/fixes.go `removeLocations`, and the two fixes that are made of it:
-- redundantexistencecheck.go and constantcondition.go.
pub mod Splice
pub mod Cuts
use regal.Base.{
  Bool, true, false, ◌||◌, Option, none, some, List, [], ◌∷◌, ◌++◌, if◌then◌else◌, Text, codes, ℤ,
  pos, ◌+ℤ◌, ◌-ℤ◌, ltb_ℤ, leb_ℤ, Outcome, ok, err, ◌>>=◌, ◌>>◌, text_eq,
}
use regal.Go.Slices.{int_length, index, slice_to, slice_from, each}
use regal.Go.Strings.{split}
use regal.Fixer.Fixes.{
  Position, Location, RuntimeOptions, FixCandidate, FixResult, newline, missing_options, finish,
}

-- The comparison of the sort: the lower row first, then the column further right.
compare_locations : Location → Location → ℤ
compare_locations a b =
    if ltb_ℤ a.row b.row || ltb_ℤ b.row a.row then b.row -ℤ a.row else b.column -ℤ a.column

-- `slices.SortStableFunc`: an element stays before those that it is equal to.
insert_location : Location → List Location → List Location
unfolding compare_locations
insert_location a [] = a ∷ []
insert_location a (b ∷ bs) =
    if ltb_ℤ (compare_locations b a) (pos 0) then b ∷ insert_location a bs else a ∷ b ∷ bs

sort_locations : List Location → List Location
unfolding insert_location
sort_locations [] = []
sort_locations (a ∷ as') = insert_location a (sort_locations as')

-- The body of the loop behind its first test, with 0-based rows and columns.
step_at : List Text × Bool → (start_row start_col end_row end_col : ℤ) → Outcome (List Text × Bool)
unfolding ◌>>=◌
step_at (lines, fixed) start_row start_col end_row end_col =
    if ltb_ℤ start_row (pos 0) || ltb_ℤ end_row start_row || leb_ℤ (int_length lines) end_row
    then ok (lines, fixed)
    else do
      first ← index lines start_row
      last ← index lines end_row
      if ltb_ℤ start_col (pos 0)
            || leb_ℤ (int_length first) start_col
            || ltb_ℤ end_col (pos 0)
            || ltb_ℤ (int_length last) end_col
          then ok (lines, fixed)
          else do
            before ← slice_to first start_col
            after ← slice_from last end_col
            above ← slice_to lines start_row
            below ← slice_from lines (end_row +ℤ pos 1)
            ok (above ++ (before ++ after) ∷ below, true)

-- A location without an end is passed over.
step_to : List Text × Bool → Location → Option Position → Outcome (List Text × Bool)
unfolding step_at
step_to s loc none = ok s
step_to s loc (some end) =
    step_at s (loc.row -ℤ pos 1) (loc.column -ℤ pos 1) (end.row -ℤ pos 1) (end.column -ℤ pos 1)

step : List Text × Bool → Location → Outcome (List Text × Bool)
unfolding step_to
step s loc = step_to s loc loc.end

pub remove_locations : List Text → List Location → Outcome (List Text × Bool)
unfolding step sort_locations
remove_locations lines locations = each step (lines, false) (sort_locations locations)

abbrev pub redundant_name : Text
redundant_name = codes "redundant-existence-check"

abbrev pub constant_name : Text
constant_name = codes "constant-condition"

-- `RedundantExistenceCheck.Fix`
pub redundant_existence_check : FixCandidate → Option RuntimeOptions → Outcome (List FixResult)
unfolding ◌>>=◌
redundant_existence_check fc none = err missing_options
redundant_existence_check fc (some opts) = do
  s ← remove_locations (split fc.contents newline) opts.locations
  finish redundant_name opts.base_dir s

-- `ConstantCondition.Fix`
pub constant_condition : FixCandidate → Option RuntimeOptions → Outcome (List FixResult)
unfolding ◌>>=◌
constant_condition fc none = err missing_options
constant_condition fc (some opts) = do
  s ← remove_locations (split fc.contents newline) opts.locations
  finish constant_name opts.base_dir s
