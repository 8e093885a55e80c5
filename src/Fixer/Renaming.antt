-- ===== src/Fixer/Renaming.antt =====
-- pkg/fixer/fixer.go `handleRename`: moving a file, and what happens if the new path is taken.
-- The candidates for another path are a parameter here, and an error ends the run.
pub mod Keeps
pub mod Moves
pub mod Tests
use regal.Base.{
  ℕ, zero, suc, Bool, true, false, not, some, List, ◌++◌, if◌then◌else◌, contains, Text, codes,
  Error, message, wrapped, rename_conflict, Outcome, ok, err, panicked, unfinished, ◌>>=◌, ◌>>◌,
  wrap, text_eq,
}
use regal.Fixer.Provider.{FileProvider}
use regal.Fixer.Fixes.{FixResult, Rename}
use regal.Fixer.Report.{
  Report, add_file_fix, merge_fixes, register_old_path_for_file, register_conflict_many_to_one,
  register_conflict_source_file,
}
use regal.Fixer.Setup.{OnConflictOperation, on_conflict_error, on_conflict_rename, unsupported}

-- `errors.As(err, &RenameConflictError{})`
unfoldable pub is_rename_conflict : Error → Bool
is_rename_conflict (message t) = false
is_rename_conflict (wrapped t e) = is_rename_conflict e
is_rename_conflict (rename_conflict from to) = true

-- The bookkeeping at the end of `handleRename`.
unfoldable pub record_move : Report → (to from : Text) → FixResult → Report
record_move r to from fix_result =
    register_old_path_for_file (merge_fixes (add_file_fix r to fix_result) to from) to from

module _ {S : Type 0} (fp : FileProvider S) (candidate : Text → Text) where
  -- `handleRename`, whose result is also the fix result, since its `Rename` is a pointer. A round
  -- of the loop takes one unit of fuel.
  unfoldable pub try_rename :
      ℕ
      → OnConflictOperation
      → (starting_files : List Text) (from to : Text) → FixResult
      → S × Report
      → Outcome (S × Report × FixResult)
  unfolding record_move is_rename_conflict
  try_rename zero op starting_files from to fix_result (s, r) = unfinished
  try_rename (suc fuel) op starting_files from to fix_result (s, r) =
      let (answer, s') = fp.rename s from to in
      let again = try_rename fuel op starting_files from (candidate to) fix_result (s', r) in
      let moved = record fix_result { rename = some (record { from_path = from; to_path = to }) } in
      elim answer [
        | ok _ ↦ ok (s', record_move r to from moved, moved)
        | panicked ↦ panicked
        | unfinished ↦ unfinished
        | err e ↦
            if not (is_rename_conflict e)
            then err (wrapped (codes "failed to rename file") e)
            else elim op [
              | on_conflict_rename ↦ again
              | unsupported t ↦ err (message (codes "unsupported conflict operation: " ++ t))
              | on_conflict_error ↦
                  let (deleted, s'') = fp.delete s' from in
                  do
                    wrap (codes "failed to delete file " ++ from) deleted
                    let r' =
                        if contains starting_files to
                        then register_conflict_source_file r fix_result.root to from
                        else register_conflict_many_to_one r fix_result.root to from
                    ok (s'', record_move r' to from fix_result, fix_result)
            ]
      ]

  unfoldable pub handle_rename :
      ℕ
      → OnConflictOperation
      → (starting_files : List Text) → FixResult
      → Rename
      → S × Report
      → Outcome (S × Report × FixResult)
  unfolding try_rename
  handle_rename fuel op starting_files fix_result move =
      try_rename fuel op starting_files move.from_path move.to_path fix_result
