-- ===== src/Fixer/Run/Restored.antt =====
-- pkg/fixer/fixer.go `FixViolations`: what is at the old path of a file that a fix has moved.
use regal.Base.{
  ℕ, suc, ◌≡◌, refl, Option, none, some, List, ◌∷◌, arith, eq_iff, eq_refl, Text, Outcome, ok,
  ◌>>=◌, wrap, text_eq,
}
use regal.Fixer.Provider.{FileProvider, IsFileSystem}
use regal.Fixer.Fixes.{Violation, Config, Fix, FixResult}
use regal.Fixer.Report.{Report, add_file_fix}
use regal.Fixer.Setup.{Fixer, get_fix_for_name}
use regal.Fixer.Renaming.{record_move, handle_rename}
use regal.Fixer.Renaming.Moves.{moved_to, try_rename-free}
use regal.Fixer.Run.{call_fix, move_first, fix_one_violation}

-- Over a provider that behaves as a file system, if the fix for a violation moves the file that the
-- violation names, and that is there, to a free path, then `FixViolations` leaves the file at both
-- paths, since it writes the result to the old path again.
pub fix_one_violation_restores :
    {S : Type 0} (fp : FileProvider S) (content : S → Text → Option Text)
    → IsFileSystem fp content
    → (candidate : Text → Text) (abs : Text → Outcome Text) (fuel : ℕ) (f : Fixer)
      (config : Option Config) (starting_files : List Text) (s : S) (rep : Report) (v : Violation)
      (fix : Fix) (r : FixResult) (rs : List FixResult) (to c : Text)
    → get_fix_for_name f v.title ≡ some fix
    → call_fix fp candidate abs (suc fuel) f fix v config s ≡ ok (r ∷ rs)
    → r.rename ≡ some (record { from_path = v.location.file; to_path = to })
    → content s v.location.file ≡ some c
    → content s to ≡ none
    → (s' : S) × (rep' : Report) × (fix_one_violation fp candidate abs
          (suc fuel)
          f
          config
          starting_files
          (s, rep)
          v
        ≡ ok (s', rep'))
      × (content s' v.location.file ≡ some r.contents)
      × (content s' to ≡ some c)
unfolding fix_one_violation move_first
fix_one_violation_restores fp content fs candidate abs fuel f config starting_files s rep v fix r rs
      to c found called move held free =
    let file = v.location.file in
    let s1 = (fp.rename s file to).1 in
    let x = moved_to file to r in
    let rep1 = record_move rep to file x in
    let moved : handle_rename fp candidate (suc fuel) f.on_conflict_operation starting_files r
          (record { from_path = file; to_path = to }) (s, rep)
        ≡ ok (s1, rep1, x) =
      unfold handle_rename in
      try_rename-free fp content fs candidate starting_files file c r s rep held fuel
        f.on_conflict_operation to free in
    (
      (fp.put s1 file r.contents).1,
      add_file_fix rep1 file x,
      rw (found, fix_one_violation)
          (unfold ◌>>=◌ wrap in
            rw (called, move, moved, fs.put_ok s1 file r.contents, move_first) refl),
      ground (arith, fs.put_content s1 file r.contents file, eq_refl file),
      ground (
        arith,
        fs.put_content s1 file r.contents to,
        fs.moved_content s file to c to held free,
        eq_refl to,
        eq_iff file to,
        held,
        free,
      ),
    )
