-- ===== src/Fixer/Fixes/Directory/Away.antt =====
-- pkg/fixer/fixes/directorypackagemismatch.go: where the fix moves a file.
use regal.Base.{
  sym, inl, inr, Option, none, some, List, [], ◌∷◌, if◌then◌else◌, Bool-cases, ◌==◌, Text, Outcome,
  OnOk, OnOk-then, OnOk-ok, OnOk-panicked, ne-of_beq, text_eq, nat_eq,
}
use regal.Go.Paths.{clean, join_path, dir, base}
use regal.Fixer.Fixes.{RuntimeOptions, FixCandidate}
use regal.Fixer.Run.Steps.{FirstMoveIs}
use regal.Fixer.Run.Disk.{MovesAway}
use regal.Fixer.Fixes.Directory
use regal.Fixer.Fixes.Directory.{move_to, get_package_path_directory}

module _ (package_path : FixCandidate → Outcome (List Text)) where
  move_to-MovesAway :
      (fc : FixCandidate) (opts : RuntimeOptions) (pkg_path : Text)
      → OnOk (FirstMoveIs MovesAway) (move_to package_path fc opts pkg_path)
  unfolding move_to
  move_to-MovesAway fc opts pkg_path =
      let root_path = clean (if opts.base_dir == [] then dir fc.filename else opts.base_dir) in
      let new_path = join_path (root_path ∷ pkg_path ∷ base fc.filename ∷ []) in
      elim (Bool-cases (new_path == fc.filename)) [
        | inl there ↦ rw there (OnOk-ok (FirstMoveIs MovesAway) [] tt)
        | inr elsewhere ↦ rw elsewhere (
            OnOk-ok (FirstMoveIs MovesAway) _
              (λ e. ne-of_beq new_path fc.filename elsewhere (sym e)))
      ]

  -- Whatever the parser finds, the fix only ever asks for a move to another path than the file has,
  -- which is what a run of the fixer asks of the fixes that are registered.
  pub directory_package_mismatch-MovesAway :
      (fc : FixCandidate) (opts : Option RuntimeOptions)
      → OnOk (FirstMoveIs MovesAway) (Directory.fix package_path fc opts)
  unfolding Directory.fix
  directory_package_mismatch-MovesAway fc none = OnOk-panicked (FirstMoveIs MovesAway)
  directory_package_mismatch-MovesAway fc (some opts) =
      OnOk-then (FirstMoveIs MovesAway) _ _ (λ pkg_path _. move_to-MovesAway fc opts pkg_path)
