-- ===== src/Fixer/Run/Disk.antt =====
-- pkg/fixer/fixer.go and cmd/fix.go: a run of the fixer over files read from the disk, and what is
-- on the disk after its result is written back.
use regal.Base.{
  ℕ, ◌≡◌, sym, ap, ◌≢◌, inl, inr, true, none, List, arith, if◌then◌else◌, Option-cases, All, Text,
  Outcome, ok, text_eq,
}
use regal.Base.Dict.{Dict, lookup}
use regal.Util.Set.{member}
use regal.Fixer.InMemory.{InMemoryFileProvider, new_from_fs, in_memory, rename}
use regal.Fixer.InMemory.Tracking.{
  Tracks, put-Tracks, delete-Tracks, rename-Tracks, new_from_fs-Tracks,
}
use regal.Fixer.WriteBack.{write_back}
use regal.Fixer.WriteBack.Laws.{touched, write_back_agrees}
use regal.Fixer.Fixes.{FixResult, Rename}
use regal.Fixer.Report.{
  Report, register_conflict_many_to_one, register_conflict_source_file, register_old_path_for_file,
  add_file_fix,
}
use regal.Fixer.Report.Total.{
  IsCounted, new_report-IsCounted, add_file_fix-IsCounted, merge_fixes-IsCounted,
}
use regal.Fixer.Setup.{Fixer, Linter}
use regal.Fixer.Renaming.{record_move, handle_rename}
use regal.Fixer.Renaming.Keeps.{try_rename-keeps}
use regal.Fixer.Run.{fix}
use regal.Fixer.Run.Steps.{MovesOnly, fix-keeps}

-- A move to another path.
abbrev pub MovesAway : Rename → Type 0
MovesAway move = move.from_path ≢ move.to_path

record_move-IsCounted :
    (r : Report) (to from : Text) (x : FixResult)
    → from ≢ to
    → IsCounted r
    → IsCounted (record_move r to from x)
unfolding record_move register_old_path_for_file
record_move-IsCounted r to from x differ h =
    let merged =
      merge_fixes-IsCounted (add_file_fix r to x) to from (λ e. differ (sym e))
        (add_file_fix-IsCounted r to x h) in
    record { distinct = merged.distinct; counted = merged.counted }

conflict_many-IsCounted :
    (r : Report) (root to from : Text)
    → IsCounted r
    → IsCounted (register_conflict_many_to_one r root to from)
unfolding register_conflict_many_to_one
conflict_many-IsCounted r root to from h = record { distinct = h.distinct; counted = h.counted }

conflict_source-IsCounted :
    (r : Report) (root to from : Text)
    → IsCounted r
    → IsCounted (register_conflict_source_file r root to from)
unfolding register_conflict_source_file
conflict_source-IsCounted r root to from h = record { distinct = h.distinct; counted = h.counted }

-- The provider does not move a file onto itself.
rename-apart :
    (p : InMemoryFileProvider) (from to : Text) → (rename p from to).0 ≡ ok tt → from ≢ to
unfolding rename
rename-apart p from to h same = elim (Option-cases (lookup from p.files)) [
  | inl missing ↦ ground (arith, missing, h)
  | inr (c, found) ↦ ground (arith, found, h, ap (λ k. lookup k p.files) same)
]

module _ (candidate : Text → Text) (abs : Text → Outcome Text) (fuel : ℕ) (f : Fixer)
    (disk : Dict Text Text) (paths : List Text) (p : InMemoryFileProvider)
    (read : new_from_fs disk paths ≡ ok p)
    (sound : All (MovesOnly MovesAway) f.registered_fixes) where
  abbrev InStep : InMemoryFileProvider × Report → Type 0
  InStep st = Tracks disk paths st.0 × IsCounted st.1

  pub fix-InStep :
      (rounds : ℕ) (l : Linter InMemoryFileProvider) (p' : InMemoryFileProvider) (rep : Report)
      → fix in_memory candidate abs fuel f rounds l p ≡ ok (p', rep)
      → Tracks disk paths p' × IsCounted rep
  unfolding in_memory
  fix-InStep rounds l p' rep done =
      let kept =
        fix-keeps in_memory candidate abs fuel f InStep MovesAway
          (λ starting_files x move st away j.
            unfold handle_rename in
            try_rename-keeps in_memory candidate (Tracks disk paths) IsCounted rename-Tracks
              delete-Tracks rename-apart record_move-IsCounted conflict_many-IsCounted
              conflict_source-IsCounted fuel f.on_conflict_operation starting_files move.from_path
              move.to_path x st.0 st.1 (λ _. away) j.0 j.1)
          (λ q r file x j. (put-Tracks q file x.contents j.0, add_file_fix-IsCounted r file x j.1))
          sound l rounds p (new_from_fs-Tracks disk paths p read, new_report-IsCounted) in
      kept.at (p', rep) done

-- If files are read from the disk, every registered fix asks only for moves to another path, the
-- fixer runs to its end, and the disk has every path that the provider has deleted, then writing
-- back succeeds, and the disk has at every path that was read or changed what the provider has
-- there, and at every other path what it had; and the report has no file twice, and its total is the
-- number of the fixes in it, modulo the width of a `uint`.
pub fix_write_back :
    (candidate : Text → Text) (abs : Text → Outcome Text) (fuel : ℕ) (f : Fixer)
    (disk : Dict Text Text) (paths : List Text) (p : InMemoryFileProvider)
    → new_from_fs disk paths ≡ ok p
    → All (MovesOnly MovesAway) f.registered_fixes
    → (rounds : ℕ) (l : Linter InMemoryFileProvider) (p' : InMemoryFileProvider) (rep : Report)
    → fix in_memory candidate abs fuel f rounds l p ≡ ok (p', rep)
    → ((j : Text) → member p'.deleted j ≡ true → lookup j disk ≢ none)
    → ((out : Dict Text Text) × (write_back disk p' ≡ ok out)
        × ((j : Text)
            → lookup j out ≡ (if touched paths p' j then lookup j p'.files else lookup j disk)))
      × IsCounted rep
fix_write_back candidate abs fuel f disk paths p read sound rounds l p' rep done there =
    let (tracks, counted) =
      fix-InStep candidate abs fuel f disk paths p read sound rounds l p' rep done in
    (write_back_agrees disk paths p' tracks there, counted)
