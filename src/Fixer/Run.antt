-- ===== src/Fixer/Run.antt =====
-- pkg/fixer/fixer.go: the loops of the fixer. The file provider is an interface; the linter, the
-- working directory (`filepath.Abs`) and the rename candidates are parameters. An error ends a run,
-- and the files it leaves are not looked at, so an outcome carries the new state only where it is
-- `ok`.
pub mod Steps
pub mod Disk
pub mod Settled
pub mod Restored
mod Tests
use regal.Base.{
  ℕ, zero, suc, not, Option, none, some, List, [], ◌∷◌, ◌++◌, if◌then◌else◌, length, ◌==◌, Text,
  codes, message, Outcome, ok, err, unfinished, ◌>>=◌, ◌>>◌, wrap, text_eq, nat_eq,
}
use regal.Go.Slices.{each}
use regal.Util.Roots.{find_closest_matching_root}
use regal.Fixer.Provider.{FileProvider}
use regal.Fixer.Fixes.{
  Location, Violation, Config, RuntimeOptions, FixCandidate, FixResult, Rename, Fix,
}
use regal.Fixer.Report.{Report, new_report, add_file_fix}
use regal.Fixer.Setup.{Fixer, Linter, get_fix_for_name}
use regal.Fixer.Renaming.{handle_rename}

module _ {S : Type 0} (fp : FileProvider S) (candidate : Text → Text) (abs : Text → Outcome Text)
    (fuel : ℕ) (f : Fixer) where
  -- The call of one fix for one violation, with the root that its file is under.
  unfoldable pub call_fix : Fix → Violation → Option Config → S → Outcome (List FixResult)
  call_fix fix v config s = do
    let file = v.location.file
    path ← wrap (codes "failed to get absolute path for " ++ file) (abs file)
    fc ← wrap (codes "failed to get file " ++ file) (fp.get s file)
    wrap (codes "failed to fix " ++ file) (
        fix.fix (record { filename = file; contents = fc })
          (some (record {
            config = config;
            base_dir = find_closest_matching_root path f.registered_roots;
            locations = v.location ∷ [];
          })))

  -- What is done with the first result: a move, or a write.
  unfoldable pub apply_result :
      (starting_files : List Text)
      → Text
      → FixResult
      → Option Rename
      → S × Report
      → Outcome (S × Report)
  unfolding handle_rename
  apply_result starting_files file r (some move) st = do
    (s', rep', _) ← handle_rename fp candidate fuel f.on_conflict_operation starting_files r move st
    ok (s', rep')
  apply_result starting_files file r none (s, rep) =
      let (answer, s') = fp.put s file r.contents in
      do
        wrap (codes "failed to write fixed content to file " ++ file) answer
        ok (s', add_file_fix rep file r)

  -- A fix that has no result is passed over, and `rest` goes on with the loop.
  unfoldable pub first_result :
      (starting_files : List Text)
      → Text
      → List FixResult
      → Outcome (Option (S × Report))
      → S × Report
      → Outcome (Option (S × Report))
  unfolding apply_result
  first_result starting_files file [] rest st = rest
  first_result starting_files file (r ∷ _) rest st = do
    st' ← apply_result starting_files file r r.rename st
    ok (some st')

  -- The inner loop of `applyOneFix`, over the violations; none where no fix was made.
  unfoldable pub fix_violation :
      Outcome (Option Config)
      → (starting_files : List Text) → Fix
      → List Violation
      → S × Report
      → Outcome (Option (S × Report))
  unfolding call_fix first_result
  fix_violation config starting_files fix [] st = ok none
  fix_violation config starting_files fix (v ∷ vs) (s, rep) =
      let rest = fix_violation config starting_files fix vs (s, rep) in
      if not (v.title == fix.name) then rest else do
        c ← wrap (codes "failed to get config") config
        results ← call_fix fix v c s
        first_result starting_files v.location.file results rest (s, rep)

  -- `applyOneFix`: the first registered fix that changes something, at its first violation.
  unfoldable pub apply_one_fix :
      Outcome (Option Config)
      → (starting_files : List Text) → List Fix
      → List Violation
      → S × Report
      → Outcome (Option (S × Report))
  unfolding fix_violation
  apply_one_fix config starting_files [] vs st = ok none
  apply_one_fix config starting_files (fix ∷ fixes) vs st =
      let rest = apply_one_fix config starting_files fixes vs st in
      do
        made ← fix_violation config starting_files fix vs st
        elim made [ some st' ↦ ok (some st') | none ↦ rest ]

  -- One round of the loop of `applyLinterFixes`: none where it breaks off, since nothing is left or
  -- nothing can be fixed.
  unfoldable pub round :
      Linter S → (rules starting_files : List Text) → S × Report → Outcome (Option (S × Report))
  unfolding apply_one_fix
  round l rules starting_files st = do
    violations ← wrap (codes "failed to lint before fixing") (l.lint rules st.0)
    if length violations == 0
        then ok none
        else apply_one_fix l.get_config starting_files f.registered_fixes violations st

  -- The loop of `applyLinterFixes`. A round takes one unit of its fuel.
  unfoldable pub lint_and_fix :
      ℕ → Linter S → (rules starting_files : List Text) → S × Report → Outcome (S × Report)
  unfolding round
  lint_and_fix zero l rules starting_files st = unfinished
  lint_and_fix (suc rounds) l rules starting_files st = do
    made ← round l rules starting_files st
    elim made [ none ↦ ok st | some st' ↦ lint_and_fix rounds l rules starting_files st' ]

  unfoldable pub fixable : List Text → List Text
  unfolding get_fix_for_name
  fixable [] = []
  fixable (rule ∷ rules) = elim (get_fix_for_name f rule) [
    | none ↦ fixable rules
    | some _ ↦ rule ∷ fixable rules
  ]

  unfoldable pub apply_linter_fixes : ℕ → Linter S → S × Report → Outcome (S × Report)
  unfolding lint_and_fix fixable
  apply_linter_fixes rounds l st = do
    enabled ← wrap (codes "failed to determine enabled rules") l.determine_enabled_rules
    starting_files ← wrap (codes "failed to list files") (fp.list st.0)
    let rules = fixable enabled
    wrap (codes "failed to prepare linter for fixing") (l.prepare rules)
    lint_and_fix rounds l rules starting_files st

  -- `Fixer.Fix`
  unfoldable pub fix : ℕ → Linter S → S → Outcome (S × Report)
  unfolding apply_linter_fixes new_report
  fix rounds l s = elim f.registered_fixes [
    | [] ↦ ok (s, new_report)
    | _ ∷ _ ↦ apply_linter_fixes rounds l (s, new_report)
  ]

  -- `if fixResults[0].Rename != nil` of `FixViolations`
  unfoldable pub move_first :
      (starting_files : List Text)
      → FixResult
      → Option Rename
      → S × Report
      → Outcome (S × Report × FixResult)
  move_first starting_files r none (s, rep) = ok (s, rep, r)
  move_first starting_files r (some move) st =
      wrap (codes "failed to handle rename")
        (handle_rename fp candidate fuel f.on_conflict_operation starting_files r move st)

  -- The body of the loop of `FixViolations`. The first result is written to the file that the
  -- violation names, also after a move.
  unfoldable pub fix_one_violation :
      Option Config → (starting_files : List Text) → S × Report → Violation → Outcome (S × Report)
  fix_one_violation config starting_files (s, rep) v =
      let file = v.location.file in
      elim (get_fix_for_name f v.title) [
        | none ↦ err (message (codes "no fix for violation " ++ v.title))
        | some fix' ↦ do
          results ← call_fix fix' v config s
          elim results [
            | [] ↦ ok (s, rep)
            | r ∷ _ ↦ do
              (s1, rep1, r1) ← move_first starting_files r r.rename (s, rep)
              let (answer, s2) = fp.put s1 file r1.contents
              wrap (codes "failed to write fixed content to file " ++ file) answer
              ok (s2, add_file_fix rep1 file r1)
          ]
      ]

  unfoldable pub fix_violations : List Violation → S → Option Config → Outcome (S × Report)
  unfolding fix_one_violation each new_report
  fix_violations violations s config = do
    starting_files ← wrap (codes "failed to list files") (fp.list s)
    each (fix_one_violation config starting_files) (s, new_report) violations
