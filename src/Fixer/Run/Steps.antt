-- ===== src/Fixer/Run/Steps.antt =====
-- pkg/fixer/fixer.go: what every run of the fixer keeps, from what moves and writes keep.
use regal.Base.{
  ℕ, zero, suc, inl, inr, Option, none, some, List, [], ◌∷◌, Bool-cases, length, All, ◌==◌, Text,
  Outcome, ok, OnOk, OnOk-bind, OnOk-then, OnOk-ok, OnOk-unfinished, OnOk-wrap, text_eq, nat_eq,
}
use regal.Fixer.Provider.{FileProvider}
use regal.Fixer.Fixes.{Violation, Config, RuntimeOptions, FixCandidate, FixResult, Rename, Fix}
use regal.Fixer.Report.{Report, new_report, add_file_fix}
use regal.Fixer.Setup.{Fixer, Linter}
use regal.Fixer.Renaming.{handle_rename}
use regal.Fixer.Run.{
  first_result, round, call_fix, apply_result, fix_violation, apply_one_fix, lint_and_fix,
  apply_linter_fixes, fix,
}

-- What a fix may ask for: its first result moves the file only in ways that `M` allows.
abbrev pub MoveIs : (Rename → Type 0) → Option Rename → Type 0
MoveIs M none = Unit
MoveIs M (some move) = M move

abbrev pub FirstMoveIs : (Rename → Type 0) → List FixResult → Type 0
FirstMoveIs M [] = Unit
FirstMoveIs M (r ∷ rs) = MoveIs M r.rename

abbrev pub MovesOnly : (Rename → Type 0) → Fix → Type 0
MovesOnly M fix =
    (fc : FixCandidate) (opts : Option RuntimeOptions) → OnOk (FirstMoveIs M) (fix.fix fc opts)

module _ {S : Type 0} (fp : FileProvider S) (candidate : Text → Text) (abs : Text → Outcome Text)
    (fuel : ℕ) (f : Fixer) (J : S × Report → Type 0) (M : Rename → Type 0)
    (moves : (starting_files : List Text) (r : FixResult) (move : Rename) (st : S × Report)
      → M move
      → J st
      → OnOk
          (λ x. J (x.0, x.1))
          (handle_rename fp candidate fuel f.on_conflict_operation starting_files r move st))
    (writes : (s : S) (rep : Report) (file : Text) (r : FixResult)
      → J (s, rep)
      → J ((fp.put s file r.contents).1, add_file_fix rep file r)) where
  abbrev Made : Option (S × Report) → Type 0
  Made none = Unit
  Made (some st) = J st

  call_fix-moves :
      (fix : Fix) (v : Violation) (config : Option Config) (s : S)
      → MovesOnly M fix
      → OnOk (FirstMoveIs M) (call_fix fp candidate abs fuel f fix v config s)
  unfolding call_fix
  call_fix-moves fix v config s sound =
      OnOk-then (FirstMoveIs M) _ _ (λ path _.
        OnOk-then (FirstMoveIs M) _ _ (λ fc _. OnOk-wrap (FirstMoveIs M) _ _ (sound _ _)))

  apply_result-keeps :
      (starting_files : List Text) (file : Text) (r : FixResult) (move : Option Rename)
      (st : S × Report)
      → MoveIs M move
      → J st
      → OnOk J (apply_result fp candidate abs fuel f starting_files file r move st)
  unfolding apply_result
  apply_result-keeps starting_files file r none (s, rep) m j =
      OnOk-then J _ _ (λ _ _. OnOk-ok J _ (writes s rep file r j))
  apply_result-keeps starting_files file r (some move) st m j =
      OnOk-bind J (λ x. J (x.0, x.1)) _ _ (moves starting_files r move st m j)
        (λ x k. OnOk-ok J (x.0, x.1) k)

  module _ (config : Outcome (Option Config)) (starting_files : List Text) where
    first_result-keeps :
        (file : Text) (results : List FixResult) (rest : Outcome (Option (S × Report)))
        (st : S × Report)
        → FirstMoveIs M results
        → OnOk Made rest
        → J st
        → OnOk Made (first_result fp candidate abs fuel f starting_files file results rest st)
    unfolding first_result
    first_result-keeps file [] rest st m k j = k
    first_result-keeps file (r ∷ _) rest st m k j =
        OnOk-bind Made J _ _ (apply_result-keeps starting_files file r r.rename st m j)
          (λ st' h. OnOk-ok Made (some st') h)

    fix_violation-keeps :
        (fix : Fix) (vs : List Violation) (st : S × Report)
        → MovesOnly M fix
        → J st
        → OnOk Made (fix_violation fp candidate abs fuel f config starting_files fix vs st)
    unfolding fix_violation
    fix_violation-keeps fix [] st sound j = OnOk-ok Made none tt
    fix_violation-keeps fix (v ∷ vs) (s, rep) sound j =
        let rest = fix_violation-keeps fix vs (s, rep) sound j in
        elim (Bool-cases (v.title == fix.name)) [
          | inr differ ↦ rw differ rest
          | inl same ↦ rw same (
              OnOk-then Made _ _ (λ c _.
                OnOk-bind Made (FirstMoveIs M) _ _ (call_fix-moves fix v c s sound)
                  (λ results m. first_result-keeps v.location.file results _ (s, rep) m rest j)))
        ]

    apply_one_fix-keeps :
        (fixes : List Fix) (vs : List Violation) (st : S × Report)
        → All (MovesOnly M) fixes
        → J st
        → OnOk Made (apply_one_fix fp candidate abs fuel f config starting_files fixes vs st)
    unfolding apply_one_fix
    apply_one_fix-keeps [] vs st sound j = OnOk-ok Made none tt
    apply_one_fix-keeps (fix ∷ fixes) vs st (sound, sounds) j =
        OnOk-bind Made Made _ _ (fix_violation-keeps fix vs st sound j) (elim [
          | none ↦ λ _. apply_one_fix-keeps fixes vs st sounds j
          | some st' ↦ λ h. OnOk-ok Made (some st') h
        ])

  module _ (sound : All (MovesOnly M) f.registered_fixes) (l : Linter S) where
    round-keeps :
        (rules starting_files : List Text) (st : S × Report)
        → J st
        → OnOk Made (round fp candidate abs fuel f l rules starting_files st)
    unfolding round
    round-keeps rules starting_files st j = OnOk-then Made _ _ (λ vs _.
        elim (Bool-cases (length vs == 0)) [
          | inl none_left ↦ rw none_left (OnOk-ok Made none tt)
          | inr some_left ↦
              rw some_left
                (apply_one_fix-keeps l.get_config starting_files f.registered_fixes vs st sound j)
        ])

    lint_and_fix-keeps :
        (rounds : ℕ) (rules starting_files : List Text) (st : S × Report)
        → J st
        → OnOk J (lint_and_fix fp candidate abs fuel f rounds l rules starting_files st)
    unfolding lint_and_fix
    lint_and_fix-keeps zero rules starting_files st j = OnOk-unfinished J
    lint_and_fix-keeps (suc rounds) rules starting_files st j =
        OnOk-bind J Made _ _ (round-keeps rules starting_files st j) (elim [
          | none ↦ λ _. OnOk-ok J st j
          | some st' ↦ λ h. lint_and_fix-keeps rounds rules starting_files st' h
        ])

    apply_linter_fixes-keeps :
        (rounds : ℕ) (st : S × Report)
        → J st
        → OnOk J (apply_linter_fixes fp candidate abs fuel f rounds l st)
    unfolding apply_linter_fixes
    apply_linter_fixes-keeps rounds st j = OnOk-then J _ _ (λ enabled _.
        OnOk-then J _ _ (λ starting_files _.
          OnOk-then J _ _ (λ _ _. lint_and_fix-keeps rounds _ starting_files st j)))

    -- A run of the fixer keeps what its moves and its writes keep.
    pub fix-keeps :
        (rounds : ℕ) (s : S) → J (s, new_report) → OnOk J (fix fp candidate abs fuel f rounds l s)
    unfolding fix
    fix-keeps rounds s j =
        elim f.registered_fixes
          as (λ fixes. OnOk J (elim fixes [
            | [] ↦ ok (s, new_report)
            | _ ∷ _ ↦ apply_linter_fixes fp candidate abs fuel f rounds l (s, new_report)
          ])) [
            | [] ↦ OnOk-ok J (s, new_report) j
            | _ ∷ _ ↦ apply_linter_fixes-keeps rounds (s, new_report) j
          ]
