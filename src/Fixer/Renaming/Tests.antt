-- ===== src/Fixer/Renaming/Tests.antt =====
-- pkg/fixer/fixer.go: moving a file onto a path that is taken.
use regal.Base.{
  ℕ, ◌-◌, ◌≡◌, refl, sym, subst, true, none, some, [], ◌∷◌, arith, if◌then◌else◌, ◌==◌, contains,
  Text, codes, text_beq, ℤ, pos, ok, text_eq, nat_eq,
}
use regal.Base.Dict.{Dict}
use regal.Util.Set.Equal.{Nodup}
use regal.Fixer.Fixes.{FixResult}
use regal.Fixer.InMemory.{InMemoryFileProvider, in_memory}
use regal.Fixer.InMemory.Laws.{content, in_memory-IsFileSystem}
use regal.Fixer.Report.{Report, new_report, has_conflicts}
use regal.Fixer.Candidate.{rename_candidate}
use regal.Fixer.Setup.{on_conflict_rename, on_conflict_error}
use regal.Fixer.Renaming.{try_rename}
use regal.Fixer.Renaming.Moves.{tries, LandsAt, try_rename-lands, try_rename-conflict}

abbrev a : Text
a = codes "/p/a.rego"

abbrev b : Text
b = codes "/p/q/b.rego"

abbrev b_1 : Text
b_1 = codes "/p/q/b_1.rego"

abbrev disk : InMemoryFileProvider
disk = record {
  files = (a, codes "x") ∷ (b, codes "y") ∷ (b_1, codes "z") ∷ [];
  modified = record { elements = [] };
  deleted = record { elements = [] };
}

abbrev x : FixResult
x = record {
  rename = none;
  title = codes "directory-package-mismatch";
  root = codes "/p";
  contents = codes "x";
}

-- The numbers of these names have one digit.
abbrev atoi : Text → ℤ
atoi [] = pos 0
atoi (c ∷ rest) = pos (c - 48)

candidates :
    tries (rename_candidate atoi) 4 b ≡ b ∷ b_1 ∷ codes "/p/q/b_2.rego" ∷ codes "/p/q/b_3.rego" ∷ []
unfolding rename_candidate regal.Go.Paths.join_path regal.Base.text_beq regal.Go.Paths.split_path
    regal.Go.Strings.join regal.Go.Strings.split regal.Go.Paths.cut_suffix
    regal.Go.Paths.trim_suffix regal.Go.Paths.ext regal.Base.contains regal.Go.Decimal.format_int
candidates = refl

four_names : Nodup (b ∷ b_1 ∷ codes "/p/q/b_2.rego" ∷ codes "/p/q/b_3.rego" ∷ [])
unfolding contains text_beq
four_names = (refl, (refl, (refl, (refl, tt))))

different : Nodup (tries (rename_candidate atoi) 4 b)
different = subst (λ l. Nodup l) (sym candidates) four_names

listed : in_memory.list disk ≡ ok (a ∷ b ∷ b_1 ∷ [])
unfolding in_memory
listed = refl

held : content disk a ≡ some (codes "x")
unfolding regal.Base.Dict.lookup text_beq
held = refl

taken : content disk b ≡ some (codes "y")
unfolding regal.Base.Dict.lookup text_beq
taken = refl

try_rename-lands_example :
    (k : ℕ) × LandsAt in_memory content in_memory-IsFileSystem
      (rename_candidate atoi)
      (a ∷ b ∷ b_1 ∷ [])
      a
      (codes "x")
      x
      disk
      new_report
      held
      k
      b
      (try_rename in_memory
        (rename_candidate atoi)
        4
        on_conflict_rename
        (a ∷ b ∷ b_1 ∷ [])
        a
        b
        x
        (disk, new_report))
try_rename-lands_example =
    try_rename-lands in_memory content in_memory-IsFileSystem (rename_candidate atoi)
      (a ∷ b ∷ b_1 ∷ []) a (codes "x") x disk new_report held (a ∷ b ∷ b_1 ∷ []) 4 b listed
      (omega arith) different

try_rename-conflict_example :
    (s' : InMemoryFileProvider) × (r' : Report) × (try_rename in_memory
        (rename_candidate atoi)
        1
        on_conflict_error
        (a ∷ b ∷ [])
        a
        b
        x
        (disk, new_report)
      ≡ ok (s', r', x))
    × ((j : Text) → content s' j ≡ (if a == j then none else content disk j))
    × (has_conflicts r' ≡ true)
unfolding regal.Base.Dict.lookup regal.Base.text_beq
try_rename-conflict_example =
    try_rename-conflict in_memory content in_memory-IsFileSystem (rename_candidate atoi)
      (a ∷ b ∷ []) a (codes "x") x disk new_report held 0 b (codes "y") taken
