-- ===== src/Fixer/Run/Tests.antt =====
-- pkg/fixer/fixer.go: a run over one file, that writes it and then moves it.
use regal.Base.{
  ◌≡◌, refl, ◌≢◌, true, false, Option, none, some, List, [], ◌∷◌, ◌++◌, arith, if◌then◌else◌, All,
  ◌==◌, eq_iff, contains, Text, codes, text_beq, pos, ok, ◌>>=◌, OnOk-ok, text_eq, nat_eq,
}
use regal.Base.Dict.{Dict, lookup}
use regal.Util.Set.{member}
use regal.Fixer.Fixes.{Violation, FixResult, Rename, Fix}
use regal.Fixer.InMemory.{InMemoryFileProvider, new_from_fs, in_memory}
use regal.Fixer.InMemory.Laws.{content, in_memory-IsFileSystem}
use regal.Fixer.WriteBack.{write_back}
use regal.Fixer.WriteBack.Laws.{touched}
use regal.Util.Roots.{find_closest_matching_root}
use regal.Fixer.Renaming.{handle_rename}
use regal.Fixer.Report.{Report, add_file_fix}
use regal.Fixer.Report.Total.{IsCounted}
use regal.Fixer.Setup.{Fixer, Linter, on_conflict_error, get_fix_for_name}
use regal.Fixer.Run.{fix, fixable, fix_one_violation, call_fix}
use regal.Fixer.Run.Steps.{MovesOnly}
use regal.Fixer.Run.Disk.{MovesAway, fix_write_back}
use regal.Fixer.Run.Settled.{Settled, fix-Settled}
use regal.Fixer.Run.Restored.{fix_one_violation_restores}

abbrev a : Text
a = codes "/p/a.rego"

abbrev b : Text
b = codes "/p/q/b.rego"

abbrev disk : Dict Text Text
disk = (a, codes "#x") ∷ []

abbrev result : Option Rename → Text → FixResult
result move text = record {
  rename = move;
  title = codes "tidy";
  root = codes "/p";
  contents = text;
}

abbrev tidy : Fix
tidy = record { name = codes "tidy"; fix = λ fc opts. ok (result none (codes "# x") ∷ []) }

abbrev move_it : Rename
move_it = record { from_path = a; to_path = b }

abbrev mover : Fix
mover = record {
  name = codes "mover";
  fix = λ fc opts. ok (result (some move_it) fc.contents ∷ []);
}

abbrev violation : Text → Violation
violation title = record {
  title = title;
  description = [];
  category = [];
  level = codes "error";
  location = record { end = none; text = none; file = a; column = pos 1; row = pos 1 };
  is_aggregate = false;
}

-- The file is wrong while it reads `#x`, and then while it is at its old path.
abbrev complaints : Option Text → List Violation
complaints none = []
complaints (some text) =
    if text == codes "#x" then violation (codes "tidy") ∷ [] else violation (codes "mover") ∷ []

abbrev linter : Linter InMemoryFileProvider
linter = record {
  determine_enabled_rules = ok (codes "tidy" ∷ codes "mover" ∷ codes "other" ∷ []);
  get_config = ok none;
  prepare = λ rules. ok tt;
  lint = λ rules p. ok (complaints (lookup a p.files));
}

abbrev fixer : Fixer
fixer = record {
  registered_fixes = tidy ∷ mover ∷ [];
  on_conflict_operation = on_conflict_error;
  registered_roots = codes "/p" ∷ [];
}

abbrev candidate : Text → Text
candidate path = path ++ codes "_1"

abbrev loaded : InMemoryFileProvider
loaded = record {
  files = disk;
  modified = record { elements = [] };
  deleted = record { elements = [] };
}

abbrev moved : InMemoryFileProvider
moved = record {
  files = (b, codes "# x") ∷ [];
  modified = record { elements = b ∷ [] };
  deleted = record { elements = a ∷ [] };
}

abbrev report : Report
report = record {
  file_fixes = (b, result (some move_it) (codes "# x") ∷ result none (codes "# x") ∷ []) ∷ [];
  moved_files = (b, a ∷ []) ∷ [];
  conflicts_many_to_one = [];
  conflicts_source_file = [];
  total_fixes = 2;
}

-- Both results are recorded for the new path, that of the move first.
fix_result : fix in_memory candidate (λ t. ok t) 1 fixer 3 linter loaded ≡ ok (moved, report)
unfolding fix handle_rename in_memory add_file_fix find_closest_matching_root get_fix_for_name ◌>>=◌
    call_fix lookup regal.Base.text_beq regal.Base.Dict.insert regal.Base.Dict.erase
    regal.Util.Set.remove regal.Util.Set.add regal.Fixer.Report.register_old_path_for_file
    regal.Util.Set.drop_key regal.Util.Set.put regal.Fixer.Report.merge_fixes regal.Base.contains
fix_result = refl

loaded_lem : new_from_fs disk (a ∷ []) ≡ ok loaded
unfolding new_from_fs lookup regal.Base.text_beq regal.Fixer.InMemory.new_in_memory
    regal.Base.Dict.insert regal.Util.Set.new_set
loaded_lem = refl

away : a ≢ b
away h = cc

only_away : All (MovesOnly MovesAway) fixer.registered_fixes
only_away = (λ fc opts. OnOk-ok _ _ tt, (λ fc opts. OnOk-ok _ _ away, tt))

deleted_there : (j : Text) → member moved.deleted j ≡ true → lookup j disk ≢ none
unfolding contains lookup
deleted_there j h e = ground (arith, eq_iff a j)

fix_write_back_example :
    ((out : Dict Text Text) × (write_back disk moved ≡ ok out)
      × ((j : Text)
          → lookup j out
            ≡ (if touched (a ∷ []) moved j then lookup j moved.files else lookup j disk)))
    × IsCounted report
fix_write_back_example =
    fix_write_back candidate (λ t. ok t) 1 fixer disk (a ∷ []) loaded loaded_lem only_away 3 linter
      moved report fix_result deleted_there

fix-Settled_example :
    (enabled : List Text) × (linter.determine_enabled_rules ≡ ok enabled)
    × Settled in_memory candidate
        (λ t. ok t)
        1
        fixer
        linter
        (fixable in_memory candidate (λ t. ok t) 1 fixer enabled)
        moved
fix-Settled_example =
    fix-Settled in_memory candidate (λ t. ok t) 1 fixer linter 3 loaded moved report (λ h. cc)
      fix_result

found_mover : get_fix_for_name fixer (codes "mover") ≡ some mover
unfolding get_fix_for_name regal.Base.text_beq
found_mover = refl

called_mover :
    call_fix in_memory candidate (λ t. ok t) 1 fixer mover (violation (codes "mover")) none loaded
    ≡ ok (result (some move_it) (codes "#x") ∷ [])
unfolding call_fix ◌>>=◌ in_memory lookup regal.Base.text_beq
called_mover = refl

held : content loaded a ≡ some (codes "#x")
unfolding lookup regal.Base.text_beq
held = refl

free : content loaded b ≡ none
unfolding lookup regal.Base.text_beq
free = refl

-- The file is at both paths.
fix_one_violation_restores_example :
    (s' : InMemoryFileProvider) × (rep' : Report) × (fix_one_violation in_memory candidate
        (λ t. ok t)
        1
        fixer
        none
        (a ∷ [])
        (loaded, report)
        (violation (codes "mover"))
      ≡ ok (s', rep'))
    × (content s' a ≡ some (codes "#x"))
    × (content s' b ≡ some (codes "#x"))
fix_one_violation_restores_example =
    fix_one_violation_restores in_memory content in_memory-IsFileSystem candidate (λ t. ok t) 0
      fixer none (a ∷ []) loaded report (violation (codes "mover")) mover
      (result (some move_it) (codes "#x")) [] b (codes "#x") found_mover called_mover refl held free
