-- ===== src/Fixer/Report.antt =====
-- pkg/fixer/report.go: what was fixed in which file, which files moved, and the conflicts.
pub mod Total
pub mod Moves
mod Tests
use regal.Base.{
  ℕ, ◌+◌, ◌%◌, ◌^◌, Bool, ◌||◌, Option, none, some, List, [], ◌∷◌, ◌++◌, ltb, length, Text, text_eq,
}
use regal.Base.Dict.{Dict, lookup, insert, erase}
use regal.Fixer.Fixes.{FixResult}

-- `map[root]map[new path][]old path`
abbrev pub Conflicts : Type 0
Conflicts = Dict Text (Dict Text (List Text))

pub record Report : Type 0 where
  pub file_fixes : Dict Text (List FixResult)
  pub moved_files : Dict Text (List Text)
  pub conflicts_many_to_one : Conflicts
  pub conflicts_source_file : Conflicts
  pub total_fixes : ℕ

unfoldable pub new_report : Report
new_report = record {
  file_fixes = [];
  moved_files = [];
  conflicts_many_to_one = [];
  conflicts_source_file = [];
  total_fixes = 0;
}

-- `m[k]` of a map of slices: nil, the empty slice, where the key is missing.
abbrev pub entries {ℓ} : {V : Type ℓ} → Option (List V) → List V
entries none = []
entries (some vs) = vs

-- `totalFixes` is a `uint`.
unfoldable pub add_file_fix : Report → Text → FixResult → Report
add_file_fix r file fix = record r {
  file_fixes = insert file (entries (lookup file r.file_fixes) ++ fix ∷ []) r.file_fixes;
  total_fixes = (r.total_fixes + 1) % 2 ^ 64;
}

unfoldable pub fixes_for_file : Report → Text → List FixResult
fixes_for_file r file = entries (lookup file r.file_fixes)

unfoldable pub merge_fixes : Report → (path1 path2 : Text) → Report
unfolding fixes_for_file
merge_fixes r path1 path2 = record r {
  file_fixes =
      erase path2 (insert path1 (fixes_for_file r path1 ++ fixes_for_file r path2) r.file_fixes);
}

unfoldable pub register_old_path_for_file : Report → (new_path old_path : Text) → Report
register_old_path_for_file r new_path old_path = record r {
  moved_files =
      insert new_path (entries (lookup new_path r.moved_files) ++ old_path ∷ []) r.moved_files;
}

unfoldable pub old_path_for_file : Report → Text → Option Text
old_path_for_file r new_path = elim (entries (lookup new_path r.moved_files)) [
  | [] ↦ none
  | p ∷ _ ↦ some p
]

-- `if _, ok := m[key]; !ok { m[key] = <empty> }`
ensure {ℓ} : {V : Type ℓ} → Text → Dict Text (List V) → Dict Text (List V)
ensure key m = elim (lookup key m) [ none ↦ insert key [] m | some _ ↦ m ]

-- What the two `Register` methods for conflicts do to their own map: a missing inner map or slice
-- is made first.
unfoldable pub register : Conflicts → (root new_path old_path : Text) → Conflicts
unfolding ensure
register m root new_path old_path =
    let m1 = ensure root m in
    let m2 = insert root (ensure new_path (entries (lookup root m1))) m1 in
    let inner = entries (lookup root m2) in
    insert root (insert new_path (entries (lookup new_path inner) ++ old_path ∷ []) inner) m2

unfoldable pub register_conflict_many_to_one : Report → (root new_path old_path : Text) → Report
unfolding register
register_conflict_many_to_one r root new_path old_path = record r {
  conflicts_many_to_one = register r.conflicts_many_to_one root new_path old_path;
}

unfoldable pub register_conflict_source_file : Report → (root new_path old_path : Text) → Report
unfolding register
register_conflict_source_file r root new_path old_path = record r {
  conflicts_source_file = register r.conflicts_source_file root new_path old_path;
}

unfoldable pub has_conflicts : Report → Bool
has_conflicts r = ltb 0 (length r.conflicts_many_to_one) || ltb 0 (length r.conflicts_source_file)
