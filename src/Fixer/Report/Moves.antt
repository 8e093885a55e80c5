-- ===== src/Fixer/Report/Moves.antt =====
-- pkg/fixer/report.go: the conflicts and the moves that the report holds.
use regal.Base.{
  ◌≡◌, refl, ap, ◌∙◌, Bool, true, false, ◌&&◌, List, [], ◌∷◌, ◌++◌, arith, ltb, if◌then◌else◌,
  length, ◌==◌, eq_iff, eq_refl, Text, text_eq, nat_eq,
}
use regal.Base.Dict.{Dict, lookup, insert, lookup-insert}
use regal.Fixer.Report.{
  Report, Conflicts, entries, ensure, register, register_conflict_many_to_one,
  register_conflict_source_file, has_conflicts,
}

-- The old paths that collide at a new path under a root.
abbrev pub conflicts_at : Conflicts → (root new_path : Text) → List Text
conflicts_at m root new_path = entries (lookup new_path (entries (lookup root m)))

entries-ensure :
    {V : Type 0} (k j : Text) (m : Dict Text (List V))
    → entries (lookup j (ensure k m)) ≡ entries (lookup j m)
unfolding ensure
entries-ensure {V} k j m = ground (arith, lookup-insert {V = List V} k j [] m, eq_iff k j)

-- Registering a conflict adds one old path, at the end, at its root and new path, and changes
-- nothing at any other root or new path.
pub conflicts_at-register :
    (m : Conflicts) (root new_path old_path root' path' : Text)
    → conflicts_at (register m root new_path old_path) root' path' ≡ (
        if root == root' && new_path == path'
        then conflicts_at m root new_path ++ old_path ∷ []
        else conflicts_at m root' path')
unfolding register
conflicts_at-register m root new_path old_path root' path' =
    let m1 = ensure root m in
    let at_root = ensure new_path (entries (lookup root m1)) in
    let m2 = insert root at_root m1 in
    let inner = entries (lookup root m2) in
    let grown = insert new_path (entries (lookup new_path inner) ++ old_path ∷ []) inner in
    let here : inner ≡ at_root = ground (arith, lookup-insert root root at_root m1, eq_refl root) in
    let others : entries (lookup root' m1) ≡ entries (lookup root' m) =
      entries-ensure root root' m in
    let same : entries (lookup root m1) ≡ entries (lookup root m) = entries-ensure root root m in
    let olds : (j : Text) → entries (lookup j at_root) ≡ conflicts_at m root j = λ j.
      entries-ensure new_path j (entries (lookup root m1)) ∙ ap (λ d. entries (lookup j d)) same in
    ground (
      arith,
      lookup-insert root root' grown m2,
      lookup-insert root root' at_root m1,
      lookup-insert new_path path' (entries (lookup new_path inner) ++ old_path ∷ []) inner,
      here,
      others,
      olds new_path,
      olds path',
      eq_iff root root',
      eq_iff new_path path',
    )

length-insert :
    {V : Type 0} (k : Text) (v : V) (d : Dict Text V) → ltb 0 (length (insert k v d)) ≡ true
unfolding insert
length-insert k v [] = refl
length-insert k v ((j, w) ∷ d) = ground arith

register-not_empty :
    (m : Conflicts) (root new_path old_path : Text)
    → ltb 0 (length (register m root new_path old_path)) ≡ true
unfolding register
register-not_empty m root new_path old_path = length-insert root _ _

-- A report in which a conflict was registered, of either kind, has conflicts.
pub has_conflicts-register :
    (b : Bool) (r : Report) (root to from : Text)
    → has_conflicts (
        if b
        then register_conflict_source_file r root to from
        else register_conflict_many_to_one r root to from)
      ≡ true
unfolding has_conflicts register_conflict_many_to_one register_conflict_source_file
has_conflicts-register true r root to from =
    ground (arith, register-not_empty r.conflicts_source_file root to from)
has_conflicts-register false r root to from =
    ground (arith, register-not_empty r.conflicts_many_to_one root to from)
