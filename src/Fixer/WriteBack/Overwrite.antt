-- ===== src/Fixer/WriteBack/Overwrite.antt =====
-- cmd/fix.go and pkg/fixer/fileprovider/inmem.go: a rename onto a path that is on the disk but was
-- not among those that were read.
use regal.Base.{
  ◌≡◌, refl, ◌≢◌, true, false, none, some, [], ◌∷◌, arith, eq_iff, eq_refl, contains, Text, ok,
  text_eq,
}
use regal.Base.Dict.{Dict, lookup}
use regal.Fixer.InMemory
use regal.Fixer.InMemory.{InMemoryFileProvider}
use regal.Fixer.InMemory.Tracking.{put-Tracks, delete-Tracks, new_from_fs-Tracks, new_from_fs_lem}
use regal.Fixer.InMemory.Laws.{rename_moves, lookup-put, lookup-delete}
use regal.Fixer.WriteBack.{write_back}
use regal.Fixer.WriteBack.Laws.{write_back_agrees}
use regal.Util.Set.{member}
use regal.Util.Set.Laws.{member-add, member-remove}

moved_deletes :
    (p : InMemoryFileProvider) (from to c j : Text)
    → member p.deleted j ≡ false
    → member (InMemory.delete (InMemory.put p to c) from).deleted j ≡ true
    → from ≡ j
unfolding InMemory.delete InMemory.put contains
moved_deletes p from to c j clean h =
    ground (arith, member-add p.deleted (from ∷ []) j, eq_iff from j)

moved_modifies :
    (p : InMemoryFileProvider) (from to c : Text)
    → from ≢ to
    → member (InMemory.delete (InMemory.put p to c) from).modified to ≡ true
unfolding InMemory.delete InMemory.put contains
moved_modifies p from to c differ = ground (
  arith,
  member-remove (InMemory.put p to c).modified (from ∷ []) to,
  member-add p.modified (to ∷ []) to,
  eq_iff from to,
  eq_refl to,
)

-- When one file is read, and is renamed to another path, the rename is not a conflict whatever the
-- disk has at that path, and after writing back the disk has the moved file's content there.
pub rename_overwrites :
    (disk : Dict Text Text) (from to c : Text) (p : InMemoryFileProvider)
    → lookup from disk ≡ some c
    → from ≢ to
    → InMemory.new_from_fs disk (from ∷ []) ≡ ok p
    → ((InMemory.rename p from to).0 ≡ ok tt)
      × ((out : Dict Text Text) × (write_back disk (InMemory.rename p from to).1 ≡ ok out)
          × (lookup to out ≡ some c)
          × (lookup from out ≡ none))
rename_overwrites disk from to c p found differ read =
    let loaded = from ∷ [] in
    let held = new_from_fs_lem disk loaded p from read in
    let free = new_from_fs_lem disk loaded p to read in
    let moved =
      rename_moves p from to c (unfold contains in ground (arith, held, eq_refl from))
        (unfold contains in ground (arith, free, eq_iff from to)) in
    let q = InMemory.delete (InMemory.put p to c) from in
    let (out, written, after) =
      write_back_agrees disk loaded q
        (delete-Tracks (InMemory.put p to c) from
          (put-Tracks p to c (new_from_fs-Tracks disk loaded p read)))
        (λ j h e.
          cc (found, e, moved_deletes p from to c j (new_from_fs_lem disk loaded p j read).2 h)) in
    rw moved (
      refl,
      (
        out,
        written,
        ground (
          arith,
          after to,
          moved_modifies p from to c differ,
          lookup-delete (InMemory.put p to c) from to,
          lookup-put p to c to,
          eq_iff from to,
          eq_refl to,
        ),
        unfold contains in
            ground (arith, after from, eq_refl from, lookup-delete (InMemory.put p to c) from from),
      ),
    )
