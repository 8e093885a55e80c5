-- ===== src/Fixer/WriteBack/Laws.antt =====
-- cmd/fix.go: what is on the disk after the files were written back.
use regal.Base.{
  ◌≡◌, refl, ◌≢◌, inl, inr, Bool, true, ◌||◌, none, List, [], ◌∷◌, ◌++◌, arith, if◌then◌else◌,
  Option-cases, eq_iff, eq_refl, contains, Text, codes, Error, message, wrapped, ok, err, text_eq,
}
use regal.Base.Dict.{Dict, lookup, lookup-insert, lookup-erase, insert, erase}
use regal.Util.Set.{member}
use regal.Util.Set.Equal.{Nodup}
use regal.Fixer.InMemory
use regal.Fixer.InMemory.{InMemoryFileProvider}
use regal.Fixer.InMemory.Tracking.{Tracks}
use regal.Fixer.WriteBack.{remove_files, write_files, write_back}

remove_files_lem :
    (disk : Dict Text Text) (files : List Text)
    → Nodup files
    → ((j : Text) → contains files j ≡ true → lookup j disk ≢ none)
    → (out : Dict Text Text) × (remove_files disk files ≡ ok out)
      × ((j : Text) → lookup j out ≡ (if contains files j then none else lookup j disk))
unfolding remove_files contains
remove_files_lem disk [] h there = (disk, refl, λ j. refl)
remove_files_lem disk (f ∷ files) (fresh, h) there = elim (Option-cases (lookup f disk)) [
  | inl missing ↦ absurd (there f (ground (arith, eq_refl f)) missing)
  | inr (c, found) ↦
      let (out, removed, after) =
        remove_files_lem (erase f disk) files h
          (λ j k e. ground (arith, there j, lookup-erase f j disk, eq_iff f j)) in
      (out, ground arith, λ j. ground (arith, after j, lookup-erase f j disk, eq_iff f j))
]

write_files_lem :
    (p : InMemoryFileProvider) (disk : Dict Text Text) (files : List Text)
    → ((j : Text) → contains files j ≡ true → lookup j p.files ≢ none)
    → (out : Dict Text Text) × (write_files p disk files ≡ ok out)
      × ((j : Text) → lookup j out ≡ (if contains files j then lookup j p.files else lookup j disk))
unfolding write_files contains
write_files_lem p disk [] there = (disk, refl, λ j. refl)
write_files_lem p disk (f ∷ files) there = elim (Option-cases (lookup f p.files)) [
  | inl missing ↦ absurd (there f (ground (arith, eq_refl f)) missing)
  | inr (c, found) ↦
      let (out, written, after) =
        write_files_lem p (insert f c disk) files (λ j k. there j (ground arith)) in
      (out, ground arith, λ j. ground (arith, after j, lookup-insert f j c disk, eq_iff f j))
]

-- Every path that was read or changed.
abbrev pub touched : List Text → InMemoryFileProvider → Text → Bool
touched loaded p j = contains loaded j || member p.modified j || member p.deleted j

-- If the provider is in step with the disk and every path it has deleted is on the disk, writing
-- back succeeds, and afterwards the disk has at every path that was read or changed what the
-- provider has there, and at every other path what it had before.
pub write_back_agrees :
    (disk : Dict Text Text) (loaded : List Text) (p : InMemoryFileProvider)
    → Tracks disk loaded p
    → ((j : Text) → member p.deleted j ≡ true → lookup j disk ≢ none)
    → (out : Dict Text Text) × (write_back disk p ≡ ok out)
      × ((j : Text)
          → lookup j out ≡ (if touched loaded p j then lookup j p.files else lookup j disk))
unfolding write_back InMemory.modified_files InMemory.deleted_files
write_back_agrees disk loaded p t there =
    let (cleared, removed, after) = remove_files_lem disk p.deleted.elements t.distinct there in
    let (out, written, final) = write_files_lem p cleared p.modified.elements t.present in
    (out, rw removed written, λ j. ground (arith, after j, final j, t.untouched j, t.gone j))

remove_files_missing :
    (disk : Dict Text Text) (files : List Text) (j : Text)
    → contains files j ≡ true
    → lookup j disk ≡ none
    → (e : Error) × (remove_files disk files ≡ err e)
unfolding remove_files contains
remove_files_missing disk [] j h missing = cc
remove_files_missing disk (f ∷ files) j h missing = elim (Option-cases (lookup f disk)) [
  | inl absent ↦ (
    wrapped (codes "failed to delete file " ++ f) (message (codes "no such file or directory")),
    ground arith,
  )
  | inr (c, found) ↦
      let (e, failed) =
        remove_files_missing (erase f disk) files j (ground (arith, eq_iff f j))
          (ground (arith, lookup-erase f j disk)) in
      (e, ground arith)
]

-- If the provider has deleted a path that the disk does not have, such as one between two renames
-- of the same file, writing back fails.
pub write_back_missing :
    (disk : Dict Text Text) (p : InMemoryFileProvider) (j : Text)
    → member p.deleted j ≡ true
    → lookup j disk ≡ none
    → (e : Error) × (write_back disk p ≡ err e)
unfolding write_back InMemory.deleted_files
write_back_missing disk p j h missing =
    let (e, failed) = remove_files_missing disk p.deleted.elements j h missing in
    (e, rw failed refl)
