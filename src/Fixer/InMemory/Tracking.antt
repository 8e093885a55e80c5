-- ===== src/Fixer/InMemory/Tracking.antt =====
-- pkg/fixer/fileprovider/inmem.go: the sets `modified` and `deleted` account for every difference
-- between the files in memory and the disk from which those of `loaded` were read.
use regal.Base.{
  ◌≡◌, subst, ◌≢◌, ◌⊎◌, inl, inr, true, false, none, List, [], ◌∷◌, arith, if◌then◌else◌,
  Option-cases, ◌==◌, eq_iff, contains, Text, ok, >>=-eq-ok, text_eq, nat_eq,
}
use regal.Base.Dict.{Dict, lookup, lookup-insert, lookup-erase, insert}
use regal.Util.Set
use regal.Util.Set.{Set, member}
use regal.Util.Set.Laws.{member-add, member-remove}
use regal.Util.Set.Equal.{Nodup, Nodup-add-remove}
use regal.Fixer.InMemory.{
  InMemoryFileProvider, new_in_memory, read_all, new_from_fs, put, delete, rename,
}

member-one : (a j : Text) → contains (a ∷ []) j ≡ (a == j)
unfolding contains
member-one a j = ground arith

pub record Tracks (disk : Dict Text Text) (loaded : List Text) (p : InMemoryFileProvider)
    : Type 0 where
  pub untouched :
      (j : Text)
      → member p.modified j ≡ false
      → member p.deleted j ≡ false
      → lookup j p.files ≡ (if contains loaded j then lookup j disk else none)
  pub gone :
      (j : Text) → member p.modified j ≡ false → member p.deleted j ≡ true → lookup j p.files ≡ none
  pub present : (j : Text) → member p.modified j ≡ true → lookup j p.files ≢ none
  pub distinct : Nodup p.deleted.elements

-- A rename either leaves the provider as it was, or writes the new path and clears the old one.
rename-cases :
    (p : InMemoryFileProvider) (from to : Text)
    → ((rename p from to).1 ≡ p) ⊎ ((c : Text) × ((rename p from to).1 ≡ delete (put p to c) from))
unfolding rename
rename-cases p from to = elim (Option-cases (lookup from p.files)) [
  | inl missing ↦ inl (rw (missing, rename))
  | inr (c, found) ↦ elim (Option-cases (lookup to p.files)) [
    | inl free ↦ inr (c, rw (found, free, rename))
    | inr (d, taken) ↦ inl (rw (found, taken, rename))
  ]
]

module _ {disk : Dict Text Text} {loaded : List Text} where
  pub put-Tracks :
      (p : InMemoryFileProvider) (f c : Text)
      → Tracks disk loaded p
      → Tracks disk loaded (put p f c)
  unfolding put
  put-Tracks p f c t = record {
    untouched = λ j hm hd. ground (
      arith,
      t.untouched j,
      member-add p.modified (f ∷ []) j,
      member-one f j,
      lookup-insert f j c p.files,
    );
    gone = λ j hm hd. ground (
      arith,
      t.gone j,
      member-add p.modified (f ∷ []) j,
      member-one f j,
      lookup-insert f j c p.files,
    );
    present = λ j hm e. ground (
      arith,
      t.present j,
      member-add p.modified (f ∷ []) j,
      member-one f j,
      lookup-insert f j c p.files,
    );
    distinct = t.distinct;
  }

  pub delete-Tracks :
      (p : InMemoryFileProvider) (f : Text) → Tracks disk loaded p → Tracks disk loaded (delete p f)
  unfolding delete
  delete-Tracks p f t = record {
    untouched = λ j hm hd. ground (
      arith,
      t.untouched j,
      member-add p.deleted (f ∷ []) j,
      member-remove p.modified (f ∷ []) j,
      member-one f j,
      lookup-erase f j p.files,
    );
    gone = λ j hm hd. ground (
      arith,
      t.untouched j,
      t.gone j,
      member-add p.deleted (f ∷ []) j,
      member-remove p.modified (f ∷ []) j,
      member-one f j,
      lookup-erase f j p.files,
    );
    present = λ j hm e. ground (
      arith,
      t.present j,
      member-remove p.modified (f ∷ []) j,
      member-one f j,
      lookup-erase f j p.files,
    );
    distinct = (Nodup-add-remove p.deleted (f ∷ []) t.distinct).0;
  }

  -- Whether it succeeds or fails, a rename keeps the sets in step with the files.
  pub rename-Tracks :
      (p : InMemoryFileProvider) (from to : Text)
      → Tracks disk loaded p
      → Tracks disk loaded (rename p from to).1
  rename-Tracks p from to t = elim (rename-cases p from to) [
    | inl same ↦ rw same t
    | inr (c, moved) ↦ rw moved (delete-Tracks (put p to c) from (put-Tracks p to c t))
  ]

lookup-read_all :
    (disk : Dict Text Text) (paths : List Text) (files out : Dict Text Text) (j : Text)
    → read_all disk paths files ≡ ok out
    → lookup j out ≡ (if contains paths j then lookup j disk else lookup j files)
unfolding read_all contains
lookup-read_all disk [] files out j h = ground arith
lookup-read_all disk (path ∷ paths) files out j h = elim (Option-cases (lookup path disk)) [
  | inl missing ↦ ground arith
  | inr (fc, found) ↦ ground (
    arith,
    lookup-read_all disk paths (insert path fc files) out j,
    lookup-insert path j fc files,
    eq_iff path j,
  )
]

new_in_memory-Tracks :
    (disk : Dict Text Text) (paths : List Text) (files : Dict Text Text)
    → ((j : Text) → lookup j files ≡ (if contains paths j then lookup j disk else none))
    → Tracks disk paths (new_in_memory files)
unfolding new_in_memory Set.new_set contains
new_in_memory-Tracks disk paths files h = record {
  untouched = λ j _ _. h j;
  gone = λ j _ hd. cc;
  present = λ j hm _. cc;
  distinct = tt;
}

-- A provider read from the disk starts in step with it.
pub new_from_fs-Tracks :
    (disk : Dict Text Text) (paths : List Text) (p : InMemoryFileProvider)
    → new_from_fs disk paths ≡ ok p
    → Tracks disk paths p
unfolding new_from_fs
new_from_fs-Tracks disk paths p h =
    let (files, read, made) =
      >>=-eq-ok (read_all disk paths []) (λ files. ok (new_in_memory files)) h in
    let same : new_in_memory files ≡ p = cc made in
    subst (λ q. Tracks disk paths q) same
      (new_in_memory-Tracks disk paths files
        (λ j. unfold lookup in lookup-read_all disk paths [] files j read))

-- What a provider that was just read holds, and that it has no changes.
pub new_from_fs_lem :
    (disk : Dict Text Text) (paths : List Text) (p : InMemoryFileProvider) (j : Text)
    → new_from_fs disk paths ≡ ok p
    → (lookup j p.files ≡ (if contains paths j then lookup j disk else none))
      × (member p.modified j ≡ false)
      × (member p.deleted j ≡ false)
unfolding new_from_fs new_in_memory Set.new_set contains
new_from_fs_lem disk paths p j h =
    let (files, read, made) =
      >>=-eq-ok (read_all disk paths []) (λ files. ok (new_in_memory files)) h in
    let held : lookup j files ≡ (if contains paths j then lookup j disk else none) =
      unfold lookup in lookup-read_all disk paths [] files j read in
    ground (arith, held, made)
