-- ===== src/Fixer/Renaming/Moves.antt =====
-- pkg/fixer/fixer.go `handleRename` over a provider that behaves as a file system: where a file
-- ends up if its new path is taken.
use regal.Base.{
  ℕ, zero, suc, ◌<◌, ◌≡◌, refl, ap, ◌∙◌, ◌≢◌, ◌⊎◌, inl, inr, true, false, Option, none, some, List,
  [], ◌∷◌, arith, if◌then◌else◌, Bool-cases, Option-cases, length, ◌==◌, eq_iff, contains, Text,
  Outcome, ok, ◌>>=◌, wrap, text_eq, nat_eq,
}
use regal.Util.Set.Equal.{Nodup, Subset, length-le_of_Subset}
use regal.Fixer.Provider.{FileProvider, IsFileSystem}
use regal.Fixer.Fixes.{FixResult}
use regal.Fixer.Report.{
  Report, has_conflicts, register_conflict_many_to_one, register_conflict_source_file,
}
use regal.Fixer.Report.Moves.{has_conflicts-register}
use regal.Fixer.Report.{add_file_fix, merge_fixes, register_old_path_for_file}
use regal.Fixer.Setup.{OnConflictOperation, on_conflict_error, on_conflict_rename}
use regal.Fixer.Renaming.{is_rename_conflict, record_move, try_rename}

-- The `n`th path that is tried, and the first `n` of them.
abbrev pub nth_try : (Text → Text) → ℕ → Text → Text
nth_try candidate zero to = to
nth_try candidate (suc n) to = nth_try candidate n (candidate to)

abbrev pub tries : (Text → Text) → ℕ → Text → List Text
tries candidate zero to = []
tries candidate (suc n) to = to ∷ tries candidate n (candidate to)

abbrev pub moved_to : Text → Text → FixResult → FixResult
moved_to from to x = record x { rename = some (record { from_path = from; to_path = to }) }

module _ {S : Type 0} (fp : FileProvider S) (content : S → Text → Option Text)
    (fs : IsFileSystem fp content) (candidate : Text → Text) (starting_files : List Text)
    (from c : Text) (x : FixResult) (s : S) (r : Report) (held : content s from ≡ some c) where
  pub try_rename-free :
      (fuel : ℕ) (op : OnConflictOperation) (to : Text)
      → content s to ≡ none
      → try_rename fp candidate (suc fuel) op starting_files from to x (s, r)
        ≡ ok (
          (fp.rename s from to).1,
          record_move r to from (moved_to from to x),
          moved_to from to x,
        )
  unfolding try_rename
  try_rename-free fuel op to free = rw (fs.moved s from to c held free, try_rename) refl

  try_rename-taken :
      (fuel : ℕ) (to d : Text)
      → content s to ≡ some d
      → try_rename fp candidate (suc fuel) on_conflict_rename starting_files from to x (s, r)
        ≡ try_rename fp candidate fuel on_conflict_rename starting_files from
            (candidate to)
            x
            (s, r)
  unfolding try_rename is_rename_conflict
  try_rename-taken fuel to d taken =
      let e = fs.in_the_way s from to c d held taken in
      rw (ap (λ p. p.0) e, try_rename)
        (ap
          (λ s'.
            try_rename fp candidate fuel on_conflict_rename starting_files from (candidate to) x
              (s', r))
          (ap (λ p. p.1) e))

  -- The file is at the `n`th path tried, with nothing else changed; every earlier path was taken.
  abbrev pub LandsAt : ℕ → Text → Outcome (S × Report × FixResult) → Type 0
  LandsAt n to result =
      (s' : S) × (r' : Report) × (result ≡ ok (s', r', moved_to from (nth_try candidate n to) x))
      × (content s (nth_try candidate n to) ≡ none)
      × ((m : ℕ) → m < n → content s (nth_try candidate m to) ≢ none)
      × ((j : Text)
          → content s' j ≡ (
              if from == j
              then none
              else if nth_try candidate n to == j
              then some c
              else content s j))

  abbrev Lands : ℕ → Text → Type 0
  Lands fuel to =
      (k : ℕ) × LandsAt k to
        (try_rename fp candidate fuel on_conflict_rename starting_files from to x (s, r))

  -- If the first path is taken, what follows is a run from the next candidate.
  Lands-later :
      (fuel : ℕ) (to d : Text)
      → content s to ≡ some d
      → Lands fuel (candidate to)
      → Lands (suc fuel) to
  Lands-later fuel to d taken (k, (s', r', e, vacant, before, after)) = (
    suc k,
    (
      s',
      r',
      try_rename-taken fuel to d taken ∙ e,
      vacant,
      elim [ zero ↦ λ _ missing. cc | suc m ↦ λ lt. before m (omega (arith, lt)) ],
      after,
    ),
  )

  later_try :
      (n : ℕ) (to d : Text)
      → content s to ≡ some d
      → content s (nth_try candidate n to) ≡ none
      → (m : ℕ) × (n ≡ suc m) × (content s (nth_try candidate m (candidate to)) ≡ none)
  later_try zero to d taken free = cc
  later_try (suc n) to d taken free = (n, refl, free)

  lands :
      (fuel n : ℕ) (to : Text)
      → content s (nth_try candidate n to) ≡ none
      → n < fuel
      → Lands fuel to
  lands zero n to free h = absurd (omega arith)
  lands (suc fuel) n to free h = elim (Option-cases (content s to)) [
    | inl here ↦ (
      0,
      (
        (fp.rename s from to).1,
        record_move r to from (moved_to from to x),
        try_rename-free fuel on_conflict_rename to here,
        here,
        λ m lt. absurd (omega arith),
        λ j. fs.moved_content s from to c j held here,
      ),
    )
    | inr (d, taken) ↦
        let (m, same, vacant) = later_try n to d taken free in
        Lands-later fuel to d taken (lands fuel m (candidate to) vacant (omega (arith, h, same)))
  ]

  length-tries : (k : ℕ) (to : Text) → length (tries candidate k to) ≡ k
  length-tries zero to = refl
  length-tries (suc k) to = omega (arith, length-tries k (candidate to))

  -- Among paths that are all different and more than there are files, one is free.
  free_or_listed :
      (files : List Text)
      → ((f : Text) → contains files f ≡ false → content s f ≡ none)
      → (k : ℕ) (to : Text)
      → ((n : ℕ) × (n < k) × (content s (nth_try candidate n to) ≡ none))
        ⊎ Subset (tries candidate k to) files
  unfolding contains
  free_or_listed files others zero to = inr (λ j h. cc)
  free_or_listed files others (suc k) to = elim (Bool-cases (contains files to)) [
    | inr absent ↦ inl (0, omega arith, others to absent)
    | inl there ↦ elim (free_or_listed files others k (candidate to)) [
      | inl (n, lt, free) ↦ inl (suc n, omega arith, free)
      | inr listed ↦ inr (λ j h. ground (arith, eq_iff to j, listed j))
    ]
  ]

  -- Over a provider that behaves as a file system, if the file is there, the candidates differ and
  -- the fuel is more than the number of files, then moving the file in the mode that renames on a
  -- conflict succeeds: the file is at the first of the paths tried that was free, its old path is
  -- free, and nothing else has changed.
  pub try_rename-lands :
      (files : List Text) (fuel : ℕ) (to : Text)
      → fp.list s ≡ ok files
      → length files < fuel
      → Nodup (tries candidate fuel to)
      → (k : ℕ) × LandsAt k to
          (try_rename fp candidate fuel on_conflict_rename starting_files from to x (s, r))
  try_rename-lands files fuel to e h differ =
      let (listed, e', others) = fs.listed s in
      let same : files ≡ listed = cc (e, e') in
      let same_length : length files ≡ length listed = ap length same in
      elim (free_or_listed listed others fuel to) [
        | inl (n, lt, free) ↦ lands fuel n to free lt
        | inr all_taken ↦ absurd (
            omega (
              arith,
              h,
              same_length,
              length-tries fuel to,
              length-le_of_Subset (tries candidate fuel to) listed differ all_taken,
            ))
      ]

  -- Over a provider that behaves as a file system, in the mode that stops at a conflict, a move of
  -- a file that is there onto a path that is taken deletes the file from its old path, leaves every
  -- other path as it was, also the one in the way, and reports a conflict.
  pub try_rename-conflict :
      (fuel : ℕ) (to d : Text)
      → content s to ≡ some d
      → (s' : S) × (r' : Report) × (try_rename fp candidate
            (suc fuel)
            on_conflict_error
            starting_files
            from
            to
            x
            (s, r)
          ≡ ok (s', r', x))
        × ((j : Text) → content s' j ≡ (if from == j then none else content s j))
        × (has_conflicts r' ≡ true)
  unfolding try_rename is_rename_conflict
  try_rename-conflict fuel to d taken =
      let e = fs.in_the_way s from to c d held taken in
      let s1 = (fp.rename s from to).1 in
      let r1 =
        if contains starting_files to
        then register_conflict_source_file r x.root to from
        else register_conflict_many_to_one r x.root to from in
      (
        (fp.delete s from).1,
        record_move r1 to from x,
        rw (ap (λ p. p.0) e, ap (λ p. p.1) e, try_rename, fs.delete_ok s from)
            (unfold ◌>>=◌ wrap in refl),
        fs.delete_content s from,
        unfold has_conflicts record_move add_file_fix merge_fixes register_old_path_for_file in
            has_conflicts-register (contains starting_files to) r x.root to from,
      )
