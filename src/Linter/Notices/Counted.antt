-- ===== src/Linter/Notices/Counted.antt =====
-- pkg/linter/linter.go: what is left of the notices, and how many of them count.
use regal.Base.{
  ℕ, ◌+◌, ◌≡◌, refl, ◌∙◌, subst, inl, inr, true, false, ◌||◌, List, [], ◌∷◌, ◌++◌, arith,
  if◌then◌else◌, Bool-cases, length, ◌==◌, eq_iff, contains, contains-append, Text, codes, text_eq,
  nat_eq,
}
use regal.Linter.Types.{Notice, Report}
use regal.Linter.Notices.{
  above, insert_notice, sort_notices, notice_eq, compact_from, compact, count_skipped,
  count_skipped_from_notices,
}

above_total : (a b : Text) → above a b ≡ true → above b a ≡ false
unfolding above
above_total [] b h = absurd (ground (arith, h))
above_total (x ∷ xs) [] h = refl
above_total (x ∷ xs) (y ∷ ys) h = ground (arith, above_total xs ys)

above_trans : (a b c : Text) → above a b ≡ false → above b c ≡ false → above a c ≡ false
unfolding above
above_trans [] b c h k = refl
above_trans (x ∷ xs) [] c h k = absurd (ground (arith, h))
above_trans (x ∷ xs) (y ∷ ys) [] h k = absurd (ground (arith, k))
above_trans (x ∷ xs) (y ∷ ys) (z ∷ zs) h k = ground (arith, above_trans xs ys zs)

-- No title lies above the next one.
abbrev pub IsSorted : List Notice → Type 0
IsSorted [] = Unit
IsSorted (a ∷ []) = Unit
IsSorted (a ∷ b ∷ ns) = (above a.title b.title ≡ false) × IsSorted (b ∷ ns)

-- No notice is equal to the next one.
abbrev pub HasNoRepeats : List Notice → Type 0
HasNoRepeats [] = Unit
HasNoRepeats (a ∷ []) = Unit
HasNoRepeats (a ∷ b ∷ ns) = ((b == a) ≡ false) × HasNoRepeats (b ∷ ns)

insert_notice-IsSorted :
    (a : Notice) (ns : List Notice) → IsSorted ns → IsSorted (insert_notice a ns)
unfolding insert_notice
insert_notice-IsSorted a [] s = tt
insert_notice-IsSorted a (b ∷ []) s = ground (arith, above_total a.title b.title)
insert_notice-IsSorted a (b ∷ c ∷ ns) s =
    ground (arith, above_total a.title b.title, insert_notice-IsSorted a (c ∷ ns))

sort_notices-IsSorted : (ns : List Notice) → IsSorted (sort_notices ns)
unfolding sort_notices
sort_notices-IsSorted [] = tt
sort_notices-IsSorted (a ∷ ns) =
    insert_notice-IsSorted a (sort_notices ns) (sort_notices-IsSorted ns)

contains-insert_notice :
    (a : Notice) (ns : List Notice) (n : Notice)
    → contains (insert_notice a ns) n ≡ (a == n || contains ns n)
unfolding insert_notice contains
contains-insert_notice a [] n = refl
contains-insert_notice a (b ∷ ns) n = ground (arith, contains-insert_notice a ns n)

contains-sort_notices :
    (ns : List Notice) (n : Notice) → contains (sort_notices ns) n ≡ contains ns n
unfolding sort_notices contains
contains-sort_notices [] n = refl
contains-sort_notices (a ∷ ns) n =
    ground (arith, contains-insert_notice a (sort_notices ns) n, contains-sort_notices ns n)

contains-compact_from :
    (last : Notice) (ns : List Notice) (n : Notice)
    → (last == n || contains (compact_from last ns) n) ≡ (last == n || contains ns n)
unfolding compact_from contains
contains-compact_from last [] n = refl
contains-compact_from last (m ∷ ns) n =
    ground (arith, contains-compact_from m ns n, eq_iff m last, eq_iff m n, eq_iff last n)

contains-compact : (ns : List Notice) (n : Notice) → contains (compact ns) n ≡ contains ns n
unfolding compact contains
contains-compact [] n = refl
contains-compact (m ∷ ns) n = contains-compact_from m ns n

compact_from-HasNoRepeats :
    (last : Notice) (ns : List Notice) → HasNoRepeats (last ∷ compact_from last ns)
unfolding compact_from
compact_from-HasNoRepeats last [] = tt
compact_from-HasNoRepeats last (m ∷ ns) = elim (Bool-cases (m == last)) [
  | inl same ↦ rw same (
      subst (λ x. HasNoRepeats (x ∷ compact_from m ns)) ((eq_iff m last).0 same)
        (compact_from-HasNoRepeats m ns))
  | inr differ ↦ rw differ (differ, compact_from-HasNoRepeats m ns)
]

compact_from-IsSorted :
    (last : Notice) (ns : List Notice)
    → IsSorted (last ∷ ns)
    → IsSorted (last ∷ compact_from last ns)
unfolding compact_from
compact_from-IsSorted last [] s = tt
compact_from-IsSorted last (m ∷ ns) (ordered, s) = elim (Bool-cases (m == last)) [
  | inl same ↦ rw same (
      subst (λ x. IsSorted (x ∷ compact_from m ns)) ((eq_iff m last).0 same)
        (compact_from-IsSorted m ns s))
  | inr differ ↦ rw differ (ordered, compact_from-IsSorted m ns s)
]

compact-HasNoRepeats : (ns : List Notice) → HasNoRepeats (compact ns)
unfolding compact
compact-HasNoRepeats [] = tt
compact-HasNoRepeats (n ∷ ns) = compact_from-HasNoRepeats n ns

compact-IsSorted : (ns : List Notice) → IsSorted ns → IsSorted (compact ns)
unfolding compact
compact-IsSorted [] s = tt
compact-IsSorted (n ∷ ns) s = compact_from-IsSorted n ns s

-- The notices whose severity is `none`.
abbrev pub count_none : List Notice → ℕ
count_none [] = 0
count_none (n ∷ ns) = (if n.severity == codes "none" then 1 else 0) + count_none ns

count_skipped_lem : (ns : List Notice) → count_skipped ns + count_none ns ≡ length ns
unfolding count_skipped
count_skipped_lem [] = refl
count_skipped_lem (n ∷ ns) = elim (Bool-cases (n.severity == codes "none")) [
  | inl silent ↦ rw silent (omega (arith, count_skipped_lem ns))
  | inr counted ↦ rw counted (omega (arith, count_skipped_lem ns))
]

-- The notices that are left are those of the report and those of the preparation, sorted by title and
-- without a repetition in a row; all of them but those of severity `none` count as skipped rules; and
-- the violations stay as they are.
pub count_skipped_from_notices_lem :
    {O : Type 0} (prepared : List Notice) (r : Report O)
    → let (out, skipped) = count_skipped_from_notices prepared r in
      ((n : Notice) → contains out.notices n ≡ (contains r.notices n || contains prepared n))
      × IsSorted out.notices
      × HasNoRepeats out.notices
      × (skipped + count_none out.notices ≡ length out.notices)
      × (out.violations ≡ r.violations)
unfolding count_skipped_from_notices
count_skipped_from_notices_lem prepared r =
    let all = r.notices ++ prepared in
    (
      λ n.
          contains-compact (sort_notices all) n
          ∙ contains-sort_notices all n
          ∙ contains-append r.notices prepared n,
      compact-IsSorted (sort_notices all) (sort_notices-IsSorted all),
      compact-HasNoRepeats (sort_notices all),
      count_skipped_lem (compact (sort_notices all)),
      refl,
    )
