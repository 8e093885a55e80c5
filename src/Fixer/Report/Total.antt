-- ===== src/Fixer/Report/Total.antt =====
-- pkg/fixer/report.go: the total is the number of fixes that the report holds.
use regal.Base.{
  ℕ, ◌+◌, ◌%◌, ◌^◌, ◌≡◌, refl, ap, subst, ◌≢◌, inl, inr, none, List, [], ◌∷◌, ◌++◌, arith,
  Bool-cases, length, length-append, ◌==◌, eq_iff, eq_refl, Text, text_eq, nat_eq,
}
use regal.Base.Dict.{Dict, lookup, insert, erase, lookup-insert, lookup-erase}
use regal.Fixer.Fixes.{FixResult}
use regal.Fixer.Report.{Report, new_report, entries, add_file_fix, fixes_for_file, merge_fixes}

module _ {V : Type 0} where
  -- The number of all values in a map of slices.
  abbrev pub count_all : Dict Text (List V) → ℕ
  count_all [] = 0
  count_all ((k, vs) ∷ d) = length vs + count_all d

  abbrev pub NodupKeys : Dict Text (List V) → Type 0
  NodupKeys [] = Unit
  NodupKeys ((k, vs) ∷ d) = (lookup k d ≡ none) × NodupKeys d

  count_all-insert :
      (k : Text) (vs : List V) (d : Dict Text (List V))
      → count_all (insert k vs d) + length (entries (lookup k d)) ≡ count_all d + length vs
  unfolding insert lookup
  count_all-insert k vs [] = omega arith
  count_all-insert k vs ((j, ws) ∷ d) = elim (Bool-cases (j == k)) [
    | inl same ↦ rw same (omega arith)
    | inr differ ↦ rw differ (omega (arith, count_all-insert k vs d))
  ]

  erase_absent : (k : Text) (d : Dict Text (List V)) → lookup k d ≡ none → erase k d ≡ d
  unfolding erase lookup
  erase_absent k [] h = refl
  erase_absent k ((j, ws) ∷ d) h = ground (arith, erase_absent k d)

  count_all-erase :
      (k : Text) (d : Dict Text (List V))
      → NodupKeys d
      → count_all (erase k d) + length (entries (lookup k d)) ≡ count_all d
  unfolding erase lookup
  count_all-erase k [] h = omega arith
  count_all-erase k ((j, ws) ∷ d) (fresh, h) = elim (Bool-cases (j == k)) [
    | inl same ↦
        rw (same, erase_absent k d (subst (λ x. lookup x d ≡ none) ((eq_iff j k).0 same) fresh))
          (omega arith)
    | inr differ ↦ rw differ (omega (arith, count_all-erase k d h))
  ]

  NodupKeys-insert :
      (k : Text) (vs : List V) (d : Dict Text (List V)) → NodupKeys d → NodupKeys (insert k vs d)
  unfolding insert
  NodupKeys-insert k vs [] h = (unfold lookup in refl, tt)
  NodupKeys-insert k vs ((j, ws) ∷ d) (fresh, h) =
      ground (arith, NodupKeys-insert k vs d h, lookup-insert k j vs d, eq_iff j k, eq_iff k j)

  NodupKeys-erase : (k : Text) (d : Dict Text (List V)) → NodupKeys d → NodupKeys (erase k d)
  unfolding erase
  NodupKeys-erase k [] h = tt
  NodupKeys-erase k ((j, ws) ∷ d) (fresh, h) =
      ground (arith, NodupKeys-erase k d h, lookup-erase k j d, eq_iff j k, eq_iff k j)

-- The report's map has no key twice, as a Go map, and the total is the number of fixes in it.
pub record IsCounted (r : Report) : Type 0 where
  pub distinct : NodupKeys r.file_fixes
  pub counted : count_all r.file_fixes % 2 ^ 64 ≡ r.total_fixes

pub new_report-IsCounted : IsCounted new_report
unfolding new_report
new_report-IsCounted = record { distinct = tt; counted = refl }

-- Adding a fix to a report that has no file twice, and whose total is the number of its fixes modulo
-- the width of a `uint`, keeps both.
pub add_file_fix-IsCounted :
    (r : Report) (file : Text) (fix : FixResult) → IsCounted r → IsCounted (add_file_fix r file fix)
unfolding add_file_fix
add_file_fix-IsCounted r file fix h = record {
  distinct = NodupKeys-insert file _ r.file_fixes h.distinct;
  counted = omega (
    arith,
    h.counted,
    count_all-insert file (entries (lookup file r.file_fixes) ++ fix ∷ []) r.file_fixes,
    length-append {0} (entries (lookup file r.file_fixes)) (fix ∷ []),
  );
}

-- Merging the fixes of one path into another path's loses none: no file is there twice afterwards, and
-- the number of fixes is still the total.
pub merge_fixes-IsCounted :
    (r : Report) (path1 path2 : Text)
    → path1 ≢ path2
    → IsCounted r
    → IsCounted (merge_fixes r path1 path2)
unfolding merge_fixes
merge_fixes-IsCounted r path1 path2 differ h =
    let merged = entries (lookup path1 r.file_fixes) ++ entries (lookup path2 r.file_fixes) in
    let grown = insert path1 merged r.file_fixes in
    let other : lookup path2 grown ≡ lookup path2 r.file_fixes =
      ground (arith, lookup-insert path1 path2 merged r.file_fixes, eq_iff path1 path2) in
    record {
      distinct =
          NodupKeys-erase path2 grown (NodupKeys-insert path1 merged r.file_fixes h.distinct);
      counted = omega (
        arith,
        h.counted,
        count_all-insert path1 merged r.file_fixes,
        count_all-erase path2 grown (NodupKeys-insert path1 merged r.file_fixes h.distinct),
        length-append {0} (entries (lookup path1 r.file_fixes))
            (entries (lookup path2 r.file_fixes)),
        ap (λ o. length (entries o)) other,
      );
    }

-- Merging a path's fixes into the same path loses them.
pub merge_fixes_self :
    (r : Report) (path : Text) → fixes_for_file (merge_fixes r path path) path ≡ []
unfolding merge_fixes fixes_for_file
merge_fixes_self r path =
    let fixes = entries (lookup path r.file_fixes) in
    ground (arith, lookup-erase path path (insert path (fixes ++ fixes) r.file_fixes), eq_refl path)
