-- ===== src/Linter/Notices.antt =====
-- pkg/linter/linter.go: `countSkippedFromNotices`. `prepared` is the list of the notices that the
-- store of the prepared query holds, in the order in which they are met.
pub mod Counted
use regal.Base.{
  ℕ, suc, ◌≡◌, ◌↔◌, Bool, true, false, not, ◌&&◌, List, [], ◌∷◌, ◌++◌, arith, ltb, if◌then◌else◌,
  Eq, ◌==◌, eq_iff, Text, codes, text_eq, nat_eq,
}
use regal.Linter.Types.{Notice, Report}

-- `strings.Compare(a, b) > 0`, by bytes
unfoldable pub above : Text → Text → Bool
above [] b = false
above (x ∷ xs) [] = true
above (x ∷ xs) (y ∷ ys) = if x == y then above xs ys else ltb y x

-- `SortFunc` by title
unfoldable pub insert_notice : Notice → List Notice → List Notice
insert_notice a [] = a ∷ []
insert_notice a (b ∷ bs) =
    let rest = insert_notice a bs in if above a.title b.title then b ∷ rest else a ∷ b ∷ bs

unfoldable pub sort_notices : List Notice → List Notice
unfolding insert_notice
sort_notices [] = []
sort_notices (a ∷ as_) = insert_notice a (sort_notices as_)

-- `==` of two notices, field by field
unfoldable pub same_notice : Notice → Notice → Bool
same_notice a b =
    a.title == b.title
    && (a.description == b.description
        && (a.category == b.category && (a.level == b.level && a.severity == b.severity)))

pub same_notice_iff : (a b : Notice) → (same_notice a b ≡ true) ↔ (a ≡ b)
unfolding same_notice
same_notice_iff a b = ground (
  arith,
  eq_iff a.title b.title,
  eq_iff a.description b.description,
  eq_iff a.category b.category,
  eq_iff a.level b.level,
  eq_iff a.severity b.severity,
)

instance abbrev pub notice_eq : Eq Notice
notice_eq = record { equals = same_notice; decides = same_notice_iff }

-- `slices.Compact`: of equal notices in a row the first is kept.
unfoldable pub compact_from : Notice → List Notice → List Notice
compact_from last [] = []
compact_from last (n ∷ ns) = let rest = compact_from n ns in if n == last then rest else n ∷ rest

unfoldable pub compact : List Notice → List Notice
unfolding compact_from
compact [] = []
compact (n ∷ ns) = n ∷ compact_from n ns

unfoldable pub count_skipped : List Notice → ℕ
count_skipped [] = 0
count_skipped (n ∷ ns) =
    let rest = count_skipped ns in if not (n.severity == codes "none") then suc rest else rest

unfoldable pub count_skipped_from_notices : {O : Type 0} → List Notice → Report O → Report O × ℕ
unfolding sort_notices compact count_skipped
count_skipped_from_notices prepared r =
    let notices' = compact (sort_notices (r.notices ++ prepared)) in
    (record r { notices = notices' }, count_skipped notices')
