-- ===== src/Profile.antt =====
-- pkg/report/report.go: what profiling measured, by location, and the number of violations by file.
-- The counters stay far from the ends of their types.
use regal.Base.{
  ℕ, ◌+◌, ◌≡◌, refl, ap, ◌∙◌, inl, inr, ◌||◌, Option, none, some, List, [], ◌∷◌, arith, ltb,
  if◌then◌else◌, Bool-cases, length, take, ◌==◌, eq_iff, Text, ℤ, pos, negsuc, text_eq, nat_eq,
}
use regal.Base.Dict.{Dict, lookup, insert, lookup-insert}
use regal.Fixer.Fixes.{Violation}

pub record ProfileEntry : Type 0 where
  pub location : Text
  pub total_time_ns : ℕ
  pub num_eval : ℕ
  pub num_redo : ℕ
  pub num_gen_expr : ℕ

-- The entry with another one's counters added.
unfoldable pub plus : ProfileEntry → ProfileEntry → ProfileEntry
plus prof_copy entry = record prof_copy {
  num_eval = prof_copy.num_eval + entry.num_eval;
  num_redo = prof_copy.num_redo + entry.num_redo;
  num_gen_expr = prof_copy.num_gen_expr + entry.num_gen_expr;
  total_time_ns = prof_copy.total_time_ns + entry.total_time_ns;
}

abbrev joined : Option ProfileEntry → ProfileEntry → ProfileEntry
joined none entry = entry
joined (some old) entry = plus old entry

unfoldable pub add_profile_entries :
    Dict Text ProfileEntry → Dict Text ProfileEntry → Dict Text ProfileEntry
unfolding plus
add_profile_entries aggregate [] = aggregate
add_profile_entries aggregate ((loc, entry) ∷ prof) =
    add_profile_entries (insert loc (joined (lookup loc aggregate) entry) aggregate) prof

-- The order of `SortFunc`: the longest time first.
unfoldable pub insert_entry : ProfileEntry → List ProfileEntry → List ProfileEntry
insert_entry a [] = a ∷ []
insert_entry a (b ∷ bs) =
    let rest = insert_entry a bs in
    if ltb a.total_time_ns b.total_time_ns then b ∷ rest else a ∷ b ∷ bs

unfoldable pub sorted_entries : Dict Text ProfileEntry → List ProfileEntry
unfolding insert_entry
sorted_entries [] = []
sorted_entries ((loc, entry) ∷ m) = insert_entry entry (sorted_entries m)

unfoldable pub sorted_profile : Dict Text ProfileEntry → ℤ → List ProfileEntry
unfolding sorted_entries
sorted_profile aggregate (negsuc n) = sorted_entries aggregate
sorted_profile aggregate (pos n) =
    let all = sorted_entries aggregate in if n == 0 || ltb (length all) n then all else take n all

abbrev pub or_zero : Option ℕ → ℕ
or_zero none = 0
or_zero (some n) = n

unfoldable pub violations_file_count : List Violation → Dict Text ℕ → Dict Text ℕ
violations_file_count [] fc = fc
violations_file_count (v ∷ vs) fc =
    violations_file_count vs (insert v.location.file (or_zero (lookup v.location.file fc) + 1) fc)

abbrev time_of : Option ProfileEntry → ℕ
time_of none = 0
time_of (some e) = e.total_time_ns

abbrev pub time_at : Text → Dict Text ProfileEntry → ℕ
time_at loc m = time_of (lookup loc m)

-- The times of all entries at one location.
abbrev pub time_in : Text → Dict Text ProfileEntry → ℕ
time_in loc [] = 0
time_in loc ((k, e) ∷ m) = (if k == loc then e.total_time_ns else 0) + time_in loc m

joined_time :
    (old : Option ProfileEntry) (e : ProfileEntry)
    → (joined old e).total_time_ns ≡ time_of old + e.total_time_ns
unfolding plus
joined_time none e = omega arith
joined_time (some old) e = refl

time_at-insert :
    (k loc : Text) (e : ProfileEntry) (m : Dict Text ProfileEntry)
    → time_at loc (insert k (joined (lookup k m) e) m)
      ≡ time_at loc m + (if k == loc then e.total_time_ns else 0)
time_at-insert k loc e m = elim (Bool-cases (k == loc)) [
  | inl same ↦
      let alike : time_at k m ≡ time_at loc m = ap (λ x. time_at x m) ((eq_iff k loc).0 same) in
      ground (
        arith,
        same,
        lookup-insert k loc (joined (lookup k m) e) m,
        joined_time (lookup k m) e,
        alike,
      )
  | inr differ ↦ ground (arith, differ, lookup-insert k loc (joined (lookup k m) e) m)
]

-- Whatever the order in which the new entries are met, the time at each location grows by the times
-- that the new entries have there.
pub add_profile_entries_lem :
    (aggregate prof : Dict Text ProfileEntry) (loc : Text)
    → time_at loc (add_profile_entries aggregate prof) ≡ time_at loc aggregate + time_in loc prof
unfolding add_profile_entries
add_profile_entries_lem aggregate [] loc = omega arith
add_profile_entries_lem aggregate ((k, e) ∷ prof) loc =
    let grown = insert k (joined (lookup k aggregate) e) aggregate in
    add_profile_entries_lem grown prof loc ∙ omega (arith, time_at-insert k loc e aggregate)
