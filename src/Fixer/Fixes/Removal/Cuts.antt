-- ===== src/Fixer/Fixes/Removal/Cuts.antt =====
-- pkg/fixer/fixes/fixes.go: what `removeLocations` and its two fixes do to a text.
use regal.Base.{
  ℕ, suc, ◌≤◌, ◌<◌, ◌≡◌, refl, ap, ◌≢◌, ◌⊎◌, inl, inr, Bool, true, false, ◌&&◌, Option, none, some,
  List, [], ◌∷◌, arith, ltb, leb, Bool-cases, length, get_elem?, take, All, Text, ℤ, pos, negsuc,
  ◌+ℤ◌, ◌-ℤ◌, ◌≤ℤ◌, ltb_ℤ, Outcome, ok, ◌>>=◌, text_eq,
}
use regal.Go.Slices.{
  each_one, index, slice_to_ok, slice_from_ok, each_inv-All, get_elem?-lt, get_elem?-some,
  append_cons-ne-nil,
}
use regal.Go.Strings.{split, join, join-split, split-ne-nil}
use regal.Fixer.Fixes.{Position, Location, RuntimeOptions, FixCandidate, FixResult, newline, finish}
use regal.Fixer.Fixes.Removal.{
  step_to, compare_locations, insert_location, sort_locations, step_at, step, remove_locations,
  redundant_existence_check, constant_condition, redundant_name, constant_name,
}
use regal.Fixer.Fixes.Removal.Splice.{splice, Removes, splice-Removes}

-- `k` is `l` without some stretches of it.
pub data Cut (l : Text) : Text → Type 0 where
  whole : Cut l l
  less : {m k : Text} → Cut l m → Removes m k → Cut l k

-- The end of a location does not lie before its start in the same row.
abbrev pub EndsAfter : Location → Option Position → Type 0
EndsAfter loc none = Unit
EndsAfter loc (some end) = loc.row ≡ end.row → loc.column ≤ℤ end.column

abbrev pub IsOrdered : Location → Type 0
IsOrdered loc = EndsAfter loc loc.end

insert_location-All :
    (a : Location) (bs : List Location)
    → IsOrdered a
    → All IsOrdered bs
    → All IsOrdered (insert_location a bs)
unfolding insert_location
insert_location-All a [] h hs = (h, tt)
insert_location-All a (b ∷ bs) h (hb, hs) =
    elim (Bool-cases (ltb_ℤ (compare_locations b a) (pos 0))) [
      | inl lower ↦ rw lower (hb, insert_location-All a bs h hs)
      | inr upper ↦ rw upper (h, (hb, hs))
    ]

sort_locations-All : (as' : List Location) → All IsOrdered as' → All IsOrdered (sort_locations as')
unfolding sort_locations
sort_locations-All [] h = tt
sort_locations-All (a ∷ as') (h, hs) =
    insert_location-All a (sort_locations as') h (sort_locations-All as' hs)

next_row : (r : ℕ) → pos r +ℤ pos 1 ≡ pos (suc r)
unfolding ◌+ℤ◌
next_row r = ground arith

index_at :
    (lines : List Text) (r : ℕ) (line : Text)
    → get_elem? lines r ≡ some line
    → index lines (pos r) ≡ ok line
unfolding index
index_at lines r line h = rw (h, index)

step_at_inside :
    (lines : List Text) (fixed : Bool) (r c r' c' : ℕ) (first last : Text)
    → get_elem? lines r ≡ some first
    → get_elem? lines r' ≡ some last
    → r ≤ r'
    → c < length first
    → c' ≤ length last
    → step_at (lines, fixed) (pos r) (pos c) (pos r') (pos c')
      ≡ ok (splice lines r c r' c' first last, true)
unfolding step_at
step_at_inside lines fixed r c r' c' first last h h' le inside inside' = rw next_row (
    ground (
      arith,
      index_at lines r first h,
      index_at lines r' last h',
      get_elem?-some {0} lines r' h',
      slice_to_ok first c,
      slice_from_ok last c',
      slice_to_ok lines r,
      slice_from_ok lines (suc r'),
    ))

module _ (contents : Text) where
  abbrev Kept : List Text × Bool → Type 0
  Kept s = (s.0 ≢ []) × Cut contents (join s.0 newline)

  abbrev KeptBy : Outcome (List Text × Bool) → Type 0
  KeptBy answer = (s' : List Text × Bool) × (answer ≡ ok s') × Kept s'

  in_lines :
      (lines : List Text) (fixed : Bool) (r r' : ℕ) (c c' : ℤ) (first last : Text)
      → get_elem? lines r ≡ some first
      → get_elem? lines r' ≡ some last
      → r ≤ r'
      → (r ≡ r' → c ≤ℤ c')
      → Kept (lines, fixed)
      → KeptBy (step_at (lines, fixed) (pos r) c (pos r') c')
  unfolding step_at
  in_lines lines fixed r r' (negsuc c) c' first last h h' le o k =
      ((lines, fixed), ground (arith, index_at lines r first h, index_at lines r' last h'), k)
  in_lines lines fixed r r' (pos c) (negsuc c') first last h h' le o k =
      ((lines, fixed), ground (arith, index_at lines r first h, index_at lines r' last h'), k)
  in_lines lines fixed r r' (pos c) (pos c') first last h h' le o k =
      elim (Bool-cases (ltb c (length first) && leb c' (length last))) [
        | inr out ↦
            ((lines, fixed), ground (arith, index_at lines r first h, index_at lines r' last h'), k)
        | inl inside ↦ (
          (splice lines r c r' c' first last, true),
          step_at_inside lines fixed r c r' c' first last h h' le (ground arith) (ground arith),
          (
            append_cons-ne-nil (take r lines) _ _,
            less k.1 (splice-Removes lines r c r' c' first last h h' le (λ e. omega (arith, o e))),
          ),
        )
      ]

  step_at_lem :
      (s : List Text × Bool) (sr sc er ec : ℤ)
      → (sr ≡ er → sc ≤ℤ ec)
      → Kept s
      → KeptBy (step_at s sr sc er ec)
  unfolding step_at
  step_at_lem (lines, fixed) (negsuc r) sc er ec o k = ((lines, fixed), ground arith, k)
  step_at_lem (lines, fixed) (pos r) sc (negsuc r') ec o k = ((lines, fixed), ground arith, k)
  step_at_lem (lines, fixed) (pos r) sc (pos r') ec o k =
      elim (Bool-cases (leb r r' && ltb r' (length lines))) [
        | inr out ↦ ((lines, fixed), ground arith, k)
        | inl inside ↦
            let (first, h) = get_elem?-lt lines r (ground arith) in
            let (last, h') = get_elem?-lt lines r' (ground arith) in
            in_lines lines fixed r r' sc ec first last h h' (ground arith) (λ e. o (ap pos e)) k
      ]

  sub_one_inj : (a b : ℤ) → a -ℤ pos 1 ≡ b -ℤ pos 1 → a ≡ b
  unfolding ◌-ℤ◌
  sub_one_inj a b h = ground arith

  sub_one_mono : (a b : ℤ) → a ≤ℤ b → a -ℤ pos 1 ≤ℤ b -ℤ pos 1
  unfolding ◌-ℤ◌
  sub_one_mono a b h = ground arith

  step_to_lem :
      (s : List Text × Bool) (loc : Location) (end : Option Position)
      → EndsAfter loc end
      → Kept s
      → KeptBy (step_to s loc end)
  unfolding step_to
  step_to_lem s loc none o k = (s, refl, k)
  step_to_lem s loc (some end) o k =
      step_at_lem s (loc.row -ℤ pos 1) (loc.column -ℤ pos 1) (end.row -ℤ pos 1)
        (end.column -ℤ pos 1)
        (λ p. sub_one_mono loc.column end.column (o (sub_one_inj loc.row end.row p))) k

  pub remove_locations_lem :
      (lines : List Text) (locations : List Location)
      → All IsOrdered locations
      → Kept (lines, false)
      → KeptBy (remove_locations lines locations)
  unfolding remove_locations
  remove_locations_lem lines locations o k =
      each_inv-All Kept IsOrdered step (λ s loc h. unfold step in step_to_lem s loc loc.end h)
        (lines, false) (sort_locations locations) (sort_locations-All locations o) k

-- Such a fix answers with nothing, or with one result that has less text.
abbrev pub AnswersCut : Text → Outcome (List FixResult) → Type 0
AnswersCut contents answer =
    (answer ≡ ok []) ⊎ ((r : FixResult) × (answer ≡ ok (r ∷ [])) × Cut contents r.contents)

finish-AnswersCut :
    (contents title root : Text) (s : List Text × Bool)
    → Cut contents (join s.0 newline)
    → AnswersCut contents (finish title root s)
unfolding finish
finish-AnswersCut contents title root (lines, false) h = inl refl
finish-AnswersCut contents title root (lines, true) h =
    inr
      (record { rename = none; title = title; root = root; contents = join lines newline }, refl, h)

removal-AnswersCut :
    (contents title root : Text) (locations : List Location)
    → All IsOrdered locations
    → AnswersCut contents
        (do s ← remove_locations (split contents newline) locations; finish title root s)
unfolding ◌>>=◌
removal-AnswersCut contents title root locations o =
    let (s, ran, kept) =
      remove_locations_lem contents (split contents newline) locations o
        (split-ne-nil contents newline, rw join-split whole) in
    rw ran (finish-AnswersCut contents title root s kept.1)

-- If no location ends before it starts in one row, both of the fixes that remove text succeed,
-- wherever the locations point. Each returns nothing, or one result: the text without some
-- stretches of it, and nothing put in.
pub removal_fixes-AnswersCut :
    (fc : FixCandidate) (opts : RuntimeOptions)
    → All IsOrdered opts.locations
    → AnswersCut fc.contents (redundant_existence_check fc (some opts))
      × AnswersCut fc.contents (constant_condition fc (some opts))
unfolding redundant_existence_check constant_condition
removal_fixes-AnswersCut fc opts o = (
  removal-AnswersCut fc.contents redundant_name opts.base_dir opts.locations o,
  removal-AnswersCut fc.contents constant_name opts.base_dir opts.locations o,
)

minus_one : (n : ℕ) → pos (suc n) -ℤ pos 1 ≡ pos n
unfolding ◌-ℤ◌
minus_one n = ground arith

-- A single location whose two ends, 1-based, lie inside the text cuts out exactly what stands
-- between them, and joins the lines of the two ends.
pub remove_locations_at :
    (lines : List Text) (loc : Location) (end : Position) (r c r' c' : ℕ) (first last : Text)
    → loc.end ≡ some end
    → loc.row ≡ pos (suc r)
    → loc.column ≡ pos (suc c)
    → end.row ≡ pos (suc r')
    → end.column ≡ pos (suc c')
    → get_elem? lines r ≡ some first
    → get_elem? lines r' ≡ some last
    → r ≤ r'
    → c < length first
    → c' ≤ length last
    → remove_locations lines (loc ∷ []) ≡ ok (splice lines r c r' c' first last, true)
unfolding remove_locations sort_locations insert_location
remove_locations_at lines loc end r c r' c' first last he hr hc hr' hc' h h' le inside inside' =
    let cut : step (lines, false) loc ≡ ok (splice lines r c r' c' first last, true) =
      unfold step in
      rw (he, step_to)
        (rw (hr, hc)
          (rw (hr', hc')
            (rw (minus_one r, minus_one c)
              (rw (minus_one r', minus_one c')
                (step_at_inside lines false r c r' c' first last h h' le inside inside'))))) in
    each_one step (lines, false) (splice lines r c r' c' first last, true) loc cut
