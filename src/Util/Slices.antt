-- ===== src/Util/Slices.antt =====
-- internal/util/util.go: the generic helpers on slices and maps. A predicate is a function, and the
-- zero value of a type is a parameter.
use regal.Base.{
  ℕ, suc, ◌≡◌, refl, sym, ap, ◌∙◌, inl, inr, Bool, not, Option, none, some, List, [], ◌∷◌, ◌++◌,
  append_assoc, append-nil, arith, if◌then◌else◌, Bool-cases, length, Eq, ◌==◌, nat_eq,
}
use regal.Base.Dict.{Dict, lookup}

module _ {ℓ} {A : Type ℓ} where
  unfoldable pub find_first : (A → Bool) → List A → Option A
  find_first pred [] = none
  find_first pred (v ∷ s) = if pred v then some v else find_first pred s

  -- The first pass of `Filter` counts, the second one collects.
  unfoldable pub count_matching : (A → Bool) → List A → ℕ
  count_matching f [] = 0
  count_matching f (x ∷ s) = let n = count_matching f s in if f x then suc n else n

  unfoldable pub collect : (A → Bool) → List A → List A → List A
  collect f [] r = r
  collect f (x ∷ s) r = if f x then collect f s (r ++ x ∷ []) else collect f s r

  unfoldable pub filter : (A → Bool) → List A → List A
  unfolding count_matching collect
  filter f s = if count_matching f s == 0 then [] else collect f s []

  -- `Or`: the first of the values that is not the zero value, which stands last.
  unfoldable pub first_other : ⦃e : Eq A⦄ → A → A → List A → A
  first_other zero_value val [] = val
  first_other zero_value val (alt ∷ alts) =
      if not (alt == zero_value) then alt else first_other zero_value val alts

  unfoldable pub or : ⦃e : Eq A⦄ → A → A → List A → A
  unfolding first_other
  or zero_value val suppliers =
      if val == zero_value then first_other zero_value val suppliers else val

unfoldable pub map_keys {ℓ κ μ} :
    {K : Type ℓ} {V : Type κ} {U : Type μ} → (K → U) → Dict K V → List U
map_keys f [] = []
map_keys f ((k, v) ∷ m) = f k ∷ map_keys f m

unfoldable pub map_get_or {ℓ κ} : {K : Type ℓ} {V : Type κ} ⦃e : Eq K⦄ → Dict K V → K → V → V
map_get_or m key default_val = elim (lookup key m) [ some val ↦ val | none ↦ default_val ]

-- A filtered slice holds what it should, in order, and as many as were counted for it.
collect-append : {A : Type 0} (f : A → Bool) (s r : List A) → collect f s r ≡ r ++ collect f s []
unfolding collect
collect-append f [] r = sym (append-nil r)
collect-append f (x ∷ s) r = elim (Bool-cases (f x)) [
  | inl taken ↦ rw taken (
      collect-append f s (r ++ x ∷ [])
      ∙ append_assoc r (x ∷ []) (collect f s [])
      ∙ ap (λ l. r ++ l) (sym (collect-append f s (x ∷ []))))
  | inr passed ↦ rw passed (collect-append f s r)
]

collect-none :
    {A : Type 0} (f : A → Bool) (s : List A) → count_matching f s ≡ 0 → collect f s [] ≡ []
unfolding collect count_matching
collect-none f [] h = refl
collect-none f (x ∷ s) h = ground (arith, h, collect-none f s)

filter-collect : {A : Type 0} (f : A → Bool) (s : List A) → filter f s ≡ collect f s []
unfolding filter
filter-collect f s = elim (Bool-cases (count_matching f s == 0)) [
  | inl nothing ↦ rw nothing (sym (collect-none f s (ground (arith, nothing))))
  | inr some_left ↦ rw some_left refl
]

filter_step :
    {A : Type 0} (f : A → Bool) (x : A) (s : List A)
    → filter f (x ∷ s) ≡ (if f x then x ∷ filter f s else filter f s)
unfolding collect
filter_step f x s = elim (Bool-cases (f x)) [
  | inl taken ↦
      rw (filter-collect f (x ∷ s), filter-collect f s) (rw taken (collect-append f s (x ∷ [])))
  | inr passed ↦ rw (filter-collect f (x ∷ s), filter-collect f s) (rw passed refl)
]

length-filter : {A : Type 0} (f : A → Bool) (s : List A) → length (filter f s) ≡ count_matching f s
unfolding count_matching
length-filter f [] = unfold filter in refl
length-filter f (x ∷ s) = ground (arith, ap (λ l. length l) (filter_step f x s), length-filter f s)

-- `Filter` takes the matching elements in order: none of an empty slice, and of a longer one the
-- first, if it matches, and those of the rest; and they are as many as its first pass counts.
pub filter_lem :
    {A : Type 0} (f : A → Bool) (x : A) (s : List A)
    → (filter f [] ≡ [])
      × (filter f (x ∷ s) ≡ (if f x then x ∷ filter f s else filter f s))
      × (length (filter f s) ≡ count_matching f s)
filter_lem f x s = (unfold filter in refl, filter_step f x s, length-filter f s)
