-- ===== src/Util/Set/Equal.antt =====
-- internal/util/set.go: that no key is held twice, and that `Equal` decides equality of sets.
use regal.Base.{
  ◌≤◌, ◌+◌, true, false, List, [], ◌∷◌, ◌++◌, ◌≡◌, refl, sym, ◌↔◌, ◌∙◌, Eq, eq_iff, eq_refl,
  contains, contains-append, arith, Bool-cases, length, inl, inr,
}
use regal.Util.Set.{Set, put, drop_key, put_all, drop_all, add, remove, all_in, size, equal, member}
use regal.Util.Set.Laws.{contains-drop_key, contains_all_one}

module _ {ℓ} {A : Type ℓ} ⦃e : Eq A⦄ where
  -- A key stands in a Go map at most once.
  abbrev pub Nodup : List A → Type 0
  Nodup [] = Unit
  Nodup (x ∷ xs) = (contains xs x ≡ false) × Nodup xs

  Nodup-snoc : (xs : List A) (a : A) → Nodup xs → contains xs a ≡ false → Nodup (xs ++ a ∷ [])
  unfolding contains
  Nodup-snoc [] a h fresh = (refl, tt)
  Nodup-snoc (x ∷ xs) a (new, h) fresh =
      ground (arith, Nodup-snoc xs a h, contains-append xs (a ∷ []) x, eq_iff a x, eq_iff x a)

  Nodup-put : (xs : List A) (a : A) → Nodup xs → Nodup (put xs a)
  unfolding put
  Nodup-put xs a h = ground (arith, Nodup-snoc xs a h)

  Nodup-drop_key : (xs : List A) (a : A) → Nodup xs → Nodup (drop_key xs a)
  unfolding drop_key
  Nodup-drop_key [] a h = tt
  Nodup-drop_key (x ∷ xs) a (fresh, h) =
      ground (arith, Nodup-drop_key xs a h, contains-drop_key xs a x)

  Nodup-put_all : (xs items : List A) → Nodup xs → Nodup (put_all xs items)
  unfolding put_all
  Nodup-put_all xs [] h = h
  Nodup-put_all xs (a ∷ items) h = Nodup-put_all (put xs a) items (Nodup-put xs a h)

  Nodup-drop_all : (xs items : List A) → Nodup xs → Nodup (drop_all xs items)
  unfolding drop_all
  Nodup-drop_all xs [] h = h
  Nodup-drop_all xs (a ∷ items) h = Nodup-drop_all (drop_key xs a) items (Nodup-drop_key xs a h)

  abbrev pub Subset : List A → List A → Type ℓ
  Subset xs ys = (j : A) → contains xs j ≡ true → contains ys j ≡ true

  drop_key_shorter :
      (ys : List A) (a : A)
      → (length (drop_key ys a) ≤ length ys)
        × (contains ys a ≡ true → length (drop_key ys a) + 1 ≤ length ys)
  unfolding drop_key contains
  drop_key_shorter [] a = (omega arith, λ h. cc)
  drop_key_shorter (y ∷ ys) a = ground (arith, drop_key_shorter ys a)

  Subset-drop_key :
      (x : A) (xs ys : List A)
      → contains xs x ≡ false
      → Subset (x ∷ xs) ys
      → Subset xs (drop_key ys x)
  unfolding contains
  Subset-drop_key x xs ys fresh sub j h =
      ground (arith, sub j, contains-drop_key ys x j, eq_iff x j)

  -- The pigeonhole: a list with no repetitions is no longer than one that has all its items.
  pub length-le_of_Subset : (xs ys : List A) → Nodup xs → Subset xs ys → length xs ≤ length ys
  unfolding contains
  length-le_of_Subset [] ys h sub = omega arith
  length-le_of_Subset (x ∷ xs) ys (fresh, h) sub = ground (
    arith,
    length-le_of_Subset xs (drop_key ys x) h (Subset-drop_key x xs ys fresh sub),
    drop_key_shorter ys x,
    sub x,
    eq_refl x,
  )

  all_in_sound :
      (xs : List A) (b : Set A) (j : A)
      → all_in xs b ≡ true
      → contains xs j ≡ true
      → member b j ≡ true
  unfolding all_in contains
  all_in_sound [] b j h k = cc
  all_in_sound (x ∷ xs) b j h k =
      ground (arith, contains_all_one b x, all_in_sound xs b j, eq_iff x j)

  all_in_complete : (xs : List A) (b : Set A) → Subset xs b.elements → all_in xs b ≡ true
  unfolding all_in contains
  all_in_complete [] b sub = refl
  all_in_complete (x ∷ xs) b sub = ground (
    arith,
    contains_all_one b x,
    sub x,
    eq_refl x,
    all_in_complete xs b (λ j k. sub j (ground arith)),
  )

  -- A set that has as many items as a subset of it has no other items.
  Subset-back : (xs ys : List A) → Nodup xs → Subset xs ys → length xs ≡ length ys → Subset ys xs
  unfolding contains
  Subset-back xs ys h sub same j inside = elim (Bool-cases (contains xs j)) [
    | inl there ↦ there
    | inr fresh ↦ absurd (
        omega (
          arith,
          length-le_of_Subset (j ∷ xs) ys (fresh, h) (λ i k. ground (arith, sub i, eq_iff j i)),
        ))
  ]

  -- `Equal` answers true exactly when the two sets, whose keys are distinct, have the same items.
  pub equal_iff :
      (s b : Set A)
      → Nodup s.elements
      → Nodup b.elements
      → (equal s b ≡ true) ↔ ((j : A) → member s j ≡ member b j)
  unfolding equal size
  equal_iff s b hs hb = (
    λ h j.
        let sub : Subset s.elements b.elements =
          λ i k. all_in_sound s.elements b i (ground arith) k in
        ground (arith, sub j, Subset-back s.elements b.elements hs sub (ground arith) j),
    λ h. ground (
      arith,
      all_in_complete s.elements b (λ j k. sym (h j) ∙ k),
      length-le_of_Subset s.elements b.elements hs (λ j k. sym (h j) ∙ k),
      length-le_of_Subset b.elements s.elements hb (λ j k. h j ∙ k),
    ),
  )

  -- Whatever is added to or removed from a set, its keys stay distinct.
  pub Nodup-add-remove :
      (s : Set A) (items : List A)
      → Nodup s.elements
      → Nodup (add s items).elements × Nodup (remove s items).elements
  unfolding add remove
  Nodup-add-remove s items h = (Nodup-put_all s.elements items h, Nodup-drop_all s.elements items h)
