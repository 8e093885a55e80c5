-- ===== src/Util/Set/Laws.antt =====
-- internal/util/set.go: what each operation does to membership.
use regal.Base.{
  ◌≡◌, refl, ◌↔◌, false, not, ◌&&◌, ◌||◌, List, [], ◌∷◌, arith, length, Eq, ◌==◌, eq_iff, eq_refl,
  contains, contains-append, nat_eq,
}
use regal.Util.Set.{
  Set, put, drop_key, put_all, drop_all, add, remove, contains_all, new_set, diff_from, diff,
  intersect_from, intersect, member, size,
}

module _ {ℓ} {A : Type ℓ} ⦃e : Eq A⦄ where
  pub contains-put : (xs : List A) (a j : A) → contains (put xs a) j ≡ (contains xs j || a == j)
  unfolding put contains
  contains-put xs a j = ground (arith, contains-append xs (a ∷ []) j, eq_iff a j)

  pub contains-drop_key :
      (xs : List A) (a j : A) → contains (drop_key xs a) j ≡ (contains xs j && not (a == j))
  unfolding drop_key contains
  contains-drop_key [] a j = refl
  contains-drop_key (x ∷ xs) a j =
      ground (arith, contains-drop_key xs a j, eq_iff x a, eq_iff x j, eq_iff a j)

  contains-put_all :
      (xs items : List A) (j : A)
      → contains (put_all xs items) j ≡ (contains xs j || contains items j)
  unfolding put_all contains
  contains-put_all xs [] j = ground arith
  contains-put_all xs (a ∷ items) j =
      ground (arith, contains-put_all (put xs a) items j, contains-put xs a j)

  contains-drop_all :
      (xs items : List A) (j : A)
      → contains (drop_all xs items) j ≡ (contains xs j && not (contains items j))
  unfolding drop_all contains
  contains-drop_all xs [] j = ground arith
  contains-drop_all xs (a ∷ items) j =
      ground (arith, contains-drop_all (drop_key xs a) items j, contains-drop_key xs a j)

  pub member-add :
      (s : Set A) (items : List A) (j : A)
      → member (add s items) j ≡ (member s j || contains items j)
  unfolding add
  member-add s items j = contains-put_all s.elements items j

  pub member-remove :
      (s : Set A) (items : List A) (j : A)
      → member (remove s items) j ≡ (member s j && not (contains items j))
  unfolding remove
  member-remove s items j = contains-drop_all s.elements items j

  pub contains_all_one : (s : Set A) (a : A) → contains_all s (a ∷ []) ≡ member s a
  unfolding contains_all
  contains_all_one s a = ground arith

  pub member-new_set : (items : List A) (j : A) → member (new_set items) j ≡ contains items j
  unfolding new_set contains
  member-new_set items j = contains-put_all [] items j

  member-diff_from :
      (xs : List A) (b out : Set A) (j : A)
      → member (diff_from xs b out) j ≡ (member out j || (contains xs j && not (member b j)))
  unfolding diff_from contains
  member-diff_from [] b out j = ground arith
  member-diff_from (x ∷ xs) b out j = ground (
    arith,
    contains_all_one b x,
    member-add out (x ∷ []) j,
    eq_iff x j,
    member-diff_from xs b out j,
    member-diff_from xs b (add out (x ∷ [])) j,
  )

  -- The difference of two sets holds exactly the items of the first that the second lacks.
  -- `Diff` has exactly the items of the first set that are not in the second.
  pub member-diff : (s b : Set A) (j : A) → member (diff s b) j ≡ (member s j && not (member b j))
  unfolding diff contains
  member-diff s b j =
      ground (arith, member-diff_from s.elements b (new_set []) j, member-new_set [] j)

  member-intersect_from :
      (xs : List A) (b out : Set A) (j : A)
      → member (intersect_from xs b out) j ≡ (member out j || (contains xs j && member b j))
  unfolding intersect_from contains
  member-intersect_from [] b out j = ground arith
  member-intersect_from (x ∷ xs) b out j = ground (
    arith,
    contains_all_one b x,
    member-add out (x ∷ []) j,
    eq_iff x j,
    member-intersect_from xs b out j,
    member-intersect_from xs b (add out (x ∷ [])) j,
  )

  -- `Intersect` has exactly the items that are in both sets.
  pub member-intersect :
      (s b : Set A) (j : A) → member (intersect s b) j ≡ (member s j && member b j)
  unfolding intersect contains
  member-intersect s b j =
      ground (arith, member-intersect_from s.elements b (new_set []) j, member-new_set [] j)

  -- `Size` is 0 exactly where nothing is a member.
  pub size_zero_iff : (s : Set A) → (size s ≡ 0) ↔ ((j : A) → member s j ≡ false)
  unfolding size contains
  size_zero_iff s = (λ h j. none_in s.elements j h, λ h. no_elements s.elements h)
    where
      none_in : (xs : List A) (j : A) → length xs ≡ 0 → contains xs j ≡ false
      none_in [] j h = refl
      none_in (x ∷ xs) j h = absurd (omega arith)

      no_elements : (xs : List A) → ((j : A) → contains xs j ≡ false) → length xs ≡ 0
      no_elements [] h = refl
      no_elements (x ∷ xs) h = absurd (ground (arith, h x, eq_refl x))
