-- ===== src/Util/Set.antt =====
-- internal/util/set.go: `Set[T]`. The map `elements` is the list of its keys; their order stands
-- for the order in which a `range` loop meets them.
pub mod Laws
pub mod Equal
use regal.Base.{
  ℕ, Bool, true, false, List, [], ◌∷◌, ◌++◌, if◌then◌else◌, ◌&&◌, not, Eq, ◌==◌, contains, length,
  nat_beq,
}

pub record Set {ℓ} (A : Type ℓ) : Type ℓ where
  pub elements : List A

module _ {ℓ} {A : Type ℓ} ⦃e : Eq A⦄ where
  -- `s.elements[item] = struct{}{}`
  unfoldable pub put : List A → A → List A
  put xs a = if contains xs a then xs else xs ++ a ∷ []

  unfoldable pub drop_key : List A → A → List A
  drop_key [] a = []
  drop_key (x ∷ xs) a = let rest = drop_key xs a in if x == a then rest else x ∷ rest

  put_all : List A → List A → List A
  put_all xs [] = xs
  put_all xs (a ∷ items) = put_all (put xs a) items

  drop_all : List A → List A → List A
  drop_all xs [] = xs
  drop_all xs (a ∷ items) = drop_all (drop_key xs a) items

  has_all : List A → List A → Bool
  has_all xs [] = true
  has_all xs (a ∷ items) = if not (contains xs a) then false else has_all xs items

  unfoldable pub add : Set A → List A → Set A
  unfolding put_all
  add s items = record { elements = put_all s.elements items }

  unfoldable pub remove : Set A → List A → Set A
  unfolding drop_all
  remove s items = record { elements = drop_all s.elements items }

  -- `Contains`: all of the given items are in the set.
  unfoldable pub contains_all : Set A → List A → Bool
  unfolding has_all
  contains_all s items = has_all s.elements items

  unfoldable pub new_set : List A → Set A
  unfolding add
  new_set items = add (record { elements = [] }) items

  unfoldable pub size : Set A → ℕ
  size s = length s.elements

  unfoldable pub items : Set A → List A
  items s = s.elements

  diff_from : List A → Set A → Set A → Set A
  diff_from [] b out = out
  diff_from (x ∷ xs) b out =
      diff_from xs b (if not (contains_all b (x ∷ [])) then add out (x ∷ []) else out)

  unfoldable pub diff : Set A → Set A → Set A
  unfolding diff_from
  diff s b = diff_from s.elements b (new_set [])

  intersect_from : List A → Set A → Set A → Set A
  intersect_from [] b out = out
  intersect_from (x ∷ xs) b out =
      intersect_from xs b (if contains_all b (x ∷ []) then add out (x ∷ []) else out)

  pub intersect : Set A → Set A → Set A
  unfolding intersect_from
  intersect s b = intersect_from s.elements b (new_set [])

  all_in : List A → Set A → Bool
  all_in [] b = true
  all_in (x ∷ xs) b = if not (contains_all b (x ∷ [])) then false else all_in xs b

  pub equal : Set A → Set A → Bool
  unfolding all_in size
  equal s b = if not (nat_beq (size s) (size b)) then false else all_in s.elements b

  -- Membership of one item, which the statements about sets are made with.
  abbrev pub member : Set A → A → Bool
  member s a = contains s.elements a
