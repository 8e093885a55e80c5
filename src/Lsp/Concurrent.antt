-- ===== src/Lsp/Concurrent.antt =====
-- pkg/roast/util/concurrent/map.go: a map whose methods hold its lock from beginning to end, so that
-- what several threads do to it is a sequence of whole calls, in an order that nobody chooses.
pub mod Interleaved
mod Tests
use regal.Base.{ℕ, Option, none, some, List, [], ◌∷◌, length, Text, text_eq}
use regal.Base.Dict.{Dict, lookup, insert, erase, keys}

module _ {ℓ} {V : Type ℓ} where
  unfoldable pub map_of : Dict Text V → Dict Text V
  map_of src = src

  unfoldable pub get : Dict Text V → Text → Option V
  get m k = lookup k m

  -- The zero value where the key is missing.
  unfoldable pub get_unchecked : V → Dict Text V → Text → V
  get_unchecked zero_value m k = elim (lookup k m) [ none ↦ zero_value | some v ↦ v ]

  unfoldable pub set_key : Dict Text V → Text → V → Dict Text V
  set_key m k v = insert k v m

  unfoldable pub delete_key : Dict Text V → Text → Dict Text V
  delete_key m k = erase k m

  unfoldable pub rename_key : Dict Text V → (old_key new_key : Text) → Dict Text V
  rename_key m old_key new_key = elim (lookup old_key m) [
    | none ↦ m
    | some v ↦ erase old_key (insert new_key v m)
  ]

  unfoldable pub keys_of : Dict Text V → List Text
  keys_of m = keys m

  unfoldable pub values : Dict Text V → List V
  values [] = []
  values ((_, v) ∷ m) = v ∷ values m

  -- The length of a map that may be nil.
  unfoldable pub len : Option (Dict Text V) → ℕ
  len none = 0
  len (some m) = length m

  unfoldable pub clone : Dict Text V → Dict Text V
  clone m = m

  unfoldable pub clear : Dict Text V → Dict Text V
  clear m = []

  unfoldable pub update_value : V → Dict Text V → Text → (V → V) → Dict Text V
  unfolding get_unchecked
  update_value zero_value m key transformer =
      insert key (transformer (get_unchecked zero_value m key)) m
