-- ===== src/Lsp/Concurrent/Interleaved.antt =====
-- pkg/roast/util/concurrent/map.go: what the calls of other threads leave of a key.
use regal.Base.{
  ◌≡◌, refl, ap, ◌∙◌, inl, inr, false, Option, none, some, arith, Option-cases, ◌==◌, eq_refl, Text,
  text_eq, nat_eq,
}
use regal.Base.Dict.{Dict, lookup, insert, lookup-insert, lookup-erase}
use regal.Lsp.Concurrent.{set_key, delete_key, rename_key, clear, update_value, get_unchecked}

-- A call that changes the map.
pub data Call (V : Type 0) : Type 0 where
  sets : Text → V → Call V
  deletes : Text → Call V
  renames : (old_key new_key : Text) → Call V
  clears : Call V
  updates : Text → (V → V) → Call V

-- The call is about other keys.
abbrev pub Avoids : {A : Type 0} → Text → Call A → Type 0
Avoids key (sets k v) = (k == key) ≡ false
Avoids key (deletes k) = (k == key) ≡ false
Avoids key (renames old_key new_key) = ((old_key == key) ≡ false) × ((new_key == key) ≡ false)
Avoids key clears = ⊥
Avoids key (updates k f) = (k == key) ≡ false

module _ {V : Type 0} (zero_value : V) where
  -- What stands at the new key, by the old and the new one before.
  abbrev pub moved : Option V → Option V → Option V
  moved none now = now
  moved (some v) now = some v

  unfoldable pub apply : Call V → Dict Text V → Dict Text V
  unfolding set_key delete_key rename_key clear update_value
  apply (sets k v) m = set_key m k v
  apply (deletes k) m = delete_key m k
  apply (renames old_key new_key) m = rename_key m old_key new_key
  apply clears m = clear m
  apply (updates k f) m = update_value zero_value m k f

  -- Calls of any threads, one behind the other, of which each satisfies a condition.
  pub data Reach (P : Call V → Type 0) (m : Dict Text V) : Dict Text V → Type 0 where
    here : Reach P m m
    next : {m1 : Dict Text V} → Reach P m m1 → (c : Call V) → P c → Reach P m (apply c m1)

  lookup-rename_key :
      (m : Dict Text V) (old_key new_key key : Text)
      → (old_key == key) ≡ false
      → (new_key == key) ≡ false
      → lookup key (rename_key m old_key new_key) ≡ lookup key m
  unfolding rename_key
  lookup-rename_key m old_key new_key key p q = elim (Option-cases (lookup old_key m)) [
    | inl missing ↦ rw (missing, rename_key) refl
    | inr (v, found) ↦
        rw (found, rename_key)
          (ground (
            arith,
            lookup-erase old_key key (insert new_key v m),
            lookup-insert new_key key v m,
            p,
            q,
          ))
  ]

  pub apply-Avoids :
      (key : Text) (c : Call V) (m : Dict Text V)
      → Avoids key c
      → lookup key (apply c m) ≡ lookup key m
  unfolding apply
  apply-Avoids key (sets k v) m a = ground (arith, lookup-insert k key v m, a)
  apply-Avoids key (deletes k) m a = ground (arith, lookup-erase k key m, a)
  apply-Avoids key (renames old_key new_key) m (p, q) = lookup-rename_key m old_key new_key key p q
  apply-Avoids key clears m a = elim a [ ]
  apply-Avoids key (updates k f) m a =
      ground (arith, lookup-insert k key (f (get_unchecked zero_value m k)) m, a)

  pub Reach-lookup :
      {m : Dict Text V} (key : Text) {m' : Dict Text V}
      → Reach (Avoids key) m m'
      → lookup key m' ≡ lookup key m
  Reach-lookup key here = refl
  Reach-lookup key (next {m1} r c a) = apply-Avoids key c m1 a ∙ Reach-lookup key r

  abbrev pub AvoidsBoth : Text → Text → Call V → Type 0
  AvoidsBoth a b c = Avoids a c × Avoids b c

  pub first :
      {m : Dict Text V} (a b : Text) {m' : Dict Text V}
      → Reach (AvoidsBoth a b) m m'
      → Reach (Avoids a) m m'
  first a b here = here
  first a b (next r c p) = next (first a b r) c p.0

  pub second :
      {m : Dict Text V} (a b : Text) {m' : Dict Text V}
      → Reach (AvoidsBoth a b) m m'
      → Reach (Avoids b) m m'
  second a b here = here
  second a b (next r c p) = next (second a b r) c p.1

  renamed :
      (m : Dict Text V) (old_key new_key : Text)
      → (old_key == new_key) ≡ false
      → (lookup old_key (rename_key m old_key new_key) ≡ none)
        × (lookup new_key (rename_key m old_key new_key)
            ≡ moved (lookup old_key m) (lookup new_key m))
  unfolding rename_key
  renamed m old_key new_key apart = elim (Option-cases (lookup old_key m)) [
    | inl missing ↦ rw (missing, rename_key) (missing, refl)
    | inr (v, found) ↦
        rw (found, rename_key)
          (
            ground (arith, lookup-erase old_key old_key (insert new_key v m), eq_refl old_key),
            ground (
              arith,
              lookup-erase old_key new_key (insert new_key v m),
              lookup-insert new_key new_key v m,
              eq_refl new_key,
              apart,
            ),
          )
  ]

  -- Whatever calls of other threads do to other keys before and after a rename to another key, the
  -- old key is gone at the end, and the new key has the value that the old key had at the beginning,
  -- or, if there was none, the one that it had itself.
  pub rename_key-Reach :
      (m m1 m2 : Dict Text V) (old_key new_key : Text)
      → (old_key == new_key) ≡ false
      → Reach (AvoidsBoth old_key new_key) m m1
      → Reach (AvoidsBoth old_key new_key) (rename_key m1 old_key new_key) m2
      → (lookup old_key m2 ≡ none)
        × (lookup new_key m2 ≡ moved (lookup old_key m) (lookup new_key m))
  rename_key-Reach m m1 m2 old_key new_key apart before after =
      let (gone, there) = renamed m1 old_key new_key apart in
      let old_kept = Reach-lookup old_key (first old_key new_key before) in
      let new_kept = Reach-lookup new_key (second old_key new_key before) in
      (
        Reach-lookup old_key (first old_key new_key after) ∙ gone,
        Reach-lookup new_key (second old_key new_key after)
            ∙ there
            ∙ ap (λ x. moved x (lookup new_key m1)) old_kept
            ∙ ap (moved (lookup old_key m)) new_kept,
      )
