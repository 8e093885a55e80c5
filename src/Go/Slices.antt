-- ===== src/Go/Slices.antt =====
-- Slices: indexing and slicing panic out of range; a `range` loop whose body may fail.
use regal.Base.{
  ℕ, zero, suc, ◌+◌, ◌≤◌, ◌<◌, ◌≡◌, refl, ap, ◌≢◌, ◌⊎◌, true, none, some, List, [], ◌∷◌, ◌++◌,
  arith, ltb, leb, if◌then◌else◌, lt→ltb, length, get_elem?, set, take, drop, All, ℤ, pos, negsuc,
  ◌+ℤ◌, ◌-ℤ◌, ◌≤ℤ◌, ltb_ℤ, Outcome, ok, panicked, ◌>>=◌,
}

abbrev pub int_length {ℓ} : {A : Type ℓ} → List A → ℤ
int_length xs = pos (length xs)

-- `xs[i]`
unfoldable pub index {ℓ} : {A : Type ℓ} → List A → ℤ → Outcome A
index xs (negsuc n) = panicked
index xs (pos n) = elim (get_elem? xs n) [ none ↦ panicked | some x ↦ ok x ]

-- `xs[i] = v`
unfoldable pub set_index {ℓ} : {A : Type ℓ} → List A → ℤ → A → Outcome (List A)
set_index xs (negsuc n) v = panicked
set_index xs (pos n) v = if ltb n (length xs) then ok (set xs n v) else panicked

-- `xs[:i]`, of a slice or a string that has no room behind its end
unfoldable pub slice_to {ℓ} : {A : Type ℓ} → List A → ℤ → Outcome (List A)
slice_to xs (negsuc n) = panicked
slice_to xs (pos n) = if leb n (length xs) then ok (take n xs) else panicked

-- `xs[i:]`
unfoldable pub slice_from {ℓ} : {A : Type ℓ} → List A → ℤ → Outcome (List A)
slice_from xs (negsuc n) = panicked
slice_from xs (pos n) = if leb n (length xs) then ok (drop n xs) else panicked

-- `for _, a := range items { … }`, whose body changes the variables `s` or leaves the function
module _ {ℓ κ} {S : Type ℓ} {A : Type κ} where
  unfoldable pub each : (S → A → Outcome S) → S → List A → Outcome S
  unfolding ◌>>=◌
  each body s [] = ok s
  each body s (a ∷ items) = do s' ← body s a; each body s' items

  -- A body that never fails and keeps `P` gives a loop that does not fail and keeps `P`.
  pub each_inv {μ} :
      (P : S → Type μ) (body : S → A → Outcome S)
      → ((s : S) (a : A) → P s → (s' : S) × (body s a ≡ ok s') × P s')
      → (s : S) (items : List A) → P s
      → (s' : S) × (each body s items ≡ ok s') × P s'
  unfolding each
  each_inv P body keep s [] h = (s, refl, h)
  each_inv P body keep s (a ∷ items) h =
      let (s1, one, h1) = keep s a h in
      let (s2, rest, h2) = each_inv P body keep s1 items h1 in (s2, rw (one, each) rest, h2)

  -- The same, where the items have a property that the body needs.
  pub each_inv-All {μ ν} :
      (P : S → Type μ) (Q : A → Type ν) (body : S → A → Outcome S)
      → ((s : S) (a : A) → Q a → P s → (s' : S) × (body s a ≡ ok s') × P s')
      → (s : S) (items : List A) → All Q items
      → P s
      → (s' : S) × (each body s items ≡ ok s') × P s'
  unfolding each
  each_inv-All P Q body keep s [] q h = (s, refl, h)
  each_inv-All P Q body keep s (a ∷ items) (q, qs) h =
      let (s1, one, h1) = keep s a q h in
      let (s2, rest, h2) = each_inv-All P Q body keep s1 items qs h1 in
      (s2, rw (one, each) rest, h2)

  pub each_panics :
      (body : S → A → Outcome S) (s : S) (a : A) (items : List A)
      → body s a ≡ panicked
      → each body s (a ∷ items) ≡ panicked
  unfolding each
  each_panics body s a items h = rw h

pub get_elem?-lt {ℓ} :
    {A : Type ℓ} (xs : List A) (n : ℕ) → n < length xs → (x : A) × (get_elem? xs n ≡ some x)
get_elem?-lt [] n h = elim h [ ]
get_elem?-lt (x ∷ xs) zero h = (x, refl)
get_elem?-lt (x ∷ xs) (suc n) h = get_elem?-lt xs n (omega arith)

pub get_elem?-some {ℓ} :
    {A : Type ℓ} (xs : List A) (n : ℕ) {x : A} → get_elem? xs n ≡ some x → n < length xs
get_elem?-some [] n h = absurd (cc)
get_elem?-some (x ∷ xs) zero h = omega arith
get_elem?-some (x ∷ xs) (suc n) h = omega (arith, get_elem?-some xs n h)

pub get_elem?-none {ℓ} : {A : Type ℓ} (xs : List A) (n : ℕ) → length xs ≤ n → get_elem? xs n ≡ none
get_elem?-none [] n h = refl
get_elem?-none (x ∷ xs) zero h = absurd (omega arith)
get_elem?-none (x ∷ xs) (suc n) h = get_elem?-none xs n (omega arith)

pub row_index : (r : ℕ) → pos (suc r) -ℤ pos 1 ≡ pos r
unfolding ◌-ℤ◌
row_index r = ground arith

pub take-suc {ℓ} :
    {A : Type ℓ} (xs : List A) (n : ℕ) {x : A}
    → get_elem? xs n ≡ some x
    → take (suc n) xs ≡ take n xs ++ x ∷ []
take-suc [] n h = cc
take-suc (y ∷ xs) zero h = cc
take-suc (y ∷ xs) (suc n) h = ap (λ r. y ∷ r) (take-suc xs n h)

pub drop_lem {ℓ} :
    {A : Type ℓ} (xs : List A) (n : ℕ) {x : A}
    → get_elem? xs n ≡ some x
    → drop n xs ≡ x ∷ drop (suc n) xs
drop_lem [] n h = cc
drop_lem (y ∷ xs) zero h = cc
drop_lem (y ∷ xs) (suc n) h = drop_lem xs n h

-- Indexing and slicing by a 1-based position, as the fixes do.
module _ {ℓ} {A : Type ℓ} (xs : List A) (r : ℕ) where
  pub index_before : (x : A) → get_elem? xs r ≡ some x → index xs (pos (suc r) -ℤ pos 1) ≡ ok x
  unfolding index
  index_before x h = rw row_index (rw (h, index))

  pub set_index_before :
      (v : A) → r < length xs → set_index xs (pos (suc r) -ℤ pos 1) v ≡ ok (set xs r v)
  unfolding set_index
  set_index_before v h = rw row_index (rw (lt→ltb _ _ h, set_index))

  pub slice_to_ok : r ≤ length xs → slice_to xs (pos r) ≡ ok (take r xs)
  unfolding slice_to
  slice_to_ok h = ground arith

  pub slice_from_ok : r ≤ length xs → slice_from xs (pos r) ≡ ok (drop r xs)
  unfolding slice_from
  slice_from_ok h = ground arith

pub each_one {ℓ κ} :
    {S : Type ℓ} {A : Type κ} (body : S → A → Outcome S) (s s' : S) (a : A)
    → body s a ≡ ok s'
    → each body s (a ∷ []) ≡ ok s'
unfolding each
each_one body s s' a h = rw h

pub index_out :
    {A : Type 0} (xs : List A) (i : ℤ)
    → (i ≤ℤ pos 0) ⊎ (int_length xs +ℤ pos 1 ≤ℤ i)
    → index xs (i -ℤ pos 1) ≡ panicked
unfolding index ◌-ℤ◌ ◌+ℤ◌
index_out xs (negsuc n) h = ground arith
index_out xs (pos zero) h = refl
index_out xs (pos (suc n)) h = ground (arith, get_elem?-none {0} xs n)

-- A 1-based column that is zero or negative lies before the first byte.
pub before_column_one : (n : ℕ) → ltb_ℤ (negsuc n -ℤ pos 1) (pos 0) ≡ true
unfolding ◌-ℤ◌
before_column_one n = ground arith

pub before_column_zero : ltb_ℤ (pos 0 -ℤ pos 1) (pos 0) ≡ true
unfolding ◌-ℤ◌
before_column_zero = refl

pub offset_index : (i k : ℕ) → pos i +ℤ pos (suc k) -ℤ pos 1 ≡ pos (k + i)
unfolding ◌+ℤ◌ ◌-ℤ◌
offset_index i k = ground arith

drop_nil {ℓ} : {A : Type ℓ} (n : ℕ) → [] ≡ drop n (let xs : List A = [] in xs)
drop_nil zero = refl
drop_nil (suc n) = refl

pub drop-drop {ℓ} : {A : Type ℓ} (xs : List A) (k i : ℕ) → drop i (drop k xs) ≡ drop (k + i) xs
drop-drop xs zero i = let e : zero + i ≡ i = omega arith in rw e
drop-drop [] (suc k) zero = drop_nil (suc k + 0)
drop-drop [] (suc k) (suc i) = drop_nil (suc k + suc i)
drop-drop (x ∷ xs) (suc k) i =
    let e : suc k + i ≡ suc (k + i) = omega arith in rw e (drop-drop xs k i)

pub get_elem?-ne-nil {ℓ} :
    {A : Type ℓ} (xs : List A) (n : ℕ) {x : A} → get_elem? xs n ≡ some x → xs ≢ []
get_elem?-ne-nil [] n h e = cc
get_elem?-ne-nil (y ∷ xs) n h e = ground arith

pub append_cons-ne-nil {ℓ} : {A : Type ℓ} (xs : List A) (y : A) (ys : List A) → xs ++ y ∷ ys ≢ []
append_cons-ne-nil [] y ys e = ground arith
append_cons-ne-nil (x ∷ xs) y ys e = ground arith

pub get_elem?-append {ℓ} :
    {A : Type ℓ} (xs : List A) (y : A) (ys : List A) → get_elem? (xs ++ y ∷ ys) (length xs) ≡ some y
get_elem?-append [] y ys = refl
get_elem?-append (x ∷ xs) y ys = get_elem?-append xs y ys
