-- ===== src/Base/Outcomes.antt =====
-- What a Go call with an `error` result comes to. `panicked` is a run-time panic; `unfinished`
-- says that the fuel of a loop in the model ran out, which the code has no counterpart of.
use mathlib.Core.Path.{◌≡◌, refl, subst}
use mathlib.Core.Logic.{◌⊎◌, inl, inr}
use regal.Base.Texts.{Text}

-- `fmt.Errorf("...")` is `message`, and `fmt.Errorf("...: %w", e)` is `wrapped`.
pub data Error : Type 0 where
  message : Text → Error
  wrapped : Text → Error → Error
  rename_conflict : (from to : Text) → Error

pub data Outcome {ℓ} (A : Type ℓ) : Type ℓ where
  ok : A → Outcome A
  err : Error → Outcome A
  panicked : Outcome A
  unfinished : Outcome A

-- `if err != nil { return nil, fmt.Errorf("text: %w", err) }`
unfoldable pub wrap {ℓ} : {A : Type ℓ} → Text → Outcome A → Outcome A
wrap text (ok a) = ok a
wrap text (err e) = err (wrapped text e)
wrap text panicked = panicked
wrap text unfinished = unfinished

infixl 5 ◌>>=◌ ◌>>◌
-- Opening this opens `wrap` too.
unfoldable pub ◌>>=◌ {ℓ κ} : {A : Type ℓ} {B : Type κ} → Outcome A → (A → Outcome B) → Outcome B
unfolding wrap
ok a >>= f = f a
err e >>= f = err e
panicked >>= f = panicked
unfinished >>= f = unfinished

abbrev pub ◌>>◌ {ℓ} : {B : Type ℓ} → Outcome (Unit {0}) → Outcome B → Outcome B
m >> k = m >>= λ _. k

pub ok_injective {ℓ} : {A : Type ℓ} {a b : A} → ok a ≡ ok b → a ≡ b
ok_injective e = cc

-- Inversion of a successful bind, for proofs where the parts stay shut.
pub >>=-eq-ok {ℓ κ} :
    {A : Type ℓ} {B : Type κ} (m : Outcome A) (f : A → Outcome B) {b : B}
    → (m >>= f) ≡ ok b
    → (a : A) × (m ≡ ok a) × (f a ≡ ok b)
unfolding ◌>>=◌
>>=-eq-ok (ok a) f h = (a, refl, h)
>>=-eq-ok (err e) f h = cc
>>=-eq-ok panicked f h = cc
>>=-eq-ok unfinished f h = cc

-- What holds of the value, if there is one.
pub record OnOk {ℓ κ} {A : Type ℓ} (P : A → Type κ) (m : Outcome A) : Type (ℓ ⊔ κ) where
  pub at : (a : A) → m ≡ ok a → P a

module _ {ℓ} {A : Type ℓ} where
  pub OnOk-ok {κ} : (P : A → Type κ) (a : A) → P a → OnOk P (ok a)
  OnOk-ok P a h = record { at = λ b e. subst P (cc e) h }

  pub OnOk-unfinished {κ} : (P : A → Type κ) → OnOk P unfinished
  OnOk-unfinished P = record { at = λ b e. cc }

  pub OnOk-wrap {κ} : (P : A → Type κ) (t : Text) (m : Outcome A) → OnOk P m → OnOk P (wrap t m)
  unfolding wrap
  OnOk-wrap P t (ok a) h = h
  OnOk-wrap P t (err e) h = record { at = λ b e. cc }
  OnOk-wrap P t panicked h = record { at = λ b e. cc }
  OnOk-wrap P t unfinished h = record { at = λ b e. cc }

module _ {ℓ κ μ} {A : Type ℓ} {B : Type κ} (P : B → Type μ) where
  -- Where nothing is needed of the first value but that it was returned.
  pub OnOk-then :
      (m : Outcome A) (f : A → Outcome B) → ((a : A) → m ≡ ok a → OnOk P (f a)) → OnOk P (m >>= f)
  unfolding ◌>>=◌
  OnOk-then (ok a) f k = k a refl
  OnOk-then (err e) f k = record { at = λ b e. cc }
  OnOk-then panicked f k = record { at = λ b e. cc }
  OnOk-then unfinished f k = record { at = λ b e. cc }

  pub OnOk-bind {ν} :
      (Q : A → Type ν) (m : Outcome A) (f : A → Outcome B)
      → OnOk Q m
      → ((a : A) → Q a → OnOk P (f a))
      → OnOk P (m >>= f)
  OnOk-bind Q m f h k = OnOk-then m f (λ a e. k a (h.at a e))

pub wrap-eq-ok {ℓ} : {A : Type ℓ} (t : Text) (m : Outcome A) {a : A} → wrap t m ≡ ok a → m ≡ ok a
unfolding wrap
wrap-eq-ok t (ok b) e = e
wrap-eq-ok t (err x) e = cc
wrap-eq-ok t panicked e = cc
wrap-eq-ok t unfinished e = cc

pub Outcome-cases {ℓ} :
    {A : Type ℓ} (m : Outcome A)
    → ((a : A) × (m ≡ ok a)) ⊎ (((e : Error) × (m ≡ err e)) ⊎ ((m ≡ panicked) ⊎ (m ≡ unfinished)))
Outcome-cases (ok a) = inl (a, refl)
Outcome-cases (err e) = inr (inl (e, refl))
Outcome-cases panicked = inr (inr (inl refl))
Outcome-cases unfinished = inr (inr (inr refl))

pub OnOk-err {ℓ κ} : {A : Type ℓ} (P : A → Type κ) (e : Error) → OnOk P (err e)
OnOk-err P e = record { at = λ b h. cc }

pub OnOk-panicked {ℓ κ} : {A : Type ℓ} (P : A → Type κ) → OnOk P panicked
OnOk-panicked P = record { at = λ b h. cc }
