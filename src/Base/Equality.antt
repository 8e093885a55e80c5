-- ===== src/Base/Equality.antt =====
-- Go's `==` on comparable types, as an instance, and membership by it.
use Prim.Native.Nat.{ℕ}
use mathlib.Core.Path.{◌≡◌, refl}
use mathlib.Core.Logic.{◌↔◌, ◌≢◌}
use mathlib.Core.Bool.{Bool, true, false, ◌||◌}
use mathlib.Core.List.{List, [], ◌∷◌, ◌++◌}
use native.Mathlib.Omega.{arith}
use regal.Base.Tests.{nat_beq, nat_beq_iff}

-- `decides` says that the test is the equality of the type.
pub record Eq {ℓ} (T : Type ℓ) : Type ℓ where
  pub equals : T → T → Bool
  pub decides : (x y : T) → (equals x y ≡ true) ↔ (x ≡ y)

infix 45 ◌==◌
abbrev pub ◌==◌ {ℓ} : {T : Type ℓ} ⦃inst : Eq T⦄ (x y : T) → Bool
◌==◌ ⦃inst⦄ x y = inst.equals x y

module _ {ℓ} {A : Type ℓ} ⦃e : Eq A⦄ where
  pub eq_iff : (a b : A) → ((a == b) ≡ true) ↔ (a ≡ b)
  eq_iff = e.decides

  pub eq_refl : (a : A) → (a == a) ≡ true
  eq_refl a = (e.decides a a).1 refl

  pub ne-of_beq : (a b : A) → (a == b) ≡ false → a ≢ b
  ne-of_beq a b h same = cc (h, (eq_iff a b).1 same)

  unfoldable pub contains : List A → A → Bool
  contains [] a = false
  contains (x ∷ xs) a = x == a || contains xs a

  pub contains-append :
      (xs ys : List A) (a : A) → contains (xs ++ ys) a ≡ (contains xs a || contains ys a)
  unfolding contains
  contains-append [] ys a = refl
  contains-append (x ∷ xs) ys a = ground (arith, contains-append xs ys a)

instance abbrev pub nat_eq : Eq ℕ
nat_eq = record { equals = nat_beq; decides = nat_beq_iff }
