-- ===== src/Prelude/Equality.antt =====
-- Equality of keys as an interface: a decision procedure, and the Boolean test that it gives.
use Prim.Native.Nat.{ℕ}
use mathlib.Core.Path.{◌≡◌, refl, sym, ap₂}
use mathlib.Core.Logic.{◌↔◌, ◌≢◌}
use mathlib.Core.Bool.{Bool, true, false}
use mathlib.Core.List.{List, [], ◌∷◌}
use native.Mathlib.Omega.{arith}
use native.Mathlib.Decide.{ℕ_discrete}

pub record Eq {ℓ} (A : Type ℓ) : Type ℓ where
  pub dec : Discrete A

infix 50 ◌==◌
abbrev pub ◌==◌ {ℓ} : {A : Type ℓ} ⦃e : Eq A⦄ → A → A → Bool
◌==◌ ⦃e⦄ a b = elim (e.dec a b) [ yes _ ↦ true | no _ ↦ false ]

instance abbrev pub nat_eq : Eq ℕ
nat_eq = record { dec = ℕ_discrete }

pub cons-ne_head {ℓ} : {A : Type ℓ} {x y : A} {xs ys : List A} → x ≢ y → x ∷ xs ≢ y ∷ ys
cons-ne_head h e = h (cc)

pub cons-ne_tail {ℓ} : {A : Type ℓ} {x y : A} {xs ys : List A} → xs ≢ ys → x ∷ xs ≢ y ∷ ys
cons-ne_tail h e = h (cc)

pub cons-ne-nil {ℓ} : {A : Type ℓ} {x : A} {xs : List A} → x ∷ xs ≢ []
cons-ne-nil e = cc

unfoldable pub list_discrete {ℓ} : {A : Type ℓ} ⦃e : Eq A⦄ → Discrete (List A)
list_discrete [] [] = yes refl
list_discrete [] (y ∷ ys) = no (λ h. cons-ne-nil (sym h))
list_discrete (x ∷ xs) [] = no cons-ne-nil
list_discrete ⦃e⦄ (x ∷ xs) (y ∷ ys) = elim (e.dec x y) [
  | no n ↦ no (cons-ne_head n)
  | yes p ↦ elim (list_discrete xs ys) [ no n ↦ no (cons-ne_tail n) | yes q ↦ yes (ap₂ ◌∷◌ p q) ]
]

instance abbrev pub list_eq {ℓ} : {A : Type ℓ} ⦃e : Eq A⦄ → Eq (List A)
list_eq = record { dec = list_discrete }

module _ {ℓ} {A : Type ℓ} ⦃e : Eq A⦄ where
  pub ==_iff : (a b : A) → ((a == b) ≡ true) ↔ (a ≡ b)
  ==_iff a b = ground arith

  pub ==-refl : (a : A) → (a == a) ≡ true
  ==-refl a = (==_iff a a).1 refl
