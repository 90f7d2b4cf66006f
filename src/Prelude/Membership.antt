-- ===== src/Prelude/Membership.antt =====
-- Membership in a list, and what `swap_remove` and `remove_at` leave.
use Prim.Native.Nat.{ℕ, zero, suc, ◌<◌}
use mathlib.Core.Path.{◌≡◌, refl, sym, subst}
use mathlib.Core.Bool.{Bool, true, false}
use mathlib.Core.Logic.{◌⊎◌, inl, inr}
use mathlib.Core.List.{List, [], ◌∷◌, ◌++◌, head?, Perm}
use mathlib.Core.List.Perm
use mathlib.Core.Option.{some}
use native.Mathlib.Omega.{arith}
use proxybroker_rs.Prelude.Lists.{
  All, all_but_last, any, get_elem?, is_empty, keep, last_of, length, remove_at, swap_remove,
}
use proxybroker_rs.Prelude.Tests.{Bool-cases}

module _ {A : Type 0} where
  -- Membership by recursion, which the tactics take apart.
  abbrev pub In : A → List A → Type 0
  In a [] = ⊥
  In a (x ∷ xs) = (a ≡ x) ⊎ In a xs

  pub keep-In : (p : A → Bool) (a : A) (xs : List A) → In a xs → p a ≡ true → In a (keep p xs)
  keep-In p a [] m h = absurd m
  keep-In p a (x ∷ xs) (inl e) h = ground arith
  keep-In p a (x ∷ xs) (inr m) h = ground (arith, keep-In p a xs m h)

  pub In-keep : (p : A → Bool) (a : A) (xs : List A) → In a (keep p xs) → In a xs × (p a ≡ true)
  In-keep p a [] m = absurd m
  In-keep p a (x ∷ xs) m = ground (arith, In-keep p a xs)

  pub In-All {κ} : (P : A → Type κ) (a : A) (xs : List A) → All P xs → In a xs → P a
  In-All P a [] h m = absurd m
  In-All P a (x ∷ xs) h (inl e) = subst P (sym e) h.0
  In-All P a (x ∷ xs) h (inr m) = In-All P a xs h.1 m

  pub All-In {κ} : (P : A → Type κ) (xs : List A) → ((a : A) → In a xs → P a) → All P xs
  All-In P [] h = tt
  All-In P (x ∷ xs) h = (h x (inl refl), All-In P xs λ a m. h a (inr m))

  pub In-append_left : (a : A) (xs ys : List A) → In a xs → In a (xs ++ ys)
  In-append_left a [] ys m = absurd m
  In-append_left a (x ∷ xs) ys (inl e) = inl e
  In-append_left a (x ∷ xs) ys (inr m) = inr (In-append_left a xs ys m)

  pub In-append_right : (a : A) (xs ys : List A) → In a ys → In a (xs ++ ys)
  In-append_right a [] ys m = m
  In-append_right a (x ∷ xs) ys m = inr (In-append_right a xs ys m)

  pub In-append : (a : A) (xs ys : List A) → In a (xs ++ ys) → In a xs ⊎ In a ys
  In-append a [] ys m = inr m
  In-append a (x ∷ xs) ys (inl e) = inl (inl e)
  In-append a (x ∷ xs) ys (inr m) = ground (arith, In-append a xs ys m)

  pub In-any : (p : A → Bool) (a : A) (xs : List A) → In a xs → p a ≡ true → any p xs ≡ true
  In-any p a [] m h = absurd m
  In-any p a (x ∷ xs) (inl e) h = ground arith
  In-any p a (x ∷ xs) (inr m) h = ground (arith, In-any p a xs m h)

  pub any-In : (p : A → Bool) (xs : List A) → any p xs ≡ true → (a : A) × In a xs × (p a ≡ true)
  any-In p [] h = cc
  any-In p (x ∷ xs) h = elim (Bool-cases (p x)) [
    | inl e ↦ (x, inl refl, e)
    | inr e ↦ let (a, m, k) = any-In p xs (rw e at h) in (a, inr m, k)
  ]

  pub In-nonempty : (a : A) (xs : List A) → In a xs → is_empty xs ≡ false
  In-nonempty a [] m = absurd m
  In-nonempty a (x ∷ xs) m = refl

  pub nonempty-In : (xs : List A) → is_empty xs ≡ false → (a : A) × In a xs
  nonempty-In [] h = cc
  nonempty-In (x ∷ xs) h = (x, inl refl)

  pub empty_no-In : (a : A) (xs : List A) → is_empty xs ≡ true → ¬ In a xs
  empty_no-In a [] h m = m
  empty_no-In a (x ∷ xs) h m = cc

  pub length-pos : (xs : List A) → is_empty xs ≡ false → 0 < length xs
  length-pos [] h = cc
  length-pos (x ∷ xs) h = omega arith

  pub In-head? : (a : A) (xs : List A) → head? xs ≡ some a → In a xs
  In-head? a [] e = cc
  In-head? a (x ∷ xs) e = inl (ground arith)

  pub In-get_elem? : (a : A) (xs : List A) (i : ℕ) → get_elem? xs i ≡ some a → In a xs
  In-get_elem? a (x ∷ xs) zero e = inl (ground arith)
  In-get_elem? a (x ∷ xs) (suc i) e = inr (In-get_elem? a xs i e)
  In-get_elem? a [] i e = cc

  pub get_elem?-lt : (xs : List A) (i : ℕ) → i < length xs → (a : A) × (get_elem? xs i ≡ some a)
  get_elem?-lt (x ∷ xs) zero h = (x, refl)
  get_elem?-lt (x ∷ xs) (suc i) h = get_elem?-lt xs i (omega arith)
  get_elem?-lt [] i h = absurd (omega arith)

-- What `swap_remove` and `remove_at` leave, with the element taken out, is the list again.
module _ {A : Type 0} where
  some-eq : {x y : A} → some x ≡ some y → x ≡ y
  some-eq e = cc

  last_of-perm : (x : A) (xs : List A) → Perm (x ∷ xs) (last_of x xs ∷ all_but_last x xs)
  unfolding last_of all_but_last
  last_of-perm x [] = Perm.refl _
  last_of-perm x (y ∷ ys) =
      Perm.trans (Perm.cons x (last_of-perm y ys)) (Perm.swap (last_of y ys) x _)

  pub swap_remove-perm :
      (xs : List A) (i : ℕ) (a : A) → get_elem? xs i ≡ some a → Perm xs (a ∷ swap_remove i xs)
  unfolding swap_remove
  swap_remove-perm (x ∷ []) zero a e = subst (λ y. Perm (x ∷ []) (y ∷ [])) (some-eq e) (Perm.refl _)
  swap_remove-perm (x ∷ y ∷ ys) zero a e =
      subst (λ z. Perm (x ∷ y ∷ ys) (z ∷ last_of y ys ∷ all_but_last y ys)) (some-eq e)
        (Perm.cons x (last_of-perm y ys))
  swap_remove-perm (x ∷ xs) (suc i) a e =
      Perm.trans (Perm.cons x (swap_remove-perm xs i a e)) (Perm.swap a x _)
  swap_remove-perm [] i a e = cc

  pub remove_at-perm :
      (xs : List A) (i : ℕ) (a : A) → get_elem? xs i ≡ some a → Perm xs (a ∷ remove_at i xs)
  unfolding remove_at
  remove_at-perm (x ∷ xs) zero a e = subst (λ y. Perm (x ∷ xs) (y ∷ xs)) (some-eq e) (Perm.refl _)
  remove_at-perm (x ∷ xs) (suc i) a e =
      Perm.trans (Perm.cons x (remove_at-perm xs i a e)) (Perm.swap a x _)
  remove_at-perm [] i a e = cc
