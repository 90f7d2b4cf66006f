-- ===== src/Text/Places.antt =====
-- What the place of the first occurrence of a text says.
use proxybroker_rs.Prelude.{
  Bool-cases, Option, [], ap, arith, drop, false, inl, inr, length, none, refl, some, subst, suc,
  sym, take, true, zero, ℕ, ◌++◌, ◌+◌, ◌∙◌, ◌∷◌, ◌≡◌,
}
use proxybroker_rs.Prelude.Equality.{==_iff, list_eq, nat_eq}
use proxybroker_rs.Text.Base.{Text, starts_with}
use proxybroker_rs.Text.Search.{after_one, contains, position}

after_one-some :
    (o : Option ℕ) (i : ℕ) → after_one o ≡ some i → (k : ℕ) × (o ≡ some k) × (i ≡ suc k)
after_one-some none i e = cc e
after_one-some (some k) i e = (k, refl, cc e)

starts_with-parts :
    (needle s : Text) → starts_with needle s ≡ true → s ≡ needle ++ drop (length needle) s
unfolding starts_with
starts_with-parts [] s h = refl
starts_with-parts (a ∷ needle) [] h = cc h
starts_with-parts (a ∷ needle) (c ∷ s) h = ground (arith, starts_with-parts needle s, ==_iff a c)

starts_with-take :
    (needle s : Text) (i : ℕ) → starts_with needle (take i s) ≡ true → starts_with needle s ≡ true
unfolding starts_with
starts_with-take [] s i h = refl
starts_with-take (a ∷ needle) [] zero h = cc h
starts_with-take (a ∷ needle) [] (suc i) h = cc h
starts_with-take (a ∷ needle) (c ∷ s) zero h = cc h
starts_with-take (a ∷ needle) (c ∷ s) (suc i) h = ground (arith, starts_with-take needle s i, h)

-- The text stands at its place.
pub position-parts :
    (needle s : Text) (i : ℕ)
    → position needle s ≡ some i
    → s ≡ take i s ++ needle ++ drop (length needle) (drop i s)
unfolding position
position-parts needle [] i h = elim (Bool-cases (starts_with needle [])) [
  | inl found ↦ ground (arith, h, found, starts_with-parts needle [] found)
  | inr missing ↦ ground (arith, h, missing)
]
position-parts needle (c ∷ s) i h = elim (Bool-cases (starts_with needle (c ∷ s))) [
  | inl found ↦
      let at_start = some-injective 0 i (rw found at h) in
      subst (λ (k : ℕ). c ∷ s ≡ take k (c ∷ s) ++ needle ++ drop (length needle) (drop k (c ∷ s)))
        at_start (starts_with-parts needle (c ∷ s) found)
  | inr missing ↦
      let (k, later, same) = after_one-some (position needle s) i (rw missing at h) in
      subst (λ (n : ℕ). c ∷ s ≡ take n (c ∷ s) ++ needle ++ drop (length needle) (drop n (c ∷ s)))
        (sym same) (ap (λ (r : Text). c ∷ r) (position-parts needle s k later))
]
  where
    some-injective : (m n : ℕ) → ◌≡◌ {A = Option ℕ} (some m) (some n) → m ≡ n
    some-injective m n e = cc e

-- And nowhere before it.
pub position-first :
    (a : ℕ) (needle s : Text) (i : ℕ)
    → position (a ∷ needle) s ≡ some i
    → contains (a ∷ needle) (take i s) ≡ false
unfolding position contains starts_with
position-first a needle [] i h = cc h
position-first a needle (c ∷ s) i h = elim (Bool-cases (starts_with (a ∷ needle) (c ∷ s))) [
  | inl found ↦ ground (arith, h, found)
  | inr missing ↦
      let (k, later, same) = after_one-some (position (a ∷ needle) s) i (rw missing at h) in
      let earlier = starts_with-take (a ∷ needle) (c ∷ s) (suc k) in
      let rest = position-first a needle s k later in
      rw same (ground (arith, earlier, missing, rest))
]

drop-nil : (n : ℕ) → drop {A = ℕ} n [] ≡ []
drop-nil zero = refl
drop-nil (suc n) = refl

suc_left : (i n : ℕ) → suc (i + n) ≡ suc i + n
suc_left i n = omega arith

pub drop-drop : (n i : ℕ) (s : Text) → drop n (drop i s) ≡ drop (i + n) s
drop-drop n zero s = ground arith
drop-drop n (suc i) [] = drop-nil n ∙ sym (drop-nil (suc i + n))
drop-drop n (suc i) (c ∷ s) = drop-drop n i s ∙ ap (λ (m : ℕ). drop m (c ∷ s)) (suc_left i n)
