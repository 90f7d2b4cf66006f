-- ===== src/Pool/Ranking.antt =====
-- `best_by_priority` returns a least element of its tier.
use proxybroker_rs.Float.{Float, nat_float, then_cmp}
use proxybroker_rs.Pool.Select.{Slot, best_by_priority, has_connect, is_gt, min_from, priority_cmp}
use proxybroker_rs.Prelude.{
  All, Bool, In, List, Ordering, [], ap, arith, compare, false, if◌then◌else◌, inl, inr, is_empty,
  not, refl, some, subst, sym, true, ℕ, ◌&&◌, ◌∷◌, ◌≡◌, ◌≢◌, ◌⊎◌,
}
use proxybroker_rs.Proxy.Measures.{priority}

-- The three numbers that the comparison goes by.
abbrev Key : Type 0
Key = ℕ × ℕ × ℕ

abbrev key_cmp : Key → Key → Ordering
key_cmp a b = then_cmp (then_cmp (compare a.0 b.0) (compare a.1 b.1)) (compare a.2 b.2)

key_cmp_refl : (a : Key) → key_cmp a a ≢ Ordering.gt
key_cmp_refl a = ground arith

key_cmp_trans :
    (a b c : Key)
    → key_cmp a b ≢ Ordering.gt
    → key_cmp b c ≢ Ordering.gt
    → key_cmp a c ≢ Ordering.gt
key_cmp_trans a b c h k = ground arith

key_cmp-flip : (a b : Key) → key_cmp a b ≡ Ordering.gt → key_cmp b a ≢ Ordering.gt
key_cmp-flip a b h = ground arith

is_gt-cases :
    (o : Ordering)
    → ((is_gt o ≡ true) × (o ≡ Ordering.gt)) ⊎ ((is_gt o ≡ false) × (o ≢ Ordering.gt))
is_gt-cases o = ground arith

module _ {F : Type 0} ⦃f : Float F⦄ where
  abbrev key_of : Bool → Slot F → Key
  key_of prefer s = (
    f.total_key (priority s.1.proxy).0,
    f.total_key (priority s.1.proxy).1,
    if prefer && not (has_connect s) then 1 else 0,
  )

  -- `a` comes no later than `b` in the order of the pool.
  abbrev pub NoWorse : Bool → Slot F → Slot F → Type 0
  NoWorse prefer a b = priority_cmp prefer a b ≢ Ordering.gt

  pub NoWorse-refl : (prefer : Bool) (a : Slot F) → NoWorse prefer a a
  unfolding priority_cmp
  NoWorse-refl prefer a = key_cmp_refl (key_of prefer a)

  pub NoWorse-trans :
      (prefer : Bool) (a b c : Slot F)
      → NoWorse prefer a b
      → NoWorse prefer b c
      → NoWorse prefer a c
  unfolding priority_cmp
  NoWorse-trans prefer a b c = key_cmp_trans (key_of prefer a) (key_of prefer b) (key_of prefer c)

  NoWorse-flip :
      (prefer : Bool) (a b : Slot F) → priority_cmp prefer a b ≡ Ordering.gt → NoWorse prefer b a
  unfolding priority_cmp
  NoWorse-flip prefer a b = key_cmp-flip (key_of prefer a) (key_of prefer b)

  -- The loop keeps the newcomer exactly when it is better.
  min_from-cons :
      (prefer : Bool) (m s : Slot F) (ss : List (Slot F))
      → ((min_from prefer m (s ∷ ss) ≡ min_from prefer s ss)
          × (priority_cmp prefer m s ≡ Ordering.gt))
        ⊎ ((min_from prefer m (s ∷ ss) ≡ min_from prefer m ss) × NoWorse prefer m s)
  unfolding min_from
  min_from-cons prefer m s ss = elim (is_gt-cases (priority_cmp prefer m s)) [
    | inl (e, gt) ↦ inl (ap (λ (b : Bool). min_from prefer (if b then s else m) ss) e, gt)
    | inr (e, ng) ↦ inr (ap (λ (b : Bool). min_from prefer (if b then s else m) ss) e, ng)
  ]

  min_from-In :
      (prefer : Bool) (m : Slot F) (ss : List (Slot F)) → In (min_from prefer m ss) (m ∷ ss)
  min_from-In prefer m [] = unfold min_from in inl refl
  min_from-In prefer m (s ∷ ss) = elim (min_from-cons prefer m s ss) [
    | inl (e, _) ↦ subst (λ (x : Slot F). In x (m ∷ s ∷ ss)) (sym e) (inr (min_from-In prefer s ss))
    | inr (e, _) ↦
        subst (λ (x : Slot F). In x (m ∷ s ∷ ss)) (sym e) (skip_second (min_from-In prefer m ss))
  ]
    where
      skip_second : {x : Slot F} → In x (m ∷ ss) → In x (m ∷ s ∷ ss)
      skip_second (inl e) = inl e
      skip_second (inr i) = inr (inr i)

  -- `x` comes no later than any element of the list.
  abbrev pub IsLeast : Bool → List (Slot F) → Slot F → Type 0
  IsLeast prefer ss x = All (NoWorse prefer x) ss

  min_from-IsLeast :
      (prefer : Bool) (m : Slot F) (ss : List (Slot F))
      → IsLeast prefer (m ∷ ss) (min_from prefer m ss)
  min_from-IsLeast prefer m [] = unfold min_from in (NoWorse-refl prefer m, tt)
  min_from-IsLeast prefer m (s ∷ ss) = elim (min_from-cons prefer m s ss) [
    | inl (e, gt) ↦
        let (le, rest) = min_from-IsLeast prefer s ss in
        subst (IsLeast prefer (m ∷ s ∷ ss)) (sym e)
          (NoWorse-trans prefer _ s m le (NoWorse-flip prefer m s gt), (le, rest))
    | inr (e, ng) ↦
        let (le, rest) = min_from-IsLeast prefer m ss in
        subst (IsLeast prefer (m ∷ s ∷ ss)) (sym e) (le, (NoWorse-trans prefer _ m s le ng, rest))
  ]

  pub best_by_priority-In :
      (tier : List (Slot F)) (prefer : Bool) (s : Slot F)
      → best_by_priority tier prefer ≡ some s
      → In s tier
  unfolding best_by_priority
  best_by_priority-In [] prefer s e = cc
  best_by_priority-In (t ∷ ts) prefer s e =
      subst (λ (x : Slot F). In x (t ∷ ts)) (cc) (min_from-In prefer t ts)

  pub best_by_priority-IsLeast :
      (tier : List (Slot F)) (prefer : Bool) (s : Slot F)
      → best_by_priority tier prefer ≡ some s
      → IsLeast prefer tier s
  unfolding best_by_priority
  best_by_priority-IsLeast [] prefer s e = tt
  best_by_priority-IsLeast (t ∷ ts) prefer s e =
      subst (IsLeast prefer (t ∷ ts)) (cc) (min_from-IsLeast prefer t ts)

  pub best_by_priority-some :
      (tier : List (Slot F)) (prefer : Bool)
      → is_empty tier ≡ false
      → (s : Slot F) × (best_by_priority tier prefer ≡ some s)
  unfolding best_by_priority
  best_by_priority-some [] prefer h = cc
  best_by_priority-some (t ∷ ts) prefer h = (min_from prefer t ts, refl)
