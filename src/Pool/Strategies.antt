-- ===== src/Pool/Strategies.antt =====
-- What each selection strategy promises among the proxies of the tier that is served from.
use proxybroker_rs.Float.{Float, nat_float}
use proxybroker_rs.Net.{Addr, addr_eq, ip_eq}
use proxybroker_rs.Pool.BestFor.{
  In-tier_for, IsEligible, IsFirstTier, best_for-pick, best_for_sound, is_ready_at,
}
use proxybroker_rs.Pool.Choice.{connect_biased-has_connect}
use proxybroker_rs.Pool.Ranking.{NoWorse, best_by_priority-IsLeast}
use proxybroker_rs.Pool.Select.{
  SelectCtx, Slot, best_by_priority, best_for, connect_biased, first_at, has_connect, or_else, pick,
  tier_for,
}
use proxybroker_rs.Pool.State.{Pooled, Strategy, addr_in, client_key_eq, strategy_eq}
use proxybroker_rs.Prelude.{
  Bool, In, In-All, In-get_elem?, In-head?, In-keep, In-nonempty, List, Option, Option-cases, [],
  ap, false, get_elem?, head?, inl, inr, is_empty, keep-In, length, none, some, subst, true, ℕ, ◌%◌,
  ◌∙◌, ◌∷◌, ◌≡◌, ◌≢◌, ◌⊎◌,
}
use proxybroker_rs.Prelude.Equality.{==_iff, list_eq, nat_eq, ◌==◌}

module _ {F : Type 0} ⦃f : Float F⦄ where
  -- An eligible slot that is ready exactly when the chosen one is stands in the same tier.
  same_tier :
      (pool : List (Pooled F)) (ctx : SelectCtx) (rng : ℕ) (s t : Slot F)
      → (best_for pool ctx rng).0 ≡ some s
      → IsEligible pool ctx t
      → is_ready_at ctx t ≡ is_ready_at ctx s
      → In t (tier_for pool ctx)
  same_tier pool ctx rng s t e el same =
      In-tier_for pool ctx t el (first (best_for_sound pool ctx rng s e).1)
    where
      first : IsFirstTier pool ctx s → IsFirstTier pool ctx t
      first (inl r) = inl (same ∙ r)
      first (inr h) = inr h

  pick_of :
      (pool : List (Pooled F)) (ctx : SelectCtx) (rng : ℕ) (st : Strategy) (s : Slot F)
      → ctx.strategy ≡ st
      → (best_for pool ctx rng).0 ≡ some s
      → (pick st ctx (tier_for pool ctx) rng).0 ≡ some s
  pick_of pool ctx rng st s is_st e =
      subst (λ (x : Strategy). (pick x ctx (tier_for pool ctx) rng).0 ≡ some s) is_st
        (best_for-pick pool ctx rng s e)

  -- Under `Best` no eligible proxy of the same readiness comes before the chosen one in the order
  -- by error rate, then response time, then `CONNECT:80` support where that is preferred.
  pub best_is_least :
      (pool : List (Pooled F)) (ctx : SelectCtx) (rng : ℕ) (s t : Slot F)
      → ctx.strategy ≡ Strategy.best
      → (best_for pool ctx rng).0 ≡ some s
      → IsEligible pool ctx t
      → is_ready_at ctx t ≡ is_ready_at ctx s
      → NoWorse ctx.prefer_connect s t
  unfolding pick
  best_is_least pool ctx rng s t is_best e el same =
      let least =
        best_by_priority-IsLeast (tier_for pool ctx) ctx.prefer_connect s
          (pick_of pool ctx rng Strategy.best s is_best e) in
      In-All (NoWorse ctx.prefer_connect s) t (tier_for pool ctx) least
        (same_tier pool ctx rng s t e el same)

  pinned_first :
      (addr : Addr) (tier : List (Slot F)) (other : Option (Slot F)) (s t : Slot F)
      → In t tier
      → addr_in t.1 ≡ addr
      → or_else (first_at (some addr) tier) other ≡ some s
      → addr_in s.1 ≡ addr
  pinned_first addr tier other s t m at e = elim (Option-cases (first_at (some addr) tier)) [
    | inl gone ↦ absurd (
        head_some _
          (In-nonempty t _ (keep-In (λ x. addr_in x.1 == addr) t tier m ((==_iff _ _).1 at))) gone)
    | inr (r, found) ↦
        let same : r ≡ s = cc (ap (λ (o : Option (Slot F)). or_else o other) found) in
        subst (λ (x : Slot F). addr_in x.1 ≡ addr) same
          ((==_iff _ _).0 (In-keep (λ x. addr_in x.1 == addr) r tier (In-head? r _ found)).1)
  ]
    where
      head_some : (xs : List (Slot F)) → is_empty xs ≡ false → head? xs ≢ none
      head_some [] h e = cc
      head_some (x ∷ xs) h e = cc

  -- Under `Sticky` a client keeps the pinned address while a proxy there is eligible and as ready
  -- as the chosen one.
  pub sticky_keeps_pin :
      (pool : List (Pooled F)) (ctx : SelectCtx) (rng : ℕ) (s t : Slot F) (addr : Addr)
      → ctx.strategy ≡ Strategy.sticky
      → ctx.sticky ≡ some addr
      → (best_for pool ctx rng).0 ≡ some s
      → IsEligible pool ctx t
      → is_ready_at ctx t ≡ is_ready_at ctx s
      → addr_in t.1 ≡ addr
      → addr_in s.1 ≡ addr
  unfolding pick
  sticky_keeps_pin pool ctx rng s t addr is_sticky pin e el same at =
      let tier = tier_for pool ctx in
      let other = best_by_priority tier ctx.prefer_connect in
      pinned_first addr tier other s t (same_tier pool ctx rng s t e el same) at (
        subst (λ (o : Option Addr). or_else (first_at o tier) other ≡ some s) pin
          (pick_of pool ctx rng Strategy.sticky s is_sticky e))

  -- Under `RoundRobin` and `Random` with `prefer_connect`, the chosen proxy has `CONNECT:80` if any
  -- eligible one of the same readiness does.
  pub connect_preferred :
      (pool : List (Pooled F)) (ctx : SelectCtx) (rng : ℕ) (s t : Slot F)
      → (ctx.strategy ≡ Strategy.round_robin) ⊎ (ctx.strategy ≡ Strategy.random)
      → ctx.prefer_connect ≡ true
      → (best_for pool ctx rng).0 ≡ some s
      → IsEligible pool ctx t
      → is_ready_at ctx t ≡ is_ready_at ctx s
      → has_connect t ≡ true
      → has_connect s ≡ true
  unfolding pick
  connect_preferred pool ctx rng s t is_st prefer e el same has =
      connect_biased-has_connect (tier_for pool ctx) s t
        (subst (λ (b : Bool). In s (connect_biased (tier_for pool ctx) b)) prefer (chosen is_st))
        (same_tier pool ctx rng s t e el same) has
    where
      chosen :
          (ctx.strategy ≡ Strategy.round_robin) ⊎ (ctx.strategy ≡ Strategy.random)
          → In s (connect_biased (tier_for pool ctx) ctx.prefer_connect)
      chosen (inl r) = In-get_elem? s _ _ (pick_of pool ctx rng Strategy.round_robin s r e)
      chosen (inr r) = In-get_elem? s _ _ (pick_of pool ctx rng Strategy.random s r e)

  -- Under `RoundRobin` without the preference, the chosen proxy is the one at the cursor, counted
  -- around the tier.
  round_robin_at_cursor :
      (pool : List (Pooled F)) (ctx : SelectCtx) (rng : ℕ) (s : Slot F)
      → ctx.strategy ≡ Strategy.round_robin
      → ctx.prefer_connect ≡ false
      → (best_for pool ctx rng).0 ≡ some s
      → let tier = tier_for pool ctx in
        get_elem? tier (ctx.round_robin_cursor % length tier) ≡ some s
  unfolding pick connect_biased
  round_robin_at_cursor pool ctx rng s is_rr plain e =
      let tier = tier_for pool ctx in
      subst
        (λ (b : Bool).
          get_elem? (connect_biased tier b)
            (ctx.round_robin_cursor % length (connect_biased tier b))
          ≡ some s)
        plain (pick_of pool ctx rng Strategy.round_robin s is_rr e)
