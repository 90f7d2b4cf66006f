-- ===== src/Pool/BestFor.antt =====
-- `best_for`: the tier that it serves from, and what each strategy promises within the tier.
use proxybroker_rs.Float.{Float, nat_float}
use proxybroker_rs.Pool.Choice.{pick-In, pick-some}
use proxybroker_rs.Pool.Select.{SelectCtx, Slot, best_for, not_blocked, pick, tier_for, tier_of}
use proxybroker_rs.Pool.State.{Pooled, client_key_eq, strategy_eq}
use proxybroker_rs.Pool.Tiers.{IsInTier-tier_of, tier_of-IsInTier}
use proxybroker_rs.Prelude.{
  Bool, Bool-cases, In, List, Option, ap, empty_no-In, false, get_elem?, inl, inr, is_empty, none,
  nonempty-In, some, subst, sym, true, ℕ, ◌↔◌, ◌∙◌, ◌≡◌, ◌≢◌, ◌⊎◌,
}
use proxybroker_rs.Proxy.Measures.{serves}

module _ {F : Type 0} ⦃f : Float F⦄ where
  -- A place that can serve the request at all.
  pub record IsEligible (pool : List (Pooled F)) (ctx : SelectCtx) (s : Slot F) : Type 0 where
    pub placed : get_elem? pool s.0 ≡ some s.1
    pub serving : serves ctx.scheme s.1.proxy ≡ true

  abbrev pub is_ready_at : SelectCtx → Slot F → Bool
  is_ready_at ctx s = not_blocked s.1.blocked_until ctx.now

  -- The slot may serve now, or else no eligible slot may.
  abbrev pub IsFirstTier : List (Pooled F) → SelectCtx → Slot F → Type 0
  IsFirstTier pool ctx s =
      (is_ready_at ctx s ≡ true)
      ⊎ ((t : Slot F) → IsEligible pool ctx t → is_ready_at ctx t ≡ false)

  tier_for-cases :
      (pool : List (Pooled F)) (ctx : SelectCtx)
      → ((tier_for pool ctx ≡ tier_of pool ctx true) × (is_empty (tier_of pool ctx true) ≡ false))
        ⊎ ((tier_for pool ctx ≡ tier_of pool ctx false) × (is_empty (tier_of pool ctx true) ≡ true))
  unfolding tier_for
  tier_for-cases pool ctx = elim (Bool-cases (is_empty (tier_of pool ctx true))) [
    | inl e ↦ inr (rw e, e)
    | inr e ↦ inl (rw e, e)
  ]

  ready_none :
      (pool : List (Pooled F)) (ctx : SelectCtx) (t : Slot F)
      → is_empty (tier_of pool ctx true) ≡ true
      → IsEligible pool ctx t
      → is_ready_at ctx t ≡ false
  ready_none pool ctx t h el = elim (Bool-cases (is_ready_at ctx t)) [
    | inl r ↦ absurd (
        empty_no-In t _ h (
          IsInTier-tier_of pool ctx true t
            (record { placed = el.placed; serving = el.serving; bench = r })))
    | inr r ↦ r
  ]

  tier_for-In :
      (pool : List (Pooled F)) (ctx : SelectCtx) (s : Slot F)
      → In s (tier_for pool ctx)
      → IsEligible pool ctx s × IsFirstTier pool ctx s
  tier_for-In pool ctx s m = elim (tier_for-cases pool ctx) [
    | inl (e, _) ↦
        let h = tier_of-IsInTier pool ctx true s (subst (In s) e m) in
        (record { placed = h.placed; serving = h.serving }, inl h.bench)
    | inr (e, none_ready) ↦
        let h = tier_of-IsInTier pool ctx false s (subst (In s) e m) in
        (
          record { placed = h.placed; serving = h.serving },
          inr λ t el. ready_none pool ctx t none_ready el,
        )
  ]

  -- An eligible slot stands in the tier if it is ready, or if no other is.
  pub In-tier_for :
      (pool : List (Pooled F)) (ctx : SelectCtx) (s : Slot F)
      → IsEligible pool ctx s
      → IsFirstTier pool ctx s
      → In s (tier_for pool ctx)
  In-tier_for pool ctx s el first = elim (tier_for-cases pool ctx) [
    | inl (e, some_ready) ↦ subst (In s) (sym e) (ready_In first (nonempty-In _ some_ready))
    | inr (e, none_ready) ↦ subst (In s) (sym e) (
        IsInTier-tier_of pool ctx false s (record {
          placed = el.placed;
          serving = el.serving;
          bench = ready_none pool ctx s none_ready el;
        }))
  ]
    where
      true-ne-false : true ≢ false
      true-ne-false e = cc

      ready_In :
          IsFirstTier pool ctx s
          → (t : Slot F) × In t (tier_of pool ctx true)
          → In s (tier_of pool ctx true)
      ready_In (inl r) _ =
          IsInTier-tier_of pool ctx true s
            (record { placed = el.placed; serving = el.serving; bench = r })
      ready_In (inr blocked) (t, m) =
          let h = tier_of-IsInTier pool ctx true t m in
          let no_t = blocked t (record { placed = h.placed; serving = h.serving }) in
          absurd (true-ne-false (sym h.bench ∙ no_t))

  best_for-cases :
      (pool : List (Pooled F)) (ctx : SelectCtx) (rng : ℕ)
      → ((is_empty (tier_for pool ctx) ≡ true) × ((best_for pool ctx rng).0 ≡ none))
        ⊎ ((is_empty (tier_for pool ctx) ≡ false)
            × (best_for pool ctx rng ≡ pick ctx.strategy ctx (tier_for pool ctx) rng))
  unfolding best_for
  best_for-cases pool ctx rng = elim (Bool-cases (is_empty (tier_for pool ctx))) [
    | inl e ↦ inl (e, rw e)
    | inr e ↦ inr (e, rw e)
  ]

  pub best_for-pick :
      (pool : List (Pooled F)) (ctx : SelectCtx) (rng : ℕ) (s : Slot F)
      → (best_for pool ctx rng).0 ≡ some s
      → (pick ctx.strategy ctx (tier_for pool ctx) rng).0 ≡ some s
  best_for-pick pool ctx rng s e = elim (best_for-cases pool ctx rng) [
    | inl (_, e0) ↦ cc
    | inr (_, e0) ↦ sym (ap (λ (r : Option (Slot F) × ℕ). r.0) e0) ∙ e
  ]

  pub best_for-In :
      (pool : List (Pooled F)) (ctx : SelectCtx) (rng : ℕ) (s : Slot F)
      → (best_for pool ctx rng).0 ≡ some s
      → In s (tier_for pool ctx)
  best_for-In pool ctx rng s e =
      pick-In ctx.strategy ctx (tier_for pool ctx) rng s (best_for-pick pool ctx rng s e)

  -- Whatever the strategy, the chosen slot is a place of the pool whose proxy serves the scheme,
  -- and a benched proxy is chosen only when every proxy that serves the scheme is benched.
  pub best_for_sound :
      (pool : List (Pooled F)) (ctx : SelectCtx) (rng : ℕ) (s : Slot F)
      → (best_for pool ctx rng).0 ≡ some s
      → IsEligible pool ctx s × IsFirstTier pool ctx s
  best_for_sound pool ctx rng s e = tier_for-In pool ctx s (best_for-In pool ctx rng s e)

  -- Whatever the strategy, nothing is chosen exactly when no pooled proxy serves the scheme.
  pub best_for-none_iff :
      (pool : List (Pooled F)) (ctx : SelectCtx) (rng : ℕ)
      → ((best_for pool ctx rng).0 ≡ none) ↔ ((s : Slot F) → ¬ IsEligible pool ctx s)
  best_for-none_iff pool ctx rng = (no_slot, all_unfit (best_for-cases pool ctx rng))
    where
      chosen_In : (s : Slot F) → In s (tier_for pool ctx) → (best_for pool ctx rng).0 ≡ none → ⊥
      chosen_In s m e = elim (best_for-cases pool ctx rng) [
        | inl (empty, _) ↦ empty_no-In s _ empty m
        | inr (some_tier, e0) ↦
            let (t, et) = pick-some ctx.strategy ctx (tier_for pool ctx) rng some_tier in
            cc (ap (λ (r : Option (Slot F) × ℕ). r.0) e0)
      ]

      no_slot : (best_for pool ctx rng).0 ≡ none → (s : Slot F) → ¬ IsEligible pool ctx s
      no_slot e s el = elim (tier_for-cases pool ctx) [
        | inl (e0, some_ready) ↦
            let (t, m) = nonempty-In _ some_ready in chosen_In t (subst (In t) (sym e0) m) e
        | inr (e0, none_ready) ↦
            chosen_In s
              (In-tier_for pool ctx s el (inr λ t lt. ready_none pool ctx t none_ready lt)) e
      ]

      all_unfit :
          ((is_empty (tier_for pool ctx) ≡ true) × ((best_for pool ctx rng).0 ≡ none))
            ⊎ ((is_empty (tier_for pool ctx) ≡ false)
                × (best_for pool ctx rng ≡ pick ctx.strategy ctx (tier_for pool ctx) rng))
          → ((s : Slot F) → ¬ IsEligible pool ctx s)
          → (best_for pool ctx rng).0 ≡ none
      all_unfit (inl (_, e)) h = e
      all_unfit (inr (some_tier, _)) h =
          let (t, m) = nonempty-In _ some_tier in absurd (h t (tier_for-In pool ctx t m).0)
