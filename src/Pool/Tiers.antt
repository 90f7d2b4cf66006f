-- ===== src/Pool/Tiers.antt =====
-- The places of a pool and its two tiers: what stands in them.
use proxybroker_rs.Pool.Select.{SelectCtx, Slot, not_blocked, slots_from, tier_of}
use proxybroker_rs.Pool.State.{Pooled, client_key_eq, strategy_eq}
use proxybroker_rs.Prelude.{
  Bool, In, In-keep, List, [], add-zero, ap, arith, eqb-eq, eqb_refl, get_elem?, inl, inr, keep-In,
  refl, some, sub-zero, subst, subst₂, suc, sym, true, zero, zero-add, ℕ, ◌+◌, ◌-◌, ◌∷◌, ◌≡◌, ◌≤◌,
}
use proxybroker_rs.Proxy.Measures.{serves}

module _ {F : Type 0} where
  -- A slot holds what stands at its place.
  pub In-slots_from :
      (k i : ℕ) (p : Pooled F) (ps : List (Pooled F))
      → In (i, p) (slots_from k ps)
      → (k ≤ i) × (get_elem? ps (i - k) ≡ some p)
  unfolding slots_from
  In-slots_from k i p [] m = absurd m
  In-slots_from k i p (q ∷ ps) (inl e) =
      let at_k : i ≡ k = ap (λ (s : Slot F). s.0) e in
      let same : p ≡ q = ap (λ (s : Slot F). s.1) e in
      let first : 0 ≡ i - k = omega arith in
      (
        omega arith,
        subst₂ (λ (n : ℕ) (r : Pooled F). get_elem? (q ∷ ps) n ≡ some r) first (sym same) refl,
      )
  In-slots_from k i p (q ∷ ps) (inr m) =
      let (le, e) = In-slots_from (suc k) i p ps m in
      let later : suc (i - suc k) ≡ i - k = omega arith in
      (omega arith, subst (λ (n : ℕ). get_elem? (q ∷ ps) n ≡ some p) later e)

  pub slots_from-In :
      (k i : ℕ) (p : Pooled F) (ps : List (Pooled F))
      → get_elem? ps i ≡ some p
      → In (k + i, p) (slots_from k ps)
  unfolding slots_from
  slots_from-In k i p [] e = cc
  slots_from-In k zero p (q ∷ ps) e = inl (cc (add-zero k))
  slots_from-In k (suc i) p (q ∷ ps) e =
      let later : suc k + i ≡ k + suc i = omega arith in
      inr (
        subst (λ (n : ℕ). In (n, p) (slots_from (suc k) ps)) later (slots_from-In (suc k) i p ps e))

  -- What a tier holds: places of the pool, fit for the scheme, blocked or not.
  pub record IsInTier (pool : List (Pooled F)) (ctx : SelectCtx) (unblocked : Bool) (s : Slot F)
      : Type 0 where
    pub placed : get_elem? pool s.0 ≡ some s.1
    pub serving : serves ctx.scheme s.1.proxy ≡ true
    pub bench : not_blocked s.1.blocked_until ctx.now ≡ unblocked

  pub tier_of-IsInTier :
      (pool : List (Pooled F)) (ctx : SelectCtx) (u : Bool) (s : Slot F)
      → In s (tier_of pool ctx u)
      → IsInTier pool ctx u s
  unfolding tier_of
  tier_of-IsInTier pool ctx u (i, p) m =
      let (m1, bench) = In-keep {A = Slot F} _ (i, p) _ m in
      let (m2, serving) = In-keep {A = Slot F} _ (i, p) _ m1 in
      record {
        placed =
            subst (λ (n : ℕ). get_elem? pool n ≡ some p) (sub-zero i)
              (In-slots_from 0 i p pool m2).1;
        serving = serving;
        bench = eqb-eq _ _ bench;
      }

  pub IsInTier-tier_of :
      (pool : List (Pooled F)) (ctx : SelectCtx) (u : Bool) (s : Slot F)
      → IsInTier pool ctx u s
      → In s (tier_of pool ctx u)
  unfolding tier_of
  IsInTier-tier_of pool ctx u (i, p) h =
      let here =
        subst (λ (n : ℕ). In (n, p) (slots_from 0 pool)) (zero-add i)
          (slots_from-In 0 i p pool h.placed) in
      keep-In _ (i, p) _ (keep-In _ (i, p) _ here h.serving) (rw h.bench (eqb_refl u))
