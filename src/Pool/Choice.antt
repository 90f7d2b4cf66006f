-- ===== src/Pool/Choice.antt =====
-- What `best_for` chooses, for every strategy: a slot of the right tier, whenever there is one.
use proxybroker_rs.Float.{Float, nat_float}
use proxybroker_rs.Net.{Addr, addr_eq, ip_eq}
use proxybroker_rs.Pool.Ranking.{best_by_priority-In, best_by_priority-some}
use proxybroker_rs.Pool.Select.{
  SelectCtx, Slot, best_by_priority, connect_biased, first_at, has_connect, next_rand, or_else,
  pick,
}
use proxybroker_rs.Pool.State.{Strategy, client_key_eq, strategy_eq}
use proxybroker_rs.Prelude.{
  Bool, Bool-cases, In, In-get_elem?, In-head?, In-keep, In-nonempty, List, Option, Option-cases,
  ap, arith, false, get_elem?-lt, if◌then◌else◌, inl, inr, is_empty, keep, keep-In, length,
  length-pos, none, some, subst, sym, true, ℕ, ◌%◌, ◌<◌, ◌∙◌, ◌≡◌,
}

next_rand-lt : (rng n : ℕ) → 0 < n → (next_rand rng n).1 < n
unfolding next_rand
next_rand-lt rng n h = grind arith

module _ {F : Type 0} where
  connect_biased-In :
      (tier : List (Slot F)) (prefer : Bool) (s : Slot F)
      → In s (connect_biased tier prefer)
      → In s tier
  unfolding connect_biased
  connect_biased-In tier false s m = m
  connect_biased-In tier true s m = elim (Bool-cases (is_empty (keep has_connect tier))) [
    | inl e ↦ subst (λ (b : Bool). In s (if b then tier else keep has_connect tier)) e m
    | inr e ↦
        (In-keep has_connect s tier
          (subst (λ (b : Bool). In s (if b then tier else keep has_connect tier)) e m)).0
  ]

  connect_biased-nonempty :
      (tier : List (Slot F)) (prefer : Bool)
      → is_empty tier ≡ false
      → is_empty (connect_biased tier prefer) ≡ false
  unfolding connect_biased
  connect_biased-nonempty tier false h = h
  connect_biased-nonempty tier true h = ground arith

  -- With the preference set, the narrowed tier holds `CONNECT:80` proxies only, if there are any.
  pub connect_biased-has_connect :
      (tier : List (Slot F)) (s t : Slot F)
      → In s (connect_biased tier true)
      → In t tier
      → has_connect t ≡ true
      → has_connect s ≡ true
  unfolding connect_biased
  connect_biased-has_connect tier s t m mt h =
      let some_connect = In-nonempty t _ (keep-In has_connect t tier mt h) in
      (In-keep has_connect s tier
        (subst (λ (b : Bool). In s (if b then tier else keep has_connect tier)) some_connect m)).1

module _ {F : Type 0} ⦃f : Float F⦄ where
  pub pick-In :
      (st : Strategy) (ctx : SelectCtx) (tier : List (Slot F)) (rng : ℕ) (s : Slot F)
      → (pick st ctx tier rng).0 ≡ some s
      → In s tier
  unfolding pick
  pick-In Strategy.best ctx tier rng s e = best_by_priority-In tier ctx.prefer_connect s e
  pick-In Strategy.round_robin ctx tier rng s e =
      connect_biased-In tier ctx.prefer_connect s (In-get_elem? s _ _ e)
  pick-In Strategy.random ctx tier rng s e =
      connect_biased-In tier ctx.prefer_connect s (In-get_elem? s _ _ e)
  pick-In Strategy.sticky ctx tier rng s e = elim (Option-cases (first_at ctx.sticky tier)) [
    | inl e0 ↦ best_by_priority-In tier ctx.prefer_connect s (
        ap (λ (o : Option (Slot F)). or_else o (best_by_priority tier ctx.prefer_connect)) (sym e0)
        ∙ e)
    | inr (t, e0) ↦ pinned-In ctx.sticky tier s (
        e0
        ∙ sym
            (ap (λ (o : Option (Slot F)). or_else o (best_by_priority tier ctx.prefer_connect)) e0)
        ∙ e)
  ]
    where
      pinned-In :
          (o : Option Addr) (tier : List (Slot F)) (s : Slot F)
          → first_at o tier ≡ some s
          → In s tier
      pinned-In none tier s e = cc
      pinned-In (some a) tier s e = (In-keep _ s tier (In-head? s _ e)).0

  pub pick-some :
      (st : Strategy) (ctx : SelectCtx) (tier : List (Slot F)) (rng : ℕ)
      → is_empty tier ≡ false
      → (s : Slot F) × ((pick st ctx tier rng).0 ≡ some s)
  unfolding pick
  pick-some Strategy.best ctx tier rng h = best_by_priority-some tier ctx.prefer_connect h
  pick-some Strategy.round_robin ctx tier rng h =
      let choice = connect_biased tier ctx.prefer_connect in
      let pos = length-pos choice (connect_biased-nonempty tier ctx.prefer_connect h) in
      get_elem?-lt choice (ctx.round_robin_cursor % length choice) (grind arith)
  pick-some Strategy.random ctx tier rng h =
      let choice = connect_biased tier ctx.prefer_connect in
      let pos = length-pos choice (connect_biased-nonempty tier ctx.prefer_connect h) in
      get_elem?-lt choice (next_rand rng (length choice)).1 (next_rand-lt rng (length choice) pos)
  pick-some Strategy.sticky ctx tier rng h =
      let (s, e) = best_by_priority-some tier ctx.prefer_connect h in
      elim (Option-cases (first_at ctx.sticky tier)) [
        | inl e0 ↦ (s, rw e0 e)
        | inr (t, e0) ↦ (t, rw e0)
      ]
