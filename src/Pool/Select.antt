-- ===== src/Pool/Select.antt =====
-- src/server.rs: which pooled proxy serves a request, `best_for` and what it calls.
use proxybroker_rs.Float.{Float, nat_float, then_cmp, total_cmp}
use proxybroker_rs.Net.{Addr, addr_eq, ip_eq}
use proxybroker_rs.Pool.State.{Pooled, Strategy, addr_in, client_key_eq, strategy_eq, u64_mod}
use proxybroker_rs.Prelude.{
  Bool, List, Option, Ordering, [], bit_xor, compare, eqb, false, get_elem?, head?, if◌then◌else◌,
  is_empty, keep, leb, length, max, none, not, some, suc, true, ℕ, ◌%◌, ◌&&◌, ◌*◌, ◌/◌, ◌^◌, ◌∷◌,
}
use proxybroker_rs.Prelude.Equality.{list_eq, nat_eq, ◌==◌}
use proxybroker_rs.Proxy.Measures.{has_type, priority, serves}
use proxybroker_rs.Types.Proto.{Proto, proto_eq, proto_ranked}
use proxybroker_rs.Types.Scheme.{Scheme, scheme_eq}

-- A place in the pool, with what stands there.
abbrev pub Slot : Type 0 → Type 0
Slot F = ℕ × Pooled F

pub record SelectCtx : Type 0 where
  pub scheme : Scheme
  pub strategy : Strategy
  pub sticky : Option Addr
  pub round_robin_cursor : ℕ
  pub now : ℕ
  pub prefer_connect : Bool

-- `next_rand`: the new state and the pick.
unfoldable pub xorshift : ℕ → ℕ
xorshift x =
    let a = bit_xor x (x * 2 ^ 13 % u64_mod) in
    let b = bit_xor a (a / 2 ^ 7) in bit_xor b (b * 2 ^ 17 % u64_mod)

unfoldable pub next_rand : ℕ → ℕ → ℕ × ℕ
unfolding xorshift
next_rand state n = (xorshift state, xorshift state % max n 1)

abbrev pub not_blocked : Option ℕ → ℕ → Bool
not_blocked none now = true
not_blocked (some t) now = leb t now

abbrev pub is_gt : Ordering → Bool
is_gt Ordering.gt = true
is_gt _ = false

module _ {F : Type 0} where
  -- `iter().enumerate()`.
  unfoldable pub slots_from : ℕ → List (Pooled F) → List (Slot F)
  slots_from i [] = []
  slots_from i (p ∷ ps) = (i, p) ∷ slots_from (suc i) ps

  unfoldable pub tier_of : List (Pooled F) → SelectCtx → Bool → List (Slot F)
  unfolding slots_from
  tier_of pool ctx unblocked =
      keep (λ s. eqb (not_blocked s.1.blocked_until ctx.now) unblocked)
        (keep (λ s. serves ctx.scheme s.1.proxy) (slots_from 0 pool))

  unfoldable pub has_connect : Slot F → Bool
  has_connect s = has_type Proto.connect80 s.1.proxy

  unfoldable pub connect_biased : List (Slot F) → Bool → List (Slot F)
  connect_biased tier prefer =
      if not prefer
      then tier
      else let connect = keep has_connect tier in if is_empty connect then tier else connect

  abbrev pub first_at : Option Addr → List (Slot F) → Option (Slot F)
  first_at none tier = none
  first_at (some addr) tier = head? (keep (λ s. addr_in s.1 == addr) tier)

module _ {F : Type 0} ⦃f : Float F⦄ where
  -- The comparison of `best_by_priority`: `CONNECT:80` breaks a tie in health.
  unfoldable pub priority_cmp : Bool → Slot F → Slot F → Ordering
  priority_cmp prefer a b =
      let health = λ (s : Slot F). priority s.1.proxy in
      let lacks = λ (s : Slot F). if prefer && not (has_connect s) then 1 else 0 in
      then_cmp
        (then_cmp (total_cmp (health a).0 (health b).0) (total_cmp (health a).1 (health b).1))
        (compare (lacks a) (lacks b))

  -- `min_by`: the first of several least elements.
  unfoldable pub min_from : Bool → Slot F → List (Slot F) → Slot F
  unfolding priority_cmp
  min_from prefer m [] = m
  min_from prefer m (s ∷ ss) = min_from prefer (if is_gt (priority_cmp prefer m s) then s else m) ss

  unfoldable pub best_by_priority : List (Slot F) → Bool → Option (Slot F)
  unfolding min_from
  best_by_priority [] prefer = none
  best_by_priority (s ∷ ss) prefer = some (min_from prefer s ss)

  abbrev pub or_else : Option (Slot F) → Option (Slot F) → Option (Slot F)
  or_else none o = o
  or_else (some s) o = some s

  -- The `match` on the strategy, with the state of the generator.
  unfoldable pub pick : Strategy → SelectCtx → List (Slot F) → ℕ → Option (Slot F) × ℕ
  unfolding best_by_priority connect_biased next_rand
  pick Strategy.best ctx tier rng = (best_by_priority tier ctx.prefer_connect, rng)
  pick Strategy.round_robin ctx tier rng =
      let choice = connect_biased tier ctx.prefer_connect in
      (get_elem? choice (ctx.round_robin_cursor % length choice), rng)
  pick Strategy.random ctx tier rng =
      let choice = connect_biased tier ctx.prefer_connect in
      let (rng', i) = next_rand rng (length choice) in (get_elem? choice i, rng')
  pick Strategy.sticky ctx tier rng =
      (or_else (first_at ctx.sticky tier) (best_by_priority tier ctx.prefer_connect), rng)

  unfoldable pub tier_for : List (Pooled F) → SelectCtx → List (Slot F)
  unfolding tier_of
  tier_for pool ctx =
      let ready_tier = tier_of pool ctx true in
      let benched = tier_of pool ctx false in if is_empty ready_tier then benched else ready_tier

  unfoldable pub best_for : List (Pooled F) → SelectCtx → ℕ → Option (Slot F) × ℕ
  unfolding tier_for pick
  best_for pool ctx rng =
      let tier = tier_for pool ctx in
      if is_empty tier then (none, rng) else pick ctx.strategy ctx tier rng
