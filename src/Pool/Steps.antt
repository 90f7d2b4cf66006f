-- ===== src/Pool/Steps.antt =====
-- src/server.rs: checking a proxy out of the pool, `try_select`, `record_session`, `get`,
-- `try_get`, and the changes that other tasks make to a pool meanwhile.
use proxybroker_rs.Float.{Float, nat_float}
use proxybroker_rs.Maps.{HashMap, hash_get, hash_has, hash_insert, hash_remove}
use proxybroker_rs.Net.{Addr, IpAddr, addr_eq, ip_eq}
use proxybroker_rs.Pool.Select.{SelectCtx, Slot, best_by_priority, best_for, slots_from}
use proxybroker_rs.Pool.State.{
  ClientKey, Pool, Strategy, add_proxy, addr_in, client_key_eq, import_end, import_one, put_failed,
  put_ok, remove, strategy_eq, u64_mod,
}
use proxybroker_rs.Prelude.{
  Bool, List, Option, [], false, if◌then◌else◌, keep, leb, length, none, not, remove_at, some,
  swap_remove, true, ℕ, ◌%◌, ◌&&◌, ◌+◌, ◌∷◌,
}
use proxybroker_rs.Prelude.Equality.{list_eq, nat_eq, ◌==◌}
use proxybroker_rs.Proxy.Measures.{serves}
use proxybroker_rs.Proxy.Record.{Proxy}
use proxybroker_rs.Text.{Text, same_letters}
use proxybroker_rs.Types.Scheme.{Scheme, scheme_eq}

abbrev pub drop_first : HashMap ClientKey Addr → HashMap ClientKey Addr
drop_first [] = []
drop_first ((k, a) ∷ m) = hash_remove k ((k, a) ∷ m)

-- What another task does to the pool in one critical section.
pub data PoolOp (F : Type 0) : Type 0 where
  imports : Proxy F → PoolOp F
  import_ends : PoolOp F
  puts_ok : Proxy F → PoolOp F
  puts_failed : Proxy F → ℕ → PoolOp F
  adds : Proxy F → PoolOp F
  removes : IpAddr → ℕ → PoolOp F
  selects : Scheme → ClientKey → ℕ → PoolOp F

-- `keys().next()` is the key that the list begins with.
unfoldable pub pin_session : ℕ → ClientKey → Addr → HashMap ClientKey Addr → HashMap ClientKey Addr
pin_session limit key addr m =
    let evicted = leb limit (length m) && not (hash_has key m) in
    hash_insert key addr (if evicted then drop_first m else m)

module _ {F : Type 0} where
  unfoldable pub record_session : Pool F → ClientKey → Addr → Pool F
  unfolding pin_session
  record_session pool key addr = record pool {
    sessions = pin_session pool.config.max_sessions key addr pool.sessions;
  }

  -- The cursor or the session map is brought up to date.
  unfoldable pub settle : Strategy → Pool F → ClientKey → Addr → Pool F
  unfolding record_session
  settle Strategy.round_robin pool key addr = record pool { cursor = (pool.cursor + 1) % u64_mod }
  settle Strategy.sticky pool key addr = record_session pool key addr
  settle Strategy.best pool key addr = pool
  settle Strategy.random pool key addr = pool

  -- The chosen proxy leaves the pool.
  unfoldable pub take_slot : Pool F → ClientKey → Slot F → Pool F
  unfolding settle
  take_slot pool key s =
      settle pool.config.strategy (record pool { state = swap_remove s.0 pool.state }) key
        (addr_in s.1)

module _ {F : Type 0} ⦃f : Float F⦄ where
  unfoldable pub ctx_for : Pool F → Scheme → ClientKey → ℕ → SelectCtx
  ctx_for pool scheme key now = record {
    scheme = scheme;
    strategy = pool.config.strategy;
    sticky = if pool.config.strategy == Strategy.sticky then hash_get key pool.sessions else none;
    round_robin_cursor = pool.cursor;
    now = now;
    prefer_connect = pool.config.prefer_connect;
  }

  abbrev pub take_choice : Pool F → ClientKey → Option (Slot F) × ℕ → Option (Proxy F) × Pool F
  take_choice pool key (none, rng) = (none, record pool { rng = rng })
  take_choice pool key (some s, rng) = (some s.1.proxy, take_slot (record pool { rng = rng }) key s)

  unfoldable pub try_select : Pool F → Scheme → ClientKey → ℕ → Option (Proxy F) × Pool F
  unfolding ctx_for take_slot
  try_select pool scheme key now =
      take_choice pool key (best_for pool.state (ctx_for pool scheme key now) pool.rng)

  abbrev located : Text → Proxy F → Bool
  located cc p = elim p.geo [ none ↦ false | some g ↦ same_letters g.code cc ]

  abbrev in_country : Option Text → Slot F → Bool
  in_country none s = true
  in_country (some cc) s = located cc s.1.proxy

  abbrev remove_choice : Pool F → Option (Slot F) → Option (Proxy F) × Pool F
  remove_choice pool none = (none, pool)
  remove_choice pool (some s) = (some s.1.proxy, record pool { state = remove_at s.0 pool.state })

  unfoldable pub try_get : Pool F → Scheme → Option Text → Option (Proxy F) × Pool F
  try_get pool scheme country =
      let eligible =
        keep (in_country country) (keep (λ s. serves scheme s.1.proxy) (slots_from 0 pool.state)) in
      remove_choice pool (best_by_priority eligible pool.config.prefer_connect)

  unfoldable pub act : Pool F → PoolOp F → Pool F
  act pool (imports p) = import_one pool p
  act pool import_ends = import_end pool
  act pool (puts_ok p) = put_ok pool p
  act pool (puts_failed p now) = put_failed pool p now
  act pool (adds p) = add_proxy pool p
  act pool (removes host port) = (remove pool host port).0
  act pool (selects scheme key now) = (try_select pool scheme key now).1

  unfoldable pub act_all : Pool F → List (PoolOp F) → Pool F
  unfolding act
  act_all pool [] = pool
  act_all pool (o ∷ os) = act_all (act pool o) os
