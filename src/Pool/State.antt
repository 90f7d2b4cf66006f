-- ===== src/Pool/State.antt =====
-- src/server.rs: `PoolConfig`, `Pooled`, `Pool` and the operations that put proxies in or take
-- them out by address. A mutex guards each operation, which is one step here. Times are numbers.
use proxybroker_rs.Float.{Float, nat_float}
use proxybroker_rs.Maps.{HashMap}
use proxybroker_rs.Net.{Addr, IpAddr, IpAddr-discrete, addr_eq, ip_eq}
use proxybroker_rs.Prelude.{
  Bool, List, Option, [], any, false, if◌then◌else◌, keep, leb, length, map, none, not, some, true,
  ℕ, ◌%◌, ◌&&◌, ◌++◌, ◌+◌, ◌^◌, ◌||◌, ◌∷◌,
}
use proxybroker_rs.Prelude.Equality.{Eq, list_discrete, list_eq, nat_eq, ◌==◌}
use proxybroker_rs.Proxy.Measures.{avg_resp_time, error_rate}
use proxybroker_rs.Proxy.Record.{Country, Proxy, addr_of}
use proxybroker_rs.Text.{Text, uppercase}

pub data Strategy : Type 0 where
  best round_robin random sticky : Strategy

unfoldable pub Strategy-discrete : Discrete Strategy
Strategy-discrete = hlevel

instance abbrev pub strategy_eq : Eq Strategy
strategy_eq = record { dec = Strategy-discrete }

pub data ClientKey : Type 0 where
  ip : IpAddr → ClientKey
  header : Text → ClientKey

unfoldable pub Text-discrete : Discrete Text
unfolding list_discrete
Text-discrete = list_discrete

unfoldable pub ClientKey-discrete : Discrete ClientKey
unfolding IpAddr-discrete Text-discrete
ClientKey-discrete = hlevel (IpAddr-discrete, Text-discrete)

instance abbrev pub client_key_eq : Eq ClientKey
client_key_eq = record { dec = ClientKey-discrete }

pub record PoolConfig (F : Type 0) : Type 0 where
  pub max_tries : ℕ
  pub max_error_rate : F
  pub max_resp_time : F
  pub min_req : ℕ
  pub countries : Option (List Text)
  pub strategy : Strategy
  pub sticky_header : Option Text
  pub max_sessions : ℕ
  pub fail_timeout : ℕ
  pub prefer_connect : Bool
  pub http_allowed_codes : Option (List ℕ)
  pub verify_on_lease : Option ℕ
  pub verify_target : Text × ℕ
  pub max_clients : ℕ

pub record Pooled (F : Type 0) : Type 0 where
  pub proxy : Proxy F
  pub blocked_until : Option ℕ

-- `rng` is the process-wide state of `next_rand`. Of `Notify` nothing is kept: a waiter looks
-- again after each change.
pub record Pool (F : Type 0) : Type 0 where
  pub state : List (Pooled F)
  pub sessions : HashMap ClientKey Addr
  pub cursor : ℕ
  pub config : PoolConfig F
  pub exhausted : Bool
  pub evictions : ℕ
  pub rotations : ℕ
  pub rng : ℕ

-- src/broker.rs, `country_ok`: the list holds upper-case codes, and a proxy with no country matches no list.
abbrev pub in_countries : Option Country → List Text → Bool
in_countries none cs = false
in_countries (some g) cs = any (λ c. c == uppercase g.code) cs

abbrev pub u64_mod : ℕ
u64_mod = 2 ^ 64

abbrev pub xorshift_seed : ℕ
xorshift_seed = 0x9E37_79B9_7F4A_7C15

module _ {F : Type 0} where
  abbrev pub ready : Proxy F → Pooled F
  ready p = record { proxy = p; blocked_until = none }

  abbrev pub at_addr : IpAddr → ℕ → Pooled F → Bool
  at_addr host port p = p.proxy.host == host && p.proxy.port == port

  abbrev pub country_ok : Proxy F → Option (List Text) → Bool
  country_ok p none = true
  country_ok p (some cs) = in_countries p.geo cs

  abbrev admitted : Option (List Text) → List (Proxy F) → List (Pooled F)
  admitted cs ps = map ready (keep (λ p. country_ok p cs) ps)

  unfoldable pub from_proxies : List (Proxy F) → PoolConfig F → Pool F
  from_proxies ps config = record {
    state = admitted config.countries ps;
    sessions = [];
    cursor = 0;
    config = config;
    exhausted = true;
    evictions = 0;
    rotations = 0;
    rng = xorshift_seed;
  }

  -- The pool of `spawn`, before its importer has run.
  unfoldable pub spawned : PoolConfig F → Pool F
  unfolding from_proxies
  spawned config = record (from_proxies [] config) { exhausted = false }

  -- One item of the importer's stream, and the end of the stream.
  unfoldable pub import_one : Pool F → Proxy F → Pool F
  import_one pool p =
      if country_ok p pool.config.countries
      then record pool { state = pool.state ++ ready p ∷ [] }
      else pool

  unfoldable pub import_end : Pool F → Pool F
  import_end pool = record pool { exhausted = true }

  unfoldable pub len : Pool F → ℕ
  len pool = length pool.state

  unfoldable pub remove : Pool F → IpAddr → ℕ → Pool F × Bool
  remove pool host port =
      let rest = keep (λ p. not (at_addr host port p)) pool.state in
      (record pool { state = rest }, not (length pool.state == length rest))

  unfoldable pub add_proxy : Pool F → Proxy F → Pool F
  add_proxy pool p =
      if any (at_addr p.host p.port) pool.state
      then pool
      else record pool { state = pool.state ++ ready p ∷ [] }

  abbrev pub addr_in : Pooled F → Addr
  addr_in p = addr_of p.proxy

  -- `addrs`, the set as a list without order or count.
  abbrev pub addrs : Pool F → List Addr
  addrs pool = map addr_in pool.state

  unfoldable pub proxies : Pool F → List (Proxy F)
  proxies pool = map (λ p. p.proxy) pool.state

  -- `wait_ready` returns once this holds.
  unfoldable pub is_ready : Pool F → ℕ → Bool
  unfolding len
  is_ready pool n = n == 0 || leb n (len pool) || pool.exhausted

module _ {F : Type 0} ⦃f : Float F⦄ where
  unfoldable pub unhealthy : PoolConfig F → Proxy F → Bool
  unhealthy c p =
      leb c.min_req p.requests
      && (f.lt c.max_error_rate (error_rate p) || f.lt c.max_resp_time (avg_resp_time p))

  unfoldable pub put_inner : Pool F → Proxy F → Option ℕ → Pool F
  put_inner pool p blocked =
      if unhealthy pool.config p
      then record pool { evictions = (pool.evictions + 1) % u64_mod }
      else record pool { state = pool.state ++ record { proxy = p; blocked_until = blocked } ∷ [] }

  unfoldable pub put_ok : Pool F → Proxy F → Pool F
  unfolding put_inner
  put_ok pool p = put_inner pool p none

  unfoldable pub put_failed : Pool F → Proxy F → ℕ → Pool F
  unfolding put_inner
  put_failed pool p now = put_inner pool p (some (now + pool.config.fail_timeout))
