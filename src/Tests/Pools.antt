-- ===== src/Tests/Pools.antt =====
-- The theorems on the pool at concrete inputs.
use proxybroker_rs.Errors.{error_eq}
use proxybroker_rs.Float.{nat_float}
use proxybroker_rs.Net.{Addr, addr_eq, ip_eq}
use proxybroker_rs.Pool.BestFor.{IsEligible, IsFirstTier, best_for-none_iff, best_for_sound}
use proxybroker_rs.Pool.Contents.{reconcile_lem}
use proxybroker_rs.Pool.Get.{get, waiting}
use proxybroker_rs.Pool.Leasing.{get-probed, get-serves}
use proxybroker_rs.Pool.Select.{SelectCtx, Slot, best_for}
use proxybroker_rs.Pool.State.{Pool, Pooled, Strategy, addrs, client_key_eq, ready, strategy_eq}
use proxybroker_rs.Pool.Steps.{try_select}
use proxybroker_rs.Pool.Totals.{debt, get-Balances, total}
use proxybroker_rs.Pool.Waiting.{get-returns}
use proxybroker_rs.Prelude.{
  In, List, Option, [], any, arith, false, get_elem?, inr, length, map, none, refl, some, true, ℕ,
  ℕ_discrete, ◌%◌, ◌++◌, ◌+◌, ◌↔◌, ◌∷◌, ◌≡◌, ◌≢◌, ◌⊎◌,
}
use proxybroker_rs.Proxy.Measures.{priority, serves}
use proxybroker_rs.Proxy.Record.{addr_of}
use proxybroker_rs.Tests.Fixtures.{
  calm_round, client, eight, home, plain, pool_of, proxy_at, shown, tunnel, two,
}
use proxybroker_rs.Types.Proto.{Proto, Proto-discrete, proto_eq, proto_ranked}
use proxybroker_rs.Types.Scheme.{Scheme, Scheme-discrete, scheme_eq}
use proxybroker_rs.Watch.{reconcile}

abbrev best_pool : Pool ℕ
best_pool = pool_of two Strategy.best false

abbrev bare_pool : Pool ℕ
bare_pool = pool_of [] Strategy.best true

abbrev ctx : Strategy → Option Addr → SelectCtx
ctx strategy pin = record {
  scheme = Scheme.http;
  strategy = strategy;
  sticky = pin;
  round_robin_cursor = 0;
  now = 1;
  prefer_connect = false;
}

abbrev eager : SelectCtx
eager = record (ctx Strategy.random none) { prefer_connect = true }

abbrev with_connect : List (Pooled ℕ)
with_connect = ready plain ∷ ready (proxy_at 3128 Proto.connect80) ∷ []

abbrev at_plain : Addr
at_plain = (home, 8080)

abbrev at_tunnel : Addr
at_tunnel = (home, 1080)

abbrev plain_slot : Slot ℕ
plain_slot = (0, ready plain)

abbrev tunnel_slot : Slot ℕ
tunnel_slot = (1, ready tunnel)

abbrev connect_slot : Slot ℕ
connect_slot = (1, ready (proxy_at 3128 Proto.connect80))

get-returns_example : (get eight Scheme.http client bare_pool).0 ≢ waiting
get-returns_example = get-returns eight Scheme.http client bare_pool refl (omega arith)

get-serves_example : serves Scheme.http plain ≡ true
unfolding get try_select best_for serves proxybroker_rs.Types.Proto.Proto-discrete
    proxybroker_rs.Types.Scheme.Scheme-discrete proxybroker_rs.Proxy.Measures.priority
    proxybroker_rs.Prelude.ℕ_discrete
get-serves_example = get-serves eight Scheme.http client best_pool plain refl

get-probed_example : any (λ r. r.alive plain) eight ≡ true
unfolding get try_select best_for serves proxybroker_rs.Types.Proto.Proto-discrete
    proxybroker_rs.Types.Scheme.Scheme-discrete proxybroker_rs.Proxy.Measures.priority
    proxybroker_rs.Prelude.ℕ_discrete
get-probed_example = get-probed eight Scheme.http client best_pool plain refl refl refl

get-Balances_example :
    total (get (calm_round ∷ []) Scheme.http client best_pool).1
      + debt (get (calm_round ∷ []) Scheme.http client best_pool).0
    ≡ total best_pool
unfolding total
get-Balances_example =
    get-Balances (calm_round ∷ []) Scheme.http client best_pool ((refl, refl), tt) (omega arith)

best_for_sound_example :
    IsEligible two (ctx Strategy.best none) plain_slot
    × IsFirstTier two (ctx Strategy.best none) plain_slot
unfolding best_for serves Proto-discrete Scheme-discrete priority ℕ_discrete
best_for_sound_example = best_for_sound two (ctx Strategy.best none) 1 plain_slot refl

best_for-none_iff_example :
    ((best_for two (ctx Strategy.best none) 1).0 ≡ none)
    ↔ ((s : Slot ℕ) → ¬ IsEligible two (ctx Strategy.best none) s)
best_for-none_iff_example = best_for-none_iff two (ctx Strategy.best none) 1

reconcile_lem_example :
    In (home, 1080) (addrs (reconcile best_pool (tunnel ∷ [])))
    ↔ In (home, 1080) (map addr_of (tunnel ∷ []))
reconcile_lem_example = reconcile_lem best_pool (tunnel ∷ []) (home, 1080)
