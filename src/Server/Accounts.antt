-- ===== src/Server/Accounts.antt =====
-- `handle_client` gives back every proxy that it takes.
use proxybroker_rs.Float.{Float, nat_float}
use proxybroker_rs.Net.{IpAddr, addr_eq, ip_eq}
use proxybroker_rs.Pool.Get.{Lease, get, leased, no_proxy, waiting}
use proxybroker_rs.Pool.State.{ClientKey, Pool, client_key_eq, put_failed, strategy_eq, u64_mod}
use proxybroker_rs.Pool.Steps.{act_all}
use proxybroker_rs.Pool.Totals.{
  IsQuiet, debt, get-Balances, put_failed-total, put_ok-total, quiet-total, total,
}
use proxybroker_rs.Prelude.{
  All, Option, [], arith, false, none, some, subst, suc, zero, ℕ, ◌+◌, ◌<◌, ◌≡◌,
}
use proxybroker_rs.Prelude.Equality.{list_eq, nat_eq, ◌==◌}
use proxybroker_rs.Proxy.Record.{Proxy, record_attempt}
use proxybroker_rs.Server.Handler.{
  ConnCtx, Fate, History, Served, Try, count_rotation, handle_client, history_key, on_lease,
  on_outcome, relay_for, relaying, try_from,
}
use proxybroker_rs.Server.Relay.{RelayOutcome}
use proxybroker_rs.Server.Requests.{ClientRequest, IpText, client_key, frontend_eq}
use proxybroker_rs.Text.{Text, text}

-- A relay that never ends keeps its proxy.
abbrev pub in_use : Fate → ℕ
in_use relaying = 1
in_use _ = 0

module _ {F : Type 0} ⦃f : Float F⦄ ⦃t : IpText⦄ where
  -- No other task touches the pool during a try.
  abbrev pub IsCalm : Try F → Type 0
  IsCalm a = All IsQuiet a.rounds × (a.meanwhile ≡ [])

  count_rotation-total :
      (attempt : ℕ) (pool : Pool F) → total (count_rotation attempt pool) ≡ total pool
  unfolding total
  count_rotation-total attempt pool = ground arith

  -- The account of a handler: a proxy is pooled, evicted or in use by its relay.
  abbrev Settles : ℕ → Served F → Type 0
  Settles whole s = total s.pool + in_use s.fate ≡ whole

  on_outcome-Settles :
      (again : Pool F → Served F) (pool : Pool F) (history : History) (key : Text) (p : Proxy F)
      (now whole : ℕ) (sent : Text) (o : Option RelayOutcome)
      → total pool + 1 ≡ whole
      → whole < u64_mod
      → ((q : Pool F) → total q ≡ whole → Settles whole (again q))
      → Settles whole (on_outcome again pool history key p now sent o)
  on_outcome-Settles again pool history key p now whole sent none sum small rest = sum
  on_outcome-Settles again pool history key p now whole sent (some RelayOutcome.ok) sum small rest =
      omega (
        arith,
        put_ok-total pool (record_attempt p (some f.zero_f) none) (omega (arith, sum, small)),
        sum,
      )
  on_outcome-Settles again pool history key p now whole sent
        (some (RelayOutcome.retryable_failure e)) sum small rest =
      rest (put_failed pool (record_attempt p none (some e)) now) (
        omega (
          arith,
          put_failed-total pool (record_attempt p none (some e)) now (omega (arith, sum, small)),
          sum,
        ))
  on_outcome-Settles again pool history key p now whole sent
        (some (RelayOutcome.client_committed e)) sum small rest =
      omega (
        arith,
        put_failed-total pool (record_attempt p none (some e)) now (omega (arith, sum, small)),
        sum,
      )
  on_outcome-Settles again pool history key p now whole sent (some RelayOutcome.client_gone) sum
        small rest =
      omega (
        arith,
        put_ok-total pool (record_attempt p (some f.zero_f) none) (omega (arith, sum, small)),
        sum,
      )

  on_lease-Settles :
      (again : Pool F → Served F) (a : Try F) (attempt whole : ℕ) (req : ClientRequest)
      (peer : IpAddr) (history : History) (got : Lease F × Pool F)
      → IsCalm a
      → total got.1 + debt got.0 ≡ whole
      → whole < u64_mod
      → ((q : Pool F) → total q ≡ whole → Settles whole (again q))
      → Settles whole (on_lease again a attempt req peer history got)
  on_lease-Settles again a attempt whole req peer history (no_proxy, left) calm sum small rest =
      omega (arith, sum)
  on_lease-Settles again a attempt whole req peer history (waiting, left) calm sum small rest =
      omega (arith, sum)
  on_lease-Settles again a attempt whole req peer history (leased p, left) calm sum small rest =
      let run = relay_for a req left p in
      let counted = count_rotation attempt left in
      on_outcome-Settles again (act_all counted a.meanwhile) history (history_key peer req.path) p
        a.now whole run.to_client run.outcome
        (omega
          (arith, quiet-total counted a.meanwhile calm.1, count_rotation-total attempt left, sum))
        small rest

  try_from-Settles :
      (env : ℕ → Try F) (n attempt : ℕ) (req : ClientRequest) (peer : IpAddr) (key : ClientKey)
      (pool : Pool F) (history : History)
      → ((k : ℕ) → IsCalm (env k))
      → total pool < u64_mod
      → Settles (total pool) (try_from env n attempt req peer key pool history)
  unfolding try_from
  try_from-Settles env zero attempt req peer key pool history calm small = omega arith
  try_from-Settles env (suc n) attempt req peer key pool history calm small =
      let a = env attempt in
      on_lease-Settles (λ q. try_from env n (attempt + 1) req peer key q history) a attempt
        (total pool) req peer history (get a.rounds req.scheme key pool) (calm attempt)
        (get-Balances a.rounds req.scheme key pool (calm attempt).0 small) small
        λ q e.
          subst (λ (whole : ℕ). Settles whole (try_from env n (attempt + 1) req peer key q history))
            e
            (try_from-Settles env n (attempt + 1) req peer key q history calm
              (omega (arith, e, small)))

  -- While no other task touches the pool, and with fewer proxies than a `u64` counts, a request that
  -- is not for `proxycontrol` leaves as many proxies pooled or evicted as there were before it, but
  -- for the one that a relay which never ends keeps: every proxy taken for a try is put back or
  -- evicted, on every outcome of every relay.
  pub handle_client-Settles :
      (env : ℕ → Try F) (ctx : ConnCtx) (req : ClientRequest) (peer : IpAddr) (pool : Pool F)
      (history : History)
      → ((k : ℕ) → IsCalm (env k))
      → total pool < u64_mod
      → (req.host == text "proxycontrol") ≡ false
      → total (handle_client env ctx req peer pool history).pool
          + in_use (handle_client env ctx req peer pool history).fate
        ≡ total pool
  unfolding handle_client
  handle_client-Settles env ctx req peer pool history calm small other = ground (
    arith,
    try_from-Settles env ctx.max_tries 0 req peer (client_key pool.config peer req) pool history
        calm small,
  )
