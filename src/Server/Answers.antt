-- ===== src/Server/Answers.antt =====
-- `handle_client`: what the client is sent, and that the handler ends.
use proxybroker_rs.Errors.{ProxyError, error_eq}
use proxybroker_rs.Float.{Float, nat_float}
use proxybroker_rs.Net.{IpAddr, addr_eq, ip_eq}
use proxybroker_rs.Pool.Get.{Lease, get, leased, no_proxy, waiting}
use proxybroker_rs.Pool.State.{ClientKey, Pool, client_key_eq, put_failed, strategy_eq}
use proxybroker_rs.Prelude.{
  Option, [], arith, false, inl, inr, none, refl, some, subst, suc, sym, true, zero, ℕ, ◌++◌, ◌+◌,
  ◌<◌, ◌≡◌, ◌≤◌, ◌⊎◌,
}
use proxybroker_rs.Prelude.Equality.{list_eq, nat_eq, ◌==◌}
use proxybroker_rs.Proxy.Record.{Proxy, record_attempt}
use proxybroker_rs.Server.Commit.{relay-IsPositional}
use proxybroker_rs.Server.Handler.{
  ConnCtx, History, Served, Try, auth_missing, auth_required, end_with, finished, handle_client,
  hanging, history_key, on_lease, on_outcome, relay_for, try_from,
}
use proxybroker_rs.Server.Relay.{RelayOutcome}
use proxybroker_rs.Server.Requests.{
  ClientRequest, IpText, client_key, frontend_eq, terminal_failure,
}
use proxybroker_rs.Text.{Text, text}

module _ {F : Type 0} ⦃f : Float F⦄ ⦃t : IpText⦄ where
  -- The bytes of one relay over one of the tries.
  pub record IsOneRun (env : ℕ → Try F) (limit : ℕ) (req : ClientRequest) (sent : Text)
      : Type 0 where
    pub number : ℕ
    pub small : number < limit
    pub before : Pool F
    pub through : Proxy F
    pub same : sent ≡ (relay_for (env number) req before through).to_client

  -- A handler that does not wait in `get` has sent the failure of the client's protocol, or what
  -- one relay wrote.
  abbrev pub IsWhole : (ℕ → Try F) → ℕ → ClientRequest → Served F → Type 0
  IsWhole env limit req s =
      (s.fate ≡ hanging)
      ⊎ ((s.sent ≡ terminal_failure req.frontend) ⊎ IsOneRun env limit req s.sent)

  relay_for-unseen :
      (a : Try F) (req : ClientRequest) (pool : Pool F) (p : Proxy F) (e : ProxyError)
      → (relay_for a req pool p).outcome ≡ some (RelayOutcome.retryable_failure e)
      → (relay_for a req pool p).to_client ≡ []
  unfolding relay_for
  relay_for-unseen a req pool p e h = (relay-IsPositional a.wire p _ req _).unseen e h

  on_outcome-IsWhole :
      (env : ℕ → Try F) (limit : ℕ) (req : ClientRequest) (again : Pool F → Served F)
      (pool : Pool F) (history : History) (key : Text) (p : Proxy F) (now : ℕ) (sent : Text)
      (o : Option RelayOutcome)
      → ((q : Pool F) → IsWhole env limit req (again q))
      → IsOneRun env limit req sent
      → ((e : ProxyError) → o ≡ some (RelayOutcome.retryable_failure e) → sent ≡ [])
      → IsWhole env limit req (on_outcome again pool history key p now sent o)
  on_outcome-IsWhole env limit req again pool history key p now sent none rest run unseen =
      inr (inr run)
  on_outcome-IsWhole env limit req again pool history key p now sent (some RelayOutcome.ok) rest run
        unseen =
      inr (inr run)
  on_outcome-IsWhole env limit req again pool history key p now sent
        (some (RelayOutcome.retryable_failure e)) rest run unseen =
      let benched = put_failed pool (record_attempt p none (some e)) now in
      subst
        (λ (said : Text).
          IsWhole env limit req (record (again benched) { sent = said ++ (again benched).sent }))
        (sym (unseen e refl)) (rest benched)
  on_outcome-IsWhole env limit req again pool history key p now sent
        (some (RelayOutcome.client_committed e)) rest run unseen =
      inr (inr run)
  on_outcome-IsWhole env limit req again pool history key p now sent (some RelayOutcome.client_gone)
        rest run unseen =
      inr (inr run)

  on_lease-IsWhole :
      (env : ℕ → Try F) (limit attempt : ℕ) (req : ClientRequest) (peer : IpAddr)
      (history : History) (again : Pool F → Served F) (got : Lease F × Pool F)
      → attempt < limit
      → ((q : Pool F) → IsWhole env limit req (again q))
      → IsWhole env limit req (on_lease again (env attempt) attempt req peer history got)
  on_lease-IsWhole env limit attempt req peer history again (no_proxy, left) lt rest =
      inr (inl refl)
  on_lease-IsWhole env limit attempt req peer history again (waiting, left) lt rest = inl refl
  on_lease-IsWhole env limit attempt req peer history again (leased p, left) lt rest =
      let run = relay_for (env attempt) req left p in
      on_outcome-IsWhole env limit req again _ history (history_key peer req.path) p
        (env attempt).now run.to_client run.outcome rest
        (record { number = attempt; small = lt; before = left; through = p; same = refl })
        (relay_for-unseen (env attempt) req left p)

  try_from-IsWhole :
      (env : ℕ → Try F) (limit n attempt : ℕ) (req : ClientRequest) (peer : IpAddr)
      (key : ClientKey) (pool : Pool F) (history : History)
      → attempt + n ≤ limit
      → IsWhole env limit req (try_from env n attempt req peer key pool history)
  unfolding try_from
  try_from-IsWhole env limit zero attempt req peer key pool history le = inr (inl refl)
  try_from-IsWhole env limit (suc n) attempt req peer key pool history le =
      on_lease-IsWhole env limit attempt req peer history
        (λ q. try_from env n (attempt + 1) req peer key q history)
        (get (env attempt).rounds req.scheme key pool) (omega arith)
        λ q. try_from-IsWhole env limit n (attempt + 1) req peer key q history (omega arith)

  -- Without the expected credentials, an HTTP client gets the 407 answer and nothing changes.
  pub handle_client-refused :
      (env : ℕ → Try F) (ctx : ConnCtx) (req : ClientRequest) (peer : IpAddr) (pool : Pool F)
      (history : History)
      → auth_missing ctx.expected_auth req ≡ true
      → handle_client env ctx req peer pool history ≡ end_with finished pool history auth_required
  unfolding handle_client
  handle_client-refused env ctx req peer pool history missing = rw missing refl

  -- A client that is let in and does not ask for `proxycontrol` is sent, when the handler finishes
  -- or is in a relay that never ends, the failure of its own protocol or exactly what one relay of
  -- the first `max_tries` wrote: a retry never adds to what the client has seen.
  pub handle_client-IsWhole :
      (env : ℕ → Try F) (ctx : ConnCtx) (req : ClientRequest) (peer : IpAddr) (pool : Pool F)
      (history : History)
      → auth_missing ctx.expected_auth req ≡ false
      → (req.host == text "proxycontrol") ≡ false
      → IsWhole env ctx.max_tries req (handle_client env ctx req peer pool history)
  unfolding handle_client
  handle_client-IsWhole env ctx req peer pool history known other =
      rw (known, other)
        (try_from-IsWhole env ctx.max_tries ctx.max_tries 0 req peer
          (client_key pool.config peer req) pool history (omega arith))
