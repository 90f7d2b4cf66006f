-- ===== src/Server/Ends.antt =====
-- `handle_client` ends once the source of the pool has ended, if its relays do.
use proxybroker_rs.Float.{Float, nat_float}
use proxybroker_rs.Net.{IpAddr, addr_eq, ip_eq}
use proxybroker_rs.Pool.Get.{Lease, get, leased, no_proxy, verify_max_attempts, waiting}
use proxybroker_rs.Pool.State.{ClientKey, Pool, client_key_eq, strategy_eq}
use proxybroker_rs.Pool.Waiting.{
  act_all-exhausted, get-exhausted, get-returns, put_failed-exhausted,
}
use proxybroker_rs.Prelude.{
  Bool, Option, arith, false, if◌then◌else◌, inl, inr, length, none, refl, some, suc, true, zero, ℕ,
  ◌+◌, ◌<◌, ◌∙◌, ◌≡◌, ◌≢◌, ◌≤◌, ◌⊎◌,
}
use proxybroker_rs.Prelude.Equality.{list_eq, nat_eq, ◌==◌}
use proxybroker_rs.Proxy.Record.{Proxy}
use proxybroker_rs.Server.Commit.{CanLast, relay-IsPositional}
use proxybroker_rs.Server.Handler.{
  ConnCtx, History, Served, Try, auth_missing, count_rotation, finished, handle_client, history_key,
  on_lease, on_outcome, relay_for, relaying, try_from,
}
use proxybroker_rs.Server.Relay.{RelayOutcome}
use proxybroker_rs.Server.Requests.{ClientRequest, IpText, client_key, frontend_eq}
use proxybroker_rs.Text.{Text, text}

module _ {F : Type 0} ⦃f : Float F⦄ ⦃t : IpText⦄ where
  count_rotation-exhausted :
      (attempt : ℕ) (pool : Pool F) → (count_rotation attempt pool).exhausted ≡ pool.exhausted
  count_rotation-exhausted attempt pool = ground arith

  -- A handler has finished, or is in a relay over one of the tries that never ends because a peer
  -- keeps it waiting: it does not take what is written to it, or does not end the splicing.
  abbrev pub IsDone : (ℕ → Try F) → ℕ → Served F → Type 0
  IsDone env limit s =
      (s.fate ≡ finished) ⊎ ((s.fate ≡ relaying) × ((n : ℕ) × (n < limit) × CanLast (env n).wire))

  relay_for-lasts :
      (a : Try F) (req : ClientRequest) (pool : Pool F) (p : Proxy F)
      → (relay_for a req pool p).outcome ≡ none
      → CanLast a.wire
  unfolding relay_for
  relay_for-lasts a req pool p h = (relay-IsPositional a.wire p _ req _).stuck h

  on_outcome-IsDone :
      (env : ℕ → Try F) (limit attempt : ℕ) (again : Pool F → Served F) (pool : Pool F)
      (history : History) (key : Text) (p : Proxy F) (now : ℕ) (sent : Text)
      (o : Option RelayOutcome)
      → attempt < limit
      → (o ≡ none → CanLast (env attempt).wire)
      → pool.exhausted ≡ true
      → ((q : Pool F) → q.exhausted ≡ true → IsDone env limit (again q))
      → IsDone env limit (on_outcome again pool history key p now sent o)
  on_outcome-IsDone env limit attempt again pool history key p now sent none lt stuck ended rest =
      inr (refl, (attempt, lt, stuck refl))
  on_outcome-IsDone env limit attempt again pool history key p now sent (some RelayOutcome.ok) lt
        stuck ended rest =
      inl refl
  on_outcome-IsDone env limit attempt again pool history key p now sent
        (some (RelayOutcome.retryable_failure e)) lt stuck ended rest =
      rest _ (put_failed-exhausted pool _ now ∙ ended)
  on_outcome-IsDone env limit attempt again pool history key p now sent
        (some (RelayOutcome.client_committed e)) lt stuck ended rest =
      inl refl
  on_outcome-IsDone env limit attempt again pool history key p now sent
        (some RelayOutcome.client_gone) lt stuck ended rest =
      inl refl

  on_lease-IsDone :
      (env : ℕ → Try F) (limit attempt : ℕ) (again : Pool F → Served F) (req : ClientRequest)
      (peer : IpAddr) (history : History) (got : Lease F × Pool F)
      → attempt < limit
      → got.0 ≢ waiting
      → got.1.exhausted ≡ true
      → ((q : Pool F) → q.exhausted ≡ true → IsDone env limit (again q))
      → IsDone env limit (on_lease again (env attempt) attempt req peer history got)
  on_lease-IsDone env limit attempt again req peer history (no_proxy, left) lt answers ended rest =
      inl refl
  on_lease-IsDone env limit attempt again req peer history (waiting, left) lt answers ended rest =
      absurd (answers refl)
  on_lease-IsDone env limit attempt again req peer history (leased p, left) lt answers ended rest =
      let a = env attempt in
      let run = relay_for a req left p in
      on_outcome-IsDone env limit attempt again _ history (history_key peer req.path) p a.now
        run.to_client run.outcome lt (relay_for-lasts a req left p)
        (act_all-exhausted a.meanwhile _ (count_rotation-exhausted attempt left ∙ ended)) rest

  -- Each try brings the rounds that `get` may need.
  abbrev pub IsAmple : (ℕ → Try F) → Type 0
  IsAmple env = (n : ℕ) → verify_max_attempts ≤ length (env n).rounds

  try_from-IsDone :
      (env : ℕ → Try F) (limit n attempt : ℕ) (req : ClientRequest) (peer : IpAddr)
      (key : ClientKey) (pool : Pool F) (history : History)
      → attempt + n ≤ limit
      → IsAmple env
      → pool.exhausted ≡ true
      → IsDone env limit (try_from env n attempt req peer key pool history)
  unfolding try_from
  try_from-IsDone env limit zero attempt req peer key pool history le ample ended = inl refl
  try_from-IsDone env limit (suc n) attempt req peer key pool history le ample ended =
      let rounds = (env attempt).rounds in
      on_lease-IsDone env limit attempt (λ q. try_from env n (attempt + 1) req peer key q history)
        req peer history (get rounds req.scheme key pool) (omega arith)
        (get-returns rounds req.scheme key pool ended (ample attempt))
        (get-exhausted rounds req.scheme key pool ended)
        λ q ended'.
          try_from-IsDone env limit n (attempt + 1) req peer key q history (omega arith) ample
            ended'

  -- Once the source of the pool has ended, and with as many rounds for each `get` as it may need,
  -- `handle_client` finishes for every request, whatever other tasks do to the pool; or it is in a
  -- relay of one of the first `max_tries`, over a wire on which a write to a peer or the splicing
  -- never ends. It does not wait in `get` for ever.
  pub handle_client-ends :
      (env : ℕ → Try F) (ctx : ConnCtx) (req : ClientRequest) (peer : IpAddr) (pool : Pool F)
      (history : History)
      → IsAmple env
      → pool.exhausted ≡ true
      → IsDone env ctx.max_tries (handle_client env ctx req peer pool history)
  unfolding handle_client
  handle_client-ends env ctx req peer pool history ample ended =
      if-IsDone env ctx.max_tries (auth_missing ctx.expected_auth req) _ _ (inl refl) (
        if-IsDone env ctx.max_tries (req.host == text "proxycontrol") _ _ (inl refl) (
          try_from-IsDone env ctx.max_tries ctx.max_tries 0 req peer
            (client_key pool.config peer req) pool history (omega arith) ample ended))
    where
      if-IsDone :
          (env : ℕ → Try F) (limit : ℕ) (b : Bool) (x y : Served F)
          → IsDone env limit x
          → IsDone env limit y
          → IsDone env limit (if b then x else y)
      if-IsDone env limit true x y hx hy = hx
      if-IsDone env limit false x y hx hy = hy
