-- ===== src/Connector/Ends.antt =====
-- `connect` of src/connector.rs ends once the source of the pool has ended.
use proxybroker_rs.Connector.Dialing.{
  DialTry, Link, Uri, connect, connect_from, connect_proto, in_get, on_checkout, on_dial, on_proto,
  scheme_of, to_host,
}
use proxybroker_rs.Errors.{ProxyError}
use proxybroker_rs.Float.{Float, nat_float}
use proxybroker_rs.Negotiator.Handshakes.{Negotiated, Target}
use proxybroker_rs.Net.{IpAddr}
use proxybroker_rs.Pool.Get.{Lease, get, leased, no_proxy, verify_max_attempts, waiting}
use proxybroker_rs.Pool.State.{ClientKey, Pool, put_ok}
use proxybroker_rs.Pool.Waiting.{
  act_all-exhausted, get-exhausted, get-returns, put_failed-exhausted,
}
use proxybroker_rs.Prelude.{
  Option, inl, inr, length, none, refl, some, suc, true, zero, ℕ, ◌+◌, ◌∙◌, ◌≡◌, ◌≢◌, ◌≤◌, arith,
}
use proxybroker_rs.Proxy.Record.{Proxy}
use proxybroker_rs.Text.{Text}
use proxybroker_rs.Types.Proto.{Proto}
use proxybroker_rs.Types.Scheme.{Scheme}

module _ {F : Type 0} ⦃f : Float F⦄ where
  put_ok-exhausted : (pool : Pool F) (p : Proxy F) → (put_ok pool p).exhausted ≡ pool.exhausted
  unfolding put_ok
  put_ok-exhausted pool p = ground arith

  -- The run does not hang in the pool.
  abbrev IsOver : Link × Pool F → Type 0
  IsOver run = run.0 ≢ in_get

  -- The rest of a loop is over from any pool whose source has ended.
  abbrev Continues : (Option ProxyError → Pool F → Link × Pool F) → Type 0
  Continues again = (e : Option ProxyError) (q : Pool F) → q.exhausted ≡ true → IsOver (again e q)

  on_dial-IsOver :
      (again : Option ProxyError → Pool F → Link × Pool F) (pool : Pool F) (p : Proxy F) (now : ℕ)
      (r : Negotiated)
      → pool.exhausted ≡ true
      → Continues again
      → IsOver (on_dial again pool p now r)
  on_dial-IsOver again pool p now (inr stream) ended rest = λ e. cc e
  on_dial-IsOver again pool p now (inl err') ended rest =
      rest _ _ (put_failed-exhausted pool _ now ∙ ended)

  on_proto-IsOver :
      (again : Option ProxyError → Pool F → Link × Pool F) (a : DialTry F) (target : Target)
      (last : Option ProxyError) (pool : Pool F) (p : Proxy F) (o : Option Proto)
      → pool.exhausted ≡ true
      → Continues again
      → IsOver (on_proto again a target last pool p o)
  on_proto-IsOver again a target last pool p none ended rest =
      rest last _ (put_ok-exhausted pool p ∙ ended)
  on_proto-IsOver again a target last pool p (some proto) ended rest =
      on_dial-IsOver again pool p a.now _ ended rest

  on_checkout-IsOver :
      (again : Option ProxyError → Pool F → Link × Pool F) (a : DialTry F) (scheme : Scheme)
      (target : Target) (last : Option ProxyError) (got : Lease F × Pool F)
      → got.0 ≢ waiting
      → got.1.exhausted ≡ true
      → Continues again
      → IsOver (on_checkout again a scheme target last got)
  on_checkout-IsOver again a scheme target last (no_proxy, left) answers ended rest = λ e. cc e
  on_checkout-IsOver again a scheme target last (waiting, left) answers ended rest =
      absurd (answers refl)
  on_checkout-IsOver again a scheme target last (leased p, left) answers ended rest =
      on_proto-IsOver again a target last _ p (connect_proto p scheme)
        (act_all-exhausted a.meanwhile left ended) rest

  -- Each try brings the rounds that `get` may need.
  abbrev IsPlentiful : (ℕ → DialTry F) → Type 0
  IsPlentiful env = (n : ℕ) → verify_max_attempts ≤ length (env n).rounds

  connect_from-IsOver :
      (env : ℕ → DialTry F) (n attempt : ℕ) (scheme : Scheme) (target : Target) (key : ClientKey)
      (last : Option ProxyError) (pool : Pool F)
      → IsPlentiful env
      → pool.exhausted ≡ true
      → IsOver (connect_from env n attempt scheme target key last pool)
  unfolding connect_from
  connect_from-IsOver env zero attempt scheme target key last pool ample ended = λ e. cc e
  connect_from-IsOver env (suc n) attempt scheme target key last pool ample ended =
      let rounds = (env attempt).rounds in
      on_checkout-IsOver (λ e q. connect_from env n (attempt + 1) scheme target key e q)
        (env attempt) scheme target last (get rounds scheme key pool)
        (get-returns rounds scheme key pool ended (ample attempt))
        (get-exhausted rounds scheme key pool ended)
        λ e q ended'. connect_from-IsOver env n (attempt + 1) scheme target key e q ample ended'

  to_host-IsOver :
      (env : ℕ → DialTry F) (max_tries : ℕ) (uri : Uri) (resolve : Text → Option IpAddr)
      (pool : Pool F) (host : Option Text)
      → IsPlentiful env
      → pool.exhausted ≡ true
      → IsOver (to_host env max_tries uri resolve pool host)
  to_host-IsOver env max_tries uri resolve pool none ample ended = λ e. cc e
  to_host-IsOver env max_tries uri resolve pool (some host) ample ended =
      connect_from-IsOver env max_tries 0 (scheme_of uri.scheme_str) _ _ none pool ample ended

  -- Once the source of the pool has ended, `connect` ends for every URI, whatever the proxies do
  -- and other tasks do to the pool, when each try brings the rounds that `get` may need.
  pub connect-ends :
      (env : ℕ → DialTry F) (max_tries : ℕ) (uri : Uri) (resolve : Text → Option IpAddr)
      (pool : Pool F)
      → IsPlentiful env
      → pool.exhausted ≡ true
      → (connect env max_tries uri resolve pool).0 ≢ in_get
  unfolding connect
  connect-ends env max_tries uri resolve pool ample ended =
      to_host-IsOver env max_tries uri resolve pool uri.host ample ended
