-- ===== src/Connector/Dialing.antt =====
-- src/connector.rs: `connect` with its retry loop. What the resolver and the proxies do is in the
-- environment records.
use proxybroker_rs.Errors.{ProxyError, conn_failed, error_eq, timeout}
use proxybroker_rs.Float.{Float, nat_float}
use proxybroker_rs.Negotiator.Handshakes.{Channel, Negotiated, Stream, Target, bare_of, negotiate}
use proxybroker_rs.Net.{IpAddr, addr_eq, ip_eq}
use proxybroker_rs.Pool.Get.{Lease, Round, get, leased, no_proxy, waiting}
use proxybroker_rs.Pool.State.{ClientKey, Pool, client_key_eq, put_failed, put_ok, strategy_eq}
use proxybroker_rs.Pool.Steps.{PoolOp, act_all}
use proxybroker_rs.Prelude.{
  List, Option, if◌then◌else◌, inl, inr, none, some, suc, zero, ℕ, ◌&&◌, ◌+◌,
}
use proxybroker_rs.Prelude.Equality.{list_eq, nat_eq, ◌==◌}
use proxybroker_rs.Proxy.Measures.{has_type}
use proxybroker_rs.Proxy.Record.{Credentials, Proxy, record_attempt}
use proxybroker_rs.Server.Relay.{Dial, connected, refused, timed_out}
use proxybroker_rs.Server.Requests.{tunnel_proto, frontend_eq}
use proxybroker_rs.Text.{Text, strip_prefix, text}
use proxybroker_rs.Types.Proto.{Proto, proto_eq, proto_ranked}
use proxybroker_rs.Types.Scheme.{Scheme, scheme_eq}

-- What the code asks of a URI.
pub record Uri : Type 0 where
  pub scheme_str : Option Text
  pub host : Option Text
  pub port_u16 : Option ℕ

-- What the environment does during one try: the rounds of `get`, the connection to the proxy, what
-- other tasks do to the pool meanwhile, and the clock when the proxy is put back.
pub record DialTry (F : Type 0) : Type 0 where
  pub rounds : List (Round F)
  pub dial : Dial
  pub channel : Channel
  pub meanwhile : List (PoolOp F)
  pub now : ℕ

-- How `connect` ends, or that it still waits in `get`. After the last try the error of the last
-- failed one is told, if there was any.
pub data Link : Type 0 where
  linked : Stream → Link
  no_host none_available in_get : Link
  all_failed : Option ProxyError → Link

abbrev pub scheme_of : Option Text → Scheme
scheme_of (some s) = if s == text "https" then Scheme.https else Scheme.http
scheme_of none = Scheme.http

abbrev port_of : Scheme → Option ℕ → ℕ
port_of scheme (some n) = n
port_of Scheme.https none = 443
port_of Scheme.http none = 80

-- `dial`.
abbrev pub dialled_to : Channel → Proto → Target → Option Credentials → Dial → Negotiated
dialled_to ch proto target creds timed_out = inl timeout
dialled_to ch proto target creds refused = inl conn_failed
dialled_to ch proto target creds connected = negotiate ch proto target creds

module _ {F : Type 0} where
  abbrev or_passthrough : Proxy F → Scheme → Option Proto → Option Proto
  or_passthrough p scheme (some c) = some c
  or_passthrough p scheme none =
      if (scheme == Scheme.http) && has_type Proto.http p then some Proto.http else none

  unfoldable pub connect_proto : Proxy F → Scheme → Option Proto
  unfolding tunnel_proto
  connect_proto p scheme = or_passthrough p scheme (tunnel_proto p)

module _ {F : Type 0} ⦃f : Float F⦄ where
  -- `again` is the rest of the loop, with the last error.
  abbrev pub on_dial :
      (Option ProxyError → Pool F → Link × Pool F)
      → Pool F
      → Proxy F
      → ℕ
      → Negotiated
      → Link × Pool F
  on_dial again pool p now (inr stream) =
      (linked stream, put_ok pool (record_attempt p (some f.zero_f) none))
  on_dial again pool p now (inl e) =
      again (some e) (put_failed pool (record_attempt p none (some e)) now)

  abbrev pub on_proto :
      (Option ProxyError → Pool F → Link × Pool F)
      → DialTry F
      → Target
      → Option ProxyError
      → Pool F
      → Proxy F
      → Option Proto
      → Link × Pool F
  on_proto again a target last pool p none = again last (put_ok pool p)
  on_proto again a target last pool p (some proto) =
      on_dial again pool p a.now (dialled_to a.channel proto target p.auth a.dial)

  abbrev pub on_checkout :
      (Option ProxyError → Pool F → Link × Pool F)
      → DialTry F
      → Scheme
      → Target
      → Option ProxyError
      → Lease F × Pool F
      → Link × Pool F
  on_checkout again a scheme target last (no_proxy, left) = (none_available, left)
  on_checkout again a scheme target last (waiting, left) = (in_get, left)
  on_checkout again a scheme target last (leased p, left) =
      on_proto again a target last (act_all left a.meanwhile) p (connect_proto p scheme)

  -- The loop: how many tries are left, and the number of the next one.
  unfoldable pub connect_from :
      (ℕ → DialTry F)
      → ℕ
      → ℕ
      → Scheme
      → Target
      → ClientKey
      → Option ProxyError
      → Pool F
      → Link × Pool F
  unfolding get connect_proto negotiate put_ok put_failed record_attempt
  connect_from env zero attempt scheme target key last pool = (all_failed last, pool)
  connect_from env (suc n) attempt scheme target key last pool =
      on_checkout (λ e q. connect_from env n (attempt + 1) scheme target key e q) (env attempt)
        scheme target last (get (env attempt).rounds scheme key pool)

  abbrev pub to_host :
      (ℕ → DialTry F) → ℕ → Uri → (Text → Option IpAddr) → Pool F → Option Text → Link × Pool F
  to_host env max_tries uri resolve pool none = (no_host, pool)
  to_host env max_tries uri resolve pool (some raw_host) =
      let scheme = scheme_of uri.scheme_str in
      let host = bare_of raw_host (strip_prefix (text "[") raw_host) in
      connect_from env max_tries 0 scheme
        (record { host = host; ip_addr = resolve host; port = port_of scheme uri.port_u16 })
        (ClientKey.ip (IpAddr.v4 0)) none pool

  unfoldable pub connect :
      (ℕ → DialTry F) → ℕ → Uri → (Text → Option IpAddr) → Pool F → Link × Pool F
  unfolding connect_from strip_prefix
  connect env max_tries uri resolve pool = to_host env max_tries uri resolve pool uri.host
