-- ===== src/Connector/Outcomes.antt =====
-- `connect` of src/connector.rs: the kind of stream that it gives, and that it ends.
use proxybroker_rs.Connector.Dialing.{
  DialTry, Link, Uri, connect, connect_from, connect_proto, dialled_to, linked, on_checkout,
  on_dial, on_proto, to_host, scheme_of,
}
use proxybroker_rs.Errors.{ProxyError}
use proxybroker_rs.Float.{Float, nat_float}
use proxybroker_rs.Negotiator.Handshakes.{
  Channel, Negotiated, Stream, Target, negotiate, plain_stream, tls_stream,
}
use proxybroker_rs.Negotiator.Opaque.{IsOpaque, is_opaque, negotiate-IsOpaque}
use proxybroker_rs.Net.{IpAddr}
use proxybroker_rs.Pool.Get.{Lease, leased, no_proxy, waiting}
use proxybroker_rs.Pool.State.{ClientKey, Pool}
use proxybroker_rs.Prelude.{
  Bool, Option, inl, inr, none, [], refl, some, suc, true, zero, ℕ, ◌+◌, ◌≡◌, arith,
}
use proxybroker_rs.Proxy.Record.{Credentials, Proxy}
use proxybroker_rs.Server.Choices.{is_tunnel}
use proxybroker_rs.Server.Relay.{Dial, connected, refused, timed_out}
use proxybroker_rs.Server.Requests.{tunnel_proto}
use proxybroker_rs.Text.{Text}
use proxybroker_rs.Types.Proto.{Proto}
use proxybroker_rs.Types.Scheme.{Scheme}

-- HTTP needs no handshake, and all else that the connector takes is a tunnel.
abbrev is_raw : Proto → Bool
is_raw Proto.http = true
is_raw proto = is_tunnel proto

passthrough-IsOpaque : (ch : Channel) → IsOpaque (inr (plain_stream (ch.answers [])))
passthrough-IsOpaque ch (plain_stream es) e = refl
passthrough-IsOpaque ch (tls_stream es) e = cc e

raw-IsOpaque :
    (ch : Channel) (proto : Proto) (target : Target) (creds : Option Credentials)
    → is_raw proto ≡ true
    → IsOpaque (negotiate ch proto target creds)
unfolding negotiate
raw-IsOpaque ch Proto.http target creds h = passthrough-IsOpaque ch
raw-IsOpaque ch Proto.https target creds h = cc h
raw-IsOpaque ch Proto.connect25 target creds h = cc h
raw-IsOpaque ch Proto.socks4 target creds h = negotiate-IsOpaque ch Proto.socks4 target creds refl
raw-IsOpaque ch Proto.socks5 target creds h = negotiate-IsOpaque ch Proto.socks5 target creds refl
raw-IsOpaque ch Proto.connect80 target creds h =
    negotiate-IsOpaque ch Proto.connect80 target creds refl

dialled_to-IsOpaque :
    (ch : Channel) (proto : Proto) (target : Target) (creds : Option Credentials) (d : Dial)
    → is_raw proto ≡ true
    → IsOpaque (dialled_to ch proto target creds d)
dialled_to-IsOpaque ch proto target creds timed_out h = λ s e. cc e
dialled_to-IsOpaque ch proto target creds refused h = λ s e. cc e
dialled_to-IsOpaque ch proto target creds connected h = raw-IsOpaque ch proto target creds h

module _ {F : Type 0} where
  connect_proto-raw :
      (p : Proxy F) (scheme : Scheme) (proto : Proto)
      → connect_proto p scheme ≡ some proto
      → is_raw proto ≡ true
  unfolding connect_proto tunnel_proto
  connect_proto-raw p scheme proto e = ground arith

module _ {F : Type 0} ⦃f : Float F⦄ where
  -- The stream of a connection that succeeded is the bare connection to the proxy.
  abbrev IsBare : Link × Pool F → Type 0
  IsBare run = (s : Stream) → run.0 ≡ linked s → is_opaque s ≡ true

  on_dial-IsBare :
      (again : Option ProxyError → Pool F → Link × Pool F) (pool : Pool F) (p : Proxy F) (now : ℕ)
      (r : Negotiated)
      → IsOpaque r
      → ((e : Option ProxyError) (q : Pool F) → IsBare (again e q))
      → IsBare (on_dial again pool p now r)
  on_dial-IsBare again pool p now (inr stream) bare rest = λ s e. bare s (cc e)
  on_dial-IsBare again pool p now (inl err') bare rest = rest _ _

  on_proto-IsBare :
      (again : Option ProxyError → Pool F → Link × Pool F) (a : DialTry F) (target : Target)
      (last : Option ProxyError) (pool : Pool F) (p : Proxy F) (o : Option Proto)
      → ((proto : Proto) → o ≡ some proto → is_raw proto ≡ true)
      → ((e : Option ProxyError) (q : Pool F) → IsBare (again e q))
      → IsBare (on_proto again a target last pool p o)
  on_proto-IsBare again a target last pool p none raw rest = rest _ _
  on_proto-IsBare again a target last pool p (some proto) raw rest =
      on_dial-IsBare again pool p a.now _
        (dialled_to-IsOpaque a.channel proto target p.auth a.dial (raw proto refl)) rest

  on_checkout-IsBare :
      (again : Option ProxyError → Pool F → Link × Pool F) (a : DialTry F) (scheme : Scheme)
      (target : Target) (last : Option ProxyError) (got : Lease F × Pool F)
      → ((e : Option ProxyError) (q : Pool F) → IsBare (again e q))
      → IsBare (on_checkout again a scheme target last got)
  on_checkout-IsBare again a scheme target last (no_proxy, left) rest = λ s e. cc e
  on_checkout-IsBare again a scheme target last (waiting, left) rest = λ s e. cc e
  on_checkout-IsBare again a scheme target last (leased p, left) rest =
      on_proto-IsBare again a target last _ p (connect_proto p scheme) (connect_proto-raw p scheme)
        rest

  connect_from-IsBare :
      (env : ℕ → DialTry F) (n attempt : ℕ) (scheme : Scheme) (target : Target) (key : ClientKey)
      (last : Option ProxyError) (pool : Pool F)
      → IsBare (connect_from env n attempt scheme target key last pool)
  unfolding connect_from
  connect_from-IsBare env zero attempt scheme target key last pool = λ s e. cc e
  connect_from-IsBare env (suc n) attempt scheme target key last pool =
      on_checkout-IsBare (λ e q. connect_from env n (attempt + 1) scheme target key e q)
        (env attempt) scheme target last _
        λ e q. connect_from-IsBare env n (attempt + 1) scheme target key e q

  to_host-IsBare :
      (env : ℕ → DialTry F) (max_tries : ℕ) (uri : Uri) (resolve : Text → Option IpAddr)
      (pool : Pool F) (host : Option Text)
      → IsBare (to_host env max_tries uri resolve pool host)
  to_host-IsBare env max_tries uri resolve pool none = λ s e. cc e
  to_host-IsBare env max_tries uri resolve pool (some host) =
      connect_from-IsBare env max_tries 0 (scheme_of uri.scheme_str) _ _ none pool

  -- A stream that `connect` gives is the bare connection to a proxy, over which no TLS session of
  -- the program's own runs: the caller's TLS is the only one.
  pub connect-is_opaque :
      (env : ℕ → DialTry F) (max_tries : ℕ) (uri : Uri) (resolve : Text → Option IpAddr)
      (pool : Pool F) (stream : Stream)
      → (connect env max_tries uri resolve pool).0 ≡ linked stream
      → is_opaque stream ≡ true
  unfolding connect
  connect-is_opaque env max_tries uri resolve pool =
      to_host-IsBare env max_tries uri resolve pool uri.host
