-- ===== src/Negotiator/Opaque.antt =====
-- `negotiate` over the protocols that `choose_proto` of src/server.rs takes for a tunnel.
use proxybroker_rs.Negotiator.Handshakes.{
  Channel, Handshake, Negotiated, Stream, Target, late, negotiate, other_failure, plain_stream,
  shaken, socks4, socks_stream, then_over, tls_stream, http_connect,
}
use proxybroker_rs.Negotiator.Head.{HeadRead}
use proxybroker_rs.Net.{IpAddr, addr_eq, ip_eq}
use proxybroker_rs.Prelude.{Bool, Option, false, inl, inr, none, some, true, ℕ, ◌≡◌, refl}
use proxybroker_rs.Proxy.Record.{Credentials, Proxy}
use proxybroker_rs.Server.Choices.{is_tunnel, tunnel_proto_lem}
use proxybroker_rs.Server.Requests.{choose_proto, frontend_eq}
use proxybroker_rs.Types.Proto.{Proto, proto_eq, proto_ranked}
use proxybroker_rs.Types.Scheme.{Scheme, scheme_eq}

-- The stream is the connection itself, without TLS of the program's own.
abbrev pub is_opaque : Stream → Bool
is_opaque (plain_stream es) = true
is_opaque (tls_stream es) = false

-- A negotiation that succeeds gives such a stream.
abbrev pub IsOpaque : Negotiated → Type 0
IsOpaque r = (s : Stream) → r ≡ inr s → is_opaque s ≡ true

socks_stream-IsOpaque : (h : Handshake) → IsOpaque (socks_stream h)
socks_stream-IsOpaque (shaken es) (plain_stream fs) e = refl
socks_stream-IsOpaque (shaken es) (tls_stream fs) e = cc e
socks_stream-IsOpaque late s e = cc e
socks_stream-IsOpaque other_failure s e = cc e

socks4-IsOpaque : (ch : Channel) (port : ℕ) (o : Option IpAddr) → IsOpaque (socks4 ch port o)
socks4-IsOpaque ch port (some (IpAddr.v4 n)) = socks_stream-IsOpaque (ch.socks4_shake n port)
socks4-IsOpaque ch port (some (IpAddr.v6 n)) = λ s e. cc e
socks4-IsOpaque ch port none = λ s e. cc e

connected-IsOpaque : (r : HeadRead) → IsOpaque (then_over (λ es. inr (plain_stream es)) r)
connected-IsOpaque (inl err') s e = cc e
connected-IsOpaque (inr (head, rest)) (plain_stream fs) e = refl
connected-IsOpaque (inr (head, rest)) (tls_stream fs) e = cc e

pub negotiate-IsOpaque :
    (ch : Channel) (proto : Proto) (target : Target) (creds : Option Credentials)
    → is_tunnel proto ≡ true
    → IsOpaque (negotiate ch proto target creds)
unfolding negotiate
negotiate-IsOpaque ch Proto.http target creds h = cc h
negotiate-IsOpaque ch Proto.https target creds h = cc h
negotiate-IsOpaque ch Proto.connect25 target creds h = cc h
negotiate-IsOpaque ch Proto.socks4 target creds h = socks4-IsOpaque ch target.port target.ip_addr
negotiate-IsOpaque ch Proto.socks5 target creds h = socks_stream-IsOpaque _
negotiate-IsOpaque ch Proto.connect80 target creds h =
    connected-IsOpaque (http_connect ch target creds)

module _ {F : Type 0} where
  -- Over the protocol that is chosen for an HTTPS request, a negotiation that succeeds gives the
  -- bare connection: the program does not end the client's TLS with a TLS session of its own.
  pub negotiate-choose_proto :
      (p : Proxy F) (ch : Channel) (target : Target) (creds : Option Credentials) (stream : Stream)
      → negotiate ch (choose_proto p Scheme.https) target creds ≡ inr stream
      → is_opaque stream ≡ true
  negotiate-choose_proto p ch target creds stream e =
      negotiate-IsOpaque ch (choose_proto p Scheme.https) target creds (tunnel_proto_lem p).0 stream
        e
