-- ===== src/Negotiator/Handshakes.antt =====
-- src/negotiator.rs: `negotiate`, the handshake with a proxy. The SOCKS handshakes and TLS are those
-- of libraries, whose outcome stands in the channel; the CONNECT and the SMTP banner are here.
use proxybroker_rs.Errors.{ProxyError, bad_response, bad_status, error_eq, reset, timeout}
use proxybroker_rs.Negotiator.Head.{HeadRead, read_proxy_head}
use proxybroker_rs.Net.{IpAddr, addr_eq, ip_eq}
use proxybroker_rs.Prelude.{
  Bool, List, Option, [], if◌then◌else◌, inl, inr, none, some, ℕ, ◌++◌, ◌∷◌, ◌⊎◌,
}
use proxybroker_rs.Prelude.Equality.{list_eq, nat_eq, ◌==◌}
use proxybroker_rs.Proxy.Record.{Credentials}
use proxybroker_rs.Server.Heads.{base64_encode, get_status_code}
use proxybroker_rs.Server.Requests.{Event, byte, frontend_eq}
use proxybroker_rs.Text.{Text, contains, strip_prefix, strip_suffix, text}
use proxybroker_rs.Text.Decimal.{show}
use proxybroker_rs.Types.Proto.{Proto, proto_eq, proto_ranked}

-- How a write ends.
pub data Sending : Type 0 where
  taken_whole stalled broken : Sending

-- How a handshake of a library ends; then come the bytes of the stream.
pub data Handshake : Type 0 where
  shaken : List Event → Handshake
  late other_failure : Handshake

-- Where a SOCKS5 proxy is asked to connect to.
pub data Destination : Type 0 where
  by_address : IpAddr → Destination
  by_name : Text → Destination

pub record Channel : Type 0 where
  pub sending : Sending
  -- What the proxy sends when it has got these bytes.
  pub answers : Text → List Event
  -- The handshakes of tokio-socks, with the IPv4 address, or the destination, and the port;
  -- `map_socks_err` makes the time-out of a socket one of the deadline, and is in the outcome.
  pub socks4_shake : ℕ → ℕ → Handshake
  pub socks5_shake : Destination → ℕ → Option Credentials → Handshake
  -- Whether the host is a name for TLS, and how the upgrade over a stream ends.
  pub is_server_name : Text → Bool
  pub tls : List Event → Handshake

pub record Target : Type 0 where
  pub host : Text
  pub ip_addr : Option IpAddr
  pub port : ℕ

-- The stream, with what is still to be read.
pub data Stream : Type 0 where
  plain_stream tls_stream : List Event → Stream

abbrev pub Negotiated : Type 0
Negotiated = ProxyError ⊎ Stream

abbrev pub bare_of : Text → Option Text → Text
bare_of host none = host
bare_of host (some h) = elim (strip_suffix (text "]") h) [ none ↦ host | some b ↦ b ]

abbrev pub auth_line : Option Credentials → Text
auth_line none = []
auth_line (some c) =
    text "Proxy-Authorization: Basic "
    ++ base64_encode (c.username ++ b':' ∷ c.password)
    ++ text "\r\n"

-- The version of Cargo.toml.
abbrev package_version : Text
package_version = text "0.4.7"

-- `connect_request`.
unfoldable pub connect_bytes : Text → ℕ → Option Credentials → Text
unfolding strip_prefix strip_suffix contains show base64_encode
connect_bytes host port creds =
    let bare = bare_of host (strip_prefix (text "[") host) in
    let host_hdr = if contains (text ":") bare then text "[" ++ bare ++ text "]" else bare in
    text "CONNECT "
    ++ host_hdr
    ++ text ":"
    ++ show port
    ++ text " HTTP/1.1\r\nHost: "
    ++ host_hdr
    ++ text "\r\nUser-Agent: PxBroker/"
    ++ package_version
    ++ text "/\r\n"
    ++ auth_line creds
    ++ text "Connection: keep-alive\r\n\r\n"

abbrev pub with_status : HeadRead → HeadRead
with_status (inl e) = inl e
with_status (inr (head, rest)) =
    if get_status_code head 9 12 == 200 then inr (head, rest) else inl bad_status

abbrev pub after_send : Sending → List Event → HeadRead
after_send stalled es = inl timeout
after_send broken es = inl reset
after_send taken_whole es = with_status (read_proxy_head [] es)

-- The answer to the CONNECT, if it is a 200, and what follows it.
unfoldable pub http_connect : Channel → Target → Option Credentials → HeadRead
unfolding read_proxy_head get_status_code connect_bytes
http_connect ch target creds =
    after_send ch.sending (ch.answers (connect_bytes target.host target.port creds))

abbrev smtp_stream : Text → List Event → Negotiated
smtp_stream banner rest =
    if get_status_code banner 0 3 == 220 then inr (plain_stream rest) else inl bad_status

-- The three bytes of the banner.
abbrev read_banner : List Event → Negotiated
read_banner (byte a ∷ byte b ∷ byte c ∷ es) = smtp_stream (a ∷ b ∷ c ∷ []) es
read_banner [] = inl timeout
read_banner (byte a ∷ []) = inl timeout
read_banner (byte a ∷ byte b ∷ []) = inl timeout
read_banner _ = inl reset

abbrev tls_over : Handshake → Negotiated
tls_over (shaken es) = inr (tls_stream es)
tls_over late = inl timeout
tls_over other_failure = inl bad_response

abbrev tls_upgrade : Channel → Text → List Event → Negotiated
tls_upgrade ch host es = if ch.is_server_name host then tls_over (ch.tls es) else inl bad_response

abbrev pub socks_stream : Handshake → Negotiated
socks_stream (shaken es) = inr (plain_stream es)
socks_stream late = inl timeout
socks_stream other_failure = inl bad_response

abbrev pub socks4 : Channel → ℕ → Option IpAddr → Negotiated
socks4 ch port (some (IpAddr.v4 n)) = socks_stream (ch.socks4_shake n port)
socks4 ch port _ = inl bad_response

-- The resolved address is preferred to the name.
abbrev destination : Text → Option IpAddr → Destination
destination host (some a) = by_address a
destination host none = by_name host

abbrev socks5 : Channel → Target → Option Credentials → Negotiated
socks5 ch target creds =
    socks_stream (ch.socks5_shake (destination target.host target.ip_addr) target.port creds)

abbrev pub then_over : (List Event → Negotiated) → HeadRead → Negotiated
then_over k (inl e) = inl e
then_over k (inr (head, rest)) = k rest

unfoldable pub negotiate : Channel → Proto → Target → Option Credentials → Negotiated
unfolding http_connect get_status_code
negotiate ch Proto.http target creds = inr (plain_stream (ch.answers []))
negotiate ch Proto.socks4 target creds = socks4 ch target.port target.ip_addr
negotiate ch Proto.socks5 target creds = socks5 ch target creds
negotiate ch Proto.connect80 target creds =
    then_over (λ es. inr (plain_stream es)) (http_connect ch target creds)
negotiate ch Proto.connect25 target creds = then_over read_banner (http_connect ch target creds)
negotiate ch Proto.https target creds =
    then_over (tls_upgrade ch target.host) (http_connect ch target creds)
