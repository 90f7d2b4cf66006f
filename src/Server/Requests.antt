-- ===== src/Server/Requests.antt =====
-- src/server.rs: a client's request and what is decided by it, and src/negotiator.rs,
-- `tunnel_proto`. The bytes that a peer sends are a list of events.
use proxybroker_rs.Net.{IpAddr, addr_eq, ip_eq, is_loopback}
use proxybroker_rs.Pool.State.{ClientKey, PoolConfig, client_key_eq, strategy_eq}
use proxybroker_rs.Prelude.{
  Bool, List, Option, [], drop, head?, if◌then◌else◌, is_some, keep, length, ltb, none, some, ℕ,
  ◌++◌, ◌||◌, ◌∷◌,
}
use proxybroker_rs.Prelude.Equality.{Eq, list_eq, nat_eq, ◌==◌}
use proxybroker_rs.Proxy.Measures.{has_type}
use proxybroker_rs.Proxy.Record.{Proxy}
use proxybroker_rs.Server.Heads.{header_value, split_host_port}
use proxybroker_rs.Text.{
  Text, lines, lowercase, same_letters, split, starts_with, strip_prefix, strip_suffix, text, trim,
  words,
}
use proxybroker_rs.Types.Proto.{Proto, proto_eq, proto_ranked}
use proxybroker_rs.Types.Scheme.{Scheme, scheme_eq}

-- How addresses are printed and read, of which the program relies on nothing but the names.
pub record IpText : Type 0 where
  pub show_ip : IpAddr → Text
  pub parse_ip : Text → Option IpAddr

pub data Frontend : Type 0 where
  http_forward http_connect socks5 : Frontend

unfoldable pub Frontend-discrete : Discrete Frontend
Frontend-discrete = hlevel

instance abbrev pub frontend_eq : Eq Frontend
frontend_eq = record { dec = Frontend-discrete }

pub record ClientRequest : Type 0 where
  pub scheme : Scheme
  pub frontend : Frontend
  pub host : Text
  pub port : ℕ
  pub raw : Text
  pub proxy_auth : Option Text
  pub path : Text

pub record AuthExpect : Type 0 where
  pub user : Text
  pub pass : Text
  pub basic : Text

-- One `read` of one byte; the list ends where the deadline falls.
pub data Event : Type 0 where
  byte : ℕ → Event
  closed failed : Event

abbrev pub terminal_failure : Frontend → Text
terminal_failure Frontend.socks5 = 5 ∷ 1 ∷ 0 ∷ 1 ∷ 0 ∷ 0 ∷ 0 ∷ 0 ∷ 0 ∷ 0 ∷ []
terminal_failure _ = text "HTTP/1.1 502 Bad Gateway\r\n\r\n"

abbrev by_header : IpAddr → Option Text → ClientKey
by_header peer none = ClientKey.ip peer
by_header peer (some v) = ClientKey.header v

abbrev sticky_value : Option Text → Text → Option Text
sticky_value none raw = none
sticky_value (some name) raw = header_value raw name

unfoldable pub client_key : {F : Type 0} → PoolConfig F → IpAddr → ClientRequest → ClientKey
unfolding header_value
client_key config peer req =
    if req.scheme == Scheme.http
    then by_header peer (sticky_value config.sticky_header req.raw)
    else ClientKey.ip peer

unfoldable pub control_remove_allowed : Bool → IpAddr → Bool
unfolding is_loopback
control_remove_allowed auth_configured peer = auth_configured || is_loopback peer

abbrev pub proto_or : Proto → Option Proto → Proto
proto_or d none = d
proto_or d (some c) = c

module _ {F : Type 0} where
  -- `candidates.iter().find(|c| types.contains(c))`.
  abbrev pub pick_proto : Proxy F → List Proto → Option Proto
  pick_proto p candidates = head? (keep (λ c. has_type c p) candidates)

  abbrev by_https : Proxy F → Option Proto → Option Proto
  by_https p (some c) = some c
  by_https p none = if has_type Proto.https p then some Proto.connect80 else none

  unfoldable pub tunnel_proto : Proxy F → Option Proto
  tunnel_proto p = by_https p (pick_proto p (Proto.socks5 ∷ Proto.socks4 ∷ Proto.connect80 ∷ []))

  unfoldable pub choose_proto : Proxy F → Scheme → Proto
  unfolding tunnel_proto
  choose_proto p Scheme.https = proto_or Proto.connect80 (tunnel_proto p)
  choose_proto p Scheme.http =
      proto_or Proto.http
        (pick_proto p (Proto.http ∷ Proto.connect80 ∷ Proto.socks5 ∷ Proto.socks4 ∷ []))

abbrev ends_with : Text → Text → Bool
ends_with p s = is_some (strip_suffix p s)

-- The loop of `parse_client_request` that reads up to the blank line.
unfoldable pub read_head : Text → List Event → Option Text
unfolding strip_suffix
read_head buf [] = none
read_head buf (closed ∷ es) = none
read_head buf (failed ∷ es) = none
read_head buf (byte c ∷ es) =
    let longer = buf ++ c ∷ [] in
    let more = read_head longer es in
    if ends_with (text "\r\n\r\n") longer || ltb 65536 (length longer) then some longer else more

abbrev host_after : Option Text → Option Text
host_after none = none
host_after (some l) = some (trim (drop 5 l))

-- The `Host` header among the lines after the first.
abbrev pub host_header : List Text → Option Text
host_header ls = host_after (head? (keep (λ l. starts_with (text "host:") (lowercase l)) ls))

abbrev pub authority : Option Text → Option Text → Option Text
authority none host = host
authority (some rest) host = head? (split b'/' rest)

abbrev pub forward_request : Text → Text → Option Text → Option Text → Option ClientRequest
forward_request buf uri auth none = none
forward_request buf uri auth (some host_port) =
    let (host, port) = split_host_port host_port 80 in
    some (record {
      scheme = Scheme.http;
      frontend = Frontend.http_forward;
      host = host;
      port = port;
      raw = buf;
      proxy_auth = auth;
      path = uri;
    })

abbrev pub connect_request : Text → Option Text → ClientRequest
connect_request uri auth =
    let (host, port) = split_host_port uri 443 in
    record {
      scheme = Scheme.https;
      frontend = Frontend.http_connect;
      host = host;
      port = port;
      raw = [];
      proxy_auth = auth;
      path = uri;
    }

abbrev pub request_of : Text → List Text → List Text → Option ClientRequest
request_of buf (method ∷ uri ∷ ws) headers =
    let auth = header_value buf (text "Proxy-Authorization") in
    if same_letters method (text "CONNECT")
    then some (connect_request uri auth)
    else forward_request buf uri auth
        (authority (strip_prefix (text "http://") uri) (host_header headers))
request_of buf _ headers = none

-- The HTTP half of `parse_client_request`, from the buffered head.
unfoldable pub parse_head : Text → Option ClientRequest
unfolding lines words header_value split_host_port strip_prefix split same_letters
parse_head buf = elim (lines buf) [
  | [] ↦ none
  | first ∷ headers ↦ request_of buf (words first) headers
]
