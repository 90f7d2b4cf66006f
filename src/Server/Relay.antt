-- ===== src/Server/Relay.antt =====
-- src/server.rs: `relay`, one try to serve a request through a proxy. What the peers do during a
-- try is a record, in which the channel to the proxy stands.
use proxybroker_rs.Errors.{
  ProxyError, conn_failed, disallowed_status, empty_recv, error_eq, error_on_stream, reset, timeout,
}
use proxybroker_rs.Negotiator.Handshakes.{
  Channel, Negotiated, Stream, Target, negotiate, plain_stream, tls_stream,
}
use proxybroker_rs.Net.{IpAddr, addr_eq, ip_eq}
use proxybroker_rs.Prelude.{
  Bool, List, Option, [], any, if◌then◌else◌, inl, inr, leb, length, none, not, some, true, ℕ, ◌++◌,
  ◌||◌, ◌∷◌, ◌⊎◌,
}
use proxybroker_rs.Prelude.Equality.{list_eq, nat_eq, ◌==◌}
use proxybroker_rs.Proxy.Record.{Credentials, Proxy}
use proxybroker_rs.Server.Heads.{
  base64_encode, inject_header, parse_http_status, request_has_body, strip_header,
}
use proxybroker_rs.Server.Requests.{
  ClientRequest, Event, Frontend, IpText, byte, closed, failed, frontend_eq,
}
use proxybroker_rs.Text.{Text, text}
use proxybroker_rs.Text.Decimal.{show}
use proxybroker_rs.Types.Proto.{Proto, proto_eq, proto_ranked}

pub data Dial : Type 0 where
  timed_out refused connected : Dial

-- What becomes of an operation that has no timeout: it completes, it fails, or it never ends.
pub data Ending : Type 0 where
  completes breaks lasts : Ending

pub record Wire : Type 0 where
  pub dial : Dial
  -- The connection to the proxy, and the address that the resolver gave for the host.
  pub channel : Channel
  pub resolved : Option IpAddr
  -- The write to the client before the splicing, and the write of the request to the proxy.
  pub client_takes : Ending
  pub upstream_takes : Ending
  -- The splicing, and what it brings to the client.
  pub splicing : Ending
  pub spliced : Text

pub data RelayOutcome : Type 0 where
  ok : RelayOutcome
  retryable_failure client_committed : ProxyError → RelayOutcome
  client_gone : RelayOutcome

-- The outcome, `none` for a relay that never ends, with what was written to the client and the
-- request that the proxy got, all of it or a part. A write to the client that fails, or that never
-- ends, counts as nothing.
pub record RelayRun : Type 0 where
  pub outcome : Option RelayOutcome
  pub to_client : Text
  pub to_upstream : Text

-- What is still to be read of a stream.
abbrev pub events_of : Stream → List Event
events_of (plain_stream es) = es
events_of (tls_stream es) = es

abbrev pub target_of : Wire → ClientRequest → Target
target_of w req = record { host = req.host; ip_addr = w.resolved; port = req.port }

abbrev pub status_cap : ℕ
status_cap = 256

abbrev pub StatusLine : Type 0
StatusLine = ProxyError ⊎ Text

-- The loop of `read_status_line`, which ends at a line feed or at 256 bytes.
unfoldable pub read_status_from : Text → List Event → StatusLine
read_status_from head [] = inl timeout
read_status_from head (failed ∷ es) = inl reset
read_status_from head (closed ∷ es) = inl empty_recv
read_status_from head (byte c ∷ es) =
    let longer = head ++ c ∷ [] in
    let more = read_status_from longer es in
    if c == 10 || leb status_cap (length longer) then inr longer else more

unfoldable pub read_status_line : List Event → StatusLine
unfolding read_status_from
read_status_line es = read_status_from [] es

abbrev pub nothing_sent : RelayOutcome → RelayRun
nothing_sent o = record { outcome = some o; to_client = []; to_upstream = [] }

-- `copy_bidirectional`.
abbrev pub splice_outcome : Ending → Option RelayOutcome
splice_outcome completes = some RelayOutcome.ok
splice_outcome breaks = some (RelayOutcome.client_committed error_on_stream)
splice_outcome lasts = none

abbrev pub splice : Wire → Text → Text → RelayRun
splice w said request = record {
  outcome = splice_outcome w.splicing;
  to_client = said ++ w.spliced;
  to_upstream = request;
}

-- Before the splicing, with nothing written to the client.
abbrev pub unspliced : Option RelayOutcome → Text → RelayRun
unspliced o request = record { outcome = o; to_client = []; to_upstream = request }

-- The write to the client that commits it; `run` is what follows.
abbrev pub after_client : Ending → Text → RelayRun → RelayRun
after_client completes request run = run
after_client breaks request run = unspliced (some RelayOutcome.client_gone) request
after_client lasts request run = unspliced none request

-- The acknowledgement of a tunnel, which commits the client.
abbrev pub acknowledge : Wire → Text → RelayRun
acknowledge w ack = after_client w.client_takes [] (splice w ack [])

abbrev pub socks_success : Text
socks_success = 5 ∷ 0 ∷ 0 ∷ 1 ∷ 0 ∷ 0 ∷ 0 ∷ 0 ∷ 0 ∷ 0 ∷ []

abbrev pub retry_after : Text → ProxyError → RelayRun
retry_after request e = unspliced (some (RelayOutcome.retryable_failure e)) request

-- The write of the request to the proxy; `run` is what follows.
abbrev pub after_upstream : Ending → Text → RelayRun → RelayRun
after_upstream completes request run = run
after_upstream breaks request run = retry_after request reset
after_upstream lasts request run = unspliced none request

abbrev pub code_allowed : Option (List ℕ) → ℕ → Bool
code_allowed none code = true
code_allowed (some codes) code = any (λ c. c == code) codes

-- The status line has been read; `info` is the header that it gets.
unfoldable pub on_status : Wire → Option (List ℕ) → Text → Text → StatusLine → RelayRun
unfolding parse_http_status inject_header
on_status w allowed info request (inl e) = retry_after request e
on_status w allowed info request (inr line) =
    if not (code_allowed allowed (parse_http_status line))
    then retry_after request (disallowed_status (parse_http_status line))
    else after_client w.client_takes request (splice w (inject_header line info) request)

abbrev pub with_credentials : Text → Option Credentials → Text
with_credentials sanitized none = sanitized
with_credentials sanitized (some c) = inject_header sanitized (
    text "Proxy-Authorization: Basic "
    ++ base64_encode (c.username ++ b':' ∷ c.password)
    ++ text "\r\n")

module _ {F : Type 0} ⦃t : IpText⦄ where
  -- `{host}:{port}`, as a header.
  unfoldable pub proxy_info : Proxy F → Text
  unfolding show
  proxy_info p = text "X-Proxy-Info: " ++ t.show_ip p.host ++ b':' ∷ show p.port ++ text "\r\n"

  abbrev pub connect_ack : Proxy F → Text
  connect_ack p = text "HTTP/1.1 200 Connection established\r\n" ++ proxy_info p ++ text "\r\n"

  -- What is forwarded: without the client's secret, with the proxy's.
  unfoldable pub sanitized_for : Proxy F → Text → Text
  unfolding strip_header inject_header base64_encode
  sanitized_for p raw = with_credentials (strip_header raw (text "Proxy-Authorization")) p.auth

  -- `reply` is what the proxy answers before the splicing.
  unfoldable pub forward : Wire → Proxy F → ClientRequest → Option (List ℕ) → List Event → RelayRun
  unfolding sanitized_for on_status read_status_line request_has_body proxy_info
  forward w p req allowed reply =
      let request = sanitized_for p req.raw in
      after_upstream w.upstream_takes request (
        if request_has_body req.raw
        then splice w [] request
        else on_status w allowed (proxy_info p) request (read_status_line reply))

  abbrev pub answer :
      Wire → Proxy F → ClientRequest → Option (List ℕ) → List Event → Frontend → RelayRun
  answer w p req allowed reply Frontend.http_connect = acknowledge w (connect_ack p)
  answer w p req allowed reply Frontend.socks5 = acknowledge w socks_success
  answer w p req allowed reply Frontend.http_forward = forward w p req allowed reply

  abbrev pub negotiated : Wire → Proxy F → ClientRequest → Option (List ℕ) → Negotiated → RelayRun
  negotiated w p req allowed (inl e) = nothing_sent (RelayOutcome.retryable_failure e)
  negotiated w p req allowed (inr stream) = answer w p req allowed (events_of stream) req.frontend

  abbrev pub dialled : Wire → Proxy F → Proto → ClientRequest → Option (List ℕ) → Dial → RelayRun
  dialled w p proto req allowed timed_out = nothing_sent (RelayOutcome.retryable_failure timeout)
  dialled w p proto req allowed refused = nothing_sent (RelayOutcome.retryable_failure conn_failed)
  dialled w p proto req allowed connected =
      negotiated w p req allowed (negotiate w.channel proto (target_of w req) p.auth)

  unfoldable pub relay : Wire → Proxy F → Proto → ClientRequest → Option (List ℕ) → RelayRun
  unfolding forward proxy_info negotiate
  relay w p proto req allowed = dialled w p proto req allowed w.dial
