-- ===== src/Server/Allowed.antt =====
-- `relay` in src/server.rs: with a set of allowed status codes, no other answer reaches the client.
use proxybroker_rs.Errors.{disallowed_status, error_eq}
use proxybroker_rs.Negotiator.Handshakes.{Negotiated, Stream, negotiate}
use proxybroker_rs.Prelude.{
  Bool, List, [], any, false, if◌then◌else◌, inl, inr, not, refl, some, true, ℕ, ◌++◌, ◌≡◌, ◌⊎◌,
}
use proxybroker_rs.Prelude.Equality.{list_eq, nat_eq, ◌==◌}
use proxybroker_rs.Proxy.Record.{Proxy}
use proxybroker_rs.Server.Heads.{inject_header, parse_http_status, request_has_body}
use proxybroker_rs.Server.Relay.{
  Dial, Ending, RelayRun, StatusLine, Wire, after_client, after_upstream, answer, breaks,
  code_allowed, completes, connected, dialled, events_of, forward, lasts, negotiated, on_status,
  proxy_info, read_status_line, refused, relay, retry_after, sanitized_for, splice, target_of,
  timed_out,
}
use proxybroker_rs.Server.Requests.{ClientRequest, Event, Frontend, IpText, frontend_eq}
use proxybroker_rs.Text.{Text}
use proxybroker_rs.Types.Proto.{Proto, proto_eq, proto_ranked}

-- Nothing has reached the client, or the answer whose status line has been read from the proxy and
-- has a code of the set, with the header that names the proxy.
abbrev pub IsChecked : Wire → Text → List ℕ → List Event → RelayRun → Type 0
IsChecked w info codes reply run =
    (run.to_client ≡ [])
    ⊎ ((line : Text) × (read_status_line reply ≡ inr line)
        × (any (λ c. c == parse_http_status line) codes ≡ true)
        × (run.to_client ≡ inject_header line info ++ w.spliced))

committed-IsChecked :
    (w : Wire) (info : Text) (codes : List ℕ) (reply : List Event) (request line : Text)
    (d : Ending)
    → read_status_line reply ≡ inr line
    → any (λ c. c == parse_http_status line) codes ≡ true
    → IsChecked w info codes reply
        (after_client d request (splice w (inject_header line info) request))
committed-IsChecked w info codes reply request line completes read listed =
    inr (line, read, listed, refl)
committed-IsChecked w info codes reply request line breaks read listed = inl refl
committed-IsChecked w info codes reply request line lasts read listed = inl refl

on_status-IsChecked :
    (w : Wire) (info : Text) (codes : List ℕ) (reply : List Event) (request : Text) (o : StatusLine)
    → read_status_line reply ≡ o
    → IsChecked w info codes reply (on_status w (some codes) info request o)
unfolding on_status
on_status-IsChecked w info codes reply request (inl e) read = inl refl
on_status-IsChecked w info codes reply request (inr line) read =
    decided (code_allowed (some codes) (parse_http_status line)) refl
  where
    decided :
        (b : Bool)
        → any (λ c. c == parse_http_status line) codes ≡ b
        → IsChecked w info codes reply (
            if not b
            then retry_after request (disallowed_status (parse_http_status line))
            else after_client w.client_takes request (splice w (inject_header line info) request))
    decided false unlisted = inl refl
    decided true listed =
        committed-IsChecked w info codes reply request line w.client_takes read listed

after_upstream-IsChecked :
    (w : Wire) (info : Text) (codes : List ℕ) (reply : List Event) (request : Text) (run : RelayRun)
    (d : Ending)
    → IsChecked w info codes reply run
    → IsChecked w info codes reply (after_upstream d request run)
after_upstream-IsChecked w info codes reply request run completes h = h
after_upstream-IsChecked w info codes reply request run breaks h = inl refl
after_upstream-IsChecked w info codes reply request run lasts h = inl refl

module _ {F : Type 0} ⦃t : IpText⦄ where
  forward-IsChecked :
      (w : Wire) (p : Proxy F) (req : ClientRequest) (codes : List ℕ) (reply : List Event)
      → request_has_body req.raw ≡ false
      → IsChecked w (proxy_info p) codes reply (forward w p req (some codes) reply)
  unfolding forward
  forward-IsChecked w p req codes reply bodiless =
      let request = sanitized_for p req.raw in
      after_upstream-IsChecked w (proxy_info p) codes reply request _ w.upstream_takes (
        rw bodiless
          (on_status-IsChecked w (proxy_info p) codes reply request (read_status_line reply) refl))

  -- Over some stream to the proxy, if the negotiation has given one.
  abbrev pub ShowsAllowed : Wire → Proxy F → Negotiated → List ℕ → RelayRun → Type 0
  ShowsAllowed w p agreed codes run =
      (run.to_client ≡ [])
      ⊎ ((stream : Stream) × (agreed ≡ inr stream)
          × IsChecked w (proxy_info p) codes (events_of stream) run)

  answer-IsChecked :
      (w : Wire) (p : Proxy F) (req : ClientRequest) (codes : List ℕ) (reply : List Event)
      (front : Frontend)
      → front ≡ Frontend.http_forward
      → request_has_body req.raw ≡ false
      → IsChecked w (proxy_info p) codes reply (answer w p req (some codes) reply front)
  answer-IsChecked w p req codes reply Frontend.http_connect e bodiless = cc e
  answer-IsChecked w p req codes reply Frontend.socks5 e bodiless = cc e
  answer-IsChecked w p req codes reply Frontend.http_forward e bodiless =
      forward-IsChecked w p req codes reply bodiless

  negotiated-ShowsAllowed :
      (w : Wire) (p : Proxy F) (req : ClientRequest) (codes : List ℕ) (o : Negotiated)
      → req.frontend ≡ Frontend.http_forward
      → request_has_body req.raw ≡ false
      → ShowsAllowed w p o codes (negotiated w p req (some codes) o)
  negotiated-ShowsAllowed w p req codes (inl e) plain bodiless = inl refl
  negotiated-ShowsAllowed w p req codes (inr stream) plain bodiless =
      inr (
        stream,
        refl,
        answer-IsChecked w p req codes (events_of stream) req.frontend plain bodiless,
      )

  dialled-ShowsAllowed :
      (w : Wire) (p : Proxy F) (proto : Proto) (req : ClientRequest) (codes : List ℕ) (d : Dial)
      → req.frontend ≡ Frontend.http_forward
      → request_has_body req.raw ≡ false
      → ShowsAllowed w p
          (negotiate w.channel proto (target_of w req) p.auth)
          codes
          (dialled w p proto req (some codes) d)
  dialled-ShowsAllowed w p proto req codes timed_out plain bodiless = inl refl
  dialled-ShowsAllowed w p proto req codes refused plain bodiless = inl refl
  dialled-ShowsAllowed w p proto req codes connected plain bodiless =
      negotiated-ShowsAllowed w p req codes (negotiate w.channel proto (target_of w req) p.auth)
        plain bodiless

  -- With a set of allowed status codes, a plain request without a body gets nothing through `relay`,
  -- or exactly one answer: the status line that was read from the proxy, whose code is in the set,
  -- with the header that names the proxy, and then what the splicing brings. On no path does an
  -- answer with another code reach the client.
  pub relay-ShowsAllowed :
      (w : Wire) (p : Proxy F) (proto : Proto) (req : ClientRequest) (codes : List ℕ)
      → req.frontend ≡ Frontend.http_forward
      → request_has_body req.raw ≡ false
      → ShowsAllowed w p
          (negotiate w.channel proto (target_of w req) p.auth)
          codes
          (relay w p proto req (some codes))
  unfolding relay
  relay-ShowsAllowed w p proto req codes plain bodiless =
      dialled-ShowsAllowed w p proto req codes w.dial plain bodiless
