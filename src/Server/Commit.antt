-- ===== src/Server/Commit.antt =====
-- `relay`: a failure that is tried again has not reached the client, and what a relay that never
-- ends is waiting for.
use proxybroker_rs.Errors.{ProxyError, error_eq}
use proxybroker_rs.Negotiator.Handshakes.{Negotiated, negotiate}
use proxybroker_rs.Prelude.{
  Bool, List, Option, [], false, if◌then◌else◌, inl, inr, none, not, refl, some, true, ℕ, ◌≡◌, ◌⊎◌,
}
use proxybroker_rs.Proxy.Record.{Proxy}
use proxybroker_rs.Server.Heads.{parse_http_status, request_has_body}
use proxybroker_rs.Server.Relay.{
  Dial, Ending, RelayOutcome, RelayRun, StatusLine, Wire, acknowledge, after_client, after_upstream,
  answer, breaks, code_allowed, completes, connect_ack, connected, dialled, events_of, forward,
  lasts, negotiated, on_status, proxy_info, read_status_line, refused, relay, socks_success, splice,
  splice_outcome, target_of, timed_out, unspliced,
}
use proxybroker_rs.Server.Requests.{ClientRequest, Event, Frontend, IpText, frontend_eq}
use proxybroker_rs.Text.{Text}
use proxybroker_rs.Types.Proto.{Proto, proto_eq, proto_ranked}

-- A peer keeps an operation that has no timeout from ending.
abbrev pub CanLast : Wire → Type 0
CanLast w = (w.client_takes ≡ lasts) ⊎ ((w.upstream_takes ≡ lasts) ⊎ (w.splicing ≡ lasts))

pub record IsPositional (w : Wire) (run : RelayRun) : Type 0 where
  pub unseen :
      (e : ProxyError) → run.outcome ≡ some (RelayOutcome.retryable_failure e) → run.to_client ≡ []
  pub stuck : run.outcome ≡ none → CanLast w

unspliced-IsPositional :
    (w : Wire) (o : RelayOutcome) (request : Text) → IsPositional w (unspliced (some o) request)
unspliced-IsPositional w o request = record { unseen = λ e h. refl; stuck = λ h. cc h }

splice_outcome-final :
    (d : Ending) (e : ProxyError) → ¬ (splice_outcome d ≡ some (RelayOutcome.retryable_failure e))
splice_outcome-final completes e h = cc h
splice_outcome-final breaks e h = cc h
splice_outcome-final lasts e h = cc h

splice_outcome-lasts : (d : Ending) → splice_outcome d ≡ none → d ≡ lasts
splice_outcome-lasts completes h = cc h
splice_outcome-lasts breaks h = cc h
splice_outcome-lasts lasts h = refl

splice-IsPositional : (w : Wire) (said request : Text) → IsPositional w (splice w said request)
splice-IsPositional w said request = record {
  unseen = λ e h. absurd (splice_outcome-final w.splicing e h);
  stuck = λ h. inr (inr (splice_outcome-lasts w.splicing h));
}

after_client-IsPositional :
    (w : Wire) (d : Ending) (request : Text) (run : RelayRun)
    → w.client_takes ≡ d
    → IsPositional w run
    → IsPositional w (after_client d request run)
after_client-IsPositional w completes request run e h = h
after_client-IsPositional w breaks request run e h = unspliced-IsPositional w _ request
after_client-IsPositional w lasts request run e h = record {
  unseen = λ e h. refl;
  stuck = λ h. inl e;
}

after_upstream-IsPositional :
    (w : Wire) (d : Ending) (request : Text) (run : RelayRun)
    → w.upstream_takes ≡ d
    → IsPositional w run
    → IsPositional w (after_upstream d request run)
after_upstream-IsPositional w completes request run e h = h
after_upstream-IsPositional w breaks request run e h = unspliced-IsPositional w _ request
after_upstream-IsPositional w lasts request run e h = record {
  unseen = λ e h. refl;
  stuck = λ h. inr (inl e);
}

-- `IsPositional` of both branches.
if-IsPositional :
    (w : Wire) (b : Bool) (x y : RelayRun)
    → IsPositional w x
    → IsPositional w y
    → IsPositional w (if b then x else y)
if-IsPositional w true x y hx hy = hx
if-IsPositional w false x y hx hy = hy

on_status-IsPositional :
    (w : Wire) (allowed : Option (List ℕ)) (info request : Text) (line : StatusLine)
    → IsPositional w (on_status w allowed info request line)
unfolding on_status
on_status-IsPositional w allowed info request (inl e) = unspliced-IsPositional w _ request
on_status-IsPositional w allowed info request (inr line) =
    if-IsPositional w (not (code_allowed allowed (parse_http_status line))) _ _
      (unspliced-IsPositional w _ request)
      (after_client-IsPositional w w.client_takes request _ refl (splice-IsPositional w _ request))

acknowledge-IsPositional : (w : Wire) (ack : Text) → IsPositional w (acknowledge w ack)
acknowledge-IsPositional w ack =
    after_client-IsPositional w w.client_takes [] _ refl (splice-IsPositional w ack [])

module _ {F : Type 0} ⦃t : IpText⦄ where
  forward-IsPositional :
      (w : Wire) (p : Proxy F) (req : ClientRequest) (allowed : Option (List ℕ))
      (reply : List Event)
      → IsPositional w (forward w p req allowed reply)
  unfolding forward
  forward-IsPositional w p req allowed reply =
      after_upstream-IsPositional w w.upstream_takes _ _ refl (
        if-IsPositional w (request_has_body req.raw) _ _ (splice-IsPositional w [] _)
          (on_status-IsPositional w allowed (proxy_info p) _ (read_status_line reply)))

  answer-IsPositional :
      (w : Wire) (p : Proxy F) (req : ClientRequest) (allowed : Option (List ℕ))
      (reply : List Event) (front : Frontend)
      → IsPositional w (answer w p req allowed reply front)
  answer-IsPositional w p req allowed reply Frontend.http_connect =
      acknowledge-IsPositional w (connect_ack p)
  answer-IsPositional w p req allowed reply Frontend.socks5 =
      acknowledge-IsPositional w socks_success
  answer-IsPositional w p req allowed reply Frontend.http_forward =
      forward-IsPositional w p req allowed reply

  negotiated-IsPositional :
      (w : Wire) (p : Proxy F) (req : ClientRequest) (allowed : Option (List ℕ)) (o : Negotiated)
      → IsPositional w (negotiated w p req allowed o)
  negotiated-IsPositional w p req allowed (inl e) = unspliced-IsPositional w _ _
  negotiated-IsPositional w p req allowed (inr stream) =
      answer-IsPositional w p req allowed (events_of stream) req.frontend

  dialled-IsPositional :
      (w : Wire) (p : Proxy F) (proto : Proto) (req : ClientRequest) (allowed : Option (List ℕ))
      (d : Dial)
      → IsPositional w (dialled w p proto req allowed d)
  dialled-IsPositional w p proto req allowed timed_out = unspliced-IsPositional w _ _
  dialled-IsPositional w p proto req allowed refused = unspliced-IsPositional w _ _
  dialled-IsPositional w p proto req allowed connected =
      negotiated-IsPositional w p req allowed (negotiate w.channel proto (target_of w req) p.auth)

  pub relay-IsPositional :
      (w : Wire) (p : Proxy F) (proto : Proto) (req : ClientRequest) (allowed : Option (List ℕ))
      → IsPositional w (relay w p proto req allowed)
  unfolding relay
  relay-IsPositional w p proto req allowed = dialled-IsPositional w p proto req allowed w.dial

  -- When `relay` reports a failure that may be tried again, it has written nothing to the client,
  -- on every path.
  pub relay-unseen :
      (w : Wire) (p : Proxy F) (proto : Proto) (req : ClientRequest) (allowed : Option (List ℕ))
      (e : ProxyError)
      → (relay w p proto req allowed).outcome ≡ some (RelayOutcome.retryable_failure e)
      → (relay w p proto req allowed).to_client ≡ []
  relay-unseen w p proto req allowed e retried =
      (relay-IsPositional w p proto req allowed).unseen e retried
