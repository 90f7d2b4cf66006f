-- ===== src/Checker/Attempt.antt =====
-- src/checker.rs: one connection attempt, and the check that is made of such attempts.
use proxybroker_rs.Checker.Check.{Attempt, Observation, check, errs, invalid, working}
use proxybroker_rs.Checker.Response.{
  Codecs, Headers, anonymity_level, assess, caps_from_content, decompress, max_judge_response,
  read_response, request_headers, response_is_valid, sent_header_names, split_head_body,
}
use proxybroker_rs.Checker.Setup.{
  CheckMode, Checker, LivenessTarget, Probe, at_judge, at_liveness, by_judges, by_liveness,
  in_dnsbl,
}
use proxybroker_rs.Connector.Dialing.{dialled_to}
use proxybroker_rs.Errors.{ProxyError, bad_status, error_eq, reset, timeout}
use proxybroker_rs.Float.{Float, nat_float}
use proxybroker_rs.Judges.{Judge, random_judge}
use proxybroker_rs.Negotiator.Handshakes.{
  Channel, Negotiated, Sending, Stream, Target, broken, negotiate, plain_stream, stalled,
  taken_whole, tls_stream,
}
use proxybroker_rs.Net.{Addr, IpAddr, addr_eq, ip_eq}
use proxybroker_rs.Parse.Scan.{Regexes, get_all_ip}
use proxybroker_rs.Prelude.{
  Bool, List, Option, [], if◌then◌else◌, inl, inr, is_empty, is_some, none, not, some, ℕ, ◌&&◌,
  ◌++◌, ◌∷◌, ◌⊎◌,
}
use proxybroker_rs.Prelude.Equality.{list_eq, nat_eq, ◌==◌}
use proxybroker_rs.Proxy.Record.{Proxy, addr_of}
use proxybroker_rs.Proxy.Trust.{no_trust, signal_eq}
use proxybroker_rs.Server.Heads.{get_status_code}
use proxybroker_rs.Server.Relay.{Dial}
use proxybroker_rs.Server.Requests.{Event, IpText, frontend_eq}
use proxybroker_rs.Text.{Text, contains, text}
use proxybroker_rs.Types.Proto.{
  Proto, checks_anon_level, judge_scheme, proto_eq, proto_ranked, uses_full_path,
}
use proxybroker_rs.Types.Scheme.{JudgeScheme, default_port, scheme_eq}
use proxybroker_rs.Types.TypeSpec.{no_caps}

-- What the environment does during one attempt: the connection, the channel, the write of the
-- request, what comes back when the request has been sent, the marker and the time it takes.
pub record AttemptEnv (F : Type 0) : Type 0 where
  pub dial : Addr → Dial
  pub channel : Channel
  pub writing : Sending
  pub replies : Text → List Event
  pub marker : Text
  pub rtt : F

abbrev pub header_lines : Headers → Text
header_lines [] = []
header_lines ((k, v) ∷ []) = k ++ text ": " ++ v
header_lines ((k, v) ∷ h ∷ hs) = k ++ text ": " ++ v ++ text "\r\n" ++ header_lines (h ∷ hs)

abbrev pub request_path : Proto → Text → Text → Text
request_path proto host path = if uses_full_path proto then text "http://" ++ host ++ path else path

abbrev pub request_text : Text → Text → Headers → Text
request_text method path hdrs =
    method ++ b' ' ∷ path ++ text " HTTP/1.1\r\n" ++ header_lines hdrs ++ text "\r\n\r\n"

unfoldable pub build_request : Bool → Text → Judge → Proto → Text
build_request post marker judge proto =
    request_text (if post then text "POST" else text "GET")
      (request_path proto judge.host judge.path)
      (request_headers (some marker)
        ++ (text "Host", judge.host)
          ∷ (text "Connection", text "close")
          ∷ (text "Content-Length", text "0")
          ∷ [])

unfoldable pub build_liveness_request : LivenessTarget → Proto → Text
build_liveness_request lt proto =
    request_text (text "GET") (request_path proto lt.host lt.path)
      (request_headers none ++ (text "Host", lt.host) ∷ (text "Connection", text "close") ∷ [])

abbrev pub no_observation : Observation
no_observation = record { level = none; caps = no_caps; trust = no_trust }

abbrev pub stream_events : Stream → List Event
stream_events (plain_stream es) = es
stream_events (tls_stream es) = es

module _ {F : Type 0} ⦃t : IpText⦄ ⦃x : Regexes⦄ where
  abbrev pub is_valid : Checker F → Text → Text → Bool
  is_valid c marker content =
      if c.relaxed_validity
      then contains marker content && not (is_empty (get_all_ip content))
      else response_is_valid content marker

  -- What a valid page shows.
  abbrev pub observed_in : Checker F → Proto → Judge → Text → Text → Observation
  observed_in c proto judge marker content = record {
    level =
        if checks_anon_level proto
        then some (anonymity_level c.real_ext_ips content judge)
        else none;
    caps = caps_from_content content;
    trust = if c.trust_check then assess sent_header_names marker content else no_trust;
  }

  unfoldable pub judge_content : Checker F → Proto → Judge → Text → Text → Attempt
  unfolding contains get_all_ip response_is_valid caps_from_content anonymity_level assess
  judge_content c proto judge marker content =
      if not (is_valid c marker content)
      then invalid
      else working (observed_in c proto judge marker content)

module _ {F : Type 0} ⦃t : IpText⦄ ⦃x : Regexes⦄ ⦃z : Codecs⦄ where
  abbrev pub on_probe : Checker F → Proto → Text → Text × Text → Probe → Attempt
  on_probe c proto marker (head, body) (at_liveness lt) = working no_observation
  on_probe c proto marker (head, body) (at_judge judge) =
      judge_content c proto judge marker (decompress head body)

  abbrev pub on_response : Checker F → Proto → Probe → Text → ProxyError ⊎ Text → Attempt
  on_response c proto probing marker (inl e) = errs e
  on_response c proto probing marker (inr raw) =
      if not (get_status_code (split_head_body raw).0 9 12 == 200)
      then errs bad_status
      else on_probe c proto marker (split_head_body raw) probing

  abbrev pub request_for : Checker F → Proto → Text → Probe → Text
  request_for c proto marker (at_judge judge) = build_request c.post marker judge proto
  request_for c proto marker (at_liveness lt) = build_liveness_request lt proto

  abbrev pub after_writing : Checker F → Proto → Probe → AttemptEnv F → Stream → Sending → Attempt
  after_writing c proto probing e stream stalled = errs timeout
  after_writing c proto probing e stream broken = errs reset
  after_writing c proto probing e stream taken_whole = on_response c proto probing e.marker (
      read_response max_judge_response
        (stream_events stream ++ e.replies (request_for c proto e.marker probing)))

  abbrev pub on_negotiated : Checker F → Proto → Probe → AttemptEnv F → Negotiated → Attempt
  on_negotiated c proto probing e (inl err) = errs err
  on_negotiated c proto probing e (inr stream) =
      if proto == Proto.connect25
      then working no_observation
      else after_writing c proto probing e stream e.writing

  unfoldable pub attempt : Checker F → Addr → Proto → Probe × Target → AttemptEnv F → Attempt
  unfolding negotiate read_response split_head_body get_status_code decompress judge_content
      build_request build_liveness_request
  attempt c addr proto (probing, target) e =
      on_negotiated c proto probing e (dialled_to e.channel proto target none (e.dial addr))

abbrev pub judge_target : JudgeScheme → Option Judge → Option (Probe × Target)
judge_target scheme none = none
judge_target scheme (some j) =
    some (at_judge j, record { host = j.host; ip_addr = j.ip_addr; port = default_port scheme })

module _ {F : Type 0} where
  -- The probe and the target of `check_one`; `draw` chooses the judge.
  abbrev pub target_in : Checker F → Proto → ℕ → CheckMode → Option (Probe × Target)
  target_in c proto draw by_judges =
      judge_target (judge_scheme proto) (random_judge c.judges (judge_scheme proto) draw)
  target_in c proto draw (by_liveness lt) = some (
    at_liveness lt,
    record { host = lt.host; ip_addr = some lt.ip_addr; port = default_port lt.scheme },
  )

module _ {F : Type 0} ⦃f : Float F⦄ ⦃t : IpText⦄ ⦃x : Regexes⦄ ⦃z : Codecs⦄ where
  -- One attempt with its time; there is none where there is no judge.
  abbrev pub timed_attempt :
      Checker F → Addr → Proto → Option (Probe × Target) → AttemptEnv F → Attempt × F
  timed_attempt c addr proto none e = (invalid, f.zero_f)
  timed_attempt c addr proto (some chosen) e = (attempt c addr proto chosen e, e.rtt)

  -- `Checker::check`; `draw` chooses the judge of each protocol and `resolves` is the resolver.
  unfoldable pub check_proxy :
      Checker F
      → (Proto → ℕ → AttemptEnv F)
      → (Proto → ℕ)
      → (Text → Option IpAddr)
      → Proxy F
      → Bool × Proxy F
  unfolding check attempt random_judge in_dnsbl
  check_proxy c env draw resolves p =
      check c.requested c.strict c.retry
        (λ proto i.
          timed_attempt c (addr_of p) proto (target_in c proto (draw proto) c.mode) (env proto i))
        (λ proto. is_some (target_in c proto (draw proto) c.mode))
        (in_dnsbl resolves p.host c.dnsbl) p
