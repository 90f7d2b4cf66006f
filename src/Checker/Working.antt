-- ===== src/Checker/Working.antt =====
-- What an attempt of src/checker.rs that works has been through.
use proxybroker_rs.Checker.Attempt.{
  AttemptEnv, after_writing, attempt, no_observation, on_negotiated, on_probe, on_response,
  request_for, stream_events,
}
use proxybroker_rs.Checker.Check.{Observation, working}
use proxybroker_rs.Checker.Evidence.{IsShown, judge_content-working, working-injective}
use proxybroker_rs.Checker.Response.{
  Codecs, decompress, max_judge_response, read_response, split_head_body,
}
use proxybroker_rs.Checker.Setup.{Checker, Probe, at_judge, at_liveness}
use proxybroker_rs.Connector.Dialing.{dialled_to}
use proxybroker_rs.Errors.{ProxyError, error_eq}
use proxybroker_rs.Negotiator.Handshakes.{
  Negotiated, Sending, Stream, Target, broken, stalled, taken_whole,
}
use proxybroker_rs.Net.{Addr, addr_eq, ip_eq}
use proxybroker_rs.Parse.Scan.{Regexes}
use proxybroker_rs.Prelude.{Bool-cases, List, inl, inr, none, refl, sym, ◌++◌, ◌≡◌, ◌⊎◌}
use proxybroker_rs.Prelude.Equality.{==_iff, list_eq, nat_eq, ◌==◌}
use proxybroker_rs.Server.Heads.{get_status_code}
use proxybroker_rs.Server.Requests.{Event, IpText, frontend_eq}
use proxybroker_rs.Text.{Text}
use proxybroker_rs.Types.Proto.{Proto, proto_eq, proto_ranked}

module _ {F : Type 0} ⦃t : IpText⦄ ⦃x : Regexes⦄ ⦃z : Codecs⦄ where
  -- The page shows what has been observed; a liveness endpoint shows nothing but its status.
  abbrev pub ShownBy : Checker F → Proto → Text → Text × Text → Probe → Observation → Type 0
  ShownBy c proto marker (head, body) (at_liveness lt) obs = obs ≡ no_observation
  ShownBy c proto marker (head, body) (at_judge judge) obs =
      IsShown c proto judge marker (decompress head body) obs

  -- What the stream gives when the request has been sent.
  abbrev pub incoming : Checker F → Proto → Probe → AttemptEnv F → Stream → List Event
  incoming c proto probing e stream =
      stream_events stream ++ e.replies (request_for c proto e.marker probing)

  -- The proxy has taken the whole request and has answered it with a 200 and such a page.
  pub record HasAnswered (c : Checker F) (proto : Proto) (probing : Probe) (e : AttemptEnv F)
      (stream : Stream) (obs : Observation) : Type 0 where
    pub raw : Text
    pub sent : e.writing ≡ taken_whole
    pub read : read_response max_judge_response (incoming c proto probing e stream) ≡ inr raw
    pub ok_status : get_status_code (split_head_body raw).0 9 12 ≡ 200
    pub shown : ShownBy c proto e.marker (split_head_body raw) probing obs

  on_probe-working :
      (c : Checker F) (proto : Proto) (marker : Text) (parts : Text × Text) (probing : Probe)
      (obs : Observation)
      → on_probe c proto marker parts probing ≡ working obs
      → ShownBy c proto marker parts probing obs
  on_probe-working c proto marker (head, body) (at_liveness lt) obs e =
      sym (working-injective no_observation obs e)
  on_probe-working c proto marker (head, body) (at_judge judge) obs e =
      judge_content-working c proto judge marker (decompress head body) obs e

  on_response-working :
      (c : Checker F) (proto : Proto) (probing : Probe) (marker : Text) (o : ProxyError ⊎ Text)
      (obs : Observation)
      → on_response c proto probing marker o ≡ working obs
      → (raw : Text) × (o ≡ inr raw)
        × (get_status_code (split_head_body raw).0 9 12 ≡ 200)
        × ShownBy c proto marker (split_head_body raw) probing obs
  on_response-working c proto probing marker (inl err) obs e = cc e
  on_response-working c proto probing marker (inr raw) obs e =
      let code = get_status_code (split_head_body raw).0 9 12 in
      elim (Bool-cases (code == 200)) [
        | inl good ↦ (
          raw,
          refl,
          (==_iff code 200).0 good,
          on_probe-working c proto marker (split_head_body raw) probing obs (rw good at e),
        )
        | inr bad ↦ cc (rw bad at e)
      ]

  after_writing-working :
      (c : Checker F) (proto : Proto) (probing : Probe) (e : AttemptEnv F) (stream : Stream)
      (w : Sending) (obs : Observation)
      → e.writing ≡ w
      → after_writing c proto probing e stream w ≡ working obs
      → HasAnswered c proto probing e stream obs
  after_writing-working c proto probing e stream stalled obs how h = cc h
  after_writing-working c proto probing e stream broken obs how h = cc h
  after_writing-working c proto probing e stream taken_whole obs how h =
      let (raw, read, good, shown) =
        on_response-working c proto probing e.marker
          (read_response max_judge_response (incoming c proto probing e stream)) obs h in
      record { raw = raw; sent = how; read = read; ok_status = good; shown = shown }

  -- The negotiated stream, with the answer to the request unless a granted tunnel is all that is
  -- asked for.
  abbrev pub IsProof :
      Checker F → Addr → Proto → Probe × Target → AttemptEnv F → Observation → Type 0
  IsProof c addr proto (probing, target) e obs =
      (stream : Stream) × (dialled_to e.channel proto target none (e.dial addr) ≡ inr stream)
      × (((proto ≡ Proto.connect25) × (obs ≡ no_observation))
          ⊎ HasAnswered c proto probing e stream obs)

  on_negotiated-working :
      (c : Checker F) (proto : Proto) (probing : Probe) (e : AttemptEnv F) (n : Negotiated)
      (obs : Observation)
      → on_negotiated c proto probing e n ≡ working obs
      → (stream : Stream) × (n ≡ inr stream)
        × (((proto ≡ Proto.connect25) × (obs ≡ no_observation))
            ⊎ HasAnswered c proto probing e stream obs)
  on_negotiated-working c proto probing e (inl err) obs h = cc h
  on_negotiated-working c proto probing e (inr stream) obs h =
      elim (Bool-cases (proto == Proto.connect25)) [
        | inl tunnel ↦ (
          stream,
          refl,
          inl (
            (==_iff proto Proto.connect25).0 tunnel,
            sym (working-injective no_observation obs (rw tunnel at h)),
          ),
        )
        | inr other ↦ (
          stream,
          refl,
          inr (after_writing-working c proto probing e stream e.writing obs refl (rw other at h)),
        )
      ]

  pub attempt-working :
      (c : Checker F) (addr : Addr) (proto : Proto) (chosen : Probe × Target) (e : AttemptEnv F)
      (obs : Observation)
      → attempt c addr proto chosen e ≡ working obs
      → IsProof c addr proto chosen e obs
  unfolding attempt
  attempt-working c addr proto (probing, target) e obs h =
      on_negotiated-working c proto probing e (dialled_to e.channel proto target none (e.dial addr))
        obs h
