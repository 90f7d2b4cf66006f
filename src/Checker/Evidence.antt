-- ===== src/Checker/Evidence.antt =====
-- What `TrustReport::assess` of src/checker.rs reports, and what a working attempt shows.
use proxybroker_rs.Checker.Attempt.{is_valid, judge_content, observed_in}
use proxybroker_rs.Checker.Check.{Observation, working}
use proxybroker_rs.Checker.Response.{
  anonymity_level, assess, caps_from_content, cookie_value, injected_in, is_foreign, name_of,
  referer_value, response_is_valid, sent_header_names,
}
use proxybroker_rs.Checker.Setup.{Checker}
use proxybroker_rs.Judges.{Judge, ip_visible}
use proxybroker_rs.Parse.Scan.{Regexes, get_all_ip}
use proxybroker_rs.Prelude.{
  Bool, Bool-cases, In, List, Option, [], any, arith, false, if◌then◌else◌, inl, inr, is_empty,
  is_some, map, none, not, refl, some, subst, true, ◌&&◌, ◌++◌, ◌↔◌, ◌∷◌, ◌≡◌,
}
use proxybroker_rs.Proxy.Trust.{
  TrustReport, TrustSignal, canary_mismatch, cert_mismatch, injected_header, no_trust, signal_eq,
}
use proxybroker_rs.Server.Requests.{IpText, frontend_eq}
use proxybroker_rs.Text.{Text, contains, lines, lowercase, split_text_once, text}
use proxybroker_rs.Types.AnonLevel.{AnonLevel, level_eq, level_ranked}
use proxybroker_rs.Types.Proto.{Proto, checks_anon_level, proto_eq, proto_ranked}

abbrev pub carries_foreign : List Text → Text → Bool
carries_foreign sent l = is_foreign sent (name_of (split_text_once (text ": ") l))

injected_in-any :
    (sent ls : List Text)
    → injected_in sent ls ≡ (if any (carries_foreign sent) ls then injected_header ∷ [] else [])
unfolding injected_in
injected_in-any sent [] = refl
injected_in-any sent (l ∷ ls) = elim (Bool-cases (carries_foreign sent l)) [
  | inl foreign ↦ rw foreign refl
  | inr fine ↦ rw fine (injected_in-any sent ls)
]

abbrev report_of : Bool → Bool → List TrustSignal
report_of kept foreign =
    (if not kept then canary_mismatch ∷ [] else [])
    ++ (if foreign then injected_header ∷ [] else [])

report_of-In :
    (kept foreign : Bool)
    → (In canary_mismatch (report_of kept foreign) ↔ (kept ≡ false))
      × (In injected_header (report_of kept foreign) ↔ (foreign ≡ true))
      × (¬ In cert_mismatch (report_of kept foreign))
report_of-In true true = ground arith
report_of-In true false = ground arith
report_of-In false true = ground arith
report_of-In false false = ground arith

-- The verdict has the canary's signal exactly when the canary does not stand in the page, the one
-- for injection exactly when some line of it carries a header that was neither sent nor is benign,
-- whatever the case of the names, and never the one for a certificate.
pub assess_lem :
    (sent : List Text) (canary content : Text)
    → (In canary_mismatch (assess sent canary content).signals ↔ (contains canary content ≡ false))
      × (In injected_header (assess sent canary content).signals
          ↔ (any (carries_foreign (map lowercase sent)) (lines content) ≡ true))
      × (¬ In cert_mismatch (assess sent canary content).signals)
unfolding assess
assess_lem sent canary content = rw (injected_in-any (map lowercase sent) (lines content)) (
    report_of-In (contains canary content)
      (any (carries_foreign (map lowercase sent)) (lines content)))

-- The three levels, where the protocol has one.
abbrev level_if : Bool → Bool → Bool → Option AnonLevel
level_if checks visible via =
    if checks
    then some (
        if visible
        then AnonLevel.transparent
        else if via
        then AnonLevel.anonymous
        else AnonLevel.high)
    else none

level_if-is_some : (checks visible via : Bool) → is_some (level_if checks visible via) ≡ checks
level_if-is_some true visible via = refl
level_if-is_some false visible via = refl

level_if-hides :
    (checks visible via : Bool)
    → ¬ (level_if checks visible via ≡ some AnonLevel.transparent)
    → checks ≡ true
    → visible ≡ false
level_if-hides true true via open_level e = absurd (open_level refl)
level_if-hides true false via open_level e = refl
level_if-hides false visible via open_level e = cc e

valid_parts :
    (relaxed marked nowhere referer cookie : Bool)
    → (if relaxed then marked && not nowhere else marked && not nowhere && referer && cookie) ≡ true
    → (marked ≡ true) × (nowhere ≡ false) × (relaxed ≡ false → (cookie ≡ true) × (referer ≡ true))
valid_parts relaxed marked nowhere referer cookie h = ground arith

trust-canary :
    (asked : Bool) (sent : List Text) (marker content : Text)
    → contains marker content ≡ true
    → ¬ In canary_mismatch (if asked then assess sent marker content else no_trust).signals
trust-canary true sent marker content kept m = cc ((assess_lem sent marker content).0.0 m, kept)
trust-canary false sent marker content kept m = m

trust-unasked :
    (asked : Bool) (r : TrustReport) → asked ≡ false → (if asked then r else no_trust) ≡ no_trust
trust-unasked asked r e = rw e refl

pub working-injective : (a b : Observation) → working a ≡ working b → a ≡ b
working-injective a b e = cc e

module _ {F : Type 0} ⦃t : IpText⦄ ⦃x : Regexes⦄ where
  -- What a page proves of the proxy that has fetched it.
  pub record IsShown (c : Checker F) (proto : Proto) (judge : Judge) (marker content : Text)
      (obs : Observation) : Type 0 where
    pub has_marker : contains marker content ≡ true
    pub has_address : is_empty (get_all_ip content) ≡ false
    pub strict_echo :
        c.relaxed_validity ≡ false → (obs.caps.cookie_echo ≡ true) × (obs.caps.referer_echo ≡ true)
    pub levelled : is_some obs.level ≡ checks_anon_level proto
    pub hides :
        ¬ (obs.level ≡ some AnonLevel.transparent)
        → checks_anon_level proto ≡ true
        → ip_visible c.real_ext_ips (lowercase content) ≡ false
    pub canary_kept : ¬ In canary_mismatch obs.trust.signals
    pub unasked_trust : c.trust_check ≡ false → obs.trust ≡ no_trust

  observed_in-IsShown :
      (c : Checker F) (proto : Proto) (judge : Judge) (marker content : Text)
      → is_valid c marker content ≡ true
      → IsShown c proto judge marker content (observed_in c proto judge marker content)
  unfolding response_is_valid caps_from_content anonymity_level
  observed_in-IsShown c proto judge marker content valid =
      let (marked, somewhere, echoes) =
        valid_parts c.relaxed_validity (contains marker content) (is_empty (get_all_ip content))
          (contains referer_value content) (contains cookie_value content) valid in
      record {
        has_marker = marked;
        has_address = somewhere;
        strict_echo = echoes;
        levelled = level_if-is_some (checks_anon_level proto) _ _;
        hides =
            level_if-hides (checks_anon_level proto) (ip_visible c.real_ext_ips (lowercase content))
              _;
        canary_kept = trust-canary c.trust_check sent_header_names marker content marked;
        unasked_trust = trust-unasked c.trust_check _;
      }

  pub judge_content-working :
      (c : Checker F) (proto : Proto) (judge : Judge) (marker content : Text) (obs : Observation)
      → judge_content c proto judge marker content ≡ working obs
      → IsShown c proto judge marker content obs
  unfolding judge_content
  judge_content-working c proto judge marker content obs e =
      elim (Bool-cases (is_valid c marker content)) [
        | inl valid ↦
            subst (IsShown c proto judge marker content) (working-injective _ obs (rw valid at e))
              (observed_in-IsShown c proto judge marker content valid)
        | inr bad ↦ cc (rw bad at e)
      ]
