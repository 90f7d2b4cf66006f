-- ===== src/Checker/Ready.antt =====
-- That a checker of src/checker.rs that has been set up has something to check against.
use proxybroker_rs.Checker.Attempt.{judge_target, target_in}
use proxybroker_rs.Checker.Setup.{
  CheckMode, Checker, CheckerConfig, LivenessTarget, SetupError, by_judges, by_liveness, checker_in,
  fallback, mode_from, mode_of, new_checker, resolve_liveness,
}
use proxybroker_rs.Judges.{
  Finding, Judge, JudgePool, Urls, bucket, default_judges, no_judges, parse_judge, parse_judges,
  pool_is_empty, probe_all, random_judge,
}
use proxybroker_rs.Judges.Usable.{drawn}
use proxybroker_rs.Net.{IpAddr, addr_eq, ip_eq}
use proxybroker_rs.Parse.Scan.{Regexes}
use proxybroker_rs.Prelude.{
  Bool-cases, List, Option, ap, false, if◌then◌else◌, inl, inr, is_empty, is_some, none, refl, some,
  subst, true, ℕ, ◌∙◌, ◌≡◌, ◌⊎◌,
}
use proxybroker_rs.Server.Requests.{IpText, frontend_eq}
use proxybroker_rs.Text.{Text}
use proxybroker_rs.Types.Proto.{Proto, judge_scheme, proto_eq, proto_ranked}
use proxybroker_rs.Types.Scheme.{JudgeScheme, scheme_eq}

judge_target-is_some :
    (scheme : JudgeScheme) (o : Option Judge)
    → is_some o ≡ true
    → is_some (judge_target scheme o) ≡ true
judge_target-is_some scheme none h = cc h
judge_target-is_some scheme (some j) h = refl

-- A protocol for each scheme of judges.
abbrev proto_for : JudgeScheme → Proto
proto_for JudgeScheme.http = Proto.http
proto_for JudgeScheme.https = Proto.https
proto_for JudgeScheme.smtp = Proto.connect25

judge_scheme-proto_for : (scheme : JudgeScheme) → judge_scheme (proto_for scheme) ≡ scheme
judge_scheme-proto_for JudgeScheme.http = refl
judge_scheme-proto_for JudgeScheme.https = refl
judge_scheme-proto_for JudgeScheme.smtp = refl

some_bucket :
    (pool : JudgePool)
    → pool_is_empty pool ≡ false
    → (scheme : JudgeScheme) × (is_empty (bucket pool scheme) ≡ false)
unfolding pool_is_empty
some_bucket pool h = elim (Bool-cases (is_empty pool.http_judges)) [
  | inl no_http ↦ elim (Bool-cases (is_empty pool.https_judges)) [
    | inl no_https ↦ (JudgeScheme.smtp, rw (no_http, no_https) at h)
    | inr with_https ↦ (JudgeScheme.https, with_https)
  ]
  | inr with_http ↦ (JudgeScheme.http, with_http)
]

mode-injective : (a b : CheckMode) → some a ≡ some b → a ≡ b
mode-injective a b e = cc e

module _ {F : Type 0} where
  -- A protocol for which the checker has a target, whatever judge is drawn.
  abbrev pub CanCheck : Checker F → CheckMode → Type 0
  CanCheck c mode = (proto : Proto) × ((draw : ℕ) → is_some (target_in c proto draw mode) ≡ true)

  judges_up-CanCheck : (c : Checker F) → pool_is_empty c.judges ≡ false → CanCheck c by_judges
  unfolding random_judge
  judges_up-CanCheck c h =
      let (scheme, held) = some_bucket c.judges h in
      (
        proto_for scheme,
        λ draw.
            rw (judge_scheme-proto_for scheme)
              (judge_target-is_some scheme _ (drawn (bucket c.judges scheme) draw held)),
      )

  -- What is in a checker that has been made.
  record IsMade (cfg : CheckerConfig F) (pool : JudgePool) (o : Option CheckMode) (c : Checker F)
      : Type 0 where
    same_types : c.requested ≡ cfg.types
    same_judges : c.judges ≡ pool
    same_mode : o ≡ some c.mode

  made-injective : (a b : Checker F) → ◌≡◌ {A = SetupError ⊎ Checker F} (inr a) (inr b) → a ≡ b
  made-injective a b e = cc e

  checker_in-IsMade :
      (cfg : CheckerConfig F) (real_ips : List IpAddr) (pool : JudgePool) (o : Option CheckMode)
      (c : Checker F)
      → checker_in cfg real_ips pool o ≡ inr c
      → IsMade cfg pool o c
  checker_in-IsMade cfg real_ips pool none c h = cc h
  checker_in-IsMade cfg real_ips pool (some mode) c h =
      subst (IsMade cfg pool (some mode)) (made-injective _ c h)
        (record { same_types = refl; same_judges = refl; same_mode = refl })

  mode_from-CanCheck :
      (c : Checker F) (o : Option LivenessTarget) (mode : CheckMode)
      → mode_from o ≡ some mode
      → CanCheck c mode
  mode_from-CanCheck c none mode h = cc h
  mode_from-CanCheck c (some lt) mode h =
      subst (CanCheck c) (mode-injective (by_liveness lt) mode h) (Proto.http, λ draw. refl)

module _ {F : Type 0} ⦃l : Urls⦄ where
  fallback-CanCheck :
      (c : Checker F) (resolves : Text → Option IpAddr) (url : Option Text) (mode : CheckMode)
      → fallback resolves url ≡ some mode
      → CanCheck c mode
  fallback-CanCheck c resolves none mode h = cc h
  fallback-CanCheck c resolves (some url) mode h =
      mode_from-CanCheck c (resolve_liveness resolves (parse_judge url)) mode h

  mode_of-CanCheck :
      (c : Checker F) (resolves : Text → Option IpAddr) (url : Option Text) (mode : CheckMode)
      → mode_of resolves url c.judges ≡ some mode
      → CanCheck c mode
  mode_of-CanCheck c resolves url mode h = elim (Bool-cases (pool_is_empty c.judges)) [
    | inl nobody ↦ fallback-CanCheck c resolves url mode (rw nobody at h)
    | inr up ↦
        subst (CanCheck c) (mode-injective by_judges mode (rw up at h)) (judges_up-CanCheck c up)
  ]

  -- A checker that its set-up gives has some protocol to check, and there is a protocol for which
  -- `check_one` has a judge or the endpoint at each check, whichever judge is drawn.
  pub new_checker-CanCheck :
      ⦃t : IpText⦄ ⦃x : Regexes⦄ (cfg : CheckerConfig F) (finds : Judge → Finding)
      (resolves : Text → Option IpAddr) (real_ips : List IpAddr) (c : Checker F)
      → new_checker cfg finds resolves real_ips ≡ inr c
      → (is_empty c.requested ≡ false) × CanCheck c c.mode
  unfolding new_checker
  new_checker-CanCheck cfg finds resolves real_ips c h =
      let urls = if is_empty cfg.judge_urls then default_judges else cfg.judge_urls in
      let pool = probe_all real_ips finds no_judges (parse_judges urls) in
      elim (Bool-cases (is_empty cfg.types)) [
        | inl nothing ↦ cc (rw nothing at h)
        | inr asked ↦
            let made = checker_in-IsMade cfg real_ips pool _ c (rw asked at h) in
            (
              ap is_empty made.same_types ∙ asked,
              mode_of-CanCheck c resolves cfg.liveness_url c.mode
                  (ap (mode_of resolves cfg.liveness_url) made.same_judges ∙ made.same_mode),
            )
      ]
