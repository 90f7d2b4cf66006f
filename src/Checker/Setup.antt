-- ===== src/Checker/Setup.antt =====
-- src/checker.rs: the retry policies, the checker and its set-up, and the names that the DNS
-- blocklists are asked for.
use proxybroker_rs.Checker.Check.{RetryPolicy}
use proxybroker_rs.Errors.{conn_failed, empty_recv, error_eq, reset, timeout}
use proxybroker_rs.Float.{Float, nat_float}
use proxybroker_rs.Judges.{
  Finding, Judge, JudgePool, Urls, default_judges, is_smtp, no_judges, parse_judge, parse_judges,
  pool_is_empty, probe_all,
}
use proxybroker_rs.Net.{IpAddr, addr_eq, ip_eq}
use proxybroker_rs.Parse.Scan.{Regexes}
use proxybroker_rs.Prelude.{
  Bool, List, Option, [], any, false, if◌then◌else◌, inl, inr, is_empty, is_some, none, some, ℕ,
  ◌%◌, ◌++◌, ◌/◌, ◌^◌, ◌∷◌, ◌⊎◌,
}
use proxybroker_rs.Prelude.Equality.{list_eq, nat_eq, ◌==◌}
use proxybroker_rs.Server.Requests.{IpText, frontend_eq}
use proxybroker_rs.Text.{Text}
use proxybroker_rs.Text.Decimal.{show}
use proxybroker_rs.Types.Scheme.{JudgeScheme, scheme_eq}
use proxybroker_rs.Types.TypeSpec.{TypeSpec}

-- `LivenessTarget`.
pub record LivenessTarget : Type 0 where
  pub host : Text
  pub path : Text
  pub ip_addr : IpAddr
  pub scheme : JudgeScheme

pub data CheckMode : Type 0 where
  by_judges : CheckMode
  by_liveness : LivenessTarget → CheckMode

-- What one attempt validates against.
pub data Probe : Type 0 where
  at_judge : Judge → Probe
  at_liveness : LivenessTarget → Probe

module _ {F : Type 0} ⦃f : Float F⦄ where
  -- `RetryPolicy::default`, `tries` and `transient`.
  abbrev pub tries : ℕ → RetryPolicy F
  tries n = record {
    max_tries = n;
    retry_on = timeout ∷ [];
    backoff = 0;
    factor = f.one_f;
    jitter = f.zero_f;
    max_backoff = 0;
  }

  abbrev pub default_policy : RetryPolicy F
  default_policy = tries 3

  abbrev pub transient : ℕ → RetryPolicy F
  transient n = record (tries n) { retry_on = timeout ∷ reset ∷ conn_failed ∷ empty_recv ∷ [] }

  -- The delay before a retry; `r` is a random number from -1 to 1.
  unfoldable pub backoff_for : RetryPolicy F → ℕ → F → ℕ
  backoff_for policy i r =
      let grown = f.mul (f.as_secs_f64 policy.backoff) (f.powi policy.factor i) in
      let jittered =
        if f.lt f.zero_f policy.jitter
        then f.mul grown (f.add f.one_f (f.mul policy.jitter r))
        else grown in
      let capped =
        if policy.max_backoff == 0
        then jittered
        else f.min_f jittered (f.as_secs_f64 policy.max_backoff) in
      if policy.backoff == 0 then 0 else f.from_secs_f64 (f.max_f capped f.zero_f)

-- The fields of `Checker` but for its time-out and its resolver, which are in the environment.
pub record Checker (F : Type 0) : Type 0 where
  pub judges : JudgePool
  pub real_ext_ips : List IpAddr
  pub requested : List TypeSpec
  pub post : Bool
  pub strict : Bool
  pub relaxed_validity : Bool
  pub trust_check : Bool
  pub dnsbl : List Text
  pub mode : CheckMode
  pub retry : RetryPolicy F

pub record CheckerConfig (F : Type 0) : Type 0 where
  pub judge_urls : List Text
  pub types : List TypeSpec
  pub retry : RetryPolicy F
  pub post : Bool
  pub strict : Bool
  pub relaxed_validity : Bool
  pub trust_check : Bool
  pub dnsbl : List Text
  pub liveness_url : Option Text

-- The two errors of `Checker::new`.
pub data SetupError : Type 0 where
  no_types_requested no_judges_up : SetupError

abbrev pub liveness_at : Judge → Option IpAddr → Option LivenessTarget
liveness_at j none = none
liveness_at j (some a) =
    some (record { host = j.host; path = j.path; ip_addr = a; scheme = j.scheme })

-- `LivenessTarget::resolve`.
abbrev pub resolve_liveness : (Text → Option IpAddr) → Option Judge → Option LivenessTarget
resolve_liveness resolves none = none
resolve_liveness resolves (some j) =
    if is_smtp j.scheme then none else liveness_at j (resolves j.host)

abbrev pub mode_from : Option LivenessTarget → Option CheckMode
mode_from none = none
mode_from (some t) = some (by_liveness t)

module _ ⦃l : Urls⦄ where
  abbrev pub fallback : (Text → Option IpAddr) → Option Text → Option CheckMode
  fallback resolves none = none
  fallback resolves (some url) = mode_from (resolve_liveness resolves (parse_judge url))

  abbrev pub mode_of : (Text → Option IpAddr) → Option Text → JudgePool → Option CheckMode
  mode_of resolves url pool = if pool_is_empty pool then fallback resolves url else some by_judges

module _ {F : Type 0} where
  abbrev pub checker_in :
      CheckerConfig F → List IpAddr → JudgePool → Option CheckMode → SetupError ⊎ Checker F
  checker_in cfg real_ips pool none = inl no_judges_up
  checker_in cfg real_ips pool (some mode) = inr (record {
    judges = pool;
    real_ext_ips = real_ips;
    requested = cfg.types;
    post = cfg.post;
    strict = cfg.strict;
    relaxed_validity = cfg.relaxed_validity;
    trust_check = cfg.trust_check;
    dnsbl = cfg.dnsbl;
    mode = mode;
    retry = cfg.retry;
  })

  -- `Checker::new`; `finds` is what the probes of the judges find.
  unfoldable pub new_checker :
      ⦃l : Urls⦄ ⦃t : IpText⦄ ⦃x : Regexes⦄
      → CheckerConfig F
      → (Judge → Finding)
      → (Text → Option IpAddr)
      → List IpAddr
      → SetupError ⊎ Checker F
  unfolding parse_judges probe_all pool_is_empty parse_judge
  new_checker cfg finds resolves real_ips =
      let urls = if is_empty cfg.judge_urls then default_judges else cfg.judge_urls in
      let pool = probe_all real_ips finds no_judges (parse_judges urls) in
      if is_empty cfg.types
      then inl no_types_requested
      else checker_in cfg real_ips pool (mode_of resolves cfg.liveness_url pool)

-- The query names of the blocklists: the octets in reverse, and the zone.
abbrev pub dnsbl_query : IpAddr → Text → Option Text
dnsbl_query (IpAddr.v4 n) zone = some (
    show (n % 256)
    ++ b'.' ∷ show (n / 2 ^ 8 % 256)
    ++ b'.' ∷ show (n / 2 ^ 16 % 256)
    ++ b'.' ∷ show (n / 2 ^ 24 % 256)
    ++ b'.' ∷ zone)
dnsbl_query (IpAddr.v6 n) zone = none

unfoldable pub in_dnsbl : (Text → Option IpAddr) → IpAddr → List Text → Bool
unfolding show
in_dnsbl resolves host zones =
    any (λ zone. elim (dnsbl_query host zone) [ none ↦ false | some q ↦ is_some (resolves q) ])
      zones
