-- ===== src/Broker/Query.antt =====
-- src/broker.rs: what `find` and `check` set up before they hand a source to `check_stream`.
use proxybroker_rs.Broker.Builder.{FindQuery}
use proxybroker_rs.Broker.Grab.{Candidate, GeoDbs, attach_geo, source_of, upper_all}
use proxybroker_rs.Broker.Pipeline.{CapsFilter, Run, RunConfig, new_run}
use proxybroker_rs.Checker.Attempt.{AttemptEnv, check_proxy}
use proxybroker_rs.Checker.Response.{Codecs}
use proxybroker_rs.Checker.Setup.{Checker, CheckerConfig, SetupError, new_checker}
use proxybroker_rs.Float.{Float, nat_float}
use proxybroker_rs.Judges.{Finding, Judge, Urls}
use proxybroker_rs.Net.{IpAddr, addr_eq, ip_eq}
use proxybroker_rs.Parse.Scan.{Regexes}
use proxybroker_rs.Pool.State.{client_key_eq, country_ok, strategy_eq}
use proxybroker_rs.Prelude.{
  List, Option, if◌then◌else◌, inl, inr, is_empty, keep, map, none, some, ℕ, ◌||◌, ◌⊎◌,
}
use proxybroker_rs.Proxy.Record.{Proxy}
use proxybroker_rs.Proxy.Trust.{signal_eq}
use proxybroker_rs.Server.Requests.{IpText, frontend_eq}
use proxybroker_rs.Text.{Text}
use proxybroker_rs.Types.Proto.{Proto, proto_eq, proto_ranked}

module _ {F : Type 0} where
  -- `CapsFilter::from_query`.
  abbrev pub caps_of : FindQuery F → CapsFilter
  caps_of q = record {
    cookie = q.require_cookie;
    referer = q.require_referer;
    connect25 = q.require_connect25;
    trusted = q.require_trusted;
  }

  abbrev pub checker_config : FindQuery F → CheckerConfig F
  checker_config q = record {
    judge_urls = q.judges;
    types = q.types;
    retry = q.retry;
    post = q.post;
    strict = q.strict;
    relaxed_validity = q.relaxed_validity;
    trust_check = q.trust_check || q.require_trusted;
    dnsbl = q.dnsbl;
    liveness_url = q.liveness_url;
  }

-- How `find` and `check` fail before their stream begins.
pub data FindError : Type 0 where
  no_types : FindError
  ext_ip_unknown : FindError
  no_checker : SetupError → FindError

abbrev pub or_no_checker : {A : Type 0} → SetupError ⊎ A → FindError ⊎ A
or_no_checker (inl e) = inl (no_checker e)
or_no_checker (inr c) = inr c

-- What the environment does for one run: the addresses of the host, if they are found, the probes
-- of the judges, the resolver, and for each proxy the attempts on it and the judges drawn.
pub record FindEnv (F : Type 0) : Type 0 where
  pub external_ips : Option (List IpAddr)
  pub finds : Judge → Finding
  pub resolves : Text → Option IpAddr
  pub attempts : Proxy F → Proto → ℕ → AttemptEnv F
  pub draws : Proxy F → Proto → ℕ

module _ {F : Type 0} ⦃l : Urls⦄ ⦃t : IpText⦄ ⦃x : Regexes⦄ where
  abbrev pub checker_over : FindQuery F → FindEnv F → Option (List IpAddr) → FindError ⊎ Checker F
  checker_over q e none = inl ext_ip_unknown
  checker_over q e (some ips) =
      or_no_checker (new_checker (checker_config q) e.finds e.resolves ips)

  unfoldable pub build_checker : FindQuery F → FindEnv F → FindError ⊎ Checker F
  unfolding new_checker
  build_checker q e = checker_over q e e.external_ips

module _ {F : Type 0} ⦃f : Float F⦄ ⦃t : IpText⦄ ⦃x : Regexes⦄ ⦃z : Codecs⦄ where
  -- What `check_stream` is called with.
  unfoldable pub run_config : FindQuery F → FindEnv F → Checker F → RunConfig F
  unfolding check_proxy
  run_config q e c = record {
    max_conn = q.max_conn;
    limit = q.limit;
    caps = caps_of q;
    checks = λ p. check_proxy c (e.attempts p) (e.draws p) e.resolves p;
  }

  abbrev pub started :
      FindQuery F
      → FindEnv F
      → List (Proxy F)
      → FindError ⊎ Checker F
      → FindError ⊎ (RunConfig F × Run F)
  started q e source (inl err) = inl err
  started q e source (inr c) = inr (run_config q e c, new_run source)

  -- The source of `check`: the geography is attached, and the country filter applied.
  unfoldable pub checked_source : GeoDbs → Option (List Text) → List (Proxy F) → List (Proxy F)
  unfolding attach_geo
  checked_source dbs countries ps =
      keep (λ p. country_ok p (upper_all countries)) (map (attach_geo dbs) ps)

  -- `find` and `check`, up to the run that they begin.
  unfoldable pub find :
      ⦃l : Urls⦄
      → GeoDbs
      → FindQuery F
      → FindEnv F
      → List Candidate
      → FindError ⊎ (RunConfig F × Run F)
  unfolding build_checker source_of run_config
  find dbs q e cs =
      if is_empty q.types
      then inl no_types
      else started q e (source_of dbs q.countries cs) (build_checker q e)

  unfoldable pub check_given :
      ⦃l : Urls⦄
      → GeoDbs
      → FindQuery F
      → FindEnv F
      → List (Proxy F)
      → FindError ⊎ (RunConfig F × Run F)
  unfolding build_checker checked_source run_config
  check_given dbs q e ps =
      if is_empty q.types
      then inl no_types
      else started q e (checked_source dbs q.countries ps) (build_checker q e)
