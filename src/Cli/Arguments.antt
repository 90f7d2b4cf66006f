-- ===== src/Cli/Arguments.antt =====
-- src/bin/proxybroker.rs: the arguments of `find`, `check` and `serve`, and the queries and the
-- pool that are made of them. A path is a text.
use proxybroker_rs.Broker.Builder.{FindQuery, FindQueryBuilder, build, empty_builder}
use proxybroker_rs.Checker.Check.{RetryPolicy}
use proxybroker_rs.Checker.Setup.{transient, tries}
use proxybroker_rs.Errors.{ProxyError, bad_status, conn_failed, empty_recv, error_eq, reset}
use proxybroker_rs.Float.{Float, nat_float}
use proxybroker_rs.Net.{IpAddr, addr_eq, ip_eq}
use proxybroker_rs.Pool.State.{Strategy, client_key_eq, strategy_eq}
use proxybroker_rs.Prelude.{
  Bool, List, Option, [], false, if◌then◌else◌, is_empty, ltb, map, max, none, some, ℕ, ◌*◌, ◌∷◌,
}
use proxybroker_rs.Text.{Text}
use proxybroker_rs.Types.AnonLevel.{AnonLevel, level_eq, level_ranked}
use proxybroker_rs.Types.Proto.{Proto, proto_eq, proto_ranked}
use proxybroker_rs.Types.TypeSpec.{TypeSpec}
use proxybroker_rs.Broker.Builder

pub data RetryOn : Type 0 where
  on_timeout on_transient on_all : RetryOn

pub data StatsFormat : Type 0 where
  text_stats json_stats : StatsFormat

pub data Format : Type 0 where
  default_format txt json json_array url csv : Format

pub data SelectStrategy : Type 0 where
  best round_robin random sticky : SelectStrategy

abbrev pub to_server : SelectStrategy → Strategy
to_server SelectStrategy.best = Strategy.best
to_server SelectStrategy.round_robin = Strategy.round_robin
to_server SelectStrategy.random = Strategy.random
to_server SelectStrategy.sticky = Strategy.sticky

module _ {F : Type 0} ⦃f : Float F⦄ where
  abbrev retried : ℕ → RetryOn → RetryPolicy F
  retried n on_timeout = tries n
  retried n on_transient = transient n
  retried n on_all = record (tries n) {
    retry_on = ProxyError.timeout ∷ reset ∷ conn_failed ∷ empty_recv ∷ bad_status ∷ [];
  }

  abbrev pub retry_policy : ℕ → RetryOn → ℕ → RetryPolicy F
  retry_policy max_tries on backoff_ms = record (retried max_tries on) {
    backoff = backoff_ms * 1_000_000;
  }

abbrev unless_empty : {A : Type 0} → List A → Option (List A)
unless_empty xs = if is_empty xs then none else some xs

unfoldable pub types_from : List Proto → List AnonLevel → List TypeSpec
types_from protos lvl = map (λ p. record { proto = p; levels = unless_empty lvl }) protos

abbrev seconds : ℕ → ℕ
seconds n = n * 1_000_000_000

pub record FindArgs : Type 0 where
  pub types : List Proto
  pub lvl : List AnonLevel
  pub limit : ℕ
  pub countries : List Text
  pub judges : List Text
  pub dnsbl : List Text
  pub timeout : ℕ
  pub max_conn : ℕ
  pub max_tries : ℕ
  pub post : Bool
  pub strict : Bool
  pub liveness_url : Option Text
  pub retry_on : RetryOn
  pub backoff_ms : ℕ
  pub relaxed_validity : Bool
  pub require_cookie : Bool
  pub require_referer : Bool
  pub require_connect25 : Bool
  pub trust_check : Bool
  pub require_trusted : Bool
  pub show_stats : Bool
  pub stats_format : StatsFormat
  pub format : Format
  pub output_format : Option Text
  pub outfile : Option Text
  pub save : Option Text
  pub progress : Bool
  pub state : Option Text

pub record CheckArgs : Type 0 where
  pub types : List Proto
  pub infile : Option Text
  pub load : Option Text
  pub lvl : List AnonLevel
  pub limit : ℕ
  pub countries : List Text
  pub judges : List Text
  pub dnsbl : List Text
  pub timeout : ℕ
  pub max_conn : ℕ
  pub max_tries : ℕ
  pub post : Bool
  pub strict : Bool
  pub show_stats : Bool
  pub stats_format : StatsFormat
  pub format : Format
  pub output_format : Option Text
  pub outfile : Option Text
  pub save : Option Text

pub record ServeArgs (F : Type 0) : Type 0 where
  pub host : Text
  pub types : List Proto
  pub load : Option Text
  pub lvl : List AnonLevel
  pub dnsbl : List Text
  pub post : Bool
  pub strict : Bool
  pub strategy : SelectStrategy
  pub sticky_header : Option Text
  pub limit : ℕ
  pub countries : List Text
  pub timeout : ℕ
  pub max_error_rate : F
  pub max_resp_time : F
  pub fail_timeout : ℕ
  pub prefer_connect : Bool
  pub http_allowed_codes : List ℕ
  pub min_queue : ℕ
  pub backlog : ℕ
  pub max_clients : ℕ
  pub auth : Option Text
  pub max_tries : ℕ
  pub metrics : Option (IpAddr × ℕ)
  pub state : Option Text
  pub recheck : Bool
  pub recheck_rate : F
  pub recheck_min : ℕ
  pub recheck_max : ℕ
  pub decay_halflife : ℕ
  pub watch : Bool

module _ {F : Type 0} ⦃f : Float F⦄ where
  abbrev with_countries : List Text → FindQueryBuilder F → FindQueryBuilder F
  with_countries cs b = if is_empty cs then b else Builder.countries cs b

  -- The query of the function `find`.
  unfoldable pub find_query : FindArgs → FindQuery F
  unfolding build types_from
  find_query a =
      let base = Builder.liveness_url a.liveness_url (
        Builder.strict a.strict (
          Builder.post a.post (
            Builder.retry (retry_policy a.max_tries a.retry_on a.backoff_ms) (
              Builder.max_conn a.max_conn (
                Builder.timeout (seconds a.timeout) (
                  Builder.dnsbl a.dnsbl (
                    Builder.judges a.judges (
                      Builder.limit a.limit
                        (Builder.types (types_from a.types a.lvl) empty_builder))))))))) in
      record (build (with_countries a.countries base)) {
        relaxed_validity = a.relaxed_validity;
        require_cookie = a.require_cookie;
        require_referer = a.require_referer;
        require_connect25 = a.require_connect25;
        trust_check = a.trust_check;
        require_trusted = a.require_trusted;
      }

  -- The query of the function `check`.
  unfoldable pub check_query : CheckArgs → FindQuery F
  unfolding types_from
  check_query a = record {
    types = types_from a.types a.lvl;
    countries = unless_empty a.countries;
    limit = if ltb 0 a.limit then some a.limit else none;
    judges = a.judges;
    dnsbl = a.dnsbl;
    timeout = seconds a.timeout;
    max_conn = a.max_conn;
    retry = tries a.max_tries;
    post = a.post;
    strict = a.strict;
    liveness_url = none;
    relaxed_validity = false;
    require_cookie = false;
    require_referer = false;
    require_connect25 = false;
    trust_check = false;
    require_trusted = false;
  }

  unfoldable pub serve_query : ServeArgs F → FindQuery F
  unfolding build types_from
  serve_query a = build (
      with_countries a.countries (
        Builder.strict a.strict (
          Builder.post a.post (
            Builder.timeout (seconds a.timeout) (
              Builder.dnsbl a.dnsbl (
                Builder.limit (max a.limit 1)
                  (Builder.types (types_from a.types a.lvl) empty_builder)))))))
