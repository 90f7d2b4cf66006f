-- ===== src/Broker/Builder.antt =====
-- src/broker.rs: `FindQuery` and its builder.
use proxybroker_rs.Checker.Check.{RetryPolicy}
use proxybroker_rs.Checker.Setup.{default_policy}
use proxybroker_rs.Float.{Float, nat_float}
use proxybroker_rs.Prelude.{Bool, List, Option, [], false, if◌then◌else◌, ltb, none, some, ℕ}
use proxybroker_rs.Scheduler.Rechecker.{value_or}
use proxybroker_rs.Text.{Text}
use proxybroker_rs.Types.TypeSpec.{TypeSpec}

-- A time-out is a number of nanoseconds.
pub record FindQuery (F : Type 0) : Type 0 where
  pub types : List TypeSpec
  pub countries : Option (List Text)
  pub limit : Option ℕ
  pub judges : List Text
  pub dnsbl : List Text
  pub timeout : ℕ
  pub max_conn : ℕ
  pub retry : RetryPolicy F
  pub post : Bool
  pub strict : Bool
  pub liveness_url : Option Text
  pub relaxed_validity : Bool
  pub require_cookie : Bool
  pub require_referer : Bool
  pub require_connect25 : Bool
  pub trust_check : Bool
  pub require_trusted : Bool

pub record FindQueryBuilder (F : Type 0) : Type 0 where
  pub types : Option (List TypeSpec)
  pub countries : Option (List Text)
  pub limit : Option ℕ
  pub judges : Option (List Text)
  pub dnsbl : Option (List Text)
  pub timeout : Option ℕ
  pub max_conn : Option ℕ
  pub max_tries : Option ℕ
  pub retry : Option (RetryPolicy F)
  pub post : Option Bool
  pub strict : Option Bool
  pub liveness_url : Option Text

abbrev pub default_query : {F : Type 0} ⦃f : Float F⦄ → FindQuery F
default_query = record {
  types = [];
  countries = none;
  limit = none;
  judges = [];
  dnsbl = [];
  timeout = 8_000_000_000;
  max_conn = 200;
  retry = default_policy;
  post = false;
  strict = false;
  liveness_url = none;
  relaxed_validity = false;
  require_cookie = false;
  require_referer = false;
  require_connect25 = false;
  trust_check = false;
  require_trusted = false;
}

abbrev pub empty_builder : {F : Type 0} → FindQueryBuilder F
empty_builder = record {
  types = none;
  countries = none;
  limit = none;
  judges = none;
  dnsbl = none;
  timeout = none;
  max_conn = none;
  max_tries = none;
  retry = none;
  post = none;
  strict = none;
  liveness_url = none;
}

-- `Option::or`.
abbrev pub or_second : {A : Type 0} → Option A → Option A → Option A
or_second none d = d
or_second (some v) d = some v

abbrev pub with_tries : {F : Type 0} → Option ℕ → RetryPolicy F → RetryPolicy F
with_tries none r = r
with_tries (some n) r = record r { max_tries = n }

module _ {F : Type 0} ⦃f : Float F⦄ where
  unfoldable pub build : FindQueryBuilder F → FindQuery F
  build b =
      let d = default_query {F = F} in
      record d {
        types = value_or d.types b.types;
        countries = or_second b.countries d.countries;
        limit = or_second b.limit d.limit;
        judges = value_or d.judges b.judges;
        dnsbl = value_or d.dnsbl b.dnsbl;
        timeout = value_or d.timeout b.timeout;
        max_conn = value_or d.max_conn b.max_conn;
        retry = with_tries b.max_tries (value_or d.retry b.retry);
        post = value_or d.post b.post;
        strict = value_or d.strict b.strict;
        liveness_url = or_second b.liveness_url d.liveness_url;
      }

-- The setters of the builder.
module _ {F : Type 0} where
  abbrev pub types : List TypeSpec → FindQueryBuilder F → FindQueryBuilder F
  types v b = record b { types = some v }

  abbrev pub countries : List Text → FindQueryBuilder F → FindQueryBuilder F
  countries v b = record b { countries = some v }

  abbrev pub judges : List Text → FindQueryBuilder F → FindQueryBuilder F
  judges v b = record b { judges = some v }

  abbrev pub dnsbl : List Text → FindQueryBuilder F → FindQueryBuilder F
  dnsbl v b = record b { dnsbl = some v }

  abbrev pub timeout : ℕ → FindQueryBuilder F → FindQueryBuilder F
  timeout v b = record b { timeout = some v }

  abbrev pub max_conn : ℕ → FindQueryBuilder F → FindQueryBuilder F
  max_conn v b = record b { max_conn = some v }

  abbrev pub max_tries : ℕ → FindQueryBuilder F → FindQueryBuilder F
  max_tries v b = record b { max_tries = some v }

  abbrev pub retry : RetryPolicy F → FindQueryBuilder F → FindQueryBuilder F
  retry v b = record b { retry = some v }

  abbrev pub post : Bool → FindQueryBuilder F → FindQueryBuilder F
  post v b = record b { post = some v }

  abbrev pub strict : Bool → FindQueryBuilder F → FindQueryBuilder F
  strict v b = record b { strict = some v }

  -- A limit of 0 is none.
  abbrev pub limit : ℕ → FindQueryBuilder F → FindQueryBuilder F
  limit v b = record b { limit = if ltb 0 v then some v else none }

  abbrev pub liveness_url : Option Text → FindQueryBuilder F → FindQueryBuilder F
  liveness_url v b = record b { liveness_url = v }
