-- ===== src/Stats/Collector.antt =====
-- src/stats.rs: `StatsCollector` and `Stats`. The maps that a text keys are kept without their
-- order, which only the printing of the statistics shows.
use proxybroker_rs.Errors.{ProxyError, error_eq, error_str}
use proxybroker_rs.Float.{Float, nat_float}
use proxybroker_rs.Maps.{HashMap, Ranked, TreeMap, hash_get, hash_insert, tree_get, tree_insert}
use proxybroker_rs.Prelude.{
  List, Option, [], if◌then◌else◌, none, some, ℕ, ◌%◌, ◌++◌, ◌+◌, ◌^◌, ◌∷◌,
}
use proxybroker_rs.Prelude.Equality.{list_eq, nat_eq}
use proxybroker_rs.Proxy.Measures.{avg_resp_time, mean, percentile}
use proxybroker_rs.Proxy.Record.{Country, Proxy, TypeMap, is_working, u32_mod}
use proxybroker_rs.Text.{Text, text}
use proxybroker_rs.Types.AnonLevel.{AnonLevel, level_ranked}
use proxybroker_rs.Types.Proto.{Proto, proto_ranked}

-- A `usize` of 64 bits.
abbrev pub usize_mod : ℕ
usize_mod = 2 ^ 64

abbrev pub or_default : Option ℕ → ℕ
or_default none = 0
or_default (some n) = n

-- `*m.entry(k).or_default() += n`, modulo the width of the values.
unfoldable pub bump_tree : {K : Type 0} ⦃r : Ranked K⦄ → K → TreeMap K ℕ → TreeMap K ℕ
unfolding tree_get tree_insert
bump_tree k m = tree_insert k ((or_default (tree_get k m) + 1) % usize_mod) m

unfoldable pub bump_text : ℕ → Text → ℕ → HashMap Text ℕ → HashMap Text ℕ
unfolding hash_get hash_insert
bump_text width k n m = hash_insert k ((or_default (hash_get k m) + n) % width) m

pub record StatsCollector (F : Type 0) : Type 0 where
  pub total : ℕ
  pub working : ℕ
  pub by_protocol : TreeMap Proto ℕ
  pub by_anonymity : TreeMap AnonLevel ℕ
  pub by_country : HashMap Text ℕ
  pub errors : HashMap Text ℕ
  pub resp_times : List F

pub record Stats (F : Type 0) : Type 0 where
  pub total : ℕ
  pub working : ℕ
  pub by_protocol : TreeMap Proto ℕ
  pub by_anonymity : TreeMap AnonLevel ℕ
  pub by_country : HashMap Text ℕ
  pub errors : HashMap Text ℕ
  pub avg_resp_time : F
  -- `none` where the percentile would panic.
  pub p50_resp_time : Option F
  pub p90_resp_time : Option F
  pub p95_resp_time : Option F

-- The loop over the confirmed types of a proxy, for each of the two maps.
unfoldable pub count_protocols : TypeMap → TreeMap Proto ℕ → TreeMap Proto ℕ
unfolding bump_tree
count_protocols [] m = m
count_protocols ((proto, level) ∷ es) m = count_protocols es (bump_tree proto m)

abbrev pub count_level : Proto → Option AnonLevel → TreeMap AnonLevel ℕ → TreeMap AnonLevel ℕ
count_level Proto.http (some l) m = bump_tree l m
count_level _ _ m = m

unfoldable pub count_levels : TypeMap → TreeMap AnonLevel ℕ → TreeMap AnonLevel ℕ
unfolding bump_tree
count_levels [] m = m
count_levels ((proto, level) ∷ es) m = count_levels es (count_level proto level m)

unfoldable pub count_errors : HashMap ProxyError ℕ → HashMap Text ℕ → HashMap Text ℕ
unfolding bump_text
count_errors [] m = m
count_errors ((e, n) ∷ es) m = count_errors es (bump_text u32_mod (error_str e) n m)

abbrev pub country_name : Option Country → Text
country_name none = text "--"
country_name (some c) = c.code

module _ {F : Type 0} ⦃f : Float F⦄ where
  abbrev pub fresh : StatsCollector F
  fresh = record {
    total = 0;
    working = 0;
    by_protocol = [];
    by_anonymity = [];
    by_country = [];
    errors = [];
    resp_times = [];
  }

  -- `StatsCollector::record`.
  unfoldable pub record_proxy : Proxy F → StatsCollector F → StatsCollector F
  unfolding count_protocols count_levels count_errors bump_text is_working avg_resp_time
  record_proxy p c = record {
    total = (c.total + 1) % usize_mod;
    working = if is_working p then (c.working + 1) % usize_mod else c.working;
    by_protocol = count_protocols p.types c.by_protocol;
    by_anonymity = count_levels p.types c.by_anonymity;
    by_country = bump_text usize_mod (country_name p.geo) 1 c.by_country;
    errors = count_errors p.errors c.errors;
    resp_times =
        if f.lt f.zero_f (avg_resp_time p)
        then c.resp_times ++ avg_resp_time p ∷ []
        else c.resp_times;
  }

  unfoldable pub record_each : List (Proxy F) → StatsCollector F → StatsCollector F
  unfolding record_proxy
  record_each [] c = c
  record_each (p ∷ ps) c = record_each ps (record_proxy p c)

  unfoldable pub finish : StatsCollector F → Stats F
  unfolding mean percentile
  finish c = record {
    total = c.total;
    working = c.working;
    by_protocol = c.by_protocol;
    by_anonymity = c.by_anonymity;
    by_country = c.by_country;
    errors = c.errors;
    avg_resp_time = mean c.resp_times;
    p50_resp_time = percentile c.resp_times (f.thousandths 500);
    p90_resp_time = percentile c.resp_times (f.thousandths 900);
    p95_resp_time = percentile c.resp_times (f.thousandths 950);
  }

  -- `Stats::from_proxies`.
  unfoldable pub stats_from : List (Proxy F) → Stats F
  unfolding finish record_each
  stats_from ps = finish (record_each ps fresh)
