-- ===== src/Stats/Tally.antt =====
-- The statistics of src/stats.rs against the proxies that they count.
use proxybroker_rs.Errors.{ProxyError, error_eq, error_str}
use proxybroker_rs.Float.{Float, nat_float}
use proxybroker_rs.Maps.{
  HashMap, Ranked, TreeMap, hash_get, hash_get-insert, tree_get, tree_get-insert,
  tree_get-same_rank,
}
use proxybroker_rs.Prelude.{
  Bool, List, Option, [], arith, false, if◌then◌else◌, keep, length, none, refl, some, sum_over, ℕ,
  ◌%◌, ◌+◌, ◌∷◌, ◌≡◌,
}
use proxybroker_rs.Prelude.Equality.{==_iff, list_eq, nat_eq, ◌==◌}
use proxybroker_rs.Proxy.Record.{Proxy, TypeMap, is_working, u32_mod}
use proxybroker_rs.Stats.Collector.{
  Stats, StatsCollector, bump_text, bump_tree, count_errors, count_level, count_levels,
  count_protocols, country_name, finish, fresh, or_default, record_each, record_proxy, stats_from,
  usize_mod,
}
use proxybroker_rs.Text.{Text}
use proxybroker_rs.Types.AnonLevel.{AnonLevel, level_eq, level_rank, level_ranked}
use proxybroker_rs.Types.Proto.{Proto, proto_eq, proto_rank, proto_ranked}

-- How many entries of a proxy's confirmed types are of the protocol.
abbrev pub occurs : Proto → TypeMap → ℕ
occurs k [] = 0
occurs k ((proto, level) ∷ es) = (if proto_rank proto == proto_rank k then 1 else 0) + occurs k es

abbrev pub is_level : AnonLevel → Proto → Option AnonLevel → Bool
is_level k Proto.http (some l) = level_rank l == level_rank k
is_level k _ _ = false

-- How many of them are HTTP at the level.
abbrev pub occurs_level : AnonLevel → TypeMap → ℕ
occurs_level k [] = 0
occurs_level k ((proto, level) ∷ es) = (if is_level k proto level then 1 else 0) + occurs_level k es

-- How often the errors of a proxy with the name have occurred.
abbrev pub occurs_error : Text → HashMap ProxyError ℕ → ℕ
occurs_error s [] = 0
occurs_error s ((e, n) ∷ es) = (if error_str e == s then n else 0) + occurs_error s es

-- Two counts that a `usize` cannot tell apart, and two that a `u32` cannot.
abbrev pub SameCount : ℕ → ℕ → Type 0
SameCount a b = a % usize_mod ≡ b % usize_mod

abbrev pub SameErrors : ℕ → ℕ → Type 0
SameErrors a b = a % u32_mod ≡ b % u32_mod

bump_tree-count :
    {K : Type 0} ⦃r : Ranked K⦄ (k j : K) (m : TreeMap K ℕ)
    → SameCount
        (or_default (tree_get j (bump_tree k m)))
        ((if r.rank k == r.rank j then 1 else 0) + or_default (tree_get j m))
unfolding bump_tree
bump_tree-count ⦃r⦄ k j m = ground (
  arith,
  tree_get-insert k j ((or_default (tree_get k m) + 1) % usize_mod) m,
  tree_get-same_rank k j m,
)

bump_text-count :
    (width : ℕ) (k j : Text) (n : ℕ) (m : HashMap Text ℕ)
    → or_default (hash_get j (bump_text width k n m))
      ≡ (if k == j then (or_default (hash_get k m) + n) % width else or_default (hash_get j m))
unfolding bump_text
bump_text-count width k j n m =
    ground (arith, hash_get-insert k j ((or_default (hash_get k m) + n) % width) m)

count_protocols-count :
    (k : Proto) (es : TypeMap) (m : TreeMap Proto ℕ)
    → SameCount
        (or_default (tree_get k (count_protocols es m)))
        (occurs k es + or_default (tree_get k m))
unfolding count_protocols
count_protocols-count k [] m = omega arith
count_protocols-count k ((proto, level) ∷ es) m =
    omega (arith, count_protocols-count k es (bump_tree proto m), bump_tree-count proto k m)

count_level-count :
    (k : AnonLevel) (proto : Proto) (level : Option AnonLevel) (m : TreeMap AnonLevel ℕ)
    → SameCount
        (or_default (tree_get k (count_level proto level m)))
        ((if is_level k proto level then 1 else 0) + or_default (tree_get k m))
count_level-count k Proto.http (some l) m = bump_tree-count l k m
count_level-count k Proto.http none m = omega arith
count_level-count k _ level m = omega arith

count_levels-count :
    (k : AnonLevel) (es : TypeMap) (m : TreeMap AnonLevel ℕ)
    → SameCount
        (or_default (tree_get k (count_levels es m)))
        (occurs_level k es + or_default (tree_get k m))
unfolding count_levels
count_levels-count k [] m = omega arith
count_levels-count k ((proto, level) ∷ es) m =
    omega (
      arith,
      count_levels-count k es (count_level proto level m),
      count_level-count k proto level m,
    )

count_errors-count :
    (s : Text) (es : HashMap ProxyError ℕ) (m : HashMap Text ℕ)
    → SameErrors
        (or_default (hash_get s (count_errors es m)))
        (occurs_error s es + or_default (hash_get s m))
unfolding count_errors
count_errors-count s [] m = omega arith
count_errors-count s ((e, n) ∷ es) m = ground (
  arith,
  count_errors-count s es (bump_text u32_mod (error_str e) n m),
  bump_text-count u32_mod (error_str e) s n m,
  ==_iff (error_str e) s,
)

module _ {F : Type 0} ⦃f : Float F⦄ where
  abbrev working_one : Proxy F → ℕ
  working_one p = if is_working p then 1 else 0

  abbrev country_one : Text → Proxy F → ℕ
  country_one s p = if country_name p.geo == s then 1 else 0

  -- What the counts of a collector are beyond those of another: those of the proxies.
  pub record IsTally (ps : List (Proxy F)) (c d : StatsCollector F) : Type 0 where
    pub in_total : SameCount d.total (length ps + c.total)
    pub in_working : SameCount d.working (sum_over working_one ps + c.working)
    pub in_protocols :
        (k : Proto)
        → SameCount (or_default (tree_get k d.by_protocol)) (
            sum_over (λ (p : Proxy F). occurs k p.types) ps + or_default (tree_get k c.by_protocol))
    pub in_levels :
        (k : AnonLevel)
        → SameCount (or_default (tree_get k d.by_anonymity)) (
            sum_over (λ (p : Proxy F). occurs_level k p.types) ps
            + or_default (tree_get k c.by_anonymity))
    pub in_countries :
        (s : Text)
        → SameCount
            (or_default (hash_get s d.by_country))
            (sum_over (country_one s) ps + or_default (hash_get s c.by_country))
    pub in_errors :
        (s : Text)
        → SameErrors (or_default (hash_get s d.errors)) (
            sum_over (λ (p : Proxy F). occurs_error s p.errors) ps
            + or_default (hash_get s c.errors))

  record_proxy-country :
      (s : Text) (p : Proxy F) (c : StatsCollector F)
      → SameCount
          (or_default (hash_get s (record_proxy p c).by_country))
          (country_one s p + or_default (hash_get s c.by_country))
  unfolding record_proxy
  record_proxy-country s p c = ground (
    arith,
    bump_text-count usize_mod (country_name p.geo) s 1 c.by_country,
    ==_iff (country_name p.geo) s,
  )

  record_proxy-working :
      (p : Proxy F) (c : StatsCollector F)
      → SameCount (record_proxy p c).working (working_one p + c.working)
  unfolding record_proxy
  record_proxy-working p c = ground arith

  record_each-IsTally :
      (ps : List (Proxy F)) (c : StatsCollector F) → IsTally ps c (record_each ps c)
  unfolding record_each record_proxy
  record_each-IsTally [] c = record {
    in_total = omega arith;
    in_working = omega arith;
    in_protocols = λ k. omega arith;
    in_levels = λ k. omega arith;
    in_countries = λ s. omega arith;
    in_errors = λ s. omega arith;
  }
  record_each-IsTally (p ∷ ps) c =
      let ih = record_each-IsTally ps (record_proxy p c) in
      record {
        in_total = omega (arith, ih.in_total);
        in_working = omega (arith, ih.in_working, record_proxy-working p c);
        in_protocols =
            λ k. omega (arith, ih.in_protocols k, count_protocols-count k p.types c.by_protocol);
        in_levels = λ k. omega (arith, ih.in_levels k, count_levels-count k p.types c.by_anonymity);
        in_countries = λ s. omega (arith, ih.in_countries s, record_proxy-country s p c);
        in_errors = λ s. omega (arith, ih.in_errors s, count_errors-count s p.errors c.errors);
      }

  -- The abstract statistics of a list of proxies, modulo the widths of the counters.
  pub record Describes (ps : List (Proxy F)) (s : Stats F) : Type 0 where
    pub all_counted : SameCount s.total (length ps)
    pub working_counted : SameCount s.working (length (keep is_working ps))
    pub protocols_counted :
        (k : Proto)
        → SameCount
            (or_default (tree_get k s.by_protocol))
            (sum_over (λ (p : Proxy F). occurs k p.types) ps)
    pub levels_counted :
        (k : AnonLevel)
        → SameCount
            (or_default (tree_get k s.by_anonymity))
            (sum_over (λ (p : Proxy F). occurs_level k p.types) ps)
    pub countries_counted :
        (t : Text) → SameCount (or_default (hash_get t s.by_country)) (sum_over (country_one t) ps)
    pub errors_counted :
        (t : Text)
        → SameErrors
            (or_default (hash_get t s.errors))
            (sum_over (λ (p : Proxy F). occurs_error t p.errors) ps)

  sum_over-working : (ps : List (Proxy F)) → sum_over working_one ps ≡ length (keep is_working ps)
  sum_over-working [] = refl
  sum_over-working (p ∷ ps) = ground (arith, sum_over-working ps)

  -- The statistics of a list of proxies count what they say: all of them, the working ones, the
  -- confirmed types for each protocol and, of HTTP, for each level, the proxies of each country,
  -- where `--` is that of the unknown ones, and the errors of each name.
  pub stats_from-Describes : (ps : List (Proxy F)) → Describes ps (stats_from ps)
  unfolding stats_from finish tree_get hash_get
  stats_from-Describes ps =
      let h = record_each-IsTally ps fresh in
      record {
        all_counted = omega (arith, h.in_total);
        working_counted = omega (arith, h.in_working, sum_over-working ps);
        protocols_counted = λ k. omega (arith, h.in_protocols k);
        levels_counted = λ k. omega (arith, h.in_levels k);
        countries_counted = λ t. omega (arith, h.in_countries t);
        errors_counted = λ t. omega (arith, h.in_errors t);
      }
