-- ===== src/Checker/Check.antt =====
-- src/checker.rs: `types_passed`, `check_one` and `check`. What a connection attempt finds is given
-- by the environment, as are the blocklists and whether there is a judge.
use proxybroker_rs.Errors.{ProxyError, bad_response, error_eq}
use proxybroker_rs.Maps.{TreeMap, tree_get, tree_insert, tree_remove}
use proxybroker_rs.Prelude.{
  Bool, List, Option, [], any, false, if◌then◌else◌, is_empty, keep, ltb, none, not, some, suc,
  true, zero, ℕ, ◌&&◌, ◌+◌, ◌||◌, ◌∷◌,
}
use proxybroker_rs.Prelude.Equality.{list_eq, nat_eq, ◌==◌}
use proxybroker_rs.Proxy.Record.{
  Proxy, TypeMap, add_type, record_attempt, record_caps, record_probe_latency, record_trust,
}
use proxybroker_rs.Proxy.Trust.{TrustReport, signal_eq}
use proxybroker_rs.Types.AnonLevel.{AnonLevel, level_eq, level_ranked}
use proxybroker_rs.Types.Proto.{Proto, all_protos, checks_anon_level, proto_eq, proto_ranked}
use proxybroker_rs.Types.TypeSpec.{Caps, TypeSpec}

pub record RetryPolicy (F : Type 0) : Type 0 where
  pub max_tries : ℕ
  pub retry_on : List ProxyError
  pub backoff : ℕ
  pub factor : F
  pub jitter : F
  pub max_backoff : ℕ

pub record Observation : Type 0 where
  pub level : Option AnonLevel
  pub caps : Caps
  pub trust : TrustReport

-- How an attempt ends: `errs` is the `Err` of its result.
pub data Attempt : Type 0 where
  working : Observation → Attempt
  invalid : Attempt
  errs : ProxyError → Attempt

abbrev pub Wanted : Type 0
Wanted = TreeMap Proto (Option (List AnonLevel))

-- A later specification of a protocol replaces an earlier one.
unfoldable pub wanted_from : Wanted → List TypeSpec → Wanted
unfolding tree_insert
wanted_from m [] = m
wanted_from m (s ∷ ss) = wanted_from (tree_insert s.proto s.levels m) ss

abbrev pub level_in : Option AnonLevel → List AnonLevel → Bool
level_in none levels = false
level_in (some l) levels = any (λ k. k == l) levels

-- The `match` on what is requested of a protocol.
abbrev pub suits : Bool → Proto → Option AnonLevel → Option (Option (List AnonLevel)) → Bool
suits strict proto level none = true
suits strict proto level (some none) = true
suits strict proto level (some (some levels)) =
    if is_empty levels
    then true
    else if not (checks_anon_level proto)
    then strict
    else level_in level levels

unfoldable pub matches : Bool → Wanted → Proto × Option AnonLevel → Bool
unfolding tree_get
matches strict wanted (proto, level) = suits strict proto level (tree_get proto wanted)

unfoldable pub remove_all : List (Proto × Option AnonLevel) → TypeMap → TypeMap
unfolding tree_remove
remove_all [] m = m
remove_all ((proto, level) ∷ es) m = remove_all es (tree_remove proto m)

module _ {F : Type 0} where
  abbrev strip_types : Wanted → Proxy F → Proxy F
  strip_types wanted p = record p {
    types = remove_all (keep (λ e. not (matches true wanted e)) p.types) p.types;
  }

  unfoldable pub types_passed : List TypeSpec → Bool → Proxy F → Bool × Proxy F
  unfolding wanted_from matches remove_all
  types_passed requested strict p =
      let wanted = wanted_from [] requested in
      let stripped = strip_types wanted p in
      if is_empty requested
      then (true, p)
      else if strict
      then (not (is_empty stripped.types), stripped)
      else (any (matches false wanted) p.types, p)

  -- What a working attempt records.
  unfoldable pub record_working : Proto → Observation → F → Proxy F → Proxy F
  unfolding record_attempt record_probe_latency add_type record_caps record_trust
  record_working proto obs rtt p =
      let tried = record_probe_latency (record_attempt p (some rtt) none) rtt in
      record_trust (record_caps (add_type tried proto obs.level) obs.caps) obs.trust

  -- The end of attempt `i`; `again` is the rest of the loop.
  abbrev pub on_attempt :
      RetryPolicy F
      → (Proxy F → Bool × Proxy F)
      → ℕ
      → Proto
      → F
      → Proxy F
      → Attempt
      → Bool × Proxy F
  on_attempt policy again i proto rtt p (working obs) = (true, record_working proto obs rtt p)
  on_attempt policy again i proto rtt p invalid = (false, record_attempt p none (some bad_response))
  on_attempt policy again i proto rtt p (errs e) =
      let unfit = record_attempt p none (some e) in
      if any (λ r. r == e) policy.retry_on && ltb (i + 1) policy.max_tries
      then again unfit
      else (false, unfit)

  -- How many attempts are left, and the number of the next one.
  unfoldable pub check_from :
      RetryPolicy F → (ℕ → Attempt × F) → ℕ → ℕ → Proto → Proxy F → Bool × Proxy F
  unfolding record_working record_attempt
  check_from policy env zero i proto p = (false, p)
  check_from policy env (suc n) i proto p =
      on_attempt policy (λ q. check_from policy env n (i + 1) proto q) i proto (env i).1 p (env i).0

  unfoldable pub check_one :
      RetryPolicy F → (ℕ → Attempt × F) → Bool → Proto → Proxy F → Bool × Proxy F
  unfolding check_from
  check_one policy env has_judge proto p =
      let tried = check_from policy env policy.max_tries 0 proto p in
      if has_judge then tried else (false, p)

  -- The protocols to check: expected and requested, in the order of the declaration.
  unfoldable pub candidates : List TypeSpec → Proxy F → List Proto
  candidates requested p =
      keep
        (λ c.
          any (λ s. s.proto == c) requested
          && (is_empty p.expected_types || any (λ x. x == c) p.expected_types))
        all_protos

  unfoldable pub check_each :
      RetryPolicy F
      → (Proto → ℕ → Attempt × F)
      → (Proto → Bool)
      → List Proto
      → Bool
      → Proxy F
      → Bool × Proxy F
  unfolding check_one
  check_each policy env has_judge [] found p = (found, p)
  check_each policy env has_judge (c ∷ cs) found p =
      let (works, q) = check_one policy (env c) (has_judge c) c p in
      check_each policy env has_judge cs (found || works) q

  abbrev pub admit : List TypeSpec → Bool → Bool × Proxy F → Bool × Proxy F
  admit requested strict (found, p) = if found then types_passed requested strict p else (false, p)

  -- `blocked` is the answer of the DNS blocklists.
  unfoldable pub check :
      List TypeSpec
      → Bool
      → RetryPolicy F
      → (Proto → ℕ → Attempt × F)
      → (Proto → Bool)
      → Bool
      → Proxy F
      → Bool × Proxy F
  unfolding types_passed check_each candidates
  check requested strict policy env has_judge blocked p =
      if blocked
      then (false, p)
      else admit requested strict (check_each policy env has_judge (candidates requested p) false p)
