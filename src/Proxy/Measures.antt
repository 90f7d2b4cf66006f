-- ===== src/Proxy/Measures.antt =====
-- src/proxy.rs: what is computed from a proxy's record, its priority and its schemes.
use proxybroker_rs.Errors.{ProxyError, error_eq}
use proxybroker_rs.Float.{Float, nat_float, sum_f}
use proxybroker_rs.Maps.{HashMap, tree_has}
use proxybroker_rs.Prelude.{
  Bool, List, Option, [], any, get_elem?, if◌then◌else◌, is_empty, leb, length, none, some, ℕ, ◌%◌,
  ◌++◌, ◌+◌, ◌∷◌,
}
use proxybroker_rs.Prelude.Equality.{list_eq, nat_eq, ◌==◌}
use proxybroker_rs.Proxy.Record.{Proxy, TypeMap, u32_mod}
use proxybroker_rs.Types.Proto.{Proto, proto_eq, proto_ranked}
use proxybroker_rs.Types.Scheme.{Scheme, scheme_eq}

abbrev http_protos : List Proto
http_protos = Proto.http ∷ Proto.connect80 ∷ Proto.socks4 ∷ Proto.socks5 ∷ []

abbrev https_protos : List Proto
https_protos = Proto.https ∷ Proto.socks4 ∷ Proto.socks5 ∷ []

abbrev pub elem : Proto → List Proto → Bool
elem p ps = any (λ q. q == p) ps

abbrev any_type : List Proto → TypeMap → Bool
any_type ps m = any (λ e. elem e.0 ps) m

-- `errors.values().sum()`, in `u32`.
unfoldable pub sum_errors : HashMap ProxyError ℕ → ℕ
sum_errors [] = 0
sum_errors ((e, n) ∷ m) = (n + sum_errors m) % u32_mod

module _ {F : Type 0} ⦃f : Float F⦄ where
  unfoldable pub error_rate : Proxy F → F
  unfolding sum_errors
  error_rate p =
      if p.requests == 0
      then f.zero_f
      else f.round2 (f.div (f.of_nat (sum_errors p.errors)) (f.of_nat p.requests))

  unfoldable pub mean : List F → F
  unfolding sum_f
  mean ts = if is_empty ts then f.zero_f else f.round2 (f.div (sum_f ts) (f.of_nat (length ts)))

  unfoldable pub avg_resp_time : Proxy F → F
  unfolding mean
  avg_resp_time p = mean p.runtimes

  unfoldable pub probe_latency : Proxy F → F
  unfolding mean
  probe_latency p = mean p.probe_runtimes

  insert_sorted : F → List F → List F
  insert_sorted x [] = x ∷ []
  insert_sorted x (y ∷ ys) =
      if leb (f.total_key x) (f.total_key y) then x ∷ y ∷ ys else y ∷ insert_sorted x ys

  -- `sort_by(total_cmp)`.
  unfoldable pub sorted : List F → List F
  unfolding insert_sorted
  sorted [] = []
  sorted (x ∷ xs) = insert_sorted x (sorted xs)

  abbrev interpolate : F → Option F → Option F → Option F
  interpolate frac (some lo) (some hi) = some (f.round2 (f.add lo (f.mul frac (f.sub hi lo))))
  interpolate frac _ _ = none

  -- `none` is the panic of an index out of bounds.
  unfoldable pub percentile : List F → F → Option F
  unfolding sorted
  percentile [] q = some f.zero_f
  percentile (x ∷ xs) q =
      let ts = sorted (x ∷ xs) in
      let rank = f.mul q (f.of_nat (length xs)) in
      interpolate (f.sub rank (f.of_nat (f.floor rank))) (get_elem? ts (f.floor rank))
        (get_elem? ts (f.ceil rank))

  abbrev worse : Option F → F → F
  worse none rate = rate
  worse (some ewma) rate = f.max_f rate (f.sub f.one_f ewma)

  unfoldable pub priority : Proxy F → F × F
  unfolding error_rate avg_resp_time
  priority p = (worse p.ewma_success (error_rate p), avg_resp_time p)

module _ {F : Type 0} where
  abbrev pub has_type : Proto → Proxy F → Bool
  has_type proto p = tree_has proto p.types

  unfoldable pub schemes : Proxy F → List Scheme
  schemes p =
      (if any_type http_protos p.types then Scheme.http ∷ [] else [])
      ++ (if any_type https_protos p.types then Scheme.https ∷ [] else [])

  -- `schemes().contains(&scheme)`.
  unfoldable pub serves : Scheme → Proxy F → Bool
  unfolding schemes
  serves s p = any (λ t. t == s) (schemes p)
