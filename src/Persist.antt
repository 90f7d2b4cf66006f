-- ===== src/Persist.antt =====
-- src/persist.rs: `MemoryStore`, the durable record of the proxies that have been seen.
use proxybroker_rs.Float.{Float, nat_float}
use proxybroker_rs.Maps.{
  HashMap, hash_get, hash_get-insert, hash_has, hash_insert, length-hash_insert,
}
use proxybroker_rs.Net.{Addr, addr_eq, ip_eq}
use proxybroker_rs.Pool.State.{client_key_eq, strategy_eq, u64_mod}
use proxybroker_rs.Prelude.{
  List, Option, [], ap, arith, false, if◌then◌else◌, is_empty, length, map, min, none, refl, some,
  suc, ℕ, ◌+◌, ◌-◌, ◌∙◌, ◌∷◌, ◌≡◌,
}
use proxybroker_rs.Prelude.Equality.{==-refl, list_eq, nat_eq, ◌==◌}
use proxybroker_rs.Proxy.Measures.{avg_resp_time, sum_errors}
use proxybroker_rs.Proxy.Record.{
  Proxy, TypeMap, addr_of, is_working, new, restored, u32_mod, with_ewma,
}

pub record Record (F : Type 0) : Type 0 where
  pub types : TypeMap
  pub requests : ℕ
  pub errors : ℕ
  pub ewma_success : F
  pub avg_latency : F
  pub uptime_checks : ℕ

abbrev pub Store : Type 0 → Type 0
Store F = HashMap Addr (Record F)

abbrev pub saturating : ℕ → ℕ → ℕ → ℕ
saturating bound a b = min (a + b) (bound - 1)

module _ {F : Type 0} ⦃f : Float F⦄ where
  abbrev pub sample_of : Proxy F → F
  sample_of p = if is_working p then f.one_f else f.zero_f

  abbrev pub fold_ewma : F → F → F
  fold_ewma prev sample = f.add (f.mul f.three_tenths sample) (f.mul f.seven_tenths prev)

  -- The record of a proxy that is new, and that of one seen before.
  unfoldable pub seeded : Proxy F → Record F
  unfolding is_working sum_errors avg_resp_time
  seeded p = record {
    types = p.types;
    requests = p.requests;
    errors = sum_errors p.errors;
    ewma_success = sample_of p;
    avg_latency = avg_resp_time p;
    uptime_checks = if is_working p then 1 else 0;
  }

  unfoldable pub folded : Record F → Proxy F → Record F
  unfolding is_working sum_errors avg_resp_time
  folded rec p = record {
    types = if is_empty p.types then rec.types else p.types;
    requests = saturating u32_mod rec.requests p.requests;
    errors = saturating u32_mod rec.errors (sum_errors p.errors);
    ewma_success = fold_ewma rec.ewma_success (sample_of p);
    avg_latency =
        if f.lt f.zero_f (avg_resp_time p)
        then fold_ewma rec.avg_latency (avg_resp_time p)
        else rec.avg_latency;
    uptime_checks = saturating u64_mod rec.uptime_checks (if is_working p then 1 else 0);
  }

  abbrev pub entry_for : Proxy F → Option (Record F) → Record F
  entry_for p none = seeded p
  entry_for p (some rec) = folded rec p

  unfoldable pub upsert : Proxy F → Store F → Store F
  unfolding seeded folded hash_get hash_insert
  upsert p m = hash_insert (addr_of p) (entry_for p (hash_get (addr_of p) m)) m

  unfoldable pub load_one : Addr → Record F → Proxy F
  unfolding restored with_ewma
  load_one addr rec =
      with_ewma (restored addr.0 addr.1 rec.types rec.requests rec.errors rec.avg_latency)
        (some rec.ewma_success)

  unfoldable pub load : Store F → List (Proxy F)
  unfolding load_one
  load m = map (λ e. load_one e.0 e.1) m

  -- An upsert keeps one record for an address: that of the proxy's address becomes the seed or the
  -- fold, every other record is as it was, and a proxy seen before adds none.
  pub upsert_lem :
      (p : Proxy F) (m : Store F) (a : Addr)
      → (hash_get a (upsert p m)
          ≡ (if addr_of p == a then some (entry_for p (hash_get (addr_of p) m)) else hash_get a m))
        × (length (upsert p m) ≡ (if hash_has (addr_of p) m then length m else suc (length m)))
  unfolding upsert
  upsert_lem p m a = (hash_get-insert (addr_of p) a _ m, length-hash_insert (addr_of p) _ m)

  load-addrs : (m : Store F) → map addr_of (load m) ≡ map (λ e. e.0) m
  unfolding load load_one restored with_ewma new
  load-addrs [] = refl
  load-addrs ((a, rec) ∷ m) = ap (λ (as' : List Addr). a ∷ as') (load-addrs m)

  types_kept :
      (rec : Record F) (p : Proxy F) → is_working p ≡ false → (folded rec p).types ≡ rec.types
  unfolding folded is_working
  types_kept rec p idle = ground (arith, idle)

  -- A check that finds nothing working erases nothing: the record of the address keeps its types,
  -- and the proxy is loaded with them.
  pub upsert-idle :
      (p : Proxy F) (m : Store F) (rec : Record F)
      → hash_get (addr_of p) m ≡ some rec
      → is_working p ≡ false
      → (rec' : Record F) × (hash_get (addr_of p) (upsert p m) ≡ some rec')
        × ((load_one (addr_of p) rec').types ≡ rec.types)
  unfolding load_one restored with_ewma
  upsert-idle p m rec known idle = (
    folded rec p,
    (upsert_lem p m (addr_of p)).0 ∙ rw (==-refl (addr_of p), known) refl,
    types_kept rec p idle,
  )
