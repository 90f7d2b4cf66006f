-- ===== src/Broker/Sources.antt =====
-- What `grab_task` and `find_task` of src/broker.rs take from the candidates.
use proxybroker_rs.Broker.Grab.{
  Candidate, GeoDbs, attach_geo, looked_up, proxy_of, source_from, source_of, unseen, upper_all,
}
use proxybroker_rs.Net.{Addr, IpAddr, addr_eq, ip_eq, memb}
use proxybroker_rs.Pool.State.{client_key_eq, country_ok, in_countries, strategy_eq}
use proxybroker_rs.Prelude.{
  Bool, Bool-cases, List, Option, Option-cases, [], any, arith, false, inl, inr, map, none, refl,
  some, sym, true, ℕ, ◌↔◌, ◌∙◌, ◌∷◌, ◌≡◌,
}
use proxybroker_rs.Prelude.Equality.{==-refl, ==_iff, list_eq, nat_eq, ◌==◌}
use proxybroker_rs.Proxy.Record.{Proxy, addr_of, new}
use proxybroker_rs.Server.Requests.{IpText, frontend_eq}
use proxybroker_rs.Text.{Text}

-- No address twice.
abbrev pub Distinct : List Addr → Type 0
Distinct [] = Unit
Distinct (a ∷ as') = (memb a as' ≡ false) × Distinct as'

abbrev pub parsed_at : Addr → ℕ → Option IpAddr → Bool
parsed_at a port none = false
parsed_at a port (some host) = (host, port) == a

-- Whether an address is from a country asked for.
abbrev pub host_ok : GeoDbs → Option (List Text) → IpAddr → Bool
host_ok dbs none host = true
host_ok dbs (some cs) host = in_countries (looked_up host none dbs.geo) cs

country_ok-proxy_of :
    (F : Type 0) ⦃t : IpText⦄ (dbs : GeoDbs) (countries : Option (List Text)) (host : IpAddr)
    (c : Candidate)
    → country_ok {F = F} (proxy_of dbs host c) countries ≡ host_ok dbs countries host
unfolding attach_geo new
country_ok-proxy_of F dbs none host c = refl
country_ok-proxy_of F dbs (some cs) host c = refl

addr_of-proxy_of :
    (F : Type 0) ⦃t : IpText⦄ (dbs : GeoDbs) (host : IpAddr) (c : Candidate)
    → addr_of {F = F} (proxy_of dbs host c) ≡ (host, c.port)
unfolding attach_geo new
addr_of-proxy_of F dbs host c = refl

module _ ⦃t : IpText⦄ where
  -- The candidate has the address, and so has one of a list.
  abbrev pub is_at : Addr → Candidate → Bool
  is_at a c = parsed_at a c.port (t.parse_ip c.host)

  abbrev pub offers_addr : Addr → List Candidate → Bool
  offers_addr a cs = any (is_at a) cs

  unseen-some :
      (seen : List Addr) (c : Candidate) (host : IpAddr)
      → unseen seen c ≡ some host
      → ((a : Addr) → is_at a c ≡ ((host, c.port) == a)) × (memb (host, c.port) seen ≡ false)
  unseen-some seen c host e = elim (Option-cases (t.parse_ip c.host)) [
    | inl none_parsed ↦ cc (rw none_parsed at e)
    | inr (h, parsed) ↦ elim (Bool-cases (memb (h, c.port) seen)) [
      | inl old ↦ cc (rw (parsed, old) at e)
      | inr new_one ↦
          let same : h ≡ host = cc (rw (parsed, new_one) at e) in
          (λ a. rw (parsed, same) refl, rw (← same) new_one)
    ]
  ]

  skipped-offers :
      (a : Addr) (seen : List Addr) (c : Candidate) (cs : List Candidate)
      → unseen seen c ≡ none
      → memb a seen ≡ false
      → offers_addr a (c ∷ cs) ≡ true
      → offers_addr a cs ≡ true
  skipped-offers a seen c cs e fresh_one offered = elim (Option-cases (t.parse_ip c.host)) [
    | inl none_parsed ↦ rw none_parsed at offered
    | inr (h, parsed) ↦ ground (arith, rw parsed at e, rw parsed at offered, ==_iff (h, c.port) a)
  ]

module _ {F : Type 0} ⦃t : IpText⦄ where
  -- A source in which no address stands twice, none that was seen, and whose addresses are those of
  -- the other candidates from the countries.
  record IsClean (dbs : GeoDbs) (countries : Option (List Text)) (seen : List Addr)
      (cs : List Candidate) (ps : List (Proxy F)) : Type 0 where
    distinct : Distinct (map addr_of ps)
    wanted :
        (a : Addr)
        → memb a (map addr_of ps) ≡ true
        → (memb a seen ≡ false) × (offers_addr a cs ≡ true) × (host_ok dbs countries a.0 ≡ true)
    complete :
        (a : Addr)
        → memb a seen ≡ false
        → offers_addr a cs ≡ true
        → host_ok dbs countries a.0 ≡ true
        → memb a (map addr_of ps) ≡ true

  -- The source with one more proxy, and without.
  added :
      (dbs : GeoDbs) (countries : Option (List Text)) (seen : List Addr) (c : Candidate)
      (cs : List Candidate) (host : IpAddr) (ps : List (Proxy F))
      → IsClean dbs countries ((host, c.port) ∷ seen) cs ps
      → ((a : Addr) → is_at a c ≡ ((host, c.port) == a))
      → memb (host, c.port) seen ≡ false
      → host_ok dbs countries host ≡ true
      → IsClean dbs countries seen (c ∷ cs) (proxy_of dbs host c ∷ ps)
  unfolding attach_geo new
  added dbs countries seen c cs host ps h parsed new_one good = record {
    distinct =
        (ground (arith, h.wanted (host, c.port), ==-refl {A = Addr} (host, c.port)), h.distinct);
    wanted = λ a m. ground (arith, m, h.wanted a, parsed a, ==_iff (host, c.port) a, new_one, good);
    complete =
        λ a fresh_one offered ok. ground (arith, h.complete a, parsed a, ==_iff (host, c.port) a);
  }

  left_out :
      (dbs : GeoDbs) (countries : Option (List Text)) (seen : List Addr) (c : Candidate)
      (cs : List Candidate) (host : IpAddr) (ps : List (Proxy F))
      → IsClean dbs countries ((host, c.port) ∷ seen) cs ps
      → ((a : Addr) → is_at a c ≡ ((host, c.port) == a))
      → memb (host, c.port) seen ≡ false
      → host_ok dbs countries host ≡ false
      → IsClean dbs countries seen (c ∷ cs) ps
  left_out dbs countries seen c cs host ps h parsed new_one bad = record {
    distinct = h.distinct;
    wanted = λ a m. ground (arith, h.wanted a m, parsed a, ==_iff (host, c.port) a);
    complete =
        λ a fresh_one offered ok. ground (arith, h.complete a, parsed a, ==_iff (host, c.port) a);
  }

  source_from-IsClean :
      (dbs : GeoDbs) (countries : Option (List Text)) (seen : List Addr) (cs : List Candidate)
      → IsClean dbs countries seen cs (source_from dbs countries seen cs)
  unfolding source_from
  source_from-IsClean dbs countries seen [] = record {
    distinct = tt;
    wanted = λ a m. cc m;
    complete = λ a new_one offered ok. cc offered;
  }
  source_from-IsClean dbs countries seen (c ∷ cs) = elim (Option-cases (unseen seen c)) [
    | inl skipped ↦ rw skipped (
        let h = source_from-IsClean dbs countries seen cs in
        record {
          distinct = h.distinct;
          wanted = λ a m. let (x, y, z) = h.wanted a m in (x, ground (arith, y), z);
          complete = λ a new_one offered ok.
              h.complete a new_one (skipped-offers a seen c cs skipped new_one offered) ok;
        })
    | inr (host, found) ↦
        let h = source_from-IsClean dbs countries ((host, c.port) ∷ seen) cs in
        let (parsed, new_one) = unseen-some seen c host found in
        let same_country = country_ok-proxy_of F dbs countries host c in
        let same_addr = addr_of-proxy_of F dbs host c in
        elim (Bool-cases (country_ok {F = F} (proxy_of dbs host c) countries)) [
          | inl good ↦
              rw (found, good)
                (added dbs countries seen c cs host _ h parsed new_one (sym same_country ∙ good))
          | inr bad ↦
              rw (found, bad)
                (left_out dbs countries seen c cs host _ h parsed new_one (sym same_country ∙ bad))
        ]
  ]

-- The source that `find` makes of the candidates holds each address once, and an address exactly
-- when a candidate has it and it is from a country asked for.
pub source_of-IsClean :
    (F : Type 0) ⦃t : IpText⦄ (dbs : GeoDbs) (countries : Option (List Text)) (cs : List Candidate)
    → Distinct (map addr_of (source_of {F = F} dbs countries cs))
      × ((a : Addr)
          → (memb a (map addr_of (source_of {F = F} dbs countries cs)) ≡ true)
            ↔ ((offers_addr a cs ≡ true) × (host_ok dbs (upper_all countries) a.0 ≡ true)))
unfolding source_of
source_of-IsClean F dbs countries cs =
    let h = source_from-IsClean {F = F} dbs (upper_all countries) [] cs in
    (
      h.distinct,
      λ a. (
        λ m. let (_, offered, ok_here) = h.wanted a m in (offered, ok_here),
        λ o. h.complete a refl o.0 o.1,
      ),
    )
