-- ===== src/Broker/Grab.antt =====
-- src/broker.rs: the proxies of the providers' candidates, as `grab_task` sends them and as
-- `find_task` hands them to the checks. The candidates stand in the order in which they come.
use proxybroker_rs.Broker.Pipeline.{reached}
use proxybroker_rs.Net.{Addr, IpAddr, addr_eq, ip_eq, memb}
use proxybroker_rs.Pool.State.{client_key_eq, country_ok, strategy_eq}
use proxybroker_rs.Prelude.{
  Bool, List, Option, [], if◌then◌else◌, map, none, not, some, ℕ, ◌+◌, ◌∷◌,
}
use proxybroker_rs.Proxy.Record.{Asn, Country, Proxy, new}
use proxybroker_rs.Server.Requests.{IpText, frontend_eq}
use proxybroker_rs.Text.{Text, uppercase}
use proxybroker_rs.Types.Proto.{Proto, proto_eq, proto_ranked}

-- src/provider.rs, `Candidate`.
pub record Candidate : Type 0 where
  pub host : Text
  pub port : ℕ
  pub protocols : List Proto

-- The two databases of `attach_geo`, if they are there.
pub record GeoDbs : Type 0 where
  pub geo : Option (IpAddr → Option Country)
  pub asn : Option (IpAddr → Option Asn)

abbrev pub looked_up : {A : Type 0} → IpAddr → Option A → Option (IpAddr → Option A) → Option A
looked_up host old none = old
looked_up host old (some lookup) = lookup host

abbrev pub upper_all : Option (List Text) → Option (List Text)
upper_all none = none
upper_all (some cs) = some (map uppercase cs)

module _ {F : Type 0} where
  unfoldable pub attach_geo : GeoDbs → Proxy F → Proxy F
  attach_geo dbs p = record p {
    geo = looked_up p.host p.geo dbs.geo;
    asn = looked_up p.host p.asn dbs.asn;
  }

abbrev pub unseen_at : List Addr → ℕ → Option IpAddr → Option IpAddr
unseen_at seen port none = none
unseen_at seen port (some host) = if memb (host, port) seen then none else some host

-- The candidate's address, unless it has been seen or is no address.
abbrev pub unseen : ⦃t : IpText⦄ → List Addr → Candidate → Option IpAddr
unseen ⦃t⦄ seen c = unseen_at seen c.port (t.parse_ip c.host)

module _ {F : Type 0} ⦃t : IpText⦄ where
  abbrev pub proxy_of : GeoDbs → IpAddr → Candidate → Proxy F
  proxy_of dbs host c = attach_geo dbs (new host c.port c.protocols)

  -- One candidate in the source of `find_task`; `rest` is the rest for what has been seen.
  abbrev pub source_on :
      GeoDbs
      → Option (List Text)
      → (List Addr → List (Proxy F))
      → List Addr
      → Candidate
      → Option IpAddr
      → List (Proxy F)
  source_on dbs countries rest seen c none = rest seen
  source_on dbs countries rest seen c (some host) =
      let p = proxy_of dbs host c in
      if country_ok p countries
      then p ∷ rest ((host, c.port) ∷ seen)
      else rest ((host, c.port) ∷ seen)

  unfoldable pub source_from :
      GeoDbs → Option (List Text) → List Addr → List Candidate → List (Proxy F)
  unfolding attach_geo new
  source_from dbs countries seen [] = []
  source_from dbs countries seen (c ∷ cs) =
      source_on dbs countries (λ s. source_from dbs countries s cs) seen c (unseen seen c)

  unfoldable pub source_of : GeoDbs → Option (List Text) → List Candidate → List (Proxy F)
  unfolding source_from
  source_of dbs countries cs = source_from dbs (upper_all countries) [] cs

  -- One candidate in the loop of `grab_task`; `rest` is the rest of the loop, for how many have been
  -- sent and what has been seen, and `stays` tells whether the consumer takes each of them.
  abbrev pub grab_on :
      GeoDbs
      → Option (List Text)
      → (ℕ → Bool)
      → (ℕ → List Addr → List (Proxy F))
      → ℕ
      → List Addr
      → Candidate
      → Option IpAddr
      → List (Proxy F)
  grab_on dbs countries stays rest n seen c none = rest n seen
  grab_on dbs countries stays rest n seen c (some host) =
      let p = proxy_of dbs host c in
      if not (country_ok p countries)
      then rest n ((host, c.port) ∷ seen)
      else if stays n
      then p ∷ rest (n + 1) ((host, c.port) ∷ seen)
      else []

  unfoldable pub grab_from :
      GeoDbs
      → Option (List Text)
      → Option ℕ
      → (ℕ → Bool)
      → ℕ
      → List Addr
      → List Candidate
      → List (Proxy F)
  unfolding attach_geo new
  grab_from dbs countries limit stays n seen [] = []
  grab_from dbs countries limit stays n seen (c ∷ cs) =
      let going =
        grab_on dbs countries stays (λ m s. grab_from dbs countries limit stays m s cs) n seen c
          (unseen seen c) in
      if reached limit n then [] else going

  unfoldable pub grab :
      GeoDbs → Option (List Text) → Option ℕ → (ℕ → Bool) → List Candidate → List (Proxy F)
  unfolding grab_from
  grab dbs countries limit stays cs = grab_from dbs (upper_all countries) limit stays 0 [] cs
