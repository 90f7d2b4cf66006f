-- ===== src/Broker/Proved.antt =====
-- What `find` of src/broker.rs hands to its consumer, from the candidates to the stream.
use proxybroker_rs.Broker.Builder.{FindQuery}
use proxybroker_rs.Broker.Emitted.{IsEmission, Runs-IsEmission}
use proxybroker_rs.Broker.Grab.{
  Candidate, GeoDbs, attach_geo, proxy_of, source_from, source_of, source_on, unseen, upper_all,
}
use proxybroker_rs.Broker.Pipeline.{Run, RunConfig, Runs, caps_pass, new_run}
use proxybroker_rs.Broker.Query.{
  FindEnv, FindError, build_checker, caps_of, find, run_config, started,
}
use proxybroker_rs.Checker.Admission.{Entry}
use proxybroker_rs.Checker.Attempt.{check_proxy, target_in}
use proxybroker_rs.Checker.Confirmed.{Proved, check_proxy-found}
use proxybroker_rs.Checker.Response.{Codecs}
use proxybroker_rs.Checker.Setup.{Checker}
use proxybroker_rs.Float.{Float, nat_float}
use proxybroker_rs.Judges.{Urls}
use proxybroker_rs.Net.{Addr, IpAddr, addr_eq, ip_eq}
use proxybroker_rs.Parse.Scan.{Regexes}
use proxybroker_rs.Pool.State.{client_key_eq, country_ok, strategy_eq}
use proxybroker_rs.Prelude.{
  All, Bool, Bool-cases, In, In-All, List, Option, [], inl, inr, is_empty, none, refl, some, subst,
  sym, true, ◌∷◌, ◌≡◌, ◌⊎◌,
}
use proxybroker_rs.Proxy.Record.{Proxy, addr_of, new}
use proxybroker_rs.Server.Requests.{IpText, frontend_eq}
use proxybroker_rs.Text.{Text}

abbrev AreFresh : (F : Type 0) → List (Proxy F) → Type 0
AreFresh F ps = All (λ (p : Proxy F). p.types ≡ []) ps

proxy_of-fresh :
    (F : Type 0) ⦃t : IpText⦄ (dbs : GeoDbs) (host : IpAddr) (c : Candidate)
    → (proxy_of {F = F} dbs host c).types ≡ []
unfolding attach_geo new
proxy_of-fresh F dbs host c = refl

source_on-fresh :
    (F : Type 0) ⦃t : IpText⦄ (dbs : GeoDbs) (countries : Option (List Text)) (seen : List Addr)
    (c : Candidate) (o : Option IpAddr) (rest : List Addr → List (Proxy F))
    → ((s : List Addr) → AreFresh F (rest s))
    → AreFresh F (source_on dbs countries rest seen c o)
source_on-fresh F dbs countries seen c none rest h = h seen
source_on-fresh F dbs countries seen c (some host) rest h =
    elim (Bool-cases (country_ok {F = F} (proxy_of dbs host c) countries)) [
      | inl good ↦ rw good (proxy_of-fresh F dbs host c, h ((host, c.port) ∷ seen))
      | inr bad ↦ rw bad (h ((host, c.port) ∷ seen))
    ]

source_from-fresh :
    (F : Type 0) ⦃t : IpText⦄ (dbs : GeoDbs) (countries : Option (List Text)) (seen : List Addr)
    (cs : List Candidate)
    → AreFresh F (source_from dbs countries seen cs)
unfolding source_from
source_from-fresh F dbs countries seen [] = tt
source_from-fresh F dbs countries seen (c ∷ cs) =
    source_on-fresh F dbs countries seen c (unseen seen c)
      (λ s. source_from {F = F} dbs countries s cs) (λ s. source_from-fresh F dbs countries s cs)

module _ {F : Type 0} ⦃f : Float F⦄ ⦃l : Urls⦄ ⦃t : IpText⦄ ⦃x : Regexes⦄ ⦃z : Codecs⦄ where
  begun-injective :
      (a b : RunConfig F × Run F)
      → ◌≡◌ {A = FindError ⊎ (RunConfig F × Run F)} (inr a) (inr b)
      → a ≡ b
  begun-injective a b e = cc e

  started-inr :
      (q : FindQuery F) (env : FindEnv F) (source : List (Proxy F)) (o : FindError ⊎ Checker F)
      (r : RunConfig F × Run F)
      → started q env source o ≡ inr r
      → (c : Checker F) × (o ≡ inr c) × ((run_config q env c, new_run source) ≡ r)
  started-inr q env source (inl err) r h = cc h
  started-inr q env source (inr c) r h = (c, refl, begun-injective _ r h)

  find-inr :
      (dbs : GeoDbs) (q : FindQuery F) (env : FindEnv F) (cs : List Candidate)
      (r : RunConfig F × Run F)
      → find dbs q env cs ≡ inr r
      → (c : Checker F) × (build_checker q env ≡ inr c)
        × ((run_config q env c, new_run (source_of dbs q.countries cs)) ≡ r)
  unfolding find
  find-inr dbs q env cs r h = elim (Bool-cases (is_empty q.types)) [
    | inl nothing ↦ cc (rw nothing at h)
    | inr asked ↦
        started-inr q env (source_of dbs q.countries cs) (build_checker q env) r (rw asked at h)
  ]

  -- What the stream may hold: what the check has made of a proxy of the source, where it passed and
  -- has the capabilities asked for, and each of its types is proved by an attempt.
  abbrev pub IsFound :
      GeoDbs → FindQuery F → FindEnv F → List Candidate → Checker F → Proxy F → Type 0
  IsFound dbs q env cs c p =
      (p0 : Proxy F) × In p0 (source_of dbs q.countries cs)
      × (check_proxy c (env.attempts p0) (env.draws p0) env.resolves p0 ≡ (true, p))
      × (caps_pass (caps_of q) p ≡ true)
      × ((e : Entry)
          → In e p.types
          → Proved c (env.attempts p0 e.0) (target_in c e.0 (env.draws p0 e.0) c.mode) (addr_of p0)
              e)

  Proved-types :
      (dbs : GeoDbs) (q : FindQuery F) (env : FindEnv F) (cs : List Candidate) (c : Checker F)
      (p0 p : Proxy F) (e : Entry)
      → In p0 (source_of dbs q.countries cs)
      → check_proxy c (env.attempts p0) (env.draws p0) env.resolves p0 ≡ (true, p)
      → In e p.types
      → Proved c (env.attempts p0 e.0) (target_in c e.0 (env.draws p0 e.0) c.mode) (addr_of p0) e
  unfolding source_of
  Proved-types dbs q env cs c p0 p e here_in checked m =
      let fresh_ones = source_from-fresh F dbs (upper_all q.countries) [] cs in
      elim (check_proxy-found c (env.attempts p0) (env.draws p0) env.resolves p0 e
        (subst (λ (o : Bool × Proxy F). In e o.1.types) (sym checked) m)) [
          | inl old ↦
              absurd
                (subst (In e) (In-All (λ (p : Proxy F). p.types ≡ []) p0 _ fresh_ones here_in) old)
          | inr proved ↦ proved
        ]

  emission-IsFound :
      (dbs : GeoDbs) (q : FindQuery F) (env : FindEnv F) (cs : List Candidate) (c : Checker F)
      (p : Proxy F)
      → IsEmission (run_config q env c) (source_of dbs q.countries cs) p
      → IsFound dbs q env cs c p
  unfolding run_config
  emission-IsFound dbs q env cs c p (p0, held, checked, capable) =
      (p0, held, checked, capable, λ e. Proved-types dbs q env cs c p0 p e held checked)

  -- Once `find` has begun a run, in every state of it each proxy in the stream is what the check
  -- has made of a proxy of the source: it passed, it has the capabilities asked for, and each of
  -- its confirmed types, with its anonymity level, is proved by an attempt of that check.
  pub find-IsFound :
      (dbs : GeoDbs) (q : FindQuery F) (env : FindEnv F) (cs : List Candidate)
      (r : RunConfig F × Run F) (s : Run F) (p : Proxy F)
      → find dbs q env cs ≡ inr r
      → Runs r.0 r.1 s
      → In p s.out
      → (c : Checker F) × (build_checker q env ≡ inr c) × IsFound dbs q env cs c p
  find-IsFound dbs q env cs r s p begins path m =
      let (c, built, same) = find-inr dbs q env cs r begins in
      let whole =
        Runs-IsEmission (subst (λ (b : RunConfig F × Run F). Runs b.0 b.1 s) (sym same) path) in
      (c, built, emission-IsFound dbs q env cs c p (In-All _ p s.out whole.0 m))
