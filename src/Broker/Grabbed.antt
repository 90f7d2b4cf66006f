-- ===== src/Broker/Grabbed.antt =====
-- src/broker.rs: what `grab` sends, beside what `find` hands to the checks.
use proxybroker_rs.Broker.Grab.{
  Candidate, GeoDbs, grab, grab_from, source_from, source_of, unseen, upper_all,
}
use proxybroker_rs.Net.{Addr, addr_eq, ip_eq}
use proxybroker_rs.Prelude.{
  Bool, List, Option, Option-cases, [], arith, false, inl, inr, leb, none, refl, some, suc, take,
  true, zero, ℕ, ◌+◌, ◌∷◌, ◌≡◌,
}
use proxybroker_rs.Proxy.Record.{Proxy}
use proxybroker_rs.Server.Requests.{IpText, frontend_eq}
use proxybroker_rs.Text.{Text}

module _ {F : Type 0} ⦃t : IpText⦄ where
  grab_from-all :
      (dbs : GeoDbs) (countries : Option (List Text)) (stays : ℕ → Bool) (n : ℕ) (seen : List Addr)
      (cs : List Candidate)
      → ((k : ℕ) → stays k ≡ true)
      → ◌≡◌ {A = List (Proxy F)}
          (grab_from dbs countries none stays n seen cs)
          (source_from dbs countries seen cs)
  unfolding grab_from source_from
  grab_from-all dbs countries stays n seen [] there = refl
  grab_from-all dbs countries stays n seen (c ∷ cs) there = elim (Option-cases (unseen seen c)) [
    | inl skipped ↦ rw skipped (grab_from-all dbs countries stays n seen cs there)
    | inr (host, found) ↦
        rw (found, there n)
          (ground (
            arith,
            grab_from-all dbs countries stays n ((host, c.port) ∷ seen) cs there,
            grab_from-all dbs countries stays (n + 1) ((host, c.port) ∷ seen) cs there,
          ))
  ]

  grab_from-take :
      (dbs : GeoDbs) (countries : Option (List Text)) (l : ℕ) (stays : ℕ → Bool) (n : ℕ)
      (seen : List Addr) (cs : List Candidate)
      → ((k : ℕ) → stays k ≡ true)
      → (left : ℕ) → n + left ≡ l
      → ◌≡◌ {A = List (Proxy F)}
          (grab_from dbs countries (some l) stays n seen cs)
          (take left (source_from dbs countries seen cs))
  unfolding grab_from source_from
  grab_from-take dbs countries l stays n seen [] there zero e = refl
  grab_from-take dbs countries l stays n seen [] there (suc left) e = refl
  grab_from-take dbs countries l stays n seen (c ∷ cs) there zero e = ground (arith, e)
  grab_from-take dbs countries l stays n seen (c ∷ cs) there (suc left) e =
      let under : leb l n ≡ false = ground (arith, e) in
      elim (Option-cases (unseen seen c)) [
        | inl skipped ↦
            rw (under, skipped) (grab_from-take dbs countries l stays n seen cs there (suc left) e)
        | inr (host, found) ↦
            rw (under, found, there n)
              (ground (
                arith,
                grab_from-take dbs countries l stays n ((host, c.port) ∷ seen) cs there (suc left)
                    e,
                grab_from-take dbs countries l stays (n + 1) ((host, c.port) ∷ seen) cs there left
                    (omega (arith, e)),
              ))
      ]

  abbrev pub cut_at : Option ℕ → List (Proxy F) → List (Proxy F)
  cut_at none ps = ps
  cut_at (some l) ps = take l ps

  -- As long as the consumer stays, `grab` sends exactly the first proxies, up to its limit, of those
  -- that `find` hands to the checks for the same candidates.
  pub grab-source_of :
      (dbs : GeoDbs) (countries : Option (List Text)) (limit : Option ℕ) (stays : ℕ → Bool)
      (cs : List Candidate)
      → ((k : ℕ) → stays k ≡ true)
      → grab dbs countries limit stays cs ≡ cut_at limit (source_of dbs countries cs)
  unfolding grab source_of
  grab-source_of dbs countries none stays cs there =
      grab_from-all dbs (upper_all countries) stays 0 [] cs there
  grab-source_of dbs countries (some l) stays cs there =
      grab_from-take dbs (upper_all countries) l stays 0 [] cs there l (omega arith)
