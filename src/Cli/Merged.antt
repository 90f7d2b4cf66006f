-- ===== src/Cli/Merged.antt =====
-- src/bin/proxybroker.rs: `union_dedup`, and which addresses it keeps.
use proxybroker_rs.Broker.Sources.{Distinct}
use proxybroker_rs.Net.{Addr, addr_eq, ip_eq, memb}
use proxybroker_rs.Prelude.{
  Bool, Bool-cases, List, [], ap, arith, false, inl, inr, keep, length, map, not, refl, take, true,
  ◌&&◌, ◌++◌, ◌||◌, ◌∷◌, ◌≡◌,
}
use proxybroker_rs.Prelude.Equality.{==-refl, ==_iff, list_eq, nat_eq, ◌==◌}
use proxybroker_rs.Proxy.Record.{Proxy, addr_of}

module _ {F : Type 0} where
  unfoldable pub union_dedup : List (Proxy F) → List (Proxy F) → List (Proxy F)
  union_dedup primary secondary =
      primary ++ keep (λ p. not (memb (addr_of p) (map addr_of primary))) secondary

abbrev unseen_in : {F : Type 0} → List Addr → Proxy F → Bool
unseen_in seen p = not (memb (addr_of p) seen)

memb-same : (a b : Addr) (seen : List Addr) → (b == a) ≡ true → memb b seen ≡ memb a seen
memb-same a b seen e = ap (λ (c : Addr). memb c seen) ((==_iff b a).0 e)

module _ {F : Type 0} where
  abbrev at_addrs : List (Proxy F) → List Addr
  at_addrs ps = map addr_of ps

  memb-append :
      (a : Addr) (ps qs : List (Proxy F))
      → memb a (at_addrs (ps ++ qs)) ≡ (memb a (at_addrs ps) || memb a (at_addrs qs))
  memb-append a [] qs = refl
  memb-append a (p ∷ ps) qs = ground (arith, memb-append a ps qs)

  memb-keep :
      (a : Addr) (seen : List Addr) (qs : List (Proxy F))
      → memb a (at_addrs (keep (unseen_in seen) qs)) ≡ (not (memb a seen) && memb a (at_addrs qs))
  memb-keep a seen [] = ground arith
  memb-keep a seen (q ∷ qs) = ground (arith, memb-keep a seen qs, memb-same a (addr_of q) seen)

  Distinct-keep :
      (seen : List Addr) (qs : List (Proxy F))
      → Distinct (at_addrs qs)
      → Distinct (at_addrs (keep (unseen_in seen) qs))
  Distinct-keep seen [] h = tt
  Distinct-keep seen (q ∷ qs) (new_one, h) =
      let rest = Distinct-keep seen qs h in
      elim (Bool-cases (unseen_in seen q)) [
        | inl kept ↦ rw kept (ground (arith, memb-keep (addr_of q) seen qs, new_one), rest)
        | inr dropped ↦ rw dropped rest
      ]

  Distinct-append :
      (ps qs : List (Proxy F))
      → Distinct (at_addrs ps)
      → Distinct (at_addrs qs)
      → ((a : Addr) → memb a (at_addrs ps) ≡ true → memb a (at_addrs qs) ≡ false)
      → Distinct (at_addrs (ps ++ qs))
  Distinct-append [] qs h k apart = k
  Distinct-append (p ∷ ps) qs (new_one, h) k apart = (
    ground (arith, memb-append (addr_of p) ps qs, new_one, apart (addr_of p), ==-refl (addr_of p)),
    Distinct-append ps qs h k (λ a m. apart a (ground (arith, m))),
  )

  take-append : (ps qs : List (Proxy F)) → take (length ps) (ps ++ qs) ≡ ps
  take-append [] qs = refl
  take-append (p ∷ ps) qs = ap (λ (r : List (Proxy F)). p ∷ r) (take-append ps qs)

  -- The union has exactly the addresses of the two lists; it begins with the whole of the first,
  -- which so wins where both have an address; and it has no address twice if neither list has.
  pub union_dedup_lem :
      (primary secondary : List (Proxy F))
      → ((a : Addr)
          → memb a (at_addrs (union_dedup primary secondary))
            ≡ (memb a (at_addrs primary) || memb a (at_addrs secondary)))
        × (take (length primary) (union_dedup primary secondary) ≡ primary)
        × (Distinct (at_addrs primary)
            → Distinct (at_addrs secondary)
            → Distinct (at_addrs (union_dedup primary secondary)))
  unfolding union_dedup
  union_dedup_lem primary secondary =
      let rest = keep (unseen_in (at_addrs primary)) secondary in
      (
        λ a. ground (arith, memb-append a primary rest, memb-keep a (at_addrs primary) secondary),
        take-append primary rest,
        λ h k.
            Distinct-append primary rest h (Distinct-keep (at_addrs primary) secondary k)
              (λ a m. ground (arith, memb-keep a (at_addrs primary) secondary, m)),
      )
