-- ===== src/Pool/Contents.antt =====
-- Putting proxies in and taking them out by address: what the pool holds afterwards.
use proxybroker_rs.Float.{Float, nat_float}
use proxybroker_rs.Net.{Addr, IpAddr, addr_eq, ip_eq}
use proxybroker_rs.Pool.State.{
  Pool, Pooled, add_proxy, addr_in, addrs, at_addr, client_key_eq, put_failed, put_inner, put_ok,
  ready, remove, strategy_eq, u64_mod, unhealthy,
}
use proxybroker_rs.Prelude.{
  Bool-cases, In, List, [], any, arith, false, if-cases, inl, inr, keep, map, none, not, refl, some,
  subst, sym, true, ℕ, ◌%◌, ◌++◌, ◌+◌, ◌↔◌, ◌∷◌, ◌≡◌, ◌≢◌, ◌⊎◌,
}
use proxybroker_rs.Prelude.Equality.{==_iff, list_eq, nat_eq}
use proxybroker_rs.Proxy.Record.{Proxy, addr_of}
use proxybroker_rs.Watch.{add_missing, has_addr, reconcile, remove_unwanted}

has_addr_iff : (a : Addr) (known : List Addr) → (has_addr a known ≡ true) ↔ In a known
has_addr_iff a [] = (λ e. cc e, λ m. absurd m)
has_addr_iff a (b ∷ known) = ground (arith, ==_iff b a, has_addr_iff a known)

module _ {F : Type 0} where
  at_addr-addr :
      (host : IpAddr) (port : ℕ) (q : Pooled F)
      → (at_addr host port q ≡ true) ↔ (addr_in q ≡ (host, port))
  at_addr-addr host port q = ground (arith, ==_iff q.proxy.host host, ==_iff q.proxy.port port)

  keep-addrs :
      (host : IpAddr) (port : ℕ) (a : Addr) (ps : List (Pooled F))
      → In a (map addr_in (keep (λ p. not (at_addr host port p)) ps))
        ↔ (In a (map addr_in ps) × (a ≢ (host, port)))
  keep-addrs host port a [] = (λ m. absurd m, λ h. h.0)
  keep-addrs host port a (q ∷ ps) =
      ground (arith, at_addr-addr host port q, keep-addrs host port a ps)

  -- After `remove`, the pool holds the addresses that it held, without the one removed.
  pub remove_lem :
      (pool : Pool F) (host : IpAddr) (port : ℕ) (a : Addr)
      → In a (addrs (remove pool host port).0) ↔ (In a (addrs pool) × (a ≢ (host, port)))
  unfolding remove
  remove_lem pool host port a = keep-addrs host port a pool.state

  any-addrs :
      (host : IpAddr) (port : ℕ) (ps : List (Pooled F))
      → (any (at_addr host port) ps ≡ true) ↔ In (host, port) (map addr_in ps)
  any-addrs host port [] = (λ e. cc e, λ m. absurd m)
  any-addrs host port (q ∷ ps) = ground (arith, at_addr-addr host port q, any-addrs host port ps)

  append-addrs :
      (a : Addr) (ps : List (Pooled F)) (q : Pooled F)
      → In a (map addr_in (ps ++ q ∷ [])) ↔ (In a (map addr_in ps) ⊎ (a ≡ addr_in q))
  append-addrs a [] q = ground arith
  append-addrs a (p ∷ ps) q = ground (arith, append-addrs a ps q)

  -- After `add`, the pool holds the addresses that it held, and that of the proxy.
  pub add_proxy_lem :
      (pool : Pool F) (p : Proxy F) (a : Addr)
      → In a (addrs (add_proxy pool p)) ↔ (In a (addrs pool) ⊎ (a ≡ addr_of p))
  unfolding add_proxy
  add_proxy_lem pool p a =
      ground (arith, any-addrs p.host p.port pool.state, append-addrs a pool.state (ready p))

  remove_unwanted-keeps :
      (want : List Addr) (known : List Addr) (pool : Pool F) (a : Addr)
      → In a (addrs (remove_unwanted want known pool))
      → In a (addrs pool) × (In a known → In a want)
  unfolding remove_unwanted
  remove_unwanted-keeps want [] pool a m = (m, λ n. absurd n)
  remove_unwanted-keeps want (b ∷ more) pool a m =
      elim (if-cases (has_addr b want) pool (remove pool b.0 b.1).0) [
        | inl (wanted, e) ↦
            let (h, k) =
              remove_unwanted-keeps want more pool a
                (subst (λ (q : Pool F). In a (addrs (remove_unwanted want more q))) e m) in
            (h, λ n. elim n [ inl eq ↦ (has_addr_iff a want).0 (rw eq wanted) | inr n ↦ k n ])
        | inr (unwanted, e) ↦
            let (h, k) =
              remove_unwanted-keeps want more (remove pool b.0 b.1).0 a
                (subst (λ (q : Pool F). In a (addrs (remove_unwanted want more q))) e m) in
            let (held, other) = (remove_lem pool b.0 b.1 a).0 h in
            (held, λ n. elim n [ inl eq ↦ absurd (other eq) | inr n ↦ k n ])
      ]

  remove_unwanted-spares :
      (want : List Addr) (known : List Addr) (pool : Pool F) (a : Addr)
      → In a (addrs pool)
      → In a want
      → In a (addrs (remove_unwanted want known pool))
  unfolding remove_unwanted
  remove_unwanted-spares want [] pool a m w = m
  remove_unwanted-spares want (b ∷ more) pool a m w =
      elim (if-cases (has_addr b want) pool (remove pool b.0 b.1).0) [
        | inl (wanted, e) ↦
            subst (λ (q : Pool F). In a (addrs (remove_unwanted want more q))) (sym e)
              (remove_unwanted-spares want more pool a m w)
        | inr (unwanted, e) ↦
            let other : a ≢ (b.0, b.1) = λ eq. cc ((has_addr_iff a want).1 w, unwanted, eq) in
            subst (λ (q : Pool F). In a (addrs (remove_unwanted want more q))) (sym e)
              (remove_unwanted-spares want more (remove pool b.0 b.1).0 a
                ((remove_lem pool b.0 b.1 a).1 (m, other)) w)
      ]

  add_missing_lem :
      (current : List Addr) (ps : List (Proxy F)) (pool : Pool F) (a : Addr)
      → In a (addrs (add_missing current ps pool))
        ↔ (In a (addrs pool) ⊎ (In a (map addr_of ps) × (¬ In a current)))
  unfolding add_missing
  add_missing_lem current [] pool a =
      (λ m. inl m, λ h. elim h [ inl m ↦ m | inr (n, _) ↦ absurd n ])
  add_missing_lem current (p ∷ ps) pool a =
      elim (if-cases (has_addr (addr_of p) current) pool (add_proxy pool p)) [
        | inl (known, e) ↦
            let there = (has_addr_iff (addr_of p) current).0 known in
            subst
              (λ (q : Pool F).
                In a (addrs (add_missing current ps q))
                ↔ (In a (addrs pool) ⊎ (In a (map addr_of (p ∷ ps)) × (¬ In a current))))
              (sym e) (ground (arith, add_missing_lem current ps pool a, there))
        | inr (missing, e) ↦
            let absent : ¬ In (addr_of p) current =
              λ m. cc ((has_addr_iff (addr_of p) current).1 m, missing) in
            subst
              (λ (q : Pool F).
                In a (addrs (add_missing current ps q))
                ↔ (In a (addrs pool) ⊎ (In a (map addr_of (p ∷ ps)) × (¬ In a current))))
              (sym e)
              (ground (
                arith,
                add_missing_lem current ps (add_proxy pool p) a,
                add_proxy_lem pool p a,
                absent,
              ))
      ]

  -- Reconciling brings the pool to the addresses of the watched file, and to no others.
  pub reconcile_lem :
      (pool : Pool F) (desired : List (Proxy F)) (a : Addr)
      → In a (addrs (reconcile pool desired)) ↔ In a (map addr_of desired)
  unfolding reconcile
  reconcile_lem pool desired a =
      let want = map addr_of desired in
      let left = remove_unwanted want (addrs pool) pool in
      (
        λ m. elim ((add_missing_lem (addrs pool) desired left a).0 m) [
          | inl held ↦ let (h, k) = remove_unwanted-keeps want (addrs pool) pool a held in k h
          | inr (wanted, _) ↦ wanted
        ],
        λ w.
            (add_missing_lem (addrs pool) desired left a).1
              (elim (Bool-cases (has_addr a (addrs pool))) [
                | inl known ↦ inl (
                    remove_unwanted-spares want (addrs pool) pool a
                      ((has_addr_iff a (addrs pool)).0 known) w)
                | inr missing ↦ inr (w, λ m. cc ((has_addr_iff a (addrs pool)).1 m, missing))
              ]),
      )

module _ {F : Type 0} ⦃f : Float F⦄ where
  -- A proxy that is put back joins the pool, ready or benched for the failure's time, unless its
  -- record has become unhealthy; then it is evicted and counted.
  pub put_back_lem :
      (pool : Pool F) (p : Proxy F) (now : ℕ)
      → let until = some (now + pool.config.fail_timeout) in
        ((unhealthy pool.config p ≡ true)
          × (put_ok pool p ≡ record pool { evictions = (pool.evictions + 1) % u64_mod })
          × (put_failed pool p now ≡ put_ok pool p))
        ⊎ ((unhealthy pool.config p ≡ false)
            × (put_ok pool p ≡ record pool {
              state = pool.state ++ record { proxy = p; blocked_until = none } ∷ [];
            })
            × (put_failed pool p now ≡ record pool {
              state = pool.state ++ record { proxy = p; blocked_until = until } ∷ [];
            }))
  unfolding put_ok put_failed put_inner
  put_back_lem pool p now = elim (Bool-cases (unhealthy pool.config p)) [
    | inl bad ↦ inl (bad, rw bad refl, rw bad refl)
    | inr good ↦ inr (good, rw good refl, rw good refl)
  ]
