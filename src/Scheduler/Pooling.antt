-- ===== src/Scheduler/Pooling.antt =====
-- What a pass of `spawn_rechecker` in src/scheduler.rs puts into the pool.
use proxybroker_rs.Float.{Float, nat_float}
use proxybroker_rs.Maps.{hash_get, hash_has}
use proxybroker_rs.Net.{Addr, addr_eq, ip_eq, memb}
use proxybroker_rs.Pool.Contents.{add_proxy_lem, remove_lem}
use proxybroker_rs.Pool.State.{Pool, addrs, client_key_eq, strategy_eq}
use proxybroker_rs.Pool.Steps.{act_all}
use proxybroker_rs.Prelude.{
  Bool, Bool-cases, In, List, Option, [], any-In, arith, false, if-cases, inl, inr, ltb, max, none,
  not, refl, some, subst, sym, true, ◌&&◌, ◌+◌, ◌-◌, ◌∙◌, ◌∷◌, ◌≡◌, ◌⊎◌,
}
use proxybroker_rs.Prelude.Equality.{==_iff, list_eq, nat_eq, ◌==◌}
use proxybroker_rs.Proxy.Measures.{avg_resp_time}
use proxybroker_rs.Proxy.Record.{Proxy, addr_of, new}
use proxybroker_rs.Scheduler.Rechecker.{
  Pass, RecheckConfig, Rechecker, Scheduled, again, enroll, enroll_all, forget, gap_of, next_ewma,
  on_soonest, probe, run_job, settle_check, should_retry, turn, value_or,
}

new-addr : (F : Type 0) (a : Addr) → addr_of (new {F = F} a.0 a.1 []) ≡ a
unfolding new
new-addr F a = refl

memb-In : (a : Addr) (s : List Addr) → memb a s ≡ true → In a s
memb-In a s h =
    let (b, m, e) = any-In (λ b. b == a) s h in subst (λ (c : Addr). In c s) ((==_iff b a).0 e) m

module _ {F : Type 0} ⦃f : Float F⦄ where
  -- Enrolment leaves the pool, the addresses that are tried again and the clock of starts alone.
  record IsEnrolled (s t : Rechecker F) : Type 0 where
    same_pool : t.pool ≡ s.pool
    same_retrying : t.retrying ≡ s.retrying
    same_start : t.next_start ≡ s.next_start

  enroll-IsEnrolled : (e : Pass F) (key : Addr) (s : Rechecker F) → IsEnrolled s (enroll e key s)
  enroll-IsEnrolled e key s = elim (Bool-cases (hash_has key s.ewma)) [
    | inl held ↦ rw held (record { same_pool = refl; same_retrying = refl; same_start = refl })
    | inr fresh ↦ rw fresh (record { same_pool = refl; same_retrying = refl; same_start = refl })
  ]

  enroll_all-IsEnrolled :
      (e : Pass F) (keys : List Addr) (s : Rechecker F) → IsEnrolled s (enroll_all e keys s)
  unfolding enroll_all
  enroll_all-IsEnrolled e [] s = record {
    same_pool = refl;
    same_retrying = refl;
    same_start = refl;
  }
  enroll_all-IsEnrolled e (key ∷ keys) s =
      let one = enroll-IsEnrolled e key s in
      let rest = enroll_all-IsEnrolled e keys (enroll e key s) in
      record {
        same_pool = rest.same_pool ∙ one.same_pool;
        same_retrying = rest.same_retrying ∙ one.same_retrying;
        same_start = rest.same_start ∙ one.same_start;
      }

  -- The checker leaves the address of a proxy alone.
  abbrev pub KeepsAddr : Pass F → Type 0
  KeepsAddr e = (p : Proxy F) → addr_of (e.checks p).1 ≡ addr_of p

  -- Where an address of the pool comes from when a job has been run.
  abbrev Accounted : Pass F → Rechecker F → Addr → Type 0
  Accounted e s a =
      In a (addrs s.pool)
      ⊎ (In a (addrs (act_all s.pool e.checking_ops)) ⊎ (memb a s.retrying ≡ true))

  settle_check-adds :
      (cfg : RecheckConfig F) (e : Pass F) (key : Addr) (out : Bool × Proxy F) (s : Rechecker F)
      (a : Addr)
      → addr_of out.1 ≡ key
      → In a (addrs (settle_check cfg e key out s).pool)
      → In a (addrs (act_all s.pool e.checking_ops)) ⊎ (a ≡ key)
  settle_check-adds cfg e key (true, p) s a same m =
      ground (arith, add_proxy_lem (act_all s.pool e.checking_ops) p a)
  settle_check-adds cfg e key (false, p) s a same m =
      let pool = act_all s.pool e.checking_ops in
      let rate = next_ewma false key s in
      elim (Bool-cases (
        should_retry rate (avg_resp_time p)
          (e.checked_at - value_or e.checked_at (hash_get key s.last_ok)) cfg)) [
            | inl retried ↦ ground (arith, remove_lem pool key.0 key.1 a, rw retried at m)
            | inr evicted ↦ ground (arith, remove_lem pool key.0 key.1 a, rw evicted at m)
          ]

  again-eq : (s t : Rechecker F) → again s ≡ again t → s ≡ t
  again-eq s t e = cc e

  run_job-adds :
      (cfg : RecheckConfig F) (e : Pass F) (key : Addr) (s : Rechecker F) (a : Addr)
      → KeepsAddr e
      → In a (addrs (run_job cfg e key s).pool)
      → Accounted e s a
  run_job-adds cfg e key s a keeps m =
      let gone = not (memb key s.retrying) && not (memb key (addrs s.pool)) in
      elim (if-cases gone (forget key s) (probe cfg e key s)) [
        | inl (_, eq) ↦ inl (subst (λ (t : Rechecker F). In a (addrs t.pool)) eq m)
        | inr (there, eq) ↦
            let out = e.checks (new key.0 key.1 []) in
            let added =
              settle_check-adds cfg e key out s a (keeps _ ∙ new-addr F key)
                (subst (λ (t : Rechecker F). In a (addrs t.pool)) eq m) in
            ground (arith, added, there, memb-In key (addrs s.pool))
      ]

  -- What the wait of a pass leaves.
  abbrev pub waited_pool : Pass F → Rechecker F → Pool F
  waited_pool e s = act_all s.pool e.waiting_ops

  on_soonest-adds :
      (cfg : RecheckConfig F) (e : Pass F) (s t : Rechecker F) (a : Addr)
      (o : Option (Scheduled × List Scheduled))
      → KeepsAddr e
      → on_soonest cfg e s o ≡ again t
      → In a (addrs t.pool)
      → Accounted e s a
  on_soonest-adds cfg e s t a none keeps eq m = elim (Bool-cases e.cancelled) [
    | inl stopped ↦ cc (rw stopped at eq)
    | inr open_still ↦ inl (
        subst (λ (r : Rechecker F). In a (addrs r.pool)) (again-eq _ _ (sym (rw open_still at eq)))
          m)
  ]
  on_soonest-adds cfg e s t a (some (top, rest)) keeps eq m = elim (Bool-cases e.cancelled) [
    | inl stopped ↦ cc (rw stopped at eq)
    | inr open_still ↦ elim (Bool-cases (ltb e.woken top.due)) [
      | inl early ↦ inl (
          subst (λ (r : Rechecker F). In a (addrs r.pool))
            (again-eq _ _ (sym (rw (open_still, early) at eq))) m)
      | inr due ↦ elim (Bool-cases e.cancelled_at_rate) [
        | inl stopped ↦ cc (rw (open_still, due, stopped) at eq)
        | inr started ↦
            run_job-adds cfg e top.key
              (record s { heap = rest; next_start = max s.next_start e.ready_at + gap_of cfg }) a
              keeps
              (subst (λ (r : Rechecker F). In a (addrs r.pool))
                (again-eq _ _ (sym (rw (open_still, due, started) at eq))) m)
      ]
    ]
  ]

  -- Each address that a pass leaves in the pool was there when the job began, or is there by what
  -- other tasks did during the check, or was being tried again. An
  -- address that is removed during its own check is among the first, and may come back. The checker is taken to leave the address of a proxy alone.
  pub turn-adds :
      (cfg : RecheckConfig F) (e : Pass F) (s t : Rechecker F) (a : Addr)
      → KeepsAddr e
      → turn cfg e s ≡ again t
      → In a (addrs t.pool)
      → In a (addrs (waited_pool e s))
        ⊎ (In a (addrs (act_all (waited_pool e s) e.checking_ops)) ⊎ (memb a s.retrying ≡ true))
  unfolding turn
  turn-adds cfg e s t a keeps eq m =
      let h = enroll_all-IsEnrolled e (addrs s.pool) s in
      let enrolled = enroll_all e (addrs s.pool) s in
      rw (h.same_pool, h.same_retrying) at
        (on_soonest-adds cfg e (record enrolled { pool = act_all enrolled.pool e.waiting_ops }) t a
          _ keeps eq m)
