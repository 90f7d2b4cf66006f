-- ===== src/Scheduler/Tracking.antt =====
-- The bookkeeping of `spawn_rechecker` in src/scheduler.rs: what is scheduled is what is tracked.
use proxybroker_rs.Broker.Query.{started}
use proxybroker_rs.Float.{Float, nat_float}
use proxybroker_rs.Maps.{hash_get, hash_has, hash_has-insert, hash_insert}
use proxybroker_rs.Net.{Addr, addr_eq, ip_eq, memb}
use proxybroker_rs.Persist.{Store}
use proxybroker_rs.Pool.State.{Pool, addrs, client_key_eq, strategy_eq}
use proxybroker_rs.Prelude.{
  Bool, Bool-cases, List, Option, [], ap, arith, false, if-cases, if◌then◌else◌, inl, inr, ltb,
  none, not, refl, some, subst, sym, true, ℕ, ◌&&◌, ◌-◌, ◌∙◌, ◌≡◌,
}
use proxybroker_rs.Prelude.Equality.{==-refl, ==_iff, list_eq, nat_eq}
use proxybroker_rs.Proxy.Measures.{avg_resp_time}
use proxybroker_rs.Proxy.Record.{Proxy, new}
use proxybroker_rs.Scheduler.Bookkeeping.{
  IsPopped, IsTracked, enroll_all-IsTracked, forget-IsTracked, idle-of, pop-IsPopped,
  reschedule-IsTracked, set_insert-memb, set_remove-memb,
}
use proxybroker_rs.Scheduler.Rechecker.{
  Pass, Reaches, RecheckConfig, Rechecker, Scheduled, Turn, again, ended, forget, fresh_recheck,
  here, keep_failing, keep_working, on_soonest, pop_soonest, probe, run_job, settle_check,
  should_retry, step, turn, value_or,
}

module _ {F : Type 0} ⦃f : Float F⦄ where
  told-same :
      (key a : Addr) (rate : F) (s : Rechecker F)
      → IsPopped key s
      → hash_has a (hash_insert key rate s.ewma) ≡ hash_has a s.ewma
  told-same key a rate s h = ground (arith, hash_has-insert key a rate s.ewma, ==_iff key a, h.held)

  timed-same :
      (key a : Addr) (now : ℕ) (s : Rechecker F)
      → IsPopped key s
      → hash_has a (hash_insert key now s.last_ok) ≡ hash_has a s.last_ok
  timed-same key a now s h =
      ground (arith, hash_has-insert key a now s.last_ok, ==_iff key a, h.held, h.timed key)

  -- The state after a check has been told, before its job is scheduled again or forgotten.
  abbrev told : Addr → F → Store F → Pool F → Rechecker F → Rechecker F
  told key rate stored pool s = record s {
    stored = stored;
    ewma = hash_insert key rate s.ewma;
    pool = pool;
  }

  keep_working-IsTracked :
      (now due : ℕ) (key : Addr) (p : Proxy F) (rate : F) (stored : Store F) (pool : Pool F)
      (s : Rechecker F)
      → IsPopped key s
      → IsTracked (keep_working now due key p (told key rate stored pool s))
  keep_working-IsTracked now due key p rate stored pool s h =
      reschedule-IsTracked due key s _ h refl (λ a. told-same key a rate s h)
        (λ a. timed-same key a now s h) λ a m. ground (arith, set_remove-memb key a s.retrying)

  keep_failing-IsTracked :
      (cfg : RecheckConfig F) (e rate : F) (now due : ℕ) (key : Addr) (p : Proxy F)
      (stored : Store F) (pool : Pool F) (s : Rechecker F)
      → IsPopped key s
      → IsTracked (keep_failing cfg e now due key p (told key rate stored pool s))
  keep_failing-IsTracked cfg e rate now due key p stored pool s h =
      elim (Bool-cases
        (should_retry e (avg_resp_time p) (now - value_or now (hash_get key s.last_ok)) cfg)) [
          | inl retried ↦ rw retried (
              reschedule-IsTracked due key s _ h refl (λ a. told-same key a rate s h) (λ a. refl)
                λ a m. ground (arith, set_insert-memb key a s.retrying, ==_iff key a))
          | inr evicted ↦ rw evicted (
              forget-IsTracked key _
                (record {
                  held = told-same key key rate s h ∙ h.held;
                  once_more = λ a.
                      h.once_more a
                      ∙ ap (λ (b : Bool). if b then 1 else 0) (sym (told-same key a rate s h));
                  timed = λ a. h.timed a ∙ sym (told-same key a rate s h);
                  retried = λ a m.
                      told-same key a rate s h
                      ∙ h.retried a (ground (arith, set_remove-memb key a s.retrying));
                })
                (ground (arith, set_remove-memb key key s.retrying, ==-refl key)))
        ]

  settle_check-IsTracked :
      (cfg : RecheckConfig F) (e : Pass F) (key : Addr) (out : Bool × Proxy F) (s : Rechecker F)
      → IsPopped key s
      → IsTracked (settle_check cfg e key out s)
  settle_check-IsTracked cfg e key (true, p) s h = keep_working-IsTracked _ _ key p _ _ _ s h
  settle_check-IsTracked cfg e key (false, p) s h = keep_failing-IsTracked cfg _ _ _ _ key p _ _ s h

  run_job-IsTracked :
      (cfg : RecheckConfig F) (e : Pass F) (key : Addr) (s : Rechecker F)
      → IsPopped key s
      → IsTracked (run_job cfg e key s)
  run_job-IsTracked cfg e key s h =
      let gone = not (memb key s.retrying) && not (memb key (addrs s.pool)) in
      elim (if-cases gone (forget key s) (probe cfg e key s)) [
        | inl (was_removed, eq) ↦
            subst IsTracked (sym eq) (forget-IsTracked key s h (idle-of _ _ was_removed))
        | inr (_, eq) ↦
            subst IsTracked (sym eq)
              (settle_check-IsTracked cfg e key (e.checks (new key.0 key.1 [])) s h)
      ]

  -- The bookkeeping of a turn, whether the loop goes on or not.
  abbrev pub TurnIsTracked : Turn F → Type 0
  TurnIsTracked (again s) = IsTracked s
  TurnIsTracked (ended s) = IsTracked s

  on_soonest-IsTracked :
      (cfg : RecheckConfig F) (e : Pass F) (s : Rechecker F)
      (o : Option (Scheduled × List Scheduled))
      → pop_soonest s.heap ≡ o
      → IsTracked s
      → TurnIsTracked (on_soonest cfg e s o)
  on_soonest-IsTracked cfg e s none eq h = elim (Bool-cases e.cancelled) [
    | inl stopped ↦ rw stopped h
    | inr open_still ↦ rw open_still h
  ]
  on_soonest-IsTracked cfg e s (some (top, rest)) eq h = elim (Bool-cases e.cancelled) [
    | inl stopped ↦ rw stopped h
    | inr open_still ↦ elim (Bool-cases (ltb e.woken top.due)) [
      | inl early ↦ rw (open_still, early) h
      | inr due ↦ elim (Bool-cases e.cancelled_at_rate) [
        | inl stopped ↦ rw (open_still, due, stopped) h
        | inr started ↦
            rw (open_still, due, started)
              (run_job-IsTracked cfg e top.key _ (pop-IsPopped s top rest _ eq h))
      ]
    ]
  ]

  turn-IsTracked :
      (cfg : RecheckConfig F) (e : Pass F) (s : Rechecker F)
      → IsTracked s
      → TurnIsTracked (turn cfg e s)
  unfolding turn
  turn-IsTracked cfg e s h =
      let h' = enroll_all-IsTracked e (addrs s.pool) s h in
      on_soonest-IsTracked cfg e _ _ refl
        (record { once = h'.once; timed = h'.timed; retried = h'.retried })

  fresh_recheck-IsTracked :
      (pool : Pool F) (stored : Store F) (now : ℕ) → IsTracked (fresh_recheck pool stored now)
  unfolding hash_has hash_get
  fresh_recheck-IsTracked pool stored now = record {
    once = λ a. refl;
    timed = λ a. refl;
    retried = λ a m. cc m;
  }

  turn-again-IsTracked :
      (cfg : RecheckConfig F) (e : Pass F) (s t : Rechecker F)
      → turn cfg e s ≡ again t
      → IsTracked s
      → IsTracked t
  turn-again-IsTracked cfg e s t eq h = subst TurnIsTracked eq (turn-IsTracked cfg e s h)

  -- Whatever the checker finds, the clock says and other tasks do to the pool, at the start of each
  -- pass of the loop every tracked address is scheduled exactly once and no other is, it has a time
  -- at which it last worked, and only tracked addresses are tried again.
  pub Reaches-IsTracked :
      (cfg : RecheckConfig F) (pool : Pool F) (stored : Store F) (now : ℕ) (s : Rechecker F)
      → Reaches cfg (fresh_recheck pool stored now) s
      → IsTracked s
  Reaches-IsTracked cfg pool stored now s path =
      onward s _ path (fresh_recheck-IsTracked pool stored now)
    where
      onward : (t r : Rechecker F) → Reaches cfg r t → IsTracked r → IsTracked t
      onward t r (here same) h = subst IsTracked same h
      onward t r (step e q eq more) h = onward t q more (turn-again-IsTracked cfg e r q eq h)
