-- ===== src/Scheduler/Bookkeeping.antt =====
-- What `spawn_rechecker` in src/scheduler.rs keeps of the addresses: enrolling, taking the job that is
-- due first, forgetting an address and scheduling it again.
use proxybroker_rs.Float.{Float, nat_float}
use proxybroker_rs.Maps.{hash_has, hash_has-insert, hash_has-remove, hash_insert}
use proxybroker_rs.Net.{Addr, addr_eq, ip_eq, memb}
use proxybroker_rs.Prelude.{
  Bool, Bool-cases, List, Option-cases, [], ap, arith, false, if◌then◌else◌, inl, inr, none, not,
  refl, some, sym, true, ℕ, ◌&&◌, ◌+◌, ◌∙◌, ◌∷◌, ◌≡◌, ◌≢◌, ◌⊎◌,
}
use proxybroker_rs.Prelude.Equality.{==-refl, ==_iff, list_eq, nat_eq, ◌==◌}
use proxybroker_rs.Scheduler.Rechecker.{
  Pass, Rechecker, Scheduled, enroll, enroll_all, forget, pop_soonest, schedule, set_insert,
  set_remove,
}

-- How often an address is scheduled.
abbrev pub times : Addr → List Scheduled → ℕ
times a [] = 0
times a (x ∷ xs) = (if x.key == a then 1 else 0) + times a xs

pop_soonest-nonempty : (x : Scheduled) (xs : List Scheduled) → pop_soonest (x ∷ xs) ≢ none
unfolding pop_soonest
pop_soonest-nonempty x xs e = elim (Option-cases (pop_soonest xs)) [
  | inl none_left ↦ cc (rw none_left at e)
  | inr ((y, ys), found) ↦ ground (arith, found)
]

pop_soonest-empty : (xs : List Scheduled) → pop_soonest xs ≡ none → xs ≡ []
pop_soonest-empty [] e = refl
pop_soonest-empty (x ∷ xs) e = absurd (pop_soonest-nonempty x xs e)

pop_soonest-times :
    (a : Addr) (h : List Scheduled) (top : Scheduled) (rest : List Scheduled)
    → pop_soonest h ≡ some (top, rest)
    → times a h ≡ (if top.key == a then 1 else 0) + times a rest
unfolding pop_soonest
pop_soonest-times a [] top rest e = cc e
pop_soonest-times a (x ∷ xs) top rest e = elim (Option-cases (pop_soonest xs)) [
  | inl none_left ↦ ground (arith, none_left, pop_soonest-empty xs none_left)
  | inr ((y, ys), found) ↦ ground (arith, found, pop_soonest-times a xs y ys found)
]

pub set_insert-memb :
    (a b : Addr) (s : List Addr) → memb b (set_insert a s) ≡ (if a == b then true else memb b s)
set_insert-memb a b s = ground (arith, ==_iff a b)

pub set_remove-memb :
    (a b : Addr) (s : List Addr) → memb b (set_remove a s) ≡ (if a == b then false else memb b s)
set_remove-memb a b [] = ground arith
set_remove-memb a b (c ∷ s) =
    ground (arith, set_remove-memb a b s, ==_iff a b, ==_iff c a, ==_iff c b)

-- Every tracked address is scheduled once and no other is, it has a time at which it last worked,
-- and only tracked addresses are tried again.
pub record IsTracked {F : Type 0} (s : Rechecker F) : Type 0 where
  pub once : (a : Addr) → times a s.heap ≡ (if hash_has a s.ewma then 1 else 0)
  pub timed : (a : Addr) → hash_has a s.last_ok ≡ hash_has a s.ewma
  pub retried : (a : Addr) → memb a s.retrying ≡ true → hash_has a s.ewma ≡ true

pub idle-of : (a b : Bool) → (not a && not b) ≡ true → a ≡ false
idle-of a b e = ground arith

module _ {F : Type 0} ⦃f : Float F⦄ where
  schedule-new :
      (due : ℕ) (key : Addr) (rate : F) (now : ℕ) (s : Rechecker F)
      → hash_has key s.ewma ≡ false
      → IsTracked s
      → IsTracked (
          schedule due key (record s {
            ewma = hash_insert key rate s.ewma;
            last_ok = hash_insert key now s.last_ok;
          }))
  schedule-new due key rate now s fresh h = record {
    once = λ a. ground (arith, h.once a, hash_has-insert key a rate s.ewma, ==_iff key a);
    timed = λ a.
        ground (
          arith,
          h.timed a,
          hash_has-insert key a rate s.ewma,
          hash_has-insert key a now s.last_ok,
        );
    retried = λ a m. ground (arith, h.retried a m, hash_has-insert key a rate s.ewma);
  }

  enroll-IsTracked :
      (e : Pass F) (key : Addr) (s : Rechecker F) → IsTracked s → IsTracked (enroll e key s)
  enroll-IsTracked e key s h = elim (Bool-cases (hash_has key s.ewma)) [
    | inl held ↦ rw held h
    | inr fresh ↦ rw fresh (schedule-new _ key _ e.now s fresh h)
  ]

  pub enroll_all-IsTracked :
      (e : Pass F) (keys : List Addr) (s : Rechecker F)
      → IsTracked s
      → IsTracked (enroll_all e keys s)
  unfolding enroll_all
  enroll_all-IsTracked e [] s h = h
  enroll_all-IsTracked e (key ∷ keys) s h =
      enroll_all-IsTracked e keys (enroll e key s) (enroll-IsTracked e key s h)

  -- A state from which the job of one address has been popped.
  pub record IsPopped (key : Addr) (s : Rechecker F) : Type 0 where
    pub held : hash_has key s.ewma ≡ true
    pub once_more :
        (a : Addr)
        → (if key == a then 1 else 0) + times a s.heap ≡ (if hash_has a s.ewma then 1 else 0)
    pub timed : (a : Addr) → hash_has a s.last_ok ≡ hash_has a s.ewma
    pub retried : (a : Addr) → memb a s.retrying ≡ true → hash_has a s.ewma ≡ true

  pub pop-IsPopped :
      (s : Rechecker F) (top : Scheduled) (rest : List Scheduled) (start : ℕ)
      → pop_soonest s.heap ≡ some (top, rest)
      → IsTracked s
      → IsPopped top.key (record s { heap = rest; next_start = start })
  pop-IsPopped s top rest start e h = record {
    held =
        ground
          (arith, h.once top.key, pop_soonest-times top.key s.heap top rest e, ==-refl top.key);
    once_more = λ a. omega (arith, h.once a, pop_soonest-times a s.heap top rest e);
    timed = h.timed;
    retried = h.retried;
  }

  pub forget-IsTracked :
      (key : Addr) (s : Rechecker F)
      → IsPopped key s
      → memb key s.retrying ≡ false
      → IsTracked (forget key s)
  forget-IsTracked key s h idle = record {
    once = λ a. ground (arith, h.once_more a, hash_has-remove key a s.ewma, ==_iff key a);
    timed = λ a.
        ground (arith, h.timed a, hash_has-remove key a s.ewma, hash_has-remove key a s.last_ok);
    retried =
        λ a m. ground (arith, h.retried a m, hash_has-remove key a s.ewma, ==_iff key a, idle);
  }

  -- A job goes back into the schedule of the state from which it was popped, with what the check
  -- has changed.
  pub reschedule-IsTracked :
      (due : ℕ) (key : Addr) (s t : Rechecker F)
      → IsPopped key s
      → t.heap ≡ s.heap
      → ((a : Addr) → hash_has a t.ewma ≡ hash_has a s.ewma)
      → ((a : Addr) → hash_has a t.last_ok ≡ hash_has a s.last_ok)
      → ((a : Addr) → memb a t.retrying ≡ true → (a ≡ key) ⊎ (memb a s.retrying ≡ true))
      → IsTracked (schedule due key t)
  reschedule-IsTracked due key s t h same_heap same_ewma same_ok same_retrying = record {
    once = λ a. rw (same_heap, same_ewma a) (h.once_more a);
    timed = λ a. same_ok a ∙ h.timed a ∙ sym (same_ewma a);
    retried = λ a m. same_ewma a ∙ still a (same_retrying a m);
  }
    where
      still : (a : Addr) → (a ≡ key) ⊎ (memb a s.retrying ≡ true) → hash_has a s.ewma ≡ true
      still a (inl e) = ap (λ (b : Addr). hash_has b s.ewma) e ∙ h.held
      still a (inr m) = h.retried a m
