-- ===== src/Broker/Limits.antt =====
-- What holds in every state of a run of `check_stream` in src/broker.rs: how many proxies are sent,
-- how many tasks there are, and which proxies they carry.
use proxybroker_rs.Broker.Pipeline.{
  Run, RunConfig, Runs, Step, Task, aborts, begun, checking, delivers, finishes, hangs_up, new_run,
  passed, passed_on, receives, reserved, reserves, runs_dry, sending, spawns, stops, takes,
  then_step,
}
use proxybroker_rs.Float.{Float, nat_float}
use proxybroker_rs.Prelude.{
  Bool, List, Option, [], arith, false, get_elem?, if◌then◌else◌, length, length-append, none, refl,
  remove_at, some, suc, true, zero, ℕ, ◌++◌, ◌+◌, ◌∷◌, ◌≡◌, ◌≤◌,
}
use proxybroker_rs.Proxy.Record.{Proxy}

-- How many tasks are at the point of sending.
abbrev pub in_sending : {F : Type 0} → List (Task F) → ℕ
in_sending [] = 0
in_sending (sending n p ∷ ts) = suc (in_sending ts)
in_sending (checking p ∷ ts) = in_sending ts
in_sending (passed p ∷ ts) = in_sending ts

in_sending-remove_at :
    {F : Type 0} (ts : List (Task F)) (i : ℕ) (t : Task F)
    → get_elem? ts i ≡ some t
    → in_sending ts ≡ in_sending (t ∷ []) + in_sending (remove_at i ts)
unfolding remove_at
in_sending-remove_at [] i t e = cc e
in_sending-remove_at (x ∷ ts) zero t e = ground arith
in_sending-remove_at (checking p ∷ ts) (suc i) t e = omega (arith, in_sending-remove_at ts i t e)
in_sending-remove_at (passed p ∷ ts) (suc i) t e = omega (arith, in_sending-remove_at ts i t e)
in_sending-remove_at (sending n p ∷ ts) (suc i) t e = omega (arith, in_sending-remove_at ts i t e)

length-remove_at :
    {A : Type 0} (xs : List A) (i : ℕ) (a : A)
    → get_elem? xs i ≡ some a
    → length xs ≡ suc (length (remove_at i xs))
unfolding remove_at
length-remove_at [] i a e = cc e
length-remove_at (x ∷ xs) zero a e = refl
length-remove_at (x ∷ xs) (suc i) a e = omega (arith, length-remove_at xs i a e)

-- A count that the limit allows.
abbrev pub Within : Option ℕ → ℕ → Type 0
Within none n = Unit
Within (some l) n = n ≤ l

zero-Within : (limit : Option ℕ) → Within limit 0
zero-Within none = tt
zero-Within (some l) = omega arith

Within-le : (limit : Option ℕ) (n k : ℕ) → k ≤ n → Within limit n → Within limit k
Within-le none n k le h = tt
Within-le (some l) n k le h = omega arith

module _ {F : Type 0} ⦃f : Float F⦄ where
  -- The proxies that have been sent or are being sent are at most as many as slots were reserved,
  -- and as the limit; and the tasks at most as many as the permits.
  pub record IsBounded (cfg : RunConfig F) (s : Run F) : Type 0 where
    pub slots : length s.out + in_sending s.tasks ≤ s.sent
    pub limited : Within cfg.limit (length s.out + in_sending s.tasks)
    pub permits : length s.tasks ≤ cfg.max_conn

  in_sending-append :
      (ts us : List (Task F)) → in_sending (ts ++ us) ≡ in_sending ts + in_sending us
  in_sending-append [] us = omega arith
  in_sending-append (checking p ∷ ts) us = omega (arith, in_sending-append ts us)
  in_sending-append (passed p ∷ ts) us = omega (arith, in_sending-append ts us)
  in_sending-append (sending n p ∷ ts) us = omega (arith, in_sending-append ts us)

  passed_on-few :
      (cfg : RunConfig F) (out : Bool × Proxy F)
      → (length (passed_on cfg out) ≤ 1) × (in_sending (passed_on cfg out) ≡ 0)
  passed_on-few cfg (works, p) = ground arith

  -- A slot is reserved only below the limit.
  reserved-few :
      (cfg : RunConfig F) (limit : Option ℕ) (p : Proxy F) (n m : ℕ)
      → cfg.limit ≡ limit
      → n ≤ m
      → Within limit n
      → (length (reserved cfg p m) ≤ 1)
        × (in_sending (reserved cfg p m) ≤ 1)
        × Within limit (n + in_sending (reserved cfg p m))
  reserved-few cfg none p n m e le h = ground arith
  reserved-few cfg (some l) p n m e le h = ground arith

  pub length-out :
      (gone : Bool) (out : List (Proxy F)) (p : Proxy F)
      → length (if gone then out else out ++ p ∷ []) ≤ length out + 1
  length-out true out p = omega arith
  length-out false out p = omega (arith, length-append out (p ∷ []))

  Step-IsBounded :
      {cfg : RunConfig F} {s t : Run F} → Step cfg s t → IsBounded cfg s → IsBounded cfg t
  Step-IsBounded (takes s p ps e1 e2 e3 e4) h = record {
    slots = h.slots;
    limited = h.limited;
    permits = h.permits;
  }
  Step-IsBounded (stops s p ps e1 e2 e3) h = record {
    slots = h.slots;
    limited = h.limited;
    permits = h.permits;
  }
  Step-IsBounded (runs_dry s e1 e2) h = record {
    slots = h.slots;
    limited = h.limited;
    permits = h.permits;
  }
  Step-IsBounded (spawns s p e1 room) h = record {
    slots = h.slots;
    limited = h.limited;
    permits = omega arith;
  }
  Step-IsBounded {cfg} (aborts s i p at e) h =
      let one = in_sending-remove_at s.tasks i (checking p) at in
      record {
        slots = omega (arith, h.slots, one);
        limited = Within-le cfg.limit _ _ (omega (arith, one)) h.limited;
        permits = omega (arith, h.permits, length-remove_at s.tasks i (checking p) at);
      }
  Step-IsBounded {cfg} (finishes s i p at) h =
      let rest = remove_at i s.tasks in
      let one = in_sending-remove_at s.tasks i (checking p) at in
      let (few, none_sending) = passed_on-few cfg (cfg.checks p) in
      let apart = in_sending-append (passed_on cfg (cfg.checks p)) rest in
      record {
        slots = omega (arith, h.slots, one, none_sending, apart);
        limited = Within-le cfg.limit _ _ (omega (arith, one, none_sending, apart)) h.limited;
        permits = omega (
          arith,
          h.permits,
          few,
          length-append (passed_on cfg (cfg.checks p)) rest,
          length-remove_at s.tasks i (checking p) at,
        );
      }
  Step-IsBounded {cfg} (reserves s i p at) h =
      let rest = remove_at i s.tasks in
      let one = in_sending-remove_at s.tasks i (passed p) at in
      let apart = in_sending-append (reserved cfg p s.sent) rest in
      let (few, at_most, within) =
        reserved-few cfg cfg.limit p (length s.out + in_sending s.tasks) s.sent refl h.slots
          h.limited in
      record {
        slots = omega (arith, h.slots, one, at_most, apart);
        limited = Within-le cfg.limit _ _ (omega (arith, one, apart)) within;
        permits = omega (
          arith,
          h.permits,
          few,
          length-append (reserved cfg p s.sent) rest,
          length-remove_at s.tasks i (passed p) at,
        );
      }
  Step-IsBounded {cfg} (delivers s i n p at room) h =
      let one = in_sending-remove_at s.tasks i (sending n p) at in
      let longer = length-out s.gone s.out p in
      record {
        slots = omega (arith, h.slots, one, longer);
        limited = Within-le cfg.limit _ _ (omega (arith, one, longer)) h.limited;
        permits = omega (arith, h.permits, length-remove_at s.tasks i (sending n p) at);
      }
  Step-IsBounded (receives s e1 e2) h = record {
    slots = h.slots;
    limited = h.limited;
    permits = h.permits;
  }
  Step-IsBounded (hangs_up s) h = record {
    slots = h.slots;
    limited = h.limited;
    permits = h.permits;
  }

  new_run-IsBounded : (cfg : RunConfig F) (source : List (Proxy F)) → IsBounded cfg (new_run source)
  new_run-IsBounded cfg source = record {
    slots = omega arith;
    limited = Within-le cfg.limit 0 0 (omega arith) (zero-Within cfg.limit);
    permits = omega arith;
  }

  -- In every state of a run, at most `max_conn` tasks are under way and at most `limit` proxies have
  -- been sent to the consumer, whatever the order in which the tasks take their steps.
  pub Runs-IsBounded :
      {cfg : RunConfig F} {source : List (Proxy F)} {s : Run F}
      → Runs cfg (new_run source) s
      → (length s.tasks ≤ cfg.max_conn) × Within cfg.limit (length s.out)
  Runs-IsBounded {cfg} {source} path =
      let h = along path in (h.permits, Within-le cfg.limit _ _ (omega arith) h.limited)
    where
      along : {t : Run F} → Runs cfg (new_run source) t → IsBounded cfg t
      along begun = new_run-IsBounded cfg source
      along (then_step path st) = Step-IsBounded st (along path)
