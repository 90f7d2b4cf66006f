-- ===== src/Scheduler/Rechecker.antt =====
-- src/scheduler.rs: the cadence, the decayed score, and one pass of the loop of `spawn_rechecker`.
-- An `Instant` is a number of nanoseconds, the heap a list, and a set a list without repetition.
use proxybroker_rs.Float.{Float, clamp_unit, nat_float}
use proxybroker_rs.Maps.{HashMap, hash_get, hash_has, hash_insert, hash_remove}
use proxybroker_rs.Net.{Addr, addr_eq, ip_eq, memb}
use proxybroker_rs.Persist.{Store, upsert}
use proxybroker_rs.Pool.State.{Pool, add_proxy, addrs, client_key_eq, remove, strategy_eq}
use proxybroker_rs.Pool.Steps.{PoolOp, act_all}
use proxybroker_rs.Prelude.{
  Bool, List, Option, [], if◌then◌else◌, keep, leb, ltb, max, none, not, some, ℕ, ◌&&◌, ◌+◌, ◌-◌,
  ◌∷◌, ◌≡◌,
}
use proxybroker_rs.Prelude.Equality.{list_eq, nat_eq, ◌==◌}
use proxybroker_rs.Proxy.Measures.{avg_resp_time}
use proxybroker_rs.Proxy.Record.{Proxy, new}

pub record RecheckConfig (F : Type 0) : Type 0 where
  pub min_interval : ℕ
  pub max_interval : ℕ
  pub rate_per_sec : F
  pub decay_halflife : ℕ

module _ {F : Type 0} ⦃f : Float F⦄ where
  unfoldable pub next_interval : F → RecheckConfig F → ℕ
  next_interval ewma cfg =
      let least = f.as_secs_f64 cfg.min_interval in
      let most = f.as_secs_f64 cfg.max_interval in
      f.from_secs_f64 (f.add least (f.mul (clamp_unit ewma) (f.sub most least)))

  abbrev decay : ℕ → F → F
  decay age halflife =
      if f.lt f.zero_f halflife then f.half_pow (f.div (f.as_secs_f64 age) halflife) else f.one_f

  unfoldable pub decayed_score : F → F → ℕ → RecheckConfig F → F
  decayed_score ewma latency age cfg =
      f.mul (f.div (clamp_unit ewma) (f.add f.one_f (f.max_f latency f.zero_f)))
        (decay age (f.as_secs_f64 cfg.decay_halflife))

  abbrev evict_floor : F
  evict_floor = f.thousandths 20

  unfoldable pub should_retry : F → F → ℕ → RecheckConfig F → Bool
  unfolding decayed_score
  should_retry ewma latency age cfg = f.le evict_floor (decayed_score ewma latency age cfg)

pub record Scheduled : Type 0 where
  pub due : ℕ
  pub key : Addr

-- `BinaryHeap::pop` of the least due, and what is left; `peek` is its first part.
unfoldable pub pop_soonest : List Scheduled → Option (Scheduled × List Scheduled)
pop_soonest [] = none
pop_soonest (x ∷ xs) = elim (pop_soonest xs) [
  | none ↦ some (x, [])
  | some (y, ys) ↦ if leb x.due y.due then some (x, xs) else some (y, x ∷ ys)
]

abbrev pub set_insert : Addr → List Addr → List Addr
set_insert a s = if memb a s then s else a ∷ s

abbrev pub set_remove : Addr → List Addr → List Addr
set_remove a s = keep (λ b. not (b == a)) s

pub record Rechecker (F : Type 0) : Type 0 where
  pub pool : Pool F
  pub stored : Store F
  pub heap : List Scheduled
  pub ewma : HashMap Addr F
  pub last_ok : HashMap Addr ℕ
  pub retrying : List Addr
  pub next_start : ℕ

-- What the environment does in one pass: the clock at its readings, the jitter, whether the task
-- is cancelled at one of the waits, the checker, and what other tasks do to the pool before the
-- wait ends and during the check.
pub record Pass (F : Type 0) : Type 0 where
  pub now : ℕ
  pub enroll_jitter : Addr → ℕ
  pub cancelled : Bool
  pub woken : ℕ
  pub ready_at : ℕ
  pub cancelled_at_rate : Bool
  pub waiting_ops : List (PoolOp F)
  pub checks : Proxy F → Bool × Proxy F
  pub checking_ops : List (PoolOp F)
  pub checked_at : ℕ
  pub next_jitter : ℕ

abbrev pub value_or : {A : Type 0} → A → Option A → A
value_or d none = d
value_or d (some x) = x

-- A pass goes round the loop, or the loop has ended.
pub data Turn (F : Type 0) : Type 0 where
  again ended : Rechecker F → Turn F

module _ {F : Type 0} ⦃f : Float F⦄ where
  abbrev pub schedule : ℕ → Addr → Rechecker F → Rechecker F
  schedule due key s = record s { heap = record { due = due; key = key } ∷ s.heap }

  -- The enrolment of one pooled address, if it is not tracked.
  abbrev pub enroll : Pass F → Addr → Rechecker F → Rechecker F
  enroll e key s =
      if hash_has key s.ewma
      then s
      else schedule (e.now + e.enroll_jitter key) key (record s {
        ewma = hash_insert key f.one_f s.ewma;
        last_ok = hash_insert key e.now s.last_ok;
      })

  unfoldable pub enroll_all : Pass F → List Addr → Rechecker F → Rechecker F
  unfolding hash_has hash_insert
  enroll_all e [] s = s
  enroll_all e (key ∷ keys) s = enroll_all e keys (enroll e key s)

  abbrev pub forget : Addr → Rechecker F → Rechecker F
  forget key s = record s { ewma = hash_remove key s.ewma; last_ok = hash_remove key s.last_ok }

  -- The cadence's success rate after a check.
  abbrev pub next_ewma : Bool → Addr → Rechecker F → F
  next_ewma works key s =
      f.add (f.mul f.three_tenths (if works then f.one_f else f.zero_f))
        (f.mul f.seven_tenths (value_or f.one_f (hash_get key s.ewma)))

  -- The proxy worked, at `now`; it is due again at `due`.
  abbrev pub keep_working : ℕ → ℕ → Addr → Proxy F → Rechecker F → Rechecker F
  keep_working now due key p s = schedule due key (record s {
    last_ok = hash_insert key now s.last_ok;
    retrying = set_remove key s.retrying;
    pool = add_proxy s.pool p;
  })

  -- It did not: it leaves the pool, and is tried again or forgotten.
  abbrev pub keep_failing : RecheckConfig F → F → ℕ → ℕ → Addr → Proxy F → Rechecker F → Rechecker F
  keep_failing cfg e now due key p s =
      let pulled = record s { pool = (remove s.pool key.0 key.1).0 } in
      if should_retry e (avg_resp_time p) (now - value_or now (hash_get key s.last_ok)) cfg
      then schedule due key (record pulled { retrying = set_insert key s.retrying })
      else forget key (record pulled { retrying = set_remove key s.retrying })

  -- The end of the check of a proxy.
  abbrev pub settle_check :
      RecheckConfig F → Pass F → Addr → Bool × Proxy F → Rechecker F → Rechecker F
  settle_check cfg e key (works, p) s =
      let rate = next_ewma works key s in
      let due = e.checked_at + next_interval rate cfg + e.next_jitter in
      let told = record s {
        stored = upsert p s.stored;
        ewma = hash_insert key rate s.ewma;
        pool = act_all s.pool e.checking_ops;
      } in
      if works
      then keep_working e.checked_at due key p told
      else keep_failing cfg rate e.checked_at due key p told

  abbrev pub probe : RecheckConfig F → Pass F → Addr → Rechecker F → Rechecker F
  probe cfg e key s = settle_check cfg e key (e.checks (new key.0 key.1 [])) s

  -- The job that has been popped.
  abbrev pub run_job : RecheckConfig F → Pass F → Addr → Rechecker F → Rechecker F
  run_job cfg e key s =
      if not (memb key s.retrying) && not (memb key (addrs s.pool))
      then forget key s
      else probe cfg e key s

  -- The gap between two starts.
  abbrev pub gap_of : RecheckConfig F → ℕ
  gap_of cfg = f.from_secs_f64 (f.div f.one_f (f.max_f cfg.rate_per_sec (f.thousandths 1)))

  -- The waits, and the job that is due first.
  abbrev pub on_soonest :
      RecheckConfig F → Pass F → Rechecker F → Option (Scheduled × List Scheduled) → Turn F
  on_soonest cfg e s none = if e.cancelled then ended s else again s
  on_soonest cfg e s (some (top, rest)) =
      let started = record s {
        next_start = max s.next_start e.ready_at + gap_of cfg;
        heap = rest;
      } in
      if e.cancelled
      then ended s
      else if ltb e.woken top.due
      then again s
      else if e.cancelled_at_rate
      then ended s
      else again (run_job cfg e top.key started)

  unfoldable pub turn : RecheckConfig F → Pass F → Rechecker F → Turn F
  unfolding enroll_all pop_soonest should_retry next_interval hash_get hash_insert hash_remove
      upsert add_proxy remove act_all avg_resp_time new
  turn cfg e s =
      let enrolled = enroll_all e (addrs s.pool) s in
      let waited = record enrolled { pool = act_all enrolled.pool e.waiting_ops } in
      on_soonest cfg e waited (pop_soonest waited.heap)

  -- What the task starts with.
  abbrev pub fresh_recheck : Pool F → Store F → ℕ → Rechecker F
  fresh_recheck pool stored now = record {
    pool = pool;
    stored = stored;
    heap = [];
    ewma = [];
    last_ok = [];
    retrying = [];
    next_start = now;
  }

  -- The passes of the loop, one after the other.
  pub data Reaches (cfg : RecheckConfig F) : Rechecker F → Rechecker F → Type 0 where
    here : {s t : Rechecker F} → s ≡ t → Reaches cfg s t
    step :
        {s u : Rechecker F} (e : Pass F) (t : Rechecker F)
        → turn cfg e s ≡ again t
        → Reaches cfg t u
        → Reaches cfg s u
