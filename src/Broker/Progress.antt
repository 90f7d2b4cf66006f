-- ===== src/Broker/Progress.antt =====
-- A run of `check_stream` in src/broker.rs waits for nothing but its consumer, and ends.
use proxybroker_rs.Broker.Limits.{length-out}
use proxybroker_rs.Broker.Pipeline.{
  IsClosed, Phase, Run, RunConfig, Step, Task, aborts, channel_capacity, checking, delivers,
  draining, finishes, hangs_up, holding, looping, passed, passed_on, reached, receives, reserved,
  reserves, runs_dry, sending, spawns, stops, takes,
}
use proxybroker_rs.Float.{Float, nat_float}
use proxybroker_rs.Prelude.{
  Bool, Bool-cases, List, [], ap, arith, dec_lt, false, get_elem?, inl, inr, length, refl,
  remove_at, some, sum_over, sum_over-append, sum_over-remove_at, true, ℕ, ◌*◌, ◌+◌, ◌-◌, ◌<◌, ◌∷◌,
  ◌≡◌, ◌≤◌, ◌⊎◌,
}
use proxybroker_rs.Proxy.Record.{Proxy}

abbrev task_steps : {F : Type 0} → Task F → ℕ
task_steps (checking p) = 4
task_steps (passed p) = 3
task_steps (sending n p) = 2

abbrev phase_steps : {F : Type 0} → Phase F → ℕ
phase_steps looping = 1
phase_steps (holding p) = 6
phase_steps draining = 0

-- A bound on the steps that a run and the consumer who reads it can still take: each proxy in the
-- channel is still to be received.
abbrev pub steps_left : {F : Type 0} → Run F → ℕ
steps_left s =
    6 * length s.source
    + phase_steps s.phase
    + sum_over task_steps s.tasks
    + (length s.out - s.received)

module _ {F : Type 0} ⦃f : Float F⦄ where
  passed_on-steps :
      (cfg : RunConfig F) (out : Bool × Proxy F) → sum_over task_steps (passed_on cfg out) ≤ 3
  passed_on-steps cfg (works, p) = ground arith

  reserved-steps :
      (cfg : RunConfig F) (p : Proxy F) (n : ℕ) → sum_over task_steps (reserved cfg p n) ≤ 2
  reserved-steps cfg p n = ground arith

  abbrev pub is_hang_up : {cfg : RunConfig F} {s t : Run F} → Step cfg s t → Bool
  is_hang_up (hangs_up s) = true
  is_hang_up _ = false

  abbrev pub is_receipt : {cfg : RunConfig F} {s t : Run F} → Step cfg s t → Bool
  is_receipt (receives s e1 e2) = true
  is_receipt _ = false

  -- A step other than the hang-up takes the run nearer to its end.
  Step-nearer :
      {cfg : RunConfig F} {s t : Run F} (st : Step cfg s t)
      → is_hang_up st ≡ false
      → steps_left t < steps_left s
  Step-nearer (takes s p ps e1 e2 e3 e4) h = rw (e1, e2) (omega arith)
  Step-nearer (stops s p ps e1 e2 e3) h = rw (e1, e2) (omega arith)
  Step-nearer (runs_dry s e1 e2) h = rw e1 (omega arith)
  Step-nearer (spawns s p e1 room) h = rw e1 (omega arith)
  Step-nearer (aborts s i p at e) h =
      omega (arith, sum_over-remove_at task_steps s.tasks i (checking p) at)
  Step-nearer {cfg} (finishes s i p at) h = omega (
    arith,
    passed_on-steps cfg (cfg.checks p),
    sum_over-append task_steps (passed_on cfg (cfg.checks p)) (remove_at i s.tasks),
    sum_over-remove_at task_steps s.tasks i (checking p) at,
  )
  Step-nearer {cfg} (reserves s i p at) h = omega (
    arith,
    reserved-steps cfg p s.sent,
    sum_over-append task_steps (reserved cfg p s.sent) (remove_at i s.tasks),
    sum_over-remove_at task_steps s.tasks i (passed p) at,
  )
  Step-nearer (delivers s i n p at room) h =
      omega
        (arith, length-out s.gone s.out p, sum_over-remove_at task_steps s.tasks i (sending n p) at)
  Step-nearer (receives s e1 e2) h = omega (arith, e2)
  Step-nearer (hangs_up s) h = cc h

  -- A step of the run's own is possible.
  abbrev pub CanGoOn : RunConfig F → Run F → Type 0
  CanGoOn cfg s =
      (t : Run F) × (st : Step cfg s t) × (is_hang_up st ≡ false) × (is_receipt st ≡ false)

  -- The consumer is there, has left the channel full, and can take a proxy out of it.
  abbrev pub WaitsForConsumer : RunConfig F → Run F → Type 0
  WaitsForConsumer cfg s =
      (s.gone ≡ false)
      × (s.received + channel_capacity ≤ length s.out)
      × ((t : Run F) × (st : Step cfg s t) × (is_receipt st ≡ true))

  sending_goes_on :
      (cfg : RunConfig F) (s : Run F) (n : ℕ) (p : Proxy F)
      → get_elem? s.tasks 0 ≡ some (sending n p)
      → CanGoOn cfg s ⊎ WaitsForConsumer cfg s
  sending_goes_on cfg s n p at = elim (Bool-cases s.gone) [
    | inl left ↦ inl (_, delivers s 0 n p at (inl left), refl, refl)
    | inr here_still ↦ elim (dec_lt (length s.out) (s.received + channel_capacity)) [
      | yes room ↦ inl (_, delivers s 0 n p at (inr room), refl, refl)
      | no full ↦
          inr (
            here_still,
            omega (arith, full),
            (_, receives s here_still (omega (arith, full)), refl),
          )
    ]
  ]

  task_goes_on :
      (cfg : RunConfig F) (s : Run F) (t : Task F)
      → get_elem? s.tasks 0 ≡ some t
      → CanGoOn cfg s ⊎ WaitsForConsumer cfg s
  task_goes_on cfg s (checking p) at = inl (_, finishes s 0 p at, refl, refl)
  task_goes_on cfg s (passed p) at = inl (_, reserves s 0 p at, refl, refl)
  task_goes_on cfg s (sending n p) at = sending_goes_on cfg s n p at

  loop_goes_on :
      (cfg : RunConfig F) (s : Run F) (ps : List (Proxy F))
      → s.phase ≡ looping
      → s.source ≡ ps
      → CanGoOn cfg s
  loop_goes_on cfg s [] e1 e2 = (_, runs_dry s e1 e2, refl, refl)
  loop_goes_on cfg s (p ∷ ps) e1 e2 = elim (Bool-cases s.cancelled) [
    | inl stopped ↦ (_, stops s p ps e1 e2 (inl stopped), refl, refl)
    | inr open_still ↦ elim (Bool-cases (reached cfg.limit s.sent)) [
      | inl full ↦ (_, stops s p ps e1 e2 (inr full), refl, refl)
      | inr under ↦ (_, takes s p ps e1 e2 open_still under, refl, refl)
    ]
  ]

  idle_goes_on :
      (cfg : RunConfig F) (s : Run F) (ph : Phase F)
      → 0 < cfg.max_conn
      → s.tasks ≡ []
      → s.phase ≡ ph
      → IsClosed s ⊎ CanGoOn cfg s
  idle_goes_on cfg s looping room e1 e2 = inr (loop_goes_on cfg s s.source e2 refl)
  idle_goes_on cfg s (holding p) room e1 e2 =
      inr (_, spawns s p e2 (rw e1 (omega (arith, room))), refl, refl)
  idle_goes_on cfg s draining room e1 e2 = inl (e2, e1)

  goes_on :
      (cfg : RunConfig F) (s : Run F) (ts : List (Task F))
      → 0 < cfg.max_conn
      → s.tasks ≡ ts
      → IsClosed s ⊎ (CanGoOn cfg s ⊎ WaitsForConsumer cfg s)
  goes_on cfg s [] room e = elim (idle_goes_on cfg s s.phase room e refl) [
    | inl over ↦ inl over
    | inr on ↦ inr (inl on)
  ]
  goes_on cfg s (t ∷ ts) room e =
      inr (task_goes_on cfg s t (ap (λ (l : List (Task F)). get_elem? l 0) e))

  -- With a permit at all, a run that has not ended can take a step of its own, unless the consumer
  -- has left the channel full, and then the consumer can take a proxy out of it. Every step but the
  -- hang-up lessens what is left to do, whatever the order of the tasks: so a run whose consumer
  -- goes on reading, or goes away, ends after at most that many steps. The source is taken to give
  -- its next proxy and a check its outcome.
  pub Run-ends :
      (cfg : RunConfig F) (s : Run F)
      → 0 < cfg.max_conn
      → (IsClosed s ⊎ (CanGoOn cfg s ⊎ WaitsForConsumer cfg s))
        × ((t : Run F) (st : Step cfg s t) → is_hang_up st ≡ false → steps_left t < steps_left s)
  Run-ends cfg s room = (goes_on cfg s s.tasks room refl, λ t st own. Step-nearer st own)
