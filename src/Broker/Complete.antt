-- ===== src/Broker/Complete.antt =====
-- A run of `check_stream` in src/broker.rs that nothing cuts short checks every proxy of its source
-- and emits each one that is fit. Lists are compared as multisets: by the sum of any weight.
use proxybroker_rs.Broker.Pipeline.{
  IsClosed, Phase, Run, RunConfig, Runs, Step, Task, aborts, begun, checking, delivers, draining,
  emits, finishes, hangs_up, holding, looping, new_run, passed, passed_on, reached, receives,
  reserves, runs_dry, sending, spawns, stops, takes, then_step,
}
use proxybroker_rs.Float.{Float, nat_float}
use proxybroker_rs.Prelude.{
  Bool, List, [], arith, false, if◌then◌else◌, inl, inr, none, refl, remove_at, sum_over,
  sum_over-append, sum_over-remove_at, ℕ, ◌+◌, ◌∙◌, ◌∷◌, ◌≡◌,
}
use proxybroker_rs.Proxy.Record.{Proxy}

module _ {F : Type 0} ⦃f : Float F⦄ (cfg : RunConfig F) (unlimited : cfg.limit ≡ none)
    (g : Proxy F → ℕ) where
  -- What a proxy of the source brings to the consumer, and to the observer.
  abbrev pub emission_weight : Proxy F → ℕ
  emission_weight p = if emits cfg (cfg.checks p) then g (cfg.checks p).1 else 0

  abbrev pub check_weight : Proxy F → ℕ
  check_weight p = g (cfg.checks p).1

  abbrev task_out : Task F → ℕ
  task_out (checking p) = emission_weight p
  task_out (passed q) = g q
  task_out (sending n q) = g q

  abbrev task_seen : Task F → ℕ
  task_seen (checking p) = check_weight p
  task_seen (passed q) = 0
  task_seen (sending n q) = 0

  abbrev phase_weight : (Proxy F → ℕ) → Phase F → ℕ
  phase_weight w looping = 0
  phase_weight w (holding p) = w p
  phase_weight w draining = 0

  -- What has come out of the run, with what is still in it.
  abbrev all_out : Run F → ℕ
  all_out s =
      sum_over g s.out
      + sum_over task_out s.tasks
      + phase_weight emission_weight s.phase
      + sum_over emission_weight s.source

  abbrev all_seen : Run F → ℕ
  all_seen s =
      sum_over g s.observed
      + sum_over task_seen s.tasks
      + phase_weight check_weight s.phase
      + sum_over check_weight s.source

  -- The loop has ended only at the end of the source.
  abbrev Dry : Run F → Type 0
  Dry s = s.phase ≡ draining → s.source ≡ []

  -- Nothing is lost while nothing cuts the run short.
  record IsWholeRun (s t : Run F) : Type 0 where
    before : t.cancelled ≡ false → (s.cancelled ≡ false)
    same_out : t.cancelled ≡ false → s.gone ≡ false → all_out t ≡ all_out s
    same_seen : t.cancelled ≡ false → all_seen t ≡ all_seen s
    stays : t.cancelled ≡ false → s.gone ≡ false → t.gone ≡ false
    dries : t.cancelled ≡ false → Dry s → Dry t

  passed_on-weights :
      (out : Bool × Proxy F)
      → (sum_over task_out (passed_on cfg out) ≡ (if emits cfg out then g out.1 else 0))
        × (sum_over task_seen (passed_on cfg out) ≡ 0)
  passed_on-weights (works, q) = ground arith

  unreached : (n : ℕ) → reached cfg.limit n ≡ false
  unreached n = rw unlimited refl

  Step-IsWholeRun : {s t : Run F} → Step cfg s t → IsWholeRun s t
  Step-IsWholeRun (takes s p ps e1 e2 e3 e4) = record {
    before = λ c. c;
    same_out = λ c gone. rw (e1, e2) (omega arith);
    same_seen = λ c. rw (e1, e2) (omega arith);
    stays = λ c gone. gone;
    dries = λ c dry e. cc e;
  }
  Step-IsWholeRun (stops s p ps e1 e2 (inl e3)) = record {
    before = λ c. c;
    same_out = λ c gone. cc (e3, c);
    same_seen = λ c. cc (e3, c);
    stays = λ c gone. gone;
    dries = λ c dry e. cc (e3, c);
  }
  Step-IsWholeRun (stops s p ps e1 e2 (inr e3)) = record {
    before = λ c. c;
    same_out = λ c gone. cc (e3, unreached s.sent);
    same_seen = λ c. cc (e3, unreached s.sent);
    stays = λ c gone. gone;
    dries = λ c dry e. cc (e3, unreached s.sent);
  }
  Step-IsWholeRun (runs_dry s e1 e2) = record {
    before = λ c. c;
    same_out = λ c gone. rw (e1, e2) (omega arith);
    same_seen = λ c. rw (e1, e2) (omega arith);
    stays = λ c gone. gone;
    dries = λ c dry e. e2;
  }
  Step-IsWholeRun (spawns s p e1 room) = record {
    before = λ c. c;
    same_out = λ c gone. rw e1 (omega arith);
    same_seen = λ c. rw e1 (omega arith);
    stays = λ c gone. gone;
    dries = λ c dry e. cc e;
  }
  Step-IsWholeRun (aborts s i p at e) = record {
    before = λ c. c;
    same_out = λ c gone. cc (e, c);
    same_seen = λ c. cc (e, c);
    stays = λ c gone. gone;
    dries = λ c dry. dry;
  }
  Step-IsWholeRun (finishes s i p at) =
      let rest = remove_at i s.tasks in
      let (carried, unseen) = passed_on-weights (cfg.checks p) in
      record {
        before = λ c. c;
        same_out = λ c gone. omega (
          arith,
          carried,
          sum_over-append task_out (passed_on cfg (cfg.checks p)) rest,
          sum_over-remove_at task_out s.tasks i (checking p) at,
        );
        same_seen = λ c. omega (
          arith,
          unseen,
          sum_over-append task_seen (passed_on cfg (cfg.checks p)) rest,
          sum_over-remove_at task_seen s.tasks i (checking p) at,
          sum_over-append g s.observed ((cfg.checks p).1 ∷ []),
        );
        stays = λ c gone. gone;
        dries = λ c dry. dry;
      }
  Step-IsWholeRun (reserves s i q at) =
      let rest = remove_at i s.tasks in
      let unlimited' = unreached s.sent in
      record {
        before = λ c. ground (arith, c);
        same_out = λ c gone.
            rw unlimited' (omega (arith, sum_over-remove_at task_out s.tasks i (passed q) at));
        same_seen = λ c.
            rw unlimited' (omega (arith, sum_over-remove_at task_seen s.tasks i (passed q) at));
        stays = λ c gone. gone;
        dries = λ c dry. dry;
      }
  Step-IsWholeRun (delivers s i n q at room) = record {
    before = λ c. ground (arith, c);
    same_out = λ c gone. rw gone (
        omega (
          arith,
          sum_over-append g s.out (q ∷ []),
          sum_over-remove_at task_out s.tasks i (sending n q) at,
        ));
    same_seen = λ c. omega (arith, sum_over-remove_at task_seen s.tasks i (sending n q) at);
    stays = λ c gone. gone;
    dries = λ c dry. dry;
  }
  Step-IsWholeRun (receives s e1 e2) = record {
    before = λ c. c;
    same_out = λ c gone. refl;
    same_seen = λ c. refl;
    stays = λ c gone. gone;
    dries = λ c dry. dry;
  }
  Step-IsWholeRun (hangs_up s) = record {
    before = λ c. cc;
    same_out = λ c gone. cc;
    same_seen = λ c. cc;
    stays = λ c gone. cc;
    dries = λ c. cc;
  }

  record IsWholeSoFar (source : List (Proxy F)) (s : Run F) : Type 0 where
    still_there : s.gone ≡ false
    dry : Dry s
    balance_out : all_out s ≡ sum_over emission_weight source
    balance_seen : all_seen s ≡ sum_over check_weight source

  Runs-IsWholeSoFar :
      (source : List (Proxy F)) {s : Run F}
      → Runs cfg (new_run source) s
      → s.cancelled ≡ false
      → IsWholeSoFar source s
  Runs-IsWholeSoFar source begun c = record {
    still_there = refl;
    dry = λ e. cc e;
    balance_out = omega arith;
    balance_seen = omega arith;
  }
  Runs-IsWholeSoFar source (then_step path st) c =
      let one = Step-IsWholeRun st in
      let h = Runs-IsWholeSoFar source path (one.before c) in
      record {
        still_there = one.stays c h.still_there;
        dry = one.dries c h.dry;
        balance_out = one.same_out c h.still_there ∙ h.balance_out;
        balance_seen = one.same_seen c ∙ h.balance_seen;
      }

  -- A run with no limit that has ended, and that the consumer did not cut short, has checked every
  -- proxy of its source once and has emitted exactly those that work and have the capabilities
  -- asked for: any weight has the same sum over the proxies observed, and over those emitted, as
  -- over the source.
  pub Runs-complete :
      (source : List (Proxy F)) {s : Run F}
      → Runs cfg (new_run source) s
      → IsClosed s
      → s.cancelled ≡ false
      → (sum_over g s.out ≡ sum_over emission_weight source)
        × (sum_over g s.observed ≡ sum_over check_weight source)
  Runs-complete source {s} path (drained, idle) c =
      let h = Runs-IsWholeSoFar source path c in
      let emptied = h.dry drained in
      (
        omega (arith, rw (drained, idle, emptied) at h.balance_out),
        omega (arith, rw (drained, idle, emptied) at h.balance_seen),
      )
