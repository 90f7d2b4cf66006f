-- ===== src/Tests/Running.antt =====
-- The theorems on a run of checks at concrete inputs.
use proxybroker_rs.Broker.Complete.{Runs-complete, check_weight, emission_weight}
use proxybroker_rs.Broker.Emitted.{IsEmission, Runs-IsEmission}
use proxybroker_rs.Broker.Limits.{Runs-IsBounded, Within}
use proxybroker_rs.Broker.Pipeline.{
  IsClosed, Run, RunConfig, Runs, Step, begun, caps_pass, checking, delivers, draining, finishes,
  holding, looping, new_run, passed, reached, reserves, runs_dry, sending, spawns, takes, then_step,
}
use proxybroker_rs.Broker.Progress.{CanGoOn, Run-ends, WaitsForConsumer, is_hang_up, steps_left}
use proxybroker_rs.Errors.{error_eq}
use proxybroker_rs.Float.{nat_float}
use proxybroker_rs.Net.{addr_eq, ip_eq}
use proxybroker_rs.Prelude.{
  All, Bool, Option, [], arith, false, if◌then◌else◌, inr, length, none, refl, remove_at, some,
  subst, sum_over, true, ℕ, ◌++◌, ◌<◌, ◌∷◌, ◌≡◌, ◌≤◌, ◌⊎◌,
}
use proxybroker_rs.Proxy.Record.{Proxy}
use proxybroker_rs.Proxy.Trust.{signal_eq}
use proxybroker_rs.Stats.Collector.{fresh, record_each, record_proxy}
use proxybroker_rs.Tests.Fixtures.{plain, shown}
use proxybroker_rs.Types.Proto.{proto_eq, proto_ranked}

-- Two tasks at most, a limit, and a checker that finds that everything works.
abbrev cfg_of : Option ℕ → RunConfig ℕ
cfg_of limit = record {
  max_conn = 2;
  limit = limit;
  caps = record { cookie = false; referer = false; connect25 = false; trusted = false };
  checks = λ p. (true, p);
}

abbrev start : Run ℕ
start = new_run (plain ∷ [])

abbrev held : Run ℕ
held = record start { phase = holding plain; source = [] }

abbrev under_way : Run ℕ
under_way = record held { phase = looping; tasks = checking plain ∷ [] }

abbrev checked : Run ℕ
checked = record under_way {
  tasks = passed plain ∷ [];
  stats = record_proxy plain fresh;
  observed = plain ∷ [];
}

abbrev numbered : Run ℕ
numbered = record checked { tasks = sending 0 plain ∷ []; sent = 1 }

abbrev delivered : Bool → Run ℕ
delivered full = record numbered { tasks = []; out = plain ∷ []; cancelled = full }

abbrev closed : Run ℕ
closed = record (delivered false) { phase = draining }

to_numbered : (limit : Option ℕ) → reached limit 0 ≡ false → Runs (cfg_of limit) start numbered
unfolding remove_at caps_pass
to_numbered limit open_still =
    then_step
      (then_step
        (then_step (then_step begun (takes start plain [] refl refl refl open_still))
          (spawns held plain refl (omega arith)))
        (finishes under_way 0 plain refl))
      (subst (Step (cfg_of limit) checked) (numbered_if (reached limit 0) open_still)
        (reserves checked 0 plain refl))
  where
    numbered_if :
        (full : Bool)
        → full ≡ false
        → record checked {
          tasks = (if full then [] else sending 0 plain ∷ []) ++ [];
          sent = 1;
          cancelled = full;
        }
          ≡ numbered
    numbered_if full e = rw e refl

limited_path : Runs (cfg_of (some 1)) start (delivered true)
unfolding remove_at
limited_path =
    then_step (to_numbered (some 1) refl) (delivers numbered 0 0 plain refl (inr (omega arith)))

whole_path : Runs (cfg_of none) start closed
unfolding remove_at
whole_path =
    then_step
      (then_step (to_numbered none refl) (delivers numbered 0 0 plain refl (inr (omega arith))))
      (runs_dry (delivered false) refl refl)

Runs-IsBounded_example :
    (length (delivered true).tasks ≤ (cfg_of (some 1)).max_conn)
    × Within (cfg_of (some 1)).limit (length (delivered true).out)
Runs-IsBounded_example = Runs-IsBounded limited_path

Runs-IsEmission_example :
    All (IsEmission (cfg_of none) (plain ∷ [])) closed.out
    × (closed.stats ≡ record_each closed.observed fresh)
Runs-IsEmission_example = Runs-IsEmission whole_path

Runs-complete_example :
    (sum_over (λ (p : Proxy ℕ). p.port) closed.out
      ≡ sum_over (emission_weight (cfg_of none) refl (λ (p : Proxy ℕ). p.port)) (plain ∷ []))
    × (sum_over (λ (p : Proxy ℕ). p.port) closed.observed
        ≡ sum_over (check_weight (cfg_of none) refl (λ (p : Proxy ℕ). p.port)) (plain ∷ []))
Runs-complete_example =
    Runs-complete (cfg_of none) refl (λ (p : Proxy ℕ). p.port) (plain ∷ []) whole_path (refl, refl)
      refl

Run-ends_example :
    (IsClosed under_way
      ⊎ (CanGoOn (cfg_of none) under_way ⊎ WaitsForConsumer (cfg_of none) under_way))
    × ((t : Run ℕ) (st : Step (cfg_of none) under_way t)
        → is_hang_up st ≡ false
        → steps_left t < steps_left under_way)
Run-ends_example = Run-ends (cfg_of none) under_way (omega arith)
