-- ===== src/Tests/Rechecks.antt =====
-- The theorems on the rechecker at concrete inputs.
use proxybroker_rs.Errors.{error_eq}
use proxybroker_rs.Float.{nat_float}
use proxybroker_rs.Net.{Addr-discrete, addr_eq, ip_eq, memb}
use proxybroker_rs.Pool.State.{Strategy, addrs, client_key_eq, strategy_eq}
use proxybroker_rs.Pool.Steps.{act_all}
use proxybroker_rs.Prelude.{In, [], false, inl, refl, true, ℕ, ℕ_discrete, ◌≡◌, ◌⊎◌}
use proxybroker_rs.Proxy.Record.{addr_of}
use proxybroker_rs.Scheduler.Bookkeeping.{IsTracked}
use proxybroker_rs.Scheduler.Pooling.{turn-adds, waited_pool}
use proxybroker_rs.Scheduler.Rechecker.{
  Pass, RecheckConfig, Rechecker, Turn, again, ended, fresh_recheck, here, step, turn,
}
use proxybroker_rs.Scheduler.Tracking.{Reaches-IsTracked}
use proxybroker_rs.Tests.Fixtures.{plain, pool_of, shown, two}

abbrev recheck_cfg : RecheckConfig ℕ
recheck_cfg = record {
  min_interval = 1_000_000_000;
  max_interval = 9_000_000_000;
  rate_per_sec = 500;
  decay_halflife = 100_000_000_000;
}

-- A pass in which the first address is due, and works.
abbrev due_pass : Pass ℕ
due_pass = record {
  now = 5;
  enroll_jitter = λ a. 1;
  cancelled = false;
  woken = 9;
  ready_at = 9;
  cancelled_at_rate = false;
  waiting_ops = [];
  checks = λ p. (true, p);
  checking_ops = [];
  checked_at = 12;
  next_jitter = 2;
}

abbrev watched : Rechecker ℕ
watched = fresh_recheck (pool_of two Strategy.best true) [] 3

abbrev after_turn : Rechecker ℕ → Turn ℕ → Rechecker ℕ
after_turn s (again t) = t
after_turn s (ended t) = t

abbrev rechecked : Rechecker ℕ
rechecked = after_turn watched (turn recheck_cfg due_pass watched)

goes_round : turn recheck_cfg due_pass watched ≡ again rechecked
unfolding turn proxybroker_rs.Net.Addr-discrete proxybroker_rs.Prelude.ℕ_discrete
goes_round = refl

Reaches-IsTracked_example : IsTracked rechecked
Reaches-IsTracked_example =
    Reaches-IsTracked recheck_cfg (pool_of two Strategy.best true) [] 3 rechecked
      (step due_pass rechecked goes_round (here refl))

turn-adds_example :
    In (addr_of plain) (addrs (waited_pool due_pass watched))
    ⊎ (In (addr_of plain) (addrs (act_all (waited_pool due_pass watched) due_pass.checking_ops))
        ⊎ (memb (addr_of plain) watched.retrying ≡ true))
unfolding turn proxybroker_rs.Net.Addr-discrete proxybroker_rs.Prelude.ℕ_discrete
turn-adds_example =
    turn-adds recheck_cfg due_pass watched rechecked (addr_of plain) (λ p. refl) goes_round
      (inl refl)
