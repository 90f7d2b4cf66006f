-- ===== src/Tests/Checks.antt =====
-- The theorems on checking, storing and reading at concrete inputs.
use proxybroker_rs.Checker.Admission.{Entry}
use proxybroker_rs.Checker.Check.{Attempt, Observation, RetryPolicy, errs}
use proxybroker_rs.Errors.{error_eq, timeout}
use proxybroker_rs.Float.{nat_float}
use proxybroker_rs.Maps.{hash_get}
use proxybroker_rs.Net.{Addr-discrete, addr_eq, ip_eq}
use proxybroker_rs.Persist.{Record, Store, load_one, upsert, upsert-idle}
use proxybroker_rs.Prelude.{List, [], none, refl, some, suc, zero, ℕ, ℕ_discrete, ◌∷◌, ◌≡◌}
use proxybroker_rs.Prelude.Equality.{list_eq, nat_eq}
use proxybroker_rs.Proxy.Record.{Proxy, addr_of, is_working, record_trust}
use proxybroker_rs.Proxy.Trust.{no_trust, signal_eq}
use proxybroker_rs.Tests.Fixtures.{plain, shown}
use proxybroker_rs.Types.AnonLevel.{AnonLevel, level_eq, level_ranked}
use proxybroker_rs.Types.Proto.{Proto, proto_eq, proto_ranked}
use proxybroker_rs.Types.TypeSpec.{TypeSpec, no_caps}

abbrev policy : RetryPolicy ℕ
policy = record {
  max_tries = 3;
  retry_on = timeout ∷ [];
  backoff = 0;
  factor = 100;
  jitter = 0;
  max_backoff = 0;
}

abbrev seen : Observation
seen = record { level = none; caps = no_caps; trust = no_trust }

-- A first attempt that times out, and then the given ones.
abbrev after_timeout : Attempt → ℕ → Attempt × ℕ
after_timeout a zero = (errs timeout, 10)
after_timeout a (suc n) = (a, 20)

abbrev mixed : Proxy ℕ
mixed = record plain { types = (Proto.http, none) ∷ (Proto.socks5, none) ∷ [] }

abbrev asks_level : List TypeSpec
asks_level = record { proto = Proto.http; levels = some (AnonLevel.high ∷ []) } ∷ []

abbrev socks_entry : Entry
socks_entry = (Proto.socks5, none)

abbrev idle : Proxy ℕ
idle = record plain { types = [] }

abbrev remembered : Record ℕ
remembered = record {
  types = (Proto.http, none) ∷ [];
  requests = 3;
  errors = 1;
  ewma_success = 100;
  avg_latency = 40;
  uptime_checks = 2;
}

abbrev store : Store ℕ
store = (addr_of idle, remembered) ∷ []

upsert-idle_example :
    (rec : Record ℕ) × (hash_get (addr_of idle) (upsert idle store) ≡ some rec)
    × ((load_one (addr_of idle) rec).types ≡ remembered.types)
unfolding hash_get proxybroker_rs.Net.Addr-discrete ℕ_discrete
    proxybroker_rs.Proxy.Record.is_working
upsert-idle_example = upsert-idle idle store remembered refl refl
