-- ===== src/Proxy/Trust.antt =====
-- src/checker.rs, `TrustSignal` and `TrustReport`: the honeypot verdict that a proxy carries.
use proxybroker_rs.Prelude.{Bool, List, [], any, if◌then◌else◌, is_empty, ◌++◌, ◌∷◌}
use proxybroker_rs.Prelude.Equality.{Eq, list_eq, nat_eq, ◌==◌}

pub data TrustSignal : Type 0 where
  canary_mismatch injected_header cert_mismatch : TrustSignal

unfoldable pub TrustSignal-discrete : Discrete TrustSignal
TrustSignal-discrete = hlevel

instance abbrev pub signal_eq : Eq TrustSignal
signal_eq = record { dec = TrustSignal-discrete }

pub record TrustReport : Type 0 where
  pub signals : List TrustSignal

abbrev pub no_trust : TrustReport
no_trust = record { signals = [] }

unfoldable pub trusted : TrustReport → Bool
trusted r = is_empty r.signals

unfoldable pub add_signals : List TrustSignal → List TrustSignal → List TrustSignal
add_signals stored [] = stored
add_signals stored (s ∷ ss) =
    add_signals (if any (λ t. t == s) stored then stored else stored ++ s ∷ []) ss
