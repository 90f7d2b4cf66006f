-- ===== src/Types/TypeSpec.antt =====
-- src/types.rs, `TypeSpec` and `Caps`.
use proxybroker_rs.Prelude.{Bool, List, Option, any, false, if◌then◌else◌, none, not, some, true}
use proxybroker_rs.Prelude.Equality.{list_eq, nat_eq, ◌==◌}
use proxybroker_rs.Types.AnonLevel.{AnonLevel, level_eq, level_ranked}
use proxybroker_rs.Types.Proto.{Proto, proto_eq, proto_ranked}

pub record TypeSpec : Type 0 where
  pub proto : Proto
  pub levels : Option (List AnonLevel)

unfoldable pub any_level : Proto → TypeSpec
any_level p = record { proto = p; levels = none }

abbrev pub wants_level : Option (List AnonLevel) → Option AnonLevel → Bool
wants_level none level = true
wants_level (some want) (some got) = any (λ l. l == got) want
wants_level (some want) none = false

unfoldable pub accepts : TypeSpec → Proto → Option AnonLevel → Bool
accepts s proto level = if not (s.proto == proto) then false else wants_level s.levels level

pub record Caps : Type 0 where
  pub cookie_echo : Bool
  pub referer_echo : Bool

abbrev pub no_caps : Caps
no_caps = record { cookie_echo = false; referer_echo = false }
