-- ===== src/Types/AnonLevel.antt =====
-- src/types.rs, `AnonLevel`: how much a proxy reveals about the client.
use mathlib.Core.List.{head?}
use proxybroker_rs.Maps.{Ranked}
use proxybroker_rs.Prelude.{List, Option, [], keep, ℕ, ◌∷◌}
use proxybroker_rs.Prelude.Equality.{Eq, list_eq, nat_eq}
use proxybroker_rs.Text.{Text, same_letters, text}

-- The variant of the source is `High`.
pub data AnonLevel : Type 0 where
  transparent anonymous high : AnonLevel

unfoldable pub AnonLevel-discrete : Discrete AnonLevel
AnonLevel-discrete = hlevel

instance abbrev pub level_eq : Eq AnonLevel
level_eq = record { dec = AnonLevel-discrete }

-- The derived `Ord`: worst to best.
abbrev pub level_rank : AnonLevel → ℕ
level_rank transparent = 0
level_rank anonymous = 1
level_rank high = 2

instance abbrev pub level_ranked : Ranked AnonLevel
level_ranked = record { rank = level_rank }

abbrev pub all_levels : List AnonLevel
all_levels = transparent ∷ anonymous ∷ high ∷ []

abbrev pub level_str : AnonLevel → Text
level_str transparent = text "Transparent"
level_str anonymous = text "Anonymous"
level_str high = text "High"

unfoldable pub level_from_str : Text → Option AnonLevel
unfolding same_letters
level_from_str s = head? (keep (λ l. same_letters (level_str l) s) all_levels)
