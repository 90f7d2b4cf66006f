-- ===== src/Types/Proto.antt =====
-- src/types.rs, `Proto`: the closed set of six protocols.
use mathlib.Core.List.{head?}
use proxybroker_rs.Maps.{Ranked}
use proxybroker_rs.Prelude.{Bool, List, Option, [], false, keep, length, true, ℕ, ◌∷◌}
use proxybroker_rs.Prelude.Equality.{Eq, list_eq, nat_eq}
use proxybroker_rs.Text.{Text, same_letters, text}
use proxybroker_rs.Types.Scheme.{JudgeScheme, scheme_eq}

pub data Proto : Type 0 where
  http https socks4 socks5 connect80 connect25 : Proto

unfoldable pub Proto-discrete : Discrete Proto
Proto-discrete = hlevel

instance abbrev pub proto_eq : Eq Proto
proto_eq = record { dec = Proto-discrete }

-- The derived `Ord`: declaration order.
abbrev pub proto_rank : Proto → ℕ
proto_rank http = 0
proto_rank https = 1
proto_rank socks4 = 2
proto_rank socks5 = 3
proto_rank connect80 = 4
proto_rank connect25 = 5

instance abbrev pub proto_ranked : Ranked Proto
proto_ranked = record { rank = proto_rank }

abbrev pub all_protos : List Proto
all_protos = http ∷ https ∷ socks4 ∷ socks5 ∷ connect80 ∷ connect25 ∷ []

abbrev pub as_str : Proto → Text
as_str http = text "HTTP"
as_str https = text "HTTPS"
as_str socks4 = text "SOCKS4"
as_str socks5 = text "SOCKS5"
as_str connect80 = text "CONNECT:80"
as_str connect25 = text "CONNECT:25"

abbrev pub checks_anon_level : Proto → Bool
checks_anon_level http = true
checks_anon_level _ = false

abbrev pub uses_full_path : Proto → Bool
uses_full_path http = true
uses_full_path _ = false

abbrev pub judge_scheme : Proto → JudgeScheme
judge_scheme https = JudgeScheme.https
judge_scheme connect25 = JudgeScheme.smtp
judge_scheme _ = JudgeScheme.http

-- The last byte of a name, 0 for the empty text, which no name is.
abbrev last_byte : Text → ℕ
last_byte [] = 0
last_byte (c ∷ []) = c
last_byte (c ∷ d ∷ s) = last_byte (d ∷ s)

unfoldable pub display_order_key : Proto → ℕ × ℕ
display_order_key p = (length (as_str p), last_byte (as_str p))

-- `from_str`: the first protocol whose name agrees up to letter case; `none` is `ParseProtoError`.
unfoldable pub from_str : Text → Option Proto
unfolding same_letters
from_str s = head? (keep (λ p. same_letters (as_str p) s) all_protos)
