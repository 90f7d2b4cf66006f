-- ===== src/Text/Base.antt =====
-- Bytes, letter case, and the start and end of a text.
use Prim.Native.Char.{code}
use Prim.Native.String.{String}
use mathlib.Core.List.{reverse}
use proxybroker_rs.Prelude.{
  Bool, List, Option, [], false, if◌then◌else◌, leb, none, some, true, ℕ, ◌&&◌, ◌+◌, ◌-◌, ◌||◌, ◌∷◌,
}
use proxybroker_rs.Prelude.Equality.{list_eq, nat_eq, ◌==◌}

abbrev pub Text : Type 0
Text = List ℕ

-- A literal of the source.
abbrev pub text : String → Text
text String.[] = []
text (String.◌∷◌ c s) = code c ∷ text s

unfoldable pub to_lower : ℕ → ℕ
to_lower c = if leb b'A' c && leb c b'Z' then c + 32 else c

-- `to_ascii_lowercase`.
unfoldable pub lowercase : Text → Text
unfolding to_lower
lowercase [] = []
lowercase (c ∷ s) = to_lower c ∷ lowercase s

unfoldable pub to_upper : ℕ → ℕ
to_upper c = if leb b'a' c && leb c b'z' then c - 32 else c

unfoldable pub uppercase : Text → Text
unfolding to_upper
uppercase [] = []
uppercase (c ∷ s) = to_upper c ∷ uppercase s

-- `eq_ignore_ascii_case`.
unfoldable pub same_letters : Text → Text → Bool
unfolding lowercase
same_letters s t = lowercase s == lowercase t

-- `starts_with`, the prefix first.
unfoldable pub starts_with : Text → Text → Bool
starts_with [] s = true
starts_with (p ∷ ps) [] = false
starts_with (p ∷ ps) (c ∷ cs) = p == c && starts_with ps cs

unfoldable pub strip_prefix : Text → Text → Option Text
strip_prefix [] s = some s
strip_prefix (p ∷ ps) [] = none
strip_prefix (p ∷ ps) (c ∷ cs) = if p == c then strip_prefix ps cs else none

abbrev reversed : Option Text → Option Text
reversed none = none
reversed (some s) = some (reverse s)

unfoldable pub strip_suffix : Text → Text → Option Text
unfolding strip_prefix
strip_suffix p s = reversed (strip_prefix (reverse p) (reverse s))

abbrev pub is_space : ℕ → Bool
is_space c = c == 32 || (leb 9 c && leb c 13)

unfoldable pub trim_start : Text → Text
trim_start [] = []
trim_start (c ∷ s) = if is_space c then trim_start s else c ∷ s

-- `trim`.
unfoldable pub trim : Text → Text
unfolding trim_start
trim s = reverse (trim_start (reverse (trim_start s)))

-- `trim_start_matches` and `trim_end_matches` of one byte.
unfoldable pub trim_start_byte : ℕ → Text → Text
trim_start_byte b [] = []
trim_start_byte b (c ∷ s) = if c == b then trim_start_byte b s else c ∷ s

unfoldable pub trim_end_byte : ℕ → Text → Text
unfolding trim_start_byte
trim_end_byte b s = reverse (trim_start_byte b (reverse s))
