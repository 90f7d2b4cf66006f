-- ===== src/Text/Search.antt =====
-- Searching a text, and splitting it at a byte.
use mathlib.Core.List.{reverse}
use proxybroker_rs.Prelude.{
  Bool, List, Option, [], drop, if◌then◌else◌, is_some, length, none, some, suc, zero, ℕ, ◌-◌, ◌∷◌,
}
use proxybroker_rs.Prelude.Equality.{list_eq, nat_eq, ◌==◌}
use proxybroker_rs.Text.Base.{Text, starts_with}

abbrev pub after_one : Option ℕ → Option ℕ
after_one none = none
after_one (some n) = some (suc n)

-- The place of the first occurrence: `windows(n).position(..)`, or `find`.
unfoldable pub position : Text → Text → Option ℕ
unfolding starts_with
position needle [] = if starts_with needle [] then some 0 else none
position needle (c ∷ s) =
    if starts_with needle (c ∷ s) then some 0 else after_one (position needle s)

unfoldable pub contains : Text → Text → Bool
unfolding position
contains needle s = is_some (position needle s)

unfoldable pub count_from : ℕ → Text → Text → ℕ
unfolding starts_with
count_from skip needle [] = 0
count_from (suc skip) needle (c ∷ s) = count_from skip needle s
count_from zero needle (c ∷ s) =
    let found = suc (count_from (length needle - 1) needle s) in
    let next = count_from 0 needle s in if starts_with needle (c ∷ s) then found else next

-- `matches(needle).count()`: occurrences that do not overlap.
unfoldable pub count_matches : Text → Text → ℕ
unfolding count_from
count_matches needle s = count_from 0 needle s

abbrev pub with_head : ℕ → Option (Text × Text) → Option (Text × Text)
with_head c none = none
with_head c (some (a, b)) = some (c ∷ a, b)

-- `split_once(byte)`.
unfoldable pub split_once : ℕ → Text → Option (Text × Text)
split_once b [] = none
split_once b (c ∷ s) = if c == b then some ([], s) else with_head c (split_once b s)

abbrev mirrored : Option (Text × Text) → Option (Text × Text)
mirrored none = none
mirrored (some (a, b)) = some (reverse b, reverse a)

-- `rsplit_once(byte)`.
unfoldable pub rsplit_once : ℕ → Text → Option (Text × Text)
unfolding split_once
rsplit_once b s = mirrored (split_once b (reverse s))

unfoldable pub split_text_once : Text → Text → Option (Text × Text)
unfolding starts_with
split_text_once needle [] = none
split_text_once needle (c ∷ s) =
    if starts_with needle (c ∷ s)
    then some ([], drop (length needle) (c ∷ s))
    else with_head c (split_text_once needle s)

abbrev head_piece : List Text → ℕ → List Text
head_piece [] c = (c ∷ []) ∷ []
head_piece (p ∷ ps) c = (c ∷ p) ∷ ps

-- `split(byte)`: never empty.
unfoldable pub split : ℕ → Text → List Text
split b [] = [] ∷ []
split b (c ∷ s) = if c == b then [] ∷ split b s else head_piece (split b s) c

-- `splitn(suc n, byte)`: at most `n` cuts.
unfoldable pub splitn : ℕ → ℕ → Text → List Text
splitn n b [] = [] ∷ []
splitn zero b (c ∷ s) = (c ∷ s) ∷ []
splitn (suc n) b (c ∷ s) =
    let cut = [] ∷ splitn n b s in
    let more = head_piece (splitn (suc n) b s) c in if c == b then cut else more
