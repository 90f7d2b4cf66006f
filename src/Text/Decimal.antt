-- ===== src/Text/Decimal.antt =====
-- Decimal numerals: `to_string` of an unsigned number, and `parse` into a width.
use proxybroker_rs.Prelude.{
  Option, [], if◌then◌else◌, leb, ltb, none, some, suc, zero, ℕ, ◌%◌, ◌&&◌, ◌*◌, ◌+◌, ◌-◌, ◌/◌, ◌∷◌,
}
use proxybroker_rs.Prelude.Equality.{list_eq, nat_eq, ◌==◌}
use proxybroker_rs.Text.Base.{Text}

unfoldable pub show_from : ℕ → ℕ → Text → Text
show_from zero n acc = acc
show_from (suc fuel) n acc =
    let digit = b'0' + n % 10 in
    let more = show_from fuel (n / 10) (digit ∷ acc) in if ltb n 10 then digit ∷ acc else more

-- The fuel is one more than the number, which a division by ten makes smaller.
unfoldable pub show : ℕ → Text
unfolding show_from
show n = show_from (suc n) n []

unfoldable pub digits_from : ℕ → ℕ → Text → Option ℕ
digits_from bound acc [] = some acc
digits_from bound acc (c ∷ s) =
    let next = acc * 10 + (c - b'0') in
    let more = digits_from bound next s in
    if leb b'0' c && leb c b'9' && ltb next bound then more else none

unfoldable pub digits_of : ℕ → Text → Option ℕ
unfolding digits_from
digits_of bound [] = none
digits_of bound (c ∷ s) = digits_from bound 0 (c ∷ s)

-- `parse::<uN>()` with `bound` = 2 ^ N: digits after an optional plus sign, refused on overflow.
unfoldable pub parse_uint : ℕ → Text → Option ℕ
unfolding digits_of
parse_uint bound [] = none
parse_uint bound (c ∷ s) = if c == b'+' then digits_of bound s else digits_of bound (c ∷ s)
