-- ===== src/Server/Heads.antt =====
-- src/server.rs: the helpers that read and change a buffered HTTP head, and src/utils.rs,
-- `base64_encode` and `get_status_code`.
use proxybroker_rs.Pool.State.{client_key_eq, strategy_eq, u64_mod}
use proxybroker_rs.Prelude.{
  Bool, List, Option, [], drop, false, get_elem?, head?, if◌then◌else◌, is_some, keep, leb, length,
  ltb, min, none, not, some, suc, take, true, zero, ℕ, ◌%◌, ◌&&◌, ◌*◌, ◌++◌, ◌+◌, ◌-◌, ◌/◌, ◌^◌,
  ◌||◌, ◌∷◌,
}
use proxybroker_rs.Proxy.Record.{u16_mod}
use proxybroker_rs.Text.{
  Text, lines, lowercase, rsplit_once, split_text_once, starts_with, strip_prefix, strip_suffix,
  text, trim, words,
}
use proxybroker_rs.Text.Decimal.{parse_uint}

abbrev pub crlf : Text
crlf = 13 ∷ 10 ∷ []

abbrev pub in_front : ℕ → Option (Text × Text) → Option (Text × Text)
in_front c none = none
in_front c (some (l, more)) = some (c ∷ l, more)

-- The bytes before the first CRLF and those after it: `windows(2).position(..)`.
unfoldable pub next_line : Text → Option (Text × Text)
unfolding starts_with
next_line [] = none
next_line (c ∷ s) =
    if starts_with crlf (c ∷ s) then some ([], drop 1 s) else in_front c (next_line s)

abbrev pub with_line : Text → Text → Option (Text × Text) → Text
with_line raw line none = raw
with_line raw line (some (l, more)) = l ++ crlf ++ (line ++ more)

unfoldable pub inject_header : Text → Text → Text
unfolding next_line
inject_header raw header_line = with_line raw header_line (next_line raw)

abbrev pub colon_after : Text → Text
colon_after name = lowercase name ++ b':' ∷ []

abbrev pub is_named : Text → Text → Bool
is_named prefix line = starts_with prefix (lowercase line)

-- A round of the loop of `strip_header`; `again` is the rest of the loop.
abbrev pub strip_round : Text → Bool → Text → (Text → Text) → Option (Text × Text) → Text
strip_round prefix first rest again none = rest
strip_round prefix first rest again (some (line, more)) =
    if not first && is_named prefix line then again more else line ++ crlf ++ again more

unfoldable pub strip_from : ℕ → Text → Bool → Text → Text
unfolding next_line lowercase starts_with
strip_from zero prefix first rest = rest
strip_from (suc n) prefix first rest =
    strip_round prefix first rest (λ more. strip_from n prefix false more) (next_line rest)

-- Each round takes a line away, so the number of bytes is fuel enough.
unfoldable pub strip_header : Text → Text → Text
unfolding strip_from
strip_header raw name = strip_from (suc (length raw)) (colon_after name) true raw

abbrev value_after : ℕ → Option Text → Option Text
value_after n none = none
value_after n (some l) = some (trim (drop n l))

unfoldable pub header_value : Text → Text → Option Text
unfolding lines lowercase starts_with trim
header_value raw name =
    value_after (length name + 1) (head? (keep (is_named (colon_after name)) (drop 1 (lines raw))))

abbrev pub or_zero : Option ℕ → ℕ
or_zero none = 0
or_zero (some n) = n

abbrev code_in : Option Text → Option ℕ
code_in none = none
code_in (some w) = parse_uint u16_mod w

unfoldable pub parse_http_status : Text → ℕ
unfolding words parse_uint
parse_http_status head = or_zero (code_in (get_elem? (words head) 1))

-- An unreadable length counts as a body.
abbrev declares_body : Option Text → Bool
declares_body none = false
declares_body (some v) = elim (parse_uint u64_mod (trim v)) [ none ↦ true | some n ↦ ltb 0 n ]

unfoldable pub request_has_body : Text → Bool
unfolding header_value parse_uint trim
request_has_body raw =
    is_some (header_value raw (text "Transfer-Encoding"))
    || declares_body (header_value raw (text "Content-Length"))

abbrev pub port_or : ℕ → Text → ℕ
port_or default p = elim (parse_uint u16_mod p) [ none ↦ default | some n ↦ n ]

abbrev at_last_colon : Text → ℕ → Option (Text × Text) → Text × ℕ
at_last_colon s default none = (s, default)
at_last_colon s default (some ([], p)) = (s, default)
at_last_colon s default (some (c ∷ h, p)) = (c ∷ h, port_or default p)

abbrev bracketed : Text → ℕ → Option (Text × ℕ)
bracketed rest default = elim (split_text_once (text "]:") rest) [
  | some (h, p) ↦ some (h, port_or default p)
  | none ↦ elim (strip_suffix (text "]") rest) [ some h ↦ some (h, default) | none ↦ none ]
]

abbrev in_brackets : Option Text → ℕ → Option (Text × ℕ)
in_brackets none default = none
in_brackets (some rest) default = bracketed rest default

unfoldable pub split_host_port : Text → ℕ → Text × ℕ
unfolding strip_prefix strip_suffix split_text_once rsplit_once parse_uint
split_host_port s default = elim (in_brackets (strip_prefix (text "[") s) default) [
  | some found ↦ found
  | none ↦ at_last_colon s default (rsplit_once b':' s)
]

-- src/utils.rs, `get_status_code`.
unfoldable pub get_status_code : Text → ℕ → ℕ → ℕ
unfolding parse_uint trim
get_status_code resp start stop =
    let slice = take (min stop (length resp) - start) (drop start resp) in
    if leb (min stop (length resp)) start
    then 400
    else elim (parse_uint u16_mod (trim slice)) [ none ↦ 400 | some n ↦ n ]

abbrev pub alphabet : Text
alphabet = text "ABCDEFGHIJKLMNOPQRSTUVWXYZabcdefghijklmnopqrstuvwxyz0123456789+/"

-- The letter of the low six bits.
unfoldable pub sextet : ℕ → ℕ
sextet n = or_zero (get_elem? alphabet (n % 64))

unfoldable pub sextets : List ℕ → Text
unfolding sextet
sextets [] = []
sextets (n ∷ ns) = sextet n ∷ sextets ns

-- The four places of the 24 bits of three bytes.
abbrev pub places : ℕ → ℕ → ℕ → List ℕ
places a b c = let n = a * 2 ^ 16 + b * 2 ^ 8 + c in n / 2 ^ 18 ∷ n / 2 ^ 12 ∷ n / 2 ^ 6 ∷ n ∷ []

-- `base64_encode`: three bytes make four letters, and `=` stands for a letter without a byte.
unfoldable pub base64_encode : Text → Text
unfolding sextets
base64_encode [] = []
base64_encode (a ∷ []) = sextets (take 2 (places a 0 0)) ++ text "=="
base64_encode (a ∷ b ∷ []) = sextets (take 3 (places a b 0)) ++ text "="
base64_encode (a ∷ b ∷ c ∷ s) = sextets (places a b c) ++ base64_encode s
