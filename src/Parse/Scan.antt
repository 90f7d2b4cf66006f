-- ===== src/Parse/Scan.antt =====
-- src/parse.rs: the scanners for `ip:port`, and src/utils.rs, `get_all_ip`. The regular expressions
-- are those of a library: an interface tells where one matches first from a place on.
use proxybroker_rs.Net.{IpAddr, addr_eq, ip_eq, is_v6}
use proxybroker_rs.Prelude.{
  List, Option, [], drop, if◌then◌else◌, length, ltb, map, none, not, some, suc, take, zero, ℕ,
  ◌++◌, ◌-◌, ◌∷◌,
}
use proxybroker_rs.Server.Requests.{IpText, frontend_eq}
use proxybroker_rs.Text.{Text, contains, split, split_once, text, trim_end_byte}

pub record Regexes : Type 0 where
  -- `IPV4_RE`, `PORT_RE` and `IPV6_CANDIDATE_RE`, by `find_at`: the start and the end of the match.
  pub find_ipv4 : Text → ℕ → Option (ℕ × ℕ)
  pub find_port : Text → ℕ → Option (ℕ × ℕ)
  pub find_ipv6 : Text → ℕ → Option (ℕ × ℕ)

abbrev pub between : ℕ × ℕ → Text → Text
between (start, end') s = take (end' - start) (drop start s)

-- `find_iter`: the matches from a place on, with as much fuel as there may be matches.
unfoldable pub matches_from : ℕ → (Text → ℕ → Option (ℕ × ℕ)) → Text → ℕ → List (ℕ × ℕ)
matches_from zero find s from = []
matches_from (suc fuel) find s from = elim (find s from) [
  | none ↦ []
  | some m ↦ m ∷ matches_from fuel find s m.1
]

unfoldable pub find_iter : (Text → ℕ → Option (ℕ × ℕ)) → Text → List Text
unfolding matches_from
find_iter find s = map (λ m. between m s) (matches_from (suc (length s)) find s 0)

module _ ⦃x : Regexes⦄ where
  abbrev pub port_after : Text → ℕ × ℕ → Option (Text × Text)
  port_after line hit = elim (x.find_port (drop hit.1 line) 0) [
    | none ↦ none
    | some p ↦ some (between hit line, between p (drop hit.1 line))
  ]

  -- The first address of a line, with the first port after it.
  abbrev pub on_line : Text → Option (Text × Text)
  on_line line = elim (x.find_ipv4 line 0) [ none ↦ none | some hit ↦ port_after line hit ]

  unfoldable pub each_line : List Text → List (Text × Text)
  each_line [] = []
  each_line (l ∷ ls) = elim (on_line l) [ none ↦ each_line ls | some found ↦ found ∷ each_line ls ]

  unfoldable pub find_addrs_line : Text → List (Text × Text)
  unfolding each_line split
  find_addrs_line s = each_line (split 10 s)

  -- The port of an address: that of a port that begins before the next address, no port if that
  -- address comes first, and none where nothing follows.
  abbrev pub paired : Text → Option (ℕ × ℕ) → Option (ℕ × ℕ) → Option Text
  paired s (some p) (some i) = if ltb p.0 i.0 then some (between p s) else some []
  paired s (some p) none = some (between p s)
  paired s none (some i) = some []
  paired s none none = none

  abbrev pub pair_at : Text → ℕ × ℕ → List (Text × Text)
  pair_at s hit = elim (paired s (x.find_port s hit.1) (x.find_ipv4 s hit.1)) [
    | none ↦ []
    | some port ↦ (between hit s, port) ∷ []
  ]

  unfoldable pub scan_from : ℕ → Text → ℕ → List (Text × Text)
  scan_from zero s from = []
  scan_from (suc fuel) s from = elim (x.find_ipv4 s from) [
    | none ↦ []
    | some hit ↦ pair_at s hit ++ scan_from fuel s hit.1
  ]

  unfoldable pub find_addrs_global : Text → List (Text × Text)
  unfolding scan_from
  find_addrs_global s = scan_from (suc (length s)) s 0

module _ ⦃t : IpText⦄ where
  abbrev zoned : Text → Option IpAddr → Option Text
  zoned zone none = none
  zoned zone (some a) = if is_v6 a then some (t.show_ip a ++ b'%' ∷ zone) else none

  abbrev shown_ip : Option IpAddr → Option Text
  shown_ip none = none
  shown_ip (some a) = some (t.show_ip a)

  unfoldable pub canonicalize_ip : Text → Option Text
  unfolding split_once
  canonicalize_ip s = elim (split_once b'%' s) [
    | none ↦ shown_ip (t.parse_ip s)
    | some (base, zone) ↦ zoned zone (t.parse_ip base)
  ]

  unfoldable pub canonical_tokens : List Text → List Text
  unfolding canonicalize_ip contains trim_end_byte
  canonical_tokens [] = []
  canonical_tokens (tok ∷ toks) =
      let rest = canonical_tokens toks in
      if not (contains (text ":") tok)
      then rest
      else elim (canonicalize_ip (trim_end_byte b'.' tok)) [ none ↦ rest | some c ↦ c ∷ rest ]

  -- The set of the addresses of a page, as a list without order or count.
  unfoldable pub get_all_ip : ⦃x : Regexes⦄ → Text → List Text
  unfolding find_iter canonical_tokens
  get_all_ip ⦃x⦄ page = find_iter x.find_ipv4 page ++ canonical_tokens (find_iter x.find_ipv6 page)
