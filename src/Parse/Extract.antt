-- ===== src/Parse/Extract.antt =====
-- src/provider.rs: `ProviderSpec::extract`; src/parse.rs: `parse_proxy_lines`, with
-- `parse_ip_lenient` of src/resolver.rs.
use proxybroker_rs.Broker.Grab.{Candidate}
use proxybroker_rs.Net.{IpAddr, addr_eq, ip_eq, is_unspecified}
use proxybroker_rs.Parse.Scan.{Regexes, canonicalize_ip, find_addrs_global, find_addrs_line}
use proxybroker_rs.Prelude.{
  Bool, List, Option, [], any, false, if◌then◌else◌, is_empty, none, not, some, ℕ, ◌&&◌, ◌*◌, ◌+◌,
  ◌∷◌,
}
use proxybroker_rs.Prelude.Equality.{list_eq, nat_eq, ◌==◌}
use proxybroker_rs.Proxy.Record.{Proxy, new, u16_mod}
use proxybroker_rs.Server.Requests.{IpText, frontend_eq}
use proxybroker_rs.Text.{Text, contains, rsplit_once, split, text}
use proxybroker_rs.Text.Decimal.{parse_uint}
use proxybroker_rs.Types.Proto.{Proto, proto_eq, proto_ranked}

pub record ProviderSpec : Type 0 where
  pub url : Text
  pub protocols : List Proto
  pub pattern : Option Text
  pub timeout : ℕ
  pub kind : Option Text

-- The captures of one match of a provider's own pattern: the whole, and its first two groups.
pub record Captures : Type 0 where
  pub whole : Text
  pub first : Option Text
  pub second : Option Text

-- `Regex::new` and `captures_iter`: nothing for a pattern that is refused.
pub record Patterns : Type 0 where
  pub captures_iter : Text → Text → Option (List Captures)

abbrev pub captured : Captures → Option (Text × Text)
captured c = pair_or c.first c.second
  where
    pair_or : Option Text → Option Text → Option (Text × Text)
    pair_or (some h) (some p) = some (h, p)
    pair_or _ _ = rsplit_once b':' c.whole

unfoldable pub all_captured : List Captures → List (Text × Text)
unfolding rsplit_once
all_captured [] = []
all_captured (c ∷ cs) = elim (captured c) [
  | none ↦ all_captured cs
  | some pr ↦ pr ∷ all_captured cs
]

abbrev pub captured_pairs : Option (List Captures) → List (Text × Text)
captured_pairs none = []
captured_pairs (some cs) = all_captured cs

-- A candidate by its host and its port.
abbrev pub Key : Type 0
Key = Text × ℕ

abbrev pub key_is : Text → ℕ → Key → Bool
key_is host port k = k.0 == host && k.1 == port

module _ ⦃t : IpText⦄ where
  abbrev pub is_void : Text → Bool
  is_void host = elim (t.parse_ip host) [ none ↦ false | some a ↦ is_unspecified a ]

  abbrev pub with_host : ℕ → Option Text → Option Key
  with_host port none = none
  with_host port (some host) = if is_void host then none else some (host, port)

  abbrev pub with_valid_port : Text → Option ℕ → Option Key
  with_valid_port raw_host none = none
  with_valid_port raw_host (some port) =
      if port == 0 then none else with_host port (canonicalize_ip raw_host)

  -- What is left of a raw pair: no port above 65535 or zero, no host that is no address.
  unfoldable pub admissible : Text × Text → Option Key
  unfolding canonicalize_ip is_unspecified parse_uint
  admissible (raw_host, raw_port) = with_valid_port raw_host (parse_uint u16_mod raw_port)

  abbrev pub extract_on :
      List Proto → (List Key → List Candidate) → List Key → Option Key → List Candidate
  extract_on protos rest seen none = rest seen
  extract_on protos rest seen (some (host, port)) =
      if any (key_is host port) seen
      then rest seen
      else record { host = host; port = port; protocols = protos } ∷ rest ((host, port) ∷ seen)

  unfoldable pub extract_each : List Proto → List Key → List (Text × Text) → List Candidate
  unfolding admissible
  extract_each protos seen [] = []
  extract_each protos seen (pr ∷ prs) =
      extract_on protos (λ s. extract_each protos s prs) seen (admissible pr)

  abbrev pub pairs_of : ⦃x : Regexes⦄ ⦃r : Patterns⦄ → Option Text → Text → List (Text × Text)
  pairs_of none body = find_addrs_global body
  pairs_of ⦃x⦄ ⦃r⦄ (some pattern) body = captured_pairs (r.captures_iter pattern body)

  unfoldable pub extract : ⦃x : Regexes⦄ ⦃r : Patterns⦄ → ProviderSpec → Text → List Candidate
  unfolding extract_each find_addrs_global all_captured
  extract spec body = extract_each spec.protocols [] (pairs_of spec.pattern body)

  -- `parse_ip_lenient`: leading zeros are decimal.
  abbrev octet_of : Text → Option ℕ
  octet_of o = parse_uint 256 o

  abbrev from_octets : Option ℕ → Option ℕ → Option ℕ → Option ℕ → Option IpAddr
  from_octets (some a) (some b) (some c) (some d) =
      some (IpAddr.v4 (((a * 256 + b) * 256 + c) * 256 + d))
  from_octets _ _ _ _ = none

  abbrev from_pieces : List Text → Option IpAddr
  from_pieces (a ∷ b ∷ c ∷ d ∷ []) = from_octets (octet_of a) (octet_of b) (octet_of c) (octet_of d)
  from_pieces _ = none

  abbrev lenient_or : Text → Option IpAddr → Option IpAddr
  lenient_or host (some a) = some a
  lenient_or host none =
      if contains (text ".") host && not (contains (text ":") host)
      then from_pieces (split b'.' host)
      else none

  unfoldable pub parse_ip_lenient : Text → Option IpAddr
  unfolding contains split parse_uint
  parse_ip_lenient host = if is_empty host then none else lenient_or host (t.parse_ip host)

module _ {F : Type 0} ⦃t : IpText⦄ where
  abbrev line_proxy : Option IpAddr → Option ℕ → Option (Proxy F)
  line_proxy (some host) (some port) = some (new host port [])
  line_proxy _ _ = none

  unfoldable pub line_proxies : List (Text × Text) → List (Proxy F)
  unfolding parse_ip_lenient parse_uint new
  line_proxies [] = []
  line_proxies ((host, port) ∷ prs) =
      elim (line_proxy (parse_ip_lenient host) (parse_uint u16_mod port)) [
        | none ↦ line_proxies prs
        | some p ↦ p ∷ line_proxies prs
      ]

  unfoldable pub parse_proxy_lines : ⦃x : Regexes⦄ → Text → List (Proxy F)
  unfolding find_addrs_line line_proxies
  parse_proxy_lines s = line_proxies (find_addrs_line s)
