-- ===== src/Tests/Reading.antt =====
-- The theorems on pages, offered and statistics at concrete inputs.
use proxybroker_rs.Broker.Grab.{Candidate, GeoDbs, grab, source_of, upper_all}
use proxybroker_rs.Broker.Grabbed.{cut_at, grab-source_of}
use proxybroker_rs.Broker.Sources.{Distinct, host_ok, offers_addr, source_of-IsClean}
use proxybroker_rs.Errors.{error_eq}
use proxybroker_rs.Float.{nat_float}
use proxybroker_rs.Net.{Addr, addr_eq, ip_eq, memb}
use proxybroker_rs.Parse.Ends.{Advances, Scans, find_addrs_global-ends}
use proxybroker_rs.Parse.Extract.{Patterns, ProviderSpec, extract, pairs_of}
use proxybroker_rs.Parse.Found.{IsProper, cand_times, extract_lem, gives}
use proxybroker_rs.Parse.Scan.{Regexes, find_addrs_global}
use proxybroker_rs.Prelude.{
  All, List, [], any, arith, if◌then◌else◌, leb, length, ltb, map, none, refl, some, true, ℕ, ◌&&◌,
  ◌↔◌, ◌∷◌, ◌≡◌, ◌≤◌,
}
use proxybroker_rs.Prelude.Equality.{list_eq, nat_eq, ◌==◌}
use proxybroker_rs.Proxy.Record.{Proxy, addr_of}
use proxybroker_rs.Server.Requests.{IpText, frontend_eq}
use proxybroker_rs.Stats.Collector.{stats_from}
use proxybroker_rs.Stats.Tally.{Describes, stats_from-Describes}
use proxybroker_rs.Tests.Fixtures.{home, plain, tunnel}
use proxybroker_rs.Text.{Text, text}
use proxybroker_rs.Types.Proto.{Proto, proto_eq, proto_ranked}

instance abbrev reads : IpText
reads = record {
  show_ip = λ host. text "1.2.3.4";
  parse_ip = λ s. if s == text "1.2.3.4" then some home else none;
}

abbrev page : Text
page = text "1.2.3.4:8080"

-- An address is the first seven bytes; a port, those from the ninth on.
instance abbrev first_seven : Regexes
first_seven = record {
  find_ipv4 = λ s from. if from == 0 && leb 7 (length s) then some (0, 7) else none;
  find_port = λ s from. if ltb from 9 && leb 9 (length s) then some (8, length s) else none;
  find_ipv6 = λ s from. none;
}

instance abbrev no_patterns : Patterns
no_patterns = record { captures_iter = λ pattern s. none }

some-injective : (m n : ℕ × ℕ) → some m ≡ some n → m ≡ n
some-injective m n e = cc e

first_seven-Advances : Advances first_seven.find_ipv4
first_seven-Advances s from m found = ground arith

abbrev candidate : Text → Candidate
candidate host = record { host = host; port = 8080; protocols = Proto.http ∷ [] }

abbrev offered : List Candidate
offered = candidate (text "1.2.3.4") ∷ candidate (text "?") ∷ candidate (text "1.2.3.4") ∷ []

abbrev no_dbs : GeoDbs
no_dbs = record { geo = none; asn = none }

abbrev listed : ProviderSpec
listed = record {
  url = text "http://list";
  protocols = Proto.http ∷ [];
  pattern = none;
  timeout = 20;
  kind = none;
}

abbrev two_proxies : List (Proxy ℕ)
two_proxies = plain ∷ tunnel ∷ []

grab-source_of_example :
    grab {F = ℕ} no_dbs none (some 1) (λ k. true) offered
    ≡ cut_at (some 1) (source_of no_dbs none offered)
grab-source_of_example = grab-source_of no_dbs none (some 1) (λ k. true) offered (λ k. refl)

source_of-IsClean_example :
    Distinct (map addr_of (source_of {F = ℕ} no_dbs none offered))
    × ((a : Addr)
        → (memb a (map addr_of (source_of {F = ℕ} no_dbs none offered)) ≡ true)
          ↔ ((offers_addr a offered ≡ true) × (host_ok no_dbs (upper_all none) a.0 ≡ true)))
source_of-IsClean_example = source_of-IsClean ℕ no_dbs none offered

extract_lem_example :
    ((host : Text) (port : ℕ)
      → cand_times host port (extract listed page)
        ≡ (if any (gives host port) (pairs_of none page) then 1 else 0))
    × All
        (λ (c : Candidate). IsProper (c.host, c.port) × (c.protocols ≡ listed.protocols))
        (extract listed page)
extract_lem_example = extract_lem listed page

find_addrs_global-ends_example :
    (n : ℕ) × (n ≤ length page) × Scans page n 0 (find_addrs_global page)
find_addrs_global-ends_example = find_addrs_global-ends page first_seven-Advances

stats_from-Describes_example : Describes two_proxies (stats_from two_proxies)
stats_from-Describes_example = stats_from-Describes two_proxies
