-- ===== src/Tests/Fixtures.antt =====
-- Two proxies, a pool of them, and a quiet environment.
use proxybroker_rs.Net.{IpAddr, addr_eq, ip_eq}
use proxybroker_rs.Pool.Get.{Round}
use proxybroker_rs.Pool.State.{
  ClientKey, Pool, PoolConfig, Pooled, Strategy, client_key_eq, ready, strategy_eq,
}
use proxybroker_rs.Prelude.{Bool, List, [], false, none, some, true, ℕ, ◌∷◌}
use proxybroker_rs.Proxy.Record.{Proxy}
use proxybroker_rs.Proxy.Trust.{no_trust, signal_eq}
use proxybroker_rs.Server.Requests.{IpText, frontend_eq}
use proxybroker_rs.Text.{text}
use proxybroker_rs.Types.Proto.{Proto, proto_eq, proto_ranked}
use proxybroker_rs.Types.TypeSpec.{no_caps}

instance abbrev pub shown : IpText
shown = record { show_ip = λ host. text "host"; parse_ip = λ s. none }

abbrev pub home : IpAddr
home = IpAddr.v4 0x0102_0304

abbrev pub peer : IpAddr
peer = IpAddr.v4 0x7f00_0001

abbrev pub proxy_at : ℕ → Proto → Proxy ℕ
proxy_at port proto = record {
  host = home;
  port = port;
  expected_types = [];
  geo = none;
  asn = none;
  types = (proto, none) ∷ [];
  requests = 0;
  errors = [];
  runtimes = [];
  probe_runtimes = [];
  auth = none;
  caps = no_caps;
  trust = no_trust;
  ewma_success = none;
}

abbrev pub plain : Proxy ℕ
plain = proxy_at 8080 Proto.http

abbrev pub tunnel : Proxy ℕ
tunnel = proxy_at 1080 Proto.socks5

abbrev pub defaults : Strategy → Bool → PoolConfig ℕ
defaults strategy prefer = record {
  max_tries = 3;
  max_error_rate = 50;
  max_resp_time = 800;
  min_req = 5;
  countries = none;
  strategy = strategy;
  sticky_header = none;
  max_sessions = 2;
  fail_timeout = 30;
  prefer_connect = prefer;
  http_allowed_codes = some (200 ∷ []);
  verify_on_lease = some 5;
  verify_target = (text "example.com", 443);
  max_clients = 10;
}

abbrev pub pool_of : List (Pooled ℕ) → Strategy → Bool → Pool ℕ
pool_of state strategy exhausted = record {
  state = state;
  sessions = [];
  cursor = 0;
  config = defaults strategy false;
  exhausted = exhausted;
  evictions = 0;
  rotations = 0;
  rng = 1;
}

abbrev pub two : List (Pooled ℕ)
two = ready plain ∷ ready tunnel ∷ []

abbrev pub client : ClientKey
client = ClientKey.ip peer

abbrev pub calm_round : Round ℕ
calm_round = record { now = 1; later = 2; alive = λ p. true; between = []; after = [] }

abbrev pub eight : List (Round ℕ)
eight =
    calm_round ∷ calm_round ∷ calm_round ∷ calm_round ∷ calm_round ∷ calm_round ∷ calm_round
    ∷ calm_round ∷ []
