-- ===== src/Proxy/Record.antt =====
-- src/proxy.rs: `Proxy` and its constructors, builders and recorders.
use proxybroker_rs.Errors.{ProxyError, bad_response, error_eq, timeout}
use proxybroker_rs.Float.{Float, nat_float}
use proxybroker_rs.Maps.{
  HashMap, TreeMap, hash_get, hash_insert, tree_has, tree_insert, tree_remove,
}
use proxybroker_rs.Net.{Addr, IpAddr, addr_eq, ip_eq}
use proxybroker_rs.Prelude.{
  Bool, List, Option, [], false, if◌then◌else◌, is_empty, ltb, none, not, some, ℕ, ◌%◌, ◌++◌, ◌+◌,
  ◌^◌, ◌||◌, ◌∷◌,
}
use proxybroker_rs.Prelude.Equality.{list_eq, nat_eq, ◌==◌}
use proxybroker_rs.Proxy.Trust.{TrustReport, add_signals, no_trust, signal_eq}
use proxybroker_rs.Text.{Text}
use proxybroker_rs.Types.AnonLevel.{AnonLevel, level_eq, level_ranked}
use proxybroker_rs.Types.Proto.{Proto, proto_eq, proto_ranked}
use proxybroker_rs.Types.TypeSpec.{Caps, no_caps}

pub record Region : Type 0 where
  pub region_code : Text
  pub region_name : Text

pub record Country : Type 0 where
  pub code : Text
  pub name : Text
  pub region : Option Region
  pub city : Option Text

pub record Asn : Type 0 where
  pub number : ℕ
  pub org : Option Text

pub record Credentials : Type 0 where
  pub username : Text
  pub password : Text

abbrev pub TypeMap : Type 0
TypeMap = TreeMap Proto (Option AnonLevel)

abbrev pub u16_mod : ℕ
u16_mod = 2 ^ 16

abbrev pub u32_mod : ℕ
u32_mod = 2 ^ 32

-- Over the type `F` of `f64`.
pub record Proxy (F : Type 0) : Type 0 where
  pub host : IpAddr
  pub port : ℕ
  pub expected_types : List Proto
  pub geo : Option Country
  pub asn : Option Asn
  pub types : TypeMap
  pub requests : ℕ
  pub errors : HashMap ProxyError ℕ
  pub runtimes : List F
  pub probe_runtimes : List F
  pub auth : Option Credentials
  pub caps : Caps
  pub trust : TrustReport
  pub ewma_success : Option F

pub record Capabilities : Type 0 where
  pub cookie_echo : Bool
  pub referer_echo : Bool
  pub connect25 : Bool

-- `*errors.entry(e).or_insert(0) += 1`; a `u32` wraps.
unfoldable pub bump_error : ProxyError → HashMap ProxyError ℕ → HashMap ProxyError ℕ
unfolding hash_insert hash_get
bump_error e m = elim (hash_get e m) [
  | none ↦ hash_insert e 1 m
  | some n ↦ hash_insert e ((n + 1) % u32_mod) m
]

abbrev pub errors_after : Option ProxyError → HashMap ProxyError ℕ → HashMap ProxyError ℕ
errors_after none m = m
errors_after (some e) m = bump_error e m

abbrev pub is_timeout : Option ProxyError → Bool
is_timeout none = false
is_timeout (some e) = e == timeout

module _ {F : Type 0} where
  abbrev pub addr_of : Proxy F → Addr
  addr_of p = (p.host, p.port)

  unfoldable pub new : IpAddr → ℕ → List Proto → Proxy F
  new host port expected = record {
    host = host;
    port = port;
    expected_types = expected;
    geo = none;
    asn = none;
    types = [];
    requests = 0;
    errors = [];
    runtimes = [];
    probe_runtimes = [];
    auth = none;
    caps = no_caps;
    trust = no_trust;
    ewma_success = none;
  }

  unfoldable pub restored : ⦃f : Float F⦄ → IpAddr → ℕ → TypeMap → ℕ → ℕ → F → Proxy F
  unfolding new
  restored ⦃f⦄ host port types requests errors_total avg = record (new host port []) {
    types = types;
    requests = requests;
    errors = if ltb 0 errors_total then (bad_response, errors_total) ∷ [] else [];
    runtimes = if f.lt f.zero_f avg then avg ∷ [] else [];
  }

  unfoldable pub with_auth : Proxy F → Credentials → Proxy F
  with_auth p creds = record p { auth = some creds }

  unfoldable pub with_ewma : Proxy F → Option F → Proxy F
  with_ewma p ewma = record p { ewma_success = ewma }

  unfoldable pub add_type : Proxy F → Proto → Option AnonLevel → Proxy F
  add_type p proto level = record p { types = tree_insert proto level p.types }

  unfoldable pub remove_type : Proxy F → Proto → Proxy F
  remove_type p proto = record p { types = tree_remove proto p.types }

  unfoldable pub is_working : Proxy F → Bool
  is_working p = not (is_empty p.types)

  unfoldable pub record_caps : Proxy F → Caps → Proxy F
  record_caps p c = record p {
    caps = record {
      cookie_echo = p.caps.cookie_echo || c.cookie_echo;
      referer_echo = p.caps.referer_echo || c.referer_echo;
    };
  }

  unfoldable pub capabilities : Proxy F → Capabilities
  unfolding tree_has
  capabilities p = record {
    cookie_echo = p.caps.cookie_echo;
    referer_echo = p.caps.referer_echo;
    connect25 = tree_has Proto.connect25 p.types;
  }

  unfoldable pub record_trust : Proxy F → TrustReport → Proxy F
  unfolding add_signals
  record_trust p r = record p { trust = record { signals = add_signals p.trust.signals r.signals } }

  unfoldable pub record_probe_latency : Proxy F → F → Proxy F
  record_probe_latency p secs = record p { probe_runtimes = p.probe_runtimes ++ secs ∷ [] }

  abbrev pub runtimes_after : Option F → Option ProxyError → List F → List F
  runtimes_after none err ts = ts
  runtimes_after (some rt) err ts = if is_timeout err then ts else ts ++ rt ∷ []

  unfoldable pub record_attempt : Proxy F → Option F → Option ProxyError → Proxy F
  unfolding bump_error
  record_attempt p runtime err = record p {
    requests = (p.requests + 1) % u32_mod;
    errors = errors_after err p.errors;
    runtimes = runtimes_after runtime err p.runtimes;
  }
