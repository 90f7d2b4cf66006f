-- ===== src/Server/Choices.antt =====
-- Which protocol a tunnel takes, what the control requests may do, and the bound of the history.
use proxybroker_rs.Maps.{hash_get, hash_get-insert, length-hash_insert}
use proxybroker_rs.Net.{IpAddr, addr_eq, ip_eq}
use proxybroker_rs.Pool.State.{Pool, client_key_eq, strategy_eq}
use proxybroker_rs.Prelude.{
  Bool, List, [], any, arith, false, is_some, length, max, refl, some, true, ℕ, ◌↔◌, ◌∙◌, ◌∷◌, ◌≡◌,
  ◌≤◌,
}
use proxybroker_rs.Prelude.Equality.{==-refl, list_eq, nat_eq}
use proxybroker_rs.Proxy.Measures.{has_type}
use proxybroker_rs.Proxy.Record.{Proxy}
use proxybroker_rs.Server.Handler.{History, control, control_parts, record_history, serve_control}
use proxybroker_rs.Server.Requests.{ClientRequest, IpText, choose_proto, frontend_eq, tunnel_proto}
use proxybroker_rs.Text.{Text}
use proxybroker_rs.Types.Proto.{Proto, proto_eq, proto_ranked}
use proxybroker_rs.Types.Scheme.{Scheme, scheme_eq}

-- The protocols over which a tunnel carries the client's own bytes to the end.
abbrev pub is_tunnel : Proto → Bool
is_tunnel Proto.socks4 = true
is_tunnel Proto.socks5 = true
is_tunnel Proto.connect80 = true
is_tunnel _ = false

module _ {F : Type 0} where
  -- A tunnel never ends TLS at the proxy or speaks plain HTTP to it: `choose_proto` for HTTPS gives
  -- SOCKS4, SOCKS5 or CONNECT:80. `tunnel_proto` gives a protocol exactly when the proxy has one
  -- of these types or HTTPS.
  pub tunnel_proto_lem :
      (p : Proxy F)
      → (is_tunnel (choose_proto p Scheme.https) ≡ true)
        × ((is_some (tunnel_proto p) ≡ true) ↔ (
            any
              (λ c. has_type c p)
              (Proto.socks5 ∷ Proto.socks4 ∷ Proto.connect80 ∷ Proto.https ∷ [])
            ≡ true))
  unfolding choose_proto tunnel_proto
  tunnel_proto_lem p = ground arith

module _ {F : Type 0} ⦃t : IpText⦄ where
  control-kept :
      (parts : List Text) (pool : Pool F) (history : History) (peer : IpAddr)
      → (control parts pool history peer false).0 ≡ pool
  control-kept [] pool history peer = refl
  control-kept (api ∷ []) pool history peer = refl
  control-kept (api ∷ operation ∷ []) pool history peer = refl
  control-kept (api ∷ operation ∷ params ∷ []) pool history peer = ground arith
  control-kept (api ∷ operation ∷ params ∷ more ∷ rest) pool history peer = refl

  -- A control request from a peer that may not remove leaves the pool alone.
  pub serve_control_lem :
      (req : ClientRequest) (pool : Pool F) (history : History) (peer : IpAddr)
      → (serve_control req pool history peer false).0 ≡ pool
  unfolding serve_control
  serve_control_lem req pool history peer = control-kept (control_parts req.path) pool history peer

-- Recording in the history makes the entry readable, and keeps the map within the cap.
pub record_history_lem :
    (limit : ℕ) (key proxy : Text) (m : History)
    → length m ≤ max limit 1
    → (length (record_history limit key proxy m) ≤ max limit 1)
      × (hash_get key (record_history limit key proxy m) ≡ some proxy)
unfolding record_history
record_history_lem limit key proxy m fit = (
  ground (arith, length-hash_insert key proxy m, length-hash_insert key proxy []),
  hash_get-insert key key proxy _ ∙ rw (==-refl key) refl,
)
