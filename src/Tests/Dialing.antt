-- ===== src/Tests/Dialing.antt =====
-- The theorems on the connector at concrete inputs.
use proxybroker_rs.Connector.Dialing.{DialTry, Uri, connect, in_get}
use proxybroker_rs.Connector.Ends.{connect-ends}
use proxybroker_rs.Connector.Outcomes.{connect-is_opaque}
use proxybroker_rs.Float.{nat_float}
use proxybroker_rs.Negotiator.Handshakes.{Channel, late, plain_stream, shaken, taken_whole}
use proxybroker_rs.Negotiator.Opaque.{is_opaque}
use proxybroker_rs.Pool.State.{Pool, Strategy}
use proxybroker_rs.Prelude.{List, [], arith, none, refl, some, true, ℕ, ℕ_discrete, ◌∷◌, ◌≡◌, ◌≢◌}
use proxybroker_rs.Server.Login.{as_events}
use proxybroker_rs.Server.Relay.{connected}
use proxybroker_rs.Tests.Fixtures.{eight, pool_of, tunnel}
use proxybroker_rs.Pool.State.{ready}
use proxybroker_rs.Text.{text}

abbrev socks_reply : Channel
socks_reply = record {
  sending = taken_whole;
  answers = λ s. [];
  socks4_shake = λ n port. late;
  socks5_shake = λ d port creds. shaken (as_events (text "hello"));
  is_server_name = λ s. true;
  tls = shaken;
}

abbrev dial_try : DialTry ℕ
dial_try = record {
  rounds = eight;
  dial = connected;
  channel = socks_reply;
  meanwhile = [];
  now = 3;
}

abbrev secure_uri : Uri
secure_uri = record { scheme_str = some (text "https"); host = some (text "h"); port_u16 = none }

abbrev tunnel_pool : Pool ℕ
tunnel_pool = pool_of (ready tunnel ∷ []) Strategy.best true

connect-is_opaque_example : is_opaque (plain_stream (as_events (text "hello"))) ≡ true
unfolding connect proxybroker_rs.Pool.Steps.try_select proxybroker_rs.Pool.Select.best_for
    proxybroker_rs.Proxy.Measures.serves proxybroker_rs.Types.Proto.Proto-discrete
    proxybroker_rs.Types.Scheme.Scheme-discrete proxybroker_rs.Prelude.list_discrete ℕ_discrete
    proxybroker_rs.Maps.tree_has
connect-is_opaque_example =
    connect-is_opaque (λ n. dial_try) 2 secure_uri (λ s. none) tunnel_pool
      (plain_stream (as_events (text "hello"))) refl

connect-ends_example : (connect (λ n. dial_try) 2 secure_uri (λ s. none) tunnel_pool).0 ≢ in_get
connect-ends_example =
    connect-ends (λ n. dial_try) 2 secure_uri (λ s. none) tunnel_pool (λ n. omega arith) refl
