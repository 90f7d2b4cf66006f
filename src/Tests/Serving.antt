-- ===== src/Tests/Serving.antt =====
-- The theorems on the server at concrete inputs.
use proxybroker_rs.Errors.{conn_failed, error_eq}
use proxybroker_rs.Float.{nat_float}
use proxybroker_rs.Negotiator.Handshakes.{
  Channel, Target, late, negotiate, plain_stream, shaken, taken_whole,
}
use proxybroker_rs.Negotiator.Opaque.{is_opaque, negotiate-choose_proto}
use proxybroker_rs.Net.{addr_eq, ip_eq}
use proxybroker_rs.Pool.Get.{Round}
use proxybroker_rs.Pool.State.{Pool, Strategy, client_key_eq, strategy_eq}
use proxybroker_rs.Pool.Totals.{total}
use proxybroker_rs.Prelude.{
  List, [], arith, none, refl, some, true, ℕ, ℕ_discrete, ◌++◌, ◌+◌, ◌∷◌, ◌≡◌, ◌⊎◌,
}
use proxybroker_rs.Prelude.Equality.{list_discrete, list_eq, nat_eq}
use proxybroker_rs.Server.Accounts.{handle_client-Settles, in_use}
use proxybroker_rs.Server.Allowed.{ShowsAllowed, relay-ShowsAllowed}
use proxybroker_rs.Server.Answers.{IsWhole, handle_client-IsWhole}
use proxybroker_rs.Server.Commit.{relay-unseen}
use proxybroker_rs.Server.Connection.{handle_connection}
use proxybroker_rs.Server.Ends.{IsDone, handle_client-ends}
use proxybroker_rs.Server.Gate.{IsAuthorized, handle_connection_lem}
use proxybroker_rs.Server.Handler.{ConnCtx, Try, handle_client}
use proxybroker_rs.Server.Headers.{IsCut, cut_end, cut_more, others, strip_header_lem}
use proxybroker_rs.Server.Heads.{colon_after, next_line, strip_header}
use proxybroker_rs.Server.Login.{as_events, greeting, parse_socks5_request_lem}
use proxybroker_rs.Server.Relay.{Dial, Wire, completes, connected, refused, relay, target_of}
use proxybroker_rs.Server.Requests.{
  AuthExpect, ClientRequest, Event, Frontend, byte, choose_proto, frontend_eq,
}
use proxybroker_rs.Server.Secrets.{own_lines, relay-secrets, secret_prefix}
use proxybroker_rs.Server.Socks.{Peer, offers, parse_socks5_request}
use proxybroker_rs.Tests.Fixtures.{shown, calm_round, eight, peer, plain, pool_of, tunnel, two}
use proxybroker_rs.Text.{Text, starts_with, text}
use proxybroker_rs.Types.Proto.{Proto, proto_eq, proto_ranked}
use proxybroker_rs.Types.Scheme.{Scheme, scheme_eq}

abbrev head_lines : List Text
head_lines = text "Proxy-Authorization: x" ∷ text "A: 1" ∷ [] ∷ []

abbrev raw_head : Text
raw_head = text "GET / HTTP/1.1\r\nProxy-Authorization: x\r\nA: 1\r\n\r\n"

head-IsCut : IsCut raw_head (text "GET / HTTP/1.1" ∷ head_lines) []
unfolding next_line starts_with ℕ_discrete
head-IsCut =
    cut_more raw_head (text "GET / HTTP/1.1") (text "Proxy-Authorization: x\r\nA: 1\r\n\r\n") _ _
      refl
      (cut_more _ (text "Proxy-Authorization: x") (text "A: 1\r\n\r\n") _ _ refl (
        cut_more _ (text "A: 1") (text "\r\n") _ _ refl
          (cut_more _ [] [] _ _ refl (cut_end [] refl))))

abbrev plain_request : ClientRequest
plain_request = record {
  scheme = Scheme.http;
  frontend = Frontend.http_forward;
  host = text "h";
  port = 80;
  raw = raw_head;
  proxy_auth = none;
  path = text "/";
}

abbrev wire : Dial → Text → Wire
wire dial reply = record {
  dial = dial;
  channel = record {
    sending = taken_whole;
    answers = λ s. as_events reply;
    socks4_shake = λ n port. shaken (as_events reply);
    socks5_shake = λ d port creds. shaken (as_events reply);
    is_server_name = λ s. true;
    tls = shaken;
  };
  resolved = none;
  client_takes = completes;
  upstream_takes = completes;
  splicing = completes;
  spliced = text "hi";
}

abbrev good_wire : Wire
good_wire = wire connected (text "HTTP/1.1 200 OK\r\n")

abbrev one_try : List (Round ℕ) → Try ℕ
one_try rounds = record { rounds = rounds; wire = good_wire; meanwhile = []; now = 3 }

abbrev open_server : ConnCtx
open_server = record { max_tries = 2; expected_auth = none }

abbrev expected : AuthExpect
expected = record { user = text "u"; pass = text "p"; basic = text "Basic dTpw" }

abbrev closed_server : ConnCtx
closed_server = record { max_tries = 2; expected_auth = some expected }

abbrev best_pool : Pool ℕ
best_pool = pool_of two Strategy.best true

-- A stream with a wrong password.
abbrev intruder : Peer
intruder = record {
  incoming = as_events (5 ∷ 1 ∷ 2 ∷ 1 ∷ 1 ∷ 117 ∷ 1 ∷ 113 ∷ []);
  sent = [];
  writes = 9;
}

handle_client-IsWhole_example :
    IsWhole
      (λ n. one_try (calm_round ∷ []))
      2
      plain_request
      (handle_client (λ n. one_try (calm_round ∷ [])) open_server plain_request peer best_pool [])
unfolding proxybroker_rs.Prelude.list_discrete proxybroker_rs.Prelude.ℕ_discrete
handle_client-IsWhole_example =
    handle_client-IsWhole (λ n. one_try (calm_round ∷ [])) open_server plain_request peer best_pool
      [] refl refl

handle_client-Settles_example :
    total
        (handle_client
          (λ n. one_try (calm_round ∷ []))
          open_server
          plain_request
          peer
          best_pool
          []).pool
      + in_use
          (handle_client
            (λ n. one_try (calm_round ∷ []))
            open_server
            plain_request
            peer
            best_pool
            []).fate
    ≡ total best_pool
unfolding total proxybroker_rs.Prelude.list_discrete proxybroker_rs.Prelude.ℕ_discrete
handle_client-Settles_example =
    handle_client-Settles (λ n. one_try (calm_round ∷ [])) open_server plain_request peer best_pool
      [] (λ k. (((refl, refl), tt), refl)) (omega arith) refl

handle_client-ends_example :
    IsDone
      (λ n. one_try eight)
      2
      (handle_client (λ n. one_try eight) open_server plain_request peer best_pool [])
handle_client-ends_example =
    handle_client-ends (λ n. one_try eight) open_server plain_request peer best_pool []
      (λ n. omega arith) refl

handle_connection_lem_example :
    IsAuthorized expected intruder
    ⊎ ((handle_connection (λ n. one_try eight) closed_server intruder peer best_pool []).pool
        ≡ best_pool)
handle_connection_lem_example =
    handle_connection_lem (λ n. one_try eight) closed_server expected intruder peer best_pool []
      refl

relay-secrets_example :
    ((relay good_wire plain Proto.http plain_request none).to_upstream ≡ [])
    ⊎ IsCut
        (relay good_wire plain Proto.http plain_request none).to_upstream
        (text "GET / HTTP/1.1" ∷ own_lines none ++ others secret_prefix head_lines)
        []
relay-secrets_example =
    relay-secrets good_wire plain Proto.http plain_request none (text "GET / HTTP/1.1") head_lines
      [] head-IsCut

relay-unseen_example : (relay (wire refused []) plain Proto.http plain_request none).to_client ≡ []
unfolding relay
relay-unseen_example =
    relay-unseen (wire refused []) plain Proto.http plain_request none conn_failed refl

relay-ShowsAllowed_example :
    ShowsAllowed good_wire plain
      (negotiate good_wire.channel Proto.http (target_of good_wire plain_request) plain.auth)
      (200 ∷ [])
      (relay good_wire plain Proto.http plain_request (some (200 ∷ [])))
unfolding proxybroker_rs.Server.Heads.request_has_body proxybroker_rs.Prelude.ℕ_discrete
relay-ShowsAllowed_example =
    relay-ShowsAllowed good_wire plain Proto.http plain_request (200 ∷ []) refl refl

abbrev tunnel_answer : Text
tunnel_answer = text "HTTP/1.1 200 OK\r\n\r\n"

abbrev after_answer : List Event
after_answer = byte 1 ∷ byte 2 ∷ []

abbrev tunnel_channel : Channel
tunnel_channel = record {
  sending = taken_whole;
  answers = λ s. as_events tunnel_answer ++ after_answer;
  socks4_shake = λ n port. late;
  socks5_shake = λ d port creds. late;
  is_server_name = λ s. true;
  tls = shaken;
}

abbrev tunnel_target : Target
tunnel_target = record { host = text "h"; ip_addr = none; port = 443 }

negotiate-choose_proto_example : is_opaque (plain_stream (as_events tunnel_answer)) ≡ true
unfolding negotiate choose_proto proxybroker_rs.Maps.tree_has ℕ_discrete
negotiate-choose_proto_example =
    negotiate-choose_proto tunnel (wire connected tunnel_answer).channel tunnel_target none
      (plain_stream (as_events tunnel_answer)) refl

strip_header_lem_example :
    IsCut
      (strip_header raw_head (text "a"))
      (text "GET / HTTP/1.1" ∷ others (colon_after (text "a")) head_lines)
      []
strip_header_lem_example =
    strip_header_lem raw_head (text "a") (text "GET / HTTP/1.1") head_lines [] head-IsCut

abbrev remove_request : ClientRequest
remove_request = record plain_request {
  host = text "proxycontrol";
  path = text "http://proxycontrol/api/remove/1.2.3.4:8080";
}

abbrev handshake : Peer
handshake = record {
  incoming = as_events (1 ∷ 2 ∷ 1 ∷ 1 ∷ 117 ∷ 1 ∷ 112 ∷ 5 ∷ 1 ∷ 0 ∷ 3 ∷ 1 ∷ 104 ∷ 0 ∷ 80 ∷ []);
  sent = [];
  writes = 9;
}

abbrev socks_request : ClientRequest
socks_request = record {
  scheme = Scheme.https;
  frontend = Frontend.socks5;
  host = text "h";
  port = 80;
  raw = [];
  proxy_auth = none;
  path = text "h:80";
}

parse_socks5_request_lem_example :
    (methods : Text) × (ver : ℕ) × (rest : List Event) × (handshake.incoming
      ≡ greeting expected methods ver rest)
    × (offers methods 2 ≡ true)
unfolding proxybroker_rs.Server.Socks.parse_socks5_request proxybroker_rs.Prelude.ℕ_discrete
    proxybroker_rs.Prelude.list_discrete
parse_socks5_request_lem_example = parse_socks5_request_lem expected handshake socks_request refl
