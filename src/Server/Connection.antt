-- ===== src/Server/Connection.antt =====
-- src/server.rs: `parse_client_request`, and `handle_client` from the first byte of a client on.
use proxybroker_rs.Float.{Float, nat_float}
use proxybroker_rs.Net.{IpAddr, addr_eq, ip_eq}
use proxybroker_rs.Pool.State.{Pool, client_key_eq, strategy_eq}
use proxybroker_rs.Prelude.{Option, [], drop, if◌then◌else◌, length, none, some, ℕ, ◌++◌, ◌-◌, ◌∷◌}
use proxybroker_rs.Prelude.Equality.{list_eq, nat_eq, ◌==◌}
use proxybroker_rs.Server.Handler.{ConnCtx, History, Served, Try, end_with, finished, handle_client}
use proxybroker_rs.Server.Requests.{
  AuthExpect, ClientRequest, IpText, frontend_eq, parse_head, read_head,
}
use proxybroker_rs.Server.Socks.{Peer, Talk, at_place, parse_socks5_request, read_exact, ◌>>=◌}
use proxybroker_rs.Text.{Text}

abbrev pub http_parsed : Option Text → Option ClientRequest
http_parsed none = none
http_parsed (some buf) = parse_head buf

-- The HTTP half, after the first byte. What has been read is gone from the stream.
abbrev pub http_request : ℕ → Talk ClientRequest
http_request c s =
    let head = read_head (c ∷ []) s.incoming in
    (
      http_parsed head,
      record s { incoming = elim head [ none ↦ [] | some buf ↦ drop (length buf - 1) s.incoming ] },
    )

module _ ⦃t : IpText⦄ where
  unfoldable pub parse_client_request : Option AuthExpect → Talk ClientRequest
  unfolding read_exact parse_socks5_request read_head parse_head
  parse_client_request expected = do
    first ← read_exact 1
    if at_place first 0 == 5 then parse_socks5_request expected else http_request (at_place first 0)

module _ {F : Type 0} ⦃f : Float F⦄ ⦃t : IpText⦄ where
  -- The handler once the client's request is there, or not.
  abbrev pub after_parse :
      (ℕ → Try F) → ConnCtx → IpAddr → Pool F → History → Option ClientRequest × Peer → Served F
  after_parse env ctx peer pool history (none, s) = end_with finished pool history s.sent
  after_parse env ctx peer pool history (some req, s) =
      let served = handle_client env ctx req peer pool history in
      record served { sent = s.sent ++ served.sent }

  unfoldable pub handle_connection :
      (ℕ → Try F) → ConnCtx → Peer → IpAddr → Pool F → History → Served F
  unfolding parse_client_request handle_client
  handle_connection env ctx s peer pool history =
      after_parse env ctx peer pool history (parse_client_request ctx.expected_auth s)
