-- ===== src/Server/Handler.antt =====
-- src/server.rs: `handle_client`, with the history that it keeps and the control requests that it
-- answers itself.
use proxybroker_rs.Float.{Float, nat_float}
use proxybroker_rs.Maps.{HashMap, hash_get, hash_has, hash_insert}
use proxybroker_rs.Net.{IpAddr, addr_eq, ip_eq}
use proxybroker_rs.Pool.Get.{Lease, Round, get, leased, no_proxy, waiting}
use proxybroker_rs.Pool.State.{
  ClientKey, Pool, client_key_eq, put_failed, put_ok, remove, strategy_eq, u64_mod,
}
use proxybroker_rs.Pool.Steps.{PoolOp, act_all}
use proxybroker_rs.Prelude.{
  Bool, List, Option, [], false, if◌then◌else◌, is_some, leb, length, ltb, none, not, some, suc,
  true, zero, ℕ, ◌%◌, ◌&&◌, ◌++◌, ◌+◌, ◌∷◌,
}
use proxybroker_rs.Prelude.Equality.{list_eq, nat_eq, ◌==◌}
use proxybroker_rs.Proxy.Record.{Proxy, record_attempt}
use proxybroker_rs.Server.Heads.{split_host_port}
use proxybroker_rs.Server.Relay.{RelayOutcome, RelayRun, Wire, relay}
use proxybroker_rs.Server.Requests.{
  AuthExpect, ClientRequest, Frontend, IpText, choose_proto, client_key, control_remove_allowed,
  frontend_eq, terminal_failure,
}
use proxybroker_rs.Text.{Text, splitn, strip_prefix, text, trim_start_byte}
use proxybroker_rs.Text.Decimal.{show}

abbrev pub History : Type 0
History = HashMap Text Text

abbrev pub history_cap : ℕ
history_cap = 10_000

-- `History::record`: a full map is emptied first.
unfoldable pub record_history : ℕ → Text → Text → History → History
unfolding hash_has hash_insert
record_history limit key proxy m =
    hash_insert key proxy (if leb limit (length m) && not (hash_has key m) then [] else m)

-- What the environment does during one try: the rounds of `get`, the relay, what other tasks do to
-- the pool meanwhile, and the clock when the proxy is put back.
pub record Try (F : Type 0) : Type 0 where
  pub rounds : List (Round F)
  pub wire : Wire
  pub meanwhile : List (PoolOp F)
  pub now : ℕ

-- A handler has finished, still waits in `get`, or is in a relay that never ends. The writes of
-- the handler's own short answers are taken to end.
pub data Fate : Type 0 where
  finished hanging relaying : Fate

pub record Served (F : Type 0) : Type 0 where
  pub fate : Fate
  pub pool : Pool F
  pub history : History
  pub sent : Text

pub record ConnCtx : Type 0 where
  pub max_tries : ℕ
  pub expected_auth : Option AuthExpect

abbrev pub auth_required : Text
auth_required =
    text
      "HTTP/1.1 407 Proxy Authentication Required\r\nProxy-Authenticate: Basic realm=\"proxybroker\"\r\n\r\n"

abbrev pub no_content : Text
no_content = text "HTTP/1.1 204 No Content\r\n\r\n"

abbrev pub forbidden : Text
forbidden = text "HTTP/1.1 403 Forbidden\r\nContent-Length: 0\r\n\r\n"

abbrev history_body : Text → Text
history_body proxy = text "{\"proxy\": \"" ++ proxy ++ text "\"}\r\n"

abbrev pub history_reply : Option Text → Text
history_reply none = no_content
history_reply (some proxy) =
    text "HTTP/1.1 200 OK\r\nContent-Type: application/json\r\nContent-Length: "
    ++ show (length (history_body proxy))
    ++ text "\r\nAccess-Control-Allow-Origin: *\r\nAccess-Control-Allow-Credentials: true\r\n\r\n"
    ++ history_body proxy

abbrev text_or : Text → Option Text → Text
text_or d none = d
text_or d (some s) = s

-- The client is refused for want of credentials; SOCKS5 has its own.
abbrev pub auth_missing : Option AuthExpect → ClientRequest → Bool
auth_missing none req = false
auth_missing (some expected) req =
    not (req.frontend == Frontend.socks5)
    && elim req.proxy_auth [ none ↦ true | some got ↦ not (got == expected.basic) ]

-- The pieces of a control path after its authority.
abbrev pub control_parts : Text → List Text
control_parts path =
    splitn 2 b'/'
      (trim_start_byte b'/' (text_or path (strip_prefix (text "http://proxycontrol") path)))

abbrev pub history_key : ⦃t : IpText⦄ → IpAddr → Text → Text
history_key ⦃t⦄ peer path = t.show_ip peer ++ b'-' ∷ path

abbrev history_answer : ⦃t : IpText⦄ → Text → History → IpAddr → Text
history_answer params history peer =
    history_reply
      (hash_get (history_key peer (text_or [] (strip_prefix (text "url:") params))) history)

module _ {F : Type 0} ⦃t : IpText⦄ where
  abbrev removed : Pool F → Option IpAddr → ℕ → Pool F
  removed pool none port = pool
  removed pool (some host) port = (remove pool host port).0

  abbrev remove_named : Pool F → Text → Pool F
  remove_named pool params =
      let (host, port) = split_host_port params 0 in removed pool (t.parse_ip host) port

  abbrev pub control : List Text → Pool F → History → IpAddr → Bool → Pool F × Text
  control (api ∷ operation ∷ params ∷ []) pool history peer remove_allowed =
      if operation == text "remove"
      then if remove_allowed then (remove_named pool params, no_content) else (pool, forbidden)
      else if operation == text "history"
      then (pool, history_answer params history peer)
      else (pool, no_content)
  control _ pool history peer remove_allowed = (pool, no_content)

  unfoldable pub serve_control : ClientRequest → Pool F → History → IpAddr → Bool → Pool F × Text
  unfolding splitn trim_start_byte strip_prefix split_host_port hash_get show
  serve_control req pool history peer remove_allowed =
      control (control_parts req.path) pool history peer remove_allowed

  abbrev pub upstream_name : Proxy F → Text
  upstream_name p = t.show_ip p.host ++ b':' ∷ show p.port

module _ {F : Type 0} ⦃f : Float F⦄ ⦃t : IpText⦄ where
  abbrev pub end_with : Fate → Pool F → History → Text → Served F
  end_with fate pool history sent = record {
    fate = fate;
    pool = pool;
    history = history;
    sent = sent;
  }

  abbrev pub count_rotation : ℕ → Pool F → Pool F
  count_rotation attempt pool =
      if ltb 0 attempt then record pool { rotations = (pool.rotations + 1) % u64_mod } else pool

  -- The end of a try, by its outcome; `again` is the rest of the loop.
  abbrev pub on_outcome :
      (Pool F → Served F)
      → Pool F
      → History
      → Text
      → Proxy F
      → ℕ
      → Text
      → Option RelayOutcome
      → Served F
  on_outcome again pool history key p now sent none = end_with relaying pool history sent
  on_outcome again pool history key p now sent (some RelayOutcome.ok) =
      end_with finished (put_ok pool (record_attempt p (some f.zero_f) none))
        (record_history history_cap key (upstream_name p) history) sent
  on_outcome again pool history key p now sent (some (RelayOutcome.retryable_failure e)) =
      let rest = again (put_failed pool (record_attempt p none (some e)) now) in
      record rest { sent = sent ++ rest.sent }
  on_outcome again pool history key p now sent (some (RelayOutcome.client_committed e)) =
      end_with finished (put_failed pool (record_attempt p none (some e)) now) history sent
  on_outcome again pool history key p now sent (some RelayOutcome.client_gone) =
      end_with finished (put_ok pool (record_attempt p (some f.zero_f) none)) history sent

  unfoldable pub relay_for : Try F → ClientRequest → Pool F → Proxy F → RelayRun
  unfolding relay choose_proto
  relay_for a req pool p =
      relay a.wire p (choose_proto p req.scheme) req pool.config.http_allowed_codes

  abbrev pub on_lease :
      (Pool F → Served F)
      → Try F
      → ℕ
      → ClientRequest
      → IpAddr
      → History
      → Lease F × Pool F
      → Served F
  on_lease again a attempt req peer history (no_proxy, left) =
      end_with finished left history (terminal_failure req.frontend)
  on_lease again a attempt req peer history (waiting, left) = end_with hanging left history []
  on_lease again a attempt req peer history (leased p, left) =
      let run = relay_for a req left p in
      on_outcome again (act_all (count_rotation attempt left) a.meanwhile) history
        (history_key peer req.path) p a.now run.to_client run.outcome

  -- The loop over the tries: how many are left, and the number of the next one.
  unfoldable pub try_from :
      (ℕ → Try F) → ℕ → ℕ → ClientRequest → IpAddr → ClientKey → Pool F → History → Served F
  unfolding get relay_for record_history put_ok put_failed record_attempt show
  try_from env zero attempt req peer key pool history =
      end_with finished pool history (terminal_failure req.frontend)
  try_from env (suc n) attempt req peer key pool history =
      on_lease (λ q. try_from env n (attempt + 1) req peer key q history) (env attempt) attempt req
        peer history (get (env attempt).rounds req.scheme key pool)

  unfoldable pub handle_client :
      (ℕ → Try F) → ConnCtx → ClientRequest → IpAddr → Pool F → History → Served F
  unfolding try_from serve_control client_key control_remove_allowed
  handle_client env ctx req peer pool history =
      let controlled =
        serve_control req pool history peer
          (control_remove_allowed (is_some ctx.expected_auth) peer) in
      if auth_missing ctx.expected_auth req
      then end_with finished pool history auth_required
      else if req.host == text "proxycontrol"
      then end_with finished controlled.0 history controlled.1
      else try_from env ctx.max_tries 0 req peer (client_key pool.config peer req) pool history
