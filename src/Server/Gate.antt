-- ===== src/Server/Gate.antt =====
-- On a server with credentials, who reaches the pool.
-- The client has shown the credentials: in the header of an HTTP request, or in the login of a
-- SOCKS5 handshake at the start of its stream.
use proxybroker_rs.Float.{Float, nat_float}
use proxybroker_rs.Net.{IpAddr, addr_eq, ip_eq}
use proxybroker_rs.Pool.State.{Pool, client_key_eq, strategy_eq}
use proxybroker_rs.Prelude.{
  Bool-cases, List, Option, Option-cases, [], ap, arith, false, if-cases, inl, inr, none, refl,
  some, subst, sym, true, ℕ, ◌++◌, ◌∙◌, ◌∷◌, ◌≡◌, ◌⊎◌,
}
use proxybroker_rs.Prelude.Equality.{==_iff, list_eq, nat_eq, ◌==◌}
use proxybroker_rs.Server.Answers.{handle_client-refused}
use proxybroker_rs.Server.Connection.{
  after_parse, handle_connection, http_parsed, parse_client_request,
}
use proxybroker_rs.Server.Credentials.{HeadShows, parse_head-HeadShows}
use proxybroker_rs.Server.Handler.{ConnCtx, History, Try, auth_missing, handle_client}
use proxybroker_rs.Server.Heads.{header_value}
use proxybroker_rs.Server.Login.{
  as_events, bind-some, greeting, one_byte, parse_socks5_request_lem, read_exact-some,
}
use proxybroker_rs.Server.Requests.{
  AuthExpect, ClientRequest, Event, Frontend, Frontend-discrete, IpText, authority, byte,
  connect_request, forward_request, frontend_eq, host_header, parse_head, read_head, request_of,
}
use proxybroker_rs.Server.Socks.{Peer, at_place, offers, read_exact}
use proxybroker_rs.Text.{Text, lines, same_letters, strip_prefix, text, words}

-- The stream begins with an HTTP head that has the header.
abbrev ShowsHeader : AuthExpect → List Event → Type 0
ShowsHeader exp es =
    (c : ℕ) × (later : List Event) × (buf : Text) × (es ≡ byte c ∷ later)
    × ((c == 5) ≡ false)
    × (read_head (c ∷ []) later ≡ some buf)
    × HeadShows exp buf

-- The stream begins with a SOCKS5 handshake that has the login.
abbrev ShowsLogin : AuthExpect → List Event → Type 0
ShowsLogin exp es =
    (methods : Text) × (ver : ℕ) × (rest : List Event) × (es
      ≡ byte 5 ∷ greeting exp methods ver rest)
    × (offers methods 2 ≡ true)

abbrev pub IsAuthorized : AuthExpect → Peer → Type 0
IsAuthorized exp s = ShowsHeader exp s.incoming ⊎ ShowsLogin exp s.incoming

abbrev front_of : Option ClientRequest → Frontend
front_of none = Frontend.http_forward
front_of (some req) = req.frontend

-- No request of SOCKS5.
abbrev IsHttp : Option ClientRequest → Type 0
IsHttp o = (front_of o == Frontend.socks5) ≡ false

forward_request-IsHttp :
    (buf uri : Text) (auth o : Option Text) → IsHttp (forward_request buf uri auth o)
unfolding Frontend-discrete
forward_request-IsHttp buf uri auth none = refl
forward_request-IsHttp buf uri auth (some host_port) = refl

request_of-IsHttp : (buf : Text) (ws headers : List Text) → IsHttp (request_of buf ws headers)
unfolding Frontend-discrete
request_of-IsHttp buf [] headers = refl
request_of-IsHttp buf (method ∷ []) headers = refl
request_of-IsHttp buf (method ∷ uri ∷ ws) headers =
    let auth = header_value buf (text "Proxy-Authorization") in
    let plain =
      forward_request buf uri auth
        (authority (strip_prefix (text "http://") uri) (host_header headers)) in
    elim (if-cases (same_letters method (text "CONNECT")) (some (connect_request uri auth)) plain) [
      | inl (_, e) ↦ subst IsHttp (sym e) refl
      | inr (_, e) ↦ subst IsHttp (sym e) (forward_request-IsHttp buf uri auth _)
    ]

lines-IsHttp :
    (buf : Text) (ls : List Text)
    → IsHttp (elim ls [ [] ↦ none | first ∷ headers ↦ request_of buf (words first) headers ])
unfolding Frontend-discrete
lines-IsHttp buf [] = refl
lines-IsHttp buf (first ∷ headers) = request_of-IsHttp buf (words first) headers

http_parsed-IsHttp : (o : Option Text) → IsHttp (http_parsed o)
unfolding Frontend-discrete parse_head
http_parsed-IsHttp none = refl
http_parsed-IsHttp (some buf) = lines-IsHttp buf (lines buf)

shown_basic :
    (exp : AuthExpect) (req : ClientRequest)
    → auth_missing (some exp) req ≡ false
    → (req.frontend == Frontend.socks5) ≡ false
    → req.proxy_auth ≡ some exp.basic
shown_basic exp req let_in plain = elim (Option-cases req.proxy_auth) [
  | inl nothing ↦ ground (arith, let_in, plain, nothing)
  | inr (got, e) ↦ ground (arith, let_in, plain, e, ==_iff got exp.basic)
]

-- A request that a connection of an HTTP client has yielded with the credentials shown, or one
-- that is refused.
http_gate :
    {F : Type 0} ⦃f : Float F⦄ ⦃t : IpText⦄ (env : ℕ → Try F) (ctx : ConnCtx) (exp : AuthExpect)
    (req : ClientRequest) (peer : IpAddr) (pool : Pool F) (history : History)
    → ctx.expected_auth ≡ some exp
    → (req.frontend == Frontend.socks5) ≡ false
    → (req.proxy_auth ≡ some exp.basic)
      ⊎ ((handle_client env ctx req peer pool history).pool ≡ pool)
http_gate env ctx exp req peer pool history known plain =
    elim (Bool-cases (auth_missing (some exp) req)) [
      | inl missing ↦ inr (
          ap (λ s. s.pool)
            (handle_client-refused env ctx req peer pool history
              (subst (λ (o : Option AuthExpect). auth_missing o req ≡ true) (sym known) missing)))
      | inr let_in ↦ inl (shown_basic exp req let_in plain)
    ]

-- A request of an HTTP client comes from a head that has been read.
http_parsed-some :
    (o : Option Text) (req : ClientRequest)
    → http_parsed o ≡ some req
    → (buf : Text) × (o ≡ some buf) × (parse_head buf ≡ some req)
http_parsed-some none req e = cc e
http_parsed-some (some buf) req e = (buf, refl, e)

module _ {F : Type 0} ⦃f : Float F⦄ ⦃t : IpText⦄ where
  request_gate :
      (env : ℕ → Try F) (ctx : ConnCtx) (exp : AuthExpect) (s : Peer) (peer : IpAddr)
      (pool : Pool F) (history : History) (req : ClientRequest)
      → ctx.expected_auth ≡ some exp
      → (parse_client_request (some exp) s).0 ≡ some req
      → IsAuthorized exp s ⊎ ((handle_client env ctx req peer pool history).pool ≡ pool)
  unfolding parse_client_request
  request_gate env ctx exp s peer pool history req known parsed =
      let (first, h, k) = bind-some (read_exact 1) _ s req parsed in
      let s1 = (read_exact 1 s).1 in
      let (split', size) = read_exact-some 1 s first h in
      let begins = split' ∙ ap (λ (bs : Text). as_events bs ++ s1.incoming) (one_byte first size) in
      elim (Bool-cases (at_place first 0 == 5)) [
        | inl five ↦
            let (methods, ver, rest, sent, offered) =
              parse_socks5_request_lem exp s1 req (rw five at k) in
            let whole =
              begins
              ∙ ap (λ (c : ℕ). byte c ∷ s1.incoming) ((==_iff (at_place first 0) 5).0 five)
              ∙ ap (λ (i : List Event). byte 5 ∷ i) sent in
            inl (inr (methods, ver, rest, whole, offered))
        | inr other ↦
            let (buf, head, parsed_head) = http_parsed-some _ req (rw other at k) in
            let plain = subst IsHttp (rw other at k) (http_parsed-IsHttp _) in
            elim (http_gate env ctx exp req peer pool history known plain) [
              | inl same_auth ↦ inl (
                  inl (
                    at_place first 0,
                    s1.incoming,
                    buf,
                    begins,
                    other,
                    head,
                    parse_head-HeadShows exp buf req parsed_head same_auth,
                  ))
              | inr same ↦ inr same
            ]
      ]

  after_gate :
      (env : ℕ → Try F) (ctx : ConnCtx) (exp : AuthExpect) (s : Peer) (peer : IpAddr)
      (pool : Pool F) (history : History) (r : Option ClientRequest × Peer)
      → ((req : ClientRequest)
          → r.0 ≡ some req
          → IsAuthorized exp s ⊎ ((handle_client env ctx req peer pool history).pool ≡ pool))
      → IsAuthorized exp s ⊎ ((after_parse env ctx peer pool history r).pool ≡ pool)
  after_gate env ctx exp s peer pool history (none, left) gate = inr refl
  after_gate env ctx exp s peer pool history (some req, left) gate = gate req refl

  -- On a server with credentials, a connection leaves the pool as it was unless the client's stream
  -- begins with the credentials: an HTTP head with a header line that is named
  -- `Proxy-Authorization`, in any letter case, and has exactly the expected value but for white
  -- space around it, or a SOCKS5 greeting that offers the password method, followed at once by
  -- exactly the expected login.
  pub handle_connection_lem :
      (env : ℕ → Try F) (ctx : ConnCtx) (exp : AuthExpect) (s : Peer) (peer : IpAddr)
      (pool : Pool F) (history : History)
      → ctx.expected_auth ≡ some exp
      → IsAuthorized exp s ⊎ ((handle_connection env ctx s peer pool history).pool ≡ pool)
  unfolding handle_connection
  handle_connection_lem env ctx exp s peer pool history known =
      let same = ap (λ (o : Option AuthExpect). parse_client_request o s) known in
      after_gate env ctx exp s peer pool history (parse_client_request ctx.expected_auth s) λ req e.
        request_gate env ctx exp s peer pool history req known
          (sym (ap (λ (r : Option ClientRequest × Peer). r.0) same) ∙ e)
