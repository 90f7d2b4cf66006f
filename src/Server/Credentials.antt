-- ===== src/Server/Credentials.antt =====
-- The header of an HTTP request that `parse_client_request` in src/server.rs takes the credentials
-- from.
use proxybroker_rs.Prelude.{
  Bool, In, In-keep, List, Option, Option-cases, [], ap, drop, head?, if-cases, inl, inr, keep,
  none, some, subst, sym, true, ◌∙◌, ◌∷◌, ◌≡◌,
}
use proxybroker_rs.Server.Heads.{header_value, is_named}
use proxybroker_rs.Server.Requests.{
  AuthExpect, ClientRequest, authority, connect_request, forward_request, frontend_eq, host_header,
  parse_head, request_of,
}
use proxybroker_rs.Text.{Text, lines, lowercase, same_letters, strip_prefix, text, trim, words}

-- A header line of the head, whatever the case of its name, with the expected value.
abbrev pub HeadShows : AuthExpect → Text → Type 0
HeadShows exp buf =
    (line : Text) × In line (drop 1 (lines buf))
    × (is_named (text "proxy-authorization:") line ≡ true)
    × (trim (drop 20 line) ≡ exp.basic)

head?-In :
    {A : Type 0} (p : A → Bool) (xs : List A) (a : A)
    → head? (keep p xs) ≡ some a
    → In a xs × (p a ≡ true)
head?-In p xs a e = In-keep p a xs (first_in (keep p xs) a e)
  where
    first_in : {A : Type 0} (ys : List A) (a : A) → head? ys ≡ some a → In a ys
    first_in [] a e = cc e
    first_in (y ∷ ys) a e = inl (cc e)

header_value-HeadShows :
    (exp : AuthExpect) (buf : Text)
    → header_value buf (text "Proxy-Authorization") ≡ some exp.basic
    → HeadShows exp buf
unfolding header_value lowercase
header_value-HeadShows exp buf e =
    let named = is_named (text "proxy-authorization:") in
    elim (Option-cases (head? (keep named (drop 1 (lines buf))))) [
      | inl nothing ↦ cc (rw nothing at e)
      | inr (line, found) ↦
          let (held, matches) = head?-In named (drop 1 (lines buf)) line found in
          (line, held, matches, cc (rw found at e))
    ]

-- The credentials that a request carries.
abbrev Carries : Option Text → Option ClientRequest → Type 0
Carries auth o = (req : ClientRequest) → o ≡ some req → req.proxy_auth ≡ auth

auth_of : Option Text → Option ClientRequest → Option Text
auth_of d none = d
auth_of d (some req) = req.proxy_auth

Carries-some : (req : ClientRequest) → Carries req.proxy_auth (some req)
unfolding auth_of
Carries-some req req' e = sym (ap (auth_of none) e)

forward_request-Carries :
    (buf uri : Text) (auth o : Option Text) → Carries auth (forward_request buf uri auth o)
forward_request-Carries buf uri auth none req e = cc e
forward_request-Carries buf uri auth (some host_port) req e = Carries-some _ req e

request_of-Carries :
    (buf : Text) (ws headers : List Text)
    → Carries (header_value buf (text "Proxy-Authorization")) (request_of buf ws headers)
request_of-Carries buf [] headers = λ req e. cc e
request_of-Carries buf (method ∷ []) headers = λ req e. cc e
request_of-Carries buf (method ∷ uri ∷ ws) headers =
    let auth = header_value buf (text "Proxy-Authorization") in
    let plain =
      forward_request buf uri auth
        (authority (strip_prefix (text "http://") uri) (host_header headers)) in
    elim (if-cases (same_letters method (text "CONNECT")) (some (connect_request uri auth)) plain) [
      | inl (_, e) ↦ subst (Carries auth) (sym e) (Carries-some (connect_request uri auth))
      | inr (_, e) ↦ subst (Carries auth) (sym e) (forward_request-Carries buf uri auth _)
    ]

lines-Carries :
    (buf : Text) (ls : List Text)
    → Carries
        (header_value buf (text "Proxy-Authorization"))
        (elim ls [ [] ↦ none | first ∷ headers ↦ request_of buf (words first) headers ])
lines-Carries buf [] = λ req e. cc e
lines-Carries buf (first ∷ headers) = request_of-Carries buf (words first) headers

-- A request that has been parsed with the expected credentials has them in its head.
pub parse_head-HeadShows :
    (exp : AuthExpect) (buf : Text) (req : ClientRequest)
    → parse_head buf ≡ some req
    → req.proxy_auth ≡ some exp.basic
    → HeadShows exp buf
unfolding parse_head
parse_head-HeadShows exp buf req parsed shown_auth =
    header_value-HeadShows exp buf (sym (lines-Carries buf (lines buf) req parsed) ∙ shown_auth)
