-- ===== src/Server/Secrets.antt =====
-- `relay`: which header lines an upstream proxy gets.
use proxybroker_rs.Negotiator.Handshakes.{Negotiated, negotiate}
use proxybroker_rs.Prelude.{
  All, All-append, In-All, In-get_elem?, List, Option, [], all, ap, arith, get_elem?-lt, inl, inr,
  ltb, none, refl, some, subst, sym, take, true, ℕ, ◌%◌, ◌++◌, ◌<◌, ◌∷◌, ◌≡◌, ◌⊎◌,
}
use proxybroker_rs.Proxy.Record.{Credentials, Proxy}
use proxybroker_rs.Server.Headers.{IsCut, inject_header_lem, others, strip_header_lem}
use proxybroker_rs.Server.Heads.{
  alphabet, base64_encode, colon_after, next_line, or_zero, places, sextet, sextets,
}
use proxybroker_rs.Server.Relay.{
  Dial, RelayRun, StatusLine, Wire, acknowledge, answer, connect_ack, connected, dialled, events_of,
  forward, negotiated, on_status, proxy_info, read_status_line, refused, relay, sanitized_for,
  socks_success, target_of, timed_out, with_credentials,
}
use proxybroker_rs.Server.Requests.{ClientRequest, Event, Frontend, IpText, frontend_eq}
use proxybroker_rs.Text.{Text, starts_with, text}
use proxybroker_rs.Types.Proto.{Proto, proto_eq, proto_ranked}

abbrev pub secret_prefix : Text
secret_prefix = colon_after (text "Proxy-Authorization")

-- A number above that of a carriage return.
abbrev Above : ℕ → Type 0
Above c = 13 < c

Above-next_line : (s : Text) → All Above s → next_line s ≡ none
unfolding next_line starts_with
Above-next_line [] h = refl
Above-next_line (c ∷ s) h = ground (arith, Above-next_line s h.1)

all-Above : (s : Text) → all (λ c. ltb 13 c) s ≡ true → All Above s
all-Above [] h = tt
all-Above (c ∷ s) h = ground (arith, all-Above s)

alphabet-Above : All Above alphabet
alphabet-Above = all-Above alphabet refl

sextet-Above : (n : ℕ) → Above (sextet n)
unfolding sextet
sextet-Above n =
    let (c, found) = get_elem?-lt alphabet (n % 64) (omega arith) in
    subst Above (sym (ap or_zero found))
      (In-All Above c alphabet alphabet-Above (In-get_elem? c alphabet (n % 64) found))

sextets-Above : (ns : List ℕ) → All Above (sextets ns)
unfolding sextets
sextets-Above [] = tt
sextets-Above (n ∷ ns) = (sextet-Above n, sextets-Above ns)

base64_encode-Above : (s : Text) → All Above (base64_encode s)
unfolding base64_encode
base64_encode-Above [] = tt
base64_encode-Above (a ∷ []) =
    let ns = take 2 (places a 0 0) in
    All-append Above (sextets ns) (text "==") (sextets-Above ns) (all-Above (text "==") refl)
base64_encode-Above (a ∷ b ∷ []) =
    let ns = take 3 (places a b 0) in
    All-append Above (sextets ns) (text "=") (sextets-Above ns) (all-Above (text "=") refl)
base64_encode-Above (a ∷ b ∷ c ∷ s) =
    let ns = places a b c in
    All-append Above (sextets ns) (base64_encode s) (sextets-Above ns) (base64_encode-Above s)

-- The proxy's own credentials, as a header line.
abbrev pub own_line : Credentials → Text
own_line c = text "Proxy-Authorization: Basic " ++ base64_encode (c.username ++ b':' ∷ c.password)

own_line-clean : (c : Credentials) → next_line (own_line c) ≡ none
own_line-clean c = Above-next_line (own_line c) (
    All-append Above (text "Proxy-Authorization: Basic ") _
      (all-Above (text "Proxy-Authorization: Basic ") refl) (base64_encode-Above _))

-- The header lines of the proxy's credentials, if it has any.
abbrev pub own_lines : Option Credentials → List Text
own_lines none = []
own_lines (some c) = own_line c ∷ []

with_credentials-IsCut :
    (sanitized : Text) (o : Option Credentials) (line : Text) (ls : List Text) (tail : Text)
    → IsCut sanitized (line ∷ ls) tail
    → IsCut (with_credentials sanitized o) (line ∷ own_lines o ++ ls) tail
with_credentials-IsCut sanitized none line ls tail cut = cut
with_credentials-IsCut sanitized (some c) line ls tail cut =
    inject_header_lem sanitized (own_line c) line ls tail cut (own_line-clean c)

on_status-upstream :
    (w : Wire) (allowed : Option (List ℕ)) (info request : Text) (line : StatusLine)
    → (on_status w allowed info request line).to_upstream ≡ request
unfolding on_status
on_status-upstream w allowed info request line = ground arith

acknowledge-upstream : (w : Wire) (ack : Text) → (acknowledge w ack).to_upstream ≡ []
acknowledge-upstream w ack = ground arith

module _ {F : Type 0} ⦃t : IpText⦄ where
  -- A forwarded request has the request line of the client, then the proxy's own
  -- `Proxy-Authorization` if it has credentials, then the client's other header lines, each ended
  -- by a CRLF, in their order without those of `Proxy-Authorization` in any letter case, and the
  -- client's tail.
  pub sanitized_for-IsCut :
      (p : Proxy F) (raw line : Text) (ls : List Text) (tail : Text)
      → IsCut raw (line ∷ ls) tail
      → IsCut (sanitized_for p raw) (line ∷ own_lines p.auth ++ others secret_prefix ls) tail
  unfolding sanitized_for
  sanitized_for-IsCut p raw line ls tail cut =
      with_credentials-IsCut _ p.auth line _ tail
        (strip_header_lem raw (text "Proxy-Authorization") line ls tail cut)

  -- The proxy got nothing of the request, or what is sanitized for it.
  abbrev IsSanitized : Proxy F → Text → RelayRun → Type 0
  IsSanitized p raw run = (run.to_upstream ≡ []) ⊎ (run.to_upstream ≡ sanitized_for p raw)

  forward-upstream :
      (w : Wire) (p : Proxy F) (req : ClientRequest) (allowed : Option (List ℕ))
      (reply : List Event)
      → (forward w p req allowed reply).to_upstream ≡ sanitized_for p req.raw
  unfolding forward
  forward-upstream w p req allowed reply = ground (
    arith,
    on_status-upstream w allowed (proxy_info p) (sanitized_for p req.raw) (read_status_line reply),
  )

  answer-IsSanitized :
      (w : Wire) (p : Proxy F) (req : ClientRequest) (allowed : Option (List ℕ))
      (reply : List Event) (front : Frontend)
      → IsSanitized p req.raw (answer w p req allowed reply front)
  answer-IsSanitized w p req allowed reply Frontend.http_connect =
      inl (acknowledge-upstream w (connect_ack p))
  answer-IsSanitized w p req allowed reply Frontend.socks5 =
      inl (acknowledge-upstream w socks_success)
  answer-IsSanitized w p req allowed reply Frontend.http_forward =
      inr (forward-upstream w p req allowed reply)

  negotiated-IsSanitized :
      (w : Wire) (p : Proxy F) (req : ClientRequest) (allowed : Option (List ℕ)) (o : Negotiated)
      → IsSanitized p req.raw (negotiated w p req allowed o)
  negotiated-IsSanitized w p req allowed (inl e) = inl refl
  negotiated-IsSanitized w p req allowed (inr stream) =
      answer-IsSanitized w p req allowed (events_of stream) req.frontend

  dialled-IsSanitized :
      (w : Wire) (p : Proxy F) (proto : Proto) (req : ClientRequest) (allowed : Option (List ℕ))
      (d : Dial)
      → IsSanitized p req.raw (dialled w p proto req allowed d)
  dialled-IsSanitized w p proto req allowed timed_out = inl refl
  dialled-IsSanitized w p proto req allowed refused = inl refl
  dialled-IsSanitized w p proto req allowed connected =
      negotiated-IsSanitized w p req allowed (negotiate w.channel proto (target_of w req) p.auth)

  relay-IsSanitized :
      (w : Wire) (p : Proxy F) (proto : Proto) (req : ClientRequest) (allowed : Option (List ℕ))
      → IsSanitized p req.raw (relay w p proto req allowed)
  unfolding relay
  relay-IsSanitized w p proto req allowed = dialled-IsSanitized w p proto req allowed w.dial

  -- What a proxy gets of a buffered request, if anything, is the client's head with its header
  -- lines in their order, but without those that begin with `Proxy-Authorization:` in any letter
  -- case, and with the proxy's own credentials, if it has any, after the request line; what follows
  -- the last CRLF is as it was. A line here ends at a CRLF: one that a bare LF ends is a part of the
  -- line around it, and is kept or dropped with that line.
  pub relay-secrets :
      (w : Wire) (p : Proxy F) (proto : Proto) (req : ClientRequest) (allowed : Option (List ℕ))
      (line : Text) (ls : List Text) (tail : Text)
      → IsCut req.raw (line ∷ ls) tail
      → ((relay w p proto req allowed).to_upstream ≡ [])
        ⊎ IsCut
            (relay w p proto req allowed).to_upstream
            (line ∷ own_lines p.auth ++ others secret_prefix ls)
            tail
  relay-secrets w p proto req allowed line ls tail cut =
      elim (relay-IsSanitized w p proto req allowed) [
        | inl none_sent ↦ inl none_sent
        | inr sent ↦ inr (
            subst (λ (s : Text). IsCut s (line ∷ own_lines p.auth ++ others secret_prefix ls) tail)
              (sym sent) (sanitized_for-IsCut p req.raw line ls tail cut))
      ]
