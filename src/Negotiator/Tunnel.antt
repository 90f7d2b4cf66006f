-- ===== src/Negotiator/Tunnel.antt =====
-- `http_connect`: what has been read when the tunnel is there.
use proxybroker_rs.Negotiator.Handshakes.{
  http_connect, Channel, Sending, Target, after_send, broken, connect_bytes, stalled, taken_whole,
  with_status,
}
use proxybroker_rs.Proxy.Record.{Credentials}
use proxybroker_rs.Negotiator.Head.{HeadRead, ends_blank, head_cap, read_proxy_head}
use proxybroker_rs.Prelude.{
  Bool-cases, List, Option, [], ap, inl, inr, is_empty, length, ltb, refl, subst, subst₂, sym, true,
  ℕ, ◌++◌, ◌∙◌, ◌∷◌, ◌≡◌,
}
use proxybroker_rs.Prelude.Equality.{==_iff, list_eq, nat_eq, ◌==◌}
use proxybroker_rs.Server.Heads.{get_status_code}
use proxybroker_rs.Server.Login.{as_events}
use proxybroker_rs.Server.Requests.{Event, byte, closed, failed, frontend_eq}
use proxybroker_rs.Text.{Text}

append-snoc : (s : Text) (c : ℕ) (more : Text) → (s ++ c ∷ []) ++ more ≡ s ++ (c ∷ more)
append-snoc [] c more = refl
append-snoc (b ∷ s) c more = ap (λ (l : Text). b ∷ l) (append-snoc s c more)

-- A head that has been read: the bytes so far and then some of the stream, up to a blank line.
record IsHead (buf : Text) (es : List Event) (head : Text) (rest : List Event) : Type 0 where
  more : Text
  whole : head ≡ buf ++ more
  parts : es ≡ as_events more ++ rest
  blank : ends_blank head ≡ true

IsHead-found :
    (buf : Text) (c : ℕ) (es : List Event) (head : Text) (rest : List Event)
    → ends_blank (buf ++ c ∷ []) ≡ true
    → buf ++ c ∷ [] ≡ head
    → es ≡ rest
    → IsHead buf (byte c ∷ es) head rest
IsHead-found buf c es head rest blank same left =
    subst₂ (λ (h : Text) (r : List Event). IsHead buf (byte c ∷ es) h r) same left
      (record { more = c ∷ []; whole = refl; parts = refl; blank = blank })

IsHead-later :
    (buf : Text) (c : ℕ) (es : List Event) (head : Text) (rest : List Event)
    → IsHead (buf ++ c ∷ []) es head rest
    → IsHead buf (byte c ∷ es) head rest
IsHead-later buf c es head rest h = record {
  more = c ∷ h.more;
  whole = h.whole ∙ append-snoc buf c h.more;
  parts = ap (λ (l : List Event). byte c ∷ l) h.parts;
  blank = h.blank;
}

read_proxy_head-IsHead :
    (buf : Text) (es : List Event) (head : Text) (rest : List Event)
    → read_proxy_head buf es ≡ inr (head, rest)
    → IsHead buf es head rest
unfolding read_proxy_head
read_proxy_head-IsHead buf [] head rest e = cc e
read_proxy_head-IsHead buf (failed ∷ es) head rest e = cc e
read_proxy_head-IsHead buf (closed ∷ es) head rest e = elim (Bool-cases (is_empty buf)) [
  | inl empty ↦ cc (rw empty at e)
  | inr some_bytes ↦ cc (rw some_bytes at e)
]
read_proxy_head-IsHead buf (byte c ∷ es) head rest e =
    let longer = buf ++ c ∷ [] in
    elim (Bool-cases (ends_blank longer)) [
      | inl blank ↦ let e' = rw blank at e in IsHead-found buf c es head rest blank (cc e') (cc e')
      | inr more ↦ elim (Bool-cases (ltb head_cap (length longer))) [
        | inl full ↦ cc (rw (more, full) at e)
        | inr open_still ↦
            IsHead-later buf c es head rest
              (read_proxy_head-IsHead longer es head rest (rw (more, open_still) at e))
      ]
    ]

http_connect-cases :
    (ch : Channel) (target : Target) (creds : Option Credentials) (head : Text) (rest : List Event)
    → http_connect ch target creds ≡ inr (head, rest)
    → (read_proxy_head [] (ch.answers (connect_bytes target.host target.port creds))
        ≡ inr (head, rest))
      × ((get_status_code head 9 12 == 200) ≡ true)
unfolding http_connect
http_connect-cases ch target creds head rest e =
    sent ch.sending (ch.answers (connect_bytes target.host target.port creds)) e
  where
    status :
        (r : HeadRead)
        → with_status r ≡ inr (head, rest)
        → (r ≡ inr (head, rest)) × ((get_status_code head 9 12 == 200) ≡ true)
    status (inl err') e = cc e
    status (inr (got, left)) e = elim (Bool-cases (get_status_code got 9 12 == 200)) [
      | inr bad ↦ cc (rw bad at e)
      | inl good ↦
          let e' = rw good at e in
          let same : got ≡ head = cc e' in
          (e', subst (λ (h : Text). (get_status_code h 9 12 == 200) ≡ true) same good)
    ]

    sent :
        (w : Sending) (es : List Event)
        → after_send w es ≡ inr (head, rest)
        → (read_proxy_head [] es ≡ inr (head, rest)) × ((get_status_code head 9 12 == 200) ≡ true)
    sent stalled es e = cc e
    sent broken es e = cc e
    sent taken_whole es e = status (read_proxy_head [] es) e

-- When the CONNECT succeeds, what has been read of the proxy's answer to the request is exactly a
-- head that ends with a blank line and has status 200: every byte after it is left to the tunnel.
pub http_connect_lem :
    (ch : Channel) (target : Target) (creds : Option Credentials) (head : Text) (rest : List Event)
    → http_connect ch target creds ≡ inr (head, rest)
    → (ch.answers (connect_bytes target.host target.port creds) ≡ as_events head ++ rest)
      × (ends_blank head ≡ true)
      × (get_status_code head 9 12 ≡ 200)
http_connect_lem ch target creds head rest e =
    let answered = ch.answers (connect_bytes target.host target.port creds) in
    let (read, ok_status) = http_connect-cases ch target creds head rest e in
    let h = read_proxy_head-IsHead [] answered head rest read in
    (
      subst (λ (x : Text). answered ≡ as_events x ++ rest) (sym h.whole) h.parts,
      h.blank,
      (==_iff (get_status_code head 9 12) 200).0 ok_status,
    )
