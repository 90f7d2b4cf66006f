-- ===== src/Checker/Reading.antt =====
-- What `read_response` and `split_head_body` of src/checker.rs give.
use proxybroker_rs.Checker.Response.{
  accept_response, head_end, read_more, read_response, read_to_end, split_head_body,
}
use proxybroker_rs.Errors.{ProxyError, bad_response, error_eq}
use proxybroker_rs.Prelude.{
  List, Option-cases, [], ap, arith, false, if◌then◌else◌, inl, inr, length, refl, subst, suc, sym,
  take, zero, ℕ, ◌++◌, ◌<◌, ◌↔◌, ◌∙◌, ◌∷◌, ◌≡◌, ◌≤◌, ◌⊎◌,
}
use proxybroker_rs.Server.Login.{as_events}
use proxybroker_rs.Server.Requests.{Event, byte, closed, failed, frontend_eq}
use proxybroker_rs.Text.{Text, contains, position, text}
use proxybroker_rs.Text.Places.{drop-drop, position-first, position-parts}

inr-injective : (a b : Text) → ◌≡◌ {A = ProxyError ⊎ Text} (inr a) (inr b) → a ≡ b
inr-injective a b e = cc e

read_more-inr :
    (b : ℕ) (o : ProxyError ⊎ Text) (raw : Text)
    → read_more b o ≡ inr raw
    → (s : Text) × (o ≡ inr s) × (raw ≡ b ∷ s)
read_more-inr b (inl e) raw h = cc h
read_more-inr b (inr s) raw h = (s, refl, cc h)

-- A text shorter than the bound is read to the end of the stream.
read_to_end-short :
    (n : ℕ) (raw : Text) (es : List Event)
    → length raw < n
    → read_to_end n (as_events raw ++ closed ∷ es) ≡ inr raw
unfolding read_to_end
read_to_end-short zero raw es h = ground (arith, h)
read_to_end-short (suc n) [] es h = refl
read_to_end-short (suc n) (b ∷ raw) es h =
    ap (read_more b) (read_to_end-short n raw es (omega (arith, h)))

read_to_end-closed :
    (n : ℕ) (es : List Event) (raw : Text)
    → read_to_end n es ≡ inr raw
    → length raw < n
    → (rest : List Event) × (es ≡ as_events raw ++ closed ∷ rest)
unfolding read_to_end
read_to_end-closed zero es raw e h = ground (arith, h)
read_to_end-closed (suc n) [] raw e h = cc e
read_to_end-closed (suc n) (closed ∷ es) raw e h =
    (es, ap (λ (r : Text). as_events r ++ closed ∷ es) (inr-injective [] raw e))
read_to_end-closed (suc n) (failed ∷ es) raw e h = cc e
read_to_end-closed (suc n) (byte b ∷ es) raw e h =
    let (s, read, same) = read_more-inr b (read_to_end n es) raw e in
    let (rest, eq) = read_to_end-closed n es s read (omega (arith, h, ap length same)) in
    (
      rest,
      subst (λ (r : Text). byte b ∷ es ≡ as_events r ++ closed ∷ rest) (sym same)
          (ap (λ (r : List Event). byte b ∷ r) eq),
    )

-- A text as long as the bound is read up to it, whatever follows.
read_to_end-long :
    (n : ℕ) (raw : Text) (es : List Event)
    → n ≤ length raw
    → (s : Text) × (read_to_end n (as_events raw ++ es) ≡ inr s) × (length s ≡ n)
unfolding read_to_end
read_to_end-long zero raw es h = ([], refl, refl)
read_to_end-long (suc n) [] es h = ground (arith, h)
read_to_end-long (suc n) (b ∷ raw) es h =
    let (s, read, long) = read_to_end-long n raw es (omega (arith, h)) in
    (b ∷ s, ap (read_more b) read, omega (arith, long))

accept_response-inr :
    (most : ℕ) (o : ProxyError ⊎ Text) (raw : Text)
    → accept_response most o ≡ inr raw
    → (o ≡ inr raw) × (0 < length raw) × (length raw ≤ most)
accept_response-inr most (inl e) raw h = cc h
accept_response-inr most (inr []) raw h = cc h
accept_response-inr most (inr (b ∷ s)) raw h = ground (arith, h)

accept_response-long :
    (most : ℕ) (s : Text) → most < length s → accept_response most (inr s) ≡ inl bad_response
accept_response-long most [] h = ground (arith, h)
accept_response-long most (b ∷ s) h = ground (arith, h)

accept_response-good :
    (most : ℕ) (s : Text) → 0 < length s → length s ≤ most → accept_response most (inr s) ≡ inr s
accept_response-good most [] some_bytes h = ground (arith, some_bytes)
accept_response-good most (b ∷ s) some_bytes h = ground (arith, h)

-- A response is read exactly when the stream ends after it, it is not empty and it is not longer
-- than the bound; and a longer one is refused whatever follows, even a stream that never ends.
pub read_response_lem :
    (most : ℕ) (es : List Event) (raw : Text)
    → ((read_response most es ≡ inr raw) ↔ (
        (0 < length raw)
        × (length raw ≤ most)
        × ((rest : List Event) × (es ≡ as_events raw ++ closed ∷ rest))))
      × (most < length raw → read_response most (as_events raw ++ es) ≡ inl bad_response)
unfolding read_response
read_response_lem most es raw = (
  (
    λ e.
        let (read, some_bytes, short) =
          accept_response-inr most (read_to_end (suc most) es) raw e in
        (some_bytes, short, read_to_end-closed (suc most) es raw read (omega (arith, short))),
    λ (some_bytes, short, (rest, eq)).
        rw (eq, read_to_end-short (suc most) raw rest (omega (arith, short)))
          (accept_response-good most raw some_bytes short),
  ),
  λ long.
      let (s, read, full) = read_to_end-long (suc most) raw es (omega (arith, long)) in
      rw read (accept_response-long most s (omega (arith, full))),
)

-- A response with an empty line is its head, that line and its body, and the head has no empty line
-- of its own; without one all of it is the head.
pub split_head_body_lem :
    (raw : Text)
    → if contains head_end raw
      then (raw ≡ (split_head_body raw).0 ++ head_end ++ (split_head_body raw).1)
        × (contains head_end (split_head_body raw).0 ≡ false)
      else split_head_body raw ≡ (raw, [])
unfolding split_head_body contains
split_head_body_lem raw = elim (Option-cases (position head_end raw)) [
  | inl missing ↦ rw missing refl
  | inr (i, found) ↦ rw found (
    position-parts head_end raw i found
        ∙ ap (λ (r : Text). take i raw ++ head_end ++ r) (drop-drop 4 i raw),
    position-first 13 (text "\n\r\n") raw i found,
  )
]
