-- ===== src/Negotiator/Head.antt =====
-- src/negotiator.rs: `read_head`, the answer of a proxy up to the blank line.
-- An error, or the head and the rest of the stream.
use proxybroker_rs.Errors.{ProxyError, bad_response, empty_recv, error_eq, reset, timeout}
use proxybroker_rs.Prelude.{
  Bool, List, [], if◌then◌else◌, inl, inr, is_empty, is_some, length, ltb, ℕ, ◌++◌, ◌∷◌, ◌⊎◌,
}
use proxybroker_rs.Server.Requests.{Event, byte, closed, failed, frontend_eq}
use proxybroker_rs.Text.{Text, strip_suffix, text}

abbrev pub HeadRead : Type 0
HeadRead = ProxyError ⊎ (Text × List Event)

abbrev pub head_cap : ℕ
head_cap = 8192

abbrev pub ends_blank : Text → Bool
ends_blank s = is_some (strip_suffix (text "\r\n\r\n") s)

unfoldable pub read_proxy_head : Text → List Event → HeadRead
unfolding strip_suffix
read_proxy_head buf [] = inl timeout
read_proxy_head buf (failed ∷ es) = inl reset
read_proxy_head buf (closed ∷ es) = if is_empty buf then inl empty_recv else inl reset
read_proxy_head buf (byte c ∷ es) =
    let longer = buf ++ c ∷ [] in
    let more = read_proxy_head longer es in
    if ends_blank longer
    then inr (longer, es)
    else if ltb head_cap (length longer)
    then inl bad_response
    else more
