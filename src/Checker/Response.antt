-- ===== src/Checker/Response.antt =====
-- src/checker.rs: reading a judge's response, and what the checker reads off it; src/utils.rs,
-- `request_headers`.
use proxybroker_rs.Errors.{ProxyError, bad_response, empty_recv, error_eq, reset, timeout}
use proxybroker_rs.Judges.{Judge, ip_visible}
use proxybroker_rs.Net.{IpAddr, addr_eq, ip_eq}
use proxybroker_rs.Parse.Scan.{Regexes, get_all_ip}
use proxybroker_rs.Prelude.{
  Bool, List, Option, [], all, any, drop, false, if◌then◌else◌, inl, inr, is_empty, leb, length,
  ltb, map, none, not, some, suc, take, zero, ℕ, ◌&&◌, ◌++◌, ◌+◌, ◌||◌, ◌∷◌, ◌⊎◌,
}
use proxybroker_rs.Prelude.Equality.{list_eq, nat_eq, ◌==◌}
use proxybroker_rs.Proxy.Trust.{
  TrustReport, TrustSignal, canary_mismatch, injected_header, signal_eq,
}
use proxybroker_rs.Server.Requests.{Event, IpText, byte, closed, failed, frontend_eq}
use proxybroker_rs.Text.{
  Text, contains, count_matches, lines, lowercase, position, split_text_once, strip_prefix, text,
  trim,
}
use proxybroker_rs.Types.AnonLevel.{AnonLevel, level_eq, level_ranked}
use proxybroker_rs.Types.TypeSpec.{Caps}

-- `MAX_JUDGE_RESPONSE`.
abbrev pub max_judge_response : ℕ
max_judge_response = 1_048_576

abbrev pub read_more : ℕ → ProxyError ⊎ Text → ProxyError ⊎ Text
read_more b (inl e) = inl e
read_more b (inr s) = inr (b ∷ s)

-- `take(n).read_to_end`, up to the deadline.
unfoldable pub read_to_end : ℕ → List Event → ProxyError ⊎ Text
read_to_end zero es = inr []
read_to_end (suc n) [] = inl timeout
read_to_end (suc n) (byte b ∷ es) = read_more b (read_to_end n es)
read_to_end (suc n) (closed ∷ es) = inr []
read_to_end (suc n) (failed ∷ es) = inl reset

abbrev pub accept_response : ℕ → ProxyError ⊎ Text → ProxyError ⊎ Text
accept_response most (inl e) = inl e
accept_response most (inr raw) =
    if is_empty raw
    then inl empty_recv
    else if ltb most (length raw)
    then inl bad_response
    else inr raw

unfoldable pub read_response : ℕ → List Event → ProxyError ⊎ Text
unfolding read_to_end
read_response most es = accept_response most (read_to_end (suc most) es)

abbrev pub head_end : Text
head_end = text "\r\n\r\n"

abbrev pub split_at : Text → Option ℕ → Text × Text
split_at raw none = (raw, [])
split_at raw (some i) = (take i raw, drop (i + 4) raw)

unfoldable pub split_head_body : Text → Text × Text
unfolding position
split_head_body raw = split_at raw (position head_end raw)

-- The decoders of a library.
pub record Codecs : Type 0 where
  pub gunzip : Text → Option Text
  pub inflate : Text → Option Text

-- The value of the first line with the prefix.
unfoldable pub encoding_in : List Text → Option Text
unfolding strip_prefix trim
encoding_in [] = none
encoding_in (l ∷ ls) = elim (strip_prefix (text "content-encoding:") l) [
  | none ↦ encoding_in ls
  | some v ↦ some (trim v)
]

abbrev pub decoded : ⦃z : Codecs⦄ → Text → Option Text → Option Text
decoded body none = none
decoded ⦃z⦄ body (some enc) =
    if enc == text "gzip"
    then z.gunzip body
    else if enc == text "deflate"
    then z.inflate body
    else none

abbrev pub or_raw : Text → Option Text → Text
or_raw body none = body
or_raw body (some s) = s

unfoldable pub decompress : ⦃z : Codecs⦄ → Text → Text → Text
unfolding encoding_in lines lowercase
decompress head body = or_raw body (decoded body (encoding_in (lines (lowercase head))))

abbrev pub cookie_value : Text
cookie_value = text "cookie=ok"

abbrev pub referer_value : Text
referer_value = text "https://www.google.com/"

unfoldable pub caps_from_content : Text → Caps
unfolding contains
caps_from_content content = record {
  cookie_echo = contains cookie_value content;
  referer_echo = contains referer_value content;
}

module _ ⦃t : IpText⦄ ⦃x : Regexes⦄ where
  unfoldable pub response_is_valid : Text → Text → Bool
  unfolding caps_from_content contains get_all_ip
  response_is_valid content marker =
      let caps = caps_from_content content in
      contains marker content
      && not (is_empty (get_all_ip content))
      && caps.referer_echo
      && caps.cookie_echo

  unfoldable pub anonymity_level : List IpAddr → Text → Judge → AnonLevel
  unfolding lowercase get_all_ip count_matches
  anonymity_level real_ips content judge =
      let lower = lowercase content in
      let real_visible = ip_visible real_ips lower in
      let via =
        ltb judge.marks.via (count_matches (text "via") lower)
        || ltb judge.marks.proxy_count (count_matches (text "proxy") lower) in
      if real_visible
      then AnonLevel.transparent
      else if via
      then AnonLevel.anonymous
      else AnonLevel.high

-- An `IndexMap` in its order.
abbrev pub Headers : Type 0
Headers = List (Text × Text)

abbrev pub marker_or_empty : Option Text → Text
marker_or_empty none = []
marker_or_empty (some m) = m

abbrev pub request_headers : Option Text → Headers
request_headers marker =
    (text "User-Agent", text "PxBroker/0.4.7/" ++ marker_or_empty marker)
    ∷ (text "Accept", text "*/*")
    ∷ (text "Accept-Encoding", text "gzip, deflate")
    ∷ (text "Pragma", text "no-cache")
    ∷ (text "Cache-control", text "no-cache")
    ∷ (text "Cookie", cookie_value)
    ∷ (text "Referer", referer_value)
    ∷ []

-- The names that the test request has: the keys of its headers and the three that are added.
abbrev pub sent_header_names : List Text
sent_header_names =
    map (λ h. h.0) (request_headers none)
    ++ text "Host" ∷ text "Connection" ∷ text "Content-Length" ∷ []

abbrev pub benign : List Text
benign =
    text "host"
    ∷ text "connection"
    ∷ text "content-length"
    ∷ text "x-forwarded-for"
    ∷ text "via"
    ∷ []

abbrev pub is_name_byte : ℕ → Bool
is_name_byte b =
    (leb b'0' b && leb b b'9')
    || (leb b'A' b && leb b b'Z')
    || (leb b'a' b && leb b b'z')
    || b == b'-'

abbrev pub name_of : Option (Text × Text) → Option Text
name_of none = none
name_of (some (name, value)) = some (lowercase (trim name))

-- Whether a name in lower case is one that was not sent and is not benign.
abbrev pub is_foreign : List Text → Option Text → Bool
is_foreign sent none = false
is_foreign sent (some name) =
    if is_empty name || not (all is_name_byte name)
    then false
    else not (any (λ s. s == name) sent) && not (any (λ s. s == name) benign)

-- The lines up to the first that carries a foreign header.
unfoldable pub injected_in : List Text → List Text → List TrustSignal
unfolding split_text_once lowercase trim
injected_in sent [] = []
injected_in sent (l ∷ ls) =
    if is_foreign sent (name_of (split_text_once (text ": ") l))
    then injected_header ∷ []
    else injected_in sent ls

unfoldable pub assess : List Text → Text → Text → TrustReport
unfolding contains injected_in lines lowercase
assess sent_names canary content = record {
  signals =
      (if not (contains canary content) then canary_mismatch ∷ [] else [])
      ++ injected_in (map lowercase sent_names) (lines content);
}
