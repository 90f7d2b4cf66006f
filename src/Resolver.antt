-- ===== src/Resolver.antt =====
-- src/resolver.rs: the resolver, over what DNS and the endpoints answer. `parse_ip_lenient` is in
-- Parse/Extract.
use proxybroker_rs.Errors.{ProxyError, error_eq}
use proxybroker_rs.Net.{IpAddr, addr_eq, ip_eq}
use proxybroker_rs.Parse.Extract.{parse_ip_lenient}
use proxybroker_rs.Prelude.{
  Bool, Bool-cases, List, Option, [], any, ap, arith, false, if◌then◌else◌, inl, inr, is_empty,
  is_some, none, refl, some, true, ◌||◌, ◌∙◌, ◌∷◌, ◌≡◌, ◌⊎◌,
}
use proxybroker_rs.Prelude.Equality.{==_iff, list_eq, nat_eq, ◌==◌}
use proxybroker_rs.Server.Requests.{IpText, frontend_eq}
use proxybroker_rs.Text.{Text, text, trim}

-- `lookup_ip` of a library: the addresses of a name, or nothing for an error or a deadline; and the
-- body that an endpoint gives, if it gives one.
pub record Network : Type 0 where
  pub lookup_ip : Text → Option (List IpAddr)
  pub body_of : Text → Option Text

abbrev pub default_ip_endpoints : List Text
default_ip_endpoints =
    text "https://api64.ipify.org/"
    ∷ text "https://api.ipify.org/"
    ∷ text "https://icanhazip.com/"
    ∷ []

abbrev pub first_of : Option (List IpAddr) → ProxyError ⊎ IpAddr
first_of (some (a ∷ as')) = inr a
first_of _ = inl ProxyError.resolve

any-same :
    (found : List IpAddr) (a b : IpAddr)
    → (b == a) ≡ true
    → any (λ c. c == b) found ≡ any (λ c. c == a) found
any-same found a b e = ap (λ (d : IpAddr). any (λ c. c == d) found) ((==_iff b a).0 e)

module _ ⦃t : IpText⦄ where
  unfoldable pub host_is_ip : Text → Bool
  unfolding parse_ip_lenient
  host_is_ip host = is_some (parse_ip_lenient host)

  abbrev pub literal_or : Network → Text → Option IpAddr → ProxyError ⊎ IpAddr
  literal_or n host (some a) = inr a
  literal_or n host none = first_of (n.lookup_ip host)

  unfoldable pub resolve : Network → Text → ProxyError ⊎ IpAddr
  unfolding parse_ip_lenient
  resolve n host = literal_or n host (parse_ip_lenient host)

  abbrev pub answered : Option Text → Option IpAddr
  answered none = none
  answered (some body) = t.parse_ip (trim body)

  -- The answers of the endpoints, as a set.
  abbrev with_found : List IpAddr → Option IpAddr → List IpAddr
  with_found found none = found
  with_found found (some a) = if any (λ b. b == a) found then found else a ∷ found

  unfoldable pub found_ips : Network → List Text → List IpAddr
  unfolding trim
  found_ips n [] = []
  found_ips n (endpoint ∷ endpoints) =
      with_found (found_ips n endpoints) (answered (n.body_of endpoint))

  -- Nothing found is `ExtIpUnknown`.
  unfoldable pub external_ips : Network → List Text → Option (List IpAddr)
  unfolding found_ips
  external_ips n endpoints =
      let found = found_ips n endpoints in if is_empty found then none else some found

  abbrev is_given : IpAddr → Option IpAddr → Bool
  is_given a none = false
  is_given a (some b) = b == a

  abbrev gives_ip : Network → IpAddr → Text → Bool
  gives_ip n a endpoint = is_given a (answered (n.body_of endpoint))

  with_found-any :
      (found : List IpAddr) (a : IpAddr) (o : Option IpAddr)
      → any (λ b. b == a) (with_found found o) ≡ (is_given a o || any (λ b. b == a) found)
  with_found-any found a none = refl
  with_found-any found a (some b) = elim (Bool-cases (any (λ c. c == b) found)) [
    | inl old ↦ rw old (ground (arith, ==_iff b a, old, any-same found a b))
    | inr new_one ↦ rw new_one refl
  ]

  -- An address is found exactly when an endpoint gives it.
  pub found_ips_lem :
      (n : Network) (endpoints : List Text) (a : IpAddr)
      → any (λ b. b == a) (found_ips n endpoints) ≡ any (gives_ip n a) endpoints
  unfolding found_ips
  found_ips_lem n [] a = refl
  found_ips_lem n (endpoint ∷ endpoints) a =
      with_found-any (found_ips n endpoints) a (answered (n.body_of endpoint))
      ∙ ap (λ (b : Bool). gives_ip n a endpoint || b) (found_ips_lem n endpoints a)
