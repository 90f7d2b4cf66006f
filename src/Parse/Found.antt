-- ===== src/Parse/Found.antt =====
-- What `ProviderSpec::extract` of src/provider.rs finds.
use proxybroker_rs.Broker.Grab.{Candidate}
use proxybroker_rs.Parse.Extract.{
  Key, Patterns, ProviderSpec, admissible, extract, extract_each, is_void, key_is, pairs_of,
}
use proxybroker_rs.Parse.Scan.{Regexes, canonicalize_ip}
use proxybroker_rs.Prelude.{
  All, Bool, Bool-cases, List, Option, Option-cases, [], any, arith, false, if◌then◌else◌, inl, inr,
  none, refl, some, subst, ℕ, ◌*◌, ◌+◌, ◌-◌, ◌<◌, ◌∷◌, ◌≡◌,
}
use proxybroker_rs.Prelude.Equality.{==_iff, list_eq, nat_eq, ◌==◌}
use proxybroker_rs.Proxy.Record.{u16_mod}
use proxybroker_rs.Server.Requests.{IpText, frontend_eq}
use proxybroker_rs.Text.{Text}
use proxybroker_rs.Text.Decimal.{digits_from, digits_of, parse_uint}
use proxybroker_rs.Types.Proto.{Proto, proto_eq, proto_ranked}

digits_from-lt :
    (bound acc : ℕ) (s : Text) (n : ℕ) → acc < bound → digits_from bound acc s ≡ some n → n < bound
unfolding digits_from
digits_from-lt bound acc [] n h e = ground (arith, e)
digits_from-lt bound acc (c ∷ s) n h e =
    ground (arith, digits_from-lt bound (acc * 10 + (c - b'0')) s n)

-- A number that has been parsed fits its width.
parse_uint-lt : (bound : ℕ) (s : Text) (n : ℕ) → 0 < bound → parse_uint bound s ≡ some n → n < bound
unfolding parse_uint digits_of
parse_uint-lt bound [] n h e = cc e
parse_uint-lt bound (c ∷ []) n h e = ground (arith, digits_from-lt bound 0 (c ∷ []) n h)
parse_uint-lt bound (c ∷ d ∷ s) n h e =
    ground (arith, digits_from-lt bound 0 (c ∷ d ∷ s) n h, digits_from-lt bound 0 (d ∷ s) n h)

module _ ⦃t : IpText⦄ where
  -- The host is in canonical form and is not the unspecified address, and the port is that of a
  -- connection.
  abbrev pub IsProper : Key → Type 0
  IsProper (host, port) =
      (0 < port)
      × (port < u16_mod)
      × (is_void host ≡ false)
      × ((raw : Text) × (canonicalize_ip raw ≡ some host))

  admissible-IsProper : (pr : Text × Text) (k : Key) → admissible pr ≡ some k → IsProper k
  unfolding admissible
  admissible-IsProper (raw_host, raw_port) (host, port) e =
      elim (Option-cases (parse_uint u16_mod raw_port)) [
        | inl none_parsed ↦ cc (rw none_parsed at e)
        | inr (n, parsed) ↦ elim (Bool-cases (n == 0)) [
          | inl zero_port ↦ cc (rw (parsed, zero_port) at e)
          | inr positive ↦ elim (Option-cases (canonicalize_ip raw_host)) [
            | inl refused' ↦ cc (rw (parsed, positive, refused') at e)
            | inr (h, canonical) ↦ elim (Bool-cases (is_void h)) [
              | inl void ↦ cc (rw (parsed, positive, canonical, void) at e)
              | inr good ↦
                  let same : ◌≡◌ {A = Key} (h, n) (host, port) =
                    cc (rw (parsed, positive, canonical, good) at e) in
                  subst IsProper same (
                    ground (arith, positive),
                    parse_uint-lt u16_mod raw_port n (omega arith) parsed,
                    good,
                    (raw_host, canonical),
                  )
            ]
          ]
        ]
      ]

  -- The raw pair gives the candidate.
  abbrev pub key_of : Text → ℕ → Option Key → Bool
  key_of host port none = false
  key_of host port (some k) = key_is host port k

  abbrev pub gives : Text → ℕ → Text × Text → Bool
  gives host port pr = key_of host port (admissible pr)

  -- How often the candidate stands in a list.
  abbrev pub cand_times : Text → ℕ → List Candidate → ℕ
  cand_times host port [] = 0
  cand_times host port (c ∷ cs) =
      (if key_is host port (c.host, c.port) then 1 else 0) + cand_times host port cs

  extract_each-times :
      (protos : List Proto) (seen : List Key) (prs : List (Text × Text)) (host : Text) (port : ℕ)
      → cand_times host port (extract_each protos seen prs)
        ≡ (if any (key_is host port) seen then 0 else if any (gives host port) prs then 1 else 0)
  unfolding extract_each
  extract_each-times protos seen [] host port = ground arith
  extract_each-times protos seen (pr ∷ prs) host port = elim (Option-cases (admissible pr)) [
    | inl none_there ↦ rw none_there (extract_each-times protos seen prs host port)
    | inr ((h, p), found) ↦ elim (Bool-cases (any (key_is h p) seen)) [
      | inl old ↦
          rw (found, old)
            (ground (
              arith,
              extract_each-times protos seen prs host port,
              ==_iff h host,
              ==_iff p port,
              old,
            ))
      | inr fresh ↦
          rw (found, fresh)
            (ground (
              arith,
              extract_each-times protos ((h, p) ∷ seen) prs host port,
              ==_iff h host,
              ==_iff p port,
              fresh,
            ))
    ]
  ]

  extract_each-All :
      (protos : List Proto) (seen : List Key) (prs : List (Text × Text))
      → All
          (λ (c : Candidate). IsProper (c.host, c.port) × (c.protocols ≡ protos))
          (extract_each protos seen prs)
  unfolding extract_each
  extract_each-All protos seen [] = tt
  extract_each-All protos seen (pr ∷ prs) = elim (Option-cases (admissible pr)) [
    | inl none_there ↦ rw none_there (extract_each-All protos seen prs)
    | inr ((h, p), found) ↦ elim (Bool-cases (any (key_is h p) seen)) [
      | inl old ↦ rw (found, old) (extract_each-All protos seen prs)
      | inr fresh ↦
          rw (found, fresh)
            (
              (admissible-IsProper pr (h, p) found, refl),
              extract_each-All protos ((h, p) ∷ seen) prs,
            )
    ]
  ]

  -- The candidates of a page: one for each host and port that some raw pair of the page gives, and
  -- no other, with the provider's protocols. Each has a port from 1 to 65535 and a host in canonical
  -- form that is not the unspecified address.
  pub extract_lem :
      ⦃x : Regexes⦄ ⦃r : Patterns⦄ (spec : ProviderSpec) (body : Text)
      → ((host : Text) (port : ℕ)
          → cand_times host port (extract spec body)
            ≡ (if any (gives host port) (pairs_of spec.pattern body) then 1 else 0))
        × All
            (λ (c : Candidate). IsProper (c.host, c.port) × (c.protocols ≡ spec.protocols))
            (extract spec body)
  unfolding extract
  extract_lem spec body = (
    λ host port. extract_each-times spec.protocols [] (pairs_of spec.pattern body) host port,
    extract_each-All spec.protocols [] (pairs_of spec.pattern body),
  )
