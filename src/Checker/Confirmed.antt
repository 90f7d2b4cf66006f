-- ===== src/Checker/Confirmed.antt =====
-- Where the confirmed types of a proxy come from, when it has been checked by src/checker.rs.
use proxybroker_rs.Checker.Admission.{Entry, misfits, remove_all-In}
use proxybroker_rs.Checker.Attempt.{AttemptEnv, check_proxy, target_in, timed_attempt}
use proxybroker_rs.Checker.Check.{
  Attempt, Observation, RetryPolicy, admit, candidates, check, check_each, check_from, check_one,
  errs, invalid, on_attempt, record_working, types_passed, wanted_from, working,
}
use proxybroker_rs.Checker.Response.{Codecs}
use proxybroker_rs.Checker.Setup.{Checker, Probe, in_dnsbl}
use proxybroker_rs.Checker.Working.{IsProof, attempt-working}
use proxybroker_rs.Errors.{ProxyError, bad_response, error_eq}
use proxybroker_rs.Float.{Float, nat_float}
use proxybroker_rs.Maps.{tree_insert}
use proxybroker_rs.Negotiator.Handshakes.{Target}
use proxybroker_rs.Net.{Addr, IpAddr, addr_eq, ip_eq}
use proxybroker_rs.Parse.Scan.{Regexes}
use proxybroker_rs.Prelude.{
  Bool, Bool-cases, In, List, Option, [], any, ap, false, if-cases, inl, inr, is_some, ltb, none,
  refl, some, subst, suc, sym, true, zero, ℕ, ◌&&◌, ◌+◌, ◌||◌, ◌∷◌, ◌≡◌, ◌⊎◌,
}
use proxybroker_rs.Prelude.Equality.{list_eq, nat_eq, ◌==◌}
use proxybroker_rs.Proxy.Record.{
  Proxy, TypeMap, add_type, addr_of, record_attempt, record_caps, record_probe_latency,
  record_trust,
}
use proxybroker_rs.Server.Requests.{IpText, frontend_eq}
use proxybroker_rs.Text.{Text}
use proxybroker_rs.Types.AnonLevel.{AnonLevel, level_eq, level_ranked}
use proxybroker_rs.Types.Proto.{Proto, proto_eq, proto_rank, proto_ranked}
use proxybroker_rs.Types.TypeSpec.{TypeSpec}

-- Some attempt of these has found the entry.
abbrev pub FoundBy : {F : Type 0} → (ℕ → Attempt × F) → Entry → Type 0
FoundBy env e = (k : ℕ) × (obs : Observation) × ((env k).0 ≡ working obs) × (obs.level ≡ e.1)

tree_insert-In :
    (proto : Proto) (level : Option AnonLevel) (e : Entry) (m : TypeMap)
    → In e (tree_insert proto level m)
    → (e ≡ (proto, level)) ⊎ In e m
unfolding tree_insert
tree_insert-In proto level e [] h = h
tree_insert-In proto level e ((q, l) ∷ m) h =
    elim (Bool-cases (ltb (proto_rank proto) (proto_rank q))) [
      | inl before ↦ rw before at h
      | inr not_before ↦ elim (Bool-cases (proto_rank proto == proto_rank q)) [
        | inl same ↦ elim (rw (not_before, same) at h) [
          | inl new_one ↦ inl new_one
          | inr old ↦ inr (inr old)
        ]
        | inr after ↦ elim (rw (not_before, after) at h) [
          | inl first ↦ inr (inl first)
          | inr later ↦ elim (tree_insert-In proto level e m later) [
            | inl new_one ↦ inl new_one
            | inr old ↦ inr (inr old)
          ]
        ]
      ]
    ]

module _ {F : Type 0} where
  attempt_types :
      (p : Proxy F) (rt : Option F) (err : Option ProxyError)
      → (record_attempt p rt err).types ≡ p.types
  unfolding record_attempt
  attempt_types p rt err = refl

  working_types :
      (proto : Proto) (obs : Observation) (rtt : F) (p : Proxy F)
      → (record_working proto obs rtt p).types ≡ tree_insert proto obs.level p.types
  unfolding record_working record_attempt record_probe_latency add_type record_caps record_trust
  working_types proto obs rtt p = refl

  abbrev Sourced : (ℕ → Attempt × F) → Proto → Proxy F → Entry → Type 0
  Sourced env proto p e = In e p.types ⊎ ((e.0 ≡ proto) × FoundBy env e)

  untouched :
      (env : ℕ → Attempt × F) (proto : Proto) (p : Proxy F) (err : ProxyError) (e : Entry)
      → In e (record_attempt p none (some err)).types
      → Sourced env proto p e
  untouched env proto p err e m = inl (subst (In e) (attempt_types p none (some err)) m)

  on_attempt-Sourced :
      (policy : RetryPolicy F) (retry : Proxy F → Bool × Proxy F) (env : ℕ → Attempt × F) (i : ℕ)
      (proto : Proto) (p : Proxy F) (e : Entry) (a : Attempt)
      → (env i).0 ≡ a
      → ((q : Proxy F) → In e (retry q).1.types → Sourced env proto q e)
      → In e (on_attempt policy retry i proto (env i).1 p a).1.types
      → Sourced env proto p e
  on_attempt-Sourced policy retry env i proto p e (working obs) how next m =
      elim (tree_insert-In proto obs.level e p.types
        (subst (In e) (working_types proto obs (env i).1 p) m)) [
          | inl same ↦
              inr (ap (λ (x : Entry). x.0) same, (i, obs, how, sym (ap (λ (x : Entry). x.1) same)))
          | inr old ↦ inl old
        ]
  on_attempt-Sourced policy retry env i proto p e invalid how next m =
      untouched env proto p bad_response e m
  on_attempt-Sourced policy retry env i proto p e (errs err) how next m =
      let unfit = record_attempt p none (some err) in
      let goes_on = any (λ r. r == err) policy.retry_on && ltb (i + 1) policy.max_tries in
      elim (if-cases goes_on (retry unfit) (false, unfit)) [
        | inl (_, eq) ↦ elim (next unfit (subst (λ (o : Bool × Proxy F). In e o.1.types) eq m)) [
          | inl old ↦ untouched env proto p err e old
          | inr found ↦ inr found
        ]
        | inr (_, eq) ↦
            untouched env proto p err e (subst (λ (o : Bool × Proxy F). In e o.1.types) eq m)
      ]

  check_from-Sourced :
      (policy : RetryPolicy F) (env : ℕ → Attempt × F) (n i : ℕ) (proto : Proto) (p : Proxy F)
      (e : Entry)
      → In e (check_from policy env n i proto p).1.types
      → Sourced env proto p e
  unfolding check_from
  check_from-Sourced policy env zero i proto p e m = inl m
  check_from-Sourced policy env (suc n) i proto p e m =
      on_attempt-Sourced policy (λ q. check_from policy env n (i + 1) proto q) env i proto p e
        (env i).0 refl (λ q. check_from-Sourced policy env n (i + 1) proto q e) m

  check_one-Sourced :
      (policy : RetryPolicy F) (env : ℕ → Attempt × F) (has_judge : Bool) (proto : Proto)
      (p : Proxy F) (e : Entry)
      → In e (check_one policy env has_judge proto p).1.types
      → Sourced env proto p e
  unfolding check_one
  check_one-Sourced policy env true proto p e m =
      check_from-Sourced policy env policy.max_tries 0 proto p e m
  check_one-Sourced policy env false proto p e m = inl m

  check_each-Sourced :
      (policy : RetryPolicy F) (env : Proto → ℕ → Attempt × F) (has_judge : Proto → Bool)
      (cs : List Proto) (found : Bool) (p : Proxy F) (e : Entry)
      → In e (check_each policy env has_judge cs found p).1.types
      → In e p.types ⊎ FoundBy (env e.0) e
  unfolding check_each
  check_each-Sourced policy env has_judge [] found p e m = inl m
  check_each-Sourced policy env has_judge (c ∷ cs) found p e m =
      let tried = check_one policy (env c) (has_judge c) c p in
      elim (check_each-Sourced policy env has_judge cs (found || tried.0) tried.1 e m) [
        | inl old ↦ elim (check_one-Sourced policy (env c) (has_judge c) c p e old) [
          | inl older ↦ inl older
          | inr (same, by) ↦ inr (subst (λ (d : Proto). FoundBy (env d) e) (sym same) by)
        ]
        | inr by ↦ inr by
      ]

  types_passed-keeps :
      (requested : List TypeSpec) (strict : Bool) (p : Proxy F) (e : Entry)
      → In e (types_passed requested strict p).1.types
      → In e p.types
  unfolding types_passed
  types_passed-keeps [] strict p e m = m
  types_passed-keeps (s ∷ ss) false p e m = m
  types_passed-keeps (s ∷ ss) true p e m =
      ((remove_all-In (misfits (wanted_from [] (s ∷ ss)) p.types) e p.types).0 m).0

  admit-keeps :
      (requested : List TypeSpec) (strict : Bool) (o : Bool × Proxy F) (e : Entry)
      → In e (admit requested strict o).1.types
      → In e o.1.types
  admit-keeps requested strict (true, p) e m = types_passed-keeps requested strict p e m
  admit-keeps requested strict (false, p) e m = m

  check-Sourced :
      (requested : List TypeSpec) (strict : Bool) (policy : RetryPolicy F)
      (env : Proto → ℕ → Attempt × F) (has_judge : Proto → Bool) (blocked : Bool) (p : Proxy F)
      (e : Entry)
      → In e (check requested strict policy env has_judge blocked p).1.types
      → In e p.types ⊎ FoundBy (env e.0) e
  unfolding check
  check-Sourced requested strict policy env has_judge true p e m = inl m
  check-Sourced requested strict policy env has_judge false p e m =
      check_each-Sourced policy env has_judge (candidates requested p) false p e
        (admit-keeps requested strict _ e m)

module _ {F : Type 0} ⦃f : Float F⦄ ⦃t : IpText⦄ ⦃x : Regexes⦄ ⦃z : Codecs⦄ where
  -- One of the attempts against what the checker has chosen for the protocol proves the entry.
  abbrev pub Proved :
      Checker F → (ℕ → AttemptEnv F) → Option (Probe × Target) → Addr → Entry → Type 0
  Proved c env choice addr e =
      (k : ℕ) × (obs : Observation) × (chosen : Probe × Target) × (choice ≡ some chosen)
      × (obs.level ≡ e.1)
      × IsProof c addr e.0 chosen (env k) obs

  timed_attempt-Proved :
      (c : Checker F) (env : ℕ → AttemptEnv F) (choice : Option (Probe × Target)) (addr : Addr)
      (e : Entry)
      → FoundBy (λ i. timed_attempt c addr e.0 choice (env i)) e
      → Proved c env choice addr e
  timed_attempt-Proved c env none addr e (k, obs, how, same) = cc how
  timed_attempt-Proved c env (some chosen) addr e (k, obs, how, same) =
      (k, obs, chosen, refl, same, attempt-working c addr e.0 chosen (env k) obs how)

  -- Each confirmed type that a proxy has after a check, with its anonymity level, is one that it had
  -- before, or there is an attempt for this protocol that connected to the proxy, worked against the
  -- judge or the endpoint chosen, and observed this level.
  pub check_proxy-found :
      (c : Checker F) (env : Proto → ℕ → AttemptEnv F) (draw : Proto → ℕ)
      (resolves : Text → Option IpAddr) (p : Proxy F) (e : Entry)
      → In e (check_proxy c env draw resolves p).1.types
      → In e p.types ⊎ Proved c (env e.0) (target_in c e.0 (draw e.0) c.mode) (addr_of p) e
  unfolding check_proxy
  check_proxy-found c env draw resolves p e m =
      elim (check-Sourced c.requested c.strict c.retry
        (λ proto i.
          timed_attempt c (addr_of p) proto (target_in c proto (draw proto) c.mode) (env proto i))
        (λ proto. is_some (target_in c proto (draw proto) c.mode))
        (in_dnsbl resolves p.host c.dnsbl) p e m) [
          | inl old ↦ inl old
          | inr by ↦ inr (
              timed_attempt-Proved c (env e.0) (target_in c e.0 (draw e.0) c.mode) (addr_of p) e by)
        ]
