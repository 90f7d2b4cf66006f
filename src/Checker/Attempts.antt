-- ===== src/Checker/Attempts.antt =====
-- `check_one`: how often it tries, and what it leaves on the proxy.
use proxybroker_rs.Checker.Check.{
  Attempt, Observation, RetryPolicy, check_from, check_one, errs, invalid, on_attempt,
  record_working, working,
}
use proxybroker_rs.Errors.{ProxyError, bad_response, error_eq}
use proxybroker_rs.Maps.{tree_get, tree_get-insert}
use proxybroker_rs.Prelude.{
  Bool, Option, any, arith, false, if-cases, inl, inr, is_some, ltb, none, refl, some, subst, suc,
  sym, true, zero, ℕ, ◌&&◌, ◌+◌, ◌≡◌, ◌≤◌,
}
use proxybroker_rs.Prelude.Equality.{list_eq, nat_eq, ◌==◌}
use proxybroker_rs.Proxy.Record.{
  Proxy, add_type, addr_of, record_attempt, record_caps, record_probe_latency, record_trust,
}
use proxybroker_rs.Types.Proto.{Proto, proto_eq, proto_ranked}

module _ {F : Type 0} where
  requests_after-le :
      (p : Proxy F) (rt : Option F) (e : Option ProxyError)
      → (record_attempt p rt e).requests ≤ p.requests + 1
  unfolding record_attempt
  requests_after-le p rt e = ground arith

  -- The result of a check over a protocol, from the proxy before it and the most attempts.
  pub record IsTried (limit : ℕ) (proto : Proto) (p : Proxy F) (out : Bool × Proxy F) : Type 0 where
    pub few : out.1.requests ≤ p.requests + limit
    pub works : out.0 ≡ true → is_some (tree_get proto out.1.types) ≡ true
    pub fails : out.0 ≡ false → out.1.types ≡ p.types
    pub same : addr_of out.1 ≡ addr_of p

  record_working-IsTried :
      (proto : Proto) (obs : Observation) (rtt : F) (p : Proxy F)
      → IsTried 1 proto p (true, record_working proto obs rtt p)
  unfolding record_working record_attempt record_probe_latency add_type record_caps record_trust
  record_working-IsTried proto obs rtt p = record {
    few = ground arith;
    works = λ e. ground (arith, tree_get-insert proto proto obs.level p.types);
    fails = λ e. cc e;
    same = refl;
  }

  record_failure-IsTried :
      (proto : Proto) (e : ProxyError) (p : Proxy F)
      → IsTried 1 proto p (false, record_attempt p none (some e))
  unfolding record_attempt
  record_failure-IsTried proto e p = record {
    few = ground arith;
    works = λ h. cc h;
    fails = λ h. refl;
    same = refl;
  }

  later-IsTried :
      (n : ℕ) (proto : Proto) (e : ProxyError) (p : Proxy F) (out : Bool × Proxy F)
      → IsTried n proto (record_attempt p none (some e)) out
      → IsTried (suc n) proto p out
  unfolding record_attempt
  later-IsTried n proto e p out h = record {
    few = omega (arith, h.few, requests_after-le p none (some e));
    works = h.works;
    fails = h.fails;
    same = h.same;
  }

  wider-IsTried :
      (n : ℕ) (proto : Proto) (p : Proxy F) (out : Bool × Proxy F)
      → IsTried 1 proto p out
      → IsTried (suc n) proto p out
  wider-IsTried n proto p out h = record {
    few = omega (arith, h.few);
    works = h.works;
    fails = h.fails;
    same = h.same;
  }

  on_attempt-IsTried :
      (policy : RetryPolicy F) (again : Proxy F → Bool × Proxy F) (n i : ℕ) (proto : Proto)
      (rtt : F) (p : Proxy F) (a : Attempt)
      → ((q : Proxy F) → IsTried n proto q (again q))
      → IsTried (suc n) proto p (on_attempt policy again i proto rtt p a)
  on_attempt-IsTried policy again n i proto rtt p (working obs) rest =
      wider-IsTried n proto p _ (record_working-IsTried proto obs rtt p)
  on_attempt-IsTried policy again n i proto rtt p invalid rest =
      wider-IsTried n proto p _ (record_failure-IsTried proto bad_response p)
  on_attempt-IsTried policy again n i proto rtt p (errs e) rest =
      let unfit = record_attempt p none (some e) in
      let retried = any (λ r. r == e) policy.retry_on && ltb (i + 1) policy.max_tries in
      elim (if-cases retried (again unfit) (false, unfit)) [
        | inl (_, eq) ↦
            subst (IsTried (suc n) proto p) (sym eq) (later-IsTried n proto e p _ (rest unfit))
        | inr (_, eq) ↦
            subst (IsTried (suc n) proto p) (sym eq)
              (wider-IsTried n proto p _ (record_failure-IsTried proto e p))
      ]

  check_from-IsTried :
      (policy : RetryPolicy F) (env : ℕ → Attempt × F) (n i : ℕ) (proto : Proto) (p : Proxy F)
      → IsTried n proto p (check_from policy env n i proto p)
  unfolding check_from
  check_from-IsTried policy env zero i proto p = record {
    few = omega arith;
    works = λ e. cc e;
    fails = λ e. refl;
    same = refl;
  }
  check_from-IsTried policy env (suc n) i proto p =
      on_attempt-IsTried policy (λ q. check_from policy env n (i + 1) proto q) n i proto (env i).1 p
        (env i).0 λ q. check_from-IsTried policy env n (i + 1) proto q

  check_one-IsTried :
      (policy : RetryPolicy F) (env : ℕ → Attempt × F) (has_judge : Bool) (proto : Proto)
      (p : Proxy F)
      → IsTried policy.max_tries proto p (check_one policy env has_judge proto p)
  unfolding check_one
  check_one-IsTried policy env true proto p =
      check_from-IsTried policy env policy.max_tries 0 proto p
  check_one-IsTried policy env false proto p = record {
    few = omega arith;
    works = λ e. cc e;
    fails = λ e. refl;
    same = refl;
  }

  -- `check_one` makes at most `max_tries` attempts, as the proxy's count of requests shows.
  pub check_one-few :
      (policy : RetryPolicy F) (env : ℕ → Attempt × F) (has_judge : Bool) (proto : Proto)
      (p : Proxy F)
      → (check_one policy env has_judge proto p).1.requests ≤ p.requests + policy.max_tries
  check_one-few policy env has_judge proto p = (check_one-IsTried policy env has_judge proto p).few

  -- When `check_one` says that the proxy works, the protocol is among its confirmed types.
  pub check_one-works :
      (policy : RetryPolicy F) (env : ℕ → Attempt × F) (has_judge : Bool) (proto : Proto)
      (p : Proxy F)
      → (check_one policy env has_judge proto p).0 ≡ true
      → is_some (tree_get proto (check_one policy env has_judge proto p).1.types) ≡ true
  check_one-works policy env has_judge proto p good =
      (check_one-IsTried policy env has_judge proto p).works good

  -- When `check_one` says that the proxy does not work, its confirmed types are as before.
  pub check_one-fails :
      (policy : RetryPolicy F) (env : ℕ → Attempt × F) (has_judge : Bool) (proto : Proto)
      (p : Proxy F)
      → (check_one policy env has_judge proto p).0 ≡ false
      → (check_one policy env has_judge proto p).1.types ≡ p.types
  check_one-fails policy env has_judge proto p bad =
      (check_one-IsTried policy env has_judge proto p).fails bad
