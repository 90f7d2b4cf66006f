-- ===== src/Checker/Verdict.antt =====
-- `check`: what an admitted proxy has.
use proxybroker_rs.Checker.Check.{
  Attempt, RetryPolicy, admit, candidates, check, check_each, matches, types_passed, wanted_from,
}
use proxybroker_rs.Prelude.{Bool, In-nonempty, List, [], any-In, false, refl, true, ℕ, ◌∷◌, ◌≡◌}
use proxybroker_rs.Proxy.Record.{Proxy, is_working}
use proxybroker_rs.Types.Proto.{Proto, proto_eq, proto_ranked}
use proxybroker_rs.Types.TypeSpec.{TypeSpec}

module _ {F : Type 0} where
  types_passed-is_working :
      (s : TypeSpec) (ss : List TypeSpec) (strict : Bool) (p : Proxy F)
      → (types_passed (s ∷ ss) strict p).0 ≡ true
      → is_working (types_passed (s ∷ ss) strict p).1 ≡ true
  unfolding types_passed is_working
  types_passed-is_working s ss true p good = good
  types_passed-is_working s ss false p good =
      let (e, held, _) = any-In (matches false (wanted_from [] (s ∷ ss))) p.types good in
      rw (In-nonempty e p.types held) refl

  admit-is_working :
      (s : TypeSpec) (ss : List TypeSpec) (strict found : Bool) (p : Proxy F)
      → (admit (s ∷ ss) strict (found, p)).0 ≡ true
      → is_working (admit (s ∷ ss) strict (found, p)).1 ≡ true
  admit-is_working s ss strict true p good = types_passed-is_working s ss strict p good
  admit-is_working s ss strict false p good = cc good

  -- A proxy that `check` admits has a confirmed type, whatever was requested, strictly or not, and
  -- was not found in a blocklist.
  pub check-is_working :
      (requested : List TypeSpec) (strict : Bool) (policy : RetryPolicy F)
      (env : Proto → ℕ → Attempt × F) (has_judge : Proto → Bool) (blocked : Bool) (p : Proxy F)
      → (check requested strict policy env has_judge blocked p).0 ≡ true
      → (is_working (check requested strict policy env has_judge blocked p).1 ≡ true)
        × (blocked ≡ false)
  unfolding check candidates check_each
  check-is_working requested strict policy env has_judge true p good = cc good
  check-is_working [] strict policy env has_judge false p good = cc good
  check-is_working (s ∷ ss) strict policy env has_judge false p good =
      let tried = check_each policy env has_judge (candidates (s ∷ ss) p) false p in
      (admit-is_working s ss strict tried.0 tried.1 good, refl)
