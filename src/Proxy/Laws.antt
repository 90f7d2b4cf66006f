-- ===== src/Proxy/Laws.antt =====
-- What the recorders of a proxy keep.
use proxybroker_rs.Prelude.{
  In, List, [], any, any-In, arith, if-cases, if◌then◌else◌, inl, inr, subst, sym, true, ◌++◌, ◌↔◌,
  ◌∷◌, ◌≡◌, ◌⊎◌,
}
use proxybroker_rs.Prelude.Equality.{==_iff, list_eq, nat_eq, ◌==◌}
use proxybroker_rs.Proxy.Record.{Proxy, record_trust}
use proxybroker_rs.Proxy.Trust.{TrustReport, TrustSignal, add_signals, signal_eq}

append-In :
    (stored : List TrustSignal) (x s : TrustSignal)
    → In s (stored ++ x ∷ []) ↔ (In s stored ⊎ (s ≡ x))
append-In [] x s = ground arith
append-In (y ∷ ys) x s = ground (arith, append-In ys x s)

any-In_iff :
    (stored : List TrustSignal) (x : TrustSignal) → any (λ t. t == x) stored ≡ true → In x stored
any-In_iff stored x h =
    let (y, m, same) = any-In (λ t. t == x) stored h in
    subst (λ (z : TrustSignal). In z stored) ((==_iff y x).0 same) m

add_one-In :
    (stored : List TrustSignal) (x s : TrustSignal)
    → In s (if any (λ t. t == x) stored then stored else stored ++ x ∷ []) ↔ (In s stored ⊎ (s ≡ x))
add_one-In stored x s = elim (if-cases (any (λ t. t == x) stored) stored (stored ++ x ∷ [])) [
  | inl (known, e) ↦
      subst (λ (l : List TrustSignal). In s l ↔ (In s stored ⊎ (s ≡ x))) (sym e)
        (
          λ m. inl m,
          λ h. elim h [
            | inl m ↦ m
            | inr same ↦
                subst (λ (z : TrustSignal). In z stored) (sym same) (any-In_iff stored x known)
          ],
        )
  | inr (_, e) ↦
      subst (λ (l : List TrustSignal). In s l ↔ (In s stored ⊎ (s ≡ x))) (sym e)
        (append-In stored x s)
]

add_signals-In :
    (stored found : List TrustSignal) (s : TrustSignal)
    → In s (add_signals stored found) ↔ (In s stored ⊎ In s found)
unfolding add_signals
add_signals-In stored [] s = (λ m. inl m, λ h. elim h [ inl m ↦ m | inr n ↦ absurd n ])
add_signals-In stored (x ∷ xs) s =
    let (to, from) =
      add_signals-In (if any (λ t. t == x) stored then stored else stored ++ x ∷ []) xs s in
    let (into, back) = add_one-In stored x s in
    (
      λ m. elim (to m) [
        | inl h ↦ elim (into h) [ inl a ↦ inl a | inr b ↦ inr (inl b) ]
        | inr h ↦ inr (inr h)
      ],
      λ h. from (elim h [
        | inl a ↦ inl (back (inl a))
        | inr (inl b) ↦ inl (back (inr b))
        | inr (inr c) ↦ inr c
      ]),
    )

module _ {F : Type 0} where
  -- A trust report is merged by union: the signals afterwards are those that stood there and those
  -- of the report, so no later report takes a signal back.
  pub record_trust_lem :
      (p : Proxy F) (r : TrustReport) (s : TrustSignal)
      → In s (record_trust p r).trust.signals ↔ (In s p.trust.signals ⊎ In s r.signals)
  unfolding record_trust
  record_trust_lem p r s = add_signals-In p.trust.signals r.signals s
