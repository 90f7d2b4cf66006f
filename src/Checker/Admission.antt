-- ===== src/Checker/Admission.antt =====
-- `types_passed`: which confirmed types are left, and whether the proxy is admitted.
use proxybroker_rs.Checker.Check.{Wanted, matches, remove_all, types_passed, wanted_from}
use proxybroker_rs.Maps.{tree_remove}
use proxybroker_rs.Prelude.{
  Bool, Bool-cases, In, In-any, In-nonempty, List, Option, [], any, arith, false, inl, inr,
  is_empty, keep, keep-In, not, refl, true, ◌↔◌, ◌∷◌, ◌≡◌,
}
use proxybroker_rs.Prelude.Equality.{==-refl, list_eq, nat_eq, ◌==◌}
use proxybroker_rs.Proxy.Record.{Proxy, TypeMap}
use proxybroker_rs.Types.AnonLevel.{AnonLevel, level_eq, level_ranked}
use proxybroker_rs.Types.Proto.{Proto, proto_eq, proto_rank, proto_ranked}
use proxybroker_rs.Types.TypeSpec.{TypeSpec}

abbrev pub Entry : Type 0
Entry = Proto × Option AnonLevel

-- An entry of the protocol.
abbrev pub is_of : Proto → Entry → Bool
is_of proto e = proto_rank proto == proto_rank e.0

tree_remove-In :
    (proto : Proto) (e : Entry) (m : TypeMap)
    → In e (tree_remove proto m) ↔ (In e m × (is_of proto e ≡ false))
unfolding tree_remove
tree_remove-In proto e [] = (λ h. absurd h, λ h. h.0)
tree_remove-In proto e ((q, l) ∷ m) = ground (arith, tree_remove-In proto e m)

pub remove_all-In :
    (es : List Entry) (e : Entry) (m : TypeMap)
    → In e (remove_all es m) ↔ (In e m × (any (λ x. is_of x.0 e) es ≡ false))
unfolding remove_all
remove_all-In [] e m = (λ h. (h, refl), λ h. h.0)
remove_all-In ((q, l) ∷ es) e m =
    ground (arith, remove_all-In es e (tree_remove q m), tree_remove-In q e m)

any-false :
    {A : Type 0} (p : A → Bool) (a : A) (xs : List A) → any p xs ≡ false → In a xs → p a ≡ false
any-false p a xs h m = elim (Bool-cases (p a)) [
  | inl yes' ↦ cc (In-any p a xs m yes', h)
  | inr no' ↦ no'
]

-- The entries that the strict check removes.
abbrev pub misfits : Wanted → TypeMap → List Entry
misfits wanted m = keep (λ e. not (matches true wanted e)) m

survivor-matches :
    (wanted : Wanted) (e : Entry) (m : TypeMap)
    → In e (remove_all (misfits wanted m) m)
    → In e m × (matches true wanted e ≡ true)
survivor-matches wanted e m h =
    let (held, clear) = (remove_all-In (misfits wanted m) e m).0 h in
    (
      held,
      elim (Bool-cases (matches true wanted e)) [
        | inl good ↦ good
        | inr bad ↦
            let listed = keep-In (λ x. not (matches true wanted x)) e m held (rw bad refl) in
            cc (any-false (λ x. is_of x.0 e) e _ clear listed, ==-refl (proto_rank e.0))
      ],
    )

module _ {F : Type 0} where
  -- The strict check of a request leaves only confirmed types that match, and admits the proxy
  -- exactly when a type is left.
  pub types_passed-strict :
      (requested : List TypeSpec) (p : Proxy F) (e : Entry)
      → is_empty requested ≡ false
      → In e (types_passed requested true p).1.types
      → In e p.types
        × (matches true (wanted_from [] requested) e ≡ true)
        × ((types_passed requested true p).0 ≡ true)
  unfolding types_passed
  types_passed-strict [] p e asked held = cc asked
  types_passed-strict (s ∷ ss) p e asked held =
      let (was, good) = survivor-matches (wanted_from [] (s ∷ ss)) e p.types held in
      (was, good, rw (In-nonempty e _ held) refl)

  -- The strict check removes no type but those of a protocol that has an entry that does not match.
  pub types_passed-kept :
      (requested : List TypeSpec) (p : Proxy F) (e : Entry)
      → In e p.types
      → any (λ x. is_of x.0 e) (misfits (wanted_from [] requested) p.types) ≡ false
      → In e (types_passed requested true p).1.types
  unfolding types_passed
  types_passed-kept [] p e held clear = held
  types_passed-kept (s ∷ ss) p e held clear =
      (remove_all-In (misfits (wanted_from [] (s ∷ ss)) p.types) e p.types).1 (held, clear)
