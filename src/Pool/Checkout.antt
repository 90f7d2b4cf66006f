-- ===== src/Pool/Checkout.antt =====
-- `try_select`: what leaves the pool, and what stays.
use proxybroker_rs.Float.{Float, nat_float}
use proxybroker_rs.Maps.{
  HashMap, hash_get, hash_get-insert, hash_has, length-hash_insert, length-hash_remove-lt,
}
use proxybroker_rs.Net.{Addr, addr_eq, ip_eq}
use proxybroker_rs.Pool.BestFor.{IsEligible, best_for-none_iff, best_for_sound}
use proxybroker_rs.Pool.Select.{Slot, best_for}
use proxybroker_rs.Pool.State.{
  ClientKey, Pool, Pooled, Strategy, addr_in, client_key_eq, strategy_eq,
}
use proxybroker_rs.Pool.Steps.{
  ctx_for, drop_first, pin_session, record_session, settle, take_choice, take_slot, try_select,
}
use proxybroker_rs.Prelude.{
  List, Option, Perm, [], ap, arith, inl, inr, length, max, none, refl, some, subst,
  swap_remove-perm, sym, true, ℕ, ◌-◌, ◌∙◌, ◌∷◌, ◌≡◌, ◌≤◌, ◌⊎◌,
}
use proxybroker_rs.Prelude.Equality.{==-refl, list_eq, nat_eq}
use proxybroker_rs.Proxy.Measures.{serves}
use proxybroker_rs.Proxy.Record.{Proxy}
use proxybroker_rs.Types.Scheme.{Scheme, scheme_eq}

drop_first-le : (m : HashMap ClientKey Addr) → length (drop_first m) ≤ length m - 1
drop_first-le [] = omega arith
drop_first-le ((k, a) ∷ m) =
    let here : hash_has k ((k, a) ∷ m) ≡ true =
      unfold hash_has hash_get in ground (arith, ==-refl k) in
    omega (arith, length-hash_remove-lt k ((k, a) ∷ m) here)

pin_session-le :
    (limit : ℕ) (key : ClientKey) (addr : Addr) (m : HashMap ClientKey Addr)
    → length m ≤ max limit 1
    → length (pin_session limit key addr m) ≤ max limit 1
unfolding pin_session
pin_session-le limit key addr m fit = ground (
  arith,
  length-hash_insert key addr m,
  length-hash_insert key addr (drop_first m),
  drop_first-le m,
)

pin_session-get :
    (limit : ℕ) (key : ClientKey) (addr : Addr) (m : HashMap ClientKey Addr)
    → hash_get key (pin_session limit key addr m) ≡ some addr
unfolding pin_session
pin_session-get limit key addr m = hash_get-insert key key addr _ ∙ rw (==-refl key) refl

module _ {F : Type 0} where
  settle-state :
      (st : Strategy) (pool : Pool F) (key : ClientKey) (addr : Addr)
      → (settle st pool key addr).state ≡ pool.state
  unfolding settle record_session
  settle-state st pool key addr = ground arith

  settle-exhausted :
      (st : Strategy) (pool : Pool F) (key : ClientKey) (addr : Addr)
      → (settle st pool key addr).exhausted ≡ pool.exhausted
  unfolding settle record_session
  settle-exhausted st pool key addr = ground arith

  settle-evictions :
      (st : Strategy) (pool : Pool F) (key : ClientKey) (addr : Addr)
      → (settle st pool key addr).evictions ≡ pool.evictions
  unfolding settle record_session
  settle-evictions st pool key addr = ground arith

  settle-config :
      (st : Strategy) (pool : Pool F) (key : ClientKey) (addr : Addr)
      → (settle st pool key addr).config ≡ pool.config
  unfolding settle record_session
  settle-config st pool key addr = ground arith

  abbrev pub SessionsFit : Pool F → Type 0
  SessionsFit pool = length pool.sessions ≤ max pool.config.max_sessions 1

  -- Recording a session pins the client to the address, and the map stays within `max_sessions`
  -- entries (one, if that is 0).
  pub record_session_lem :
      (pool : Pool F) (key : ClientKey) (addr : Addr)
      → SessionsFit pool
      → SessionsFit (record_session pool key addr)
        × (hash_get key (record_session pool key addr).sessions ≡ some addr)
  unfolding record_session
  record_session_lem pool key addr fit = (
    pin_session-le pool.config.max_sessions key addr pool.sessions fit,
    pin_session-get pool.config.max_sessions key addr pool.sessions,
  )

  settle-SessionsFit :
      (st : Strategy) (pool : Pool F) (key : ClientKey) (addr : Addr)
      → SessionsFit pool
      → SessionsFit (settle st pool key addr)
  unfolding settle
  settle-SessionsFit Strategy.sticky pool key addr fit = (record_session_lem pool key addr fit).0
  settle-SessionsFit _ pool key addr fit = fit

module _ {F : Type 0} ⦃f : Float F⦄ where
  choice-cases :
      (pool : Pool F) (key : ClientKey) (r : Option (Slot F) × ℕ)
      → ((r.0 ≡ none) × (take_choice pool key r ≡ (none, record pool { rng = r.1 })))
        ⊎ ((s : Slot F) × (r.0 ≡ some s)
            × (take_choice pool key r
                ≡ (some s.1.proxy, take_slot (record pool { rng = r.1 }) key s)))
  choice-cases pool key (none, rng) = inl (refl, refl)
  choice-cases pool key (some s, rng) = inr (s, refl, refl)

  -- The two outcomes of a selection.
  pub try_select-cases :
      (pool : Pool F) (scheme : Scheme) (key : ClientKey) (now : ℕ)
      → let r = best_for pool.state (ctx_for pool scheme key now) pool.rng in
        ((r.0 ≡ none) × (try_select pool scheme key now ≡ (none, record pool { rng = r.1 })))
        ⊎ ((s : Slot F) × (r.0 ≡ some s)
            × (try_select pool scheme key now
                ≡ (some s.1.proxy, take_slot (record pool { rng = r.1 }) key s)))
  unfolding try_select
  try_select-cases pool scheme key now =
      choice-cases pool key (best_for pool.state (ctx_for pool scheme key now) pool.rng)

  -- What a selection leaves alone.
  pub record IsSamePool (old new : Pool F) : Type 0 where
    pub same_config : new.config ≡ old.config
    pub same_exhausted : new.exhausted ≡ old.exhausted
    pub same_evictions : new.evictions ≡ old.evictions
    pub fit : SessionsFit old → SessionsFit new

  take_slot-IsSamePool :
      (pool : Pool F) (rng : ℕ) (key : ClientKey) (s : Slot F)
      → IsSamePool pool (take_slot (record pool { rng = rng }) key s)
  unfolding take_slot
  take_slot-IsSamePool pool rng key s = record {
    same_config = settle-config pool.config.strategy _ key (addr_in s.1);
    same_exhausted = settle-exhausted pool.config.strategy _ key (addr_in s.1);
    same_evictions = settle-evictions pool.config.strategy _ key (addr_in s.1);
    fit = λ h. settle-SessionsFit pool.config.strategy _ key (addr_in s.1) h;
  }

  -- A selection changes neither the configuration nor the end of the source nor the count of
  -- evictions, and keeps the session map within its bound.
  pub try_select-IsSamePool :
      (pool : Pool F) (scheme : Scheme) (key : ClientKey) (now : ℕ)
      → IsSamePool pool (try_select pool scheme key now).1
  try_select-IsSamePool pool scheme key now = elim (try_select-cases pool scheme key now) [
    | inl (_, e) ↦
        subst (λ (r : Option (Proxy F) × Pool F). IsSamePool pool r.1) (sym e)
          (record {
            same_config = refl;
            same_exhausted = refl;
            same_evictions = refl;
            fit = λ h. h;
          })
    | inr (s, _, e) ↦
        subst (λ (r : Option (Proxy F) × Pool F). IsSamePool pool r.1) (sym e)
          (take_slot-IsSamePool pool _ key s)
  ]

  -- What a selection gives: a pooled proxy that serves the scheme, taken out of the pool, whose
  -- other proxies are still there, each as often as before.
  pub record IsCheckedOut (pool : Pool F) (scheme : Scheme) (p : Proxy F) (left : Pool F)
      : Type 0 where
    pub slot : Pooled F
    pub same : slot.proxy ≡ p
    pub serving : serves scheme p ≡ true
    pub conserved : Perm pool.state (slot ∷ left.state)

  -- A proxy that is selected serves the scheme and leaves the pool; the pool's other proxies are
  -- still there, each as often as before.
  pub try_select-IsCheckedOut :
      (pool : Pool F) (scheme : Scheme) (key : ClientKey) (now : ℕ) (p : Proxy F)
      → (try_select pool scheme key now).0 ≡ some p
      → IsCheckedOut pool scheme p (try_select pool scheme key now).1
  unfolding ctx_for take_slot
  try_select-IsCheckedOut pool scheme key now p e = elim (try_select-cases pool scheme key now) [
    | inl (_, e0) ↦ cc (ap (λ (r : Option (Proxy F) × Pool F). r.0) e0)
    | inr (s, chosen, e0) ↦
        let ctx = ctx_for pool scheme key now in
        let el = (best_for_sound pool.state ctx pool.rng s chosen).0 in
        let same : s.1.proxy ≡ p = cc (ap (λ (r : Option (Proxy F) × Pool F). r.0) e0) in
        let left =
          ap (λ (r : Option (Proxy F) × Pool F). r.1.state) e0
          ∙ settle-state pool.config.strategy _ key (addr_in s.1) in
        record {
          slot = s.1;
          same = same;
          serving = subst (λ (q : Proxy F). serves scheme q ≡ true) same el.serving;
          conserved =
              subst (λ (rest : List (Pooled F)). Perm pool.state (s.1 ∷ rest)) (sym left)
                (swap_remove-perm pool.state s.0 s.1 el.placed);
        }
  ]

  pub try_select-none :
      (pool : Pool F) (scheme : Scheme) (key : ClientKey) (now : ℕ)
      → (try_select pool scheme key now).0 ≡ none
      → ((s : Slot F) → ¬ IsEligible pool.state (ctx_for pool scheme key now) s)
        × ((try_select pool scheme key now).1.state ≡ pool.state)
  try_select-none pool scheme key now e = elim (try_select-cases pool scheme key now) [
    | inl (nothing, e0) ↦ (
      (best_for-none_iff pool.state (ctx_for pool scheme key now) pool.rng).0 nothing,
      ap (λ (r : Option (Proxy F) × Pool F). r.1.state) e0,
    )
    | inr (s, _, e0) ↦ cc (ap (λ (r : Option (Proxy F) × Pool F). r.0) e0)
  ]

  -- When nothing is selected, no pooled proxy serves the scheme, and the pool keeps its proxies.
  pub try_select-nothing :
      (pool : Pool F) (scheme : Scheme) (key : ClientKey) (now : ℕ) (s : Slot F)
      → (try_select pool scheme key now).0 ≡ none
      → (¬ IsEligible pool.state (ctx_for pool scheme key now) s)
        × ((try_select pool scheme key now).1.state ≡ pool.state)
  try_select-nothing pool scheme key now s e =
      let (unfit, kept) = try_select-none pool scheme key now e in (unfit s, kept)
