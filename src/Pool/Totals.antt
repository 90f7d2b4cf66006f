-- ===== src/Pool/Totals.antt =====
-- Proxies are neither lost nor made: what a pool holds and what it has evicted.
use mathlib.Core.Logic.{∥∥₁_elim}
use native.Mathlib.Nat.{ℕ_set}
use mathlib.Core.List.{Permᴰ}
use proxybroker_rs.Float.{Float, nat_float}
use proxybroker_rs.Pool.Checkout.{try_select-IsCheckedOut, try_select-IsSamePool, try_select-none}
use proxybroker_rs.Pool.Get.{
  Lease, Round, get, get_from, last_look, lease_of, leased, no_proxy, on_choice, passes,
  verify_max_attempts, waiting,
}
use proxybroker_rs.Pool.State.{
  ClientKey, Pool, Pooled, client_key_eq, put_failed, put_inner, put_ok, strategy_eq, u64_mod,
}
use proxybroker_rs.Pool.Steps.{PoolOp, act_all, try_select}
use proxybroker_rs.Prelude.{
  All, List, Option, Option-cases, Perm, [], ap, arith, if-cases, if◌then◌else◌, inl, inr, leb,
  length, length-append, none, refl, some, subst, sym, ℕ, ◌+◌, ◌<◌, ◌∙◌, ◌∷◌, ◌≡◌,
}
use proxybroker_rs.Proxy.Record.{Proxy}
use proxybroker_rs.Types.Scheme.{Scheme, scheme_eq}

module _ {A : Type 0} where
  Permᴰ-length : (xs ys : List A) → Permᴰ xs ys → length xs ≡ length ys
  Permᴰ-length _ _ Permᴰ.nil = refl
  Permᴰ-length (_ ∷ xs) (_ ∷ ys) (Permᴰ.cons e p) = omega (arith, Permᴰ-length xs ys p)
  Permᴰ-length _ _ (Permᴰ.swap e e') = refl
  Permᴰ-length xs ys (Permᴰ.trans {l₂ = zs} p q) = Permᴰ-length xs zs p ∙ Permᴰ-length zs ys q

  Perm-length : (xs ys : List A) → Perm xs ys → length xs ≡ length ys
  Perm-length xs ys perm = ∥∥₁_elim perm (ℕ_set (length xs) (length ys)) (Permᴰ-length xs ys)

module _ {F : Type 0} where
  -- The pooled proxies and the evicted ones.
  unfoldable pub total : Pool F → ℕ
  total pool = length pool.state + pool.evictions

  -- A proxy that is out on lease.
  abbrev pub debt : Lease F → ℕ
  debt (leased p) = 1
  debt no_proxy = 0
  debt waiting = 0

module _ {F : Type 0} ⦃f : Float F⦄ where
  put_inner-total :
      (pool : Pool F) (p : Proxy F) (blocked : Option ℕ)
      → total pool + 1 < u64_mod
      → total (put_inner pool p blocked) ≡ total pool + 1
  unfolding put_inner total
  put_inner-total pool p blocked small =
      ground (arith, length-append pool.state (record { proxy = p; blocked_until = blocked } ∷ []))

  pub put_ok-total :
      (pool : Pool F) (p : Proxy F)
      → total pool + 1 < u64_mod
      → total (put_ok pool p) ≡ total pool + 1
  unfolding put_ok
  put_ok-total pool p small = put_inner-total pool p none small

  pub put_failed-total :
      (pool : Pool F) (p : Proxy F) (now : ℕ)
      → total pool + 1 < u64_mod
      → total (put_failed pool p now) ≡ total pool + 1
  unfolding put_failed
  put_failed-total pool p now small = put_inner-total pool p _ small

  abbrev taken : Option (Proxy F) → ℕ
  taken none = 0
  taken (some p) = 1

  try_select-total :
      (pool : Pool F) (scheme : Scheme) (key : ClientKey) (now : ℕ)
      → total (try_select pool scheme key now).1 + taken (try_select pool scheme key now).0
        ≡ total pool
  unfolding total
  try_select-total pool scheme key now =
      let same = (try_select-IsSamePool pool scheme key now).same_evictions in
      elim (Option-cases (try_select pool scheme key now).0) [
        | inl nothing ↦
            let kept =
              ap (λ (ps : List (Pooled F)). length ps)
                (try_select-none pool scheme key now nothing).1 in
            rw nothing (omega (arith, same, kept))
        | inr (p, found) ↦
            let out = try_select-IsCheckedOut pool scheme key now p found in
            let moved = Perm-length _ _ out.conserved in rw found (omega (arith, same, moved))
      ]

  -- No other task touches the pool during the round.
  abbrev pub IsQuiet : Round F → Type 0
  IsQuiet r = (r.between ≡ []) × (r.after ≡ [])

  act_all-quiet : (pool : Pool F) (os : List (PoolOp F)) → os ≡ [] → act_all pool os ≡ pool
  unfolding act_all
  act_all-quiet pool os e = rw e refl

  lease_of-debt : (o : Option (Proxy F)) → debt (lease_of o) ≡ taken o
  lease_of-debt none = refl
  lease_of-debt (some p) = refl

  -- The account of an outcome.
  abbrev Balances : ℕ → Lease F × Pool F → Type 0
  Balances whole out = total out.1 + debt out.0 ≡ whole

  pub quiet-total :
      (pool : Pool F) (os : List (PoolOp F)) → os ≡ [] → total (act_all pool os) ≡ total pool
  quiet-total pool os e = ap (λ (q : Pool F). total q) (act_all-quiet pool os e)

  last_look-Balances :
      (r : Round F) (scheme : Scheme) (key : ClientKey) (whole : ℕ) (pool : Pool F)
      → IsQuiet r
      → total pool ≡ whole
      → Balances whole (last_look r scheme key pool)
  last_look-Balances r scheme key whole pool quiet sum =
      let q = act_all pool r.after in
      omega (
        arith,
        lease_of-debt (try_select q scheme key r.later).0,
        try_select-total q scheme key r.later,
        quiet-total pool r.after quiet.1,
        sum,
      )

  on_choice-Balances :
      (r : Round F) (scheme : Scheme) (key : ClientKey) (attempts whole : ℕ)
      (again : ℕ → Pool F → Lease F × Pool F) (c : Option (Proxy F) × Pool F)
      → IsQuiet r
      → whole < u64_mod
      → total c.1 + taken c.0 ≡ whole
      → ((n : ℕ) (q : Pool F) → total q ≡ whole → Balances whole (again n q))
      → Balances whole (on_choice r scheme key attempts again c)
  on_choice-Balances r scheme key attempts whole again (none, left) quiet small sum rest =
      let seen = act_all left r.between in
      let kept : total seen ≡ whole = omega (arith, quiet-total left r.between quiet.0, sum) in
      let later = act_all seen r.after in
      elim (if-cases seen.exhausted (last_look r scheme key seen) (again attempts later)) [
        | inl (_, e) ↦
            subst (Balances whole) (sym e) (last_look-Balances r scheme key whole seen quiet kept)
        | inr (_, e) ↦
            subst (Balances whole) (sym e)
              (rest attempts later (omega (arith, quiet-total seen r.after quiet.1, kept)))
      ]
  on_choice-Balances r scheme key attempts whole again (some p, left) quiet small sum rest =
      let seen = act_all left r.between in
      let benched = put_failed seen p r.later in
      let later = act_all benched r.after in
      let next =
        if leb verify_max_attempts (attempts + 1)
        then (no_proxy, benched)
        else again (attempts + 1) later in
      let same = quiet-total left r.between quiet.0 in
      let kept : total benched ≡ whole =
        omega
          (arith, put_failed-total seen p r.later (omega (arith, same, sum, small)), same, sum) in
      elim (if-cases (passes left.config r.alive p) (leased p, left) next) [
        | inl (_, e) ↦ subst (Balances whole) (sym e) sum
        | inr (_, e) ↦
            subst (Balances whole) (sym e)
              (elim (if-cases (leb verify_max_attempts (attempts + 1)) (no_proxy, benched)
                (again (attempts + 1) later)) [
                  | inl (_, e') ↦ subst (Balances whole) (sym e') (omega (arith, kept))
                  | inr (_, e') ↦ subst (Balances whole) (sym e') (
                      rest (attempts + 1) later
                        (omega (arith, quiet-total benched r.after quiet.1, kept)))
                ])
      ]

  get_from-Balances :
      (rs : List (Round F)) (attempts : ℕ) (scheme : Scheme) (key : ClientKey) (pool : Pool F)
      → All IsQuiet rs
      → total pool < u64_mod
      → Balances (total pool) (get_from rs attempts scheme key pool)
  unfolding get_from
  get_from-Balances [] attempts scheme key pool quiet small = omega arith
  get_from-Balances (r ∷ rs) attempts scheme key pool quiet small =
      on_choice-Balances r scheme key attempts (total pool) (λ n q. get_from rs n scheme key q)
        (try_select pool scheme key r.now) quiet.0 small (try_select-total pool scheme key r.now)
        λ n q e.
          subst (λ (whole : ℕ). Balances whole (get_from rs n scheme key q)) e
            (get_from-Balances rs n scheme key q quiet.1 (omega (arith, e, small)))

  -- While no other task touches the pool, the proxies that `get` leaves in the pool, those it has
  -- evicted and the one it hands out are together as many as there were.
  pub get-Balances :
      (rounds : List (Round F)) (scheme : Scheme) (key : ClientKey) (pool : Pool F)
      → All IsQuiet rounds
      → total pool < u64_mod
      → total (get rounds scheme key pool).1 + debt (get rounds scheme key pool).0 ≡ total pool
  unfolding get
  get-Balances rounds scheme key pool quiet small =
      get_from-Balances rounds 0 scheme key pool quiet small
