-- ===== src/Pool/Waiting.antt =====
-- `Pool::get`: it does not wait for ever once the source has ended, and what it hands out is fit.
use proxybroker_rs.Float.{Float, nat_float}
use proxybroker_rs.Pool.Checkout.{try_select-IsSamePool}
use proxybroker_rs.Pool.Get.{
  Lease, Round, get, get_from, lease_of, on_choice, passes, verify_max_attempts, waiting,
}
use proxybroker_rs.Pool.State.{
  ClientKey, Pool, add_proxy, client_key_eq, import_end, import_one, put_failed, put_inner, put_ok,
  remove, strategy_eq,
}
use proxybroker_rs.Pool.Steps.{
  PoolOp, act, act_all, adds, import_ends, imports, puts_failed, puts_ok, removes, selects,
  try_select,
}
use proxybroker_rs.Prelude.{
  Bool-cases, List, Option, [], arith, inl, inr, leb, length, none, refl, some, true, ℕ, ◌+◌, ◌<◌,
  ◌∙◌, ◌∷◌, ◌≡◌, ◌≢◌, ◌≤◌,
}
use proxybroker_rs.Proxy.Record.{Proxy}
use proxybroker_rs.Types.Scheme.{Scheme, scheme_eq}

module _ {F : Type 0} ⦃f : Float F⦄ where
  -- No step of another task makes an ended source run again.
  pub act-exhausted :
      (pool : Pool F) (o : PoolOp F) → pool.exhausted ≡ true → (act pool o).exhausted ≡ true
  unfolding act import_one import_end put_ok put_failed put_inner add_proxy remove
  act-exhausted pool (imports p) h = ground arith
  act-exhausted pool import_ends h = refl
  act-exhausted pool (puts_ok p) h = ground arith
  act-exhausted pool (puts_failed p now) h = ground arith
  act-exhausted pool (adds p) h = ground arith
  act-exhausted pool (removes host port) h = h
  act-exhausted pool (selects scheme key now) h =
      (try_select-IsSamePool pool scheme key now).same_exhausted ∙ h

  pub act_all-exhausted :
      (os : List (PoolOp F)) (pool : Pool F)
      → pool.exhausted ≡ true
      → (act_all pool os).exhausted ≡ true
  unfolding act_all
  act_all-exhausted [] pool h = h
  act_all-exhausted (o ∷ os) pool h = act_all-exhausted os (act pool o) (act-exhausted pool o h)

  pub put_failed-exhausted :
      (pool : Pool F) (p : Proxy F) (now : ℕ) → (put_failed pool p now).exhausted ≡ pool.exhausted
  unfolding put_failed put_inner
  put_failed-exhausted pool p now = ground arith

  lease_of-ne-waiting : (o : Option (Proxy F)) → lease_of o ≢ waiting
  lease_of-ne-waiting none e = cc
  lease_of-ne-waiting (some p) e = cc

  on_choice-returns :
      (r : Round F) (scheme : Scheme) (key : ClientKey) (attempts : ℕ)
      (again : ℕ → Pool F → Lease F × Pool F) (c : Option (Proxy F) × Pool F)
      → c.1.exhausted ≡ true
      → ((q : Pool F)
          → q.exhausted ≡ true
          → attempts + 1 < verify_max_attempts
          → (again (attempts + 1) q).0 ≢ waiting)
      → (on_choice r scheme key attempts again c).0 ≢ waiting
  on_choice-returns r scheme key attempts again (none, left) h rest e =
      lease_of-ne-waiting _ (rw (act_all-exhausted r.between left h) at e)
  on_choice-returns r scheme key attempts again (some p, left) h rest e =
      elim (Bool-cases (passes left.config r.alive p)) [
        | inl ok ↦ cc (rw ok at e)
        | inr ko ↦ elim (Bool-cases (leb verify_max_attempts (attempts + 1))) [
          | inl full ↦ cc (rw (ko, full) at e)
          | inr more ↦
              let benched = put_failed (act_all left r.between) p r.later in
              let still : benched.exhausted ≡ true =
                put_failed-exhausted _ p r.later ∙ act_all-exhausted r.between left h in
              rest (act_all benched r.after) (act_all-exhausted r.after benched still)
                (ground (arith, more)) (rw (ko, more) at e)
        ]
      ]

  pub get_from-returns :
      (rs : List (Round F)) (attempts : ℕ) (scheme : Scheme) (key : ClientKey) (pool : Pool F)
      → pool.exhausted ≡ true
      → attempts < verify_max_attempts
      → verify_max_attempts ≤ attempts + length rs
      → (get_from rs attempts scheme key pool).0 ≢ waiting
  unfolding get_from
  get_from-returns [] attempts scheme key pool h lt le = absurd (omega arith)
  get_from-returns (r ∷ rs) attempts scheme key pool h lt le =
      on_choice-returns r scheme key attempts (λ n q. get_from rs n scheme key q)
        (try_select pool scheme key r.now)
        ((try_select-IsSamePool pool scheme key r.now).same_exhausted ∙ h)
        λ q ended more. get_from-returns rs (attempts + 1) scheme key q ended more (omega arith)

  -- Once the source of a pool has ended, `get` answers within eight rounds, whatever other tasks
  -- do to the pool meanwhile and whatever the probes answer.
  pub get-returns :
      (rounds : List (Round F)) (scheme : Scheme) (key : ClientKey) (pool : Pool F)
      → pool.exhausted ≡ true
      → verify_max_attempts ≤ length rounds
      → (get rounds scheme key pool).0 ≢ waiting
  unfolding get
  get-returns rounds scheme key pool h le =
      get_from-returns rounds 0 scheme key pool h (omega arith) (omega arith)

  on_choice-exhausted :
      (r : Round F) (scheme : Scheme) (key : ClientKey) (attempts : ℕ)
      (again : ℕ → Pool F → Lease F × Pool F) (c : Option (Proxy F) × Pool F)
      → c.1.exhausted ≡ true
      → ((n : ℕ) (q : Pool F) → q.exhausted ≡ true → (again n q).1.exhausted ≡ true)
      → (on_choice r scheme key attempts again c).1.exhausted ≡ true
  on_choice-exhausted r scheme key attempts again (none, left) h rest =
      let seen = act_all left r.between in
      let q = act_all seen r.after in
      let ended = act_all-exhausted r.after seen (act_all-exhausted r.between left h) in
      ground (
        arith,
        rest attempts q ended,
        (try_select-IsSamePool q scheme key r.later).same_exhausted,
        ended,
      )
  on_choice-exhausted r scheme key attempts again (some p, left) h rest =
      let benched = put_failed (act_all left r.between) p r.later in
      let still : benched.exhausted ≡ true =
        put_failed-exhausted _ p r.later ∙ act_all-exhausted r.between left h in
      ground (
        arith,
        rest (attempts + 1) (act_all benched r.after) (act_all-exhausted r.after benched still),
        still,
        h,
      )

  get_from-exhausted :
      (rs : List (Round F)) (attempts : ℕ) (scheme : Scheme) (key : ClientKey) (pool : Pool F)
      → pool.exhausted ≡ true
      → (get_from rs attempts scheme key pool).1.exhausted ≡ true
  unfolding get_from
  get_from-exhausted [] attempts scheme key pool h = h
  get_from-exhausted (r ∷ rs) attempts scheme key pool h =
      on_choice-exhausted r scheme key attempts (λ n q. get_from rs n scheme key q)
        (try_select pool scheme key r.now)
        ((try_select-IsSamePool pool scheme key r.now).same_exhausted ∙ h)
        λ n q ended. get_from-exhausted rs n scheme key q ended

  pub get-exhausted :
      (rounds : List (Round F)) (scheme : Scheme) (key : ClientKey) (pool : Pool F)
      → pool.exhausted ≡ true
      → (get rounds scheme key pool).1.exhausted ≡ true
  unfolding get
  get-exhausted rounds scheme key pool h = get_from-exhausted rounds 0 scheme key pool h
