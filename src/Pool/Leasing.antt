-- ===== src/Pool/Leasing.antt =====
-- `Pool::get`: the proxies that it hands out.
use proxybroker_rs.Float.{Float, nat_float}
use proxybroker_rs.Pool.Checkout.{try_select-IsCheckedOut, try_select-IsSamePool}
use proxybroker_rs.Pool.Get.{
  Lease, Round, get, get_from, last_look, lease_of, leased, on_choice, passes, verify_max_attempts,
}
use proxybroker_rs.Pool.State.{
  ClientKey, Pool, PoolConfig, add_proxy, client_key_eq, import_end, import_one, put_failed,
  put_inner, put_ok, remove, strategy_eq,
}
use proxybroker_rs.Pool.Steps.{
  PoolOp, act, act_all, adds, import_ends, imports, puts_failed, puts_ok, removes, selects,
  try_select,
}
use proxybroker_rs.Pool.Waiting.{act_all-exhausted}
use proxybroker_rs.Prelude.{
  Bool, Bool-cases, List, Option, [], any, arith, false, inl, inr, is_some, leb, none, refl, some,
  subst, true, ℕ, ◌+◌, ◌∙◌, ◌∷◌, ◌≡◌,
}
use proxybroker_rs.Proxy.Measures.{serves}
use proxybroker_rs.Proxy.Record.{Proxy}
use proxybroker_rs.Types.Scheme.{Scheme, scheme_eq}

module _ {F : Type 0} ⦃f : Float F⦄ where
  pub act-config : (pool : Pool F) (o : PoolOp F) → (act pool o).config ≡ pool.config
  unfolding act import_one import_end put_ok put_failed put_inner add_proxy remove
  act-config pool (imports p) = ground arith
  act-config pool import_ends = refl
  act-config pool (puts_ok p) = ground arith
  act-config pool (puts_failed p now) = ground arith
  act-config pool (adds p) = ground arith
  act-config pool (removes host port) = refl
  act-config pool (selects scheme key now) = (try_select-IsSamePool pool scheme key now).same_config

  pub act_all-config :
      (os : List (PoolOp F)) (pool : Pool F) → (act_all pool os).config ≡ pool.config
  unfolding act_all
  act_all-config [] pool = refl
  act_all-config (o ∷ os) pool = act_all-config os (act pool o) ∙ act-config pool o

  put_failed-config :
      (pool : Pool F) (p : Proxy F) (now : ℕ) → (put_failed pool p now).config ≡ pool.config
  unfolding put_failed put_inner
  put_failed-config pool p now = ground arith

  lease_of-leased : (o : Option (Proxy F)) (p : Proxy F) → lease_of o ≡ leased p → o ≡ some p
  lease_of-leased none p e = cc
  lease_of-leased (some q) p e = cc

  -- Some round's probe lets the proxy through.
  abbrev pub probed : PoolConfig F → List (Round F) → Proxy F → Bool
  probed c rounds p = any (λ r. passes c r.alive p) rounds

  passed-alive :
      (c : PoolConfig F) (rounds : List (Round F)) (p : Proxy F)
      → is_some c.verify_on_lease ≡ true
      → probed c rounds p ≡ true
      → any (λ r. r.alive p) rounds ≡ true
  passed-alive c [] p asked h = cc h
  passed-alive c (r ∷ rs) p asked h = ground (arith, asked, passed-alive c rs p asked)

  -- A proxy that is handed out serves the scheme; a probe has let it through, unless the source
  -- has ended.
  pub record IsFit (c : PoolConfig F) (rounds : List (Round F)) (scheme : Scheme)
      (out : Lease F × Pool F) : Type 0 where
    pub serving : (p : Proxy F) → out.0 ≡ leased p → serves scheme p ≡ true
    pub probing :
        (p : Proxy F) → out.0 ≡ leased p → out.1.exhausted ≡ false → probed c rounds p ≡ true

  later-IsFit :
      (c : PoolConfig F) (r : Round F) (rs : List (Round F)) (scheme : Scheme)
      (out : Lease F × Pool F)
      → IsFit c rs scheme out
      → IsFit c (r ∷ rs) scheme out
  later-IsFit c r rs scheme out fit = record {
    serving = fit.serving;
    probing = λ p e live. ground (arith, fit.probing p e live);
  }

  try_select-serves :
      (pool : Pool F) (scheme : Scheme) (key : ClientKey) (now : ℕ) (p : Proxy F)
      → (try_select pool scheme key now).0 ≡ some p
      → serves scheme p ≡ true
  try_select-serves pool scheme key now p e =
      (try_select-IsCheckedOut pool scheme key now p e).serving

  last_look-IsFit :
      (c : PoolConfig F) (r : Round F) (rounds : List (Round F)) (scheme : Scheme) (key : ClientKey)
      (seen : Pool F)
      → seen.exhausted ≡ true
      → IsFit c rounds scheme (last_look r scheme key seen)
  last_look-IsFit c r rounds scheme key seen ended =
      let q = act_all seen r.after in
      record {
        serving = λ p e. try_select-serves q scheme key r.later p (lease_of-leased _ p e);
        probing = λ p e live. cc (
          (try_select-IsSamePool q scheme key r.later).same_exhausted
              ∙ act_all-exhausted r.after seen ended,
          live,
        );
      }

  on_choice-IsFit :
      (r : Round F) (rs : List (Round F)) (scheme : Scheme) (key : ClientKey) (attempts : ℕ)
      (again : ℕ → Pool F → Lease F × Pool F) (c : Option (Proxy F) × Pool F)
      → ((p : Proxy F) → c.0 ≡ some p → serves scheme p ≡ true)
      → ((n : ℕ) (q : Pool F) → q.config ≡ c.1.config → IsFit c.1.config rs scheme (again n q))
      → IsFit c.1.config (r ∷ rs) scheme (on_choice r scheme key attempts again c)
  on_choice-IsFit r rs scheme key attempts again (none, left) serving rest =
      let seen = act_all left r.between in
      let same = act_all-config r.after seen ∙ act_all-config r.between left in
      elim (Bool-cases seen.exhausted) [
        | inl ended ↦ simp ended (last_look-IsFit left.config r (r ∷ rs) scheme key seen ended)
        | inr live ↦
            simp live
              (later-IsFit left.config r rs scheme _ (rest attempts (act_all seen r.after) same))
      ]
  on_choice-IsFit r rs scheme key attempts again (some p, left) serving rest =
      let benched = put_failed (act_all left r.between) p r.later in
      let same =
        act_all-config r.after benched
        ∙ put_failed-config _ p r.later
        ∙ act_all-config r.between left in
      elim (Bool-cases (passes left.config r.alive p)) [
        | inl passed ↦ rw passed (record {
          serving = λ q e. serving q (cc e);
          probing = λ q e live. ground (arith, passed);
        })
        | inr unfit ↦ elim (Bool-cases (leb verify_max_attempts (attempts + 1))) [
          | inl full ↦
              rw (unfit, full) (record { serving = λ q e. cc e; probing = λ q e live. cc e })
          | inr more ↦
              rw (unfit, more)
                (later-IsFit left.config r rs scheme _
                  (rest (attempts + 1) (act_all benched r.after) same))
        ]
      ]

  get_from-IsFit :
      (rs : List (Round F)) (attempts : ℕ) (scheme : Scheme) (key : ClientKey) (pool : Pool F)
      → IsFit pool.config rs scheme (get_from rs attempts scheme key pool)
  unfolding get_from
  get_from-IsFit [] attempts scheme key pool = record {
    serving = λ p e. cc e;
    probing = λ p e live. cc e;
  }
  get_from-IsFit (r ∷ rs) attempts scheme key pool =
      let same = (try_select-IsSamePool pool scheme key r.now).same_config in
      subst
        (λ (c : PoolConfig F). IsFit c (r ∷ rs) scheme (get_from (r ∷ rs) attempts scheme key pool))
        same
        (on_choice-IsFit r rs scheme key attempts (λ n q. get_from rs n scheme key q)
          (try_select pool scheme key r.now) (try_select-serves pool scheme key r.now)
          λ n q e.
            subst (λ (c : PoolConfig F). IsFit c rs scheme (get_from rs n scheme key q)) e
              (get_from-IsFit rs n scheme key q))

  get-IsFit :
      (rounds : List (Round F)) (scheme : Scheme) (key : ClientKey) (pool : Pool F)
      → IsFit pool.config rounds scheme (get rounds scheme key pool)
  unfolding get
  get-IsFit rounds scheme key pool = get_from-IsFit rounds 0 scheme key pool

  -- A proxy that `get` hands out serves the requested scheme, whatever other tasks do meanwhile.
  pub get-serves :
      (rounds : List (Round F)) (scheme : Scheme) (key : ClientKey) (pool : Pool F) (p : Proxy F)
      → (get rounds scheme key pool).0 ≡ leased p
      → serves scheme p ≡ true
  get-serves rounds scheme key pool p out = (get-IsFit rounds scheme key pool).serving p out

  -- With verify-on-lease, a proxy that `get` hands out from a pool whose source has not ended has
  -- passed the probe of one of the rounds.
  pub get-probed :
      (rounds : List (Round F)) (scheme : Scheme) (key : ClientKey) (pool : Pool F) (p : Proxy F)
      → is_some pool.config.verify_on_lease ≡ true
      → (get rounds scheme key pool).0 ≡ leased p
      → (get rounds scheme key pool).1.exhausted ≡ false
      → any (λ r. r.alive p) rounds ≡ true
  get-probed rounds scheme key pool p asked out live =
      passed-alive pool.config rounds p asked
        ((get-IsFit rounds scheme key pool).probing p out live)
