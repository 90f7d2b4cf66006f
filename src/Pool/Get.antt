-- ===== src/Pool/Get.antt =====
-- src/server.rs, `Pool::get`: waiting for a proxy, with the probe of verify-on-lease. The loop
-- takes from a list what the environment does in each round; it waits when the list runs out.
use proxybroker_rs.Float.{Float, nat_float}
use proxybroker_rs.Pool.State.{ClientKey, Pool, PoolConfig, client_key_eq, put_failed, strategy_eq}
use proxybroker_rs.Pool.Steps.{PoolOp, act_all, try_select}
use proxybroker_rs.Prelude.{
  Bool, List, Option, [], if◌then◌else◌, is_some, leb, none, not, some, ℕ, ◌+◌, ◌||◌, ◌∷◌,
}
use proxybroker_rs.Proxy.Record.{Proxy}
use proxybroker_rs.Types.Scheme.{Scheme, scheme_eq}

pub record Round (F : Type 0) : Type 0 where
  -- The clock at the selection, and later in the round.
  pub now : ℕ
  pub later : ℕ
  -- What `verify_live` answers, a probe over the network.
  pub alive : Proxy F → Bool
  -- What other tasks do between the selection and the test of `exhausted`, and after that.
  pub between : List (PoolOp F)
  pub after : List (PoolOp F)

pub data Lease (F : Type 0) : Type 0 where
  leased : Proxy F → Lease F
  no_proxy : Lease F
  waiting : Lease F

abbrev pub verify_max_attempts : ℕ
verify_max_attempts = 8

module _ {F : Type 0} where
  abbrev pub lease_of : Option (Proxy F) → Lease F
  lease_of none = no_proxy
  lease_of (some p) = leased p

  -- A proxy is handed out at once unless verify-on-lease is set.
  abbrev pub passes : PoolConfig F → (Proxy F → Bool) → Proxy F → Bool
  passes c alive p = not (is_some c.verify_on_lease) || alive p

module _ {F : Type 0} ⦃f : Float F⦄ where
  abbrev pub last_look : Round F → Scheme → ClientKey → Pool F → Lease F × Pool F
  last_look r scheme key pool =
      let (found, left) = try_select (act_all pool r.after) scheme key r.later in
      (lease_of found, left)

  -- A round after its selection; `again` is the rest of the loop.
  abbrev pub on_choice :
      Round F
      → Scheme
      → ClientKey
      → ℕ
      → (ℕ → Pool F → Lease F × Pool F)
      → Option (Proxy F) × Pool F
      → Lease F × Pool F
  on_choice r scheme key attempts again (some p, left) =
      if passes left.config r.alive p
      then (leased p, left)
      else let benched = put_failed (act_all left r.between) p r.later in
        if leb verify_max_attempts (attempts + 1)
        then (no_proxy, benched)
        else again (attempts + 1) (act_all benched r.after)
  on_choice r scheme key attempts again (none, left) =
      let seen = act_all left r.between in
      if seen.exhausted then last_look r scheme key seen else again attempts (act_all seen r.after)

  unfoldable pub get_from : List (Round F) → ℕ → Scheme → ClientKey → Pool F → Lease F × Pool F
  get_from [] attempts scheme key pool = (waiting, pool)
  get_from (r ∷ rs) attempts scheme key pool =
      let again = λ (n : ℕ) (q : Pool F). get_from rs n scheme key q in
      on_choice r scheme key attempts again (try_select pool scheme key r.now)

  unfoldable pub get : List (Round F) → Scheme → ClientKey → Pool F → Lease F × Pool F
  unfolding get_from
  get rounds scheme key pool = get_from rounds 0 scheme key pool
