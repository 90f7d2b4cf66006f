-- ===== src/Watch.antt =====
-- src/watch.rs, `reconcile`: bringing a live pool to the contents of a watched file.
use proxybroker_rs.Net.{Addr, addr_eq, ip_eq}
use proxybroker_rs.Pool.State.{Pool, add_proxy, addrs, client_key_eq, remove, strategy_eq}
use proxybroker_rs.Prelude.{Bool, List, [], any, if◌then◌else◌, map, ◌∷◌}
use proxybroker_rs.Prelude.Equality.{list_eq, nat_eq, ◌==◌}
use proxybroker_rs.Proxy.Record.{Proxy, addr_of}

abbrev pub has_addr : Addr → List Addr → Bool
has_addr a known = any (λ b. b == a) known

module _ {F : Type 0} where
  unfoldable pub remove_unwanted : List Addr → List Addr → Pool F → Pool F
  remove_unwanted want [] pool = pool
  remove_unwanted want (a ∷ more) pool =
      remove_unwanted want more (if has_addr a want then pool else (remove pool a.0 a.1).0)

  unfoldable pub add_missing : List Addr → List (Proxy F) → Pool F → Pool F
  add_missing current [] pool = pool
  add_missing current (p ∷ ps) pool =
      add_missing current ps (if has_addr (addr_of p) current then pool else add_proxy pool p)

  unfoldable pub reconcile : Pool F → List (Proxy F) → Pool F
  unfolding remove_unwanted add_missing
  reconcile pool desired =
      add_missing (addrs pool) desired (remove_unwanted (map addr_of desired) (addrs pool) pool)
