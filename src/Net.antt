-- ===== src/Net.antt =====
-- The addresses of `std::net`: an IPv4 address as a number below 2 ^ 32, IPv6 below 2 ^ 128.
use proxybroker_rs.Prelude.{Bool, List, [], any, false, true, ℕ, ℕ_discrete, ◌%◌, ◌/◌, ◌^◌, ◌∷◌}
use proxybroker_rs.Prelude.Equality.{Eq, list_eq, nat_eq, ◌==◌}

pub data IpAddr : Type 0 where
  v4 v6 : ℕ → IpAddr

unfoldable pub IpAddr-discrete : Discrete IpAddr
IpAddr-discrete = hlevel ℕ_discrete

instance abbrev pub ip_eq : Eq IpAddr
ip_eq = record { dec = IpAddr-discrete }

abbrev pub Addr : Type 0
Addr = IpAddr × ℕ

unfoldable pub Addr-discrete : Discrete Addr
unfolding IpAddr-discrete
Addr-discrete = hlevel (IpAddr-discrete, ℕ_discrete)

instance abbrev pub addr_eq : Eq Addr
addr_eq = record { dec = Addr-discrete }

-- A set of addresses as a list.
abbrev pub memb : Addr → List Addr → Bool
memb a s = any (λ b. b == a) s

-- `is_loopback`: 127.0.0.0/8, or ::1.
unfoldable pub is_loopback : IpAddr → Bool
is_loopback (v4 n) = n / 2 ^ 24 == 127
is_loopback (v6 n) = n == 1

unfoldable pub is_unspecified : IpAddr → Bool
is_unspecified (v4 n) = n == 0
is_unspecified (v6 n) = n == 0

abbrev pub is_v6 : IpAddr → Bool
is_v6 (v4 n) = false
is_v6 (v6 n) = true

-- The octets of an IPv4 address, the first one first.
unfoldable pub octets : ℕ → List ℕ
octets n = n / 2 ^ 24 % 256 ∷ n / 2 ^ 16 % 256 ∷ n / 2 ^ 8 % 256 ∷ n % 256 ∷ []
