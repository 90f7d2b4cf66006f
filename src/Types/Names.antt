-- ===== src/Types/Names.antt =====
-- The names of the protocols are read back, in any letter case.
use mathlib.Core.List.{head?}
use proxybroker_rs.Prelude.{
  In-head?, In-keep, Option, keep, refl, some, subst, true, ℕ_discrete, ◌↔◌, ◌≡◌,
}
use proxybroker_rs.Prelude.Equality.{==_iff, list_discrete, list_eq, nat_eq, ◌==◌}
use proxybroker_rs.Text.{Text, lowercase, same_letters, to_lower}
use proxybroker_rs.Types.Proto.{Proto, all_protos, as_str, from_str, proto_eq, proto_ranked}

abbrev find_lowercase : Text → Option Proto
find_lowercase u = head? (keep (λ p. lowercase (as_str p) == u) all_protos)

find_lowercase-as_str : (p : Proto) → find_lowercase (lowercase (as_str p)) ≡ some p
unfolding lowercase to_lower list_discrete ℕ_discrete
find_lowercase-as_str Proto.http = refl
find_lowercase-as_str Proto.https = refl
find_lowercase-as_str Proto.socks4 = refl
find_lowercase-as_str Proto.socks5 = refl
find_lowercase-as_str Proto.connect80 = refl
find_lowercase-as_str Proto.connect25 = refl

-- `from_str` reads a text as a protocol exactly when the text is the protocol's name up to letter
-- case: no name is read as another protocol, and every name is read.
pub from_str_lem :
    (s : Text) (p : Proto) → (from_str s ≡ some p) ↔ (same_letters (as_str p) s ≡ true)
unfolding from_str same_letters
from_str_lem s p = (
  λ e.
      (In-keep {A = Proto} (λ q. lowercase (as_str q) == lowercase s) p all_protos
        (In-head? {A = Proto} p _ e)).1,
  λ h. subst (λ (u : Text). find_lowercase u ≡ some p) ((==_iff _ _).0 h) (find_lowercase-as_str p),
)
