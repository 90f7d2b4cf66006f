-- ===== src/Server/Socks.antt =====
-- src/server.rs: `parse_socks5_request`, the handshake of a SOCKS5 client. The version byte of the
-- greeting has been read.
use proxybroker_rs.Net.{IpAddr, addr_eq, ip_eq}
use proxybroker_rs.Prelude.{
  Bool, List, Option, [], any, get_elem?, if◌then◌else◌, none, not, some, suc, zero, ℕ, ◌&&◌, ◌*◌,
  ◌++◌, ◌+◌, ◌∷◌,
}
use proxybroker_rs.Prelude.Equality.{list_eq, nat_eq, ◌==◌}
use proxybroker_rs.Server.Heads.{or_zero}
use proxybroker_rs.Server.Requests.{
  AuthExpect, ClientRequest, Event, Frontend, IpText, byte, frontend_eq,
}
use proxybroker_rs.Text.{Text}
use proxybroker_rs.Text.Decimal.{show}
use proxybroker_rs.Types.Scheme.{Scheme, scheme_eq}

-- What the client sends, what it has been sent, and how many more writes it takes.
pub record Peer : Type 0 where
  pub incoming : List Event
  pub sent : Text
  pub writes : ℕ

-- A conversation, which a failure ends.
abbrev pub Talk : Type 0 → Type 0
Talk A = Peer → Option A × Peer

abbrev pub continue : {A B : Type 0} → (A → Talk B) → Option A × Peer → Option B × Peer
continue f (none, s) = (none, s)
continue f (some a, s) = f a s

infixl 5 ◌>>=◌ ◌>>◌
abbrev pub ◌>>=◌ : {A B : Type 0} → Talk A → (A → Talk B) → Talk B
◌>>=◌ m f s = continue f (m s)

abbrev pub ◌>>◌ : {B : Type 0} → Talk (Unit {0}) → Talk B → Talk B
m >> k = m >>= λ _. k

abbrev pub done_with : {A : Type 0} → A → Talk A
done_with a s = (some a, s)

abbrev pub stop : {A : Type 0} → Talk A
stop s = (none, s)

abbrev pub add_byte : ℕ → Option (Text × List Event) → Option (Text × List Event)
add_byte c none = none
add_byte c (some (bs, es)) = some (c ∷ bs, es)

unfoldable pub take_bytes : ℕ → List Event → Option (Text × List Event)
take_bytes zero es = some ([], es)
take_bytes (suc n) (byte c ∷ es) = add_byte c (take_bytes n es)
take_bytes (suc n) _ = none

abbrev pub having_read : Peer → Option (Text × List Event) → Option Text × Peer
having_read s none = (none, s)
having_read s (some (bs, es)) = (some bs, record s { incoming = es })

unfoldable pub read_exact : ℕ → Talk Text
unfolding take_bytes
read_exact n s = having_read s (take_bytes n s.incoming)

abbrev pub write_within : ℕ → Text → Talk (Unit {0})
write_within zero bs s = (none, s)
write_within (suc n) bs s = (some tt, record s { sent = s.sent ++ bs; writes = n })

unfoldable pub write_all : Text → Talk (Unit {0})
write_all bs s = write_within s.writes bs s

-- A rejection, whose own failure is ignored.
unfoldable pub reject : {A : Type 0} → Text → Talk A
unfolding write_all
reject bs s = (none, (write_all bs s).1)

-- The byte at a place of a buffer that has been filled.
abbrev pub at_place : Text → ℕ → ℕ
at_place bs i = or_zero (get_elem? bs i)

unfoldable pub read_be : ℕ → Text → ℕ
read_be acc [] = acc
read_be acc (b ∷ bs) = read_be (acc * 256 + b) bs

abbrev pub offers : Text → ℕ → Bool
offers methods m = any (λ x. x == m) methods

-- RFC 1929.
unfoldable pub authenticate : AuthExpect → Talk (Unit {0})
unfolding read_exact write_all reject
authenticate exp = do
  vu ← read_exact 2
  user ← read_exact (at_place vu 1)
  pl ← read_exact 1
  pass ← read_exact (at_place pl 0)
  if user == exp.user && pass == exp.pass then write_all (1 ∷ 0 ∷ []) else reject (1 ∷ 1 ∷ [])

unfoldable pub choose_method : Option AuthExpect → Text → Talk (Unit {0})
unfolding authenticate write_all reject
choose_method none methods =
    if offers methods 0 then write_all (5 ∷ 0 ∷ []) else reject (5 ∷ 255 ∷ [])
choose_method (some exp) methods =
    if offers methods 2 then write_all (5 ∷ 2 ∷ []) >> authenticate exp else reject (5 ∷ 255 ∷ [])

abbrev socks_reply : ℕ → Text
socks_reply rep = 5 ∷ rep ∷ 0 ∷ 1 ∷ 0 ∷ 0 ∷ 0 ∷ 0 ∷ 0 ∷ 0 ∷ []

module _ ⦃t : IpText⦄ where
  abbrev with_port : Text → Talk (Text × ℕ)
  with_port host = do p ← read_exact 2; done_with (host, read_be 0 p)

  -- The address, by its type.
  unfoldable pub read_address : ℕ → Talk (Text × ℕ)
  unfolding read_exact read_be reject
  read_address atyp =
      if atyp == 1
      then (do a ← read_exact 4; with_port (t.show_ip (IpAddr.v4 (read_be 0 a))))
      else if atyp == 4
      then (do a ← read_exact 16; with_port (t.show_ip (IpAddr.v6 (read_be 0 a))))
      else if atyp == 3
      then (do l ← read_exact 1; d ← read_exact (at_place l 0); with_port d)
      else reject (socks_reply 8)

  abbrev tunnel_request : Text × ℕ → ClientRequest
  tunnel_request (host, port) = record {
    scheme = Scheme.https;
    frontend = Frontend.socks5;
    host = host;
    port = port;
    raw = [];
    proxy_auth = none;
    path = host ++ b':' ∷ show port;
  }

  unfoldable pub read_command : Talk ClientRequest
  unfolding read_exact read_address reject show
  read_command = do
    hdr ← read_exact 4
    if not (at_place hdr 0 == 5)
        then stop
        else if not (at_place hdr 1 == 1)
        then reject (socks_reply 7)
        else (do a ← read_address (at_place hdr 3); done_with (tunnel_request a))

  unfoldable pub parse_socks5_request : Option AuthExpect → Talk ClientRequest
  unfolding read_exact choose_method read_command
  parse_socks5_request expected = do
    nmethods ← read_exact 1
    methods ← read_exact (at_place nmethods 0)
    choose_method expected methods
    read_command
