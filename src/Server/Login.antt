-- ===== src/Server/Login.antt =====
-- The SOCKS5 handshake with credentials: who gets through.
use proxybroker_rs.Prelude.{
  Bool-cases, List, Option, Option-cases, [], ap, arith, if◌then◌else◌, inl, inr, length, none,
  refl, some, subst, subst₂, suc, sym, true, zero, ℕ, ◌&&◌, ◌++◌, ◌∙◌, ◌∷◌, ◌≡◌,
}
use proxybroker_rs.Prelude.Equality.{==_iff, list_eq, nat_eq, ◌==◌}
use proxybroker_rs.Server.Requests.{
  AuthExpect, ClientRequest, Event, IpText, byte, closed, failed, frontend_eq,
}
use proxybroker_rs.Server.Socks.{
  Peer, Talk, at_place, authenticate, choose_method, continue, offers, parse_socks5_request,
  read_exact, reject, take_bytes, write_all, write_within, ◌>>=◌,
}
use proxybroker_rs.Text.{Text}

-- The bytes of a text, as they are read.
abbrev pub as_events : Text → List Event
as_events [] = []
as_events (c ∷ s) = byte c ∷ as_events s

take_bytes-parts :
    (n : ℕ) (es rest : List Event) (bs : Text)
    → take_bytes n es ≡ some (bs, rest)
    → (es ≡ as_events bs ++ rest) × (length bs ≡ n)
unfolding take_bytes
take_bytes-parts zero es rest [] e = (cc e, refl)
take_bytes-parts zero es rest (b ∷ bs) e = cc e
take_bytes-parts (suc n) [] rest bs e = cc e
take_bytes-parts (suc n) (closed ∷ es) rest bs e = cc e
take_bytes-parts (suc n) (failed ∷ es) rest bs e = cc e
take_bytes-parts (suc n) (byte c ∷ es) rest bs e = elim (Option-cases (take_bytes n es)) [
  | inl nothing ↦ cc (rw nothing at e)
  | inr (got, found) ↦
      let (parts, size) = take_bytes-parts n es got.1 got.0 found in
      let e' = rw found at e in
      let same : c ∷ got.0 ≡ bs = cc e' in
      let left : got.1 ≡ rest = cc e' in
      subst₂ (λ (x : Text) (r : List Event). (byte c ∷ es ≡ as_events x ++ r) × (length x ≡ suc n))
        same left (ap (λ (l : List Event). byte c ∷ l) parts, omega (arith, size))
]

continue-some :
    {A B : Type 0} (f : A → Talk B) (r : Option A × Peer) (b : B)
    → (continue f r).0 ≡ some b
    → (a : A) × (r.0 ≡ some a) × ((f a r.1).0 ≡ some b)
continue-some f (none, s) b h = cc h
continue-some f (some a, s) b h = (a, refl, h)

-- A conversation of two parts that gives a result went through both.
pub bind-some :
    {A B : Type 0} (m : Talk A) (f : A → Talk B) (s : Peer) (b : B)
    → ((m >>= f) s).0 ≡ some b
    → (a : A) × ((m s).0 ≡ some a) × ((f a (m s).1).0 ≡ some b)
bind-some m f s b h = continue-some f (m s) b h

pub read_exact-some :
    (n : ℕ) (s : Peer) (bs : Text)
    → (read_exact n s).0 ≡ some bs
    → (s.incoming ≡ as_events bs ++ (read_exact n s).1.incoming) × (length bs ≡ n)
unfolding read_exact
read_exact-some n s bs h = elim (Option-cases (take_bytes n s.incoming)) [
  | inl nothing ↦ cc (rw nothing at h)
  | inr (got, found) ↦
      let same : got.0 ≡ bs = cc (rw found at h) in
      let (parts, size) = take_bytes-parts n s.incoming got.1 got.0 found in
      rw found (
        subst (λ (x : Text). (s.incoming ≡ as_events x ++ got.1) × (length x ≡ n)) same
          (parts, size))
]

-- The login message of RFC 1929, of some version, and what follows it.
abbrev pub login : AuthExpect → ℕ → List Event → List Event
login exp ver rest =
    byte ver
    ∷ byte (length exp.user)
    ∷ (as_events exp.user ++ (byte (length exp.pass) ∷ (as_events exp.pass ++ rest)))

-- The message, put together from the four reads.
login-of :
    (exp : AuthExpect) (vu user pl pass : Text) (i0 i1 i2 i3 i4 : List Event)
    → (i0 ≡ as_events vu ++ i1)
      × (i1 ≡ as_events user ++ i2)
      × (i2 ≡ as_events pl ++ i3)
      × (i3 ≡ as_events pass ++ i4)
    → (length vu ≡ 2)
      × (length user ≡ at_place vu 1)
      × (length pl ≡ 1)
      × (length pass ≡ at_place pl 0)
    → user ≡ exp.user
    → pass ≡ exp.pass
    → i0 ≡ login exp (at_place vu 0) i4
login-of exp (v ∷ l ∷ []) user (m ∷ []) pass i0 i1 i2 i3 i4 (e1, e2, e3, e4) (n1, n2, n3, n4) su
      sp =
    cc
login-of exp [] user pl pass i0 i1 i2 i3 i4 es (n1, n2, n3, n4) su sp = absurd (omega (arith, n1))
login-of exp (v ∷ []) user pl pass i0 i1 i2 i3 i4 es (n1, n2, n3, n4) su sp =
    absurd (omega (arith, n1))
login-of exp (v ∷ l ∷ x ∷ vu) user pl pass i0 i1 i2 i3 i4 es (n1, n2, n3, n4) su sp =
    absurd (omega (arith, n1))
login-of exp (v ∷ l ∷ []) user [] pass i0 i1 i2 i3 i4 es (n1, n2, n3, n4) su sp =
    absurd (omega (arith, n3))
login-of exp (v ∷ l ∷ []) user (m ∷ y ∷ pl) pass i0 i1 i2 i3 i4 es (n1, n2, n3, n4) su sp =
    absurd (omega (arith, n3))

compared :
    (exp : AuthExpect) (user pass : Text) (s : Peer) (u : Unit {0})
    → ((if user == exp.user && pass == exp.pass
          then write_all (1 ∷ 0 ∷ [])
          else reject (1 ∷ 1 ∷ []))
        s).0
      ≡ some u
    → (user ≡ exp.user) × (pass ≡ exp.pass)
unfolding reject
compared exp user pass s u h = ground (arith, ==_iff user exp.user, ==_iff pass exp.pass)

-- A client that authenticates has sent exactly the expected credentials.
authenticate-some :
    (exp : AuthExpect) (s : Peer) (u : Unit {0})
    → (authenticate exp s).0 ≡ some u
    → (ver : ℕ) × (rest : List Event) × (s.incoming ≡ login exp ver rest)
unfolding authenticate
authenticate-some exp s u h =
    let (vu, h1, k1) = bind-some (read_exact 2) _ s u h in
    let s1 = (read_exact 2 s).1 in
    let (user, h2, k2) = bind-some (read_exact (at_place vu 1)) _ s1 u k1 in
    let s2 = (read_exact (at_place vu 1) s1).1 in
    let (pl, h3, k3) = bind-some (read_exact 1) _ s2 u k2 in
    let s3 = (read_exact 1 s2).1 in
    let (pass, h4, k4) = bind-some (read_exact (at_place pl 0)) _ s3 u k3 in
    let s4 = (read_exact (at_place pl 0) s3).1 in
    let (same_user, same_pass) = compared exp user pass s4 u k4 in
    let (e1, n1) = read_exact-some 2 s vu h1 in
    let (e2, n2) = read_exact-some (at_place vu 1) s1 user h2 in
    let (e3, n3) = read_exact-some 1 s2 pl h3 in
    let (e4, n4) = read_exact-some (at_place pl 0) s3 pass h4 in
    let read =
      login-of exp vu user pl pass s.incoming s1.incoming s2.incoming s3.incoming s4.incoming
        (e1, e2, e3, e4) (n1, n2, n3, n4) same_user same_pass in
    (at_place vu 0, s4.incoming, read)

write_all-incoming : (bs : Text) (s : Peer) → (write_all bs s).1.incoming ≡ s.incoming
unfolding write_all
write_all-incoming bs s = written s.writes bs s
  where
    written : (n : ℕ) (bs : Text) (s : Peer) → (write_within n bs s).1.incoming ≡ s.incoming
    written zero bs s = refl
    written (suc n) bs s = refl

chosen :
    (exp : AuthExpect) (methods : Text) (s : Peer) (u : Unit {0})
    → (choose_method (some exp) methods s).0 ≡ some u
    → (offers methods 2 ≡ true)
      × ((ver : ℕ) × (rest : List Event) × (s.incoming ≡ login exp ver rest))
unfolding choose_method reject
chosen exp methods s u h = elim (Bool-cases (offers methods 2)) [
  | inr no' ↦ cc (rw no' at h)
  | inl yes' ↦
      let (v, h1, k1) =
        bind-some (write_all (5 ∷ 2 ∷ [])) (λ _. authenticate exp) s u (rw yes' at h) in
      let (ver, rest, e) = authenticate-some exp (write_all (5 ∷ 2 ∷ []) s).1 u k1 in
      (yes', (ver, rest, sym (write_all-incoming (5 ∷ 2 ∷ []) s) ∙ e))
]

-- A read of one byte.
pub one_byte : (bs : Text) → length bs ≡ 1 → bs ≡ at_place bs 0 ∷ []
one_byte [] size = absurd (omega (arith, size))
one_byte (b ∷ []) size = refl
one_byte (b ∷ c ∷ bs) size = absurd (omega (arith, size))

-- What a SOCKS5 client with the credentials sends after the version byte: how many methods it
-- offers, the methods, and the login.
abbrev pub greeting : AuthExpect → Text → ℕ → List Event → List Event
greeting exp methods ver rest = byte (length methods) ∷ (as_events methods ++ login exp ver rest)

-- On a server with credentials, a SOCKS5 request comes to be only from a client that has sent, in
-- this order and with nothing between: the number of the methods it offers, the methods, with the
-- password method among them, and the login with exactly the expected name and password.
pub parse_socks5_request_lem :
    ⦃t : IpText⦄
    → (exp : AuthExpect) (s : Peer) (req : ClientRequest)
    → (parse_socks5_request (some exp) s).0 ≡ some req
    → (methods : Text) × (ver : ℕ) × (rest : List Event) × (s.incoming
        ≡ greeting exp methods ver rest)
      × (offers methods 2 ≡ true)
unfolding parse_socks5_request
parse_socks5_request_lem ⦃t⦄ exp s req h =
    let (n, h1, k1) = bind-some (read_exact 1) _ s req h in
    let s1 = (read_exact 1 s).1 in
    let (methods, h2, k2) = bind-some (read_exact (at_place n 0)) _ s1 req k1 in
    let s2 = (read_exact (at_place n 0) s1).1 in
    let (u, h3, k3) = bind-some (choose_method (some exp) methods) _ s2 req k2 in
    let (offered, (ver, rest, e3)) = chosen exp methods s2 u h3 in
    let (e1, one) = read_exact-some 1 s n h1 in
    let (e2, size) = read_exact-some (at_place n 0) s1 methods h2 in
    let count : n ≡ length methods ∷ [] = one_byte n one ∙ ap (λ (k : ℕ). k ∷ []) (sym size) in
    let whole =
      e1
      ∙ ap (λ (bs : Text). as_events bs ++ s1.incoming) count
      ∙ ap (λ (i : List Event). byte (length methods) ∷ i)
          (e2 ∙ ap (λ (i : List Event). as_events methods ++ i) e3) in
    (methods, ver, rest, whole, offered)
