-- ===== src/Parse/Ends.antt =====
-- That the scans of src/parse.rs and src/utils.rs have fuel enough.
use proxybroker_rs.Parse.Scan.{Regexes, find_addrs_global, matches_from, pair_at, scan_from}
use proxybroker_rs.Prelude.{
  List, Option, Option-cases, [], ap, arith, inl, inr, length, none, refl, some, suc, zero, ℕ, ◌++◌,
  ◌+◌, ◌<◌, ◌∷◌, ◌≡◌, ◌≤◌,
}
use proxybroker_rs.Text.{Text}

-- What `find_at` promises of an expression that does not match the empty string: a match stands
-- after the place where the search begins, and within the text.
abbrev pub Advances : (Text → ℕ → Option (ℕ × ℕ)) → Type 0
Advances find =
    (s : Text) (from : ℕ) (m : ℕ × ℕ) → find s from ≡ some m → (from < m.1) × (m.1 ≤ length s)

matches_from-enough :
    (find : Text → ℕ → Option (ℕ × ℕ)) (s : Text)
    → Advances find
    → (n k from : ℕ) → length s < n + from
    → length s < k + from
    → matches_from n find s from ≡ matches_from k find s from
unfolding matches_from
matches_from-enough find s adv zero zero from a b = refl
matches_from-enough find s adv zero (suc k) from a b = elim (Option-cases (find s from)) [
  | inl nothing ↦ rw (nothing, matches_from) refl
  | inr (m, found) ↦ let (after, within) = adv s from m found in ground arith
]
matches_from-enough find s adv (suc n) zero from a b = elim (Option-cases (find s from)) [
  | inl nothing ↦ rw (nothing, matches_from) refl
  | inr (m, found) ↦ let (after, within) = adv s from m found in ground arith
]
matches_from-enough find s adv (suc n) (suc k) from a b = elim (Option-cases (find s from)) [
  | inl nothing ↦ rw (nothing, matches_from) refl
  | inr (m, found) ↦
      let (after, within) = adv s from m found in
      rw (found, matches_from)
        (ap (λ ms. m ∷ ms) (matches_from-enough find s adv n k m.1 (omega arith) (omega arith)))
]

module _ ⦃x : Regexes⦄ where
  -- The loop of `find_addrs_global` as it is written, without fuel: what it gives from a place of
  -- the text on, after so many rounds. It ends where no address follows.
  pub data Scans (s : Text) : ℕ → ℕ → List (Text × Text) → Type 0 where
    scan_end : (from : ℕ) → x.find_ipv4 s from ≡ none → Scans s 0 from []
    scan_more :
        (n from : ℕ) (hit : ℕ × ℕ) (found : List (Text × Text))
        → x.find_ipv4 s from ≡ some hit
        → Scans s n hit.1 found
        → Scans s (suc n) from (pair_at s hit ++ found)

  -- The loop from a place on ends by its own test.
  abbrev Stops : Text → ℕ → List (Text × Text) → Type 0
  Stops s from found = (n : ℕ) × (n + from ≤ length s) × Scans s n from found

  scan_from-Stops :
      (s : Text) (fuel from : ℕ)
      → Advances x.find_ipv4
      → from ≤ length s
      → length s < fuel + from
      → Stops s from (scan_from fuel s from)
  unfolding scan_from
  scan_from-Stops s zero from adv le enough = absurd (omega (arith, le, enough))
  scan_from-Stops s (suc fuel) from adv le enough = elim (Option-cases (x.find_ipv4 s from)) [
    | inl nothing ↦ rw (nothing, scan_from) (0, omega (arith, le), scan_end from nothing)
    | inr (hit, found) ↦
        let (after, within) = adv s from hit found in
        let (n, few, rest) =
          scan_from-Stops s fuel hit.1 adv within (omega (arith, enough, after)) in
        rw (found, scan_from) (suc n, omega (arith, few, after), scan_more n from hit _ found rest)
  ]

  -- Where each match of the expression for addresses ends after the place from which it is searched
  -- and within the text, the loop of `find_addrs_global` ends by its own test, that no address
  -- follows, after at most as many rounds as the text is long, and gives what the loop without fuel
  -- gives.
  pub find_addrs_global-ends :
      (s : Text)
      → Advances x.find_ipv4
      → (n : ℕ) × (n ≤ length s) × Scans s n 0 (find_addrs_global s)
  unfolding find_addrs_global
  find_addrs_global-ends s adv =
      let (n, few, whole) = scan_from-Stops s (suc (length s)) 0 adv (omega arith) (omega arith) in
      (n, omega (arith, few), whole)
