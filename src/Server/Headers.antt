-- ===== src/Server/Headers.antt =====
-- `strip_header` takes away the header lines of the name, and nothing else.
use proxybroker_rs.Prelude.{
  Bool, Bool-cases, List, Option-cases, [], ap, arith, drop, false, if◌then◌else◌, inl, inr, keep,
  length, none, not, refl, some, subst, subst₂, suc, sym, true, zero, ℕ, ℕ_discrete, ◌&&◌, ◌++◌,
  ◌<◌, ◌∙◌, ◌∷◌, ◌≡◌, ◌≤◌, ◌⊎◌,
}
use proxybroker_rs.Server.Heads.{
  colon_after, crlf, in_front, inject_header, is_named, next_line, strip_from, strip_header,
  strip_round, with_line,
}
use proxybroker_rs.Text.{Text, starts_with}

-- How a head splits into lines that a CRLF ends, and what stands after the last one.
pub data IsCut : Text → List Text → Text → Type 0 where
  cut_end : (s : Text) → next_line s ≡ none → IsCut s [] s
  cut_more :
      (s line more : Text) (ls : List Text) (tail : Text)
      → next_line s ≡ some (line, more)
      → IsCut more ls tail
      → IsCut s (line ∷ ls) tail

-- The two ways to a line.
next_line-cases :
    (c : ℕ) (s line more : Text)
    → next_line (c ∷ s) ≡ some (line, more)
    → ((starts_with crlf (c ∷ s) ≡ true) × (line ≡ []) × (more ≡ drop 1 s))
      ⊎ ((starts_with crlf (c ∷ s) ≡ false)
          × (line' : Text) × (line ≡ c ∷ line')
          × (next_line s ≡ some (line', more)))
unfolding next_line
next_line-cases c s line more e = elim (Bool-cases (starts_with crlf (c ∷ s))) [
  | inl here ↦ let e' = rw here at e in inl (here, cc e', cc e')
  | inr later ↦ elim (Option-cases (next_line s)) [
    | inl nothing ↦ cc (rw (later, nothing) at e)
    | inr (lm, found) ↦
        let e' = rw (later, found) at e in
        inr (later, lm.0, cc e', found ∙ ap (λ (m : Text). some (lm.0, m)) (cc e'))
  ]
]

next_line-head :
    (d : ℕ) (s line more : Text) → next_line s ≡ some (d ∷ line, more) → (s' : Text) × (s ≡ d ∷ s')
unfolding next_line
next_line-head d [] line more e = cc
next_line-head d (c ∷ s) line more e = elim (next_line-cases c s (d ∷ line) more e) [
  | inl (_, empty, _) ↦ cc empty
  | inr (_, _, same, _) ↦ (s, cc same)
]

-- The place of the first CRLF depends on what stands before it only.
cut_head-false :
    (c : ℕ) (s line more x : Text)
    → starts_with crlf (c ∷ s) ≡ false
    → next_line s ≡ some (line, more)
    → starts_with crlf (c ∷ (line ++ crlf ++ x)) ≡ false
unfolding starts_with
cut_head-false c s [] more x later e = ground arith
cut_head-false c s (d ∷ line) more x later e =
    let (s', parts) = next_line-head d s line more e in
    let later' = subst (λ (t : Text). starts_with crlf (c ∷ t) ≡ false) parts later in
    ground (arith, later')

next_line-skip :
    (c : ℕ) (s : Text)
    → starts_with crlf (c ∷ s) ≡ false
    → next_line (c ∷ s) ≡ in_front c (next_line s)
unfolding next_line
next_line-skip c s later = rw later refl

next_line-crlf : (x : Text) → next_line (crlf ++ x) ≡ some ([], x)
unfolding next_line starts_with ℕ_discrete
next_line-crlf x = refl

next_line-again :
    (s line more x : Text)
    → next_line s ≡ some (line, more)
    → next_line (line ++ crlf ++ x) ≡ some (line, x)
unfolding next_line starts_with
next_line-again [] line more x e = cc
next_line-again (c ∷ s) line more x e = elim (next_line-cases c s line more e) [
  | inl (_, empty, _) ↦
      subst (λ (l : Text). next_line (l ++ crlf ++ x) ≡ some (l, x)) (sym empty) (next_line-crlf x)
  | inr (later, line', same, found) ↦
      subst (λ (l : Text). next_line (l ++ crlf ++ x) ≡ some (l, x)) (sym same)
        (next_line-skip c _ (cut_head-false c s line' more x later found)
          ∙ ap (in_front c) (next_line-again s line' more x found))
]

length-drop_one : (s : Text) → length (drop 1 s) ≤ length s
length-drop_one [] = omega arith
length-drop_one (c ∷ s) = omega arith

next_line-lt : (s line more : Text) → next_line s ≡ some (line, more) → length more < length s
unfolding next_line
next_line-lt [] line more e = cc
next_line-lt (c ∷ s) line more e = elim (next_line-cases c s line more e) [
  | inl (_, _, same) ↦
      subst (λ (m : Text). length m < suc (length s)) (sym same) (omega (arith, length-drop_one s))
  | inr (_, line', _, found) ↦ omega (arith, next_line-lt s line' more found)
]

IsCut-within :
    (n : ℕ) (s : Text) → length s < n → (ls : List Text) × (tail : Text) × IsCut s ls tail
IsCut-within zero s lt = absurd (omega arith)
IsCut-within (suc n) s lt = elim (Option-cases (next_line s)) [
  | inl nothing ↦ ([], s, cut_end s nothing)
  | inr (lm, found) ↦
      let (ls, tail, cut) = IsCut-within n lm.1 (omega (arith, next_line-lt s lm.0 lm.1 found)) in
      (lm.0 ∷ ls, tail, cut_more s lm.0 lm.1 ls tail found cut)
]

-- Every head splits into lines.
pub IsCut-total : (s : Text) → (ls : List Text) × (tail : Text) × IsCut s ls tail
IsCut-total s = IsCut-within (suc (length s)) s (omega arith)

abbrev pub others : Text → List Text → List Text
others prefix ls = keep (λ l. not (is_named prefix l)) ls

strip_from-some :
    (n : ℕ) (prefix : Text) (first : Bool) (s line more : Text)
    → next_line s ≡ some (line, more)
    → let left = strip_from n prefix false more in
      strip_from (suc n) prefix first s
      ≡ (if not first && is_named prefix line then left else line ++ crlf ++ left)
unfolding strip_from
strip_from-some n prefix first s line more found =
    ap (strip_round prefix first s λ t. strip_from n prefix false t) found

strip_from-none :
    (n : ℕ) (prefix : Text) (first : Bool) (s : Text)
    → next_line s ≡ none
    → strip_from (suc n) prefix first s ≡ s
unfolding strip_from
strip_from-none n prefix first s nothing =
    ap (strip_round prefix first s λ t. strip_from n prefix false t) nothing

strip_from-IsCut :
    (n : ℕ) (prefix s : Text) (ls : List Text) (tail : Text)
    → IsCut s ls tail
    → length s < n
    → IsCut (strip_from n prefix false s) (others prefix ls) tail
strip_from-IsCut zero prefix s ls tail cut lt = absurd (omega arith)
strip_from-IsCut (suc n) prefix s _ _ (cut_end _ nothing) lt =
    subst (λ (t : Text). IsCut t [] s) (sym (strip_from-none n prefix false s nothing))
      (cut_end s nothing)
strip_from-IsCut (suc n) prefix s (line ∷ ls) tail (cut_more _ _ more _ _ found cut) lt =
    let shorter : length more < n = omega (arith, next_line-lt s line more found) in
    let rest = strip_from-IsCut n prefix more ls tail cut shorter in
    let left = strip_from n prefix false more in
    let step = strip_from-some n prefix false s line more found in
    elim (Bool-cases (is_named prefix line)) [
      | inl named ↦
          subst₂ (λ (t : Text) (ls' : List Text). IsCut t ls' tail) (sym (step ∙ rw named refl))
            (rw named refl) rest
      | inr other ↦
          subst₂ (λ (t : Text) (ls' : List Text). IsCut t ls' tail) (sym (step ∙ rw other refl))
            (rw other refl) (cut_more _ line _ _ tail (next_line-again s line more left found) rest)
    ]

-- `strip_header` keeps the first line and, of the lines after it, those that are not a header of
-- the name in any letter case, in their order, with what follows the last line.
pub strip_header_lem :
    (raw name line : Text) (ls : List Text) (tail : Text)
    → IsCut raw (line ∷ ls) tail
    → IsCut (strip_header raw name) (line ∷ others (colon_after name) ls) tail
unfolding strip_header
strip_header_lem raw name line ls tail (cut_more _ _ more _ _ found cut) =
    let prefix = colon_after name in
    let n = length raw in
    let rest = strip_from-IsCut n prefix more ls tail cut (next_line-lt raw line more found) in
    subst (λ (t : Text). IsCut t (line ∷ others prefix ls) tail)
      (sym (strip_from-some n prefix true raw line more found))
      (cut_more _ line _ _ tail (next_line-again raw line more _ found) rest)

next_line-none :
    (c : ℕ) (s : Text)
    → next_line (c ∷ s) ≡ none
    → (starts_with crlf (c ∷ s) ≡ false) × (next_line s ≡ none)
unfolding next_line
next_line-none c s e = elim (Bool-cases (starts_with crlf (c ∷ s))) [
  | inl here ↦ cc (rw here at e)
  | inr later ↦ elim (Option-cases (next_line s)) [
    | inl nothing ↦ (later, nothing)
    | inr (lm, found) ↦ cc (rw (later, found) at e)
  ]
]

cut_end-false :
    (c : ℕ) (s x : Text)
    → starts_with crlf (c ∷ s) ≡ false
    → starts_with crlf (c ∷ (s ++ crlf ++ x)) ≡ false
unfolding starts_with
cut_end-false c [] x later = ground arith
cut_end-false c (d ∷ s) x later = ground arith

next_line-of :
    (line x : Text) → next_line line ≡ none → next_line (line ++ crlf ++ x) ≡ some (line, x)
next_line-of [] x clean = next_line-crlf x
next_line-of (c ∷ line) x clean =
    let (later, clean') = next_line-none c line clean in
    next_line-skip c _ (cut_end-false c line x later) ∙ ap (in_front c) (next_line-of line x clean')

-- `inject_header` puts its line after the first one, and changes nothing else.
pub inject_header_lem :
    (raw header_line line : Text) (ls : List Text) (tail : Text)
    → IsCut raw (line ∷ ls) tail
    → next_line header_line ≡ none
    → IsCut (inject_header raw (header_line ++ crlf)) (line ∷ header_line ∷ ls) tail
unfolding inject_header
inject_header_lem raw header_line line ls tail (cut_more _ _ more _ _ found cut) clean =
    let inner = cut_more _ header_line more ls tail (next_line-of header_line more clean) cut in
    let whole = cut_more _ line _ _ tail (next_line-again raw line more _ found) inner in
    subst (λ (t : Text). IsCut t (line ∷ header_line ∷ ls) tail)
      (sym (ap (with_line raw (header_line ++ crlf)) found)) whole
