-- ===== src/Judges/Usable.antt =====
-- Which judges the pool of src/judge.rs has and gives out.
use proxybroker_rs.Judges.{
  Finding, Judge, JudgePool, bucket, ip_visible, is_smtp, judge_page, marks_of, no_judges,
  on_answer, on_resolved, probe_all, probe_judge, push_judge, push_working, random_judge,
}
use proxybroker_rs.Net.{IpAddr, addr_eq, ip_eq}
use proxybroker_rs.Parse.Scan.{Regexes}
use proxybroker_rs.Prelude.{
  Bool, Bool-cases, In, In-append, In-get_elem?, List, Option, [], ap, arith, false, get_elem?, inl,
  inr, is_empty, is_some, length, max, none, refl, some, subst, suc, sym, true, zero, ℕ, ◌%◌, ◌&&◌,
  ◌++◌, ◌<◌, ◌∙◌, ◌∷◌, ◌≡◌, ◌⊎◌,
}
use proxybroker_rs.Prelude.Equality.{==_iff, list_eq, nat_eq, ◌==◌}
use proxybroker_rs.Proxy.Measures.{sorted}
use proxybroker_rs.Server.Requests.{IpText, frontend_eq}
use proxybroker_rs.Text.{Text, contains, lowercase}
use proxybroker_rs.Types.Scheme.{JudgeScheme, scheme_eq}

pushed :
    (ks : List Judge) (k j : Judge) (scheme : JudgeScheme)
    → In j (ks ++ k ∷ [])
    → In j ks ⊎ ((j ≡ k) × (scheme ≡ scheme))
pushed ks k j scheme m = elim (In-append j ks (k ∷ []) m) [
  | inl old ↦ inl old
  | inr (inl same) ↦ inr (same, refl)
  | inr (inr never) ↦ absurd never
]

push_judge-In :
    (pool : JudgePool) (k j : Judge) (sort scheme : JudgeScheme)
    → In j (bucket (push_judge pool k sort) scheme)
    → In j (bucket pool scheme) ⊎ ((j ≡ k) × (sort ≡ scheme))
push_judge-In pool k j JudgeScheme.http JudgeScheme.http m = pushed pool.http_judges k j _ m
push_judge-In pool k j JudgeScheme.https JudgeScheme.https m = pushed pool.https_judges k j _ m
push_judge-In pool k j JudgeScheme.smtp JudgeScheme.smtp m = pushed pool.smtp_judges k j _ m
push_judge-In pool k j JudgeScheme.http JudgeScheme.https m = inl m
push_judge-In pool k j JudgeScheme.http JudgeScheme.smtp m = inl m
push_judge-In pool k j JudgeScheme.https JudgeScheme.http m = inl m
push_judge-In pool k j JudgeScheme.https JudgeScheme.smtp m = inl m
push_judge-In pool k j JudgeScheme.smtp JudgeScheme.http m = inl m
push_judge-In pool k j JudgeScheme.smtp JudgeScheme.https m = inl m

judge-injective : (j k : Judge) → some j ≡ some k → j ≡ k
judge-injective j k e = cc e

and_left : (a b : Bool) → (a && b) ≡ true → a ≡ true
and_left a b h = ground (arith, h)

and_right : (a b : Bool) → (a && b) ≡ true → b ≡ true
and_right a b h = ground (arith, h)

empty_bucket : (j : Judge) (scheme : JudgeScheme) → ¬ In j (bucket no_judges scheme)
empty_bucket j JudgeScheme.http m = m
empty_bucket j JudgeScheme.https m = m
empty_bucket j JudgeScheme.smtp m = m

get_elem?-in_range : (js : List Judge) (i : ℕ) → i < length js → is_some (get_elem? js i) ≡ true
get_elem?-in_range [] i h = ground (arith, h)
get_elem?-in_range (j ∷ js) zero h = refl
get_elem?-in_range (j ∷ js) (suc i) h = get_elem?-in_range js i (omega (arith, h))

-- Any draw gives one of the judges that there are.
pub drawn :
    (js : List Judge) (draw : ℕ)
    → is_empty js ≡ false
    → is_some (get_elem? js (draw % max 1 (length js))) ≡ true
drawn [] draw h = cc h
drawn (j ∷ js) draw h = get_elem?-in_range (j ∷ js) (draw % max 1 (length (j ∷ js))) (omega arith)

module _ ⦃t : IpText⦄ ⦃x : Regexes⦄ where
  -- The page of the judge: it answered with a 200 and has the marker and an address of the host.
  abbrev pub IsReflecting : List IpAddr → Finding → Judge → Type 0
  IsReflecting real_ips e j =
      (body : Text) × (e.answer ≡ some (200, some body))
      × (contains e.marker (lowercase body) ≡ true)
      × (ip_visible real_ips (lowercase body) ≡ true)
      × (j.marks ≡ marks_of (lowercase body))

  -- The judge `j` that the probe makes of `c`.
  pub record IsUsable (real_ips : List IpAddr) (e : Finding) (c j : Judge) : Type 0 where
    pub same_url : j.url ≡ c.url
    pub same_host : j.host ≡ c.host
    pub same_path : j.path ≡ c.path
    pub same_scheme : j.scheme ≡ c.scheme
    pub addressed : (a : IpAddr) × (e.resolved ≡ some a) × (j.ip_addr ≡ some a)
    pub reflecting : (is_smtp c.scheme ≡ true) ⊎ IsReflecting real_ips e j

  -- The page of a judge that has been found.
  record IsReflected (real_ips : List IpAddr) (e : Finding) (c j : Judge) : Type 0 where
    kept_url : j.url ≡ c.url
    kept_host : j.host ≡ c.host
    kept_path : j.path ≡ c.path
    kept_scheme : j.scheme ≡ c.scheme
    kept_addr : j.ip_addr ≡ c.ip_addr
    reflects : IsReflecting real_ips e j

  judge_page-some :
      (real_ips : List IpAddr) (e : Finding) (c : Judge) (body : Text) (j : Judge)
      → e.answer ≡ some (200, some body)
      → judge_page real_ips e.marker c body ≡ some j
      → IsReflected real_ips e c j
  unfolding judge_page
  judge_page-some real_ips e c body j answered h =
      let page = lowercase body in
      let visible = ip_visible real_ips page in
      let marked = contains e.marker page in
      elim (Bool-cases (visible && marked)) [
        | inl both ↦ subst (IsReflected real_ips e c) (judge-injective _ j (rw both at h)) (record {
          kept_url = refl;
          kept_host = refl;
          kept_path = refl;
          kept_scheme = refl;
          kept_addr = refl;
          reflects =
              (body, answered, and_right visible marked both, and_left visible marked both, refl);
        })
        | inr bad ↦ cc (rw bad at h)
      ]

  on_answer-some :
      (real_ips : List IpAddr) (e : Finding) (c : Judge) (o : Option (ℕ × Option Text)) (j : Judge)
      → e.answer ≡ o
      → on_answer real_ips e.marker c o ≡ some j
      → IsReflected real_ips e c j
  on_answer-some real_ips e c none j answered h = cc h
  on_answer-some real_ips e c (some (status, none)) j answered h = cc h
  on_answer-some real_ips e c (some (status, some body)) j answered h =
      elim (Bool-cases (status == 200)) [
        | inl good ↦
            judge_page-some real_ips e c body j
              (answered ∙ ap (λ (s : ℕ). some (s, some body)) ((==_iff status 200).0 good))
              (rw good at h)
        | inr bad ↦ cc (rw bad at h)
      ]

  on_resolved-some :
      (real_ips : List IpAddr) (e : Finding) (c : Judge) (o : Option IpAddr) (j : Judge)
      → e.resolved ≡ o
      → on_resolved real_ips e c o ≡ some j
      → IsUsable real_ips e c j
  on_resolved-some real_ips e c none j found h = cc h
  on_resolved-some real_ips e c (some a) j found h = elim (Bool-cases (is_smtp c.scheme)) [
    | inl mail ↦ subst (IsUsable real_ips e c) (judge-injective _ j (rw mail at h)) (record {
      same_url = refl;
      same_host = refl;
      same_path = refl;
      same_scheme = refl;
      addressed = (a, found, refl);
      reflecting = inl mail;
    })
    | inr web ↦
        let r =
          on_answer-some real_ips e (record c { ip_addr = some a }) e.answer j refl (rw web at h) in
        record {
          same_url = r.kept_url;
          same_host = r.kept_host;
          same_path = r.kept_path;
          same_scheme = r.kept_scheme;
          addressed = (a, found, r.kept_addr);
          reflecting = inr r.reflects;
        }
  ]

  -- What has been pushed for an outcome.
  push_working-In :
      (real_ips : List IpAddr) (e : Finding) (c : Judge) (pool : JudgePool) (o : Option Judge)
      (j : Judge) (scheme : JudgeScheme)
      → probe_judge real_ips e c ≡ o
      → In j (bucket (push_working pool o) scheme)
      → In j (bucket pool scheme) ⊎ ((j.scheme ≡ scheme) × IsUsable real_ips e c j)
  unfolding probe_judge
  push_working-In real_ips e c pool none j scheme how m = inl m
  push_working-In real_ips e c pool (some k) j scheme how m =
      elim (push_judge-In pool k j k.scheme scheme m) [
        | inl old ↦ inl old
        | inr (same, at_scheme) ↦ inr (
          ap (λ (i : Judge). i.scheme) same ∙ at_scheme,
          subst (IsUsable real_ips e c) (sym same)
              (on_resolved-some real_ips e c e.resolved k refl how),
        )
      ]

  -- A judge of the list whose probe has made it this one.
  abbrev pub IsProbed : List IpAddr → (Judge → Finding) → List Judge → Judge → Type 0
  IsProbed real_ips env js j = (c : Judge) × In c js × IsUsable real_ips (env c) c j

  probe_all-In :
      (real_ips : List IpAddr) (env : Judge → Finding) (pool : JudgePool) (js : List Judge)
      (j : Judge) (scheme : JudgeScheme)
      → In j (bucket (probe_all real_ips env pool js) scheme)
      → In j (bucket pool scheme) ⊎ ((j.scheme ≡ scheme) × IsProbed real_ips env js j)
  unfolding probe_all
  probe_all-In real_ips env pool [] j scheme m = inl m
  probe_all-In real_ips env pool (c ∷ cs) j scheme m =
      let o = probe_judge real_ips (env c) c in
      elim (probe_all-In real_ips env (push_working pool o) cs j scheme m) [
        | inl old ↦ elim (push_working-In real_ips (env c) c pool o j scheme refl old) [
          | inl older ↦ inl older
          | inr (sorted, good) ↦ inr (sorted, (c, inl refl, good))
        ]
        | inr (sorted, (k, held, good)) ↦ inr (sorted, (k, inr held, good))
      ]

  -- A judge that is drawn from a pool of probed judges is of the scheme asked for and comes from one
  -- of the judges by a probe that found it usable: its host resolved, to the address it now has,
  -- and, but for SMTP, its page answered with a 200, had the marker and an address of the host, and
  -- gives its marks. And one is drawn wherever there is one of the scheme.
  pub random_judge-IsProbed :
      (real_ips : List IpAddr) (env : Judge → Finding) (js : List Judge) (scheme : JudgeScheme)
      (draw : ℕ)
      → ((j : Judge)
          → random_judge (probe_all real_ips env no_judges js) scheme draw ≡ some j
          → (j.scheme ≡ scheme) × IsProbed real_ips env js j)
        × (is_empty (bucket (probe_all real_ips env no_judges js) scheme) ≡ false
            → is_some (random_judge (probe_all real_ips env no_judges js) scheme draw) ≡ true)
  unfolding random_judge
  random_judge-IsProbed real_ips env js scheme draw =
      let pool = probe_all real_ips env no_judges js in
      (
        λ j found.
            elim (probe_all-In real_ips env no_judges js j scheme
              (In-get_elem? j (bucket pool scheme) _ found)) [
                | inl old ↦ absurd (empty_bucket j scheme old)
                | inr good ↦ good
              ],
        λ somewhere. drawn (bucket pool scheme) draw somewhere,
      )
