-- ===== src/Broker/Emitted.antt =====
-- Which proxies a run of `check_stream` in src/broker.rs emits, and what it records.
use proxybroker_rs.Broker.Pipeline.{
  Phase, Run, RunConfig, Runs, Step, Task, aborts, begun, caps_pass, checking, delivers, draining,
  finishes, hangs_up, holding, looping, new_run, passed, passed_on, reached, receives, reserved,
  reserves, runs_dry, sending, spawns, stops, takes, then_step,
}
use proxybroker_rs.Float.{Float, nat_float}
use proxybroker_rs.Prelude.{
  All, All-In, All-append, Bool, Bool-cases, In, In-All, In-get_elem?, List, [], ap, false,
  get_elem?, if◌then◌else◌, inl, inr, refl, remove_at, some, subst, suc, sym, true, zero, ℕ, ◌++◌,
  ◌∙◌, ◌∷◌, ◌≡◌,
}
use proxybroker_rs.Proxy.Record.{Proxy}
use proxybroker_rs.Stats.Collector.{StatsCollector, fresh, record_each, record_proxy}

All-remove_at :
    {A : Type 0} (P : A → Type 0) (xs : List A) (i : ℕ) → All P xs → All P (remove_at i xs)
unfolding remove_at
All-remove_at P [] i h = tt
All-remove_at P (x ∷ xs) zero h = h.1
All-remove_at P (x ∷ xs) (suc i) h = (h.0, All-remove_at P xs i h.1)

All-get_elem? :
    {A : Type 0} (P : A → Type 0) (xs : List A) (i : ℕ) (a : A)
    → get_elem? xs i ≡ some a
    → All P xs
    → P a
All-get_elem? P xs i a e h = In-All P a xs h (In-get_elem? a xs i e)

module _ {F : Type 0} ⦃f : Float F⦄ where
  record_each-snoc :
      (ps : List (Proxy F)) (p : Proxy F) (c : StatsCollector F)
      → record_each (ps ++ p ∷ []) c ≡ record_proxy p (record_each ps c)
  unfolding record_each
  record_each-snoc [] p c = refl
  record_each-snoc (q ∷ ps) p c = record_each-snoc ps p (record_proxy q c)

  -- The checker has found that a proxy of the source works, it left this behind, and that has the
  -- capabilities asked for.
  abbrev pub IsEmission : RunConfig F → List (Proxy F) → Proxy F → Type 0
  IsEmission cfg source q =
      (p : Proxy F) × In p source × (cfg.checks p ≡ (true, q)) × (caps_pass cfg.caps q ≡ true)

  abbrev TaskIsSound : RunConfig F → List (Proxy F) → Task F → Type 0
  TaskIsSound cfg source (checking p) = In p source
  TaskIsSound cfg source (passed q) = IsEmission cfg source q
  TaskIsSound cfg source (sending n q) = IsEmission cfg source q

  abbrev PhaseIsSound : List (Proxy F) → Phase F → Type 0
  PhaseIsSound source (holding p) = In p source
  PhaseIsSound source looping = Unit
  PhaseIsSound source draining = Unit

  record IsSound (cfg : RunConfig F) (source : List (Proxy F)) (s : Run F) : Type 0 where
    coming : All (λ (p : Proxy F). In p source) s.source
    held : PhaseIsSound source s.phase
    carried : All (TaskIsSound cfg source) s.tasks
    emitted : All (IsEmission cfg source) s.out
    told : s.stats ≡ record_each s.observed fresh

  passed_on-IsSound :
      (cfg : RunConfig F) (source : List (Proxy F)) (p : Proxy F) (out : Bool × Proxy F)
      → cfg.checks p ≡ out
      → In p source
      → All (TaskIsSound cfg source) (passed_on cfg out)
  passed_on-IsSound cfg source p (false, q) e m = tt
  passed_on-IsSound cfg source p (true, q) e m = elim (Bool-cases (caps_pass cfg.caps q)) [
    | inl good ↦ rw good ((p, m, e, good), tt)
    | inr bad ↦ rw bad tt
  ]

  reserved-IsSound :
      (cfg : RunConfig F) (source : List (Proxy F)) (q : Proxy F) (n : ℕ)
      → IsEmission cfg source q
      → All (TaskIsSound cfg source) (reserved cfg q n)
  reserved-IsSound cfg source q n h = elim (Bool-cases (reached cfg.limit n)) [
    | inl over ↦ rw over tt
    | inr under ↦ rw under (h, tt)
  ]

  out-IsSound :
      (cfg : RunConfig F) (source : List (Proxy F)) (gone : Bool) (out : List (Proxy F))
      (q : Proxy F)
      → IsEmission cfg source q
      → All (IsEmission cfg source) out
      → All (IsEmission cfg source) (if gone then out else out ++ q ∷ [])
  out-IsSound cfg source true out q h hs = hs
  out-IsSound cfg source false out q h hs =
      All-append (IsEmission cfg source) out (q ∷ []) hs (h, tt)

  Step-IsSound :
      {cfg : RunConfig F} (source : List (Proxy F)) {s t : Run F}
      → Step cfg s t
      → IsSound cfg source s
      → IsSound cfg source t
  Step-IsSound source (takes s p ps e1 e2 e3 e4) h =
      let all = subst (All (λ (q : Proxy F). In q source)) e2 h.coming in
      record {
        coming = all.1;
        held = all.0;
        carried = h.carried;
        emitted = h.emitted;
        told = h.told;
      }
  Step-IsSound source (stops s p ps e1 e2 e3) h =
      let all = subst (All (λ (q : Proxy F). In q source)) e2 h.coming in
      record { coming = all.1; held = tt; carried = h.carried; emitted = h.emitted; told = h.told }
  Step-IsSound source (runs_dry s e1 e2) h = record {
    coming = h.coming;
    held = tt;
    carried = h.carried;
    emitted = h.emitted;
    told = h.told;
  }
  Step-IsSound source (spawns s p e1 room) h = record {
    coming = h.coming;
    held = tt;
    carried = (subst (PhaseIsSound source) e1 h.held, h.carried);
    emitted = h.emitted;
    told = h.told;
  }
  Step-IsSound {cfg} source (aborts s i p at e) h = record {
    coming = h.coming;
    held = h.held;
    carried = All-remove_at (TaskIsSound cfg source) s.tasks i h.carried;
    emitted = h.emitted;
    told = h.told;
  }
  Step-IsSound {cfg} source (finishes s i p at) h = record {
    coming = h.coming;
    held = h.held;
    carried =
        All-append (TaskIsSound cfg source) (passed_on cfg (cfg.checks p)) (remove_at i s.tasks)
          (passed_on-IsSound cfg source p (cfg.checks p) refl
            (All-get_elem? (TaskIsSound cfg source) s.tasks i (checking p) at h.carried))
          (All-remove_at (TaskIsSound cfg source) s.tasks i h.carried);
    emitted = h.emitted;
    told =
        ap (record_proxy (cfg.checks p).1) h.told
        ∙ sym (record_each-snoc s.observed (cfg.checks p).1 fresh);
  }
  Step-IsSound {cfg} source (reserves s i q at) h = record {
    coming = h.coming;
    held = h.held;
    carried =
        All-append (TaskIsSound cfg source) (reserved cfg q s.sent) (remove_at i s.tasks)
          (reserved-IsSound cfg source q s.sent
            (All-get_elem? (TaskIsSound cfg source) s.tasks i (passed q) at h.carried))
          (All-remove_at (TaskIsSound cfg source) s.tasks i h.carried);
    emitted = h.emitted;
    told = h.told;
  }
  Step-IsSound {cfg} source (delivers s i n q at room) h = record {
    coming = h.coming;
    held = h.held;
    carried = All-remove_at (TaskIsSound cfg source) s.tasks i h.carried;
    emitted =
        out-IsSound cfg source s.gone s.out q
          (All-get_elem? (TaskIsSound cfg source) s.tasks i (sending n q) at h.carried) h.emitted;
    told = h.told;
  }
  Step-IsSound source (receives s e1 e2) h = record {
    coming = h.coming;
    held = h.held;
    carried = h.carried;
    emitted = h.emitted;
    told = h.told;
  }
  Step-IsSound source (hangs_up s) h = record {
    coming = h.coming;
    held = h.held;
    carried = h.carried;
    emitted = h.emitted;
    told = h.told;
  }

  new_run-IsSound :
      (cfg : RunConfig F) (source : List (Proxy F)) → IsSound cfg source (new_run source)
  unfolding record_each
  new_run-IsSound cfg source = record {
    coming = All-In (λ (p : Proxy F). In p source) source λ p m. m;
    held = tt;
    carried = tt;
    emitted = tt;
    told = refl;
  }

  -- In every state of a run, each proxy that has been sent to the consumer is what the checker made
  -- of a proxy of the source that works and has the capabilities asked for; and the statistics are
  -- those of exactly the proxies that have been checked, in the order in which their checks ended.
  pub Runs-IsEmission :
      {cfg : RunConfig F} {source : List (Proxy F)} {s : Run F}
      → Runs cfg (new_run source) s
      → All (IsEmission cfg source) s.out × (s.stats ≡ record_each s.observed fresh)
  Runs-IsEmission {cfg} {source} path = let h = along path in (h.emitted, h.told)
    where
      along : {t : Run F} → Runs cfg (new_run source) t → IsSound cfg source t
      along begun = new_run-IsSound cfg source
      along (then_step path st) = Step-IsSound source st (along path)
