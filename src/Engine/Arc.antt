-- ===== src/Engine/Arc.antt =====
-- The recovery arc of a service over the ticks: when it is retried, parked or given up.
use schema_init.Prelude.{
  ℕ, suc, ◌+◌, ◌%◌, ◌≤◌, ◌≡◌, refl, sym, ◌∙◌, ◌⊎◌, inl, inr, true, false, none, some, List, [],
  arith, ◌==◌, if◌then◌else◌, Bool-cases, Option-cases, length, get_elem?,
}
use schema_init.Schema.{friction, recovery, excised, dormant, schema_step}
use schema_init.Engine.Service.{Time, Service, svc_hold_retry, exc_breaker}
use schema_init.Engine.Probe.{
  Probed, service_fallback, budget_left, service_probe_f9, service_probe_f6,
}
use schema_init.Engine.Weights.{friction_weight_iff, recovery_weight}
use schema_init.Engine.Backoff.{friction_verdict, park}
use schema_init.Engine.Cards.{Engine, kill_tree, update, emit, fallback_up, play_card}
use schema_init.Engine.Deck.{
  at_service-some, get_elem?-modify_self, get_elem?-modify_ne, service_fallback-ne,
  play_card-Played, Played,
}
use schema_init.Engine.Tick.{
  Env, retried, tick_recovery, kill_cgroup, keep_fallback, give_up, tick_friction,
}

-- The state machine's step in RECOVERY and in FRICTION, by the service's budget and cards.
step_recovery_exhausted :
    (p : Probed) (s : Service) (table : List Service) (i : ℕ)
    → s.inst.state ≡ recovery
    → budget_left s ≡ false
    → (schema_step s.inst (service_probe_f9 p s table i)).state ≡ friction
unfolding schema_step
step_recovery_exhausted p s table i e b = ground (arith, recovery_weight p s table i)

-- What a service brings out of a step: its own fields, with the instance stepped.
abbrev pub stepped : Service → ℕ → Service
stepped s flags = record s { inst = schema_step s.inst flags }

module _ (env : Env) (i : ℕ) (e : Engine) (s : Service) (g : get_elem? e.services i ≡ some s) where
  -- In RECOVERY a service without restarts left goes to FRICTION and keeps its count of restarts,
  -- whatever cards, fallback or memory there are; the branch always returns.
  pub recovery_exhausted :
      s.inst.state ≡ recovery
      → budget_left s ≡ false
      → (s' : Service) × (e' : Engine) × (tick_recovery env i e ≡ some e')
        × (get_elem? e'.services i ≡ some s')
        × (s'.inst.state ≡ friction)
        × (s'.restart_count ≡ s.restart_count)
  unfolding tick_recovery update
  recovery_exhausted r b =
      let s' = stepped s (service_probe_f9 env.probed s e.services i) in
      let st = step_recovery_exhausted env.probed s e.services i r b in
      (
        s',
        update e i (λ _. s'),
        at_service-some e i s _ _ g ∙ (rw st refl),
        get_elem?-modify_self e.services i _ g,
        st,
        refl,
      )

-- What a verdict leaves: a parked service with one more park counted, or one whose breaker tripped.
abbrev pub GivenUp : Service → Service → Type 0
GivenUp s s' =
    (s'.restart_count ≡ s.restart_count)
    × ((s'.inst.state ≡ dormant) × (s'.dormant_count ≡ (s.dormant_count + 1) % 256)
        ⊎ (s'.inst.state ≡ excised)
          × (s'.circuit_broken ≡ true)
          × (s'.excise_reason ≡ exc_breaker)
          × (s.critical ≡ false)
          × (4 ≤ s.dormant_count))

verdict-GivenUp :
    (s s' : Service) (now : Time)
    → s.inst.state ≡ excised
    → friction_verdict s now ≡ some s'
    → GivenUp s s'
unfolding friction_verdict park
verdict-GivenUp s s' now x v = ground arith

keep_fallback-get :
    (i : ℕ) (s : Service) (e : Engine)
    → get_elem? (keep_fallback i s e).services i ≡ get_elem? e.services i
unfolding keep_fallback update
keep_fallback-get i s e = elim (Bool-cases s.fallback_live) [
  | inr off ↦ rw (off, keep_fallback) refl
  | inl on ↦ elim (Option-cases (service_fallback s.card e.services i)) [
    | inl f ↦ rw (on, keep_fallback) (rw f refl)
    | inr (j, f) ↦
        rw (on, keep_fallback)
          (rw f (
            get_elem?-modify_ne e.services j i fallback_up
              (service_fallback-ne s.card e.services i j f)))
  ]
]

-- The fields that killing the cgroup leaves alone.
abbrev SameArc : Service → Service → Type 0
SameArc s t =
    (t.inst.state ≡ s.inst.state)
    × (t.restart_count ≡ s.restart_count)
    × (t.dormant_count ≡ s.dormant_count)
    × (t.critical ≡ s.critical)

kill_cgroup-get :
    (i : ℕ) (e : Engine) (s : Service)
    → get_elem? e.services i ≡ some s
    → (t : Service) × (get_elem? (kill_cgroup i e).services i ≡ some t) × SameArc s t
unfolding kill_cgroup update
kill_cgroup-get i e s g = elim (Bool-cases (length s.cgroup_path == 0)) [
  | inl no_group ↦
      let same : kill_cgroup i e ≡ e = at_service-some e i s _ _ g ∙ rw no_group refl in
      (s, rw same g, ground arith)
  | inr group ↦
      let killed : Engine =
        emit (update e i (λ t. record t { cgroup_path = [] })) (kill_tree s.cgroup_path) in
      let same : kill_cgroup i e ≡ killed = at_service-some e i s _ _ g ∙ rw group refl in
      (
        record s { cgroup_path = [] },
        rw same (get_elem?-modify_self e.services i _ g),
        ground arith,
      )
]

give_up-GivenUp :
    (env : Env) (i : ℕ) (e e' : Engine) (t : Service)
    → get_elem? e.services i ≡ some t
    → t.inst.state ≡ excised
    → give_up env i e ≡ some e'
    → (s' : Service) × (get_elem? e'.services i ≡ some s') × GivenUp t s'
unfolding give_up update
give_up-GivenUp env i e e' t g x h = elim (Option-cases (friction_verdict t env.answers.now)) [
  | inl v ↦ let stuck : give_up env i e ≡ none = at_service-some e i t _ _ g ∙ rw v refl in cc
  | inr (s', v) ↦
      let kept : Engine = keep_fallback i s' (update e i (λ _. s')) in
      let out : give_up env i e ≡ some kept = at_service-some e i t _ _ g ∙ rw v refl in
      let same : e' ≡ kept = cc in
      (
        s',
        rw same (
            keep_fallback-get i s' (update e i (λ _. s')) ∙ get_elem?-modify_self e.services i _ g),
        verdict-GivenUp t s' env.answers.now x v,
      )
]

-- A service after the count of a retry, with its deck as it was.
abbrev Retried : Service → Service → Type 0
Retried s r =
    (r.restart_count ≡ suc s.restart_count) × (r.card ≡ s.card) × (r.card_next ≡ s.card_next)

retried_keeps : (s : Service) (now : Time) → Retried s (retried s now)
unfolding retried svc_hold_retry
retried_keeps s now = (omega arith, refl, refl)

Played-after :
    (r s s' : Service)
    → Retried s r
    → Played r s'
    → (s'.restart_count ≡ suc s.restart_count)
      × (s'.card ≡ s.card)
      × ((s'.card_next ≡ s.card_next) ⊎ (s'.card_next ≡ suc s.card_next))
Played-after r s s' k p = ground arith

module _ (env : Env) (i : ℕ) (e e' : Engine) (s : Service) (g : get_elem? e.services i ≡ some s)
    (f : s.inst.state ≡ friction) (h : tick_friction env i e ≡ some e') where
  step_friction :
      (schema_step s.inst (service_probe_f6 env.probed s)).state
      ≡ (if budget_left s then recovery else excised)
  unfolding schema_step
  step_friction = ground (arith, friction_weight_iff env.probed s)

  -- If the FRICTION branch returns for a service without restarts left, the service is parked,
  -- with one more park counted, or its breaker is tripped; the breaker only of a service that is
  -- not critical and has been parked four times.
  pub friction_exhausted :
      budget_left s ≡ false → (s' : Service) × (get_elem? e'.services i ≡ some s') × GivenUp s s'
  unfolding tick_friction update
  friction_exhausted b =
      let st = stepped s (service_probe_f6 env.probed s) in
      let gone : st.inst.state ≡ excised = step_friction ∙ rw b refl in
      let given : tick_friction env i e ≡ give_up env i (kill_cgroup i (update e i (λ _. st))) =
        at_service-some e i s _ _ g ∙ rw gone refl in
      let (t, gt, same) =
        kill_cgroup-get i (update e i (λ _. st)) st (get_elem?-modify_self e.services i _ g) in
      let (s', gs, up) =
        give_up-GivenUp env i (kill_cgroup i (update e i (λ _. st))) e' t gt (same.0 ∙ gone)
          (sym given ∙ h) in
      (s', gs, ground (arith, same, up))

  -- If the FRICTION branch returns for a service with restarts left, one of them is used up, and
  -- at most the next card of its deck is played.
  pub friction_retries :
      budget_left s ≡ true
      → (s' : Service) × (get_elem? e'.services i ≡ some s')
        × (s'.restart_count ≡ suc s.restart_count)
        × (s'.card ≡ s.card)
        × ((s'.card_next ≡ s.card_next) ⊎ (s'.card_next ≡ suc s.card_next))
  unfolding tick_friction update
  friction_retries b =
      let st = stepped s (service_probe_f6 env.probed s) in
      let back : st.inst.state ≡ recovery = step_friction ∙ rw b refl in
      let r = retried st env.answers.now in
      let played : tick_friction env i e ≡ play_card env.answers i (update e i (λ _. r)) =
        at_service-some e i s _ _ g ∙ rw back refl in
      let (s', gs, p) =
        play_card-Played env.answers i (update e i (λ _. r)) e' r
          (get_elem?-modify_self e.services i _ g) (sym played ∙ h) in
      let kept = retried_keeps st env.answers.now in
      let (count, deck, next) = Played-after r s s' kept p in (s', gs, count, deck, next)
