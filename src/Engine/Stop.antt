-- ===== src/Engine/Stop.antt =====
-- Stopping a service together with its binders: the number of services bounds the depth of the calls.
use schema_init.Prelude.{
  ℕ, zero, suc, ◌+◌, ◌≤◌, ◌<◌, ◌≡◌, refl, sym, ap, ◌∙◌, ◌⊎◌, inl, inr, true, false, not, ◌&&◌, ◌||◌,
  some, List, [], ◌∷◌, arith, ltb, ◌==◌, if◌then◌else◌, Bool-cases, Option-cases, one_if, length,
  get_elem?,
}
use mathlib.Core.Path.{subst}
use schema_init.Engine.Service.{Service}
use schema_init.Engine.Deck.{at_service-none, at_service-some}
use schema_init.Engine.Cards.{
  Engine, Answers, term, emit, modify, update, at_service, stop_cmds_begin, bind_hold, bind_bound,
  bind_stop, is_bound_to, stop_binders, stop_main, stop_fuel,
}

-- The services that no bound holds.
free : List Service → ℕ
free [] = 0
free (s ∷ ss) = one_if (not s.bind_held) + free ss

free-le_length : (ss : List Service) → free ss ≤ length ss
unfolding free
free-le_length [] = omega arith
free-le_length (s ∷ ss) = elim (Bool-cases s.bind_held) [
  | inl h ↦ rw (h, free) (omega (arith, free-le_length ss))
  | inr h ↦ rw (h, free) (omega (arith, free-le_length ss))
]

-- An update that lets no held service go.
abbrev Holds : (Service → Service) → Type 0
Holds f = (s : Service) → s.bind_held ≡ true → (f s).bind_held ≡ true

free-modify_le :
    (ss : List Service) (i : ℕ) (f : Service → Service) → Holds f → free (modify ss i f) ≤ free ss
unfolding free modify
free-modify_le [] i f h = omega arith
free-modify_le (s ∷ ss) zero f h = ground (arith, h s)
free-modify_le (s ∷ ss) (suc i) f h = omega (arith, free-modify_le ss i f h)

free-modify_lt :
    (ss : List Service) (i : ℕ) (f : Service → Service) (s : Service)
    → get_elem? ss i ≡ some s
    → s.bind_held ≡ false
    → (f s).bind_held ≡ true
    → free (modify ss i f) < free ss
unfolding free modify
free-modify_lt [] i f s g b c = cc
free-modify_lt (t ∷ ss) zero f s g b c =
    let same : t ≡ s = cc in
    let held : (f t).bind_held ≡ true = ap (λ x. (f x).bind_held) same ∙ c in
    ground (arith, held, same, b)
free-modify_lt (t ∷ ss) (suc i) f s g b c = omega (arith, free-modify_lt ss i f s g b c)

abbrev Lowers : (ℕ → Engine → Engine) → Type 0
Lowers stop = (j : ℕ) (e : Engine) → free (stop j e).services ≤ free e.services

-- Two ways to stop a service that agree wherever fewer than `n` services are free.
abbrev Agree : ℕ → (ℕ → Engine → Engine) → (ℕ → Engine → Engine) → Type 0
Agree n stop stop' = (j : ℕ) (e : Engine) → free e.services < n → stop j e ≡ stop' j e

abbrev hold : Engine → Service → Service
hold e t = record (bind_hold e t) { restart_at = record { sec = 0; nsec = 0 } }

-- Stopping a binder does nothing, or holds it and goes on with one free service less.
bind_stop-cases :
    (j : ℕ) (e : Engine)
    → ((stop : ℕ → Engine → Engine) → bind_stop stop j e ≡ e)
      ⊎ ((stop : ℕ → Engine → Engine) → bind_stop stop j e ≡ stop j (update e j (hold e)))
        × (free (update e j (hold e)).services < free e.services)
unfolding bind_stop update bind_hold
bind_stop-cases j e = elim (Option-cases (get_elem? e.services j)) [
  | inl g ↦ inl (λ stop. at_service-none e j _ _ g)
  | inr (b, g) ↦ elim (Bool-cases (b.bind_held || b.child_pid == 0)) [
    | inl c ↦ inl (λ stop. at_service-some e j b _ _ g ∙ rw c refl)
    | inr c ↦ elim (Bool-cases (b.ctl_killed && b.no_restart)) [
      | inl d ↦ inl (λ stop. at_service-some e j b _ _ g ∙ rw (c, d) refl)
      | inr d ↦ inr (
        (λ stop. at_service-some e j b _ _ g ∙ rw (c, d) refl),
        free-modify_lt e.services j (hold e) b g (ground arith) refl,
      )
    ]
  ]
]

bind_stop-Lowers : (stop : ℕ → Engine → Engine) → Lowers stop → Lowers (bind_stop stop)
bind_stop-Lowers stop low j e = elim (bind_stop-cases j e) [
  | inl same ↦ rw (same stop) (omega arith)
  | inr (eq, lt) ↦ rw (eq stop) (omega (arith, lt, low j (update e j (hold e))))
]

bind_stop-Agree :
    (n : ℕ) (stop stop' : ℕ → Engine → Engine)
    → Agree n stop stop'
    → Agree (suc n) (bind_stop stop) (bind_stop stop')
bind_stop-Agree n stop stop' agree j e le = elim (bind_stop-cases j e) [
  | inl same ↦ same stop ∙ sym (same stop')
  | inr (eq, lt) ↦ eq stop ∙ agree j (update e j (hold e)) (omega (arith, lt, le)) ∙ sym (eq stop')
]

stop_binders-Lowers :
    (stop : ℕ → Engine → Engine) (idx k j : ℕ) (e : Engine)
    → Lowers stop
    → free (stop_binders stop idx k j e).services ≤ free e.services
unfolding stop_binders
stop_binders-Lowers stop idx zero j e low = omega arith
stop_binders-Lowers stop idx (suc k) j e low =
    let bound = at_service e j false (λ b. is_bound_to idx (bind_bound e.services b)) in
    elim (Bool-cases (not (j == idx) && bound)) [
      | inl t ↦
          rw (t, stop_binders)
            (omega (
              arith,
              stop_binders-Lowers stop idx k (suc j) (bind_stop stop j e) low,
              bind_stop-Lowers stop low j e,
            ))
      | inr t ↦ rw (t, stop_binders) (stop_binders-Lowers stop idx k (suc j) e low)
    ]

stop_binders-Agree :
    (n : ℕ) (stop stop' : ℕ → Engine → Engine) (idx k j : ℕ) (e : Engine)
    → Lowers stop
    → Agree n stop stop'
    → free e.services < suc n
    → stop_binders stop idx k j e ≡ stop_binders stop' idx k j e
unfolding stop_binders
stop_binders-Agree n stop stop' idx zero j e low agree le = refl
stop_binders-Agree n stop stop' idx (suc k) j e low agree le =
    let bound = at_service e j false (λ b. is_bound_to idx (bind_bound e.services b)) in
    elim (Bool-cases (not (j == idx) && bound)) [
      | inl t ↦
          let rest =
            stop_binders-Agree n stop stop' idx k (suc j) (bind_stop stop j e) low agree
              (omega (arith, bind_stop-Lowers stop low j e, le)) in
          rw (t, stop_binders)
            (rest
              ∙ ap (stop_binders stop' idx k (suc j)) (bind_stop-Agree n stop stop' agree j e le))
      | inr t ↦ rw (t, stop_binders) (stop_binders-Agree n stop stop' idx k (suc j) e low agree le)
    ]

-- What `stop_main` does behind its binders.
abbrev finish_at : Answers → ℕ → Engine → Service → Engine
finish_at ans i stopped t =
    if ltb 0 t.stop_pid && t.stop_phase == 1
    then stopped
    else let (begun, ok) = stop_cmds_begin ans stopped i t 1 in
      if ok then begun else emit stopped (term t.child_pid)

abbrev finish : Answers → ℕ → Engine → Engine
finish ans i stopped = at_service stopped i stopped (finish_at ans i stopped)

begin-Lowers :
    (ans : Answers) (e : Engine) (i : ℕ) (s : Service) (phase : ℕ)
    → free (stop_cmds_begin ans e i s phase).0.services ≤ free e.services
unfolding stop_cmds_begin update
begin-Lowers ans e i s phase =
    let n = if phase == 1 then s.exec_stop_count else s.exec_stop_post_count in
    elim (Bool-cases (n == 0 || ltb 0 s.stop_pid)) [
      | inl t ↦ rw (t, stop_cmds_begin) (omega arith)
      | inr t ↦ elim (Option-cases (ans.stop_fork i)) [
        | inl f ↦ rw (t, stop_cmds_begin) (rw f (omega arith))
        | inr (pid, f) ↦ rw (t, stop_cmds_begin) (rw f (free-modify_le e.services i _ (λ t h. h)))
      ]
    ]

finish_at-Lowers :
    (ans : Answers) (i : ℕ) (e : Engine) (t : Service)
    → free (finish_at ans i e t).services ≤ free e.services
finish_at-Lowers ans i e t = elim (Bool-cases (ltb 0 t.stop_pid && t.stop_phase == 1)) [
  | inl c ↦ rw c (omega arith)
  | inr c ↦ elim (Bool-cases (stop_cmds_begin ans e i t 1).1) [
    | inl d ↦ rw (c, d) (begin-Lowers ans e i t 1)
    | inr d ↦ rw (c, d) (omega arith)
  ]
]

finish-Lowers :
    (ans : Answers) (i : ℕ) (e : Engine) → free (finish ans i e).services ≤ free e.services
finish-Lowers ans i e = elim (Option-cases (get_elem? e.services i)) [
  | inl g ↦
      subst (λ x. free x.services ≤ free e.services)
        (sym (at_service-none e i e (finish_at ans i e) g)) (omega arith)
  | inr (t, g) ↦
      subst (λ x. free x.services ≤ free e.services)
        (sym (at_service-some e i t e (finish_at ans i e) g)) (finish_at-Lowers ans i e t)
]

stop_main-cases :
    (ans : Answers) (i : ℕ) (e : Engine)
    → ((fuel : ℕ) → stop_main (suc fuel) ans i e ≡ e)
      ⊎ ((fuel : ℕ)
          → stop_main (suc fuel) ans i e
            ≡ finish ans i (stop_binders (stop_main fuel ans) i (length e.services) 0 e))
unfolding stop_main
stop_main-cases ans i e = elim (Option-cases (get_elem? e.services i)) [
  | inl g ↦ inl (λ fuel. at_service-none e i e _ g)
  | inr (s, g) ↦ elim (Bool-cases (s.child_pid == 0)) [
    | inl c ↦ inl (λ fuel. at_service-some e i s e _ g ∙ rw c refl)
    | inr c ↦ inr (λ fuel. at_service-some e i s e _ g ∙ rw c refl)
  ]
]

stop_main-Lowers : (fuel : ℕ) (ans : Answers) → Lowers (stop_main fuel ans)
stop_main-Lowers zero ans i e = unfold stop_main in omega arith
stop_main-Lowers (suc fuel) ans i e = elim (stop_main-cases ans i e) [
  | inl same ↦ rw (same fuel) (omega arith)
  | inr eq ↦
      let stopped = stop_binders (stop_main fuel ans) i (length e.services) 0 e in
      let low =
        stop_binders-Lowers (stop_main fuel ans) i (length e.services) 0 e
          (stop_main-Lowers fuel ans) in
      subst (λ x. free x.services ≤ free e.services) (sym (eq fuel))
        (omega (arith, finish-Lowers ans i stopped, low))
]

stop_main-Agree :
    (n m : ℕ) (ans : Answers) (i : ℕ) (e : Engine)
    → free e.services < n
    → free e.services < m
    → stop_main n ans i e ≡ stop_main m ans i e
stop_main-Agree zero m ans i e h k = absurd (omega (arith, h))
stop_main-Agree (suc n) zero ans i e h k = absurd (omega (arith, k))
stop_main-Agree (suc n) (suc m) ans i e h k = elim (stop_main-cases ans i e) [
  | inl same ↦ same n ∙ sym (same m)
  | inr eq ↦
      let agree : Agree (free e.services) (stop_main n ans) (stop_main m ans) =
        λ j e' lt. stop_main-Agree n m ans j e' (omega (arith, lt, h)) (omega (arith, lt, k)) in
      let binders =
        stop_binders-Agree (free e.services) (stop_main n ans) (stop_main m ans) i
          (length e.services) 0 e (stop_main-Lowers n ans) agree (omega arith) in
      eq n ∙ ap (finish ans i) binders ∙ sym (eq m)
]

-- The fuel that the calls of `stop_main` get, one more than the number of services, is enough: any
-- more fuel gives the same result.
pub stop_main-stop_fuel :
    (ans : Answers) (i : ℕ) (e : Engine) (more : ℕ)
    → stop_main (stop_fuel e + more) ans i e ≡ stop_main (stop_fuel e) ans i e
stop_main-stop_fuel ans i e more =
    let le = free-le_length e.services in
    stop_main-Agree (stop_fuel e + more) (stop_fuel e) ans i e (omega (arith, le))
      (omega (arith, le))
