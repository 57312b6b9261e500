-- ===== src/Engine/Cards.antt =====
-- engine.c: the cards of a service, its fallback, and stopping a service together with its binders.
use schema_init.Prelude.{
  ℕ, zero, suc, ◌+◌, Bool, true, false, not, ◌&&◌, ◌||◌, Option, none, some, List, [], ◌∷◌, ◌++◌,
  ltb, leb, ◌==◌, if◌then◌else◌, length, get_elem?, Bytes, str_eq, starts_with,
}
use schema_init.Schema.{excised, perfect, new_process, state_eq}
use schema_init.Engine.Service.{Time, zero_time, Dep, Service, with_state}
use schema_init.Engine.Probe.{fallback_prefix, service_fallback}
use schema_init.Engine.Backoff.{park, breaker_clear}

-- What the engine does to processes.
pub data Effect : Type 0 where
  term : ℕ → Effect
  kill_tree : Bytes → Effect

pub record Engine : Type 0 where
  pub services : List Service
  pub effects : List Effect

-- What the system answers in one pass: the clock, and the pids of the forks for the cards and the
-- stop commands of the service at an index (`none` if the fork fails).
pub record Answers : Type 0 where
  pub now : Time
  pub card_fork : ℕ → Option ℕ
  pub stop_fork : ℕ → Option ℕ

unfoldable pub modify : List Service → ℕ → (Service → Service) → List Service
modify [] i f = []
modify (s ∷ ss) zero f = f s ∷ ss
modify (s ∷ ss) (suc i) f = s ∷ modify ss i f

unfoldable pub update : Engine → ℕ → (Service → Service) → Engine
unfolding modify
update e i f = record e { services = modify e.services i f }

abbrev pub emit : Engine → Effect → Engine
emit e x = record e { effects = e.effects ++ x ∷ [] }

-- A pointer to a service is its index; an index out of range is no service.
abbrev pub at_service {ℓ} : {A : Type ℓ} → Engine → ℕ → A → (Service → A) → A
at_service e i missing f = elim (get_elem? e.services i) [ none ↦ missing | some s ↦ f s ]

-- `stop_cmds_begin` for phase 1 or 2: whether a runner was started.
unfoldable pub stop_cmds_begin : Answers → Engine → ℕ → Service → ℕ → Engine × Bool
stop_cmds_begin ans e i s phase =
    let n = if phase == 1 then s.exec_stop_count else s.exec_stop_post_count in
    if n == 0 || ltb 0 s.stop_pid then (e, false) else elim (ans.stop_fork i) [
      | none ↦ (e, false)
      | some pid ↦ (
        update e i (λ t. record t { stop_pid = pid; stop_phase = phase; stop_start = ans.now }),
        true,
      )
    ]

-- The loop of `bind_bound` over the dependencies.
unfoldable pub bind_dep : List Service → List Dep → Bytes → Option ℕ
bind_dep table [] name = none
bind_dep table (d ∷ ds) name =
    let rest = bind_dep table ds name in
    if not (str_eq d.name name) then rest else elim d.dep_idx [
      | none ↦ none
      | some b ↦ elim (get_elem? table b) [
        | none ↦ none
        | some t ↦ if t.timer || t.oneshot then none else some b
      ]
    ]

unfoldable pub bind_bound : List Service → Service → Option ℕ
unfolding bind_dep
bind_bound table s = if length s.bind_name == 0 then none else bind_dep table s.deps s.bind_name

bound_seen : Engine → Option ℕ → Time
bound_seen e none = zero_time
bound_seen e (some t) = at_service e t zero_time (λ b. b.bind_seen_spawn)

unfoldable pub bind_hold : Engine → Service → Service
unfolding bound_seen bind_bound
bind_hold e b = record b {
  bind_held_since =
      if b.bind_held then b.bind_held_since else bound_seen e (bind_bound e.services b);
  bind_held = true;
  bind_died_at = zero_time;
}

-- `bind_stop` for the service at `j`; `stop` is the call of `stop_main`.
unfoldable pub bind_stop : (ℕ → Engine → Engine) → ℕ → Engine → Engine
bind_stop stop j e = at_service e j e (λ b.
    if b.bind_held || b.child_pid == 0
    then e
    else if b.ctl_killed && b.no_restart
    then e
    else stop j (update e j (λ t. record (bind_hold e t) { restart_at = zero_time })))

pub is_bound_to : ℕ → Option ℕ → Bool
is_bound_to idx none = false
is_bound_to idx (some b) = b == idx

-- The loop of `bind_stop_binders`, with the rounds left and the next index.
unfoldable pub stop_binders : (ℕ → Engine → Engine) → ℕ → ℕ → ℕ → Engine → Engine
unfolding is_bound_to
stop_binders stop idx zero j e = e
stop_binders stop idx (suc k) j e =
    let bound = at_service e j false (λ b. is_bound_to idx (bind_bound e.services b)) in
    let e' = if not (j == idx) && bound then bind_stop stop j e else e in
    stop_binders stop idx k (suc j) e'

-- `stop_main`. Each nested call is for a binder that was not held before and is held now, so the
-- number of services bounds the depth.
unfoldable pub stop_main : ℕ → Answers → ℕ → Engine → Engine
stop_main zero ans i e = e
stop_main (suc fuel) ans i e =
    let stop = stop_main fuel ans in
    let stopped = stop_binders stop i (length e.services) 0 e in
    at_service e i e (λ s.
      if s.child_pid == 0
      then e
      else at_service stopped i stopped (λ t.
        if ltb 0 t.stop_pid && t.stop_phase == 1
        then stopped
        else let (begun, ok) = stop_cmds_begin ans stopped i t 1 in
          if ok then begun else emit stopped (term t.child_pid)))

abbrev pub stop_fuel : Engine → ℕ
stop_fuel e = suc (length e.services)

-- `fallback_up` on the fallback's record.
unfoldable pub fallback_up : Service → Service
unfolding breaker_clear
fallback_up fb =
    let up = record fb { standby_up = true; no_restart = false } in
    if fb.child_pid == 0 && (state_eq fb.inst.state excised || state_eq fb.inst.state perfect)
    then breaker_clear (record (with_state up new_process) { restart_count = 0 })
    else up

unfoldable pub fallback_down : Answers → ℕ → Engine → Engine
fallback_down ans j e = at_service e j e (λ fb.
    if not fb.standby_up
    then e
    else if ltb 0 fb.child_pid
    then stop_main (stop_fuel e) ans j
        (update e j (λ t. record t { standby_up = false; no_restart = true; ctl_killed = true }))
    else update e j (λ t. with_state (record t { standby_up = false; no_restart = true }) excised))

-- The card at the head of the deck; a fallback card parks the service.
unfoldable pub play_fallback : Answers → ℕ → Service → Engine → Option Engine
play_fallback ans i s e =
    let s' = record s { card_next = s.card_next + 1 } in
    elim (service_fallback s.card e.services i) [
      | none ↦ some (update e i (λ _. s'))
      | some j ↦ elim (park (record s' { fallback_live = true }) ans.now) [
        | none ↦ none
        | some parked ↦ some (update (update e i (λ _. parked)) j fallback_up)
      ]
    ]

unfoldable pub play_exec : Answers → ℕ → Service → Engine → Engine
play_exec ans i s e =
    let s' = record s { card_next = s.card_next + 1 } in
    elim (ans.card_fork i) [
      | none ↦ update e i (λ _. s')
      | some pid ↦ update e i (λ _. record s' { card_pid = pid; card_start = ans.now })
    ]

-- `play_card` for the service `s` at index `i`; `none` is the undefined shift of `park`.
unfoldable pub play_next : Answers → ℕ → Service → Engine → Option Engine
play_next ans i s e =
    if ltb 0 s.card_pid || leb (length s.card) s.card_next
    then some e
    else elim (get_elem? s.card s.card_next) [
      | none ↦ some e
      | some c ↦
          if starts_with fallback_prefix c
          then play_fallback ans i s e
          else some (play_exec ans i s e)
    ]

unfoldable pub play_card : Answers → ℕ → Engine → Option Engine
play_card ans i e = at_service e i (some e) (λ s. play_next ans i s e)
