-- ===== src/Engine/Tick.antt =====
-- engine.c, `tick_service`: the cases RECOVERY, FRICTION and DORMANT, and the test that lets a service
-- in NEW_PROCESS be spawned.
use schema_init.Prelude.{ℕ, ◌+◌, Option, none, some, [], leb, ◌==◌, if◌then◌else◌, length}
use schema_init.Schema.{settled, recovery, new_process, state_eq, schema_step}
use schema_init.Engine.Service.{Time, Service, with_state, svc_hold_retry}
use schema_init.Engine.Probe.{Probed, service_fallback, service_probe_f9, service_probe_f6}
use schema_init.Engine.Backoff.{friction_verdict}
use schema_init.Engine.Cards.{
  kill_tree, Engine, Answers, update, emit, at_service, fallback_up, fallback_down, play_card,
}

-- What one pass reads: the probes, and the answers to its forks.
pub record Env : Type 0 where
  pub probed : Probed
  pub answers : Answers

-- A retry, from RECOVERY or from FRICTION: the service goes back to NEW_PROCESS, is held for
-- `restart_sec`, and plays its next card.
unfoldable pub retried : Service → Time → Service
retried s now =
    svc_hold_retry (record (with_state s new_process) { restart_count = s.restart_count + 1 }) now

unfoldable pub tick_recovery : Env → ℕ → Engine → Option Engine
unfolding retried
tick_recovery env i e = at_service e i (some e) (λ s.
    let stepped = record s {
      inst = schema_step s.inst (service_probe_f9 env.probed s e.services i);
    } in
    if state_eq stepped.inst.state settled
    then play_card env.answers i (update e i (λ _. retried stepped env.answers.now))
    else some (update e i (λ _. stepped)))

-- `svc_cgroup_kill_tree`: without a cgroup there is nothing to kill.
unfoldable pub kill_cgroup : ℕ → Engine → Engine
kill_cgroup i e = at_service e i e (λ s.
    if length s.cgroup_path == 0
    then e
    else emit (update e i (λ t. record t { cgroup_path = [] })) (kill_tree s.cgroup_path))

-- A played fallback goes on while its service is parked or given up.
unfoldable pub keep_fallback : ℕ → Service → Engine → Engine
keep_fallback i s e =
    if s.fallback_live
    then elim (service_fallback s.card e.services i) [ none ↦ e | some j ↦ update e j fallback_up ]
    else e

unfoldable pub give_up : Env → ℕ → Engine → Option Engine
unfolding keep_fallback
give_up env i e = at_service e i (some e) (λ s. elim (friction_verdict s env.answers.now) [
  | none ↦ none
  | some s' ↦ some (keep_fallback i s' (update e i (λ _. s')))
])

unfoldable pub tick_friction : Env → ℕ → Engine → Option Engine
unfolding retried
tick_friction env i e = at_service e i (some e) (λ s.
    let stepped = record s { inst = schema_step s.inst (service_probe_f6 env.probed s) } in
    if state_eq stepped.inst.state recovery
    then play_card env.answers i (update e i (λ _. retried stepped env.answers.now))
    else give_up env i (kill_cgroup i (update e i (λ _. stepped))))

-- On waking, a played fallback is taken down before the service gets its next try.
unfoldable pub drop_fallback : Env → ℕ → Service → Engine → Engine
drop_fallback env i s e =
    if s.fallback_live
    then elim (service_fallback s.card e.services i) [
      | none ↦ e
      | some j ↦ fallback_down env.answers j e
    ]
    else e

unfoldable pub woken : Service → Service
woken s = record (with_state s new_process) { restart_count = s.restart_count + 1 }

unfoldable pub tick_dormant : Env → ℕ → Engine → Option Engine
unfolding drop_fallback woken
tick_dormant env i e = at_service e i (some e) (λ s.
    if leb s.dormant_until.sec env.answers.now.sec
    then play_card env.answers i (drop_fallback env i (woken s) (update e i (λ _. woken s)))
    else some e)
