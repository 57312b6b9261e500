-- ===== src/Tests/Supervising.antt =====
-- service.c and engine.c: one camera service with an empty budget, and one with restarts left.
use schema_init.Prelude.{
  ℕ, ◌≡◌, refl, ◌⊎◌, if◌then◌else◌, true, false, none, some, [], ◌∷◌, arith, leb, get_elem?, codes,
  starts_with,
}
use schema_init.Schema.{
  State, Instance, schema_step, new_process, full_trust, recovery, friction, settled, dormant,
  popcount,
}
use schema_init.Prelude.Flags.{flag_if}
use schema_init.Engine.Service.{
  with_state, Time, zero_time, Service, exc_none, deps_ready, svc_hold_retry,
}
use schema_init.Engine.Probe.{service_probe_f6, service_probe_f8}
use schema_init.Engine.Ready.{found, ready_trusted_iff}
use schema_init.Engine.Delays.{critical_backoff_overflows}
use schema_init.Engine.Backoff.{park_delay, friction_verdict, park}
use schema_init.Engine.Cards.{Engine, play_card, play_next, play_exec, update, modify}
use schema_init.Engine.Deck.{Played, play_card-Played}
use schema_init.Engine.Tick.{
  kill_cgroup, keep_fallback, give_up, retried, Env, tick_recovery, tick_friction,
}
use schema_init.Engine.Arc.{
  stepped, GivenUp, recovery_exhausted, friction_exhausted, friction_retries,
}

abbrev pub at_time : ℕ → Time
at_time n = record { sec = n; nsec = 0 }

abbrev pub camera : State → ℕ → Service
camera st tries = record {
  name = codes "camera";
  inst = record { state = st; weight = 0; target_c = 1; prev_state = settled; pid = 0; flags = 0 };
  needs_root = false;
  critical = false;
  no_restart = false;
  timer = false;
  oneshot = false;
  no_excise = false;
  deps = [];
  child_pid = 0;
  restart_count = tries;
  max_restarts = 5;
  spawn_time_mono = at_time 90;
  restart_sec = 2;
  restart_at = zero_time;
  card = codes "exec:/bin/reset" ∷ [];
  card_next = 0;
  card_pid = 0;
  card_start = zero_time;
  fallback_live = false;
  standby_up = false;
  exec_stop_count = 0;
  exec_stop_post_count = 0;
  stop_pid = 0;
  stop_phase = 0;
  stop_start = zero_time;
  ctl_killed = false;
  dormant_count = 0;
  dormant_until = zero_time;
  circuit_broken = false;
  excise_reason = exc_none;
  listen_open = false;
  cgroup_path = [];
  bind_name = [];
  bind_held = false;
  bind_was_up = false;
  bind_saved_restarts = 0;
  bind_saved_dormant = 0;
  bind_held_since = zero_time;
  bind_died_at = zero_time;
  bind_seen_spawn = zero_time;
}

abbrev pub env : Env
env = record {
  probed = record {
    exec_exists = true;
    exec_runs = true;
    mem_kb = 100000;
    is_root = true;
    now = at_time 100;
  };
  answers = record { now = at_time 100; card_fork = λ i. some 42; stop_fork = λ i. none };
}

abbrev pub engine_with : Service → Engine
engine_with s = record { services = s ∷ []; effects = [] }

recovery_exhausted_example :
    (s' : Service) × (e' : Engine) × (tick_recovery env 0 (engine_with (camera recovery 5))
      ≡ some e')
    × (get_elem? e'.services 0 ≡ some s')
    × (s'.inst.state ≡ friction)
    × (s'.restart_count ≡ 5)
recovery_exhausted_example =
    recovery_exhausted env 0 (engine_with (camera recovery 5)) (camera recovery 5) refl refl refl

abbrev fresh : Instance
fresh = (camera new_process 0).inst

ready_trusted_iff_example :
    (schema_step fresh (service_probe_f8 env.probed (camera new_process 0) [])).state
    ≡ (if leb 2 (found env.probed (camera new_process 0)) then full_trust else recovery)
unfolding deps_ready
ready_trusted_iff_example =
    ready_trusted_iff env.probed (camera new_process 0) [] [] fresh refl refl

critical_backoff_overflows_example :
    friction_verdict
      (record (camera friction 5) { critical = true; dormant_count = 55 })
      (at_time 0)
    ≡ none
critical_backoff_overflows_example =
    critical_backoff_overflows (record (camera friction 5) { critical = true; dormant_count = 55 })
      (at_time 0) refl (omega arith) (omega arith)

abbrev probed_camera : ℕ → Service
probed_camera tries =
    stepped (camera friction tries) (service_probe_f6 env.probed (camera friction tries))

abbrev parked : Service
parked = record (with_state (probed_camera 5) dormant) {
  dormant_count = 1;
  dormant_until = at_time 400;
}

gives_up : tick_friction env 0 (engine_with (camera friction 5)) ≡ some (engine_with parked)
unfolding tick_friction update modify schema_step service_probe_f6 popcount kill_cgroup give_up
    friction_verdict park park_delay keep_fallback flag_if
gives_up = refl

friction_exhausted_example :
    (s' : Service) × (get_elem? (parked ∷ []) 0 ≡ some s') × GivenUp (camera friction 5) s'
friction_exhausted_example =
    friction_exhausted env 0 (engine_with (camera friction 5)) (engine_with parked)
      (camera friction 5) refl refl gives_up refl

abbrev retry : Service
retry = record (retried (probed_camera 3) (at_time 100)) {
  card_next = 1;
  card_pid = 42;
  card_start = at_time 100;
}

retries : tick_friction env 0 (engine_with (camera friction 3)) ≡ some (engine_with retry)
unfolding tick_friction update modify schema_step service_probe_f6 popcount retried svc_hold_retry
    play_card play_next play_exec starts_with flag_if
retries = refl

friction_retries_example :
    (s' : Service) × (get_elem? (retry ∷ []) 0 ≡ some s')
    × (s'.restart_count ≡ 4)
    × (s'.card ≡ codes "exec:/bin/reset" ∷ [])
    × ((s'.card_next ≡ 0) ⊎ (s'.card_next ≡ 1))
friction_retries_example =
    friction_retries env 0 (engine_with (camera friction 3)) (engine_with retry) (camera friction 3)
      refl refl retries refl

abbrev dealt : Service
dealt = record (camera friction 3) { card_next = 1; card_pid = 42; card_start = at_time 100 }

deals : play_card env.answers 0 (engine_with (camera friction 3)) ≡ some (engine_with dealt)
unfolding update modify play_card play_next play_exec starts_with flag_if
deals = refl

play_card-Played_example :
    (s' : Service) × (get_elem? (dealt ∷ []) 0 ≡ some s') × Played (camera friction 3) s'
play_card-Played_example =
    play_card-Played env.answers 0 (engine_with (camera friction 3)) (engine_with dealt)
      (camera friction 3) refl deals
