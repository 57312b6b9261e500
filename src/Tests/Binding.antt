-- ===== src/Tests/Binding.antt =====
-- engine.c: a service bound to a database that has come back, and a stop of the database.
use schema_init.Prelude.{
  ℕ, List, map, Bytes, ◌≢◌, ◌+◌, ◌≡◌, refl, true, false, none, some, [], ◌∷◌, get_elem?, codes,
  str_eq,
}
use schema_init.Schema.{State, excised, dormant, fundamental, new_process}
use schema_init.Engine.Service.{Service, zero_time, exc_bind, exc_none, svc_is_up, with_state}
use schema_init.Engine.Cards.{Engine, stop_main, update, modify, bind_dep, bind_bound, bind_hold}
use schema_init.Engine.Bind.{
  bind_pass, bind_follow, bind_down, went_down, try_back, try_wait, bind_start, bind_waits,
  bind_back, is_back, ts_after, bind_tick,
}
use schema_init.Engine.Bound.{HasReturned, held_until_back, strict_start}
use schema_init.Engine.Stop.{stop_main-stop_fuel}
use schema_init.Tests.Supervising.{at_time, camera, env}

abbrev binder : Service
binder = record (camera excised 0) {
  deps = record { name = codes "db"; dep_idx = some 1; grp_idx = none } ∷ [];
  excise_reason = exc_bind;
  bind_name = codes "db";
  bind_held = true;
  bind_held_since = at_time 90;
}

abbrev database : Service
database = record (camera fundamental 0) {
  name = codes "db";
  child_pid = 7;
  spawn_time_mono = at_time 95;
}

abbrev pair : Engine
pair = record { services = binder ∷ database ∷ []; effects = [] }

abbrev started : Service
started = record (with_state binder new_process) { bind_held = false; excise_reason = exc_none }

comes_back : get_elem? (bind_pass env.answers 0 pair).services 0 ≡ some started
unfolding bind_pass bind_follow bind_down went_down try_back try_wait bind_start bind_waits
    bind_back is_back ts_after update modify bind_dep bind_bound svc_is_up str_eq
comes_back = refl

database_stays : get_elem? (bind_pass env.answers 0 pair).services 1 ≡ some database
unfolding bind_pass bind_follow bind_down went_down try_back try_wait bind_start bind_waits
    bind_back is_back ts_after update modify bind_dep bind_bound svc_is_up str_eq
database_stays = refl

bound_to_database : bind_bound pair.services binder ≡ some 1
unfolding bind_bound bind_dep str_eq
bound_to_database = refl

-- The database's run that began at 90 was up when the binder was held.
abbrev old_run : Service
old_run = record database { spawn_time_mono = at_time 90; bind_seen_spawn = at_time 90 }

abbrev runs : Service
runs = record binder { bind_held = false; bind_held_since = zero_time }

abbrev before : Engine
before = record { services = runs ∷ old_run ∷ []; effects = [] }

was_bound : bind_bound before.services runs ≡ some 1
unfolding bind_bound bind_dep str_eq
was_bound = refl

held_then : binder.bind_held_since ≡ (bind_hold before runs).bind_held_since
unfolding bind_hold bind_bound bind_dep str_eq
held_then = refl

held_until_back_example : HasReturned old_run binder database × (started.inst.state ≡ new_process)
held_until_back_example =
    held_until_back env.answers 0 1 pair binder database refl refl refl bound_to_database started
      before runs old_run 1 was_bound refl refl held_then refl comes_back refl

strict_start_example : (database.inst.state ≢ excised) × (database.inst.state ≢ dormant)
strict_start_example =
    strict_start env.answers 0 1 pair binder database refl refl refl bound_to_database started
      database comes_back database_stays refl refl refl

-- A pod bound to a network that is excised, and a container bound to the pod and standing before it:
-- `bind_tick` leaves the container about to start, although it excises the pod.
abbrev starting : Bytes → Bytes → ℕ → Service
starting own bound i = record (camera new_process 0) {
  name = own;
  deps = record { name = bound; dep_idx = some i; grp_idx = none } ∷ [];
  bind_name = bound;
}

abbrev chain : Engine
chain = record {
  services =
      starting (codes "ctr") (codes "pod") 1
      ∷ starting (codes "pod") (codes "net") 2
      ∷ camera excised 0
      ∷ [];
  effects = [];
}

abbrev states_of : Engine → List State
states_of e = map (λ (s : Service). s.inst.state) e.services

chain_starts : states_of (bind_tick env.answers chain) ≡ new_process ∷ excised ∷ excised ∷ []
unfolding bind_tick bind_pass bind_bound str_eq update bind_hold
chain_starts = refl

stop_main-stop_fuel_example : stop_main (3 + 5) env.answers 1 pair ≡ stop_main 3 env.answers 1 pair
stop_main-stop_fuel_example = stop_main-stop_fuel env.answers 1 pair 5
