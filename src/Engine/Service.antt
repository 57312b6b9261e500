-- ===== src/Engine/Service.antt =====
-- service.h: the fields of `service_t` that the recovery arc reads or writes, and its small helpers.
use schema_init.Prelude.{
  ℕ, ◌+◌, Bool, true, false, not, ◌&&◌, ◌||◌, Option, none, some, List, [], ◌∷◌, ltb, leb, ◌==◌,
  if◌then◌else◌, get_elem?, Bytes,
}
use schema_init.Schema.{
  State, excised, dormant, fundamental, settled, perfect, new_process, full_trust, state_eq,
  Instance,
}

-- A `struct timespec` of CLOCK_MONOTONIC.
pub record Time : Type 0 where
  pub sec : ℕ
  pub nsec : ℕ

abbrev pub zero_time : Time
zero_time = record { sec = 0; nsec = 0 }

-- `t.tv_sec || t.tv_nsec`.
abbrev pub time_set : Time → Bool
time_set t = not (t.sec == 0 && t.nsec == 0)

pub data ExciseReason : Type 0 where
  exc_none exc_breaker exc_bind exc_other : ExciseReason

-- One entry of dep_name, dep_idx and grp_dep_idx; an index of -1 is `none`.
pub record Dep : Type 0 where
  pub name : Bytes
  pub dep_idx : Option ℕ
  pub grp_idx : Option ℕ

-- The SVC_* bits of `flags` are a field each. `deps` holds the entries before the first empty name,
-- at most eight. A pid of 0 is no process.
pub record Service : Type 0 where
  pub name : Bytes
  pub inst : Instance
  pub needs_root : Bool
  pub critical : Bool
  pub no_restart : Bool
  pub timer : Bool
  pub oneshot : Bool
  pub no_excise : Bool
  pub deps : List Dep
  pub child_pid : ℕ
  pub restart_count : ℕ
  pub max_restarts : ℕ
  pub spawn_time_mono : Time
  pub restart_sec : ℕ
  pub restart_at : Time
  pub card : List Bytes
  pub card_next : ℕ
  pub card_pid : ℕ
  pub card_start : Time
  pub fallback_live : Bool
  pub standby_up : Bool
  pub exec_stop_count : ℕ
  pub exec_stop_post_count : ℕ
  pub stop_pid : ℕ
  pub stop_phase : ℕ
  pub stop_start : Time
  pub ctl_killed : Bool
  pub dormant_count : ℕ
  pub dormant_until : Time
  pub circuit_broken : Bool
  pub excise_reason : ExciseReason
  pub listen_open : Bool
  pub cgroup_path : Bytes
  pub bind_name : Bytes
  pub bind_held : Bool
  pub bind_was_up : Bool
  pub bind_saved_restarts : ℕ
  pub bind_saved_dormant : ℕ
  pub bind_held_since : Time
  pub bind_died_at : Time
  pub bind_seen_spawn : Time

abbrev pub with_state : Service → State → Service
with_state s st = record s { inst = record s.inst { state = st } }

-- `svc_hold_retry`: no `restart_sec`, no hold.
unfoldable pub svc_hold_retry : Service → Time → Service
svc_hold_retry s now = record s {
  restart_at = record {
    sec = if ltb 0 s.restart_sec then now.sec + s.restart_sec else 0;
    nsec = if ltb 0 s.restart_sec then now.nsec else 0;
  };
}

unfoldable pub svc_retry_held : Service → Time → Bool
svc_retry_held s now =
    not (s.restart_at.sec == 0)
    && (ltb now.sec s.restart_at.sec
        || now.sec == s.restart_at.sec && ltb now.nsec s.restart_at.nsec)

-- `svc_clamp_hold`: a reload never leaves a longer hold than the new `restart_sec` asks for.
unfoldable pub svc_clamp_hold : Service → Time → Service
unfolding svc_hold_retry svc_retry_held
svc_clamp_hold s now =
    if not (svc_retry_held s now)
    then s
    else if s.restart_sec == 0 || ltb (now.sec + s.restart_sec) s.restart_at.sec
    then svc_hold_retry s now
    else s

abbrev pub restart_reset_secs : ℕ
restart_reset_secs = 300

-- A run of five minutes before a death earns a fresh restart budget and a full deck of cards.
unfoldable pub restart_budget_refresh : Service → Time → Service
restart_budget_refresh s now =
    if leb (s.spawn_time_mono.sec + restart_reset_secs) now.sec
    then record s { restart_count = 0; card_next = 0; fallback_live = false }
    else s

-- The eight states of a dependency that let its dependents go on, or hold them.
abbrev pub is_stable : State → Bool
is_stable s = state_eq s fundamental || state_eq s settled || state_eq s perfect

abbrev pub is_gone : State → Bool
is_gone s = state_eq s excised || state_eq s dormant

-- `svc_is_up`.
unfoldable pub svc_is_up : Service → Bool
svc_is_up s =
    is_stable s.inst.state
    || s.listen_open && (state_eq s.inst.state new_process || state_eq s.inst.state full_trust)

-- The dep_idx half of the body of `service_deps_ready`: go on to the group (none), skip the rest of
-- this entry (some true) or return 0 (some false).
unfoldable pub dep_ready : List Service → Option ℕ → Option Bool
dep_ready table none = none
dep_ready table (some i) = elim (get_elem? table i) [
  | none ↦ some false
  | some d ↦
      if is_gone d.inst.state
      then some (not d.critical)
      else if is_stable d.inst.state
      then none
      else some false
]

unfoldable pub grp_ready : List State → Option ℕ → Bool
grp_ready groups none = true
grp_ready groups (some i) = elim (get_elem? groups i) [ none ↦ false | some s ↦ is_stable s ]

unfoldable pub deps_ready : List Dep → List Service → List State → Bool
unfolding dep_ready grp_ready
deps_ready [] table groups = true
deps_ready (d ∷ ds) table groups = elim (dep_ready table d.dep_idx) [
  | some true ↦ deps_ready ds table groups
  | some false ↦ false
  | none ↦ grp_ready groups d.grp_idx && deps_ready ds table groups
]
