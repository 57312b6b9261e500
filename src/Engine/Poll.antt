-- ===== src/Engine/Poll.antt =====
-- engine.c: get_poll_timeout, how long the main loop sleeps.
use schema_init.Prelude.{
  ℕ, ◌+◌, ◌*◌, ◌/◌, Bool, true, false, not, ◌&&◌, ◌||◌, Option, none, some, List, [], ◌∷◌, ltb,
  ◌==◌, if◌then◌else◌, length, Bytes,
}
use schema_init.Schema.{
  State, fundamental, new_process, full_trust, perfect, excised, dormant, state_eq,
}
use schema_init.Engine.Service.{Time, Service}
use schema_init.Engine.Wake.{
  wake_none, ts_ms_ceil, now_ms_floor, wake_min, wake_timeout, svc_wd_due,
}

abbrev pub tick_ms : ℕ
tick_ms = 250000 / 1000

abbrev pub ready_poll_ms : ℕ
ready_poll_ms = 10

abbrev pub ready_poll_secs : ℕ
ready_poll_secs = 3

abbrev pub wake_cal_cap_ms : ℕ
wake_cal_cap_ms = 60000

-- A service with the fields that only the main loop's sleep reads. `ready_watched` is whether there is
-- an inotify watch.
pub record Waker : Type 0 where
  pub svc : Service
  pub ready_path : Bytes
  pub ready_path_verified : Bool
  pub ready_watched : Bool
  pub ready_poll_hz : ℕ
  pub sock_waiting : Bool
  pub notify_ready : Bool
  pub is_frozen : Bool
  pub failsafe_pid : ℕ
  pub main_wait : Bool
  pub watchdog_timeout_ms : ℕ
  pub wd_armed_sec : ℕ
  pub last_pet : Time
  pub wd_abort_at : Time
  pub timer_calendar : Bool
  pub timer_next : Time

-- What `get_poll_timeout` reads: the two clocks, the answer of `engine_hooks.wake_due`, whose
-- WAKE_NONE is `none`, the services, the deadlines of the evictions and two times of the ready paths.
pub record Loop : Type 0 where
  pub pass_changed : Bool
  pub now_m : ℕ
  pub now_r : ℕ
  pub host : Option ℕ
  pub host_tick : Bool
  pub services : List Waker
  pub evictions : List ℕ
  pub ready_backstop_due : ℕ
  pub ready_event_due : ℕ

-- The local variables.
pub record Look : Type 0 where
  pub best : ℕ
  pub tick : Bool
  pub watched : Bool
  pub awaiting : Bool

abbrev pub state_of : Waker → State
state_of w = w.svc.inst.state

-- `now_m - spawn < READY_POLL_SECS * 1000` is a signed comparison.
unfoldable pub awaits_ready : Loop → Waker → Bool
unfolding now_ms_floor
awaits_ready p w =
    state_eq (state_of w) full_trust
    && ltb 0 (length w.ready_path)
    && ltb 0 w.svc.child_pid
    && not w.svc.oneshot
    && ltb p.now_m (now_ms_floor w.svc.spawn_time_mono + ready_poll_secs * 1000)

unfoldable pub watchdog_runs : Waker → Bool
watchdog_runs w =
    ltb 0 w.wd_armed_sec
    && ltb 0 w.svc.child_pid
    && w.notify_ready
    && not w.svc.ctl_killed
    && not w.is_frozen

-- A helper process, or a process that is polled, is in flight.
unfoldable pub is_polled : Waker → Bool
is_polled w =
    ltb 0 w.failsafe_pid
    || ltb 0 w.svc.card_pid
    || ltb 0 w.svc.stop_pid
    || w.main_wait
    || ltb 0 w.watchdog_timeout_ms && ltb 0 w.svc.child_pid

abbrev pub svc_held_on_socket : Waker → State → Bool
svc_held_on_socket w s = w.sock_waiting && state_eq s new_process

-- `best = wake_min(best, due, now_m, WAKE_NONE)`.
abbrev pub wake_by : Loop → ℕ → Look → Look
wake_by p due k = record k { best = wake_min k.best due p.now_m wake_none }

abbrev pub with_tick : Look → Look
with_tick k = record k { tick = true }

unfoldable pub look_watchdog : Loop → Waker → Look → Look
look_watchdog p w k =
    if watchdog_runs w then wake_by p (svc_wd_due w.last_pet w.wd_abort_at w.wd_armed_sec) k else k

unfoldable pub look_ready_path : Waker → Look → Look
look_ready_path w k =
    if not w.ready_path_verified || not w.ready_watched || ltb 0 w.ready_poll_hz
    then with_tick k
    else record k { watched = true }

unfoldable pub look_timer : Loop → Waker → Look → Look
look_timer p w k =
    if w.timer_calendar
    then record k { best = wake_min k.best (ts_ms_ceil w.timer_next) p.now_r wake_cal_cap_ms }
    else wake_by p (ts_ms_ceil w.timer_next) k

-- The chain of tests on the state `s`.
unfoldable pub look_state : Loop → Waker → State → Look → Look
unfolding look_ready_path look_timer
look_state p w s k =
    if is_polled w
    then with_tick k
    else if state_eq s dormant
    then wake_by p (ts_ms_ceil w.svc.dormant_until) k
    else if state_eq s new_process && ltb p.now_m (ts_ms_ceil w.svc.restart_at)
    then wake_by p (ts_ms_ceil w.svc.restart_at) k
    else if svc_held_on_socket w s
    then wake_by p (p.now_m + 1000) k
    else if not (state_eq s fundamental) && not (state_eq s perfect) && not (state_eq s excised)
    then with_tick k
    else if state_eq s fundamental && ltb 0 (length w.ready_path) && ltb 0 w.svc.child_pid
    then look_ready_path w k
    else if state_eq s perfect && w.svc.timer
    then look_timer p w k
    else k

-- The body of the loop over the services.
unfoldable pub look_at : Loop → Waker → Look → Look
unfolding look_state look_watchdog
look_at p w k =
    let k1 = record k { awaiting = k.awaiting || awaits_ready p w } in
    if k1.tick then k1 else look_state p w (state_of w) (look_watchdog p w k1)

unfoldable pub look_all : Loop → List Waker → Look → Look
unfolding look_at
look_all p [] k = k
look_all p (w ∷ ws) k = look_all p ws (look_at p w k)

unfoldable pub evictions_due : ℕ → List ℕ → ℕ → ℕ
evictions_due now_m [] best = best
evictions_due now_m (d ∷ ds) best =
    evictions_due now_m ds (wake_min best (d * 1000) now_m wake_none)

-- The loop's start, with the host's deadline.
abbrev pub look_start : Loop → Look
look_start p = record {
  best = elim p.host [ none ↦ wake_none | some due ↦ wake_min wake_none due p.now_m wake_none ];
  tick = p.host_tick;
  watched = false;
  awaiting = false;
}

-- The deadlines behind the loop over the services.
unfoldable pub soonest : Loop → Look → ℕ
unfolding evictions_due
soonest p k =
    let b1 = evictions_due p.now_m p.evictions k.best in
    let b2 = if k.watched then wake_min b1 p.ready_backstop_due p.now_m wake_none else b1 in
    if p.ready_event_due == 0 then b2 else wake_min b2 p.ready_event_due p.now_m wake_none

unfoldable pub get_poll_timeout : Loop → Option ℕ
unfolding look_all soonest
get_poll_timeout p =
    let k = look_all p p.services (look_start p) in
    if p.pass_changed
    then some 0
    else wake_timeout (soonest p k) (k.tick || k.awaiting)
        (if k.awaiting then ready_poll_ms else tick_ms)
