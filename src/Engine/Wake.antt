-- ===== src/Engine/Wake.antt =====
-- service.h: the deadlines of the main loop, and memory pressure.
use schema_init.Prelude.{
  ℕ, ◌+◌, ◌-◌, ◌*◌, ◌/◌, ◌%◌, ◌^◌, ◌≤◌, ◌<◌, ◌≡◌, refl, sym, ◌⊎◌, inl, inr, Bool, true, false, ◌&&◌,
  Option, none, some, List, [], ◌∷◌, arith, ltb, leb, ◌==◌, if◌then◌else◌, All,
}
use mathlib.Core.Path.{subst}
use schema_init.Engine.Service.{Time, time_set, Service, svc_retry_held}

abbrev pub reclaim_floor : ℕ
reclaim_floor = 4 * 1024 * 1024

-- A negative `current` is below the floor like 0.
unfoldable pub reclaim_target : ℕ → ℕ → ℕ
reclaim_target current cap =
    if ltb current reclaim_floor then 0 else if ltb (current / 2) cap then current / 2 else cap

abbrev pub thaw_delay_ms : ℕ
thaw_delay_ms = 5000

pub data PressureEvent : Type 0 where
  pressure_none pressure_enter pressure_exit : PressureEvent

-- The two variables that `pressure_step` writes through.
pub record Pressure : Type 0 where
  pub under : Bool
  pub last_stall_ms : ℕ

-- The difference is of unsigned 64-bit numbers.
unfoldable pub pressure_step : Pressure → ℕ → Bool → Pressure × PressureEvent
pressure_step p now_ms stalled =
    let thawed = leb thaw_delay_ms ((now_ms + 2 ^ 64 - p.last_stall_ms) % 2 ^ 64) in
    if stalled
    then (
      record { under = true; last_stall_ms = now_ms },
      if p.under then pressure_none else pressure_enter,
    )
    else if p.under && thawed
    then (record p { under = false }, pressure_exit)
    else (p, pressure_none)

abbrev pub bus_name_wait_secs : ℕ
bus_name_wait_secs = 90

unfoldable pub ready_timer_due : ℕ → ℕ → Bool → Bool → Bool → Bool
ready_timer_due ran_s stable_secs has_bus_name has_cgroup reporter_seen =
    if has_bus_name && has_cgroup && reporter_seen && ltb ran_s bus_name_wait_secs
    then false
    else leb stable_secs ran_s

-- `INT64_MAX`.
abbrev pub wake_none : ℕ
wake_none = 9223372036854775807

unfoldable pub ts_ms_ceil : Time → ℕ
ts_ms_ceil ts = ts.sec * 1000 + (ts.nsec + 999999) / 1000000

-- `now_m` of the main loop: the clock, rounded down.
unfoldable pub now_ms_floor : Time → ℕ
now_ms_floor ts = ts.sec * 1000 + ts.nsec / 1000000

unfoldable pub wake_min : ℕ → ℕ → ℕ → ℕ → ℕ
wake_min best deadline_ms now_ms cap_ms =
    let d = if leb deadline_ms now_ms then 0 else deadline_ms - now_ms in
    let d' = if ltb cap_ms d then cap_ms else d in if ltb d' best then d' else best

unfoldable pub wd_pet_ms : ℕ → ℕ
wd_pet_ms timeout_s = if ltb 0 timeout_s then timeout_s * 1000 / 3 else 5000

-- `none` is -1: poll waits for an event only.
unfoldable pub wake_timeout : ℕ → Bool → ℕ → Option ℕ
wake_timeout best tick tick_ms =
    if tick && ltb tick_ms best
    then some tick_ms
    else if best == wake_none
    then none
    else some (if ltb 2147483647 best then 2147483647 else best)

abbrev pub wd_abort_grace_ms : ℕ
wd_abort_grace_ms = 90000

unfoldable pub svc_wd_due : Time → Time → ℕ → ℕ
unfolding ts_ms_ceil
svc_wd_due last_pet abort_at watchdog_sec =
    if time_set abort_at
    then ts_ms_ceil abort_at + wd_abort_grace_ms
    else ts_ms_ceil last_pet + watchdog_sec * 1000

pub data Prio : Type 0 where
  peripheral standard priority_critical : Prio

-- A weight of 0 with `cpu_idle` set is not written.
pub record CgroupTier : Type 0 where
  pub cpu_weight : ℕ
  pub io_weight : ℕ
  pub cpu_idle : Bool

pub cgroup_tiering : Prio → CgroupTier
cgroup_tiering peripheral = record { cpu_weight = 0; io_weight = 10; cpu_idle = true }
cgroup_tiering priority_critical = record { cpu_weight = 1000; io_weight = 1000; cpu_idle = false }
cgroup_tiering standard = record { cpu_weight = 100; io_weight = 100; cpu_idle = false }

pub mem_high_bytes : ℕ → ℕ
mem_high_bytes mem_limit_mb = if mem_limit_mb == 0 then 0 else mem_limit_mb * 1024 * 1024 * 9 / 10

-- A cap on memory has a soft buffer above nothing and below the cap.
pub mem_high_bytes_bounds :
    (mem_limit_mb : ℕ)
    → 0 < mem_limit_mb
    → (0 < mem_high_bytes mem_limit_mb) × (mem_high_bytes mem_limit_mb < mem_limit_mb * 1024 * 1024)
unfolding mem_high_bytes
mem_high_bytes_bounds mem_limit_mb pos = (ground arith, ground arith)

-- A service with a CPU weight is not idle, and one without a weight is.
pub cgroup_tiering_idle :
    (p : Prio) → (cgroup_tiering p).cpu_idle ≡ ((cgroup_tiering p).cpu_weight == 0)
unfolding cgroup_tiering
cgroup_tiering_idle peripheral = refl
cgroup_tiering_idle standard = refl
cgroup_tiering_idle priority_critical = refl

-- When the clock in milliseconds, rounded down, has reached the end of a hold, rounded up, the
-- hold is over, so that a wake for it never lands just before it.
pub wake_ends_hold :
    (s : Service) (now : Time)
    → s.restart_at.nsec < 1000000000
    → now.nsec < 1000000000
    → ts_ms_ceil s.restart_at ≤ now_ms_floor now
    → svc_retry_held s now ≡ false
unfolding ts_ms_ceil now_ms_floor svc_retry_held
wake_ends_hold s now h k le = ground arith

-- Passes of the main loop, the latest first, each with its time and whether memory stalled.
abbrev pub passes : Pressure → List (ℕ × Bool) → Pressure
passes p [] = p
passes p (e ∷ es) = (pressure_step (passes p es) e.0 e.1).0

-- The times of the passes do not go back, and end at `now`.
abbrev pub Ordered : ℕ → List (ℕ × Bool) → Type 0
Ordered now [] = Unit
Ordered now (e ∷ es) = (e.0 ≤ now) × Ordered e.0 es

-- No stalled pass is later than `t`.
abbrev pub StallsBefore : ℕ → List (ℕ × Bool) → Type 0
StallsBefore t es = All (λ (e : ℕ × Bool). (e.1 ≡ false) ⊎ (e.0 ≤ t)) es

stalls_later : (t u : ℕ) (es : List (ℕ × Bool)) → t ≤ u → StallsBefore t es → StallsBefore u es
stalls_later t u [] h a = tt
stalls_later t u (e ∷ es) h a = (
  elim a.0 [ inl calm ↦ inl calm | inr le ↦ inr (omega (arith, le, h)) ],
  stalls_later t u es h a.1,
)

calm_step :
    (p : Pressure) (now_ms : ℕ) → (pressure_step p now_ms false).0.last_stall_ms ≡ p.last_stall_ms
unfolding pressure_step
calm_step p now_ms = ground arith

passes-last :
    (p : Pressure) (now : ℕ) (es : List (ℕ × Bool))
    → p.last_stall_ms ≡ 0
    → Ordered now es
    → ((passes p es).last_stall_ms ≤ now) × StallsBefore (passes p es).last_stall_ms es
passes-last p now [] z o = (omega (arith, z), tt)
passes-last p now ((t, true) ∷ es) z o =
    let (last, stalls) = passes-last p t es z o.1 in
    let set : (passes p ((t, true) ∷ es)).last_stall_ms ≡ t = unfold pressure_step in refl in
    subst (λ (x : ℕ). (x ≤ now) × StallsBefore x ((t, true) ∷ es)) (sym set)
      (o.0, (inr (omega arith), stalls_later (passes p es).last_stall_ms t es last stalls))
passes-last p now ((t, false) ∷ es) z o =
    let (last, stalls) = passes-last p t es z o.1 in
    subst (λ (x : ℕ). (x ≤ now) × StallsBefore x ((t, false) ∷ es))
      (sym (calm_step (passes p es) t)) (omega (arith, last, o.0), (inl refl, stalls))

step_exit :
    (p : Pressure) (now_ms : ℕ) (stalled : Bool)
    → (pressure_step p now_ms stalled).1 ≡ pressure_exit
    → p.last_stall_ms ≤ now_ms
    → now_ms < 2 ^ 64
    → p.last_stall_ms ≤ now_ms - thaw_delay_ms
unfolding pressure_step
step_exit p now_ms stalled x le lt = ground arith

-- Survival posture is left only after the thaw delay without a stall: if a pass at `now` leaves
-- it, every stalled pass before was at least 5000 ms earlier. The clock does not go back, and
-- nothing has stalled at the start.
pub exit-StallsBefore :
    (p : Pressure) (now : ℕ) (stalled : Bool) (es : List (ℕ × Bool))
    → p.last_stall_ms ≡ 0
    → Ordered now es
    → now < 2 ^ 64
    → (pressure_step (passes p es) now stalled).1 ≡ pressure_exit
    → StallsBefore (now - thaw_delay_ms) es
exit-StallsBefore p now stalled es z o lt x =
    let (last, stalls) = passes-last p now es z o in
    stalls_later (passes p es).last_stall_ms (now - thaw_delay_ms) es
      (step_exit (passes p es) now stalled x last lt) stalls
