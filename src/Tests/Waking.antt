-- ===== src/Tests/Waking.antt =====
-- service.h: deadlines and stalls of the main loop.
use schema_init.Prelude.{
  ℕ, ◌-◌, ◌≤◌, ◌≡◌, refl, Bool, true, false, none, some, List, [], ◌∷◌, arith,
}
use schema_init.Engine.Service.{Service, zero_time, svc_retry_held}
use schema_init.Engine.Wake.{
  wake_ends_hold, wake_min, wake_timeout, ts_ms_ceil, now_ms_floor, Pressure, passes, pressure_step,
  pressure_exit, StallsBefore, exit-StallsBefore,
}
use schema_init.Engine.Poll.{Waker, Loop, get_poll_timeout, is_polled, watchdog_runs, awaits_ready}
use schema_init.Engine.Sleep.{InTime, get_poll_timeout-InTime}
use schema_init.Schema.{recovery, dormant}
use schema_init.Tests.Supervising.{at_time, camera}

abbrev holding : Service
holding = record (camera recovery 0) { restart_at = record { sec = 9; nsec = 500000 } }

past_deadline : ts_ms_ceil holding.restart_at ≤ now_ms_floor (at_time 10)
unfolding ts_ms_ceil now_ms_floor
past_deadline = omega arith

wake_ends_hold_example : svc_retry_held holding (at_time 10) ≡ false
wake_ends_hold_example =
    wake_ends_hold holding (at_time 10) (omega arith) (omega arith) past_deadline

abbrev calm : Pressure
calm = record { under = false; last_stall_ms = 0 }

abbrev stall : List (ℕ × Bool)
stall = (4000, false) ∷ (1000, true) ∷ []

thaws : (pressure_step (passes calm stall) 7000 false).1 ≡ pressure_exit
unfolding pressure_step
thaws = refl

exit-StallsBefore_example : StallsBefore (7000 - 5000) stall
exit-StallsBefore_example =
    exit-StallsBefore calm 7000 false stall refl (omega arith, (omega arith, tt)) (omega arith)
      thaws

-- A camera parked until the 9th second, seen at the first.
abbrev parked : Waker
parked = record {
  svc = record (camera dormant 0) { dormant_until = at_time 9 };
  ready_path = [];
  ready_path_verified = false;
  ready_watched = false;
  ready_poll_hz = 0;
  sock_waiting = false;
  notify_ready = false;
  is_frozen = false;
  failsafe_pid = 0;
  main_wait = false;
  watchdog_timeout_ms = 0;
  wd_armed_sec = 0;
  last_pet = zero_time;
  wd_abort_at = zero_time;
  timer_calendar = false;
  timer_next = zero_time;
}

abbrev idle : Loop
idle = record {
  pass_changed = false;
  now_m = 1000;
  now_r = 0;
  host = none;
  host_tick = false;
  services = parked ∷ [];
  evictions = 20 ∷ [];
  ready_backstop_due = 0;
  ready_event_due = 0;
}

sleeps_until_park : get_poll_timeout idle ≡ some 8000
unfolding get_poll_timeout wake_min wake_timeout ts_ms_ceil is_polled watchdog_runs awaits_ready
sleeps_until_park = refl

get_poll_timeout-InTime_example : InTime idle (get_poll_timeout idle)
get_poll_timeout-InTime_example = get_poll_timeout-InTime idle
