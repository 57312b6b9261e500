-- ===== src/Engine/Bind.antt =====
-- engine.c: the services that stop and start with another one, in bind_tick.
use schema_init.Prelude.{
  ℕ, zero, suc, ◌+◌, ◌-◌, ◌*◌, ◌/◌, Bool, false, not, ◌&&◌, ◌||◌, none, some, List, [], ◌∷◌, ltb,
  leb, ◌==◌, if◌then◌else◌, length,
}
use schema_init.Schema.{excised, new_process, state_eq}
use schema_init.Engine.Service.{
  Time, zero_time, time_set, exc_none, exc_bind, exc_breaker, exc_other, Service, with_state,
  svc_is_up, is_gone,
}
use schema_init.Engine.Cards.{
  Engine, Answers, update, at_service, bind_hold, bind_bound, bind_stop, stop_main, stop_fuel,
}

abbrev pub bind_grace_ms : ℕ
bind_grace_ms = 2000

unfoldable pub ts_after : Time → Time → Bool
ts_after a b = ltb b.sec a.sec || a.sec == b.sec && ltb b.nsec a.nsec

unfoldable pub is_bind_excised : Service → Bool
is_bind_excised s = elim s.excise_reason [
  | exc_none ↦ false
  | exc_breaker ↦ false
  | exc_bind ↦ state_eq s.inst.state excised
  | exc_other ↦ false
]

unfoldable pub bind_start : Service → Service
bind_start b = record (with_state b new_process) { bind_held = false; excise_reason = exc_none }

abbrev pub bind_excise : Service → Service
bind_excise b = record (with_state b excised) { excise_reason = exc_bind }

-- `bind=` is gone from the file: nothing to wait for.
unfoldable pub bind_unnamed : Service → Service
unfolding bind_start is_bind_excised
bind_unnamed b =
    let free = record b { bind_held = false } in
    if not b.bind_held
    then b
    else if is_bind_excised b && b.child_pid == 0
    then bind_start free
    else free

-- No bound to follow: the service never runs without it.
unfoldable pub bind_missing : Answers → ℕ → Engine → Service → Engine
bind_missing ans j e b =
    if b.bind_held
    then e
    else if ltb 0 b.child_pid
    then bind_stop (stop_main (stop_fuel e) ans) j e
    else update e j (λ b.
      let held = bind_hold e b in if state_eq b.inst.state excised then held else bind_excise held)

-- `went_down`: gone since the last pass, or back already with a new process.
unfoldable pub went_down : Service → Bool
went_down bd =
    bd.bind_was_up
    && (not (svc_is_up bd)
        || not bd.listen_open
          && (not (bd.spawn_time_mono.sec == bd.bind_seen_spawn.sec)
              || not (bd.spawn_time_mono.nsec == bd.bind_seen_spawn.nsec)))

-- `ago >= 0 && ago < BIND_GRACE_MS`, with the two sides of the signed difference apart.
unfoldable pub in_grace : Time → Time → Bool
in_grace now died =
    let later = now.sec * 1000 + (now.nsec - died.nsec) / 1000000 in
    let earlier = died.sec * 1000 + (died.nsec - now.nsec) / 1000000 in
    leb earlier later && ltb later (earlier + bind_grace_ms)

-- A binder that died just before its bound did not fail.
unfoldable pub bind_reclassify : Engine → Service → Service
unfolding bind_hold
bind_reclassify e b = bind_hold e (
    bind_excise (record b {
      restart_count = b.bind_saved_restarts;
      dormant_count = b.bind_saved_dormant;
      restart_at = zero_time;
    }))

unfoldable pub bind_down : Answers → ℕ → Engine → Service → Service → Engine
unfolding went_down in_grace
bind_down ans j e b bd =
    if not (went_down bd)
    then e
    else if ltb 0 b.child_pid
    then bind_stop (stop_main (stop_fuel e) ans) j e
    else if not b.bind_held
        && not b.circuit_broken
        && time_set b.bind_died_at
        && in_grace ans.now b.bind_died_at
    then update e j (bind_reclassify e)
    else e

-- `back`, given whether the bound was up when the pass began.
unfoldable pub is_back : Bool → Service → Service → Bool
unfolding ts_after
is_back up b bd =
    up && bd.stop_pid == 0 && not bd.ctl_killed && ts_after bd.spawn_time_mono b.bind_held_since

-- The binder is started again, not before its old process and stop runner are gone.
unfoldable pub bind_back : Bool → Service → Service → Bool
unfolding is_back
bind_back up b bd = b.bind_held && is_back up b bd && b.child_pid == 0 && b.stop_pid == 0

-- Strict start: a binder does not start over a bound that is given up or parked.
unfoldable pub bind_waits : Service → Service → Bool
bind_waits b bd =
    not b.bind_held
    && b.child_pid == 0
    && state_eq b.inst.state new_process
    && is_gone bd.inst.state

abbrev pub with_pair {ℓ} : {A : Type ℓ} → Engine → ℕ → ℕ → A → (Service → Service → A) → A
with_pair e j t missing f = at_service e j missing (λ b. at_service e t missing (λ bd. f b bd))

unfoldable pub try_back : Bool → ℕ → ℕ → Engine → Engine
unfolding bind_back
try_back up j t e =
    with_pair e j t e (λ b bd. if bind_back up b bd then update e j bind_start else e)

unfoldable pub try_wait : ℕ → ℕ → Engine → Engine
unfolding bind_waits
try_wait j t e =
    with_pair e j t e
      (λ b bd. if bind_waits b bd then update e j (λ b. bind_hold e (bind_excise b)) else e)

unfoldable pub bind_follow : Answers → ℕ → ℕ → Engine → Engine
unfolding try_back try_wait bind_down
bind_follow ans j t e =
    with_pair e j t e (λ b bd. try_wait j t (try_back (svc_is_up bd) j t (bind_down ans j e b bd)))

-- The body of the loop in `bind_tick`.
unfoldable pub bind_pass : Answers → ℕ → Engine → Engine
unfolding bind_follow bind_missing bind_unnamed
bind_pass ans j e = at_service e j e (λ b.
    if length b.bind_name == 0 then update e j bind_unnamed else elim (bind_bound e.services b) [
      | none ↦ bind_missing ans j e b
      | some t ↦ bind_follow ans j t e
    ])

unfoldable pub bind_loop : Answers → ℕ → ℕ → Engine → Engine
bind_loop ans zero j e = e
bind_loop ans (suc k) j e = bind_loop ans k (suc j) (bind_pass ans j e)

unfoldable pub bind_tick : Answers → Engine → Engine
unfolding bind_loop
bind_tick ans e = bind_loop ans (length e.services) 0 e

pub bind_snapshot_up : List Service → List Service
bind_snapshot_up [] = []
bind_snapshot_up (s ∷ ss) =
    record s {
      bind_was_up = svc_is_up s;
      bind_seen_spawn = if svc_is_up s then s.spawn_time_mono else s.bind_seen_spawn;
    }
    ∷ bind_snapshot_up ss
