-- ===== src/Engine/Looks.antt =====
-- What the loop of get_poll_timeout keeps of each service that it looks at.
use schema_init.Prelude.{
  ℕ, ◌+◌, ◌-◌, ◌≤◌, ◌≡◌, refl, ◌⊎◌, inl, inr, Bool, true, false, not, ◌&&◌, ◌||◌, Option, none,
  some, List, [], ◌∷◌, arith, ltb, ◌==◌, if◌then◌else◌, length, All,
}
use schema_init.Schema.{
  State, fundamental, friction, settled, new_process, recovery, full_trust, perfect, excised,
  dormant, state_eq,
}
use schema_init.Engine.Wake.{wake_none, ts_ms_ceil, wake_min, svc_wd_due}
use schema_init.Engine.Poll.{
  ready_poll_ms, wake_cal_cap_ms, Waker, Loop, Look, state_of, awaits_ready, watchdog_runs,
  is_polled, svc_held_on_socket, look_watchdog, look_ready_path, look_timer, look_state, look_at,
  look_all,
}

-- How long a service whose start or run is over lets the loop sleep, by its state.
abbrev pub state_allows : Loop → Waker → State → ℕ
state_allows p w dormant = ts_ms_ceil w.svc.dormant_until - p.now_m
state_allows p w new_process =
    if ltb p.now_m (ts_ms_ceil w.svc.restart_at)
    then ts_ms_ceil w.svc.restart_at - p.now_m
    else if w.sock_waiting
    then 1000
    else 0
state_allows p w fundamental =
    if not (ltb 0 (length w.ready_path) && ltb 0 w.svc.child_pid)
    then wake_none
    else if w.ready_path_verified && w.ready_watched && w.ready_poll_hz == 0
    then p.ready_backstop_due - p.now_m
    else 0
state_allows p w perfect =
    if not w.svc.timer
    then wake_none
    else if not w.timer_calendar
    then ts_ms_ceil w.timer_next - p.now_m
    else if ltb wake_cal_cap_ms (ts_ms_ceil w.timer_next - p.now_r)
    then wake_cal_cap_ms
    else ts_ms_ceil w.timer_next - p.now_r
state_allows p w excised = wake_none
state_allows p w _ = 0

abbrev pub run_allows : Loop → Waker → ℕ
run_allows p w = if is_polled w then 0 else state_allows p w (state_of w)

abbrev pub watchdog_allows : Loop → Waker → ℕ
watchdog_allows p w =
    if watchdog_runs w
    then svc_wd_due w.last_pet w.wd_abort_at w.wd_armed_sec - p.now_m
    else wake_none

abbrev pub ready_allows : Loop → Waker → ℕ
ready_allows p w = if awaits_ready p w then ready_poll_ms else wake_none

-- A timeout of at most `n`; no timeout is one that lasts for ever.
abbrev pub AtMost : Option ℕ → ℕ → Type 0
AtMost none n = wake_none ≤ n
AtMost (some m) n = m ≤ n

-- What the look at a service leaves of the looks before.
pub record Sooner (k k' : Look) : Type 0 where
  pub best : k'.best ≤ k.best
  pub tick : k.tick ≡ true → k'.tick ≡ true
  pub watched : k.watched ≡ true → k'.watched ≡ true
  pub awaiting : k.awaiting ≡ true → k'.awaiting ≡ true

Sooner-trans : {j k l : Look} → Sooner j k → Sooner k l → Sooner j l
Sooner-trans a b = record {
  best = omega (arith, a.best, b.best);
  tick = λ e. b.tick (a.tick e);
  watched = λ e. b.watched (a.watched e);
  awaiting = λ e. b.awaiting (a.awaiting e);
}

-- The deadline is in the best one, or waits for the backstop.
abbrev pub Kept : Loop → Look → ℕ → Type 0
Kept p k n = (k.best ≤ n) ⊎ ((k.watched ≡ true) × (p.ready_backstop_due - p.now_m ≤ n))

pub record Heeds (p : Loop) (w : Waker) (k : Look) : Type 0 where
  pub due : (k.tick ≡ true) ⊎ ((k.best ≤ watchdog_allows p w) × Kept p k (run_allows p w))
  pub ready : (awaits_ready p w ≡ false) ⊎ (k.awaiting ≡ true)

pub wake_min_le : (best due now cap : ℕ) → wake_min best due now cap ≤ best
unfolding wake_min
wake_min_le best due now cap = ground arith

look_ready_path-Sooner : (w : Waker) (k : Look) → Sooner k (look_ready_path w k)
unfolding look_ready_path
look_ready_path-Sooner w k = record {
  best = ground arith;
  tick = λ e. ground (arith, e);
  watched = λ e. ground (arith, e);
  awaiting = λ e. ground (arith, e);
}

wake-Sooner :
    (k : Look) (due now cap : ℕ) → Sooner k (record k { best = wake_min k.best due now cap })
wake-Sooner k due now cap = record {
  best = wake_min_le k.best due now cap;
  tick = λ e. e;
  watched = λ e. e;
  awaiting = λ e. e;
}

pub Sooner-refl : (k : Look) → Sooner k k
Sooner-refl k = record { best = omega arith; tick = λ e. e; watched = λ e. e; awaiting = λ e. e }

Sooner-tick : (k : Look) → Sooner k (record k { tick = true })
Sooner-tick k = record { best = omega arith; tick = λ e. refl; watched = λ e. e; awaiting = λ e. e }

Sooner-if : (b : Bool) {k x y : Look} → Sooner k x → Sooner k y → Sooner k (if b then x else y)
Sooner-if true f g = f
Sooner-if false f g = g

look_timer-Sooner : (p : Loop) (w : Waker) (k : Look) → Sooner k (look_timer p w k)
unfolding look_timer
look_timer-Sooner p w k =
    Sooner-if w.timer_calendar (wake-Sooner k (ts_ms_ceil w.timer_next) p.now_r wake_cal_cap_ms)
      (wake-Sooner k (ts_ms_ceil w.timer_next) p.now_m wake_none)

look_state-Sooner : (p : Loop) (w : Waker) (s : State) (k : Look) → Sooner k (look_state p w s k)
unfolding look_state look_timer
look_state-Sooner p w s k =
    let by = λ (due : ℕ). wake-Sooner k due p.now_m wake_none in
    Sooner-if (is_polled w) (Sooner-tick k) (
      Sooner-if (state_eq s dormant) (by (ts_ms_ceil w.svc.dormant_until)) (
        Sooner-if (state_eq s new_process && ltb p.now_m (ts_ms_ceil w.svc.restart_at))
          (by (ts_ms_ceil w.svc.restart_at))
          (Sooner-if (svc_held_on_socket w s) (by (p.now_m + 1000)) (
            Sooner-if
              (not (state_eq s fundamental) && not (state_eq s perfect) && not (state_eq s excised))
              (Sooner-tick k)
              (Sooner-if
                (state_eq s fundamental && ltb 0 (length w.ready_path) && ltb 0 w.svc.child_pid)
                (look_ready_path-Sooner w k)
                (Sooner-if (state_eq s perfect && w.svc.timer) (look_timer-Sooner p w k)
                  (Sooner-refl k)))))))

look_state-Kept :
    (p : Loop) (w : Waker) (s : State) (k : Look)
    → k.best ≤ wake_none
    → ((look_state p w s k).tick ≡ true)
      ⊎ Kept p (look_state p w s k) (if is_polled w then 0 else state_allows p w s)
unfolding look_state look_ready_path look_timer wake_min
look_state-Kept p w fundamental k h = ground arith
look_state-Kept p w friction k h = ground arith
look_state-Kept p w settled k h = ground arith
look_state-Kept p w new_process k h = ground arith
look_state-Kept p w recovery k h = ground arith
look_state-Kept p w full_trust k h = ground arith
look_state-Kept p w perfect k h = ground arith
look_state-Kept p w excised k h = ground arith
look_state-Kept p w dormant k h = ground arith

look_watchdog-Sooner : (p : Loop) (w : Waker) (k : Look) → Sooner k (look_watchdog p w k)
unfolding look_watchdog
look_watchdog-Sooner p w k =
    Sooner-if (watchdog_runs w)
      (wake-Sooner k (svc_wd_due w.last_pet w.wd_abort_at w.wd_armed_sec) p.now_m wake_none)
      (Sooner-refl k)

look_watchdog-best :
    (p : Loop) (w : Waker) (k : Look)
    → k.best ≤ wake_none
    → (look_watchdog p w k).best ≤ watchdog_allows p w
unfolding look_watchdog wake_min
look_watchdog-best p w k h = ground arith

Kept-later : (p : Loop) (k l : Look) (n : ℕ) → Sooner k l → Kept p k n → Kept p l n
Kept-later p k l n s (inl h) = inl (omega (arith, h, s.best))
Kept-later p k l n s (inr (e, h)) = inr (s.watched e, h)

Heeds-later : (p : Loop) (w : Waker) (k l : Look) → Sooner k l → Heeds p w k → Heeds p w l
Heeds-later p w k l s h = record {
  due = elim h.due [
    | inl e ↦ inl (s.tick e)
    | inr (b, r) ↦ inr (omega (arith, b, s.best), Kept-later p k l (run_allows p w) s r)
  ];
  ready = elim h.ready [ inl e ↦ inl e | inr e ↦ inr (s.awaiting e) ];
}

-- The variables with the service's wait for its ready path in them.
abbrev awaited : Loop → Waker → Look → Look
awaited p w k = record k { awaiting = k.awaiting || awaits_ready p w }

awaited-Sooner : (p : Loop) (w : Waker) (k : Look) → Sooner k (awaited p w k)
awaited-Sooner p w k = record {
  best = omega arith;
  tick = λ e. e;
  watched = λ e. e;
  awaiting = λ e. rw e refl;
}

awaited-ready :
    (p : Loop) (w : Waker) (k : Look)
    → (awaits_ready p w ≡ false) ⊎ ((awaited p w k).awaiting ≡ true)
awaited-ready p w k = ground arith

pub if_either {ℓ} :
    {A : Type ℓ} (P : A → Type 0) (b : Bool) {x y : A}
    → (b ≡ true → P x)
    → (b ≡ false → P y)
    → P (if b then x else y)
if_either P true f g = f refl
if_either P false f g = g refl

look_at-both :
    (p : Loop) (w : Waker) (k : Look)
    → k.best ≤ wake_none
    → Sooner k (look_at p w k) × Heeds p w (look_at p w k)
unfolding look_at
look_at-both p w k h =
    let k1 = awaited p w k in
    let k2 = look_watchdog p w k1 in
    let k3 = look_state p w (state_of w) k2 in
    let first = awaited-Sooner p w k in
    let dog = look_watchdog-Sooner p w k1 in
    let run = look_state-Sooner p w (state_of w) k2 in
    let watch = look_watchdog-best p w k1 h in
    let kept = look_state-Kept p w (state_of w) k2 (omega (arith, dog.best, h)) in
    if_either (λ l. Sooner k l × Heeds p w l) k.tick
      (λ t. (first, record { due = inl t; ready = awaited-ready p w k }))
      (λ t. (
        Sooner-trans (Sooner-trans first dog) run,
        record {
          due = elim kept [ inl e ↦ inl e | inr r ↦ inr (omega (arith, watch, run.best), r) ];
          ready = elim (awaited-ready p w k) [
            | inl e ↦ inl e
            | inr e ↦ inr (run.awaiting (dog.awaiting e))
          ];
        },
      ))

pub look_all-both :
    (p : Loop) (ws : List Waker) (k : Look)
    → k.best ≤ wake_none
    → Sooner k (look_all p ws k) × All (λ w. Heeds p w (look_all p ws k)) ws
unfolding look_all
look_all-both p [] k h = (Sooner-refl k, tt)
look_all-both p (w ∷ ws) k h =
    let (sooner, heeds) = look_at-both p w k h in
    let (later, all) = look_all-both p ws (look_at p w k) (omega (arith, sooner.best, h)) in
    (
      Sooner-trans sooner later,
      (Heeds-later p w (look_at p w k) (look_all p ws (look_at p w k)) later heeds, all),
    )
