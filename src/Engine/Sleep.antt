-- ===== src/Engine/Sleep.antt =====
-- The main loop's sleep against what each service, eviction and deadline allows.
use schema_init.Prelude.{
  ℕ, ◌-◌, ◌*◌, ◌≤◌, ◌<◌, ◌≡◌, ◌⊎◌, inl, inr, Bool, true, false, ◌&&◌, ◌||◌, Option, none, some,
  List, [], ◌∷◌, arith, ltb, leb, ◌==◌, if◌then◌else◌, Bool-cases, Option-cases, All, All-map,
}
use schema_init.Engine.Wake.{wake_none, wake_min, wake_timeout}
use schema_init.Engine.Poll.{
  tick_ms, ready_poll_ms, Waker, Loop, Look, look_all, evictions_due, look_start, soonest,
  get_poll_timeout,
}
use schema_init.Engine.Looks.{
  run_allows, watchdog_allows, ready_allows, AtMost, Sooner, Kept, Heeds, wake_min_le, if_either,
  look_all-both,
}

evictions_due_le : (now_m : ℕ) (ds : List ℕ) (best : ℕ) → evictions_due now_m ds best ≤ best
unfolding evictions_due
evictions_due_le now_m [] best = omega arith
evictions_due_le now_m (d ∷ ds) best =
    let step = wake_min_le best (d * 1000) now_m wake_none in
    omega (arith, step, evictions_due_le now_m ds (wake_min best (d * 1000) now_m wake_none))

wake_min_due : (best due now : ℕ) → best ≤ wake_none → wake_min best due now wake_none ≤ due - now
unfolding wake_min
wake_min_due best due now h = ground arith

evictions_due-All :
    (now_m : ℕ) (ds : List ℕ) (best : ℕ)
    → best ≤ wake_none
    → All (λ d. evictions_due now_m ds best ≤ d * 1000 - now_m) ds
unfolding evictions_due
evictions_due-All now_m [] best h = tt
evictions_due-All now_m (d ∷ ds) best h =
    let step = wake_min_le best (d * 1000) now_m wake_none in
    let b = wake_min best (d * 1000) now_m wake_none in
    (
      omega (arith, wake_min_due best (d * 1000) now_m h, evictions_due_le now_m ds b),
      evictions_due-All now_m ds b (omega (arith, h, step)),
    )

-- What goes into the time that poll is given.
record Soonest (p : Loop) (k : Look) (n : ℕ) : Type 0 where
  looks : n ≤ k.best
  each : All (λ d. n ≤ d * 1000 - p.now_m) p.evictions
  backstop : (k.watched ≡ false) ⊎ (n ≤ p.ready_backstop_due - p.now_m)
  event : (p.ready_event_due ≡ 0) ⊎ (n ≤ p.ready_event_due - p.now_m)

soonest-Soonest : (p : Loop) (k : Look) → k.best ≤ wake_none → Soonest p k (soonest p k)
unfolding soonest
soonest-Soonest p k h =
    let b1 = evictions_due p.now_m p.evictions k.best in
    let b2 = if k.watched then wake_min b1 p.ready_backstop_due p.now_m wake_none else b1 in
    let le1 = evictions_due_le p.now_m p.evictions k.best in
    let le2 : b2 ≤ b1 = ground (arith, wake_min_le b1 p.ready_backstop_due p.now_m wake_none) in
    let le3 : soonest p k ≤ b2 =
      ground (arith, wake_min_le b2 p.ready_event_due p.now_m wake_none) in
    record {
      looks = omega (arith, le1, le2, le3);
      each =
          All-map (λ d e. omega (arith, e, le2, le3)) p.evictions
            (evictions_due-All p.now_m p.evictions k.best h);
      backstop =
          ground (arith, wake_min_due b1 p.ready_backstop_due p.now_m (omega (arith, le1, h)), le3);
      event =
          ground (arith, wake_min_due b2 p.ready_event_due p.now_m (omega (arith, le1, le2, h)));
    }

AtMost-le : (r : Option ℕ) (m n : ℕ) → AtMost r m → m ≤ n → AtMost r n
AtMost-le none m n a h = omega (arith, a, h)
AtMost-le (some k) m n a h = omega (arith, a, h)

wake_timeout-best : (best ms : ℕ) (t : Bool) → AtMost (wake_timeout best t ms) best
unfolding wake_timeout
wake_timeout-best best ms t = elim (Bool-cases (t && ltb ms best)) [
  | inl e ↦ rw (e, wake_timeout) (ground (arith, e))
  | inr e ↦ elim (Bool-cases (best == wake_none)) [
    | inl n ↦ rw (e, n, wake_timeout) (ground (arith, n))
    | inr n ↦ rw (e, n, wake_timeout) (ground arith)
  ]
]

wake_timeout-tick :
    (best ms n : ℕ) (t : Bool)
    → t ≡ true
    → ms < wake_none
    → ms ≤ n
    → AtMost (wake_timeout best t ms) n
unfolding wake_timeout
wake_timeout-tick best ms n t on small le = elim (Bool-cases (ltb ms best)) [
  | inl e ↦ rw (on, e, wake_timeout) le
  | inr e ↦
      AtMost-le (wake_timeout best t ms) best n (wake_timeout-best best ms t) (ground (arith, e))
]

abbrev larger : ℕ → ℕ → ℕ
larger m n = if leb m n then n else m

-- The timeout is within what one service allows, or within a tick where that is longer.
abbrev pub Suits : Loop → Option ℕ → Waker → Type 0
Suits p r w =
    AtMost r (larger tick_ms (run_allows p w))
    × AtMost r (larger tick_ms (watchdog_allows p w))
    × AtMost r (ready_allows p w)

-- How long the rest lets the loop sleep.
abbrev pub host_allows : Loop → ℕ
host_allows p = elim p.host [ none ↦ wake_none | some due ↦ due - p.now_m ]

abbrev pub tick_allows : Loop → ℕ
tick_allows p = if p.host_tick then tick_ms else wake_none

abbrev pub event_allows : Loop → ℕ
event_allows p = if p.ready_event_due == 0 then wake_none else p.ready_event_due - p.now_m

abbrev pub pass_allows : Loop → ℕ
pass_allows p = if p.pass_changed then 0 else wake_none

-- The sleep is in time for all that the loop waits for.
pub record InTime (p : Loop) (r : Option ℕ) : Type 0 where
  pub services : All (Suits p r) p.services
  pub evictions : All (λ d. AtMost r (d * 1000 - p.now_m)) p.evictions
  pub host : AtMost r (host_allows p)
  pub host_tick : AtMost r (tick_allows p)
  pub event : AtMost r (event_allows p)
  pub pass : AtMost r (pass_allows p)

no_sleep : (p : Loop) → InTime p (some 0)
no_sleep p = record {
  services = All-true (λ w. (omega arith, omega arith, omega arith)) p.services;
  evictions = All-true (λ d. omega arith) p.evictions;
  host = omega arith;
  host_tick = omega arith;
  event = omega arith;
  pass = omega arith;
}
  where
    All-true : {A : Type 0} {P : A → Type 0} (f : (a : A) → P a) (xs : List A) → All P xs
    All-true f [] = tt
    All-true f (x ∷ xs) = (f x, All-true f xs)

start_host : (p : Loop) → (look_start p).best ≤ host_allows p
start_host p = elim (Option-cases p.host) [
  | inl e ↦ rw (e, host_allows) (omega arith)
  | inr (d, e) ↦ rw (e, host_allows) (wake_min_due wake_none d p.now_m (omega arith))
]

start_best : (p : Loop) → (look_start p).best ≤ wake_none
start_best p = elim (Option-cases p.host) [
  | inl e ↦ rw e (omega arith)
  | inr (d, e) ↦ rw e (wake_min_le wake_none d p.now_m wake_none)
]

module _ (p : Loop) (k : Look) (n : ℕ) (looked : Sooner (look_start p) k) (b : Soonest p k n) where
  abbrev polled_by : ℕ
  polled_by = if k.awaiting then ready_poll_ms else tick_ms

  abbrev sleep : Option ℕ
  sleep = wake_timeout n (k.tick || k.awaiting) polled_by

  short : polled_by ≤ tick_ms
  short = ground arith

  by_best : (m : ℕ) → n ≤ m → AtMost sleep m
  by_best m h = AtMost-le sleep n m (wake_timeout-best n polled_by (k.tick || k.awaiting)) h

  by_tick : (m : ℕ) → k.tick ≡ true → tick_ms ≤ m → AtMost sleep m
  by_tick m e h =
      wake_timeout-tick n polled_by m (k.tick || k.awaiting) (ground arith) (omega (arith, short))
        (omega (arith, short, h))

  by_ready : k.awaiting ≡ true → AtMost sleep ready_poll_ms
  by_ready e =
      wake_timeout-tick n polled_by ready_poll_ms (k.tick || k.awaiting) (ground arith)
        (ground arith) (ground arith)

  Kept-sleep : (m : ℕ) → Kept p k m → n ≤ m
  Kept-sleep m (inl h) = omega (arith, h, b.looks)
  Kept-sleep m (inr (e, h)) = elim b.backstop [ inl f ↦ absurd cc | inr g ↦ omega (arith, g, h) ]

  heeded : (w : Waker) → Heeds p w k → Suits p sleep w
  heeded w h = (
    elim h.due [
      | inl e ↦ by_tick (larger tick_ms (run_allows p w)) e (ground arith)
      | inr (d, r) ↦
          by_best (larger tick_ms (run_allows p w)) (ground (arith, Kept-sleep (run_allows p w) r))
    ],
    elim h.due [
      | inl e ↦ by_tick (larger tick_ms (watchdog_allows p w)) e (ground arith)
      | inr (d, r) ↦ by_best (larger tick_ms (watchdog_allows p w)) (ground (arith, d, b.looks))
    ],
    elim h.ready [
      | inl e ↦ rw e (by_best wake_none (omega (arith, b.looks, looked.best, start_best p)))
      | inr e ↦ AtMost-le sleep ready_poll_ms (ready_allows p w) (by_ready e) (ground arith)
    ],
  )

  sleep-InTime : All (λ w. Heeds p w k) p.services → p.pass_changed ≡ false → InTime p sleep
  sleep-InTime h calm =
      let far : n ≤ wake_none = omega (arith, b.looks, looked.best, start_best p) in
      record {
        services = All-map heeded p.services h;
        evictions = All-map (λ d e. by_best (d * 1000 - p.now_m) e) p.evictions b.each;
        host = by_best (host_allows p) (omega (arith, b.looks, looked.best, start_host p));
        host_tick = elim (Bool-cases p.host_tick) [
          | inl e ↦ rw (e, tick_allows) (by_tick tick_ms (looked.tick e) (omega arith))
          | inr e ↦ rw (e, tick_allows) (by_best wake_none far)
        ];
        event = elim b.event [
          | inl e ↦ rw (e, event_allows) (by_best wake_none far)
          | inr e ↦ by_best (event_allows p) (ground (arith, e, far))
        ];
        pass = rw calm (by_best wake_none far);
      }

-- The timeout that the main loop gives poll, INT64_MAX ms where it gives none, is for each service at
-- most the longer of 250 ms and what its state allows: nothing while a helper process or another state
-- is polled; the time to the end of a dormant service's park, of a new one's hold or of a timer, with at
-- most 60 s for a wall-clock one; a second for one that waits for a socket; the time to the backstop for
-- a watched ready path; anything in the other states. It is at most the longer of 250 ms and the time to
-- the deadline of each armed watchdog, and at most 10 ms while a ready path is awaited. It is at most the
-- time to the deadline of each eviction, of the host and of a ready event, at most 250 ms where the host
-- asks for the tick, and 0 where the last pass changed a state.
pub get_poll_timeout-InTime : (p : Loop) → InTime p (get_poll_timeout p)
unfolding get_poll_timeout
get_poll_timeout-InTime p =
    let k = look_all p p.services (look_start p) in
    let (looked, heeds) = look_all-both p p.services (look_start p) (start_best p) in
    let far : k.best ≤ wake_none = omega (arith, looked.best, start_best p) in
    if_either (InTime p) p.pass_changed (λ e. no_sleep p)
      (λ e. sleep-InTime p k (soonest p k) looked (soonest-Soonest p k far) heeds e)
