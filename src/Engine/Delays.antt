-- ===== src/Engine/Delays.antt =====
-- Backoff and holds: how long a service waits, and when the arithmetic of the backoff is defined.
use schema_init.Prelude.{
  ℕ, suc, ◌+◌, ◌*◌, ◌%◌, ◌^◌, ◌≤◌, ◌<◌, ◌≡◌, refl, ap, ◌∙◌, inl, inr, true, false, not, ◌&&◌, ◌||◌,
  none, some, arith, ltb, leb, ◌==◌, if◌then◌else◌, Bool-cases,
}
use schema_init.Engine.Service.{Time, Service, svc_hold_retry, svc_retry_held, svc_clamp_hold}
use native.Mathlib.Nat.{pow-le-pow_right}
use schema_init.Engine.Backoff.{park_delay, park, friction_verdict}

pow-ge : (n : ℕ) → 55 ≤ n → 2 ^ 55 ≤ 2 ^ n
pow-ge n h = pow-le-pow_right (omega arith) h

pow-le : (n : ℕ) → n ≤ 54 → 2 ^ n ≤ 2 ^ 54
pow-le n h = pow-le-pow_right (omega arith) h

-- The wait before a parked service is tried again is five minutes, doubled for each park before, and
-- an hour at most; that holds for the first 55 parks.
pub park_delay_doubles :
    (n : ℕ)
    → n ≤ 54
    → park_delay (suc n) ≡ some (if ltb 3600 (300 * 2 ^ n) then 3600 else 300 * 2 ^ n)
unfolding park_delay
park_delay_doubles n h = ground (arith, pow-le n h)

-- From the 56th park on the shift leaves the 64-bit `long`: its value is undefined.
pub park_delay_overflows : (n : ℕ) → 55 ≤ n → park_delay (suc n) ≡ none
unfolding park_delay
park_delay_overflows n h = ground (arith, pow-ge n h)

park_undefined :
    (s : Service) (now : Time) → 55 ≤ s.dormant_count → s.dormant_count ≤ 255 → park s now ≡ none
unfolding park
park_undefined s now lo hi = elim (Bool-cases (s.dormant_count == 255)) [
  | inl full ↦
      let wraps : (s.dormant_count + 1) % 256 ≡ 0 = ground arith in
      let none_left : park_delay ((s.dormant_count + 1) % 256) ≡ none =
        rw wraps (unfold park_delay in refl) in
      rw (none_left, park) refl
  | inr less ↦
      let next : (s.dormant_count + 1) % 256 ≡ suc s.dormant_count = ground arith in
      let none_left : park_delay ((s.dormant_count + 1) % 256) ≡ none =
        rw next (park_delay_overflows s.dormant_count lo) in
      rw (none_left, park) refl
]

-- A service that may not be excised, critical or `no_excise`, is parked again and again; when it has
-- been parked 55 times and the count has not wrapped, the next verdict is undefined.
pub critical_backoff_overflows :
    (s : Service) (now : Time)
    → (s.critical || s.no_excise) ≡ true
    → 55 ≤ s.dormant_count
    → s.dormant_count ≤ 255
    → friction_verdict s now ≡ none
unfolding friction_verdict
critical_backoff_overflows s now c lo hi = ground (arith, park_undefined s now lo hi)

park_defined :
    (s : Service) (now : Time) → s.dormant_count < 4 → (s' : Service) × (park s now ≡ some s')
unfolding park
park_defined s now h =
    let next : (s.dormant_count + 1) % 256 ≡ suc s.dormant_count = omega arith in
    let delay = ap park_delay next ∙ park_delay_doubles s.dormant_count (omega arith) in
    rw (delay, park) (_, refl)

-- Any other service gets a verdict from every count.
pub verdict_defined :
    (s : Service) (now : Time)
    → (s.critical || s.no_excise) ≡ false
    → (s' : Service) × (friction_verdict s now ≡ some s')
unfolding friction_verdict
verdict_defined s now c = elim (Bool-cases (leb 4 s.dormant_count)) [
  | inl tired ↦
      let both : (not s.critical && not s.no_excise && leb 4 s.dormant_count) ≡ true =
        ground arith in
      rw (both, friction_verdict) (_, refl)
  | inr fresh ↦
      let both : (not s.critical && not s.no_excise && leb 4 s.dormant_count) ≡ false =
        ground arith in
      rw (both, friction_verdict) (park_defined s now (ground arith))
]

-- A hold lasts for `restart_sec` seconds to the nanosecond, and without one there is none.
pub hold_lasts :
    (s : Service) (now later : Time)
    → svc_retry_held (svc_hold_retry s now) later ≡ (
        ltb 0 s.restart_sec
        && (ltb later.sec (now.sec + s.restart_sec)
            || later.sec == now.sec + s.restart_sec && ltb later.nsec now.nsec))
unfolding svc_retry_held svc_hold_retry
hold_lasts s now later = ground arith

-- After a clamp the service is held no longer than its present `restart_sec` asks for, and a service
-- that was not held is left as it was.
pub clamp_bounds :
    (s : Service) (now : Time)
    → ((svc_retry_held (svc_clamp_hold s now) now ≡ true)
        → (0 < s.restart_sec) × ((svc_clamp_hold s now).restart_at.sec ≤ now.sec + s.restart_sec))
      × ((svc_retry_held s now ≡ false) → svc_clamp_hold s now ≡ s)
unfolding svc_clamp_hold
clamp_bounds s now = grind arith
