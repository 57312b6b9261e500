-- ===== src/Engine/Backoff.antt =====
-- engine.c: the backoff of a service that FRICTION gives up on, and the crash-loop breaker.
use schema_init.Prelude.{
  ℕ, zero, suc, ◌+◌, ◌*◌, ◌%◌, ◌^◌, true, false, not, ◌&&◌, Option, none, some, ltb, leb,
  if◌then◌else◌,
}
use schema_init.Schema.{dormant}
use schema_init.Engine.Service.{Time, Service, with_state, exc_breaker}

-- `delay = 300L << (dormant_count - 1)`, capped at 3600, for the count after its increment. The
-- result is `none` where C leaves the shift undefined: by a negative count, or out of a `long`.
unfoldable pub park_delay : ℕ → Option ℕ
park_delay zero = none
park_delay (suc n) =
    let shifted = 300 * 2 ^ n in
    if ltb shifted (2 ^ 63) then some (if ltb 3600 shifted then 3600 else shifted) else none

-- `park`; `dormant_count` is a `uint8_t`.
unfoldable pub park : Service → Time → Option Service
park s now =
    let count = (s.dormant_count + 1) % 256 in
    elim (park_delay count) [
      | none ↦ none
      | some delay ↦ some (record (with_state s dormant) {
        dormant_count = count;
        dormant_until = record { sec = now.sec + delay; nsec = now.nsec };
      })
    ]

-- `engine_friction_verdict`: the fifth loss trips the breaker, unless the service may not be excised.
unfoldable pub friction_verdict : Service → Time → Option Service
friction_verdict s now =
    if not s.critical && not s.no_excise && leb 4 s.dormant_count
    then some (record s {
      dormant_count = (s.dormant_count + 1) % 256;
      circuit_broken = true;
      excise_reason = exc_breaker;
    })
    else park s now

-- `breaker_clear`: a cleared breaker restarts the backoff too.
unfoldable pub breaker_clear : Service → Service
breaker_clear s = record s {
  dormant_count = if s.circuit_broken then 0 else s.dormant_count;
  circuit_broken = false;
}
