-- ===== src/Schema.antt =====
-- schema.h and schema.c: the states, the flag vectors and the weight state machine of one
-- service.
pub mod Weights
pub mod Graph
pub mod Traces
use schema_init.Prelude.{
  ℕ, zero, suc, ◌+◌, ◌-◌, ◌*◌, ◌/◌, ◌%◌, ◌^◌, ◌≤◌, ◌<◌, ◌≡◌, refl, sym, ap, ◌∙◌, ◌≢◌, ◌↔◌, ◌⊎◌, inl,
  inr, Bool, true, false, not, ◌&&◌, ◌||◌, Option, none, some, List, [], ◌∷◌, ◌++◌, map, arith, ltb,
  leb, ◌==◌, if◌then◌else◌, Bool-cases, Option-cases, one_if, ==_iff, length, get_elem?, set,
  replicate, length-append, length-replicate, length-set, get_elem?-set_self, get_elem?-set_ne, All,
  Some, Bytes, codes, str_eq, str_eq_iff, starts_with,
}

-- The `STATE_*` constants of schema.h, as the enum that they stand for.
pub data State : Type 0 where
  fundamental friction settled new_process recovery full_trust perfect excised dormant : State

pub State-discrete : Discrete State
State-discrete = hlevel

abbrev pub state_eq : State → State → Bool
state_eq fundamental fundamental = true
state_eq friction friction = true
state_eq settled settled = true
state_eq new_process new_process = true
state_eq recovery recovery = true
state_eq full_trust full_trust = true
state_eq perfect perfect = true
state_eq excised excised = true
state_eq dormant dormant = true
state_eq _ _ = false

-- The numbers that schema.h gives the states, as the control socket and the shared memory show them.
unfoldable pub state_code : State → ℕ
state_code fundamental = 1
state_code friction = 6
state_code settled = 7
state_code new_process = 8
state_code recovery = 9
state_code full_trust = 10
state_code perfect = 88
state_code excised = 76
state_code dormant = 75

unfoldable pub state_name : ℕ → Bytes
state_name s =
    if s == 1
    then codes "FUNDAMENTAL"
    else if s == 6
    then codes "FRICTION"
    else if s == 7
    then codes "SETTLED"
    else if s == 8
    then codes "NEW_PROCESS"
    else if s == 9
    then codes "RECOVERY"
    else if s == 10
    then codes "FULL_TRUST"
    else if s == 88
    then codes "PERFECT"
    else if s == 76
    then codes "EXCISED"
    else if s == 75
    then codes "DORMANT"
    else codes "UNKNOWN"

abbrev pub shift_threshold_8 : ℕ
shift_threshold_8 = 5

abbrev pub shift_threshold_9 : ℕ
shift_threshold_9 = 8

abbrev pub shift_threshold_6 : ℕ
shift_threshold_6 = 3

-- `flags & F8_MASK` and the like: the low 8, 12 and 6 bits.
abbrev pub f8_bits : ℕ → ℕ
f8_bits f = f % 2 ^ 8

abbrev pub f9_bits : ℕ → ℕ
f9_bits f = f % 2 ^ 12

abbrev pub f6_bits : ℕ → ℕ
f6_bits f = f % 2 ^ 6

pub record Instance : Type 0 where
  pub state : State
  pub weight : ℕ
  pub target_c : ℕ
  pub prev_state : State
  pub pid : ℕ
  pub flags : ℕ

-- `while (v) { n += v & 1; v >>= 1; }`, with the rounds left.
unfoldable pub popcount_loop : ℕ → ℕ → ℕ
popcount_loop zero v = 0
popcount_loop (suc k) v = let rest = popcount_loop k (v / 2) in if v == 0 then 0 else v % 2 + rest

-- A `uint32_t` has 32 bits, so 32 rounds are enough.
unfoldable pub popcount : ℕ → ℕ
unfolding popcount_loop
popcount = popcount_loop 32

unfoldable pub schema_instance_init : ℕ → ℕ → Instance
schema_instance_init pid target = record {
  state = new_process;
  weight = 0;
  target_c = target;
  prev_state = settled;
  pid = pid;
  flags = 0;
}

-- The `switch` of `schema_step`, one clause for each case; the others leave the state alone.
unfoldable pub step_from : State → Instance → ℕ → Instance
step_from new_process i flags =
    let w = popcount (f8_bits flags) in
    record i {
      weight = w;
      prev_state = new_process;
      state = if leb shift_threshold_8 w then full_trust else recovery;
    }
step_from recovery i flags =
    let w = popcount (f9_bits flags) in
    record i { weight = w; state = if leb shift_threshold_9 w then settled else friction }
step_from friction i flags =
    let w = popcount (f6_bits flags) in
    record i { weight = w; state = if leb shift_threshold_6 w then recovery else excised }
step_from full_trust i flags =
    if f8_bits flags == 255
    then record i { state = fundamental }
    else if flags == 0
    then record i { state = excised }
    else i
step_from _ i flags = i

unfoldable pub schema_step : Instance → ℕ → Instance
unfolding step_from
schema_step i flags = step_from i.state (record i { flags = flags }) flags
