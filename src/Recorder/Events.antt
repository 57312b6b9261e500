-- ===== src/Recorder/Events.antt =====
-- recorder.h and recorder_logic.h: events, their tiers and the ring in shared memory.
use schema_init.Prelude.{
  ℕ, ◌+◌, ◌-◌, ◌%◌, ◌^◌, ◌≡◌, refl, inl, inr, Bool, false, not, ◌&&◌, ◌||◌, Option, List, [], ◌∷◌,
  ◌++◌, arith, ltb, leb, ◌==◌, if◌then◌else◌, Bool-cases, length, get_elem?, set, Bytes, codes,
  str_eq,
}

-- `rec_src`; any other byte is `src_other`.
pub data Src : Type 0 where
  src_pid1 src_coredump src_session src_earlyoom src_psi src_other : Src

pub data ℤ : Type 0 where
  pos : ℕ → ℤ
  negsuc : ℕ → ℤ

abbrev pub is_zero : ℤ → Bool
is_zero (pos n) = n == 0
is_zero (negsuc n) = false

pub record Event : Type 0 where
  pub ts : ℕ
  pub src : Src
  pub tier : ℕ
  pub crit : Bool
  pub pid : ℤ
  pub rc : ℤ
  pub kind : Bytes
  pub boot : Bytes
  pub comm : Bytes
  pub subj : Bytes
  pub msg : Bytes

abbrev pub tier_trace : ℕ
tier_trace = 0

abbrev pub tier_minor : ℕ
tier_minor = 1

abbrev pub tier_crit : ℕ
tier_crit = 2

abbrev pub tier_session : ℕ
tier_session = 3

abbrev pub tier_live : ℕ
tier_live = 4

-- A text among the texts of a table.
unfoldable pub listed : Bytes → List Bytes → Bool
listed s [] = false
listed s (t ∷ ts) = str_eq s t || listed s ts

abbrev pub pid1_kinds : List Bytes
pid1_kinds =
    codes "died"
    ∷ codes "dormant"
    ∷ codes "76-excised"
    ∷ codes "watchdog-kill"
    ∷ codes "watchdog-abort"
    ∷ codes "start-timeout"
    ∷ codes "spawn-fail"
    ∷ codes "readiness-lost"
    ∷ codes "fuse-tripped"
    ∷ []

abbrev pub session_comms : List Bytes
session_comms =
    codes "kwin_wayland"
    ∷ codes "plasmashell"
    ∷ codes "ksmserver"
    ∷ codes "startplasma-way"
    ∷ codes "plasma_session"
    ∷ codes "Xwayland"
    ∷ []

abbrev pub forward_kinds : List Bytes
forward_kinds = pid1_kinds ++ codes "breaker-tripped" ∷ []

unfoldable pub rec_forward_kind : Bytes → Bool
rec_forward_kind event = listed event forward_kinds

unfoldable pub rec_tier_base : Event → ℕ
rec_tier_base e = elim e.src [
  | src_pid1 ↦
      if str_eq e.kind (codes "breaker-tripped")
      then tier_crit
      else if listed e.kind pid1_kinds
      then if e.crit then tier_crit else tier_minor
      else if str_eq e.kind (codes "survival-enter")
      then tier_minor
      else tier_trace
  | src_session ↦
      if str_eq e.kind (codes "plasma-exit") && not (is_zero e.rc) then tier_session else tier_trace
  | src_coredump ↦
      if listed e.comm session_comms
      then tier_session
      else if length e.subj == 0
      then tier_trace
      else tier_minor
  | src_earlyoom ↦ if str_eq e.kind (codes "kill") then tier_minor else tier_trace
  | src_psi ↦ e.tier
  | src_other ↦ tier_trace
]

unfoldable pub rec_tier : Event → ℕ
rec_tier e = if ltb e.tier (rec_tier_base e) then rec_tier_base e else e.tier

abbrev pub rec_ring : ℕ
rec_ring = 128

pub record Arrow : Type 0 where
  pub state : ℕ
  pub tier : ℕ
  pub src : Src
  pub event_ts : ℕ
  pub resolved_ts : ℕ
  pub recurrence : ℕ
  pub line : Bytes

-- `rec_shm_t`; the sequence number, the head and the count are 32 bits wide.
pub record Shm : Type 0 where
  pub seq : ℕ
  pub arrow : Arrow
  pub head : ℕ
  pub count : ℕ
  pub ring : List Event

unfoldable pub rec_ring_push : Shm → Event → Shm
rec_ring_push m e = record m {
  seq = (m.seq + 2) % 2 ^ 32;
  ring = set m.ring (m.head % rec_ring) e;
  head = (m.head + 1) % 2 ^ 32;
  count = if ltb m.count rec_ring then (m.count + 1) % 2 ^ 32 else m.count;
}

unfoldable pub rec_arrow_set : Shm → Arrow → Shm
rec_arrow_set m a = record m { seq = (m.seq + 2) % 2 ^ 32; arrow = a }

-- `m->ring[(m->head - 1 - i) % REC_RING]`, as `rec_correlate` reads the ring from its newest event;
-- the subtraction wraps around in 32 bits.
unfoldable pub newest : Shm → ℕ → Option Event
newest m i = get_elem? m.ring ((m.head + 2 ^ 32 - 1 - i) % 2 ^ 32 % rec_ring)

-- `m->ring[(base + i) % REC_RING]` with `base = m->head - n`, as `rec_best_arrow` reads it from its
-- oldest event.
unfoldable pub oldest : Shm → ℕ → Option Event
oldest m i = get_elem? m.ring (((m.head + 2 ^ 32 - m.count) % 2 ^ 32 + i) % 2 ^ 32 % rec_ring)

listed-append :
    (s : Bytes) (xs ys : List Bytes) → listed s (xs ++ ys) ≡ (listed s xs || listed s ys)
unfolding listed
listed-append s [] ys = refl
listed-append s (x ∷ xs) ys = ground (arith, listed-append s xs ys)

-- The kinds of PID 1 that are forwarded are those that are not only traced, but for
-- `survival-enter`, which the recorder ranks and PID 1's table of kinds does not name.
pub forwarded_iff :
    (e : Event)
    → e.src ≡ src_pid1
    → leb tier_minor (rec_tier_base e)
      ≡ (rec_forward_kind e.kind || str_eq e.kind (codes "survival-enter"))
unfolding rec_tier_base rec_forward_kind
forwarded_iff e h =
    let last : listed e.kind (codes "breaker-tripped" ∷ [])
        ≡ str_eq e.kind (codes "breaker-tripped") =
      unfold listed in ground arith in
    rw (h, listed-append e.kind pid1_kinds (codes "breaker-tripped" ∷ []), last)
      (elim (Bool-cases (str_eq e.kind (codes "breaker-tripped"))) [
        | inl a ↦ rw a (ground arith)
        | inr a ↦ elim (Bool-cases (listed e.kind pid1_kinds)) [
          | inl k ↦ elim (Bool-cases e.crit) [
            | inl c ↦ rw (a, k, c) refl
            | inr c ↦ rw (a, k, c) refl
          ]
          | inr k ↦ elim (Bool-cases (str_eq e.kind (codes "survival-enter"))) [
            | inl c ↦ rw (a, k, c) refl
            | inr c ↦ rw (a, k, c) refl
          ]
        ]
      ])
