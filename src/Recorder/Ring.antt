-- ===== src/Recorder/Ring.antt =====
-- The ring of recorder_logic.h keeps the latest events, in their order.
use schema_init.Prelude.{
  ℕ, zero, suc, ◌+◌, ◌-◌, ◌%◌, ◌^◌, ◌≤◌, ◌<◌, ◌≡◌, ap, ◌∙◌, ◌≢◌, List, [], ◌∷◌, arith, ltb,
  if◌then◌else◌, length, get_elem?, set, length-set, get_elem?-set_self, get_elem?-set_ne,
}
use schema_init.Recorder.Events.{Event, Shm, rec_ring, rec_ring_push, newest, oldest}

-- The memory after the events of a list, its newest first.
abbrev pub pushed : Shm → List Event → Shm
pushed m [] = m
pushed m (e ∷ es) = rec_ring_push (pushed m es) e

-- The memory as the recorder maps it first: no events, and room for `rec_ring`.
pub record IsBlank (m : Shm) : Type 0 where
  pub no_head : m.head ≡ 0
  pub no_count : m.count ≡ 0
  pub room : length m.ring ≡ rec_ring

pushed-head : (m : Shm) → IsBlank m → (es : List Event) → (pushed m es).head ≡ length es % 2 ^ 32
unfolding rec_ring_push
pushed-head m b [] = b.no_head
pushed-head m b (e ∷ es) = omega (arith, pushed-head m b es)

pushed-room : (m : Shm) → IsBlank m → (es : List Event) → length (pushed m es).ring ≡ rec_ring
unfolding rec_ring_push
pushed-room m b [] = b.room
pushed-room m b (e ∷ es) = length-set (pushed m es).ring _ e ∙ pushed-room m b es

-- The count is that of the events so far, up to the size of the ring.
pub pushed-count :
    (m : Shm) (es : List Event)
    → IsBlank m
    → (pushed m es).count ≡ (if ltb (length es) rec_ring then length es else rec_ring)
unfolding rec_ring_push
pushed-count m [] b = b.no_count
pushed-count m (e ∷ es) b = ground (arith, pushed-count m es b)

at_newest : (h : ℕ) → h < 2 ^ 32 → ((h + 1) % 2 ^ 32 + 2 ^ 32 - 1 - 0) % 2 ^ 32 % 128 ≡ h % 128
at_newest h lt = omega arith

at_older :
    (h i : ℕ)
    → h < 2 ^ 32
    → suc i < 128
    → ((h + 1) % 2 ^ 32 + 2 ^ 32 - 1 - suc i) % 2 ^ 32 % 128 ≡ (h + 2 ^ 32 - 1 - i) % 2 ^ 32 % 128
at_older h i lt k = omega arith

not_newest : (h i : ℕ) → h < 2 ^ 32 → suc i < 128 → h % 128 ≢ (h + 2 ^ 32 - 1 - i) % 2 ^ 32 % 128
not_newest h i lt k e = omega arith

-- The ring keeps the latest events: as many events back as the ring is long, what stands there is
-- the event that was pushed so many events ago, also when the 32-bit head has wrapped around.
pub pushed-newest :
    (m : Shm) (es : List Event) (i : ℕ)
    → IsBlank m
    → i < rec_ring
    → i < length es
    → newest (pushed m es) i ≡ get_elem? es i
unfolding newest rec_ring_push
pushed-newest m [] i b h k = absurd (omega (arith, k))
pushed-newest m (e ∷ es) zero b h k =
    let p = pushed m es in
    let lt : p.head < 2 ^ 32 = omega (arith, pushed-head m b es) in
    let room = pushed-room m b es in
    ap (get_elem? (set p.ring (p.head % rec_ring) e)) (at_newest p.head lt)
    ∙ get_elem?-set_self p.ring (p.head % rec_ring) e (omega (arith, room))
pushed-newest m (e ∷ es) (suc i) b h k =
    let p = pushed m es in
    let lt : p.head < 2 ^ 32 = omega (arith, pushed-head m b es) in
    ap (get_elem? (set p.ring (p.head % rec_ring) e)) (at_older p.head i lt h)
    ∙ get_elem?-set_ne p.ring e (not_newest p.head i lt h)
    ∙ pushed-newest m es i b (omega arith) (omega arith)

-- Reading from the oldest event forward and from the newest back gives the same events.
pub oldest-newest :
    (m : Shm) (es : List Event) (i : ℕ)
    → IsBlank m
    → i < (pushed m es).count
    → oldest (pushed m es) i ≡ newest (pushed m es) ((pushed m es).count - 1 - i)
unfolding oldest newest
oldest-newest m es i b h =
    let p = pushed m es in
    let lt : p.head < 2 ^ 32 = omega (arith, pushed-head m b es) in
    let few : p.count ≤ 128 = ground (arith, pushed-count m es b) in
    ap (get_elem? p.ring) (omega (arith, lt, few))
