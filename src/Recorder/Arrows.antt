-- ===== src/Recorder/Arrows.antt =====
-- recorder_logic.h: how long an arrow is shown, and which of two arrows is shown.
use schema_init.Prelude.{
  ℕ, ◌-◌, ◌*◌, ◌≡◌, ◌≢◌, ◌⊎◌, inl, inr, Bool, true, false, not, ◌&&◌, ◌||◌, arith, ltb, leb, ◌==◌,
  if◌then◌else◌, Bool-cases,
}
use schema_init.Recorder.Events.{
  Src, src_pid1, src_coredump, src_session, src_earlyoom, src_psi, src_other, Arrow, tier_trace,
  tier_live,
}

abbrev pub is_session : Src → Bool
is_session s = elim s [
  | src_pid1 ↦ false
  | src_coredump ↦ false
  | src_session ↦ true
  | src_earlyoom ↦ false
  | src_psi ↦ false
  | src_other ↦ false
]

-- 0 is hidden, 1 bright, 2 dim.
unfoldable pub rec_arrow_shade : Arrow → ℕ → ℕ
rec_arrow_shade a now =
    if a.state == 0
    then 0
    else if a.state == 1 || ltb now a.resolved_ts
    then 1
    else if ltb (now - a.resolved_ts) (12 * 3600)
    then 1
    else if ltb (now - a.resolved_ts) (36 * 3600)
    then 2
    else 0

abbrev pub differ : Bool → Bool → Bool
differ a b = if a then not b else b

-- The tests of `rec_arrow_beats` behind the two shades.
unfoldable pub beats_shaded : ℕ → ℕ → Arrow → Arrow → Bool
beats_shaded cs us cand cur =
    if cs == 0 || cand.tier == tier_trace
    then false
    else if us == 0
    then true
    else if not (cs == us)
    then ltb cs us
    else if not (cand.tier == cur.tier)
    then ltb cur.tier cand.tier
    else if cand.tier == tier_live && differ (is_session cand.src) (is_session cur.src)
    then is_session cand.src
    else leb cur.event_ts cand.event_ts

unfoldable pub rec_arrow_beats : Arrow → Arrow → ℕ → Bool
rec_arrow_beats cand cur now =
    beats_shaded (rec_arrow_shade cand now) (rec_arrow_shade cur now) cand cur

-- An arrow that may be shown at all.
abbrev pub IsShown : Arrow → ℕ → Type 0
IsShown a now = (rec_arrow_shade a now ≢ 0) × (a.tier ≢ tier_trace)

shaded-total :
    (x y : ℕ) (a b : Arrow)
    → x ≢ 0
    → a.tier ≢ 0
    → y ≢ 0
    → b.tier ≢ 0
    → (beats_shaded x y a b ≡ true) ⊎ (beats_shaded y x b a ≡ true)
unfolding beats_shaded
shaded-total x y a b p q r s = elim (Bool-cases (is_session a.src)) [
  | inl m ↦ elim (Bool-cases (is_session b.src)) [
    | inl n ↦ rw (m, n) (ground arith)
    | inr n ↦ rw (m, n) (ground arith)
  ]
  | inr m ↦ elim (Bool-cases (is_session b.src)) [
    | inl n ↦ rw (m, n) (ground arith)
    | inr n ↦ rw (m, n) (ground arith)
  ]
]

-- Of two arrows that may be shown, one beats the other.
pub rec_arrow_beats_total :
    (a b : Arrow) (now : ℕ)
    → IsShown a now
    → IsShown b now
    → (rec_arrow_beats a b now ≡ true) ⊎ (rec_arrow_beats b a now ≡ true)
unfolding rec_arrow_beats
rec_arrow_beats_total a b now p q =
    shaded-total (rec_arrow_shade a now) (rec_arrow_shade b now) a b p.0 p.1 q.0 q.1

-- The tests on plain numbers: the two shades, tiers, session flags and times.
unfoldable ranked : ℕ → ℕ → ℕ → ℕ → Bool → Bool → ℕ → ℕ → Bool
ranked x y t u k l f g =
    if x == 0 || t == 0
    then false
    else if y == 0
    then true
    else if not (x == y)
    then ltb x y
    else if not (t == u)
    then ltb u t
    else if t == 4 && differ k l
    then k
    else leb g f

ranked_trans :
    (x y z t u v : ℕ) (k l m : Bool) (f g h : ℕ)
    → ranked x y t u k l f g ≡ true
    → ranked y z u v l m g h ≡ true
    → ranked x z t v k m f h ≡ true
unfolding ranked
ranked_trans x y z t u v true true true f g h p q = ground arith
ranked_trans x y z t u v true true false f g h p q = ground arith
ranked_trans x y z t u v true false true f g h p q = ground arith
ranked_trans x y z t u v true false false f g h p q = ground arith
ranked_trans x y z t u v false true true f g h p q = ground arith
ranked_trans x y z t u v false true false f g h p q = ground arith
ranked_trans x y z t u v false false true f g h p q = ground arith
ranked_trans x y z t u v false false false f g h p q = ground arith

-- If one arrow beats a second at some time, and the second a third, then the first beats the
-- third.
pub rec_arrow_beats_trans :
    (a b c : Arrow) (now : ℕ)
    → rec_arrow_beats a b now ≡ true
    → rec_arrow_beats b c now ≡ true
    → rec_arrow_beats a c now ≡ true
unfolding rec_arrow_beats beats_shaded ranked
rec_arrow_beats_trans a b c now p q =
    ranked_trans (rec_arrow_shade a now) (rec_arrow_shade b now) (rec_arrow_shade c now) a.tier
      b.tier c.tier (is_session a.src) (is_session b.src) (is_session c.src) a.event_ts b.event_ts
      c.event_ts p q
