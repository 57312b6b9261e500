-- ===== src/Engine/Weights.antt =====
-- How much the probed words weigh, and what that decides.
use schema_init.Prelude.{
  ℕ, ◌+◌, ◌*◌, ◌/◌, ◌%◌, ◌^◌, ◌≤◌, ◌<◌, ◌≡◌, refl, ap, ◌∙◌, ◌⊎◌, Bool, true, false, not, ◌||◌,
  Option, none, some, List, [], ◌∷◌, ◌++◌, arith, ltb, leb, one_if, length,
}
use schema_init.Prelude.Flags.{flag_if}
use schema_init.Schema.{popcount, f9_bits, f6_bits}
use schema_init.Schema.Weights.{word, count_true, popcount-word}
use schema_init.Engine.Service.{time_set, Service}
use schema_init.Engine.Probe.{
  Probed, probe_deps, service_fallback, fall_health, budget_left, card_in_hand, cooldown_secs,
  mem_min_kb, service_probe_f8, service_probe_f9, service_probe_f6,
}

pub word-lt : (bs : List Bool) → word bs < 2 ^ length bs
word-lt [] = omega arith
word-lt (true ∷ bs) = grind (arith, word-lt bs)
word-lt (false ∷ bs) = grind (arith, word-lt bs)

word-concat : (bs : List Bool) (c : Bool) → word (bs ++ c ∷ []) ≡ word bs + one_if c * 2 ^ length bs
word-concat [] c = grind arith
word-concat (b ∷ bs) c = grind (arith, word-concat bs c)

div-small : (f m : ℕ) → f < m → f / m ≡ 0
div-small f m h = grind arith

-- Setting the next higher bit, if the test says so.
flag_if-word : (bs : List Bool) (c : Bool) → flag_if c (length bs) (word bs) ≡ word (bs ++ c ∷ [])
unfolding flag_if
flag_if-word bs true =
    rw (div-small (word bs) (2 ^ length bs) (word-lt bs)) (rw (word-concat bs true) (omega arith))
flag_if-word bs false = rw (word-concat bs false) (omega arith)

next_flag :
    (bs : List Bool) (c : Bool) {f : ℕ}
    → f ≡ word bs
    → flag_if c (length bs) f ≡ word (bs ++ c ∷ [])
next_flag bs c e = ap (flag_if c (length bs)) e ∙ flag_if-word bs c

-- The bits of each probed word, the lowest first.
unfoldable pub f8_list : Probed → Service → List Service → List Bool
f8_list p s table =
    p.exec_exists
    ∷ p.exec_runs
    ∷ (probe_deps table s.deps true).0
    ∷ (probe_deps table s.deps true).1
    ∷ ltb 0 p.mem_kb
    ∷ leb mem_min_kb p.mem_kb
    ∷ true
    ∷ (not s.needs_root || p.is_root)
    ∷ []

pub probe_f8-word :
    (p : Probed) (s : Service) (table : List Service)
    → service_probe_f8 p s table ≡ word (f8_list p s table)
unfolding service_probe_f8 f8_list
probe_f8-word p s table =
    let b0 = p.exec_exists in
    let b1 = p.exec_runs in
    let (b2, b3) = probe_deps table s.deps true in
    let b4 = ltb 0 p.mem_kb in
    let b5 = leb mem_min_kb p.mem_kb in
    let w1 = next_flag (b0 ∷ []) b1 (next_flag [] b0 refl) in
    let w3 = next_flag (b0 ∷ b1 ∷ b2 ∷ []) b3 (next_flag (b0 ∷ b1 ∷ []) b2 w1) in
    let w5 =
      next_flag (b0 ∷ b1 ∷ b2 ∷ b3 ∷ b4 ∷ []) b5 (next_flag (b0 ∷ b1 ∷ b2 ∷ b3 ∷ []) b4 w3) in
    next_flag (b0 ∷ b1 ∷ b2 ∷ b3 ∷ b4 ∷ b5 ∷ true ∷ []) (not s.needs_root || p.is_root)
      (next_flag (b0 ∷ b1 ∷ b2 ∷ b3 ∷ b4 ∷ b5 ∷ []) true w5)

abbrev cooled : Probed → Service → Bool
cooled p s =
    not (time_set s.spawn_time_mono) || leb (s.spawn_time_mono.sec + cooldown_secs) p.now.sec

pub f9_list : Probed → Service → List Service → ℕ → List Bool
f9_list p s table self =
    let (exists, healthy) = fall_health table (service_fallback s.card table self) in
    budget_left s
    ∷ cooled p s
    ∷ exists
    ∷ healthy
    ∷ ltb 0 p.mem_kb
    ∷ leb mem_min_kb p.mem_kb
    ∷ card_in_hand s
    ∷ card_in_hand s
    ∷ budget_left s
    ∷ budget_left s
    ∷ []

probe_f9-word :
    (p : Probed) (s : Service) (table : List Service) (self : ℕ)
    → service_probe_f9 p s table self ≡ word (f9_list p s table self)
unfolding service_probe_f9 f9_list
probe_f9-word p s table self =
    let (b2, b3) = fall_health table (service_fallback s.card table self) in
    let b0 = budget_left s in
    let b1 = cooled p s in
    let b4 = ltb 0 p.mem_kb in
    let b5 = leb mem_min_kb p.mem_kb in
    let b6 = card_in_hand s in
    let w1 = next_flag (b0 ∷ []) b1 (next_flag [] b0 refl) in
    let w3 = next_flag (b0 ∷ b1 ∷ b2 ∷ []) b3 (next_flag (b0 ∷ b1 ∷ []) b2 w1) in
    let w5 =
      next_flag (b0 ∷ b1 ∷ b2 ∷ b3 ∷ b4 ∷ []) b5 (next_flag (b0 ∷ b1 ∷ b2 ∷ b3 ∷ []) b4 w3) in
    let w7 =
      next_flag (b0 ∷ b1 ∷ b2 ∷ b3 ∷ b4 ∷ b5 ∷ b6 ∷ []) b6
        (next_flag (b0 ∷ b1 ∷ b2 ∷ b3 ∷ b4 ∷ b5 ∷ []) b6 w5) in
    next_flag (b0 ∷ b1 ∷ b2 ∷ b3 ∷ b4 ∷ b5 ∷ b6 ∷ b6 ∷ b0 ∷ []) b0
      (next_flag (b0 ∷ b1 ∷ b2 ∷ b3 ∷ b4 ∷ b5 ∷ b6 ∷ b6 ∷ []) b0 w7)

f6_list : Probed → Service → List Bool
f6_list p s = budget_left s ∷ leb mem_min_kb p.mem_kb ∷ false ∷ false ∷ budget_left s ∷ true ∷ []

probe_f6-word : (p : Probed) (s : Service) → service_probe_f6 p s ≡ word (f6_list p s)
unfolding service_probe_f6 f6_list
probe_f6-word p s =
    let b0 = budget_left s in
    let b1 = leb mem_min_kb p.mem_kb in
    let w1 = next_flag (b0 ∷ []) b1 (next_flag [] b0 refl) in
    next_flag (b0 ∷ b1 ∷ false ∷ false ∷ b0 ∷ []) true
      (next_flag (b0 ∷ b1 ∷ false ∷ false ∷ []) b0 (w1 ∙ omega arith))

pub mod-small : (a m : ℕ) → a < m → a % m ≡ a
mod-small a m h = grind arith

f9_weight :
    (p : Probed) (s : Service) (table : List Service) (self : ℕ)
    → popcount (f9_bits (service_probe_f9 p s table self)) ≡ count_true (f9_list p s table self)
unfolding f9_list
f9_weight p s table self =
    let ws = f9_list p s table self in
    let lt : word ws < 1024 = word-lt ws in
    let small : word ws % 2 ^ 12 ≡ word ws = mod-small (word ws) (2 ^ 12) (omega arith) in
    rw (probe_f9-word p s table self) (rw small (popcount-word ws (omega arith)))

f6_weight :
    (p : Probed) (s : Service)
    → popcount (f6_bits (service_probe_f6 p s)) ≡ count_true (f6_list p s)
unfolding f6_list
f6_weight p s =
    let ws = f6_list p s in
    let small : word ws % 2 ^ 6 ≡ word ws = mod-small (word ws) (2 ^ 6) (word-lt ws) in
    rw (probe_f6-word p s) (rw small (popcount-word ws (omega arith)))

-- In FRICTION the weight reaches its threshold exactly when restarts are left: memory and the rest
-- decide nothing.
pub friction_weight_iff :
    (p : Probed) (s : Service) → leb 3 (popcount (f6_bits (service_probe_f6 p s))) ≡ budget_left s
unfolding f6_list
friction_weight_iff p s = rw (f6_weight p s) (ground arith)

fall_health-exists :
    (table : List Service) (o : Option ℕ)
    → (fall_health table o).0 ≡ false
    → (fall_health table o).1 ≡ false
unfolding fall_health
fall_health-exists table none h = refl
fall_health-exists table (some j) h = ground arith

-- In RECOVERY the weight reaches its threshold only with restarts left and with a card in hand or a
-- fallback service that exists.
pub recovery_weight :
    (p : Probed) (s : Service) (table : List Service) (self : ℕ)
    → 8 ≤ popcount (f9_bits (service_probe_f9 p s table self))
    → (budget_left s ≡ true)
      × ((card_in_hand s ≡ true)
          ⊎ ((fall_health table (service_fallback s.card table self)).0 ≡ true))
unfolding f9_list
recovery_weight p s table self h =
    ground (
      arith,
      f9_weight p s table self,
      fall_health-exists table (service_fallback s.card table self),
    )
