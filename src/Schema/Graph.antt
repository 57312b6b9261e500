-- ===== src/Schema/Graph.antt =====
-- Every move of `schema_step` against the diagram of states, with the weight that each edge needs.
use schema_init.Prelude.{ℕ, ◌≤◌, ◌<◌, ◌≡◌, ◌≢◌, ◌⊎◌, arith}
use schema_init.Schema.{
  State, fundamental, friction, settled, new_process, recovery, full_trust, perfect, excised,
  dormant, Instance, popcount, f8_bits, f9_bits, f6_bits, schema_step, state_code, state_name,
}
use schema_init.Schema.Weights.{popcount-le}

-- The diagram: what a flag word must weigh for a move from one state to another.
pub data Edge (flags : ℕ) : State → State → Type 0 where
  trusted : 5 ≤ popcount (f8_bits flags) → Edge flags new_process full_trust
  doubted : popcount (f8_bits flags) < 5 → Edge flags new_process recovery
  recovered : 8 ≤ popcount (f9_bits flags) → Edge flags recovery settled
  worsened : popcount (f9_bits flags) < 8 → Edge flags recovery friction
  rescued : 3 ≤ popcount (f6_bits flags) → Edge flags friction recovery
  condemned : popcount (f6_bits flags) < 3 → Edge flags friction excised
  promoted : f8_bits flags ≡ 255 → Edge flags full_trust fundamental
  lost : flags ≡ 0 → Edge flags full_trust excised
  waiting : f8_bits flags ≢ 255 → flags ≢ 0 → Edge flags full_trust full_trust

-- The states that no flag word moves.
pub data IsStable : State → Type 0 where
  stable_fundamental : IsStable fundamental
  stable_settled : IsStable settled
  stable_perfect : IsStable perfect
  stable_excised : IsStable excised
  stable_dormant : IsStable dormant

abbrev pub Moves : ℕ → State → State → Type 0
Moves flags s t = Edge flags s t ⊎ (IsStable s × (s ≡ t))

ruleset edges = (trusted, doubted, recovered, worsened, rescued, condemned, promoted, lost, waiting)

ruleset stable_states =
    (stable_fundamental, stable_settled, stable_perfect, stable_excised, stable_dormant)

-- Every step either follows an edge of the diagram that the flag word permits, or starts in a
-- stable state and stays there.
pub step-Moves : (i : Instance) (flags : ℕ) → Moves flags i.state (schema_step i flags).state
unfolding schema_step
step-Moves i flags = grind (arith, edges, stable_states)

-- The weight after a step fits the vector that was counted, so the `uint8_t` never wraps.
pub step-weight : (i : Instance) (flags : ℕ) → i.weight ≤ 12 → (schema_step i flags).weight ≤ 12
unfolding schema_step
step-weight i flags h = ground (
  arith,
  popcount-le (f8_bits flags) 8 (omega arith),
  popcount-le (f9_bits flags) 12 (omega arith),
  popcount-le (f6_bits flags) 6 (omega arith),
)

-- The name that is logged for a state tells it from every other.
pub state_name-injective :
    (s t : State) → state_name (state_code s) ≡ state_name (state_code t) → s ≡ t
unfolding state_name state_code
state_name-injective fundamental t e = ground arith
state_name-injective _ t e = ground arith
