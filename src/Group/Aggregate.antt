-- ===== src/Group/Aggregate.antt =====
-- The aggregate state of a group against the states of its members.
use schema_init.Prelude.{
  ℕ, ◌≡◌, ◌≢◌, refl, ap, ◌∙◌, ◌⊎◌, inl, inr, true, false, ◌||◌, Option, none, some, List, [], ◌∷◌,
  ◌++◌, arith, Bool-cases, All, All-map,
}
use schema_init.Schema.{
  State, fundamental, friction, settled, new_process, recovery, full_trust, perfect, excised,
  dormant, state_eq,
}
use schema_init.Group.{
  Group, Verdict, returns, goes_on, verdict_of, member_state, verdict, Tally, tally, conclude,
  tally_start, aggregate_loop, aggregate, group_update, groups_update,
}

-- The loop goes on, with a member that holds its group neither back nor down.
abbrev CarriedBy : Verdict → Type 0
CarriedBy v =
    (v ≡ goes_on fundamental)
    ⊎ (v ≡ goes_on settled)
    ⊎ (v ≡ goes_on perfect)
    ⊎ (v ≡ goes_on dormant)

-- The member is resolved, and its service is fundamental, settled, perfect or dormant.
abbrev pub IsCarried : List State → Option ℕ → Type 0
IsCarried states idx = CarriedBy (verdict states idx)

abbrev pub IsUp : State → Type 0
IsUp s = (s ≡ fundamental) ⊎ (s ≡ settled) ⊎ (s ≡ perfect)

-- A state that leaves the group's to the other members.
abbrev pub LeavesOpen : State → Type 0
LeavesOpen s = (s ≢ excised) × (s ≢ friction) × (s ≢ recovery)

-- The member is resolved and its service neither excised nor in friction nor in recovery.
abbrev pub IsOpen : List State → Option ℕ → Type 0
IsOpen states idx = (s : State) × (member_state states idx ≡ some s) × LeavesOpen s

-- The group's state by a member that is unresolved, or resolved and failing.
abbrev pub Decides : Option State → State → Type 0
Decides none s = s ≡ new_process
Decides (some u) s = (u ≡ s) × ((u ≡ excised) ⊎ (u ≡ friction) ⊎ (u ≡ recovery))

-- A member whose state is not returned at once.
abbrev GoesOn : List State → Option ℕ → Type 0
GoesOn states idx = (s : State) × (verdict states idx ≡ goes_on s)

open_verdict : (u : State) → LeavesOpen u → verdict_of (some u) ≡ goes_on u
unfolding verdict_of
open_verdict u h = grind arith

IsOpen-GoesOn : (states : List State) (idx : Option ℕ) → IsOpen states idx → GoesOn states idx
unfolding verdict
IsOpen-GoesOn states idx (s, e, h) = (s, ap verdict_of e ∙ open_verdict s h)

deciding_verdict : (o : Option State) (s : State) → Decides o s → verdict_of o ≡ returns s
unfolding verdict_of
deciding_verdict none s h = rw h refl
deciding_verdict (some u) s h = grind arith

aggregate_loop-first :
    (states : List State) (pre : List (Option ℕ)) (t : Tally) (bad : Option ℕ)
    (rest : List (Option ℕ)) (s : State)
    → All (GoesOn states) pre
    → verdict states bad ≡ returns s
    → aggregate_loop t states (pre ++ bad ∷ rest) ≡ s
unfolding aggregate_loop
aggregate_loop-first states [] t bad rest s g e = rw (e, aggregate_loop)
aggregate_loop-first states (i ∷ pre) t bad rest s ((u, h), g) e =
    rw (h, aggregate_loop) (aggregate_loop-first states pre (tally t u) bad rest s g e)

-- If the members before some member are all resolved and neither excised nor in friction nor in
-- recovery, and that one is, the group takes its state, and if that one is unresolved, NEW_PROCESS,
-- whatever the members behind it are: it is not the worst state that wins.
pub aggregate-first :
    (states : List State) (pre : List (Option ℕ)) (bad : Option ℕ) (rest : List (Option ℕ))
    (s : State)
    → All (IsOpen states) pre
    → Decides (member_state states bad) s
    → aggregate (pre ++ bad ∷ rest) states ≡ s
unfolding aggregate verdict
aggregate-first states [] bad rest s g d =
    aggregate_loop-first states [] tally_start bad rest s tt
      (deciding_verdict (member_state states bad) s d)
aggregate-first states (i ∷ pre) bad rest s g d =
    aggregate_loop-first states (i ∷ pre) tally_start bad rest s
      (All-map (IsOpen-GoesOn states) (i ∷ pre) g) (deciding_verdict (member_state states bad) s d)

-- A state that the loop returns early is not an up one; one that it goes on with is carried or
-- starting.
abbrev VerdictShape : Verdict → Type 0
VerdictShape (returns s) = ¬ IsUp s
VerdictShape (goes_on s) =
    CarriedBy (goes_on s) × ((state_eq s new_process || state_eq s full_trust) ≡ false)
    ⊎ (¬ CarriedBy (goes_on s)) × ((state_eq s new_process || state_eq s full_trust) ≡ true)

dormant_loop :
    (states : List State) (idxs : List (Option ℕ)) (t : Tally)
    → t ≡ record { any_starting = false; all_perfect = false; any_settled = false }
    → All (λ i. verdict states i ≡ goes_on dormant) idxs
    → aggregate_loop t states idxs ≡ fundamental
unfolding aggregate_loop conclude tally
dormant_loop states [] t e h = rw e
dormant_loop states (i ∷ idxs) t e (d, h) =
    rw (d, aggregate_loop) (dormant_loop states idxs (tally t dormant) (rw e) h)

-- A group with members that are all dormant, each parked after its last crash, is reported
-- fundamental.
pub aggregate-dormant :
    (states : List State) (idx : Option ℕ) (idxs : List (Option ℕ))
    → All (λ i. verdict states i ≡ goes_on dormant) (idx ∷ idxs)
    → aggregate (idx ∷ idxs) states ≡ fundamental
unfolding aggregate aggregate_loop tally
aggregate-dormant states idx idxs (d, h) =
    rw (d, aggregate_loop) (dormant_loop states idxs (tally tally_start dormant) refl h)

state_eq_refl : (s : State) → state_eq s s ≡ true
state_eq_refl fundamental = refl
state_eq_refl _ = refl

group_update-again :
    (states : List State) (g : Group)
    → group_update states (group_update states g).0 ≡ ((group_update states g).0, [])
unfolding group_update
group_update-again states g = elim (Bool-cases g.refused) [
  | inl r ↦ rw (r, group_update) refl
  | inr r ↦ rw (r, group_update) (rw (state_eq_refl (aggregate g.member_idx states)))
]

-- An update leaves nothing for a second one with the same service states: the groups stay as they
-- are and nothing is logged.
pub groups_update-groups_update :
    (gs : List Group) (states : List State)
    → groups_update (groups_update gs states).0 states ≡ ((groups_update gs states).0, [])
unfolding groups_update
groups_update-groups_update [] states = refl
groups_update-groups_update (g ∷ gs) states =
    rw (group_update-again states g) (rw (groups_update-groups_update gs states))
