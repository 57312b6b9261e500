-- ===== src/Engine/Cycles.antt =====
-- service.c, the search for cycles of dependencies in three colours.
use schema_init.Prelude.{
  ℕ, zero, suc, ◌+◌, Bool, true, false, Option, none, some, List, [], ◌∷◌, length, get_elem?, set,
  replicate,
}
use schema_init.Engine.Service.{Dep, Service}

pub data Color : Type 0 where
  white gray black : Color

-- The array of colours and the count of cycles that `dfs` writes.
pub record Search : Type 0 where
  pub color : List Color
  pub cycles : ℕ

abbrev pub paint : Search → ℕ → Color → Search
paint st node c = record st { color = set st.color node c }

abbrev pub deps_of : List Service → ℕ → List Dep
deps_of table node = elim (get_elem? table node) [ none ↦ [] | some s ↦ s.deps ]

-- One dependency; an index of -1 or out of range is skipped. `none` is the end of the fuel.
unfoldable pub visit_dep : (ℕ → Search → Option Search) → Option ℕ → Search → Option Search
visit_dep rec none st = some st
visit_dep rec (some dep) st = elim (get_elem? st.color dep) [
  | none ↦ some st
  | some c ↦ elim c [
    | gray ↦ some (record st { cycles = st.cycles + 1 })
    | white ↦ rec dep st
    | black ↦ some st
  ]
]

unfoldable pub visit_deps : (ℕ → Search → Option Search) → List Dep → Search → Option Search
unfolding visit_dep
visit_deps rec [] st = some st
visit_deps rec (d ∷ ds) st = elim (visit_dep rec d.dep_idx st) [
  | none ↦ none
  | some st' ↦ visit_deps rec ds st'
]

-- `dfs` nests at most as deep as there are white nodes.
unfoldable pub dfs : ℕ → List Service → ℕ → Search → Option Search
unfolding visit_deps
dfs zero table node st = none
dfs (suc fuel) table node st =
    elim (visit_deps (dfs fuel table) (deps_of table node) (paint st node gray)) [
      | none ↦ none
      | some st' ↦ some (paint st' node black)
    ]

abbrev pub is_white : Option Color → Bool
is_white none = false
is_white (some gray) = false
is_white (some black) = false
is_white (some white) = true

-- The loop over all services, with the rounds left.
unfoldable pub check_from : List Service → ℕ → ℕ → Search → Option Search
check_from table zero i st = some st
check_from table (suc k) i st = elim (is_white (get_elem? st.color i)) [
  | false ↦ check_from table k (suc i) st
  | true ↦ elim (dfs (suc (length table)) table i st) [
    | none ↦ none
    | some st' ↦ check_from table k (suc i) st'
  ]
]

unfoldable pub services_check_cycles : List Service → Option ℕ
unfolding check_from
services_check_cycles table =
    elim (check_from table (length table) 0
      (record { color = replicate (length table) white; cycles = 0 })) [
        | none ↦ none
        | some st ↦ some st.cycles
      ]
