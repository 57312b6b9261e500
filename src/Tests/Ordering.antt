-- ===== src/Tests/Ordering.antt =====
-- service.c: a chain of three services, and two that depend on each other.
use schema_init.Prelude.{ℕ, ◌≡◌, refl, none, some, List, [], ◌∷◌, Bytes, codes}
use schema_init.Engine.Service.{Service}
use schema_init.Engine.Cycles.{services_check_cycles, dfs}
use schema_init.Engine.Acyclic.{Verdict, services_check_cycles-Verdict}
use schema_init.Schema.{recovery}
use schema_init.Tests.Supervising.{camera}

abbrev waiting_on : Bytes → ℕ → Service
waiting_on who i = record (camera recovery 0) {
  name = who;
  deps = (record { name = who; dep_idx = some i; grp_idx = none }) ∷ [];
}

abbrev chain : List Service
chain = waiting_on (codes "a") 1 ∷ waiting_on (codes "b") 2 ∷ camera recovery 0 ∷ []

abbrev ring : List Service
ring = waiting_on (codes "a") 1 ∷ waiting_on (codes "b") 0 ∷ []

chain_runs : services_check_cycles chain ≡ some 0
unfolding services_check_cycles dfs
chain_runs = refl

ring_runs : services_check_cycles ring ≡ some 1
unfolding services_check_cycles dfs
ring_runs = refl

services_check_cycles-Verdict_example : Verdict ring (services_check_cycles ring)
services_check_cycles-Verdict_example = services_check_cycles-Verdict ring
