-- ===== src/Tests/Weighing.antt =====
-- schema.c: three observations too light for a service, and the theorems at them.
use schema_init.Prelude.{ℕ, ◌≡◌, refl, ◌⊎◌, List, [], ◌∷◌}
use schema_init.Schema.{excised, schema_instance_init, schema_step, popcount}
use schema_init.Schema.Traces.{run_steps, Condemned, Lost, excised_needs_failures}

abbrev doomed : List ℕ
doomed = 3 ∷ 1 ∷ 1 ∷ []

doomed_excised : (run_steps (schema_instance_init 7 1) doomed).state ≡ excised
unfolding run_steps schema_instance_init schema_step popcount
doomed_excised = refl

excised_needs_failures_example :
    Condemned (schema_instance_init 7 1) doomed ⊎ Lost (schema_instance_init 7 1) doomed
excised_needs_failures_example = excised_needs_failures 7 1 doomed doomed_excised
