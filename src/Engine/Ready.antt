-- ===== src/Engine/Ready.antt =====
-- The dependencies of a service, and what they leave for its F8 weight to decide.
use schema_init.Prelude.{
  ℕ, ◌+◌, ◌%◌, ◌^◌, ◌≡◌, refl, inl, inr, true, false, not, ◌||◌, some, List, [], ◌∷◌, arith, ltb,
  leb, if◌then◌else◌, Option-cases, one_if, get_elem?, Some,
}
use schema_init.Schema.{
  State, new_process, full_trust, recovery, Instance, schema_step, popcount, f8_bits,
}
use schema_init.Schema.Weights.{word, popcount-word}
use schema_init.Engine.Service.{Dep, Service, is_gone, deps_ready}
use schema_init.Engine.Probe.{Probed, probe_deps, service_probe_f8, mem_min_kb}
use schema_init.Engine.Weights.{word-lt, f8_list, probe_f8-word, mod-small}

-- The entries of a service whose dependency is critical and has been excised or parked.
abbrev pub IsBlocked : List Service → Dep → Type 0
IsBlocked table d =
    (i : ℕ) × (t : Service) × (d.dep_idx ≡ some i)
    × (get_elem? table i ≡ some t)
    × (is_gone t.inst.state ≡ true)
    × (t.critical ≡ true)

-- A service is not ready while a critical dependency of it is excised or dormant, wherever it stands
-- in the list and whatever the others do.
pub critical_blocks :
    (ds : List Dep) (table : List Service) (groups : List State)
    → Some (IsBlocked table) ds
    → deps_ready ds table groups ≡ false
unfolding deps_ready
critical_blocks [] table groups b = absurd b
critical_blocks (d ∷ ds) table groups (inl (i, t, e, f, g, c)) =
    rw (e, f, deps_ready) (rw g (rw c refl))
critical_blocks (d ∷ ds) table groups (inr b) = ground (arith, critical_blocks ds table groups b)

-- Once the dependencies are ready, the probe finds them present and stable.
pub ready_probe :
    (ds : List Dep) (table : List Service) (groups : List State)
    → deps_ready ds table groups ≡ true
    → probe_deps table ds true ≡ (true, true)
unfolding deps_ready probe_deps
ready_probe [] table groups r = refl
ready_probe (d ∷ ds) table groups r = elim (Option-cases d.dep_idx) [
  | inl e ↦ rw (e, probe_deps) refl
  | inr (i, e) ↦ elim (Option-cases (get_elem? table i)) [
    | inl f ↦ absurd (ground arith)
    | inr (t, f) ↦ rw (e, f, probe_deps) (ground (arith, ready_probe ds table groups))
  ]
]

-- What the weight of the probe counts, besides the dependencies: whether the binary exists, whether
-- it is executable, whether some memory is free, whether enough is, and the right to run.
abbrev pub found : Probed → Service → ℕ
found p s =
    one_if p.exec_exists
    + one_if p.exec_runs
    + one_if (ltb 0 p.mem_kb)
    + one_if (leb mem_min_kb p.mem_kb)
    + one_if (not s.needs_root || p.is_root)

probe_weight :
    (p : Probed) (s : Service) (table : List Service) (groups : List State)
    → deps_ready s.deps table groups ≡ true
    → popcount (f8_bits (service_probe_f8 p s table)) ≡ 3 + found p s
unfolding f8_list
probe_weight p s table groups r =
    let ws = f8_list p s table in
    let small : word ws % 2 ^ 8 ≡ word ws = mod-small (word ws) (2 ^ 8) (word-lt ws) in
    rw (probe_f8-word p s table) (
      rw small (
        rw (popcount-word ws (omega arith))
          (rw (ready_probe s.deps table groups r, f8_list) (ground arith))))

-- With the dependencies ready, `schema_step` moves a new service by its F8 word to FULL_TRUST exactly
-- when at least two of these hold: its binary exists, it is executable, some memory is free, enough
-- memory is free, it has the right to run. Otherwise it moves it to RECOVERY.
pub ready_trusted_iff :
    (p : Probed) (s : Service) (table : List Service) (groups : List State) (i : Instance)
    → deps_ready s.deps table groups ≡ true
    → i.state ≡ new_process
    → (schema_step i (service_probe_f8 p s table)).state
      ≡ (if leb 2 (found p s) then full_trust else recovery)
unfolding schema_step
ready_trusted_iff p s table groups i r e =
    let w = probe_weight p s table groups r in rw (e, schema_step) (rw w (ground arith))
