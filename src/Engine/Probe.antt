-- ===== src/Engine/Probe.antt =====
-- service.c: the flag words that the state machine weighs, built from the state of the system.
use schema_init.Prelude.{
  ℕ, suc, ◌+◌, Bool, true, false, not, ◌&&◌, ◌||◌, Option, none, some, List, [], ◌∷◌, ltb, leb,
  ◌==◌, if◌then◌else◌, length, get_elem?, drop, Bytes, codes, str_eq, starts_with,
}
use schema_init.Schema.{fundamental, perfect, state_eq}
use schema_init.Prelude.Flags.{flag_if}
use schema_init.Engine.Service.{Time, time_set, Dep, Service, is_stable, is_gone}

abbrev pub cooldown_secs : ℕ
cooldown_secs = 5

abbrev pub mem_min_kb : ℕ
mem_min_kb = 8192

-- What the probes read from the system.
pub record Probed : Type 0 where
  pub exec_exists : Bool
  pub exec_runs : Bool
  pub mem_kb : ℕ
  pub is_root : Bool
  pub now : Time

abbrev pub fallback_prefix : Bytes
fallback_prefix = codes "fallback:"

-- The inner loop of `service_fallback`: the first other service of that name, from index `j` on.
unfoldable pub find_other : ℕ → List Service → ℕ → Bytes → Option ℕ
find_other j [] self name = none
find_other j (t ∷ ts) self name =
    if not (j == self) && str_eq t.name name then some j else find_other (suc j) ts self name

-- `service_fallback` for the service at index `self`: the first card that names another service.
unfoldable pub service_fallback : List Bytes → List Service → ℕ → Option ℕ
unfolding find_other
service_fallback [] table self = none
service_fallback (c ∷ cs) table self =
    let rest = service_fallback cs table self in
    if starts_with fallback_prefix c
    then elim (find_other 0 table self (drop 9 c)) [ some j ↦ some j | none ↦ rest ]
    else rest

names_standby : List Bytes → Bytes → Bool
names_standby [] name = false
names_standby (c ∷ cs) name =
    starts_with fallback_prefix c && str_eq (drop 9 c) name || names_standby cs name

standby_from : ℕ → List Service → ℕ → Bytes → Bool
standby_from i [] self name = false
standby_from i (t ∷ ts) self name =
    not (i == self) && names_standby t.card name || standby_from (suc i) ts self name

-- `service_is_standby`: some other service has a card that names this one.
unfoldable pub service_is_standby : List Service → ℕ → Bytes → Bool
unfolding names_standby standby_from
service_is_standby table self name = standby_from 0 table self name

-- The dependency loop of `service_probe_f8`: `dep_ok` and `dep_stable`.
unfoldable pub probe_deps : List Service → List Dep → Bool → Bool × Bool
probe_deps table [] stable = (true, stable)
probe_deps table (d ∷ ds) stable = elim d.dep_idx [
  | none ↦ (true, stable)
  | some i ↦ elim (get_elem? table i) [
    | none ↦ (false, stable)
    | some t ↦
        if is_gone t.inst.state
        then if t.critical then (false, stable) else probe_deps table ds stable
        else probe_deps table ds (stable && is_stable t.inst.state)
  ]
]

unfoldable pub service_probe_f8 : Probed → Service → List Service → ℕ
service_probe_f8 p s table =
    let (dep_ok, dep_stable) = probe_deps table s.deps true in
    let hw = flag_if p.exec_runs 1 (flag_if p.exec_exists 0 0) in
    let deps = flag_if dep_stable 3 (flag_if dep_ok 2 hw) in
    let mem = flag_if (leb mem_min_kb p.mem_kb) 5 (flag_if (ltb 0 p.mem_kb) 4 deps) in
    flag_if (not s.needs_root || p.is_root) 7 (flag_if true 6 mem)

-- Whether the fallback exists, and whether it is up.
unfoldable pub fall_health : List Service → Option ℕ → Bool × Bool
fall_health table none = (false, false)
fall_health table (some j) = elim (get_elem? table j) [
  | none ↦ (false, false)
  | some fb ↦ (
    true,
    ltb 0 fb.child_pid && (state_eq fb.inst.state fundamental || state_eq fb.inst.state perfect),
  )
]

abbrev pub budget_left : Service → Bool
budget_left s = ltb s.restart_count s.max_restarts

abbrev pub card_in_hand : Service → Bool
card_in_hand s = ltb s.card_next (length s.card)

unfoldable pub service_probe_f9 : Probed → Service → List Service → ℕ → ℕ
service_probe_f9 p s table self =
    let (exists, healthy) = fall_health table (service_fallback s.card table self) in
    let cooled =
      not (time_set s.spawn_time_mono) || leb (s.spawn_time_mono.sec + cooldown_secs) p.now.sec in
    let retry = flag_if cooled 1 (flag_if (budget_left s) 0 0) in
    let fall = flag_if healthy 3 (flag_if exists 2 retry) in
    let mem = flag_if (leb mem_min_kb p.mem_kb) 5 (flag_if (ltb 0 p.mem_kb) 4 fall) in
    let esc = flag_if (card_in_hand s) 7 (flag_if (card_in_hand s) 6 mem) in
    flag_if (budget_left s) 9 (flag_if (budget_left s) 8 esc)

unfoldable pub service_probe_f6 : Probed → Service → ℕ
service_probe_f6 p s =
    let err = flag_if (leb mem_min_kb p.mem_kb) 1 (flag_if (budget_left s) 0 0) in
    flag_if true 5 (flag_if (budget_left s) 4 err)
