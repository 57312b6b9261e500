-- ===== src/Group.antt =====
-- group.h and group.c: groups of services, the files that declare them and their aggregate state.

use schema_init.Prelude.{
  ℕ, zero, suc, ◌+◌, ◌-◌, ◌*◌, ◌/◌, ◌%◌, ◌^◌, ◌≤◌, ◌<◌, ◌≡◌, refl, sym, ap, ◌∙◌, ◌≢◌, ◌↔◌, ◌⊎◌, inl,
  inr, Bool, true, false, not, ◌&&◌, ◌||◌, Option, none, some, List, [], ◌∷◌, ◌++◌, map, arith, ltb,
  leb, ◌==◌, if◌then◌else◌, Bool-cases, Option-cases, one_if, ==_iff, length, get_elem?, set,
  replicate, take, drop, span, length-take_le, length-append, length-replicate, length-set,
  get_elem?-set_self, get_elem?-set_ne, All, Some, Bytes, codes, str_eq, str_eq_iff, starts_with,
}
pub mod Aggregate
pub mod Load
use schema_init.Schema.{
  State, fundamental, friction, settled, new_process, recovery, full_trust, perfect, excised,
  state_eq,
}

abbrev pub max_groups : ℕ
max_groups = 16

abbrev pub max_members : ℕ
max_members = 8

-- `member_name` and `member_idx` are the first `member_count` entries of the arrays; an index of -1,
-- a member that no service answers to, is `none`.
pub record Group : Type 0 where
  pub name : Bytes
  pub member_name : List Bytes
  pub member_idx : List (Option ℕ)
  pub state : State
  pub refused : Bool

-- What one pass of the loop in `aggregate` does with a member: return a state, or go on.
pub data Verdict : Type 0 where
  returns : State → Verdict
  goes_on : State → Verdict

-- `svc_states[idx]`, or the early return for an index out of range.
unfoldable pub member_state : List State → Option ℕ → Option State
member_state svc_states none = none
member_state svc_states (some idx) = get_elem? svc_states idx

pub verdict_of : Option State → Verdict
verdict_of none = returns new_process
verdict_of (some excised) = returns excised
verdict_of (some friction) = returns friction
verdict_of (some recovery) = returns recovery
verdict_of (some s) = goes_on s

unfoldable pub verdict : List State → Option ℕ → Verdict
unfolding member_state verdict_of
verdict svc_states idx = verdict_of (member_state svc_states idx)

-- The loop's three variables.
pub record Tally : Type 0 where
  pub any_starting : Bool
  pub all_perfect : Bool
  pub any_settled : Bool

pub tally : Tally → State → Tally
tally t s = record {
  any_starting = t.any_starting || state_eq s new_process || state_eq s full_trust;
  all_perfect = t.all_perfect && state_eq s perfect;
  any_settled = t.any_settled || state_eq s settled;
}

-- The tests behind the loop.
pub conclude : Tally → State
conclude t =
    if t.any_starting
    then new_process
    else if t.all_perfect
    then perfect
    else if t.any_settled
    then settled
    else fundamental

pub aggregate_loop : Tally → List State → List (Option ℕ) → State
aggregate_loop t svc_states [] = conclude t
aggregate_loop t svc_states (idx ∷ idxs) = elim (verdict svc_states idx) [
  | returns s ↦ s
  | goes_on s ↦ aggregate_loop (tally t s) svc_states idxs
]

abbrev pub tally_start : Tally
tally_start = record { any_starting = false; all_perfect = true; any_settled = false }

pub aggregate : List (Option ℕ) → List State → State
aggregate [] svc_states = perfect
aggregate (idx ∷ idxs) svc_states = aggregate_loop tally_start svc_states (idx ∷ idxs)

-- One group of `groups_update`, with the line that it logs if the state changed.
pub group_update : List State → Group → Group × List (Bytes × State)
group_update svc_states g =
    let now = if g.refused then excised else aggregate g.member_idx svc_states in
    let changed = not (state_eq now g.state) in
    (record g { state = now }, if changed then (g.name, now) ∷ [] else [])

pub groups_update : List Group → List State → List Group × List (Bytes × State)
groups_update [] svc_states = ([], [])
groups_update (g ∷ gs) svc_states =
    let (g', line) = group_update svc_states g in
    let (gs', lines) = groups_update gs svc_states in (g' ∷ gs', line ++ lines)

-- `strchr(line, '=')`: what stands before it and behind it.
unfoldable pub split_at_eq : Bytes → Option (Bytes × Bytes)
split_at_eq line = elim (span (λ c. c == b'=') line).1 [
  | [] ↦ none
  | _ ∷ val ↦ some ((span (λ c. c == b'=') line).0, val)
]

-- `val[strcspn(val, "\r\n")] = 0`.
unfoldable pub cut_newline : Bytes → Bytes
cut_newline val = (span (λ c. c == 13 || c == 10) val).0

-- The chain of `strcmp` on one `key=value` line; `strncpy` keeps 63 bytes.
unfoldable pub group_key : Group → Bytes → Bytes → Group
group_key g key val =
    if str_eq key (codes "name")
    then record g { name = take 63 val }
    else if str_eq key (codes "member")
    then if leb max_members (length g.member_name) then record g { refused = true } else record g {
      member_name = g.member_name ++ take 63 val ∷ [];
      member_idx = g.member_idx ++ none ∷ [];
    }
    else g

-- One line of a .grp file; `none` is a line that is too long, which is skipped.
unfoldable pub group_line : Group → Option Bytes → Group
group_line g none = g
group_line g (some line) = elim (split_at_eq line) [
  | none ↦ g
  | some (key, val) ↦ group_key g key (cut_newline val)
]

unfoldable pub group_lines : Group → List (Option Bytes) → Group
group_lines g [] = g
group_lines g (l ∷ ls) = group_lines (group_line g l) ls

abbrev pub blank_group : Group
blank_group = record {
  name = [];
  member_name = [];
  member_idx = [];
  state = new_process;
  refused = false;
}

-- `nlen < 5 || strcmp(ent->d_name + nlen - 4, ".grp") != 0`, negated.
unfoldable pub is_grp : Bytes → Bool
is_grp file = not (ltb (length file) 5) && str_eq (drop (length file - 4) file) (codes ".grp")

-- A directory entry: its name, and its lines if the file opens.
pub record GrpFile : Type 0 where
  pub file_name : Bytes
  pub lines : Option (List (Option Bytes))

abbrev pub add_group : List Group → Group → List Group
add_group table g = if length g.name == 0 then table else table ++ g ∷ []

-- The body of the `readdir` loop; the table holds the groups loaded so far.
unfoldable pub load_file : ℕ → List Group → GrpFile → List Group
load_file max table f =
    if not (is_grp f.file_name) || leb max (length table)
    then table
    else elim f.lines [ none ↦ table | some ls ↦ add_group table (group_lines blank_group ls) ]

-- `groups_load`; a directory that does not open is `none`.
unfoldable pub load_files : ℕ → List Group → List GrpFile → List Group
load_files max table [] = table
load_files max table (f ∷ fs) = load_files max (load_file max table f) fs

unfoldable pub groups_load : ℕ → Option (List GrpFile) → List Group
groups_load max none = []
groups_load max (some files) = load_files max [] files
