-- ===== src/Tests/Grouping.antt =====
-- group.c on a few members and one directory.
use schema_init.Prelude.{
  ℕ, ◌≡◌, refl, inl, inr, arith, false, Option, none, some, List, [], ◌∷◌, Bytes, codes, str_eq,
}
use schema_init.Schema.{State, fundamental, friction, excised, dormant, settled, new_process}
use schema_init.Group.{
  Group, verdict, member_state, aggregate, groups_load, group_lines, GrpFile, is_grp, load_file,
  load_files, group_line, group_key, split_at_eq, cut_newline,
}
use schema_init.Group.Aggregate.{LeavesOpen, aggregate-first, aggregate-dormant}
use schema_init.Group.Load.{TableOk, groups_load-TableOk}

abbrev states : List State
states = settled ∷ friction ∷ excised ∷ dormant ∷ []

abbrev members : List (Option ℕ)
members = some 0 ∷ some 1 ∷ some 2 ∷ []

settled_open : LeavesOpen settled
settled_open = grind arith

aggregate-first_example : aggregate members states ≡ friction
unfolding member_state
aggregate-first_example =
    aggregate-first states (some 0 ∷ []) (some 1) (some 2 ∷ []) friction
      ((settled, refl, settled_open), tt) (refl, inr (inl refl))

aggregate-dormant_example : aggregate (some 3 ∷ some 3 ∷ []) states ≡ fundamental
unfolding verdict
aggregate-dormant_example = aggregate-dormant states (some 3) (some 3 ∷ []) (refl, (refl, tt))

abbrev lines : List (Option Bytes)
lines = some (codes "name=audio\r\n") ∷ none ∷ some (codes "member=pipewire\n") ∷ []

abbrev audio : GrpFile
audio = record { file_name = codes "audio.grp"; lines = some lines }

abbrev notes : GrpFile
notes = record { file_name = codes "notes.txt"; lines = some lines }

abbrev audio_group : Group
audio_group = record {
  name = codes "audio";
  member_name = codes "pipewire" ∷ [];
  member_idx = none ∷ [];
  state = new_process;
  refused = false;
}

groups_load-audio : groups_load 16 (some (notes ∷ audio ∷ [])) ≡ audio_group ∷ []
unfolding groups_load load_files load_file is_grp group_lines group_line group_key split_at_eq
    cut_newline str_eq
groups_load-audio = refl

groups_load-TableOk_example : TableOk 1 (groups_load 1 (some (audio ∷ audio ∷ [])))
groups_load-TableOk_example = groups_load-TableOk 1 (some (audio ∷ audio ∷ []))
