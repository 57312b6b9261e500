-- ===== src/Group/Load.antt =====
-- What the .grp files make of the group table: its bounds, and which groups are refused.
use schema_init.Prelude.{
  ℕ, ◌+◌, ◌≤◌, ◌<◌, ◌≡◌, refl, inl, inr, Bool, true, false, not, ◌&&◌, ◌||◌, Option, none, some,
  List, [], ◌∷◌, ◌++◌, arith, ltb, leb, ◌==◌, if◌then◌else◌, Bool-cases, Option-cases, one_if,
  length, take, length-take_le, length-append, All, Bytes, codes, str_eq, str_eq_iff,
}
use schema_init.Schema.{new_process}
use schema_init.Group.{
  Group, group_line, group_lines, group_key, split_at_eq, cut_newline, blank_group, is_grp, GrpFile,
  add_group, load_file, load_files, groups_load, max_members,
}

-- A loaded group before its first update: within the arrays' sizes, and with no member resolved.
pub record IsLoaded (g : Group) : Type 0 where
  pub name_fits : length g.name ≤ 63
  pub members_fit : length g.member_name ≤ max_members
  pub same_count : length g.member_idx ≡ length g.member_name
  pub unresolved : All (λ i. i ≡ none) g.member_idx
  pub starting : g.state ≡ new_process

All-concat {ℓ} :
    {A : Type ℓ} (P : A → Type 0) (xs : List A) (x : A) → All P xs → P x → All P (xs ++ x ∷ [])
All-concat P [] x h p = (p, tt)
All-concat P (y ∷ xs) x h p = (h.0, All-concat P xs x h.1 p)

group_key-IsLoaded : (g : Group) (key val : Bytes) → IsLoaded g → IsLoaded (group_key g key val)
unfolding group_key
group_key-IsLoaded g key val v =
    let names = length-append g.member_name (take 63 val ∷ []) in
    let idxs = length-append g.member_idx (none ∷ []) in
    let concat = All-concat (λ i. i ≡ none) g.member_idx none v.unresolved refl in
    ground (arith, names, idxs, concat, length-take_le 63 val)

group_line-IsLoaded : (g : Group) (l : Option Bytes) → IsLoaded g → IsLoaded (group_line g l)
unfolding group_line
group_line-IsLoaded g none v = v
group_line-IsLoaded g (some line) v = elim (Option-cases (split_at_eq line)) [
  | inl e ↦ rw (e, group_line) v
  | inr ((key, val), e) ↦ rw (e, group_line) (group_key-IsLoaded g key (cut_newline val) v)
]

group_lines-IsLoaded :
    (ls : List (Option Bytes)) (g : Group) → IsLoaded g → IsLoaded (group_lines g ls)
unfolding group_lines
group_lines-IsLoaded [] g v = v
group_lines-IsLoaded (l ∷ ls) g v =
    group_lines-IsLoaded ls (group_line g l) (group_line-IsLoaded g l v)

-- Whether a line declares a member.
pub is_member_line : Option Bytes → Bool
is_member_line none = false
is_member_line (some line) = elim (split_at_eq line) [
  | none ↦ false
  | some (key, val) ↦ str_eq key (codes "member")
]

abbrev pub member_lines : List (Option Bytes) → ℕ
member_lines [] = 0
member_lines (l ∷ ls) = one_if (is_member_line l) + member_lines ls

-- How a line moves the member count and the refusal.
abbrev Counted : Group → Bool → Group → Type 0
Counted g b h =
    (if b && leb max_members (length g.member_name)
      then (h.refused ≡ true) × (length h.member_name ≡ length g.member_name)
      else (h.refused ≡ g.refused) × (length h.member_name ≡ length g.member_name + one_if b))

name_ne_member :
    (key : Bytes) → str_eq key (codes "name") ≡ true → str_eq key (codes "member") ≡ false
name_ne_member key e = rw ((str_eq_iff key (codes "name")).0 e) (unfold str_eq in refl)

group_key-Counted :
    (g : Group) (key val : Bytes) → Counted g (str_eq key (codes "member")) (group_key g key val)
unfolding group_key
group_key-Counted g key val =
    ground (arith, name_ne_member key, length-append g.member_name (take 63 val ∷ []))

group_line-Counted : (g : Group) (l : Option Bytes) → Counted g (is_member_line l) (group_line g l)
unfolding group_line is_member_line
group_line-Counted g none = ground arith
group_line-Counted g (some line) = elim (Option-cases (split_at_eq line)) [
  | inl e ↦ rw (e, group_line, is_member_line) (ground arith)
  | inr ((key, val), e) ↦
      rw (e, group_line, is_member_line) (group_key-Counted g key (cut_newline val))
]

group_lines-refused :
    (ls : List (Option Bytes)) (g : Group)
    → length g.member_name ≤ max_members
    → (group_lines g ls).refused
      ≡ (g.refused || ltb max_members (length g.member_name + member_lines ls))
unfolding group_lines
group_lines-refused [] g h = ground arith
group_lines-refused (l ∷ ls) g h =
    ground (arith, group_line-Counted g l, group_lines-refused ls (group_line g l))

-- A group file is refused exactly when it has more than eight member lines.
pub file_refused_iff :
    (ls : List (Option Bytes))
    → (group_lines blank_group ls).refused ≡ ltb max_members (member_lines ls)
file_refused_iff ls = ground (arith, group_lines-refused ls blank_group (omega arith))

-- What holds of every group of the table.
abbrev pub TableOk : ℕ → List Group → Type 0
TableOk max table = (length table ≤ max) × All (λ g. IsLoaded g × (0 < length g.name)) table

blank-IsLoaded : IsLoaded blank_group
blank-IsLoaded = ground arith

add_group-TableOk :
    (max : ℕ) (table : List Group) (g : Group)
    → TableOk max table
    → length table < max
    → IsLoaded g
    → TableOk max (add_group table g)
add_group-TableOk max table g ok room v = elim (Bool-cases (length g.name == 0)) [
  | inl e ↦ rw e ok
  | inr e ↦ rw e (
    omega (arith, length-append {0} table (g ∷ []), ok.0),
    All-concat (λ h. IsLoaded h × (0 < length h.name)) table g ok.1 (v, ground arith),
  )
]

load_file-TableOk :
    (max : ℕ) (table : List Group) (f : GrpFile)
    → TableOk max table
    → TableOk max (load_file max table f)
unfolding load_file
load_file-TableOk max table f ok =
    elim (Bool-cases (not (is_grp f.file_name) || leb max (length table))) [
      | inl e ↦ rw (e, load_file) ok
      | inr e ↦ elim (Option-cases f.lines) [
        | inl n ↦ rw (e, n, load_file) ok
        | inr (ls, n) ↦
            rw (e, n, load_file)
              (add_group-TableOk max table (group_lines blank_group ls) ok (ground arith)
                (group_lines-IsLoaded ls blank_group blank-IsLoaded))
      ]
    ]

load_files-TableOk :
    (max : ℕ) (files : List GrpFile) (table : List Group)
    → TableOk max table
    → TableOk max (load_files max table files)
unfolding load_files
load_files-TableOk max [] table ok = ok
load_files-TableOk max (f ∷ fs) table ok =
    load_files-TableOk max fs (load_file max table f) (load_file-TableOk max table f ok)

-- Whatever the directory holds, at most `max` groups are loaded, and each has a name, at most eight
-- members, as many unresolved member indices, and the state new-process.
pub groups_load-TableOk :
    (max : ℕ) (dir : Option (List GrpFile)) → TableOk max (groups_load max dir)
unfolding groups_load
groups_load-TableOk max none = (omega arith, tt)
groups_load-TableOk max (some files) = load_files-TableOk max files [] (omega arith, tt)
