-- ===== src/Names/Registry.antt =====
-- sdbus_names.h, the registry: the entries of all names and the unique names of the connections.
use schema_init.Prelude.{
  ℕ, ◌+◌, ◌%◌, ◌^◌, Bool, Option, none, some, List, [], ◌∷◌, ◌++◌, ltb, ◌==◌, if◌then◌else◌, one_if,
  length, Bytes, codes, str_eq,
}
use schema_init.Prelude.Decimal.{print_decimal}
use schema_init.Names.Holders.{
  RequestReply, ReleaseReply, Transition, Holder, Outcome, request_holders, release_holders,
  holder_index, disconnect_holders, first_owner, owns, holds, transitions,
}

pub record NameEnt : Type 0 where
  pub name : Bytes
  pub holders : List Holder

pub record UniqueEnt : Type 0 where
  pub conn_id : ℕ
  pub unique : Bytes

pub record Names : Type 0 where
  pub names : List NameEnt
  pub uniques : List UniqueEnt
  pub next_unique : ℕ

unfoldable pub names_new : Names
names_new = record { names = []; uniques = []; next_unique = 1 }

unfoldable pub name_find : List NameEnt → Bytes → Option NameEnt
name_find [] name = none
name_find (e ∷ es) name = if str_eq e.name name then some e else name_find es name

-- `sdbus__name_intern`: the entry is appended with no holder if it is not there.
unfoldable pub name_intern : List NameEnt → Bytes → List NameEnt
name_intern es name = elim (name_find es name) [
  | some e ↦ es
  | none ↦ es ++ record { name = name; holders = [] } ∷ []
]

-- Writing through the entry that `name_find` points to.
unfoldable pub put_holders : List NameEnt → Bytes → List Holder → List NameEnt
put_holders [] name hs = []
put_holders (e ∷ es) name hs =
    if str_eq e.name name then record e { holders = hs } ∷ es else e ∷ put_holders es name hs

-- The holders of a name, `[]` if it has no entry.
unfoldable pub holders_of : List NameEnt → Bytes → List Holder
unfolding name_find
holders_of es name = elim (name_find es name) [ none ↦ [] | some e ↦ e.holders ]

unfoldable pub names_request : Names → ℕ → Bytes → ℕ → Names × RequestReply × List Transition
names_request r conn name flags =
    let es = name_intern r.names name in
    let o = request_holders (holders_of es name) (record { conn_id = conn; flags = flags }) in
    (record r { names = put_holders es name o.holders }, o.reply, transitions name o)

unfoldable pub names_release : Names → ℕ → Bytes → Names × ReleaseReply × List Transition
names_release r conn name =
    let o = release_holders (holders_of r.names name) conn in
    (record r { names = put_holders r.names name o.holders }, o.reply, transitions name o)

unfoldable pub names_owner : Names → Bytes → Option ℕ
unfolding first_owner
names_owner r name = first_owner (holders_of r.names name)

-- `snprintf(buf, sizeof buf, ":1.%u", r->next_unique++)`; the counter is 32 bits wide.
unfoldable pub names_alloc_unique : Names → ℕ → Names × Bytes
names_alloc_unique r conn =
    let u = codes ":1." ++ print_decimal r.next_unique in
    (
      record r {
        uniques = r.uniques ++ record { conn_id = conn; unique = u } ∷ [];
        next_unique = (r.next_unique + 1) % 2 ^ 32;
      },
      u,
    )

-- The body of the loop in `sdbus_names_disconnect`, on one entry.
unfoldable pub disconnect_ent : NameEnt → ℕ → Outcome (Unit {0})
unfolding disconnect_holders
disconnect_ent e conn = disconnect_holders (holder_index 0 e.holders conn) e.holders conn

-- The loop over the entries; a transition is written only while there is room for it.
unfoldable pub disconnect_loop :
    List NameEnt → ℕ → ℕ → List Transition → List NameEnt × List Transition
unfolding disconnect_ent
disconnect_loop [] conn max out = ([], out)
disconnect_loop (e ∷ es) conn max out =
    let o = disconnect_ent e conn in
    let new = transitions e.name o in
    let (es', out') =
      disconnect_loop es conn max (if ltb (length out) max then out ++ new else out) in
    (record e { holders = o.holders } ∷ es', out')

-- `r->uniques[i] = r->uniques[--r->n_uniques]` at the first entry of the connection.
abbrev pub last_or : UniqueEnt → List UniqueEnt → UniqueEnt
last_or u [] = u
last_or u (v ∷ vs) = last_or v vs

abbrev pub but_last : List UniqueEnt → List UniqueEnt
but_last [] = []
but_last (u ∷ []) = []
but_last (u ∷ v ∷ vs) = u ∷ but_last (v ∷ vs)

unfoldable pub forget_unique : List UniqueEnt → ℕ → List UniqueEnt
forget_unique [] conn = []
forget_unique (u ∷ []) conn = if u.conn_id == conn then [] else u ∷ []
forget_unique (u ∷ v ∷ us) conn =
    if u.conn_id == conn then last_or v us ∷ but_last (v ∷ us) else u ∷ forget_unique (v ∷ us) conn

unfoldable pub names_disconnect : Names → ℕ → ℕ → Names × List Transition
unfolding disconnect_loop forget_unique
names_disconnect r conn max =
    let (es, out) = disconnect_loop r.names conn max [] in
    (record r { names = es; uniques = forget_unique r.uniques conn }, out)

-- `sdbus_names_list` and `sdbus_names_owned_by`.
unfoldable pub names_list : List NameEnt → List Bytes
names_list [] = []
names_list (e ∷ es) = if length e.holders == 0 then names_list es else e.name ∷ names_list es

unfoldable pub names_owned_by : List NameEnt → ℕ → List Bytes
unfolding owns
names_owned_by [] conn = []
names_owned_by (e ∷ es) conn =
    if owns e.holders conn then e.name ∷ names_owned_by es conn else names_owned_by es conn

unfoldable pub names_holds : Names → ℕ → Bytes → Bool
unfolding holds
names_holds r conn name = holds (holders_of r.names name) conn

unfoldable pub names_count_held : List NameEnt → ℕ → ℕ
unfolding holds
names_count_held [] conn = 0
names_count_held (e ∷ es) conn = one_if (holds e.holders conn) + names_count_held es conn

unfoldable pub names_unique : List UniqueEnt → ℕ → Option Bytes
names_unique [] conn = none
names_unique (u ∷ us) conn = if u.conn_id == conn then some u.unique else names_unique us conn
