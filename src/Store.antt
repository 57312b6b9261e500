-- ===== src/Store.antt =====
-- fdstore.h: the descriptors that PID 1 keeps for its services across their restarts.
pub mod Limits
use schema_init.Prelude.{
  ℕ, zero, suc, ◌+◌, ◌-◌, ◌*◌, ◌/◌, ◌%◌, ◌^◌, ◌≤◌, ◌<◌, ◌≡◌, refl, sym, ap, ◌∙◌, ◌≢◌, ◌↔◌, ◌⊎◌, inl,
  inr, Bool, true, false, not, ◌&&◌, ◌||◌, Option, none, some, List, [], ◌∷◌, ◌++◌, map, arith, ltb,
  leb, ◌==◌, if◌then◌else◌, Bool-cases, Option-cases, one_if, ==_iff, length, get_elem?, set,
  replicate, take, drop, span, length-take_le, length-append, length-replicate, length-set,
  get_elem?-set_self, get_elem?-set_ne, All, Some, Bytes, codes, str_eq, str_eq_iff, str_eq_refl,
  starts_with,
}

pub record StoreEnt : Type 0 where
  pub svc : Bytes
  pub name : Bytes
  pub fd : ℕ

abbrev pub max_total : ℕ
max_total = 4096

abbrev pub headroom : ℕ
headroom = 256

abbrev pub is_name_byte : ℕ → Bool
is_name_byte c =
    leb b'A' c && leb c b'Z'
    || leb b'a' c && leb c b'z'
    || leb b'0' c && leb c b'9'
    || c == b'_'
    || c == b'.'
    || c == b'-'

unfoldable pub all_name_bytes : Bytes → Bool
all_name_bytes [] = true
all_name_bytes (c ∷ cs) = is_name_byte c && all_name_bytes cs

unfoldable pub fdstore_valid_name : Bytes → Bool
unfolding all_name_bytes
fdstore_valid_name name = leb 1 (length name) && leb (length name) 63 && all_name_bytes name

unfoldable pub fdstore_count : List StoreEnt → Bytes → ℕ
fdstore_count [] svc = 0
fdstore_count (e ∷ es) svc = one_if (str_eq e.svc svc) + fdstore_count es svc

-- `fdstore_room` under the soft limit; `none` is no limit, or a limit that cannot be read.
unfoldable pub fdstore_room : Option ℕ → ℕ → Bool
fdstore_room none fd = true
fdstore_room (some cur) fd = ltb (fd + headroom) cur

-- An empty name is the name "stored".
abbrev pub name_or_stored : Bytes → Bytes
name_or_stored name = if length name == 0 then codes "stored" else name

unfoldable pub refuses : Option ℕ → List StoreEnt → Bytes → ℕ → Bytes → ℕ → Bool
refuses limit store svc fd name max =
    max == 0
    || not (fdstore_room limit fd)
    || leb 64 (length svc)
    || not (fdstore_valid_name name)
    || leb max_total (length store)
    || leb max (fdstore_count store svc)

-- `fdstore_add`; `none` is the result -1. An allocation always succeeds.
unfoldable pub fdstore_add :
    Option ℕ → List StoreEnt → Bytes → ℕ → Bytes → ℕ → Option (List StoreEnt)
unfolding refuses
fdstore_add limit store svc fd name max =
    if refuses limit store svc fd (name_or_stored name) max
    then none
    else some (store ++ record { svc = svc; name = name_or_stored name; fd = fd } ∷ [])

-- The test of the loop in `fdstore_take`; no name stands for every name.
abbrev pub taken : StoreEnt → Bytes → Option Bytes → Bool
taken e svc name = str_eq e.svc svc && elim name [ none ↦ true | some n ↦ str_eq e.name n ]

-- `fdstore_take`: what is left, and the descriptors that are closed.
unfoldable pub fdstore_take : List StoreEnt → Bytes → Option Bytes → List StoreEnt × List ℕ
fdstore_take [] svc name = ([], [])
fdstore_take (e ∷ es) svc name =
    let (left, gone) = fdstore_take es svc name in
    if taken e svc name then (left, e.fd ∷ gone) else (e ∷ left, gone)

unfoldable pub fdstore_remove : List StoreEnt → Bytes → Bytes → List StoreEnt × List ℕ
fdstore_remove store svc name = fdstore_take store svc (some name)

unfoldable pub fdstore_drop : List StoreEnt → Bytes → List StoreEnt × List ℕ
fdstore_drop store svc = fdstore_take store svc none

unfoldable pub fdstore_collect : List StoreEnt → Bytes → ℕ → List (ℕ × Bytes)
fdstore_collect es svc zero = []
fdstore_collect [] svc (suc max) = []
fdstore_collect (e ∷ es) svc (suc max) =
    let skip = fdstore_collect es svc (suc max) in
    let next = fdstore_collect es svc max in
    if str_eq e.svc svc then (e.fd, e.name) ∷ next else skip

-- One name more for LISTEN_FDNAMES, with a colon in front of all but the first; `none` is a name that
-- does not fit the buffer of `n` bytes with its final zero.
unfoldable pub join_name : ℕ → Option Bytes → Bytes → Option Bytes
join_name n none nm = if ltb n (length nm + 1) then none else some nm
join_name n (some out) nm =
    if ltb n (length out + length nm + 1 + 1) then none else some (out ++ (b':' ∷ nm))

unfoldable pub socket_names : ℕ → Bytes → ℕ → Option Bytes → Option (Option Bytes)
unfolding join_name
socket_names n svc zero out = some out
socket_names n svc (suc k) out = elim (join_name n out (svc ++ codes ".socket")) [
  | none ↦ none
  | some out' ↦ socket_names n svc k (some out')
]

unfoldable pub stored_names : ℕ → Bytes → List StoreEnt → Option Bytes → Option (Option Bytes)
unfolding join_name
stored_names n svc [] out = some out
stored_names n svc (e ∷ es) out =
    let skip = stored_names n svc es out in
    if not (str_eq e.svc svc) then skip else elim (join_name n out e.name) [
      | none ↦ none
      | some out' ↦ stored_names n svc es (some out')
    ]

abbrev pub or_empty : Option Bytes → Bytes
or_empty none = []
or_empty (some out) = out

-- `fdstore_fdnames`; the names in `tmp` are cut to 79 bytes, which a service's name of at most 63
-- bytes never needs.
unfoldable pub fdstore_fdnames : List StoreEnt → Bytes → ℕ → ℕ → Option Bytes
unfolding socket_names stored_names
fdstore_fdnames store svc listen_open n = elim (socket_names n svc listen_open none) [
  | none ↦ none
  | some out ↦ elim (stored_names n svc store out) [
    | none ↦ none
    | some names ↦ if n == 0 then none else some (or_empty names)
  ]
]
