-- ===== src/Names/Holders.antt =====
-- sdbus_names.h, one name's holders: the primary owner first and the waiting queue behind it.
use schema_init.Prelude.{
  ℕ, zero, suc, Bool, false, ◌&&◌, ◌||◌, Option, none, some, List, [], ◌∷◌, ◌==◌, if◌then◌else◌,
  length, Bytes,
}
use schema_init.Prelude.Flags.{has_flag}

abbrev pub max_names_per_conn : ℕ
max_names_per_conn = 512

-- The bits of a request's flags: `SDBUS_REQ_ALLOW_REPLACEMENT` and so on.
abbrev pub allow_replacement : ℕ → Bool
allow_replacement flags = has_flag flags 0

abbrev pub replace_existing : ℕ → Bool
replace_existing flags = has_flag flags 1

abbrev pub do_not_queue : ℕ → Bool
do_not_queue flags = has_flag flags 2

pub data RequestReply : Type 0 where
  primary_owner in_queue exists already_owner : RequestReply

pub data ReleaseReply : Type 0 where
  released non_existent not_owner : ReleaseReply

-- A change of owner; `none` is the -1 of the source.
pub record Transition : Type 0 where
  pub name : Bytes
  pub old_owner : Option ℕ
  pub new_owner : Option ℕ

pub record Holder : Type 0 where
  pub conn_id : ℕ
  pub flags : ℕ

-- The loop of `sdbus__holder_index`, with the index of the list's head.
unfoldable pub holder_index : ℕ → List Holder → ℕ → Option ℕ
holder_index i [] conn = none
holder_index i (h ∷ hs) conn = if h.conn_id == conn then some i else holder_index (suc i) hs conn

unfoldable pub holder_insert : List Holder → ℕ → Holder → List Holder
holder_insert hs zero h = h ∷ hs
holder_insert [] (suc i) h = h ∷ []
holder_insert (x ∷ hs) (suc i) h = x ∷ holder_insert hs i h

unfoldable pub holder_remove : List Holder → ℕ → List Holder
holder_remove [] i = []
holder_remove (x ∷ hs) zero = hs
holder_remove (x ∷ hs) (suc i) = x ∷ holder_remove hs i

-- `e->holders[i].flags = flags`.
unfoldable pub set_flags : List Holder → ℕ → ℕ → List Holder
set_flags [] i f = []
set_flags (x ∷ hs) zero f = record x { flags = f } ∷ hs
set_flags (x ∷ hs) (suc i) f = x ∷ set_flags hs i f

-- `holders[0].conn_id`, or -1.
unfoldable pub first_owner : List Holder → Option ℕ
first_owner [] = none
first_owner (h ∷ hs) = some h.conn_id

-- What a request does to the holders of one name: the new list, the reply, and the old and new
-- owner if a transition is reported.
pub record Outcome (R : Type 0) : Type 0 where
  pub holders : List Holder
  pub reply : R
  pub change : Option (Option ℕ × Option ℕ)

abbrev pub outcome : {R : Type 0} → List Holder → R → Option (Option ℕ × Option ℕ) → Outcome R
outcome hs r c = record { holders = hs; reply = r; change = c }

-- The transition of the outcome, with the name filled in.
abbrev pub transitions : {R : Type 0} → Bytes → Outcome R → List Transition
transitions name o = elim o.change [
  | none ↦ []
  | some (old, new) ↦ record { name = name; old_owner = old; new_owner = new } ∷ []
]

-- Someone else owns the name, and the requester is not among the holders.
unfoldable pub request_contended : Holder → List Holder → Holder → Outcome RequestReply
unfolding holder_insert holder_remove
request_contended owner hs new =
    if replace_existing new.flags && allow_replacement owner.flags
    then outcome
        (if do_not_queue owner.flags
          then holder_insert (holder_remove (owner ∷ hs) 0) 0 new
          else holder_insert (owner ∷ hs) 0 new)
        primary_owner (some (some owner.conn_id, some new.conn_id))
    else if do_not_queue new.flags
    then outcome (owner ∷ hs) exists none
    else outcome (holder_insert (owner ∷ hs) (length (owner ∷ hs)) new) in_queue none

-- The requester may already own the name or wait for it: then only its flags change.
unfoldable pub request_indexed : Option ℕ → Holder → List Holder → Holder → Outcome RequestReply
unfolding request_contended set_flags
request_indexed none owner hs new = request_contended owner hs new
request_indexed (some zero) owner hs new =
    outcome (set_flags (owner ∷ hs) 0 new.flags) already_owner none
request_indexed (some (suc i)) owner hs new =
    outcome (set_flags (owner ∷ hs) (suc i) new.flags) in_queue none

unfoldable pub request_holders : List Holder → Holder → Outcome RequestReply
request_holders [] new = outcome (new ∷ []) primary_owner (some (none, some new.conn_id))
request_holders (owner ∷ hs) new =
    request_indexed (holder_index 0 (owner ∷ hs) new.conn_id) owner hs new

-- `sdbus_names_release` on the holders of the name.
unfoldable pub release_indexed : Option ℕ → List Holder → ℕ → Outcome ReleaseReply
unfolding holder_remove first_owner
release_indexed none hs conn = outcome hs not_owner none
release_indexed (some zero) hs conn =
    let rest = holder_remove hs 0 in outcome rest released (some (some conn, first_owner rest))
release_indexed (some (suc i)) hs conn = outcome (holder_remove hs (suc i)) released none

unfoldable pub release_holders : List Holder → ℕ → Outcome ReleaseReply
release_holders [] conn = outcome [] non_existent none
release_holders (h ∷ hs) conn = release_indexed (holder_index 0 (h ∷ hs) conn) (h ∷ hs) conn

-- The body of the loop in `sdbus_names_disconnect`, on the holders of one entry.
unfoldable pub disconnect_holders : Option ℕ → List Holder → ℕ → Outcome (Unit {0})
unfolding holder_remove first_owner
disconnect_holders none hs conn = outcome hs tt none
disconnect_holders (some zero) hs conn =
    let rest = holder_remove hs 0 in outcome rest tt (some (some conn, first_owner rest))
disconnect_holders (some (suc i)) hs conn = outcome (holder_remove hs (suc i)) tt none

unfoldable pub owns : List Holder → ℕ → Bool
owns [] conn = false
owns (h ∷ hs) conn = h.conn_id == conn

unfoldable pub holds : List Holder → ℕ → Bool
holds [] conn = false
holds (h ∷ hs) conn = h.conn_id == conn || holds hs conn
