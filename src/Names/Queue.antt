-- ===== src/Names/Queue.antt =====
-- The holders of one name: what a request, a release and a disconnect do to the owner and the queue.
use schema_init.Prelude.{
  ℕ, zero, suc, ◌-◌, ◌≤◌, ◌≡◌, refl, sym, ap, ◌≢◌, ◌⊎◌, inl, inr, true, false, none, some, List, [],
  ◌∷◌, arith, ◌==◌, if◌then◌else◌, Bool-cases, Option-cases,
}
use schema_init.Names.Holders.{
  Holder, Outcome, request_holders, request_contended, request_indexed, release_holders,
  release_indexed, disconnect_holders, holder_index, holder_remove, set_flags, first_owner, holds,
}

-- No connection stands twice among the holders.
abbrev pub Distinct : List Holder → Type 0
Distinct [] = Unit
Distinct (h ∷ hs) = (holds hs h.conn_id ≡ false) × Distinct hs

-- The holders without a connection, the others in their order.
pub without : List Holder → ℕ → List Holder
without [] conn = []
without (h ∷ hs) conn = if h.conn_id == conn then without hs conn else h ∷ without hs conn

without-absent : (hs : List Holder) (conn : ℕ) → holds hs conn ≡ false → without hs conn ≡ hs
unfolding without holds
without-absent [] conn e = refl
without-absent (h ∷ hs) conn e = ground (arith, without-absent hs conn)

pub holds-without : (hs : List Holder) (conn : ℕ) → holds (without hs conn) conn ≡ false
unfolding without holds
holds-without [] conn = refl
holds-without (h ∷ hs) conn = ground (arith, holds-without hs conn)

holds-without_le :
    (hs : List Holder) (conn c : ℕ) → holds hs c ≡ false → holds (without hs conn) c ≡ false
unfolding without holds
holds-without_le [] conn c e = refl
holds-without_le (h ∷ hs) conn c e = ground (arith, holds-without_le hs conn c)

pub without-Distinct : (hs : List Holder) (conn : ℕ) → Distinct hs → Distinct (without hs conn)
unfolding without
without-Distinct [] conn d = tt
without-Distinct (h ∷ hs) conn d =
    ground (arith, without-Distinct hs conn, holds-without_le hs conn h.conn_id)

pub holder_index-none :
    (hs : List Holder) (i conn : ℕ) → holder_index i hs conn ≡ none → holds hs conn ≡ false
unfolding holder_index holds
holder_index-none [] i conn e = refl
holder_index-none (h ∷ hs) i conn e = ground (arith, holder_index-none hs (suc i) conn)

holder_index-le : (hs : List Holder) (i conn j : ℕ) → holder_index i hs conn ≡ some j → i ≤ j
unfolding holder_index
holder_index-le [] i conn j e = cc
holder_index-le (h ∷ hs) i conn j e = ground (arith, holder_index-le hs (suc i) conn j)

pub holder_index-holds :
    (hs : List Holder) (i conn j : ℕ) → holder_index i hs conn ≡ some j → holds hs conn ≡ true
unfolding holder_index holds
holder_index-holds [] i conn j e = cc
holder_index-holds (h ∷ hs) i conn j e = ground (arith, holder_index-holds hs (suc i) conn j)

remove-without :
    (hs : List Holder) (i conn j : ℕ)
    → Distinct hs
    → holder_index i hs conn ≡ some j
    → holder_remove hs (j - i) ≡ without hs conn
unfolding holder_index holder_remove without
remove-without [] i conn j d e = refl
remove-without (h ∷ hs) i conn j d e = elim (Bool-cases (h.conn_id == conn)) [
  | inl same ↦
      let at : j - i ≡ 0 = ground arith in
      let absent = without-absent hs conn in rw (at, same) (ground (arith, absent))
  | inr other ↦
      let later : holder_index (suc i) hs conn ≡ some j = rw other at e in
      let at : j - i ≡ suc (j - suc i) = omega (arith, holder_index-le hs (suc i) conn j later) in
      rw (at, other) (ap (◌∷◌ h) (remove-without hs (suc i) conn j d.1 later))
]

Index-cases :
    (hs : List Holder) (conn : ℕ)
    → (holder_index 0 hs conn ≡ none)
      ⊎ (holder_index 0 hs conn ≡ some 0)
      ⊎ ((j : ℕ) × (holder_index 0 hs conn ≡ some (suc j)))
Index-cases hs conn = elim (Option-cases (holder_index 0 hs conn)) [
  | inl e ↦ inl e
  | inr (zero, e) ↦ inr (inl e)
  | inr (suc j, e) ↦ inr (inr (j, e))
]

remove_index-without :
    (hs : List Holder) (conn j : ℕ)
    → Distinct hs
    → holder_index 0 hs conn ≡ some j
    → holder_remove hs j ≡ without hs conn
remove_index-without hs conn j d e =
    let at : j - 0 ≡ j = omega arith in rw at at (remove-without hs 0 conn j d e)

-- A release takes the connection out of the holders and leaves the others in their order; whoever
-- was next becomes the owner.
pub release-without :
    (hs : List Holder) (conn : ℕ)
    → Distinct hs
    → (release_holders hs conn).holders ≡ without hs conn
unfolding release_holders release_indexed
release-without [] conn d = unfold without in refl
release-without (h ∷ hs) conn d = elim (Option-cases (holder_index 0 (h ∷ hs) conn)) [
  | inl e ↦
      rw (e, release_holders, release_indexed)
        (sym (without-absent (h ∷ hs) conn (holder_index-none (h ∷ hs) 0 conn e)))
  | inr (zero, e) ↦
      rw (e, release_holders, release_indexed) (remove_index-without (h ∷ hs) conn 0 d e)
  | inr (suc j, e) ↦
      rw (e, release_holders, release_indexed) (remove_index-without (h ∷ hs) conn (suc j) d e)
]

-- A disconnect does the same to every entry.
pub disconnect-without :
    (hs : List Holder) (conn : ℕ)
    → Distinct hs
    → (disconnect_holders (holder_index 0 hs conn) hs conn).holders ≡ without hs conn
unfolding disconnect_holders
disconnect-without hs conn d = elim (Option-cases (holder_index 0 hs conn)) [
  | inl e ↦
      rw (e, disconnect_holders) (sym (without-absent hs conn (holder_index-none hs 0 conn e)))
  | inr (zero, e) ↦ rw (e, disconnect_holders) (remove_index-without hs conn 0 d e)
  | inr (suc j, e) ↦ rw (e, disconnect_holders) (remove_index-without hs conn (suc j) d e)
]

-- A transition is reported exactly when the owner changes, with the owner before and after.
abbrev pub Reports : {R : Type 0} → List Holder → Outcome R → Type 0
Reports hs o = elim o.change [
  | none ↦ first_owner o.holders ≡ first_owner hs
  | some (old, new) ↦ (old ≡ first_owner hs) × (new ≡ first_owner o.holders) × (old ≢ new)
]

pub first_owner-index_zero :
    (h : Holder) (hs : List Holder) (conn : ℕ)
    → holder_index 0 (h ∷ hs) conn ≡ some 0
    → h.conn_id ≡ conn
unfolding holder_index
first_owner-index_zero h hs conn e = ground (arith, holder_index-le hs 1 conn 0)

pub first_owner-index_suc :
    (h : Holder) (hs : List Holder) (conn j : ℕ)
    → holder_index 0 (h ∷ hs) conn ≡ some (suc j)
    → h.conn_id ≢ conn
unfolding holder_index
first_owner-index_suc h hs conn j e = ground arith

pub first_owner-absent :
    (hs : List Holder) (conn : ℕ) → holds hs conn ≡ false → first_owner hs ≢ some conn
unfolding holds first_owner
first_owner-absent [] conn e = ground arith
first_owner-absent (h ∷ hs) conn e = ground arith

pub release-Reports :
    (hs : List Holder) (conn : ℕ) → Distinct hs → Reports hs (release_holders hs conn)
unfolding release_holders release_indexed
release-Reports [] conn d = unfold first_owner in refl
release-Reports (h ∷ hs) conn d = elim (Option-cases (holder_index 0 (h ∷ hs) conn)) [
  | inl e ↦ rw (e, release_holders, release_indexed) refl
  | inr (zero, e) ↦
      let same = first_owner-index_zero h hs conn e in
      let gone = first_owner-absent hs conn in
      rw (e, release_holders, release_indexed)
        (unfold first_owner holder_remove in
          (ap some (sym same), refl, λ x. gone (rw same at d.0) (sym x)))
  | inr (suc j, e) ↦
      rw (e, release_holders, release_indexed) (unfold first_owner holder_remove in refl)
]

pub disconnect-Reports :
    (hs : List Holder) (conn : ℕ)
    → Distinct hs
    → Reports hs (disconnect_holders (holder_index 0 hs conn) hs conn)
unfolding disconnect_holders
disconnect-Reports [] conn d = unfold holder_index in refl
disconnect-Reports (h ∷ hs) conn d = elim (Option-cases (holder_index 0 (h ∷ hs) conn)) [
  | inl e ↦ rw (e, disconnect_holders) refl
  | inr (zero, e) ↦
      let same = first_owner-index_zero h hs conn e in
      let gone = first_owner-absent hs conn in
      rw (e, disconnect_holders)
        (unfold first_owner holder_remove in
          (ap some (sym same), refl, λ x. gone (rw same at d.0) (sym x)))
  | inr (suc j, e) ↦ rw (e, disconnect_holders) (unfold first_owner holder_remove in refl)
]

request_contended-Reports :
    (owner : Holder) (hs : List Holder) (new : Holder)
    → owner.conn_id ≢ new.conn_id
    → Reports (owner ∷ hs) (request_contended owner hs new)
unfolding request_contended first_owner
request_contended-Reports owner hs new ne = ground arith

pub request-Reports : (hs : List Holder) (new : Holder) → Reports hs (request_holders hs new)
unfolding request_holders request_indexed first_owner holds
request-Reports [] new = (refl, refl, λ e. cc)
request-Reports (owner ∷ hs) new = elim (Option-cases (holder_index 0 (owner ∷ hs) new.conn_id)) [
  | inl e ↦
      rw (e, request_holders, request_indexed)
        (request_contended-Reports owner hs new
          (ground (arith, holder_index-none (owner ∷ hs) 0 new.conn_id e)))
  | inr (zero, e) ↦ rw (e, request_holders, request_indexed) (unfold first_owner set_flags in refl)
  | inr (suc j, e) ↦ rw (e, request_holders, request_indexed) (unfold first_owner set_flags in refl)
]
