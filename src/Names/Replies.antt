-- ===== src/Names/Replies.antt =====
-- What the reply to RequestName promises about the holders of the name.
use schema_init.Prelude.{
  ℕ, zero, suc, ◌≡◌, refl, ap, ◌≢◌, ◌⊎◌, inl, inr, true, false, ◌||◌, none, some, List, [], ◌∷◌,
  map, arith, ◌==◌, Option-cases, length,
}
use schema_init.Names.Holders.{
  RequestReply, primary_owner, in_queue, exists, already_owner, Holder, request_holders,
  request_contended, request_indexed, holder_index, holder_insert, set_flags, first_owner, holds,
}
use schema_init.Prelude.Flags.{has_flag}
use schema_init.Names.Queue.{
  Distinct, holder_index-none, holder_index-holds, first_owner-index_zero, first_owner-index_suc,
}

holds-insert_end :
    (hs : List Holder) (new : Holder) (c : ℕ)
    → holds (holder_insert hs (length hs) new) c ≡ (holds hs c || new.conn_id == c)
unfolding holder_insert holds
holds-insert_end [] new c = ground arith
holds-insert_end (h ∷ hs) new c = ground (arith, holds-insert_end hs new c)

insert_end-Distinct :
    (hs : List Holder) (new : Holder)
    → Distinct hs
    → holds hs new.conn_id ≡ false
    → Distinct (holder_insert hs (length hs) new)
unfolding holder_insert holds
insert_end-Distinct [] new d e = (refl, tt)
insert_end-Distinct (h ∷ hs) new d e =
    ground (arith, insert_end-Distinct hs new d.1, holds-insert_end hs new h.conn_id)

module _ (f : ℕ) where
  holds-set_flags : (hs : List Holder) (i c : ℕ) → holds (set_flags hs i f) c ≡ holds hs c
  unfolding set_flags holds
  holds-set_flags [] i c = refl
  holds-set_flags (h ∷ hs) zero c = refl
  holds-set_flags (h ∷ hs) (suc i) c = ground (arith, holds-set_flags hs i c)

  set_flags-Distinct : (hs : List Holder) (i : ℕ) → Distinct hs → Distinct (set_flags hs i f)
  unfolding set_flags
  set_flags-Distinct [] i d = tt
  set_flags-Distinct (h ∷ hs) zero d = d
  set_flags-Distinct (h ∷ hs) (suc i) d =
      ground (arith, set_flags-Distinct hs i d.1, holds-set_flags hs i h.conn_id)

  conn_ids-set_flags :
      (hs : List Holder) (i : ℕ)
      → map (λ (h : Holder). h.conn_id) (set_flags hs i f) ≡ map (λ (h : Holder). h.conn_id) hs
  unfolding set_flags
  conn_ids-set_flags [] i = refl
  conn_ids-set_flags (h ∷ hs) zero = refl
  conn_ids-set_flags (h ∷ hs) (suc i) = ap (◌∷◌ h.conn_id) (conn_ids-set_flags hs i)

-- A request keeps the holders free of duplicates.
contended-Distinct :
    (owner : Holder) (hs : List Holder) (new : Holder)
    → Distinct (owner ∷ hs)
    → holds (owner ∷ hs) new.conn_id ≡ false
    → Distinct (request_contended owner hs new).holders
unfolding request_contended holds
contended-Distinct owner hs new d e =
    let queued = insert_end-Distinct (owner ∷ hs) new d e in ground (arith, queued, e)

pub request-Distinct :
    (hs : List Holder) (new : Holder) → Distinct hs → Distinct (request_holders hs new).holders
unfolding request_holders request_indexed
request-Distinct [] new d = (unfold holds in refl, tt)
request-Distinct (owner ∷ hs) new d =
    elim (Option-cases (holder_index 0 (owner ∷ hs) new.conn_id)) [
      | inl e ↦
          rw (e, request_holders, request_indexed)
            (contended-Distinct owner hs new d (holder_index-none (owner ∷ hs) 0 new.conn_id e))
      | inr (zero, e) ↦
          rw (e, request_holders, request_indexed) (set_flags-Distinct new.flags (owner ∷ hs) 0 d)
      | inr (suc j, e) ↦
          rw (e, request_holders, request_indexed)
            (set_flags-Distinct new.flags (owner ∷ hs) (suc j) d)
    ]

-- Someone else owns the name, lets others replace it, and the request asks to.
abbrev pub GivesWay : List Holder → ℕ → Type 0
GivesWay [] flags = ⊥
GivesWay (owner ∷ hs) flags = (has_flag owner.flags 0 ≡ true) × (has_flag flags 1 ≡ true)

-- What each reply says of the holders before and after and of the request `new`. Bit 0 of the flags is
-- ALLOW_REPLACEMENT, bit 1 REPLACE_EXISTING and bit 2 DO_NOT_QUEUE.
abbrev pub Meaning : RequestReply → List Holder → List Holder → Holder → Type 0
Meaning primary_owner before after new =
    (first_owner after ≡ some new.conn_id)
    × (holds before new.conn_id ≡ false)
    × ((before ≡ []) ⊎ GivesWay before new.flags)
Meaning already_owner before after new =
    (first_owner after ≡ some new.conn_id) × (first_owner before ≡ some new.conn_id)
Meaning in_queue before after new =
    (holds after new.conn_id ≡ true)
    × (first_owner after ≡ first_owner before)
    × (first_owner after ≢ some new.conn_id)
    × ((holds before new.conn_id ≡ true)
        ⊎ (has_flag new.flags 2 ≡ false) × (GivesWay before new.flags → ⊥))
Meaning exists before after new =
    (after ≡ before)
    × (holds before new.conn_id ≡ false)
    × (first_owner before ≢ none)
    × (has_flag new.flags 2 ≡ true)
    × (GivesWay before new.flags → ⊥)

contended-Meaning :
    (owner : Holder) (hs : List Holder) (new : Holder)
    → holds (owner ∷ hs) new.conn_id ≡ false
    → Meaning
        (request_contended owner hs new).reply
        (owner ∷ hs)
        (request_contended owner hs new).holders
        new
unfolding request_contended first_owner holds
contended-Meaning owner hs new e = ground (arith, e, holds-insert_end hs new new.conn_id)

-- A requester that is told that it is the primary owner owns the name now and did not hold it, which
-- nobody owned or whose owner allowed to be replaced by a request that asks to. One that is told that
-- it is the owner already was and is. One that is told that it is in the queue is among the holders
-- behind the same owner as before, and it was among them before, or it lets itself be queued and the
-- owner does not give way. One that is told that the name exists changes nothing and does not hold
-- it, asked not to be queued, and the owner does not give way.
pub request-Meaning :
    (hs : List Holder) (new : Holder)
    → Meaning (request_holders hs new).reply hs (request_holders hs new).holders new
unfolding request_holders request_indexed
request-Meaning [] new = (unfold first_owner in refl, unfold holds in refl, inl refl)
request-Meaning (owner ∷ hs) new = elim (Option-cases (holder_index 0 (owner ∷ hs) new.conn_id)) [
  | inl e ↦
      rw (e, request_holders, request_indexed)
        (contended-Meaning owner hs new (holder_index-none (owner ∷ hs) 0 new.conn_id e))
  | inr (zero, e) ↦
      let same = ap some (first_owner-index_zero owner hs new.conn_id e) in
      rw (e, request_holders, request_indexed) (unfold first_owner set_flags in (same, same))
  | inr (suc j, e) ↦
      let ne = first_owner-index_suc owner hs new.conn_id j e in
      let held = holder_index-holds (owner ∷ hs) 0 new.conn_id (suc j) e in
      rw (e, request_holders, request_indexed)
        (rw (holds-set_flags new.flags (owner ∷ hs) (suc j) new.conn_id)
          (unfold first_owner set_flags in (held, refl, λ x. ne (ground (arith, x)), inl held)))
]

-- A connection that waits for a name is never moved by its own request, whatever flags it carries:
-- it is told that it is in the queue, and the order of the holders is as before. Asking to replace
-- the owner has no effect from the queue, and neither has asking not to be queued.
pub request_from_queue :
    (hs : List Holder) (new : Holder)
    → holds hs new.conn_id ≡ true
    → first_owner hs ≢ some new.conn_id
    → ((request_holders hs new).reply ≡ in_queue)
      × (map (λ (h : Holder). h.conn_id) (request_holders hs new).holders
          ≡ map (λ (h : Holder). h.conn_id) hs)
      × ((request_holders hs new).change ≡ none)
unfolding request_holders request_indexed
request_from_queue [] new held ne = absurd (unfold holds in ground arith)
request_from_queue (owner ∷ hs) new held ne =
    elim (Option-cases (holder_index 0 (owner ∷ hs) new.conn_id)) [
      | inl e ↦
          let absent = holder_index-none (owner ∷ hs) 0 new.conn_id e in
          absurd (ground (arith, absent))
      | inr (zero, e) ↦
          absurd
            (ne (unfold first_owner in ap some (first_owner-index_zero owner hs new.conn_id e)))
      | inr (suc j, e) ↦
          rw (e, request_holders, request_indexed)
            (refl, conn_ids-set_flags new.flags (owner ∷ hs) (suc j), refl)
    ]
