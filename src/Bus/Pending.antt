-- ===== src/Bus/Pending.antt =====
-- The pending replies: each call is answered at most once, by its callee, to its caller.
use schema_init.Prelude.{
  ℕ, if◌then◌else◌, ◌+◌, ◌-◌, ◌≤◌, ◌<◌, ◌≡◌, refl, ◌⊎◌, inl, inr, Bool, true, false, ◌&&◌, ◌||◌,
  Option, none, some, List, [], ◌∷◌, arith, ltb, ◌==◌, Bool-cases, one_if, All, Some,
}
use schema_init.Bus.Replies.{
  ReplyEnt, replies_put, replies_record, replies_match, replies_purge, replies_reap_expired,
  is_answer_to, dead, wanted, replies_next_deadline, next_deadline_from, earlier,
}

-- How many calls of `caller` to `callee` with a serial are pending.
abbrev pub pending : ℕ → ℕ → ℕ → List ReplyEnt → ℕ
pending callee caller serial [] = 0
pending callee caller serial (e ∷ es) =
    one_if (e.live && e.callee == callee && e.caller == caller && e.serial == serial)
    + pending callee caller serial es

pending_one : ReplyEnt → ℕ → ℕ → ℕ → ℕ
pending_one e c a s = one_if (e.live && e.callee == c && e.caller == a && e.serial == s)

replies_put-pending :
    (t : List ReplyEnt) (e : ReplyEnt) (c a s : ℕ)
    → pending c a s (replies_put t e) ≡ pending c a s t + pending_one e c a s
unfolding replies_put pending_one
replies_put-pending [] e c a s = omega arith
replies_put-pending (x ∷ xs) e c a s = elim (Bool-cases x.live) [
  | inl l ↦ rw l (omega (arith, replies_put-pending xs e c a s))
  | inr l ↦ rw l (omega arith)
]

-- Recording a call makes that call pending once more and changes no other.
pub replies_record-pending :
    (t : List ReplyEnt) (now callee serial caller c a s : ℕ)
    → pending c a s (replies_record t now callee serial caller)
      ≡ pending c a s t + one_if (callee == c && caller == a && serial == s)
unfolding replies_record pending_one
replies_record-pending t now callee serial caller c a s = replies_put-pending t _ c a s

-- What a reply does: with a caller found, one of its calls to the replier is pending no more.
abbrev pub Answered :
    ℕ → ℕ → Option ℕ → ℕ → ℕ → ℕ → List ReplyEnt → List ReplyEnt × Option ℕ → Type 0
Answered from reply_serial want c a s t (t', none) = pending c a s t' ≡ pending c a s t
Answered from reply_serial want c a s t (t', some caller) =
    (pending c a s t ≡ pending c a s t' + one_if (from == c && caller == a && reply_serial == s))
    × (wanted want caller ≡ true)

unanswered_skip :
    (e : ReplyEnt) (t : List ReplyEnt) (from reply_serial : ℕ) (want : Option ℕ) (c a s : ℕ)
    (r : List ReplyEnt × Option ℕ)
    → Answered from reply_serial want c a s t r
    → Answered from reply_serial want c a s (e ∷ t) (e ∷ r.0, r.1)
unanswered_skip e t from reply_serial want c a s (t', none) h = omega (arith, h)
unanswered_skip e t from reply_serial want c a s (t', some caller) h = (omega (arith, h.0), h.1)

pending_taken :
    (e : ReplyEnt) (es : List ReplyEnt) (from reply_serial : ℕ) (want : Option ℕ) (c a s : ℕ)
    → is_answer_to e from reply_serial want ≡ true
    → Answered from reply_serial want c a s (e ∷ es) (dead e ∷ es, some e.caller)
unfolding is_answer_to
pending_taken e es from reply_serial none c a s l = (ground arith, refl)
pending_taken e es from reply_serial (some w) c a s l = (ground arith, ground arith)

-- A reply with a caller ends one pending call of that caller to the replier with that serial, and no
-- other, and the caller is the wanted one if one is wanted; without a caller nothing changes.
pub replies_match-pending :
    (t : List ReplyEnt) (from reply_serial : ℕ) (want : Option ℕ) (c a s : ℕ)
    → Answered from reply_serial want c a s t (replies_match t from reply_serial want)
unfolding replies_match is_answer_to
replies_match-pending [] from reply_serial want c a s = refl
replies_match-pending (e ∷ es) from reply_serial want c a s =
    let ih = replies_match-pending es from reply_serial want c a s in
    elim (Bool-cases (is_answer_to e from reply_serial want)) [
      | inl l ↦ rw (l, replies_match) (pending_taken e es from reply_serial want c a s l)
      | inr l ↦
          rw (l, replies_match)
            (unanswered_skip e es from reply_serial want c a s
              (replies_match es from reply_serial want) ih)
    ]

abbrev pub found : Option ℕ → Bool
found none = false
found (some caller) = true

not_waiting :
    (e : ReplyEnt) (from reply_serial a : ℕ) (want : Option ℕ)
    → is_answer_to e from reply_serial want ≡ false
    → wanted want a ≡ true
    → pending_one e from a reply_serial ≡ 0
unfolding is_answer_to pending_one
not_waiting e from reply_serial a none l w = ground arith
not_waiting e from reply_serial a (some b) l w = ground arith

-- A reply to a pending call of a caller that may be meant finds a caller.
pub replies_match-found :
    (t : List ReplyEnt) (from reply_serial a : ℕ) (want : Option ℕ)
    → wanted want a ≡ true
    → 0 < pending from a reply_serial t
    → found (replies_match t from reply_serial want).1 ≡ true
unfolding replies_match pending_one
replies_match-found [] from reply_serial a want w h = absurd (omega (arith, h))
replies_match-found (e ∷ es) from reply_serial a want w h =
    elim (Bool-cases (is_answer_to e from reply_serial want)) [
      | inl l ↦ rw (l, replies_match) refl
      | inr l ↦
          rw (l, replies_match)
            (replies_match-found es from reply_serial a want w
              (omega (arith, h, not_waiting e from reply_serial a want l w)))
    ]

the_wanted :
    (from reply_serial w c a s : ℕ) (t : List ReplyEnt) (m : List ReplyEnt × Option ℕ)
    → found m.1 ≡ true
    → Answered from reply_serial (some w) c a s t m
    → m.1 ≡ some w
the_wanted from reply_serial w c a s t (t', none) f h = cc
the_wanted from reply_serial w c a s t (t', some caller) f h = ground (arith, h.1)

-- A reply meant for a caller with such a pending call finds this caller.
pub replies_match-wanted :
    (t : List ReplyEnt) (from reply_serial w : ℕ)
    → 0 < pending from w reply_serial t
    → (replies_match t from reply_serial (some w)).1 ≡ some w
replies_match-wanted t from reply_serial w h =
    the_wanted from reply_serial w from w reply_serial t
      (replies_match t from reply_serial (some w))
      (replies_match-found t from reply_serial w (some w) (ground arith) h)
      (replies_match-pending t from reply_serial (some w) from w reply_serial)

-- When a connection is purged, no call by it or to it stays pending, and every other call does.
pub replies_purge-pending :
    (t : List ReplyEnt) (conn c a s : ℕ)
    → pending c a s (replies_purge t conn) ≡ (if c == conn || a == conn then 0 else pending c a s t)
unfolding replies_purge
replies_purge-pending [] conn c a s = ground arith
replies_purge-pending (e ∷ es) conn c a s = ground (arith, replies_purge-pending es conn c a s)

-- A live entry's deadline is not before a bound.
abbrev pub DueFrom : ℕ → ReplyEnt → Type 0
DueFrom d e = (e.live && ltb e.deadline d) ≡ false

-- After a reap at a time every live entry's deadline lies after that time.
pub replies_reap_expired-DueFrom :
    (t : List ReplyEnt) (now max : ℕ) → All (DueFrom (now + 1)) (replies_reap_expired t now max).0
unfolding replies_reap_expired
replies_reap_expired-DueFrom [] now max = tt
replies_reap_expired-DueFrom (e ∷ es) now max =
    ground (
      arith,
      replies_reap_expired-DueFrom es now max,
      replies_reap_expired-DueFrom es now (max - 1),
    )

abbrev pub BestFrom : ℕ → Option ℕ → Type 0
BestFrom d none = Unit {0}
BestFrom d (some b) = d ≤ b

abbrev pub LiveAt : ℕ → ReplyEnt → Type 0
LiveAt d e = (e.live ≡ true) × (e.deadline ≡ d)

-- The earliest deadline of the live entries; none if no entry is live.
abbrev pub Earliest : List ReplyEnt → Option ℕ → Type 0
Earliest t none = All (λ e. e.live ≡ false) t
Earliest t (some d) = All (DueFrom d) t × Some (LiveAt d) t

-- The same, beside a deadline found before.
EarliestOf : Option ℕ → List ReplyEnt → Option ℕ → Type 0
EarliestOf best t none = All (λ e. e.live ≡ false) t × (best ≡ none)
EarliestOf best t (some d) =
    All (DueFrom d) t × BestFrom d best × ((best ≡ some d) ⊎ Some (LiveAt d) t)

deadline_skipped :
    (best : Option ℕ) (e : ReplyEnt) (es : List ReplyEnt) (r : Option ℕ)
    → (e.live && earlier best e.deadline) ≡ false
    → EarliestOf best es r
    → EarliestOf best (e ∷ es) r
unfolding EarliestOf
deadline_skipped none e es none l h = ((ground arith, h.0), h.1)
deadline_skipped (some b) e es none l h = cc
deadline_skipped none e es (some d) l (al, bf, inl p) = cc
deadline_skipped none e es (some d) l (al, bf, inr p) = ((ground arith, al), bf, inr (inr p))
deadline_skipped (some b) e es (some d) l (al, bf, inl p) = ((ground arith, al), bf, inl p)
deadline_skipped (some b) e es (some d) l (al, bf, inr p) = ((ground arith, al), bf, inr (inr p))

deadline_taken :
    (best : Option ℕ) (e : ReplyEnt) (es : List ReplyEnt) (r : Option ℕ)
    → (e.live && earlier best e.deadline) ≡ true
    → EarliestOf (some e.deadline) es r
    → EarliestOf best (e ∷ es) r
unfolding EarliestOf
deadline_taken best e es none l h = cc
deadline_taken none e es (some d) l (al, bf, inl p) =
    ((ground arith, al), tt, inr (inl (ground arith, cc)))
deadline_taken none e es (some d) l (al, bf, inr p) = ((ground arith, al), tt, inr (inr p))
deadline_taken (some b) e es (some d) l (al, bf, inl p) =
    ((ground arith, al), ground arith, inr (inl (ground arith, cc)))
deadline_taken (some b) e es (some d) l (al, bf, inr p) =
    ((ground arith, al), ground arith, inr (inr p))

next_deadline_from-EarliestOf :
    (best : Option ℕ) (t : List ReplyEnt) → EarliestOf best t (next_deadline_from best t)
unfolding next_deadline_from EarliestOf
next_deadline_from-EarliestOf none [] = (tt, refl)
next_deadline_from-EarliestOf (some b) [] = (tt, omega arith, inl refl)
next_deadline_from-EarliestOf best (e ∷ es) =
    elim (Bool-cases (e.live && earlier best e.deadline)) [
      | inl l ↦
          rw (l, next_deadline_from)
            (deadline_taken best e es (next_deadline_from (some e.deadline) es) l
              (next_deadline_from-EarliestOf (some e.deadline) es))
      | inr l ↦
          rw (l, next_deadline_from)
            (deadline_skipped best e es (next_deadline_from best es) l
              (next_deadline_from-EarliestOf best es))
    ]

start_empty : (t : List ReplyEnt) (r : Option ℕ) → EarliestOf none t r → Earliest t r
unfolding EarliestOf
start_empty t none h = h.0
start_empty t (some d) (al, bf, inl p) = cc
start_empty t (some d) (al, bf, inr p) = (al, p)

-- The next deadline is the earliest of the live entries, and there is none only if no entry is live.
pub replies_next_deadline-Earliest : (t : List ReplyEnt) → Earliest t (replies_next_deadline t)
unfolding replies_next_deadline
replies_next_deadline-Earliest t = start_empty t _ (next_deadline_from-EarliestOf none t)
