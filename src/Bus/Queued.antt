-- ===== src/Bus/Queued.antt =====
-- The invariant of a connection's queue, and that putting a message into it keeps the invariant.
use schema_init.Prelude.{
  ℕ, zero, suc, ◌+◌, ◌-◌, ◌*◌, ◌≤◌, ◌<◌, ◌≡◌, refl, sym, ap, ◌∙◌, inl, inr, Bool, true, false, ◌&&◌,
  List, [], ◌∷◌, ◌++◌, arith, ltb, leb, ◌==◌, if◌then◌else◌, Bool-cases, length, take, drop,
  length-append, All, Bytes,
}
use mathlib.Core.List.{append_assoc}
use mathlib.Core.Path.{subst}
use schema_init.Bus.Rewrite.{append-nil}
use schema_init.Bus.Backlog.{
  Chunk, Backlog, max_outgoing_bytes, max_pending_fds, chunk_size, make_room, conn_enqueue,
}

-- The entries still to be sent.
abbrev pub live : Backlog → List Chunk
live c = drop c.oq_head c.oq

abbrev pub pending_bytes : List Chunk → Bytes
pending_bytes [] = []
pending_bytes (x ∷ xs) = drop x.off x.b ++ pending_bytes xs

abbrev pub pending_fds : List Chunk → List ℕ
pending_fds [] = []
pending_fds (x ∷ xs) = (if x.off == 0 then x.fds else []) ++ pending_fds xs

abbrev pub cost : List Chunk → ℕ
cost [] = 0
cost (x ∷ xs) = length x.b - x.off + chunk_size + cost xs

-- All that the peer has got and is to get, in order.
abbrev pub stream : Backlog → Bytes
stream c = c.wire ++ pending_bytes (live c)

-- The descriptors that are closed and those that are to be sent and then closed, in order.
abbrev pub handed_over : Backlog → List ℕ
handed_over c = c.closed ++ pending_fds (live c)

-- The entries lie within the array, and the count of bytes is that of the entries, within the limit.
pub record IsBacklog (c : Backlog) : Type 0 where
  pub head_in : c.oq_head ≤ length c.oq
  pub in_array : length c.oq ≤ c.oq_cap
  pub counted : c.oq_bytes ≡ cost (live c)
  pub limit : c.oq_bytes ≤ max_outgoing_bytes
  pub begun : All (λ x. x.off ≤ length x.b) (live c)

drop-append : (n : ℕ) (xs ys : List Chunk) → n ≤ length xs → drop n (xs ++ ys) ≡ drop n xs ++ ys
drop-append zero xs ys h = refl
drop-append (suc n) [] ys h = absurd (omega (arith, h))
drop-append (suc n) (x ∷ xs) ys h = drop-append n xs ys (omega (arith, h))

length-drop : (n : ℕ) (xs : List Chunk) → length (drop n xs) ≡ length xs - n
length-drop zero xs = omega arith
length-drop (suc n) [] = omega arith
length-drop (suc n) (x ∷ xs) = omega (arith, length-drop n xs)

pending_bytes-append :
    (xs ys : List Chunk) → pending_bytes (xs ++ ys) ≡ pending_bytes xs ++ pending_bytes ys
pending_bytes-append [] ys = refl
pending_bytes-append (x ∷ xs) ys =
    ap (λ t. drop x.off x.b ++ t) (pending_bytes-append xs ys)
    ∙ sym (append_assoc (drop x.off x.b) (pending_bytes xs) (pending_bytes ys))

pending_fds-append :
    (xs ys : List Chunk) → pending_fds (xs ++ ys) ≡ pending_fds xs ++ pending_fds ys
pending_fds-append [] ys = refl
pending_fds-append (x ∷ xs) ys =
    ap (λ t. (if x.off == 0 then x.fds else []) ++ t) (pending_fds-append xs ys)
    ∙ sym (append_assoc (if x.off == 0 then x.fds else []) (pending_fds xs) (pending_fds ys))

cost-append : (xs ys : List Chunk) → cost (xs ++ ys) ≡ cost xs + cost ys
cost-append [] ys = omega arith
cost-append (x ∷ xs) ys = omega (arith, cost-append xs ys)

All-append :
    (xs : List Chunk) (y : Chunk)
    → All (λ x. x.off ≤ length x.b) xs
    → y.off ≤ length y.b
    → All (λ x. x.off ≤ length x.b) (xs ++ y ∷ [])
All-append [] y h k = (k, tt)
All-append (x ∷ xs) y h k = (h.0, All-append xs y h.1 k)

-- What making room leaves as it was.
record Roomy (c c' : Backlog) : Type 0 where
  head_in : c'.oq_head ≤ length c'.oq
  space : length c'.oq < c'.oq_cap
  same_live : live c' ≡ live c
  same_bytes : c'.oq_bytes ≡ c.oq_bytes
  same_wire : c'.wire ≡ c.wire
  same_closed : c'.closed ≡ c.closed
  same_over : c'.oq_over ≡ c.oq_over

first_holds : (a b : Bool) → (a && b) ≡ true → a ≡ true
first_holds true b h = refl
first_holds false b h = h

grown_space : (cap n : ℕ) → n ≡ cap → n < (if cap == 0 then 16 else cap * 2)
grown_space cap n e = ground (arith, e)

moved_space :
    (h : ℕ) (xs : List Chunk) (cap : ℕ)
    → ltb 0 h ≡ true
    → length xs ≤ cap
    → h ≤ length xs
    → length (drop h xs) < cap
moved_space h xs cap some_gone room inside =
    ground (arith, some_gone, room, inside, length-drop h xs)

make_room-Roomy : (c : Backlog) → IsBacklog c → Roomy c (make_room c)
unfolding make_room
make_room-Roomy c ok = elim (Bool-cases (length c.oq == c.oq_cap)) [
  | inr full ↦ rw full (record {
    head_in = ok.head_in;
    space = grind (arith, full, ok.in_array);
    same_live = refl;
    same_bytes = refl;
    same_wire = refl;
    same_closed = refl;
    same_over = refl;
  })
  | inl full ↦ rw full (elim (Bool-cases (ltb 0 c.oq_head && leb (length c.oq) (c.oq_head * 2))) [
    | inr half ↦ rw half (record {
      head_in = ok.head_in;
      space = grown_space c.oq_cap (length c.oq) (grind (arith, full));
      same_live = refl;
      same_bytes = refl;
      same_wire = refl;
      same_closed = refl;
      same_over = refl;
    })
    | inl half ↦ rw half (record {
      head_in = omega arith;
      space =
          moved_space c.oq_head c.oq c.oq_cap
            (first_holds (ltb 0 c.oq_head) (leb (length c.oq) (c.oq_head * 2)) half)
            (omega (arith, ok.in_array)) ok.head_in;
      same_live = refl;
      same_bytes = refl;
      same_wire = refl;
      same_closed = refl;
      same_over = refl;
    })
  ])
]

-- What putting a message into the queue leaves, with room for it and without.
pub record Queued (c : Backlog) (b : Bytes) (fds : List ℕ) (c' : Backlog) : Type 0 where
  pub kept : IsBacklog c'
  pub taken :
      c.oq_bytes + length b + chunk_size ≤ max_outgoing_bytes
      → (c'.oq_over ≡ c.oq_over)
        × (stream c' ≡ stream c ++ b)
        × (handed_over c' ≡ handed_over c ++ take max_pending_fds fds)
  pub refused :
      max_outgoing_bytes < c.oq_bytes + length b + chunk_size
      → (c'.oq_over ≡ true)
        × (stream c' ≡ stream c)
        × (c'.closed ≡ c.closed ++ take max_pending_fds fds)

abbrev put_last : Backlog → Bytes → List ℕ → Backlog
put_last c1 b fds = record c1 {
  oq = c1.oq ++ record { b = b; off = 0; fds = take max_pending_fds fds } ∷ [];
  oq_bytes = c1.oq_bytes + (length b + chunk_size);
}

put_last-Queued :
    (c : Backlog) (b : Bytes) (fds : List ℕ) (ok : IsBacklog c) (c1 : Backlog)
    → Roomy c c1
    → c.oq_bytes + length b + chunk_size ≤ max_outgoing_bytes
    → Queued c b fds (put_last c1 b fds)
put_last-Queued c b fds ok c1 r fits =
    let last : Chunk = record { b = b; off = 0; fds = take max_pending_fds fds } in
    let split : live (put_last c1 b fds) ≡ live c ++ last ∷ [] =
      drop-append c1.oq_head c1.oq (last ∷ []) r.head_in ∙ ap (λ t. t ++ last ∷ []) r.same_live in
    record {
      kept = record {
        head_in = omega (arith, r.head_in, length-append c1.oq (last ∷ []));
        in_array = omega (arith, r.space, length-append c1.oq (last ∷ []));
        counted =
            omega
              (arith, r.same_bytes, ok.counted, ap cost split, cost-append (live c) (last ∷ []));
        limit = omega (arith, r.same_bytes, fits);
        begun =
            subst (λ xs. All (λ x. x.off ≤ length x.b) xs) (sym split)
              (All-append (live c) last ok.begun (omega arith));
      };
      refused = λ room. absurd (omega (arith, fits, room));
      taken = λ _. (
        r.same_over,
        ap (λ w. w ++ pending_bytes (live (put_last c1 b fds))) r.same_wire
            ∙ (ap (λ xs. c.wire ++ pending_bytes xs) split
                ∙ (ap (λ t. c.wire ++ t)
                      (pending_bytes-append (live c) (last ∷ [])
                        ∙ ap (λ t. pending_bytes (live c) ++ t) (append-nil b))
                    ∙ sym (append_assoc c.wire (pending_bytes (live c)) b))),
        ap (λ w. w ++ pending_fds (live (put_last c1 b fds))) r.same_closed
            ∙ (ap (λ xs. c.closed ++ pending_fds xs) split
                ∙ (ap (λ t. c.closed ++ t)
                      (pending_fds-append (live c) (last ∷ [])
                        ∙ ap (λ t. pending_fds (live c) ++ t)
                            (append-nil (take max_pending_fds fds)))
                    ∙ sym
                        (append_assoc c.closed (pending_fds (live c)) (take max_pending_fds fds)))),
      );
    }

-- A message that fits goes, with its descriptors, to the end of what the peer is to get; one that does
-- not leaves that as it was, marks the connection for reaping and closes its descriptors. Either way the queue stays within its array, which has grown or
-- moved when it was full, and its bytes are counted and within the limit.
pub conn_enqueue-Queued :
    (c : Backlog) (b : Bytes) (fds : List ℕ) → IsBacklog c → Queued c b fds (conn_enqueue c b fds)
unfolding conn_enqueue
conn_enqueue-Queued c b fds ok =
    elim (Bool-cases (ltb max_outgoing_bytes (c.oq_bytes + length b + chunk_size))) [
      | inl full ↦ rw full (record {
        kept = record {
          head_in = ok.head_in;
          in_array = ok.in_array;
          counted = ok.counted;
          limit = ok.limit;
          begun = ok.begun;
        };
        taken = λ room. absurd (ground (arith, full, room));
        refused = λ _. (refl, refl, refl);
      })
      | inr fits ↦
          rw fits
            (put_last-Queued c b fds ok (make_room c) (make_room-Roomy c ok) (ground (arith, fits)))
    ]
