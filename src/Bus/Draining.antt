-- ===== src/Bus/Draining.antt =====
-- Sending the queue loses no byte, sends none twice and keeps their order.
use schema_init.Prelude.{
  ℕ, zero, suc, ◌+◌, ◌-◌, ◌≤◌, ◌<◌, ◌≡◌, refl, sym, ap, ◌∙◌, ◌⊎◌, inl, inr, none, some, List, [],
  ◌∷◌, ◌++◌, arith, leb, ◌==◌, if◌then◌else◌, Bool-cases, Option-cases, length, get_elem?, set,
  take, drop, length-set, All, Bytes,
}
use mathlib.Core.List.{append_assoc}
use mathlib.Core.Path.{subst}
use schema_init.Bus.Backlog.{
  Chunk, Backlog, chunk_size, Sent, sent, again, broken, FlushEnd, drained, waits, fails, first_fds,
  after_send, next_chunk, flush_loop, flush_conn, flush_result,
}
use schema_init.Bus.Queued.{live, pending_bytes, pending_fds, cost, stream, handed_over, IsBacklog}

drop_at : (m n : ℕ) (xs : Bytes) → m ≡ n → drop m xs ≡ drop n xs
drop_at m n xs e = ap (λ k. drop k xs) e

drop-add : (m n : ℕ) (xs : Bytes) → drop n (drop m xs) ≡ drop (m + n) xs
drop-add zero n xs = drop_at n (0 + n) xs (omega arith)
drop-add (suc m) zero [] = drop_at (suc m) (suc m + 0) [] (omega arith)
drop-add (suc m) (suc n) [] = drop_at (suc (suc m + n)) (suc m + suc n) [] (omega arith)
drop-add (suc m) n (x ∷ xs) =
    drop-add m n xs ∙ drop_at (suc (m + n)) (suc m + n) (x ∷ xs) (omega arith)

take-drop : (n : ℕ) (xs : Bytes) → take n xs ++ drop n xs ≡ xs
take-drop zero xs = refl
take-drop (suc n) [] = refl
take-drop (suc n) (x ∷ xs) = ap (λ t. x ∷ t) (take-drop n xs)

drop_all : (n : ℕ) (xs : Bytes) → length xs ≤ n → drop n xs ≡ []
drop_all zero [] h = refl
drop_all zero (x ∷ xs) h = absurd (omega (arith, h))
drop_all (suc n) [] h = refl
drop_all (suc n) (x ∷ xs) h = drop_all n xs (omega (arith, h))

length-drop : (n : ℕ) (xs : Bytes) → length (drop n xs) ≡ length xs - n
length-drop zero xs = omega arith
length-drop (suc n) [] = omega arith
length-drop (suc n) (x ∷ xs) = omega (arith, length-drop n xs)

chunk_at :
    (xs : List Chunk) (h : ℕ) (x : Chunk)
    → get_elem? xs h ≡ some x
    → drop h xs ≡ x ∷ drop (suc h) xs
chunk_at [] h x e = cc
chunk_at (y ∷ ys) zero x e = cc
chunk_at (y ∷ ys) (suc h) x e = chunk_at ys h x e

chunk_set :
    (xs : List Chunk) (h : ℕ) (x y : Chunk)
    → get_elem? xs h ≡ some x
    → drop h (set xs h y) ≡ y ∷ drop (suc h) xs
chunk_set [] h x y e = cc
chunk_set (z ∷ zs) zero x y e = refl
chunk_set (z ∷ zs) (suc h) x y e = chunk_set zs h x y e

chunk_in : (xs : List Chunk) (h : ℕ) → h < length xs → get_elem? xs h ≡ none → ⊥
chunk_in [] h l e = omega (arith, l)
chunk_in (x ∷ xs) zero l e = cc
chunk_in (x ∷ xs) (suc h) l e = chunk_in xs h (omega (arith, l)) e

-- What sending leaves.
pub record Flushed (c c' : Backlog) : Type 0 where
  pub kept : IsBacklog c'
  pub bytes : stream c' ≡ stream c
  pub descriptors : handed_over c' ≡ handed_over c

-- `sendmsg` takes no more than it is given.
abbrev pub TakesItsOwn : (ℕ → Bytes → List ℕ → Sent) → Type 0
TakesItsOwn sendmsg =
    (k : ℕ) (b : Bytes) (fds : List ℕ) (n : ℕ) → sendmsg k b fds ≡ sent n → n ≤ length b

past_set : (xs : List Chunk) (h : ℕ) (y : Chunk) → drop (suc h) (set xs h y) ≡ drop (suc h) xs
past_set [] h y = refl
past_set (x ∷ xs) zero y = refl
past_set (x ∷ xs) (suc h) y = past_set xs h y

sent_on :
    (w b p : Bytes) (off n : ℕ)
    → (w ++ take n (drop off b)) ++ (drop (off + n) b ++ p) ≡ w ++ (drop off b ++ p)
sent_on w b p off n =
    let t = take n (drop off b) in
    append_assoc w t (drop (off + n) b ++ p)
    ∙ ap (λ x. w ++ x)
        (sym (append_assoc t (drop (off + n) b) p)
          ∙ ap (λ x. x ++ p) (ap (λ x. t ++ x) (sym (drop-add off n b)) ∙ take-drop n (drop off b)))

no_more_fds :
    (off n : ℕ) (fds : List ℕ) → (if off + n == 0 then (if off == 0 then [] else fds) else []) ≡ []
no_more_fds off n fds = ground arith

-- The chunk after `n` of its bytes are sent.
abbrev moved_on : Chunk → ℕ → Chunk
moved_on ch n = record ch { off = ch.off + n; fds = (if ch.off == 0 then [] else ch.fds) }

-- The chunk at the head, part of which the socket takes.
module _ (c : Backlog) (ch : Chunk) (n : ℕ) (ok : IsBacklog c)
    (at_head : get_elem? c.oq c.oq_head ≡ some ch) (own : n ≤ length (drop ch.off ch.b)) where
  rest : List Chunk
  rest = drop (suc c.oq_head) c.oq

  live_was : live c ≡ ch ∷ rest
  unfolding rest
  live_was = chunk_at c.oq c.oq_head ch at_head

  live_now : live (after_send c ch n) ≡ (moved_on ch n) ∷ rest
  unfolding rest after_send
  live_now = chunk_set c.oq c.oq_head ch (moved_on ch n) at_head

  live_next : live (next_chunk (after_send c ch n)) ≡ rest
  unfolding rest after_send
  live_next = past_set c.oq c.oq_head (moved_on ch n)

  was_counted : c.oq_bytes ≡ length ch.b - ch.off + chunk_size + cost rest
  was_counted = ok.counted ∙ ap cost live_was

  was_begun : (ch.off ≤ length ch.b) × All (λ x. x.off ≤ length x.b) rest
  was_begun = subst (λ xs. All (λ x. x.off ≤ length x.b) xs) live_was ok.begun

  more : Flushed c (after_send c ch n)
  unfolding after_send
  more = record {
    kept = record {
      head_in = omega (arith, ok.head_in, length-set c.oq c.oq_head (moved_on ch n));
      in_array = omega (arith, ok.in_array, length-set c.oq c.oq_head (moved_on ch n));
      counted = omega (arith, ap cost live_now, was_counted, own, length-drop ch.off ch.b);
      limit = omega (arith, ok.limit);
      begun =
          subst (λ xs. All (λ x. x.off ≤ length x.b) xs) (sym live_now)
            (omega (arith, own, length-drop ch.off ch.b, was_begun.0), was_begun.1);
    };
    bytes =
        ap (λ xs. (c.wire ++ take n (drop ch.off ch.b)) ++ pending_bytes xs) live_now
        ∙ (sent_on c.wire ch.b (pending_bytes rest) ch.off n
            ∙ ap (λ xs. c.wire ++ pending_bytes xs) (sym live_was));
    descriptors =
        ap (λ xs. (c.closed ++ first_fds ch) ++ pending_fds xs) live_now
        ∙ (ap (λ t. (c.closed ++ first_fds ch) ++ (t ++ pending_fds rest))
              (no_more_fds ch.off n ch.fds)
            ∙ (append_assoc c.closed (first_fds ch) (pending_fds rest)
                ∙ ap (λ xs. c.closed ++ pending_fds xs) (sym live_was)));
  }

  past :
      c.oq_head < length c.oq
      → length ch.b ≤ ch.off + n
      → Flushed c (next_chunk (after_send c ch n))
  unfolding after_send
  past inside whole = record {
    kept = record {
      head_in = omega (arith, inside, length-set c.oq c.oq_head (moved_on ch n));
      in_array = omega (arith, ok.in_array, length-set c.oq c.oq_head (moved_on ch n));
      counted = omega (arith, ap cost live_next, was_counted, own, length-drop ch.off ch.b, whole);
      limit = omega (arith, ok.limit);
      begun = subst (λ xs. All (λ x. x.off ≤ length x.b) xs) (sym live_next) was_begun.1;
    };
    bytes =
        ap (λ xs. (c.wire ++ take n (drop ch.off ch.b)) ++ pending_bytes xs) live_next
        ∙ (ap (λ t. (c.wire ++ take n (drop ch.off ch.b)) ++ (t ++ pending_bytes rest))
              (sym (drop_all (ch.off + n) ch.b whole))
            ∙ (sent_on c.wire ch.b (pending_bytes rest) ch.off n
                ∙ ap (λ xs. c.wire ++ pending_bytes xs) (sym live_was)));
    descriptors =
        ap (λ xs. (c.closed ++ first_fds ch) ++ pending_fds xs) live_next
        ∙ (append_assoc c.closed (first_fds ch) (pending_fds rest)
            ∙ ap (λ xs. c.closed ++ pending_fds xs) (sym live_was));
  }

Flushed-trans : {c d e : Backlog} → Flushed c d → Flushed d e → Flushed c e
Flushed-trans f g = record {
  kept = g.kept;
  bytes = g.bytes ∙ f.bytes;
  descriptors = g.descriptors ∙ f.descriptors;
}

-- Where the loop ends with an empty queue, the head is at the end.
abbrev Ended : Backlog → FlushEnd × Backlog → Type 0
Ended c r = Flushed c r.1 × (r.0 ≡ drained → live r.1 ≡ [])

stays : (c : Backlog) (e : FlushEnd) → IsBacklog c → (e ≡ drained → ⊥) → Ended c (e, c)
stays c e ok h = (record { kept = ok; bytes = refl; descriptors = refl }, λ d. absurd (h d))

drop_end : (h : ℕ) (xs : List Chunk) → length xs ≤ h → drop h xs ≡ []
drop_end zero [] l = refl
drop_end zero (x ∷ xs) l = absurd (omega (arith, l))
drop_end (suc h) [] l = refl
drop_end (suc h) (x ∷ xs) l = drop_end h xs (omega (arith, l))

Sent-cases : (s : Sent) → (s ≡ broken) ⊎ ((s ≡ again) ⊎ ((n : ℕ) × (s ≡ sent n)))
Sent-cases broken = inl refl
Sent-cases again = inr (inl refl)
Sent-cases (sent n) = inr (inr (n, refl))

module _ (sendmsg : ℕ → Bytes → List ℕ → Sent) (own : TakesItsOwn sendmsg) where
  flush_loop-Ended :
      (left : ℕ) (c : Backlog)
      → IsBacklog c
      → c.oq_head + left ≡ length c.oq
      → Ended c (flush_loop sendmsg left c)
  unfolding flush_loop after_send
  flush_loop-Ended zero c ok e = (
    record { kept = ok; bytes = refl; descriptors = refl },
    λ d. drop_end c.oq_head c.oq (omega (arith, e)),
  )
  flush_loop-Ended (suc left) c ok e = elim (Option-cases (get_elem? c.oq c.oq_head)) [
    | inl h ↦ absurd (chunk_in c.oq c.oq_head (omega (arith, e)) h)
    | inr (ch, h) ↦
        rw (h, flush_loop)
          (elim (Sent-cases (sendmsg left (drop ch.off ch.b) (first_fds ch))) [
            | inl s ↦ rw s (stays c fails ok (λ d. cc))
            | inr (inl s) ↦ rw s (stays c waits ok (λ d. cc))
            | inr (inr (n, s)) ↦
                let took = own left (drop ch.off ch.b) (first_fds ch) n s in
                rw s (elim (Bool-cases (leb (length ch.b) (ch.off + n))) [
                  | inr part ↦ rw part (more c ch n ok h took, λ d. absurd cc)
                  | inl whole ↦
                      let f = past c ch n ok h took (omega (arith, e)) (ground (arith, whole)) in
                      let r =
                        flush_loop-Ended left (next_chunk (after_send c ch n)) f.kept
                          (omega (arith, e, length-set c.oq c.oq_head (moved_on ch n))) in
                      rw whole (Flushed-trans f r.0, r.1)
                ])
          ])
  ]

  -- The queue after sending, emptied where nothing is left.
  flush_result-Flushed :
      (r : FlushEnd × Backlog) (c : Backlog) → Ended c r → Flushed c (flush_result r).1
  flush_result-Flushed (waits, d) c f = f.0
  flush_result-Flushed (fails, d) c f = f.0
  flush_result-Flushed (drained, d) c f = record {
    kept = record {
      head_in = omega arith;
      in_array = omega arith;
      counted = refl;
      limit = omega arith;
      begun = tt;
    };
    bytes = ap (λ xs. d.wire ++ pending_bytes xs) (sym (f.1 refl)) ∙ f.0.bytes;
    descriptors = ap (λ xs. d.closed ++ pending_fds xs) (sym (f.1 refl)) ∙ f.0.descriptors;
  }

  -- However a flush goes, and with whatever part of each message the socket takes, the bytes that it has
  -- got followed by those still queued stay the same, and so do the descriptors closed followed by those
  -- still to be sent; the queue stays within its array, with its bytes counted and within the limit. The
  -- socket is to take no more than it is given.
  pub flush_conn-Flushed : (c : Backlog) → IsBacklog c → Flushed c (flush_conn sendmsg c).1
  unfolding flush_conn
  flush_conn-Flushed c ok =
      flush_result-Flushed (flush_loop sendmsg (length c.oq - c.oq_head) c) c
        (flush_loop-Ended (length c.oq - c.oq_head) c ok (omega (arith, ok.head_in)))
