-- ===== src/Bus/Backlog.antt =====
-- sdbus_conn.h and schema-dbus.c, the queue of messages that a connection has still to be sent.
use schema_init.Prelude.{
  ℕ, zero, suc, ◌+◌, ◌-◌, ◌*◌, Bool, true, false, ◌&&◌, none, some, List, [], ◌∷◌, ◌++◌, ltb, leb,
  ◌==◌, if◌then◌else◌, length, get_elem?, set, take, drop, Bytes,
}

-- A queued message: its bytes, how many of them are sent, and the descriptors that go with the first.
pub record Chunk : Type 0 where
  pub b : Bytes
  pub off : ℕ
  pub fds : List ℕ

-- `oq` holds the first `n_oq` entries of the array, of which those before `oq_head` are gone. `wire` is
-- what the socket has taken, and `closed` the descriptors closed, in order.
pub record Backlog : Type 0 where
  pub oq : List Chunk
  pub oq_head : ℕ
  pub oq_cap : ℕ
  pub oq_bytes : ℕ
  pub oq_over : Bool
  pub wire : Bytes
  pub closed : List ℕ

abbrev pub max_outgoing_bytes : ℕ
max_outgoing_bytes = 16 * 1024 * 1024

abbrev pub max_pending_fds : ℕ
max_pending_fds = 16

-- The size of a `sdbus_outchunk` where pointers take eight bytes and an int four.
abbrev pub chunk_size : ℕ
chunk_size = 88

-- Room for one more entry: the entries before the head go if they are half of all, else the array grows.
unfoldable pub make_room : Backlog → Backlog
make_room c =
    if length c.oq == c.oq_cap
    then (if ltb 0 c.oq_head && leb (length c.oq) (c.oq_head * 2)
        then record c { oq = drop c.oq_head c.oq; oq_head = 0 }
        else record c { oq_cap = (if c.oq_cap == 0 then 16 else c.oq_cap * 2) })
    else c

unfoldable pub conn_enqueue : Backlog → Bytes → List ℕ → Backlog
unfolding make_room
conn_enqueue c b fds =
    if ltb max_outgoing_bytes (c.oq_bytes + length b + chunk_size)
    then record c { oq_over = true; closed = c.closed ++ take max_pending_fds fds }
    else (let c1 = make_room c in
        record c1 {
          oq = c1.oq ++ record { b = b; off = 0; fds = take max_pending_fds fds } ∷ [];
          oq_bytes = c1.oq_bytes + (length b + chunk_size);
        })

-- What `sendmsg` answers: how many bytes it took, EAGAIN or EWOULDBLOCK, or another error.
pub data Sent : Type 0 where
  sent : ℕ → Sent
  again broken : Sent

-- The loop of `flush_conn` ends with an empty queue, with a socket that takes no more, or with an error.
pub data FlushEnd : Type 0 where
  drained waits fails : FlushEnd

-- The descriptors go with the first bytes.
abbrev pub first_fds : Chunk → List ℕ
first_fds ch = if ch.off == 0 then ch.fds else []

-- The chunk at the head after `n` of its bytes are sent.
unfoldable pub after_send : Backlog → Chunk → ℕ → Backlog
after_send c ch n = record c {
  oq =
      set c.oq c.oq_head
        (record ch { off = ch.off + n; fds = (if ch.off == 0 then [] else ch.fds) });
  oq_bytes = c.oq_bytes - n;
  wire = c.wire ++ take n (drop ch.off ch.b);
  closed = c.closed ++ first_fds ch;
}

abbrev pub next_chunk : Backlog → Backlog
next_chunk c = record c { oq_bytes = c.oq_bytes - chunk_size; oq_head = suc c.oq_head }

-- The answers of `sendmsg` are told apart by the number of chunks left.
unfoldable pub flush_loop : (ℕ → Bytes → List ℕ → Sent) → ℕ → Backlog → FlushEnd × Backlog
unfolding after_send
flush_loop sendmsg zero c = (drained, c)
flush_loop sendmsg (suc left) c = elim (get_elem? c.oq c.oq_head) [
  | none ↦ (drained, c)
  | some ch ↦ elim (sendmsg left (drop ch.off ch.b) (first_fds ch)) [
    | broken ↦ (fails, c)
    | again ↦ (waits, c)
    | sent n ↦ elim (leb (length ch.b) (ch.off + n)) [
      | true ↦ flush_loop sendmsg left (next_chunk (after_send c ch n))
      | false ↦ (waits, after_send c ch n)
    ]
  ]
]

-- Whether the connection is still sound, and its queue: an empty one gives its memory back.
abbrev pub flush_result : FlushEnd × Backlog → Bool × Backlog
flush_result (drained, c) = (true, record c { oq = []; oq_head = 0; oq_cap = 0; oq_bytes = 0 })
flush_result (waits, c) = (true, c)
flush_result (fails, c) = (false, c)

unfoldable pub flush_conn : (ℕ → Bytes → List ℕ → Sent) → Backlog → Bool × Backlog
unfolding flush_loop
flush_conn sendmsg c = flush_result (flush_loop sendmsg (length c.oq - c.oq_head) c)
