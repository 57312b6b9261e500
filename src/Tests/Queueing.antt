-- ===== src/Tests/Queueing.antt =====
-- sdbus_conn.h and schema-dbus.c: a message put into an empty queue, and a socket that takes part of it.
use schema_init.Prelude.{
  ℕ, ◌≤◌, ◌≡◌, refl, ap, false, List, [], ◌∷◌, arith, leb, if◌then◌else◌, length, Bytes, codes,
}
use schema_init.Bus.Backlog.{Backlog, Sent, sent, again, broken, conn_enqueue, flush_conn}
use schema_init.Bus.Queued.{IsBacklog, Queued, conn_enqueue-Queued}
use schema_init.Bus.Draining.{Flushed, TakesItsOwn, flush_conn-Flushed}

abbrev empty : Backlog
empty = record {
  oq = [];
  oq_head = 0;
  oq_cap = 0;
  oq_bytes = 0;
  oq_over = false;
  wire = [];
  closed = [];
}

empty-IsBacklog : IsBacklog empty
empty-IsBacklog = record {
  head_in = omega arith;
  in_array = omega arith;
  counted = refl;
  limit = omega arith;
  begun = tt;
}

-- A socket that takes at most three bytes at a time.
abbrev slow : ℕ → Bytes → List ℕ → Sent
slow k b fds = if leb (length b) 3 then sent (length b) else sent 3

abbrev amount : Sent → ℕ
amount (sent n) = n
amount again = 0
amount broken = 0

within : (l : ℕ) → amount (if leb l 3 then sent l else sent 3) ≤ l
within l = ground arith

slow-TakesItsOwn : TakesItsOwn slow
slow-TakesItsOwn k b fds n e = omega (arith, ap amount e, within (length b))

conn_enqueue-Queued_example :
    Queued empty (codes "hello") (7 ∷ []) (conn_enqueue empty (codes "hello") (7 ∷ []))
conn_enqueue-Queued_example = conn_enqueue-Queued empty (codes "hello") (7 ∷ []) empty-IsBacklog

part_sent : (flush_conn slow (conn_enqueue empty (codes "hello") (7 ∷ []))).1.wire ≡ codes "hel"
unfolding conn_enqueue flush_conn
part_sent = refl

flush_conn-Flushed_example :
    Flushed
      (conn_enqueue empty (codes "hello") (7 ∷ []))
      (flush_conn slow (conn_enqueue empty (codes "hello") (7 ∷ []))).1
flush_conn-Flushed_example =
    flush_conn-Flushed slow slow-TakesItsOwn (conn_enqueue empty (codes "hello") (7 ∷ []))
      (conn_enqueue-Queued empty (codes "hello") (7 ∷ []) empty-IsBacklog).kept
