-- ===== src/Lib.antt =====
-- schema-init, a PID 1 and service supervisor with its own D-Bus broker: the state machine of a
-- service, groups, the supervision of a failing service, and the broker's names, policy and routing.
--
-- The parts and how they interact. Every service carries an instance of the state machine of
-- schema.c: in NEW_PROCESS, RECOVERY and FRICTION a word of observations is weighed by its number
-- of bits against a threshold. service.c makes these words (the probes F8, F9 and F6) from the
-- table of services and from the system; engine.c steps each service once per tick, counts its
-- restarts, plays its cards, parks it with a growing delay and at last trips its breaker. group.c
-- condenses the states of a group's members to one state, and a service waits for the services and
-- groups that it depends on. The broker (schema-dbus.c) keeps the owners of bus names in the
-- registry of sdbus_names.h; a message that it has parsed goes by the policy, the match rules, the
-- table of pending calls and that registry to its targets. Beside them stand the flight recorder (schema-recorder.c), which ranks
-- what it is told in a ring of events, the store of descriptors that PID 1 keeps for services, and
-- the boot guard of the Raspberry Pi wrapper.
--
-- Files and code:
--   * Schema (schema.h, schema.c): `State` is the state numbers, `Instance` the struct
--     schema_instance_t, `schema_step` the step; Schema/Weights, Schema/Graph and Schema/Traces
--     are about the count of bits, one step, and runs of steps.
--   * Group (group.h, group.c): `aggregate`, `groups_update` and `groups_load`; a directory is the
--     list of its entries, each with its lines. The theorems about them are in
--     Group/Aggregate and Group/Load.
--   * Names/Holders and Names/Registry (sdbus_names.h): the holders of one name and the registry;
--     an owner of -1 is `none`, and the transitions written through `out` are results. Names/Queue,
--     Names/Replies, Names/Ownership, Names/Disconnect and Names/Invariant hold the theorems.
--   * Bus/Match (sdbus_match.h), Bus/Replies (sdbus_reply.h), Bus/Policy and Bus/PolicyText
--     (sdbus_policy.h), Bus/Route (sdbus_route.h), Bus/Wire and Bus/Forward
--     (sdbus_wire.h, the parser and the writer): a match
--     rule and what it accepts, the table of pending calls, the verdict of a policy and the reader
--     of its text, the targets of a message, and the header of a message in a buffer. `Conn` is the
--     part of sdbus_conn that routing reads. strtol, getpwnam and getgrnam are arguments of the
--     policy reader. Bus/Rules, Bus/Pending, Bus/Verdicts, Bus/Delivery and Bus/Signals hold the
--     theorems on these; Bus/Reads, Bus/Loop and Bus/Header those on every
--     buffer; Bus/Values, Bus/Fields, Bus/Rewrite, Bus/Links, Bus/Forwarding, Bus/RoundTrip and
--     Bus/Start lead up to the round trip in Bus/Reforward.
--   * Bus/Backlog (sdbus_conn.h, schema-dbus.c): sdbus_conn_enqueue and flush_conn, with the array of
--     chunks, its head and capacity; what the socket takes and the descriptors closed are recorded in
--     the state. sendmsg is an argument. Bus/Queued and Bus/Draining hold the theorems. The loop of
--     flush_conn is recursion on the number of chunks left, as each round goes past one or ends it.
--   * Engine/Service and Engine/Probe (service.h, service.c): the fields of service_t that the
--     modelled code reads or writes, the bits of `flags` as Booleans, the hold of a retry,
--     service_deps_ready, service_fallback, service_is_standby and the three probes. What a probe
--     asks of the system (access, /proc/meminfo, geteuid, the clock) is the record `Probed`.
--   * Engine/Backoff, Engine/Cards and Engine/Tick (engine.c): park, engine_friction_verdict,
--     breaker_clear, play_card, fallback_up, fallback_down, stop_main with the binders, and the
--     RECOVERY, FRICTION and DORMANT branches of tick_service. A pointer to a service is its index;
--     signals and killed cgroups are a list of effects; forks answer from the record `Answers`.
--     Engine/Weights, Engine/Delays, Engine/Deck, Engine/Arc and Engine/Ready hold the theorems.
--   * Engine/Bind (engine.c): bind_tick and bind_snapshot_up, one pass of the loop by its steps;
--     Engine/Bound is about a pass, Engine/Stop about stop_main.
--   * Engine/Cycles (service.c): dfs and services_check_cycles. Engine/Turns, Engine/Painting,
--     Engine/Ranks, Engine/Ranked and Engine/Acyclic hold its theorem. The fuel of dfs is the number of
--     services and one more, as each nested call turns a white service gray.
--   * Engine/Wake (service.h): the deadlines for the main loop's poll, survival posture under memory
--     pressure, and the other arithmetic of that header.
--   * Engine/Poll (engine.c): get_poll_timeout, whose clocks, services and other globals are the fields
--     of `Loop`; `Waker` is a service with the fields of service_t that nothing else modelled reads. The
--     answer of the hook wake_due, which init.c may set, is a field too. Engine/Looks and Engine/Sleep
--     hold the theorem.
--   * Recorder/Events (recorder.h, recorder_logic.h): events, tiers and the ring, whose order
--     Recorder/Ring is about; Recorder/Arrows, Recorder/Culprits and Recorder/Episodes: which arrow
--     is shown, how often a culprit was seen, and pressure episodes with their hogs.
--   * Store (fdstore.h): the store is the list of its entries; Store/Limits is about its limits.
--   * BootGuard (pi_bootguard.h): the saved state and the decision; BootGuard/RoundTrip.
--
-- Bounds and fuel. Integers are natural numbers with the wrap-around written out where the source
-- has a narrow type (`dormant_count` is taken modulo 256); a left shift out of the range of a
-- 64-bit long, undefined in C, is `none`. popcount runs 32 rounds, one for each bit of its word.
-- Decimal numbers have at most 20 digits, more than a 32-bit counter has. `stop_main` calls itself
-- for a binder that is not held and holds it first, so the number of services and one more is fuel
-- enough (Engine/Stop). The loop over the fields of a message header goes on by at least three bytes
-- each turn, so the length of the header is fuel enough (Bus/Header); a read outside the buffer is a
-- result of its own there.
--
-- One reading of the clock serves a whole tick, where engine.c reads it again in park. Log lines
-- are left out, but for those that groups_update counts. Allocation failures, the control socket,
-- shared memory, spawning, the parser of .svc files and the other branches of tick_service are not
-- modelled; nor are the broker's sockets, its driver and its state at a
-- restart, the recorder's text lines and the sweep of the descriptor store.
pub mod Prelude
pub mod Schema
pub mod Group
pub mod Names
pub mod Engine
pub mod Bus
pub mod Recorder
pub mod Store
pub mod BootGuard
mod Tests
