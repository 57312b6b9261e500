-- ===== src/Engine.antt =====
-- service.c and engine.c: one supervised service, the probes that weigh it, and the recovery arc of
-- the engine's tick.
pub mod Service
pub mod Probe
pub mod Weights
pub mod Backoff
pub mod Cards
pub mod Tick
pub mod Delays
pub mod Deck
pub mod Arc
pub mod Stop
pub mod Wake
pub mod Poll
pub mod Looks
pub mod Sleep
pub mod Cycles
pub mod Turns
pub mod Painting
pub mod Ranks
pub mod Ranked
pub mod Acyclic
pub mod Bind
pub mod Bound
pub mod Ready
