-- ===== src/Tests.antt =====
-- Runs of the modelled code on concrete inputs, and the theorems at inputs that meet their hypotheses.
mod Weighing
mod Grouping
mod Registering
mod Supervising
mod Binding
mod Recording
mod Keeping
mod Waking
mod Routing
mod Wiring
mod Ordering
mod Queueing
