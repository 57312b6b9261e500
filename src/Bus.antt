-- ===== src/Bus.antt =====
-- The D-Bus broker around the name registry: match rules, policy, pending replies, routing.
pub mod Match
pub mod Rules
pub mod Replies
pub mod Pending
pub mod Policy
pub mod PolicyText
pub mod Verdicts
pub mod Wire
pub mod Reads
pub mod Loop
pub mod Header
pub mod Backlog
pub mod Queued
pub mod Draining
pub mod Route
pub mod Delivery
pub mod Signals
pub mod Forward
pub mod Values
pub mod Fields
pub mod Rewrite
pub mod Links
pub mod Forwarding
pub mod RoundTrip
pub mod Start
pub mod Reforward
