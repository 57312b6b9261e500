-- ===== src/Names.antt =====
-- sdbus_names.h: the name registry of the D-Bus broker.
pub mod Holders
pub mod Registry
pub mod Queue
pub mod Replies
pub mod Ownership
pub mod Disconnect
pub mod Invariant
