-- ===== src/Recorder.antt =====
-- recorder.h and recorder_logic.h: the flight recorder.
pub mod Events
pub mod Ring
pub mod Arrows
pub mod Culprits
pub mod Episodes
