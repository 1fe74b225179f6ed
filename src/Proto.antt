-- ===== src/Proto.antt =====
-- The protocol, src/r2proto.c.
pub mod Line
pub mod Mf
pub mod Backward
pub mod Forward
pub mod Clear
pub mod Incoming
pub mod Cas
pub mod Calls
pub mod Tone
pub mod Schedule
pub mod Session
pub mod Creation
pub mod Deletion
