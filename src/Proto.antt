-- ===== src/Proto.antt =====
-- The wire protocol (mizzle-proto/src): packet lines, limits, and the requests a client sends.
pub mod Limits
pub mod Lines
pub mod Numbers
pub mod Command
pub mod LsRefs
pub mod Fetch
pub mod Receive
