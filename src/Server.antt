-- ===== src/Server.antt =====
-- The server's requests (mizzle/src/serve.rs and receive.rs), over a storage backend and an access
-- policy.
pub mod Snapshot
pub mod Policy
pub mod Push
pub mod Adverts
pub mod Routes
pub mod Fetch
pub mod Ssh
pub mod Upload
