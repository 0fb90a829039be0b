-- ===== src/Kv.antt =====
-- The key-value backend (mizzle/src/backend/kv).
pub mod Keys
pub mod Store
pub mod Txn
pub mod Refs
pub mod Repos
pub mod Graph
