-- ===== src/Sql.antt =====
-- The SQL backend (mizzle/src/backend/sql).
pub mod Table
pub mod Refs
