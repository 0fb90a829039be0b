-- ===== src/Auth.antt =====
-- What the access policy sees of a push: the comparison (mizzle/src/auth.rs), its data
-- (auth_types.rs) and the payloads of signatures (sigverify.rs).
pub mod Types
pub mod Signature
pub mod Comparison
