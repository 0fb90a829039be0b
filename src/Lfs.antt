-- ===== src/Lfs.antt =====
-- Git LFS: object ids and pointer blobs (mizzle-proto/src/lfs.rs), the batch handler
-- (mizzle/src/lfs/batch.rs) and the transfer endpoints (mizzle/src/lfs/transfer.rs), over an
-- interface of the store.
pub mod Oid
pub mod Store
pub mod Batch
pub mod Transfer
pub mod Stored
pub mod Pointer
pub mod Written
