-- ===== src/Lfs/Store.antt =====
-- What LFS takes from outside: `LfsStore` of mizzle/src/lfs/mod.rs, and the application's
-- `authorize_lfs`. `handle` opens the repository of the request.
use mizzle.Base.Result.{Result}
use mizzle.Base.{ℕ, Bytes, List, Option, some, ok, ◌≡◌}
use mizzle.Lfs.Oid.{LfsOid}

pub data Operation : Type 0 where
  download : Operation
  upload : Operation

-- `LfsWriteError`
pub data LfsWriteError : Type 0 where
  hash_mismatch : LfsWriteError
  size_mismatch : LfsWriteError
  io_error : Bytes → LfsWriteError

-- A time is in nanoseconds.
pub data TransferAction : Type 0 where
  proxy : TransferAction
  redirect : Bytes → List (Bytes × Bytes) → Option ℕ → TransferAction

-- A write that succeeds stores the object with the size that was asked for, and leaves the
-- repository open to be opened.
pub record LfsStore : Type 1 where
  pub State : Type 0
  pub Repo : Type 0
  pub handle : State → Result Bytes Repo
  pub stat : State → Repo → LfsOid → Result Bytes (Option ℕ)
  pub download_action : State → Repo → LfsOid → ℕ → Result Bytes TransferAction
  pub upload_action : State → Repo → LfsOid → ℕ → Result Bytes TransferAction
  pub read : State → Repo → LfsOid → Result Bytes Bytes
  pub write : State → Repo → LfsOid → ℕ → Bytes → State × Result LfsWriteError (Unit {0})
  pub authorize_lfs : Operation → Option Bytes → Result Bytes (Unit {0})
  pub handle-write :
      (s : State) (repo : Repo) (oid : LfsOid) (size : ℕ) (body : Bytes)
      → handle s ≡ ok repo
      → handle (write s repo oid size body).0 ≡ ok repo
  pub stat-write :
      (s : State) (repo : Repo) (oid : LfsOid) (size : ℕ) (body : Bytes)
      → (write s repo oid size body).1 ≡ ok tt
      → stat (write s repo oid size body).0 repo oid ≡ ok (some size)
