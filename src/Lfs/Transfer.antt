-- ===== src/Lfs/Transfer.antt =====
-- The proxy endpoints (mizzle/src/lfs/transfer.rs), with their HTTP status. A reader is its bytes.
use mizzle.Base.Result.{Result}
use mizzle.Base.{ℕ, Bytes, ◌++◌, Option, none, some, ok, err, codes, ◌==◌, if◌then◌else◌}
use mizzle.Lfs.Oid.{LfsOid, from_str}
use mizzle.Lfs.Store.{LfsStore, upload, LfsWriteError, hash_mismatch, size_mismatch, io_error}

abbrev pub write_status : Result LfsWriteError (Unit {0}) → ℕ
write_status (ok u) = 200
write_status (err hash_mismatch) = 422
write_status (err size_mismatch) = 422
write_status (err (io_error e)) = 500

module _ (L : LfsStore) where
  open L use {State, Repo, handle, stat, read, write, authorize_lfs}

  unfoldable pub handle_download : State → Bytes → ℕ × Option Bytes
  unfolding from_str
  handle_download s oid_hex = elim (from_str (codes "sha256:" ++ oid_hex)) [
    | none ↦ (400, none)
    | some oid ↦ elim (handle s) [
      | err e ↦ (500, none)
      | ok repo ↦ elim (stat s repo oid) [
        | err e ↦ (500, none)
        | ok none ↦ (404, none)
        | ok (some size) ↦ elim (read s repo oid) [
          | err e ↦ (500, none)
          | ok bytes ↦ (200, some bytes)
        ]
      ]
    ]
  ]

  unfoldable pub handle_upload : State → Bytes → ℕ → Bytes → State × ℕ
  unfolding from_str
  handle_upload s oid_hex size body = elim (authorize_lfs upload none) [
    | err reason ↦ (s, 403)
    | ok u ↦ elim (from_str (codes "sha256:" ++ oid_hex)) [
      | none ↦ (s, 400)
      | some oid ↦ elim (handle s) [
        | err e ↦ (s, 500)
        | ok repo ↦ ((write s repo oid size body).0, write_status (write s repo oid size body).1)
      ]
    ]
  ]

  unfoldable pub handle_verify : State → LfsOid → ℕ → ℕ
  handle_verify s oid expected_size = elim (handle s) [
    | err e ↦ 500
    | ok repo ↦ elim (stat s repo oid) [
      | err e ↦ 500
      | ok none ↦ 404
      | ok (some actual_size) ↦ if actual_size == expected_size then 200 else 422
    ]
  ]
