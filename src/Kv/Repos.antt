-- ===== src/Kv/Repos.antt =====
-- Repositories of the KV backend: `init_repo_inner`, `open_inner` and their encoding of numbers
-- (mizzle/src/backend/kv/mod.rs). A path is its bytes.
pub mod Kept
pub mod Added
pub mod History
pub mod Opened
use mizzle.Base.Result.{Result}
use mizzle.Base.{
  ℕ, ◌+◌, ◌%◌, ◌^◌, Bytes, Bool, true, List, [], Option, none, some, ok, err, ◌>>=◌, ◌==◌, length,
  be_bytes, be_value, if◌then◌else◌,
}
use mizzle.Kv.Keys.{repo_index, next_repo_id, repo_meta, repo_meta_exists}
use mizzle.Kv.Txn.{finalize_write, finalize_read}
use mizzle.Kv.Store.{KvStore}

pub data RepoError : Type 0 where
  no_u64 : ℕ → RepoError
  no_repository : Bytes → RepoError
  alloc_commit : RepoError

abbrev pub encode_u64 : ℕ → Bytes
encode_u64 = be_bytes 8

abbrev pub decode_u64 : Bytes → Result RepoError ℕ
decode_u64 bytes = if length bytes == 8 then ok (be_value 0 bytes) else err (no_u64 (length bytes))

module _ (K : KvStore) where
  open K use {Store, get, put}

  -- The read-only check of the fast path.
  unfoldable pub probe : Store → Bytes → Result RepoError (Option ℕ)
  unfolding repo_index
  probe s path = elim (get s (repo_index path)) [
    | some bytes ↦ decode_u64 bytes >>= λ id. ok (some id)
    | none ↦ ok none
  ]

  -- The next id, read through `get_for_update` from the store that the commit finds; 0 is reserved.
  unfoldable pub counter : Store → Result RepoError ℕ
  unfolding next_repo_id
  counter s = elim (get s next_repo_id) [ some b ↦ decode_u64 b | none ↦ ok 1 ]

  -- The writes of a new repository, in `u64`.
  unfoldable pub add_repo : Store → Bytes → ℕ → Store
  unfolding repo_index next_repo_id repo_meta
  add_repo s path next =
      put
        (put (put s next_repo_id (encode_u64 ((next + 1) % 2 ^ 64))) (repo_index path)
          (encode_u64 next))
        (repo_meta next repo_meta_exists) []

  abbrev allocated : Store → Bytes → Result RepoError ℕ → Store × Result RepoError ℕ
  allocated now path (err e) = (now, err e)
  allocated now path (ok next) = (add_repo now path next, ok next)

  -- The body of the pessimistic transaction. It checks again, with a plain `get`, in the store in
  -- which the transaction started.
  unfoldable pub alloc : Store → Store → Bytes → Store × Result RepoError ℕ
  unfolding counter add_repo repo_index
  alloc started now path = elim (get started (repo_index path)) [
    | some bytes ↦ (now, decode_u64 bytes)
    | none ↦ allocated now path (counter now)
  ]

  abbrev pub after_probe :
      Bool → Store → Store → Bytes → Result RepoError (Option ℕ) → Store × Result RepoError ℕ
  after_probe commits started now path (err e) = (now, err e)
  after_probe commits started now path (ok (some id)) = (now, ok id)
  after_probe commits started now path (ok none) =
      finalize_write commits alloc_commit now (alloc started now path)

  -- `probed` is the store that the fast path reads, `started` the one in which the transaction
  -- starts, and `now` the one that its commit finds: other writers may come between. `commits` says
  -- whether the commit goes through.
  unfoldable pub init_repo_inner : Bool → Store → Store → Store → Bytes → Store × Result RepoError ℕ
  unfolding probe alloc finalize_write finalize_read
  init_repo_inner commits probed started now path =
      after_probe commits started now path (finalize_read true (probe probed path))

  unfoldable pub open_inner : Store → Bytes → Result RepoError ℕ
  unfolding repo_index finalize_read
  open_inner s path = finalize_read true (elim (get s (repo_index path)) [
    | some bytes ↦ decode_u64 bytes
    | none ↦ err (no_repository path)
  ])
