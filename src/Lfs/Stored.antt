-- ===== src/Lfs/Stored.antt =====
-- An object that was uploaded is there for every later request.
use mizzle.Base.Result.{Result}
use mizzle.Base.{ℕ, some, ok, ◌≡◌}
use mizzle.Lfs.Oid.{LfsOid}
use mizzle.Lfs.Store.{LfsStore}

module _ (L : LfsStore) where
  open L use {State, Repo, handle, stat, read, write, authorize_lfs}

  -- The store opens, and has the object with the size.
  abbrev Has : State → LfsOid → ℕ → Type 0
  Has s oid size = (repo : Repo) × (handle s ≡ ok repo) × (stat s repo oid ≡ ok (some size))
