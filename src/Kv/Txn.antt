-- ===== src/Kv/Txn.antt =====
-- Transaction lifecycle (mizzle/src/backend/kv/txn.rs). A body yields its result and, whether or not
-- it fails, the store that its writes so far would give.
use mizzle.Base.Result.{Result}
use mizzle.Base.{Bool, true, false, ok, err}

-- Commit on success, rollback on failure. The first argument says whether the commit goes through;
-- its own error reaches the caller. `tikv_client` buffers writes until the commit, so that a
-- rollback, and a commit that is refused, leave the store as it was.
unfoldable pub finalize_write {ℓ κ} :
    {E S : Type ℓ} {A : Type κ} → Bool → E → S → S × Result E A → S × Result E A
finalize_write true commit_txn before (after, ok v) = (after, ok v)
finalize_write false commit_txn before (after, ok v) = (before, err commit_txn)
finalize_write commits commit_txn before (after, err e) = (before, err e)

-- The same shape, but an error of the commit is swallowed.
unfoldable pub finalize_read {ℓ κ} : {E : Type ℓ} {A : Type κ} → Bool → Result E A → Result E A
finalize_read commits (ok v) = ok v
finalize_read commits (err e) = err e
