-- ===== src/Kv/Repos/Kept.antt =====
-- An update of refs leaves the keys of repositories as they are.
use mizzle.Base.Result.{Result}
use mizzle.Base.{
  ℕ, Bytes, Bool, true, false, List, [], ◌∷◌, ok, err, ◌≡◌, refl, ◌∙◌, eq_bytes, subst,
  Result-cases, inl, inr, OidCodec, is_null, if◌then◌else◌,
}
use mizzle.Refs.{RefUpdate}
use mizzle.Kv.Keys.{repo_index, next_repo_id, repo_meta, refkey}
use mizzle.Kv.Txn.{finalize_write}
use mizzle.Kv.Store.{KvStore}
use mizzle.Kv.Refs.{
  RefError, commit_txn, apply_update, apply_updates, update_refs, decode_ref, check_cas,
}

-- A key that is no ref's.
abbrev pub NoRef : Bytes → Type 0
NoRef k = (repo_id : ℕ) (name : Bytes) → eq_bytes (refkey repo_id name) k ≡ false

-- The keys of repositories are no refs' keys.
pub NoRef-repo_index : (path : Bytes) → NoRef (repo_index path)
unfolding repo_index refkey
NoRef-repo_index path repo_id name = refl

pub NoRef-next_repo_id : NoRef next_repo_id
unfolding next_repo_id refkey
NoRef-next_repo_id repo_id name = refl

pub NoRef-repo_meta : (r tag : ℕ) → NoRef (repo_meta r tag)
unfolding repo_meta refkey
NoRef-repo_meta r tag repo_id name = refl

module _ (K : KvStore) (C : OidCodec) where
  open K use {Store, get, put, delete}

  -- A result whose store, if any, has under `k` what `s` has.
  abbrev Keeps : Store → Bytes → Result RefError Store → Type 0
  Keeps s k (ok s') = get s' k ≡ get s k
  Keeps s k (err e) = Unit

  get_write :
      (deletes : Bool) (s : Store) (j v k : Bytes)
      → eq_bytes j k ≡ false
      → get (if deletes then delete s j else put s j v) k ≡ get s k
  get_write true s j v k h = rw (K.get-delete s j k, h) refl
  get_write false s j v k h = rw (K.get-put s j v k, h) refl

  apply_update-Keeps :
      (repo_id : ℕ) (found s : Store) (u : RefUpdate) (k : Bytes)
      → NoRef k
      → Keeps s k (apply_update K C repo_id found s u)
  unfolding apply_update
  apply_update-Keeps repo_id found s u k h =
      elim (Result-cases (decode_ref K C u.refname (get found (refkey repo_id u.refname)))) [
        | inr (x, e) ↦ rw (e, apply_update) tt
        | inl (current, e) ↦
            elim (Result-cases (check_cas u.refname u.old_oid (is_null u.old_oid) current)) [
              | inr (x, f) ↦ rw (e, f, apply_update) tt
              | inl (t, f) ↦
                  rw (e, f, apply_update)
                    (get_write (is_null u.new_oid) s (refkey repo_id u.refname)
                      (C.as_bytes u.new_oid) k (h repo_id u.refname))
            ]
      ]

  apply_updates-Keeps :
      (repo_id : ℕ) (found s : Store) (us : List RefUpdate) (k : Bytes)
      → NoRef k
      → get (apply_updates K C repo_id found s us).0 k ≡ get s k
  unfolding apply_updates
  apply_updates-Keeps repo_id found s [] k h = refl
  apply_updates-Keeps repo_id found s (u ∷ us) k h =
      elim (Result-cases (apply_update K C repo_id found s u)) [
        | inr (x, e) ↦ rw (e, apply_updates) refl
        | inl (t, e) ↦
            rw (e, apply_updates) (apply_updates-Keeps repo_id found t us k h)
            ∙ subst (Keeps s k) e (apply_update-Keeps repo_id found s u k h)
      ]

  get-finalize :
      (commits : Bool) (s : Store) (k : Bytes) (r : Store × Result RefError (Unit {0}))
      → get r.0 k ≡ get s k
      → get (finalize_write {0, 0} commits commit_txn s r).0 k ≡ get s k
  unfolding finalize_write
  get-finalize true s k (t, ok u) h = h
  get-finalize false s k (t, ok u) h = refl
  get-finalize true s k (t, err e) h = refl
  get-finalize false s k (t, err e) h = refl

  pub get-update_refs :
      (repo_id : ℕ) (commits : Bool) (s : Store) (us : List RefUpdate) (k : Bytes)
      → NoRef k
      → get (update_refs K C repo_id commits s us).0 k ≡ get s k
  unfolding update_refs
  get-update_refs repo_id commits s us k h =
      get-finalize commits s k (apply_updates K C repo_id s s us)
        (apply_updates-Keeps repo_id s s us k h)
