-- ===== src/Kv/Refs.antt =====
-- Ref operations for the KV backend (mizzle/src/backend/kv/refs.rs).
pub mod Update
pub mod Scanned
pub mod Listed
use mizzle.Base.Result.{Result}
use mizzle.Base.{
  ℕ, Bytes, Bool, true, false, Option, none, some, List, [], ◌∷◌, ok, err, ◌>>=◌, ◌>>◌, ObjectId,
  is_null, ◌==◌, eq_bytes, codes, from_utf8, OidCodec, if◌then◌else◌,
}
use mizzle.Refs.{RefUpdate}
use mizzle.Server.Snapshot.{HeadInfo, RefInfo, RefsSnapshot}
use mizzle.Kv.Keys.{
  refkey, refs_prefix_start, refs_prefix_end, refname_from_key, repo_meta, repo_meta_head,
}
use mizzle.Kv.Txn.{finalize_write, finalize_read}
use mizzle.Kv.Store.{KvStore}

pub data RefError : Type 0 where
  should_not_exist : Bytes → ObjectId → RefError
  absent : Bytes → ObjectId → RefError
  stale : Bytes → ObjectId → ObjectId → RefError
  corrupt : Bytes → RefError
  foreign_key : Bytes → RefError
  commit_txn : RefError

-- The match on `(create, delete, current)`.
unfoldable pub check_cas : Bytes → ObjectId → Bool → Option ObjectId → Result RefError (Unit {0})
check_cas refname old_oid true (some actual) = err (should_not_exist refname actual)
check_cas refname old_oid true none = ok tt
check_cas refname old_oid false none = err (absent refname old_oid)
check_cas refname old_oid false (some actual) =
    if actual == old_oid then ok tt else err (stale refname old_oid actual)

-- `find`, and the head that is made of what it finds.
unfoldable pub find_head : Bytes → List RefInfo → Option HeadInfo
find_head target [] = none
find_head target (r ∷ refs) =
    let rest = find_head target refs in
    if eq_bytes r.name target
    then some (record { oid = r.oid; symref_target = some target })
    else rest

abbrev pub default_head : Bytes
default_head = codes "refs/heads/main"

-- `.and_then(|v| String::from_utf8(v).ok()).unwrap_or_else(...)`
unfoldable pub head_or_default : Option Bytes → Bytes
head_or_default none = default_head
head_or_default (some v) = elim (from_utf8 v) [ none ↦ default_head | some target ↦ target ]

module _ (K : KvStore) (C : OidCodec) where
  open K use {Store, get, put, delete, scan}
  open C use {as_bytes, try_from}

  unfoldable pub decode_ref : Bytes → Option Bytes → Result RefError (Option ObjectId)
  decode_ref refname none = ok none
  decode_ref refname (some v) = elim (try_from v) [
    | none ↦ err (corrupt refname)
    | some oid ↦ ok (some oid)
  ]

  unfoldable pub resolve_ref : ℕ → Store → Bytes → Result RefError (Option ObjectId)
  unfolding decode_ref finalize_read
  resolve_ref repo_id s refname =
      finalize_read true (decode_ref refname (get s (refkey repo_id refname)))

  -- One round of the loop in `update_refs`: the read, through `get_for_update`, is of the store that
  -- is committed, `found`, and the write goes to `s`, which has the writes of the rounds before.
  unfoldable pub apply_update : ℕ → Store → Store → RefUpdate → Result RefError Store
  unfolding decode_ref check_cas
  apply_update repo_id found s u = do
    let key = refkey repo_id u.refname
    current ← decode_ref u.refname (get found key)
    check_cas u.refname u.old_oid (is_null u.old_oid) current
    ok (if is_null u.new_oid then delete s key else put s key (as_bytes u.new_oid))

  unfoldable pub apply_updates :
      ℕ → Store → Store → List RefUpdate → Store × Result RefError (Unit {0})
  unfolding apply_update
  apply_updates repo_id found s [] = (s, ok tt)
  apply_updates repo_id found s (u ∷ us) = elim (apply_update repo_id found s u) [
    | err e ↦ (s, err e)
    | ok s' ↦ apply_updates repo_id found s' us
  ]

  -- `commits` says whether the commit goes through, and `s` is the store that it finds.
  unfoldable pub update_refs :
      ℕ → Bool → Store → List RefUpdate → Store × Result RefError (Unit {0})
  unfolding apply_updates finalize_write
  update_refs repo_id commits s updates =
      finalize_write commits commit_txn s (apply_updates repo_id s s updates)

  -- One round of the loop in `list_refs`.
  unfoldable pub read_pair : ℕ → Bytes × Bytes → Result RefError RefInfo
  unfolding refname_from_key
  read_pair repo_id (key, value) = elim (refname_from_key repo_id key) [
    | none ↦ err (foreign_key key)
    | some name ↦ elim (try_from value) [
      | none ↦ err (corrupt name)
      | some oid ↦ ok (record { name = name; oid = oid; peeled = none; symref_target = none })
    ]
  ]

  unfoldable pub read_pairs : ℕ → List (Bytes × Bytes) → Result RefError (List RefInfo)
  unfolding read_pair
  read_pairs repo_id [] = ok []
  read_pairs repo_id (p ∷ pairs) =
      read_pair repo_id p >>= λ r. read_pairs repo_id pairs >>= λ refs. ok (r ∷ refs)

  -- The limit of the scan, 2 ^ 32 - 1 pairs, is not reached.
  unfoldable pub list_refs : ℕ → Store → Result RefError RefsSnapshot
  unfolding read_pairs find_head head_or_default finalize_read refs_prefix_start refs_prefix_end
      repo_meta
  list_refs repo_id s = finalize_read true (
      read_pairs repo_id (scan s (refs_prefix_start repo_id) (refs_prefix_end repo_id)) >>= λ refs.
      ok (record {
        head = find_head (head_or_default (get s (repo_meta repo_id repo_meta_head))) refs;
        refs = refs;
      }))
