-- ===== src/Sql/Refs.antt =====
-- Ref operations of the SQL backend (mizzle/src/backend/sql/refs.rs).
pub mod Update
use mizzle.Base.Result.{Result}
use mizzle.Base.{
  ℕ, Bytes, Bool, true, false, Option, none, some, List, [], ◌∷◌, ok, err, ◌>>=◌, ObjectId, is_null,
  ◌==◌, OidCodec, if◌then◌else◌,
}
use mizzle.Refs.{RefUpdate}
use mizzle.Sql.Table.{RefsTable}

pub data SqlError : Type 0 where
  stale_info : Bytes → ObjectId → SqlError
  already_exists : Bytes → SqlError
  corrupt_oid : SqlError
  commit_failed : SqlError

module _ (T : RefsTable) (C : OidCodec) where
  open T use {Table, select, delete_where, insert, update_where}
  open C use {as_bytes, try_from}

  unfoldable pub parse_oid : Bytes → Result SqlError ObjectId
  parse_oid bytes = elim (try_from bytes) [ none ↦ err corrupt_oid | some oid ↦ ok oid ]

  unfoldable pub resolve_ref : ℕ → Table → Bytes → Result SqlError (Option ObjectId)
  unfolding parse_oid
  resolve_ref repo t refname = elim (select t repo refname) [
    | none ↦ ok none
    | some raw ↦ parse_oid raw >>= λ oid. ok (some oid)
  ]

  -- The branch of `update_refs_owned` that creates a ref.
  unfoldable pub insert_row : ℕ → Table → RefUpdate → Result SqlError Table
  insert_row repo t u = elim (insert t repo u.refname (as_bytes u.new_oid)) [
    | none ↦ err (already_exists u.refname)
    | some t' ↦ ok t'
  ]

  -- One round of the loop in `update_refs_owned`.
  unfoldable pub apply_update : ℕ → Table → RefUpdate → Result SqlError Table
  apply_update repo t u =
      if is_null u.new_oid
      then (let (t', rows) = delete_where t repo u.refname (as_bytes u.old_oid) in
          if rows == 0 then err (stale_info u.refname u.old_oid) else ok t')
      else if is_null u.old_oid
      then insert_row repo t u
      else (let (t', rows) =
            update_where t (as_bytes u.new_oid) repo u.refname (as_bytes u.old_oid) in
          if rows == 0 then err (stale_info u.refname u.old_oid) else ok t')

  unfoldable pub apply_updates : ℕ → Table → List RefUpdate → Result SqlError Table
  unfolding apply_update
  apply_updates repo t [] = ok t
  apply_updates repo t (u ∷ us) = apply_update repo t u >>= λ t'. apply_updates repo t' us

  -- The end of the transaction: an error or a failed commit drops it, which rolls it back.
  unfoldable pub finish : Bool → Table → Result SqlError Table → Table × Result SqlError (Unit {0})
  finish true before (ok after) = (after, ok tt)
  finish false before (ok after) = (before, err commit_failed)
  finish commits before (err e) = (before, err e)

  -- `update_refs_owned`; `commits` says whether the commit goes through.
  unfoldable pub update_refs_owned :
      ℕ → Bool → Table → List RefUpdate → Table × Result SqlError (Unit {0})
  unfolding apply_updates finish
  update_refs_owned repo commits t [] = (t, ok tt)
  update_refs_owned repo commits t (u ∷ us) = finish commits t (apply_updates repo t (u ∷ us))
