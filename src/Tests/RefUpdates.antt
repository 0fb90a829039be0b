-- ===== src/Tests/RefUpdates.antt =====
-- The theorems on ref updates, with batches that create two refs, or create one and move it.
use mizzle.Base.{
  ℕ, Bytes, List, [], ◌∷◌, ◌≡◌, refl, true, arith, codes, none, some, Option, ok, null_oid, ◌↔◌,
}
use mizzle.Refs.{RefUpdate, RefMap, cas_all}
use mizzle.Refs.Found.{moved_twice}
use mizzle.Kv.Refs as KvRefs
use mizzle.Kv.Refs.Update as KvUpdate
use mizzle.Sql.Refs as SqlRefs
use mizzle.Sql.Refs.Update as SqlUpdate
use mizzle.Parity.{update_refs_parity, update_refs-null_update, null_update}
use mizzle.Tests.Models.{log_store, log_get, function_table, sha1_codec, Log}

abbrev main : Bytes
main = codes "refs/heads/main"

abbrev batch : List RefUpdate
batch =
    record { old_oid = null_oid; new_oid = 7; refname = main }
    ∷ record { old_oid = 7; new_oid = 9; refname = main }
    ∷ []

abbrev no_refs : RefMap
no_refs name = none

abbrev empty_store : Log
empty_store = []

abbrev empty_table : ℕ → Bytes → Option Bytes
empty_table r n = none

kv_empty : KvUpdate.Shows log_store sha1_codec 1 empty_store no_refs
unfolding KvRefs.resolve_ref log_get
kv_empty name = refl

sql_empty : SqlUpdate.Shows function_table sha1_codec 1 empty_table no_refs
unfolding SqlRefs.resolve_ref
sql_empty name = refl

-- Two refs are created.
abbrev two_refs : List RefUpdate
two_refs =
    record { old_oid = null_oid; new_oid = 7; refname = main }
    ∷ record { old_oid = null_oid; new_oid = 9; refname = codes "refs/heads/next" }
    ∷ []

update_refs-Landed_example :
    KvUpdate.Landed log_store sha1_codec 1 empty_store
      (cas_all no_refs two_refs)
      (KvRefs.update_refs log_store sha1_codec 1 true empty_store two_refs)
update_refs-Landed_example =
    KvUpdate.update_refs-Landed log_store sha1_codec 1 empty_store no_refs two_refs (omega arith)
      (refl, (refl, tt)) ((refl, tt), (tt, tt)) kv_empty

update_refs-moved_twice_example :
    ((m' : RefMap) × (cas_all no_refs (moved_twice main 7 9) ≡ some m') × (m' main ≡ some 9))
    × KvUpdate.Landed log_store sha1_codec 1 empty_store none
        (KvRefs.update_refs log_store sha1_codec 1 true empty_store (moved_twice main 7 9))
update_refs-moved_twice_example =
    KvUpdate.update_refs-moved_twice log_store sha1_codec 1 empty_store no_refs main 7 9
      (omega arith) (omega arith) refl refl refl kv_empty

update_refs_owned-Landed_example :
    SqlUpdate.Landed function_table sha1_codec 1 empty_table
      (cas_all no_refs batch)
      (SqlRefs.update_refs_owned function_table sha1_codec 1 true empty_table batch)
update_refs_owned-Landed_example =
    SqlUpdate.update_refs_owned-Landed function_table sha1_codec 1 empty_table no_refs batch
      (omega arith) sql_empty

update_refs_parity_example :
    (((KvRefs.update_refs log_store sha1_codec 1 true empty_store two_refs).1 ≡ ok tt) ↔ (
      (SqlRefs.update_refs_owned function_table sha1_codec 1 true empty_table two_refs).1 ≡ ok tt))
    × ((m' : RefMap) × KvUpdate.Shows log_store sha1_codec 1
          (KvRefs.update_refs log_store sha1_codec 1 true empty_store two_refs).0
          m'
        × SqlUpdate.Shows function_table sha1_codec 1
            (SqlRefs.update_refs_owned function_table sha1_codec 1 true empty_table two_refs).0
            m')
update_refs_parity_example =
    update_refs_parity log_store function_table sha1_codec 1 empty_store empty_table no_refs
      two_refs (omega arith) (refl, (refl, tt)) ((refl, tt), (tt, tt)) kv_empty sql_empty

update_refs-null_update_example :
    (cas_all no_refs (null_update main ∷ []) ≡ none)
    × ((KvRefs.update_refs log_store sha1_codec 1 true empty_store (null_update main ∷ [])).1
        ≡ ok tt)
update_refs-null_update_example =
    update_refs-null_update log_store sha1_codec 1 empty_store no_refs main kv_empty refl
