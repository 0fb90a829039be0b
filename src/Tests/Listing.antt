-- ===== src/Tests/Listing.antt =====
-- The theorem on the list of refs, with one ref in a log of writes.
use mizzle.Base.{
  Bytes, AreBytes, [], ◌∷◌, Option, none, some, ok, ObjectId, ◌≡◌, ◌↔◌, refl, arith, codes,
  null_oid, is_utf8, eq_bytes, eq_of_eq_bytes, Bool-cases, inl, inr, true, false, subst, be_bytes,
  AreBytes-be_bytes, All-append, IsByte,
}
use mizzle.Refs.{RefUpdate, RefMap, cas_all, allowed, write}
use mizzle.Server.Snapshot.{RefsSnapshot}
use mizzle.Kv.Keys.{refkey, repo_meta, repo_meta_head}
use mizzle.Kv.Refs.{update_refs, list_refs, head_or_default}
use mizzle.Kv.Refs.Update.{Shows, Landed, update_refs-Landed}
use mizzle.Kv.Refs.Scanned.{AreTexts, KeysAreBytes}
use mizzle.Kv.Refs.Listed.{Lists, head_of, list_refs_exact}
use mizzle.Tests.Models.{log_store, log_get, sha1_codec, Log}

abbrev main : Bytes
main = codes "refs/heads/main"

abbrev created : RefUpdate
created = record { old_oid = null_oid; new_oid = 7; refname = main }

abbrev no_refs : RefMap
no_refs name = none

abbrev one_ref : Log
one_ref = (update_refs log_store sha1_codec 1 true [] (created ∷ [])).0

empty_shown : Shows log_store sha1_codec 1 [] no_refs
unfolding mizzle.Kv.Refs.resolve_ref log_get
empty_shown name = refl

landed :
    Landed log_store sha1_codec 1 []
      (cas_all no_refs (created ∷ []))
      (update_refs log_store sha1_codec 1 true [] (created ∷ []))
landed =
    update_refs-Landed log_store sha1_codec 1 [] no_refs (created ∷ [])
      ((omega arith, omega arith), tt) (refl, tt) (tt, tt) empty_shown

shown : Shows log_store sha1_codec 1 one_ref (write no_refs created)
unfolding cas_all allowed
shown = landed.1

text_main : (is_utf8 main ≡ true) × AreBytes main
unfolding is_utf8
text_main = (refl, omega arith)

no_oid : (o : Option ObjectId) (oid : ObjectId) → o ≡ none → o ≡ some oid → ⊥
no_oid o oid e h = cc

no_value : (o : Option Bytes) (v : Bytes) → o ≡ none → o ≡ some v → ⊥
no_value o v e h = cc

other : (name : Bytes) → eq_bytes main name ≡ false → write no_refs created name ≡ none
unfolding write
other name e = rw (e, write) refl

other_key : (k : Bytes) → eq_bytes (refkey 1 main) k ≡ false → log_get one_ref k ≡ none
unfolding update_refs log_get
other_key k e = rw (e, log_get) refl

key_main : AreBytes (refkey 1 main)
unfolding refkey
key_main = (omega arith, All-append IsByte (be_bytes 8 1) main (AreBytes-be_bytes 8 1) text_main.1)

texts : AreTexts log_store sha1_codec 1 (write no_refs created)
unfolding write
texts name oid h = elim (Bool-cases (eq_bytes main name)) [
  | inl e ↦ subst (λ n. (is_utf8 n ≡ true) × AreBytes n) (eq_of_eq_bytes main name e) text_main
  | inr e ↦ absurd (no_oid (write no_refs created name) oid (other name e) h)
]

keys : KeysAreBytes log_store sha1_codec 1 one_ref
unfolding update_refs log_get
keys k v h = elim (Bool-cases (eq_bytes (refkey 1 main) k)) [
  | inl e ↦ subst AreBytes (eq_of_eq_bytes (refkey 1 main) k e) key_main
  | inr e ↦ absurd (no_value (log_get one_ref k) v (other_key k e) h)
]

list_refs_exact_example :
    (snapshot : RefsSnapshot) × (list_refs log_store sha1_codec 1 one_ref ≡ ok snapshot)
    × ((name : Bytes) (oid : ObjectId)
        → Lists log_store sha1_codec 1 snapshot.refs name oid
          ↔ (write no_refs created name ≡ some oid))
    × (snapshot.head
        ≡ head_of log_store sha1_codec 1
            (write no_refs created)
            (head_or_default (log_store.get one_ref (repo_meta 1 repo_meta_head))))
list_refs_exact_example =
    list_refs_exact log_store sha1_codec 1 one_ref (write no_refs created) (omega arith) shown texts
      keys
