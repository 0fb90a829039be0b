-- ===== src/Parity.antt =====
-- The KV and the SQL backend beside each other (mizzle/src/backend/kv/refs.rs and
-- mizzle/src/backend/sql/refs.rs), where the design asks for one behaviour of all backends.
use mizzle.Base.{
  ℕ, Bytes, true, Option, none, some, List, [], ◌∷◌, ok, err, sym, ◌∙◌, OidCodec, ◌≡◌, refl, ◌↔◌,
  All, null_oid,
}
use mizzle.Base.Result.{Result}
use mizzle.Refs.{RefUpdate, RefMap, IsValid, NamesObject, cas_all, allowed}
use mizzle.Refs.Found.{NamedOnce}
use mizzle.Kv.Keys.{refkey}
use mizzle.Kv.Store.{KvStore}
use mizzle.Kv.Refs as KvRefs
use mizzle.Kv.Refs.Update as KvUpdate
use mizzle.Sql.Table.{RefsTable}
use mizzle.Sql.Refs as SqlRefs
use mizzle.Sql.Refs.Update as SqlUpdate

ok-ne-err {ℓ} : {E : Type ℓ} {e : E} → ¬ (◌≡◌ {A = Result E (Unit {0})} (ok tt) (err e))
ok-ne-err h = cc

module _ (K : KvStore) (T : RefsTable) (C : OidCodec) (r : ℕ) where
  -- Two outcomes that one answer of the contract allows.
  meet :
      (s : KvStore.Store K) (t : RefsTable.Table T) (m : RefMap) (spec : Option RefMap)
      (x : KvStore.Store K × Result KvRefs.RefError (Unit {0}))
      (y : RefsTable.Table T × Result SqlRefs.SqlError (Unit {0}))
      → KvUpdate.Shows K C r s m
      → SqlUpdate.Shows T C r t m
      → KvUpdate.Landed K C r s spec x
      → SqlUpdate.Landed T C r t spec y
      → ((x.1 ≡ ok tt) ↔ (y.1 ≡ ok tt))
        × ((m' : RefMap) × KvUpdate.Shows K C r x.0 m' × SqlUpdate.Shows T C r y.0 m')
  meet s t m none x y hs ht (sx, (e, ex)) (ty, (f, ey)) = (
    (λ h. absurd (ok-ne-err (sym h ∙ ex)), λ h. absurd (ok-ne-err (sym h ∙ ey))),
    (m, rw sx hs, rw ty ht),
  )
  meet s t m (some m') x y hs ht (ex, sx) (ey, ty) = ((λ _. ey, λ _. ex), (m', sx, ty))

  -- For a store and a table that show the same refs, and a batch of 160-bit ids in which no update
  -- has the null id on both sides and no ref is named twice: where the commits go through, the KV
  -- backend accepts the batch exactly when the SQL backend does, and afterwards they show the same
  -- refs.
  pub update_refs_parity :
      (s : KvStore.Store K) (t : RefsTable.Table T) (m : RefMap) (us : List RefUpdate)
      → All IsValid us
      → All NamesObject us
      → NamedOnce us
      → KvUpdate.Shows K C r s m
      → SqlUpdate.Shows T C r t m
      → (((KvRefs.update_refs K C r true s us).1 ≡ ok tt)
          ↔ ((SqlRefs.update_refs_owned T C r true t us).1 ≡ ok tt))
        × ((m' : RefMap) × KvUpdate.Shows K C r (KvRefs.update_refs K C r true s us).0 m'
            × SqlUpdate.Shows T C r (SqlRefs.update_refs_owned T C r true t us).0 m')
  update_refs_parity s t m us valid n once hs ht =
      meet s t m (cas_all m us) (KvRefs.update_refs K C r true s us)
        (SqlRefs.update_refs_owned T C r true t us) hs ht
        (KvUpdate.update_refs-Landed K C r s m us valid n once hs)
        (SqlUpdate.update_refs_owned-Landed T C r t m us valid ht)

-- The update that names the null id twice.
abbrev pub null_update : Bytes → RefUpdate
null_update name = record { old_oid = null_oid; new_oid = null_oid; refname = name }

-- For a ref that does not exist, of a store that shows the map `m`: the contract refuses an update of
-- it with the null id on both sides, and the KV backend accepts it.
pub update_refs-null_update :
    (K : KvStore) (C : OidCodec) (r : ℕ) (s : KvStore.Store K) (m : RefMap) (name : Bytes)
    → KvUpdate.Shows K C r s m
    → m name ≡ none
    → (cas_all m (null_update name ∷ []) ≡ none)
      × ((KvRefs.update_refs K C r true s (null_update name ∷ [])).1 ≡ ok tt)
unfolding cas_all allowed KvRefs.update_refs KvRefs.apply_updates KvRefs.apply_update
update_refs-null_update K C r s m name h absent =
    let applied : KvRefs.apply_update K C r s s (null_update name)
        ≡ ok (KvStore.delete K s (refkey r name)) =
      rw (KvUpdate.decode-resolve K C r s m name h, absent, KvRefs.apply_update) refl in
    (rw absent, rw (applied, KvRefs.apply_updates, KvRefs.update_refs) refl)
