-- ===== src/Kv/Refs/Update.antt =====
-- `update_refs` of the KV backend and the contract of `StorageBackend::update_refs`.
use mizzle.Base.Result.{Result}
use mizzle.Base.{
  ℕ, Bytes, Bool, true, false, Option, none, some, List, [], ◌∷◌, ok, err, ObjectId, IsObjectId,
  is_null, eq_bytes, OidCodec, if◌then◌else◌, ◌≡◌, ◌⊎◌, refl, sym, ◌∙◌, arith, eq_bytes-append, All,
  Bool-cases, inl, inr, eq_bytes_refl, subst,
}
use mizzle.Refs.{RefUpdate, RefMap, allowed, write, cas_all, NamesObject, IsValid}
use mizzle.Refs.Found.{
  cas_found, NamedOnce, cas_found-cas_all, moved_twice, cas_found-moved_twice, cas_all-moved_twice,
}
use mizzle.Kv.Keys.{refkey, u64_be}
use mizzle.Kv.Store.{KvStore}
use mizzle.Kv.Txn.{finalize_write, finalize_read}
use mizzle.Kv.Refs.{
  RefError, decode_ref, resolve_ref, check_cas, apply_update, apply_updates, update_refs,
  commit_txn,
}

-- The refs of one repository have different keys when they have different names.
pub refkey_eq : (r : ℕ) (a b : Bytes) → eq_bytes (refkey r a) (refkey r b) ≡ eq_bytes a b
unfolding refkey
refkey_eq r a b = eq_bytes-append (u64_be r) (u64_be r) a b refl ∙ rw (eq_bytes_refl (u64_be r))

pub finalize_read_lem {ℓ κ} :
    {E : Type ℓ} {A : Type κ} (b : Bool) (x : Result E A) → finalize_read b x ≡ x
unfolding finalize_read
finalize_read_lem b (ok v) = refl
finalize_read_lem b (err e) = refl

-- The match of the code and the rules of the contract.
check_cas-eq-allowed :
    (m : RefMap) (u : RefUpdate)
    → NamesObject u
    → (check_cas u.refname u.old_oid (is_null u.old_oid) (m u.refname) ≡ ok tt)
        × (allowed m u ≡ true)
      ⊎ ((e : RefError) × (check_cas u.refname u.old_oid (is_null u.old_oid) (m u.refname) ≡ err e)
          × (allowed m u ≡ false))
unfolding check_cas allowed
check_cas-eq-allowed m u n = ground arith

module _ (K : KvStore) (C : OidCodec) (r : ℕ) where
  open K use {Store, get, put, delete, get-put, get-delete}
  open C use {as_bytes, try_from, try_from-as_bytes}

  -- Every ref of the repository resolves to what the map says.
  abbrev pub Shows : Store → RefMap → Type 0
  Shows s m = (name : Bytes) → resolve_ref K C r s name ≡ ok (m name)

  resolve-put :
      (s : Store) (name j : Bytes) (oid : ObjectId)
      → IsObjectId oid
      → resolve_ref K C r (put s (refkey r name) (as_bytes oid)) j
        ≡ (if eq_bytes name j then ok (some oid) else resolve_ref K C r s j)
  unfolding resolve_ref
  resolve-put s name j oid valid =
      rw (get-put s (refkey r name) (as_bytes oid) (refkey r j), refkey_eq r name j)
        (ground (arith, try_from-as_bytes oid valid))

  resolve-delete :
      (s : Store) (name j : Bytes)
      → resolve_ref K C r (delete s (refkey r name)) j
        ≡ (if eq_bytes name j then ok none else resolve_ref K C r s j)
  unfolding resolve_ref
  resolve-delete s name j =
      rw (get-delete s (refkey r name) (refkey r j), refkey_eq r name j) (ground arith)

  pub decode-resolve :
      (s : Store) (m : RefMap) (name : Bytes)
      → Shows s m
      → decode_ref K C name (get s (refkey r name)) ≡ ok (m name)
  unfolding resolve_ref
  decode-resolve s m name h = sym (finalize_read_lem true _) ∙ h name

  -- The writes of one update.
  write-Shows :
      (s : Store) (m : RefMap) (u : RefUpdate)
      → IsValid u
      → Shows s m
      → Shows
          (if is_null u.new_oid
            then delete s (refkey r u.refname)
            else put s (refkey r u.refname) (as_bytes u.new_oid))
          (write m u)
  unfolding write
  write-Shows s m u valid h j = elim (Bool-cases (is_null u.new_oid)) [
    | inl e ↦ rw (e, resolve-delete s u.refname j) (ground (arith, h j))
    | inr e ↦ rw (e, resolve-put s u.refname j u.new_oid valid.1) (ground (arith, h j))
  ]

  -- One update, checked against what is committed, and written to what the batch has written.
  apply_update-cases :
      (found s : Store) (base m : RefMap) (u : RefUpdate)
      → IsValid u
      → NamesObject u
      → Shows found base
      → Shows s m
      → (allowed base u ≡ true)
          × ((s' : Store) × (apply_update K C r found s u ≡ ok s') × Shows s' (write m u))
        ⊎ (allowed base u ≡ false) × ((e : RefError) × (apply_update K C r found s u ≡ err e))
  unfolding apply_update
  apply_update-cases found s base m u valid n hf hs = elim (check_cas-eq-allowed base u n) [
    | inl (c, a) ↦ inl (
      a,
      (
        _,
        rw (decode-resolve found base u.refname hf, c, apply_update) refl,
        write-Shows s m u valid hs,
      ),
    )
    | inr (e, c, a) ↦
        inr (a, (e, rw (decode-resolve found base u.refname hf, c, apply_update) refl))
  ]

  -- What a body leaves: the refs that the batch asks for, or an error.
  abbrev Applied : Option RefMap → Store × Result RefError (Unit {0}) → Type 0
  Applied none t = (e : RefError) × (t.1 ≡ err e)
  Applied (some m) t = (t.1 ≡ ok tt) × Shows t.0 m

  apply_updates-Applied :
      (found s : Store) (base m : RefMap) (us : List RefUpdate)
      → All IsValid us
      → All NamesObject us
      → Shows found base
      → Shows s m
      → Applied (cas_found base m us) (apply_updates K C r found s us)
  unfolding apply_updates cas_found
  apply_updates-Applied found s base m [] valid n hf hs = (refl, hs)
  apply_updates-Applied found s base m (u ∷ us) valid n hf hs =
      elim (apply_update-cases found s base m u valid.0 n.0 hf hs) [
        | inl (a, (s', e, shown)) ↦
            rw (a, e, apply_updates, cas_found)
              (apply_updates-Applied found s' base (write m u) us valid.1 n.1 hf shown)
        | inr (a, (x, e)) ↦ rw (a, e, apply_updates, cas_found) (x, refl)
      ]

  -- What a batch leaves behind: all of its writes, or an error and the store as it was.
  abbrev pub Landed : Store → Option RefMap → Store × Result RefError (Unit {0}) → Type 0
  Landed s none t = (t.0 ≡ s) × ((e : RefError) × (t.1 ≡ err e))
  Landed s (some m) t = (t.1 ≡ ok tt) × Shows t.0 m

  finalize-Landed :
      (s : Store) (spec : Option RefMap) (a : Store × Result RefError (Unit {0}))
      → Applied spec a
      → Landed s spec (finalize_write true commit_txn s a)
  unfolding finalize_write
  finalize-Landed s none (s', ok u) (e, k) = cc
  finalize-Landed s none (s', err x) (e, k) = (refl, (x, refl))
  finalize-Landed s (some m) (s', ok u) (e, k) = (refl, k)
  finalize-Landed s (some m) (s', err x) (e, k) = cc

  -- Every check of a batch is against the refs that the transaction found.
  pub update_refs-found :
      (s : Store) (m : RefMap) (us : List RefUpdate)
      → All IsValid us
      → All NamesObject us
      → Shows s m
      → Landed s (cas_found m m us) (update_refs K C r true s us)
  unfolding update_refs
  update_refs-found s m us valid n h =
      finalize-Landed s (cas_found m m us) (apply_updates K C r s s us)
        (apply_updates-Applied s s m m us valid n h h)

  -- For a store that shows the map `m` and a batch of 160-bit ids in which no update has the null id
  -- on both sides and no ref is named twice: if the contract refuses the batch, `update_refs` fails
  -- and leaves the store as it was; if the contract accepts it and the commit goes through,
  -- `update_refs` succeeds and the store shows the map that the contract gives.
  pub update_refs-Landed :
      (s : Store) (m : RefMap) (us : List RefUpdate)
      → All IsValid us
      → All NamesObject us
      → NamedOnce us
      → Shows s m
      → Landed s (cas_all m us) (update_refs K C r true s us)
  update_refs-Landed s m us valid n once h =
      subst (λ spec. Landed s spec (update_refs K C r true s us)) (cas_found-cas_all m us once)
        (update_refs-found s m us valid n h)

  -- For a store that shows a map with no ref of this name, and ids `a` and `b` of 160 bits that are not
  -- null: the contract accepts a batch that creates the ref at `a` and then moves it from `a` to `b`,
  -- and ends with the ref at `b`; `update_refs` refuses the batch and leaves the store as it was.
  pub update_refs-moved_twice :
      (s : Store) (m : RefMap) (name : Bytes) (a b : ObjectId)
      → IsObjectId a
      → IsObjectId b
      → is_null a ≡ false
      → is_null b ≡ false
      → m name ≡ none
      → Shows s m
      → ((m' : RefMap) × (cas_all m (moved_twice name a b) ≡ some m') × (m' name ≡ some b))
        × Landed s none (update_refs K C r true s (moved_twice name a b))
  update_refs-moved_twice s m name a b ha hb na nb absent h = (
    cas_all-moved_twice m name a b na nb absent,
    subst (λ spec. Landed s spec (update_refs K C r true s (moved_twice name a b)))
        (cas_found-moved_twice m name a b na nb absent)
        (update_refs-found s m (moved_twice name a b) ((omega arith, ha), ((ha, hb), tt))
          (rw na refl, (rw na refl, tt)) h),
  )
