-- ===== src/Sql/Refs/Update.antt =====
-- `update_refs_owned` of the SQL backend meets the contract of `StorageBackend::update_refs`.
use mizzle.Base.Result.{Result}
use mizzle.Base.{
  ℕ, Bytes, true, false, Option, none, some, List, [], ◌∷◌, ok, err, ObjectId, IsObjectId, is_null,
  eq_bytes, ◌==◌, OidCodec, if◌then◌else◌, ◌≡◌, ◌⊎◌, refl, sym, ◌∙◌, ap, arith, All, Option-cases,
  Bool-cases, inl, inr, eq_bytes_iff, ==_refl,
}
use mizzle.Refs.{RefUpdate, RefMap, holds, allowed, write, cas_all, IsValid, Implements, is_absent}
use mizzle.Refs.Contract.{Implements-bind}
use mizzle.Sql.Table.{RefsTable, holds_row}
use mizzle.Sql.Refs.{
  SqlError, resolve_ref, insert_row, apply_update, apply_updates, finish, update_refs_owned,
}

some_inj : (a b : ObjectId) → some a ≡ some b → a ≡ b
some_inj a b e = cc

module _ (T : RefsTable) (C : OidCodec) (r : ℕ) where
  open T use {
    Table, select, delete_where, insert, update_where, rows-delete, select-delete, rows-update,
    select-update, insert_taken, insert_free,
  }
  open C use {as_bytes, try_from, try_from-as_bytes, as_bytes-try_from}

  -- Every ref of the repository resolves to what the map says.
  abbrev pub Shows : Table → RefMap → Type 0
  Shows t m = (name : Bytes) → resolve_ref T C r t name ≡ ok (m name)

  -- What the row of a name holds, by what the name resolves to.
  row :
      (t : Table) (name : Bytes) (o : Option ObjectId)
      → resolve_ref T C r t name ≡ ok o
      → (select t r name ≡ none) × (o ≡ none)
        ⊎ ((a : ObjectId) × (select t r name ≡ some (as_bytes a)) × (o ≡ some a) × IsObjectId a)
  unfolding resolve_ref
  row t name o h = elim (Option-cases (select t r name)) [
    | inl e ↦ inl (e, ground arith)
    | inr (v, e) ↦ elim (Option-cases (try_from v)) [
      | inl x ↦ absurd (ground arith)
      | inr (a, x) ↦
          inr (a, rw (as_bytes-try_from v a x).0 e, ground arith, (as_bytes-try_from v a x).1)
    ]
  ]

  as_bytes_eq :
      (a b : ObjectId) → IsObjectId a → IsObjectId b → eq_bytes (as_bytes a) (as_bytes b) ≡ (a == b)
  as_bytes_eq a b va vb =
      let injective = λ (e : as_bytes a ≡ as_bytes b).
        some_inj a b (sym (try_from-as_bytes a va) ∙ ap try_from e ∙ try_from-as_bytes b vb) in
      ground (arith, eq_bytes_iff (as_bytes a) (as_bytes b), injective)

  holds_row-holds :
      (t : Table) (m : RefMap) (name : Bytes) (oid : ObjectId)
      → IsObjectId oid
      → Shows t m
      → holds_row (select t r name) (as_bytes oid) ≡ holds (m name) oid
  holds_row-holds t m name oid vo h = elim (row t name (m name) (h name)) [
    | inl (e, x) ↦ rw (e, x) refl
    | inr (a, e, x, va) ↦ rw (e, x) (as_bytes_eq a oid va vo)
  ]

  -- The table after a write of `row` over the name of `u`, in the words of the contract.
  write-Shows :
      (t t' : Table) (m : RefMap) (u : RefUpdate) (value : Option Bytes)
      → value ≡ (if is_null u.new_oid then none else some (as_bytes u.new_oid))
      → IsValid u
      → Shows t m
      → ((n' : Bytes) → select t' r n' ≡ (if eq_bytes u.refname n' then value else select t r n'))
      → Shows t' (write m u)
  unfolding resolve_ref write
  write-Shows t t' m u value v valid h k j =
      ground (arith, k j, h j, try_from-as_bytes u.new_oid valid.1)

  delete-Shows :
      (t : Table) (m : RefMap) (u : RefUpdate)
      → IsValid u
      → is_null u.new_oid ≡ true
      → holds_row (select t r u.refname) (as_bytes u.old_oid) ≡ true
      → Shows t m
      → Shows (delete_where t r u.refname (as_bytes u.old_oid)).0 (write m u)
  delete-Shows t m u valid e held h =
      write-Shows t _ m u none (rw e) valid h
        (λ j. select-delete t r u.refname (as_bytes u.old_oid) r j ∙ rw (held, ==_refl r))

  update-Shows :
      (t : Table) (m : RefMap) (u : RefUpdate)
      → IsValid u
      → is_null u.new_oid ≡ false
      → holds_row (select t r u.refname) (as_bytes u.old_oid) ≡ true
      → Shows t m
      → Shows (update_where t (as_bytes u.new_oid) r u.refname (as_bytes u.old_oid)).0 (write m u)
  update-Shows t m u valid e held h =
      write-Shows t _ m u (some (as_bytes u.new_oid)) (rw e) valid h (λ j.
        select-update t (as_bytes u.new_oid) r u.refname (as_bytes u.old_oid) r j
        ∙ rw (held, ==_refl r))

  insert-Implements :
      (t : Table) (m : RefMap) (u : RefUpdate)
      → IsValid u
      → is_null u.new_oid ≡ false
      → Shows t m
      → Implements Shows
          (if is_absent (m u.refname) then some (write m u) else none)
          (insert_row T C r t u)
  unfolding insert_row
  insert-Implements t m u valid e h = elim (row t u.refname (m u.refname) (h u.refname)) [
    | inl (free, x) ↦
        let (t', made, reads) = insert_free t r u.refname (as_bytes u.new_oid) free in
        rw (x, made, insert_row)
          (write-Shows t t' m u (some (as_bytes u.new_oid)) (rw e) valid h
            (λ j. reads r j ∙ rw (==_refl r)))
    | inr (a, taken, x, va) ↦
        rw (x, insert_taken t r u.refname (as_bytes u.new_oid) (as_bytes a) taken, insert_row) tt
  ]

  apply_update-Implements :
      (t : Table) (m : RefMap) (u : RefUpdate)
      → IsValid u
      → Shows t m
      → Implements Shows (if allowed m u then some (write m u) else none) (apply_update T C r t u)
  unfolding apply_update allowed
  apply_update-Implements t m u valid h =
      let row_held = holds_row (select t r u.refname) (as_bytes u.old_oid) in
      let as_row = holds_row-holds t m u.refname u.old_oid valid.0 h in
      elim (Bool-cases (is_null u.new_oid)) [
        | inl e ↦
            rw (e, rows-delete t r u.refname (as_bytes u.old_oid), ← as_row)
              (elim (Bool-cases row_held) [
                | inl held ↦ rw held (delete-Shows t m u valid e held h)
                | inr other ↦ rw other tt
              ])
        | inr e ↦ elim (Bool-cases (is_null u.old_oid)) [
          | inl create ↦ rw (e, create) (insert-Implements t m u valid e h)
          | inr update ↦
              rw
                (
                  e,
                  update,
                  rows-update t (as_bytes u.new_oid) r u.refname (as_bytes u.old_oid),
                  ← as_row,
                )
                (elim (Bool-cases row_held) [
                  | inl held ↦ rw held (update-Shows t m u valid e held h)
                  | inr other ↦ rw other tt
                ])
        ]
      ]

  apply_updates-Implements :
      (t : Table) (m : RefMap) (us : List RefUpdate)
      → All IsValid us
      → Shows t m
      → Implements Shows (cas_all m us) (apply_updates T C r t us)
  unfolding apply_updates cas_all
  apply_updates-Implements t m [] valid h = h
  apply_updates-Implements t m (u ∷ us) valid h =
      Implements-bind Shows (allowed m u) (write m u) (cas_all (write m u) us)
        (apply_update T C r t u) (λ t'. apply_updates T C r t' us)
        (apply_update-Implements t m u valid.0 h)
        (λ t' shown. apply_updates-Implements t' (write m u) us valid.1 shown)

  -- What a batch leaves behind: all of its writes, or an error and the table as it was.
  abbrev pub Landed : Table → Option RefMap → Table × Result SqlError (Unit {0}) → Type 0
  Landed t none x = (x.0 ≡ t) × ((e : SqlError) × (x.1 ≡ err e))
  Landed t (some m) x = (x.1 ≡ ok tt) × Shows x.0 m

  finish-Landed :
      (t : Table) (spec : Option RefMap) (a : Result SqlError Table)
      → Implements Shows spec a
      → Landed t spec (finish T C true t a)
  unfolding finish
  finish-Landed t none (ok t') k = absurd k
  finish-Landed t none (err e) k = (refl, (e, refl))
  finish-Landed t (some m) (ok t') k = (refl, k)
  finish-Landed t (some m) (err e) k = absurd k

  -- For a table that shows the map `m`, and a batch of 160-bit ids: if the contract refuses the batch,
  -- `update_refs_owned` fails and leaves the table as it was; if the contract accepts it and the commit
  -- goes through, `update_refs_owned` succeeds and the table shows the map that the contract gives.
  pub update_refs_owned-Landed :
      (t : Table) (m : RefMap) (us : List RefUpdate)
      → All IsValid us
      → Shows t m
      → Landed t (cas_all m us) (update_refs_owned T C r true t us)
  unfolding update_refs_owned cas_all
  update_refs_owned-Landed t m [] valid h = (refl, h)
  update_refs_owned-Landed t m (u ∷ us) valid h =
      finish-Landed t (cas_all m (u ∷ us)) (apply_updates T C r t (u ∷ us))
        (apply_updates-Implements t m (u ∷ us) valid h)
