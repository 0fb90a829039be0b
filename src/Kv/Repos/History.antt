-- ===== src/Kv/Repos/History.antt =====
-- How a store of repositories may change, and what an `init_repo` gives.
use mizzle.Base.Result.{Result}
use mizzle.Base.{
  ℕ, ◌+◌, ◌^◌, ◌<◌, Bytes, Bool, true, false, List, none, some, ok, err, ◌≡◌, refl, sym, ap, ◌∙◌,
  arith, subst, Option-cases, inl, inr, ◌⊎◌, OidCodec, eq_bytes_refl,
}
use mizzle.Refs.{RefUpdate}
use mizzle.Kv.Keys.{repo_index}
use mizzle.Kv.Txn.{finalize_write, finalize_read}
use mizzle.Kv.Store.{KvStore}
use mizzle.Kv.Refs.{update_refs}
use mizzle.Kv.Repos.{
  RepoError, encode_u64, decode_u64, counter, add_repo, alloc, probe, init_repo_inner, alloc_commit,
}
use mizzle.Kv.Repos.Added.{Wf, index_hit, decode_u64-encode_u64}

module _ (K : KvStore) (C : OidCodec) where
  open K use {Store, get, put, delete}

  -- A step of some client: an `init_repo` that read `probed` before and whose transaction started in
  -- `started`, where `Q` allows it, or an `update_refs`. No more than 2 ^ 64 - 2 repositories have been
  -- added.
  pub data Step (Q : Store → Store → Bytes → Type 0) : Store → Store → Type 0 where
    init_step :
        {now : Store} (commits : Bool) (probed started : Store) (path : Bytes)
        → Q started now path
        → ((n : ℕ) → counter K now ≡ ok n → n + 1 < 2 ^ 64)
        → Step Q now (init_repo_inner K commits probed started now path).0
    refs_step :
        {now : Store} (commits : Bool) (repo_id : ℕ) (us : List RefUpdate)
        → Step Q now (update_refs K C repo_id commits now us).0

  pub data Steps (Q : Store → Store → Bytes → Type 0) (start : Store) : Store → Type 0 where
    here : Steps Q start start
    next : {s t : Store} → Steps Q start s → Step Q s t → Steps Q start t

  -- Any transaction may have started anywhere.
  abbrev pub AnyStart : Store → Store → Bytes → Type 0
  AnyStart started now path = Unit

  -- Between the start and the commit of a transaction for `path`, no other one gave it an id.
  abbrev pub Unraced : Bytes → Store → Store → Bytes → Type 0
  Unraced path started now q =
      path ≡ q → get started (repo_index q) ≡ none → get now (repo_index q) ≡ none

  -- The new id of a path that succeeds is what the store has for it.
  abbrev pub Opens : Bytes → Store × Result RepoError ℕ → Type 0
  Opens path (s, ok id) =
      (get s (repo_index path) ≡ some (encode_u64 id)) × (0 < id) × (id < 2 ^ 64)
  Opens path (s, err e) = Unit

  -- An `init_repo` changes nothing, or adds its path, which had no id at the transaction's start.
  abbrev pub Adds : Store → Store → Bytes → ℕ → Store → Type 0
  Adds started now path n s =
      (s ≡ now) ⊎ ((get started (repo_index path) ≡ none) × (s ≡ add_repo K now path n))

  abbrev pub Ran : Store → Store → Bytes → ℕ → Store × Result RepoError ℕ → Type 0
  Ran started now path n r = Adds started now path n r.0 × Opens path r

  pub found :
      (s : Store) (n : ℕ) (path v : Bytes)
      → Wf K C s n
      → get s (repo_index path) ≡ some v
      → (id : ℕ) × (decode_u64 v ≡ ok id) × (v ≡ encode_u64 id) × (0 < id) × (id < 2 ^ 64)
  found s n path v w h =
      let (id, e, z, l, m) = w.ids path v h in
      let small : id < 2 ^ 64 = omega (arith, w.fits) in
      (id, ap (λ b. decode_u64 b) e ∙ decode_u64-encode_u64 K C id small, e, z, small)

  -- A reader that saw the path with an id, which the store still has.
  abbrev pub Seen : Store → Store → Bytes → Type 0
  Seen before now path =
      (v : Bytes) → get before (repo_index path) ≡ some v → get now (repo_index path) ≡ some v

  alloc_again :
      (started now : Store) (path v : Bytes) (id : ℕ)
      → get started (repo_index path) ≡ some v
      → decode_u64 v ≡ ok id
      → alloc K started now path ≡ (now, ok id)
  unfolding alloc
  alloc_again started now path v id e d = rw (e, alloc, d) refl

  pub alloc_new :
      (started now : Store) (path : Bytes) (n : ℕ)
      → get started (repo_index path) ≡ none
      → counter K now ≡ ok n
      → alloc K started now path ≡ (add_repo K now path n, ok n)
  unfolding alloc
  alloc_new started now path n e c = rw (e, alloc, c) refl

  again :
      (commits : Bool) (started now : Store) (path : Bytes) (n id : ℕ)
      → get now (repo_index path) ≡ some (encode_u64 id)
      → 0 < id
      → id < 2 ^ 64
      → Ran started now path n (finalize_write {0, 0} commits alloc_commit now (now, ok id))
  unfolding finalize_write
  again true started now path n id e z small = (inl refl, (e, z, small))
  again false started now path n id e z small = (inl refl, tt)

  pub fresh :
      (commits : Bool) (started now : Store) (path : Bytes) (n : ℕ)
      → Wf K C now n
      → get started (repo_index path) ≡ none
      → Ran started now path n
          (finalize_write {0, 0} commits alloc_commit now (add_repo K now path n, ok n))
  unfolding finalize_write
  fresh true started now path n w e =
      (inr (e, refl), (index_hit K C now path path n (eq_bytes_refl path), w.positive, w.fits))
  fresh false started now path n w e = (inl refl, tt)

  alloc-Ran :
      (commits : Bool) (started now : Store) (path : Bytes) (m n : ℕ)
      → Wf K C started m
      → Wf K C now n
      → Seen started now path
      → Ran started now path n (finalize_write commits alloc_commit now (alloc K started now path))
  alloc-Ran commits started now path m n ws wn seen =
      elim (Option-cases (get started (repo_index path))) [
        | inr (v, e) ↦
            let (id, d, same, z, small) = found started m path v ws e in
            subst (λ r. Ran started now path n (finalize_write {0, 0} commits alloc_commit now r))
              (sym (alloc_again started now path v id e d))
              (again commits started now path n id (seen v e ∙ ap (λ b. some b) same) z small)
        | inl e ↦
            subst (λ r. Ran started now path n (finalize_write {0, 0} commits alloc_commit now r))
              (sym (alloc_new started now path n e wn.counted))
              (fresh commits started now path n wn e)
      ]

  pub probe-Ran :
      (commits : Bool) (probed started now : Store) (path : Bytes) (l m n : ℕ)
      → Wf K C probed l
      → Wf K C started m
      → Wf K C now n
      → Seen probed now path
      → Seen started now path
      → Ran started now path n (init_repo_inner K commits probed started now path)
  unfolding init_repo_inner probe finalize_read
  probe-Ran commits probed started now path l m n wp ws wn seen_probed seen_started =
      elim (Option-cases (get probed (repo_index path))) [
        | inr (v, e) ↦
            let (id, d, same, z, small) = found probed l path v wp e in
            rw (e, init_repo_inner, probe, d)
              (inl refl, (seen_probed v e ∙ ap (λ b. some b) same, z, small))
        | inl e ↦
            rw (e, init_repo_inner, probe)
              (alloc-Ran commits started now path m n ws wn seen_started)
      ]
