-- ===== src/Kv/Repos/Opened.antt =====
-- What `init_repo` gives a path is its own, when it stays with the path, and when it does not.
use mizzle.Base.Result.{Result}
use mizzle.Base.{
  ℕ, ◌+◌, ◌^◌, ◌<◌, Bytes, Bool, true, false, [], Option, none, some, ok, err, ◌≡◌, refl, sym, ap,
  ◌∙◌, arith, eq_bytes, subst, Bool-cases, Option-cases, inl, inr, OidCodec, eq_of_eq_bytes,
  eq_bytes_refl, ◌≢◌,
}
use mizzle.Kv.Keys.{repo_index, next_repo_id, repo_meta, repo_meta_exists}
use mizzle.Kv.Txn.{finalize_read, finalize_write}
use mizzle.Kv.Store.{KvStore}
use mizzle.Kv.Repos.{
  RepoError, no_repository, encode_u64, decode_u64, counter, add_repo, probe, after_probe,
  init_repo_inner, open_inner, alloc, alloc_commit,
}
use mizzle.Kv.Repos.Kept.{NoRef-repo_index, get-update_refs}
use mizzle.Kv.Repos.Added.{Wf, Wf-Alike, Wf-add_repo, index_hit, index_miss, decode_u64-encode_u64}
use mizzle.Kv.Repos.History.{
  Step, init_step, refs_step, Steps, here, next, AnyStart, Unraced, Adds, Opens, Seen, alloc_new,
  fresh, probe-Ran,
}

module _ (K : KvStore) (C : OidCodec) where
  open K use {Store, get, put}

  Adds-alloc :
      (commits : Bool) (started now : Store) (path : Bytes) (n : ℕ)
      → Wf K C now n
      → Adds K C started now path n
          (finalize_write {0, 0} commits alloc_commit now (alloc K started now path)).0
  unfolding alloc finalize_write
  Adds-alloc commits started now path n w = elim (Option-cases (get started (repo_index path))) [
    | inr (v, e) ↦ inl (rw (e, alloc) (unchanged commits (decode_u64 v)))
    | inl e ↦
        subst
          (λ r. Adds K C started now path n (finalize_write {0, 0} commits alloc_commit now r).0)
          (sym (alloc_new K C started now path n e w.counted))
          (fresh K C commits started now path n w e).0
  ]
    where
      unchanged :
          (commits : Bool) (r : Result RepoError ℕ)
          → (finalize_write {0, 0} commits alloc_commit now (now, r)).0 ≡ now
      unchanged true (ok v) = refl
      unchanged false (ok v) = refl
      unchanged true (err e) = refl
      unchanged false (err e) = refl

  Adds-init :
      (commits : Bool) (probed started now : Store) (path : Bytes) (n : ℕ)
      → Wf K C now n
      → Adds K C started now path n (init_repo_inner K commits probed started now path).0
  unfolding init_repo_inner
  Adds-init commits probed started now path n w =
      probed_as (finalize_read {0, 0} true (probe K probed path))
    where
      probed_as :
          (r : Result RepoError (Option ℕ))
          → Adds K C started now path n (after_probe K commits started now path r).0
      probed_as (err e) = inl refl
      probed_as (ok (some id)) = inl refl
      probed_as (ok none) = Adds-alloc commits started now path n w

  module _ (Q : Store → Store → Bytes → Type 0) where
    Wf-Step : (s t : Store) (n : ℕ) → Wf K C s n → Step K C Q s t → (m : ℕ) × Wf K C t m
    Wf-Step s t n w (init_step commits probed started path q room) =
        elim (Adds-init commits probed started s path n w) [
          | inl e ↦ (n, subst (λ x. Wf K C x n) (sym e) w)
          | inr (absent, e) ↦ (
            n + 1,
            subst (λ x. Wf K C x (n + 1)) (sym e) (Wf-add_repo K C s path n w (room n w.counted)),
          )
        ]
    Wf-Step s t n w (refs_step commits repo_id us) =
        (n, Wf-Alike K C s t n (λ k h. get-update_refs K C repo_id commits s us k h) w)

    Wf-Steps : (s t : Store) (n : ℕ) → Wf K C s n → Steps K C Q s t → (m : ℕ) × Wf K C t m
    Wf-Steps s t n w here = (n, w)
    Wf-Steps s t n w (next {s = x} steps step) =
        let (m, w') = Wf-Steps s x n w steps in Wf-Step x t m w' step

  Seen-add_repo :
      (s : Store) (path p : Bytes) (n : ℕ)
      → (p ≡ path → get s (repo_index path) ≡ none)
      → Seen K C s (add_repo K s path n) p
  Seen-add_repo s path p n absent v h = elim (Bool-cases (eq_bytes path p)) [
    | inl e ↦
        let one = eq_of_eq_bytes path p e in
        let same : get s (repo_index p) ≡ none =
          subst (λ q. get s (repo_index q) ≡ none) one (absent (sym one)) in
        cc
    | inr e ↦ index_miss K C s path p n e ∙ h
  ]

  Seen-Step :
      (s t : Store) (n : ℕ) (p : Bytes) → Wf K C s n → Step K C (Unraced K C p) s t → Seen K C s t p
  Seen-Step s t n p w (init_step commits probed started path q room) v h =
      elim (Adds-init commits probed started s path n w) [
        | inl e ↦ subst (λ x. get x (repo_index p) ≡ some v) (sym e) h
        | inr (absent, e) ↦
            subst (λ x. get x (repo_index p) ≡ some v) (sym e)
              (Seen-add_repo s path p n (λ one. q one absent) v h)
      ]
  Seen-Step s t n p w (refs_step commits repo_id us) v h =
      get-update_refs K C repo_id commits s us (repo_index p) (NoRef-repo_index p) ∙ h

  Seen-Steps :
      (s : Store) (p : Bytes) (t : Store) (n : ℕ)
      → Wf K C s n
      → Steps K C (Unraced K C p) s t
      → Seen K C s t p
  Seen-Steps s p t n w here v h = h
  Seen-Steps s p t n w (next {s = x} steps step) v h =
      let (m, w') = Wf-Steps (Unraced K C p) s x n w steps in
      Seen-Step x t m p w' step v (Seen-Steps s p x n w steps v h)

  -- A store with no keys.
  abbrev pub IsEmpty : Store → Type 0
  IsEmpty s = (k : Bytes) → get s k ≡ none

  Wf-empty : (s : Store) → IsEmpty s → Wf K C s 1
  unfolding counter
  Wf-empty s h = record {
    counted = rw (h next_repo_id, counter) refl;
    positive = omega arith;
    fits = omega arith;
    ids = λ path v e. absurd (no_value (get s (repo_index path)) v (h (repo_index path)) e);
    one_path = λ p q v e k. absurd (no_value (get s (repo_index p)) v (h (repo_index p)) e);
  }
    where
      no_value : (o : Option Bytes) (v : Bytes) → o ≡ none → o ≡ some v → ⊥
      no_value o v e k = cc

  open_inner-some :
      (s : Store) (path v : Bytes) (id : ℕ)
      → get s (repo_index path) ≡ some v
      → decode_u64 v ≡ ok id
      → open_inner K s path ≡ ok id
  unfolding open_inner finalize_read
  open_inner-some s path v id e d = rw (e, open_inner, d) refl

  -- For stores that clients have led to by steps, from one with no keys, where an `init_repo` reads
  -- `probed`, starts its transaction in `started`, finds `now` at its commit, and gives the id `id`: if no
  -- transaction of those steps that started without an id of the path finds one at its commit, then
  -- the id is not 0, and at any later time `open` gives it for the path.
  pub open_inner-init_repo_inner :
      (start probed started now later : Store) (commits : Bool) (path : Bytes) (id : ℕ)
      → IsEmpty start
      → Steps K C (Unraced K C path) start probed
      → Steps K C (Unraced K C path) probed started
      → Steps K C (Unraced K C path) started now
      → (init_repo_inner K commits probed started now path).1 ≡ ok id
      → Steps K C (Unraced K C path) (init_repo_inner K commits probed started now path).0 later
      → ((n : ℕ) → counter K now ≡ ok n → n + 1 < 2 ^ 64)
      → (0 < id) × (open_inner K later path ≡ ok id)
  open_inner-init_repo_inner start probed started now later commits path id h before between running
        gives after room =
      let Q = Unraced K C path in
      let (l, wp) = Wf-Steps Q start probed 1 (Wf-empty start h) before in
      let (m, ws) = Wf-Steps Q probed started l wp between in
      let (n, wn) = Wf-Steps Q started now m ws running in
      let kept = Seen-Steps started path now m ws running in
      let ran =
        (probe-Ran K C commits probed started now path l m n wp ws wn
          (λ v e. kept v (Seen-Steps probed path started l wp between v e)) kept).1 in
      let (k, wr) =
        Wf-Step (AnyStart K C) now (init_repo_inner K commits probed started now path).0 n wn
          (init_step commits probed started path tt room) in
      opened (init_repo_inner K commits probed started now path) k ran gives wr after
    where
      opened :
          (r : Store × Result RepoError ℕ) (k : ℕ)
          → Opens K C path r
          → r.1 ≡ ok id
          → Wf K C r.0 k
          → Steps K C (Unraced K C path) r.0 later
          → (0 < id) × (open_inner K later path ≡ ok id)
      opened (s, err e) k o g w steps = cc
      opened (s, ok i) k (e, z, small) g w steps =
          let same : i ≡ id = cc in
          let there = Seen-Steps s path later k w steps (encode_u64 i) e in
          (
            subst (λ x. 0 < x) same z,
            open_inner-some later path (encode_u64 i) id there
                (decode_u64-encode_u64 K C i small ∙ ap (λ x. ok x) same),
          )

  open_inner-none :
      (s : Store) (path : Bytes)
      → get s (repo_index path) ≡ none
      → open_inner K s path ≡ err (no_repository path)
  unfolding open_inner finalize_read
  open_inner-none s path e = rw (e, open_inner) refl

  index_of_open :
      (s : Store) (n : ℕ) (path : Bytes) (id : ℕ)
      → Wf K C s n
      → open_inner K s path ≡ ok id
      → (get s (repo_index path) ≡ some (encode_u64 id))
        × (get s (repo_meta id repo_meta_exists) ≡ some [])
        × (id < n)
  index_of_open s n path id w h = elim (Option-cases (get s (repo_index path))) [
    | inl e ↦ (let shut = open_inner-none s path e in absurd (ok_not_err _ _ (sym h ∙ shut)))
    | inr (v, e) ↦
        let (i, same, z, l, m) = w.ids path v e in
        let d = ap (λ b. decode_u64 b) same ∙ decode_u64-encode_u64 K C i (omega (arith, w.fits)) in
        let is_id = same_id i id (sym (open_inner-some s path v i e d) ∙ h) in
        (
          e ∙ ap (λ b. some b) (same ∙ ap encode_u64 is_id),
          subst (λ x. get s (repo_meta x repo_meta_exists) ≡ some []) is_id m,
          subst (λ x. x < n) is_id l,
        )
  ]
    where
      ok_not_err : (i : ℕ) (e : RepoError) → ◌≡◌ {A = Result RepoError ℕ} (ok i) (err e) → ⊥
      ok_not_err i e h = cc

      same_id : (i j : ℕ) → ◌≡◌ {A = Result RepoError ℕ} (ok i) (ok j) → i ≡ j
      same_id i j h = cc

  -- For a store that clients have led to by steps from one with no keys: an id that `open` gives for
  -- a path has the mark of an existing repository, and `open` gives it for no other path.
  pub open_inner_injective :
      (start s : Store) (p q : Bytes) (id : ℕ)
      → IsEmpty start
      → Steps K C (AnyStart K C) start s
      → open_inner K s p ≡ ok id
      → (get s (repo_meta id repo_meta_exists) ≡ some []) × (open_inner K s q ≡ ok id → p ≡ q)
  open_inner_injective start s p q id h steps opens =
      let (n, w) = Wf-Steps (AnyStart K C) start s 1 (Wf-empty start h) steps in
      let (has_p, marked, below) = index_of_open s n p id w opens in
      (marked, λ opens_q. w.one_path p q (encode_u64 id) has_p (index_of_open s n q id w opens_q).0)

  -- For a store that clients have led to by steps from one with no keys, and in which `open` gives the
  -- id `a` for a path: an `init_repo` that commits there, and whose fast path and transaction's start
  -- saw no id of the path, gives another id, which `open` then gives.
  pub init_repo_inner-raced :
      (start probed started now : Store) (path : Bytes) (a : ℕ)
      → IsEmpty start
      → Steps K C (AnyStart K C) start now
      → get probed (repo_index path) ≡ none
      → get started (repo_index path) ≡ none
      → open_inner K now path ≡ ok a
      → (n : ℕ) × ((init_repo_inner K true probed started now path).1 ≡ ok n)
        × (n ≢ a)
        × (open_inner K (init_repo_inner K true probed started now path).0 path ≡ ok n)
  unfolding init_repo_inner probe finalize_read finalize_write
  init_repo_inner-raced start probed started now path a h steps unprobed unseen opens =
      let (n, w) = Wf-Steps (AnyStart K C) start now 1 (Wf-empty start h) steps in
      let (has, marked, below) = index_of_open now n path a w opens in
      let ran : init_repo_inner K true probed started now path ≡ (add_repo K now path n, ok n) =
        rw (unprobed, alloc_new K C started now path n unseen w.counted, init_repo_inner, probe)
          refl in
      let there = index_hit K C now path path n (eq_bytes_refl path) in
      (
        n,
        rw ran refl,
        (λ e. absurd (omega (arith, e))),
        rw ran (
            open_inner-some (add_repo K now path n) path (encode_u64 n) n there
              (decode_u64-encode_u64 K C n w.fits)),
      )
