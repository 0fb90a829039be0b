-- ===== src/Kv/Repos/Added.antt =====
-- What a store shows of repositories, before and after one is added.
use mizzle.Base.{
  ℕ, ◌+◌, ◌%◌, ◌^◌, ◌<◌, Bytes, true, false, [], some, ok, ◌≡◌, refl, sym, ap, ◌∙◌, be_value, arith,
  eq_bytes, Bool-cases, inl, inr, OidCodec, if◌then◌else◌, eq_of_eq_bytes, eq_bytes_refl,
  length-be_bytes, be_value-be_bytes,
}
use mizzle.Kv.Keys.{repo_index, next_repo_id, repo_meta, repo_meta_exists}
use mizzle.Kv.Store.{KvStore}
use mizzle.Kv.Repos.{encode_u64, decode_u64, counter, add_repo}
use mizzle.Kv.Repos.Kept.{NoRef, NoRef-repo_index, NoRef-next_repo_id, NoRef-repo_meta}

module _ (K : KvStore) (C : OidCodec) where
  open K use {Store, get, put, delete}

  -- What a store shows of repositories, with `n` the next id: each path's id is below `n`, belongs
  -- to an existing repository, and to no other path.
  pub record Wf (s : Store) (n : ℕ) : Type 0 where
    pub counted : counter K s ≡ ok n
    pub positive : 0 < n
    pub fits : n < 2 ^ 64
    pub ids :
        (path v : Bytes)
        → get s (repo_index path) ≡ some v
        → (id : ℕ) × (v ≡ encode_u64 id)
          × (0 < id)
          × (id < n)
          × (get s (repo_meta id repo_meta_exists) ≡ some [])
    pub one_path :
        (p q v : Bytes) → get s (repo_index p) ≡ some v → get s (repo_index q) ≡ some v → p ≡ q

  -- Stores that show the same of repositories.
  abbrev pub Alike : Store → Store → Type 0
  Alike s t = (k : Bytes) → NoRef k → get t k ≡ get s k

  pub Wf-Alike : (s t : Store) (n : ℕ) → Alike s t → Wf s n → Wf t n
  unfolding counter
  Wf-Alike s t n same w = record {
    counted = rw (same next_repo_id NoRef-next_repo_id, counter) w.counted;
    positive = w.positive;
    fits = w.fits;
    ids = λ path v h.
        (let (id, e, z, l, m) =
            w.ids path v (sym (same (repo_index path) (NoRef-repo_index path)) ∙ h) in
          (
            id,
            e,
            z,
            l,
            same (repo_meta id repo_meta_exists) (NoRef-repo_meta id repo_meta_exists) ∙ m,
          ));
    one_path = λ p q v h k.
        w.one_path p q v (sym (same (repo_index p) (NoRef-repo_index p)) ∙ h)
          (sym (same (repo_index q) (NoRef-repo_index q)) ∙ k);
  }

  -- What `add_repo` leaves under each key of repositories.
  get-add_repo_counter :
      (s : Store) (path : Bytes) (n : ℕ)
      → get (add_repo K s path n) next_repo_id ≡ some (encode_u64 ((n + 1) % 2 ^ 64))
  unfolding add_repo next_repo_id repo_index repo_meta
  get-add_repo_counter s path n =
      rw
        (
          K.get-put _ _ _ next_repo_id,
          K.get-put _ (repo_index path) _ next_repo_id,
          K.get-put s _ _ next_repo_id,
        )
        refl

  get-add_repo_index :
      (s : Store) (path q : Bytes) (n : ℕ)
      → get (add_repo K s path n) (repo_index q)
        ≡ (if eq_bytes path q then some (encode_u64 n) else get s (repo_index q))
  unfolding add_repo next_repo_id repo_index repo_meta
  get-add_repo_index s path q n =
      rw
        (
          K.get-put _ (repo_meta n repo_meta_exists) _ (repo_index q),
          K.get-put _ (repo_index path) _ (repo_index q),
          K.get-put s next_repo_id _ (repo_index q),
        )
        refl

  get-add_repo_meta :
      (s : Store) (path : Bytes) (n id : ℕ)
      → get (add_repo K s path n) (repo_meta id repo_meta_exists) ≡ (
          if eq_bytes (repo_meta n repo_meta_exists) (repo_meta id repo_meta_exists)
          then some []
          else get s (repo_meta id repo_meta_exists))
  unfolding add_repo next_repo_id repo_index repo_meta
  get-add_repo_meta s path n id =
      rw
        (
          K.get-put _ (repo_meta n repo_meta_exists) _ (repo_meta id repo_meta_exists),
          K.get-put _ (repo_index path) _ (repo_meta id repo_meta_exists),
          K.get-put s next_repo_id _ (repo_meta id repo_meta_exists),
        )
        refl

  pub decode_u64-encode_u64 : (n : ℕ) → n < 2 ^ 64 → decode_u64 (encode_u64 n) ≡ ok n
  decode_u64-encode_u64 n h = rw (length-be_bytes 8 n, be_value-be_bytes 8 n h) refl

  encode_u64_inj : (m n : ℕ) → m < 2 ^ 64 → n < 2 ^ 64 → encode_u64 m ≡ encode_u64 n → m ≡ n
  encode_u64_inj m n hm hn e =
      sym (be_value-be_bytes 8 m hm) ∙ ap (λ b. be_value 0 b) e ∙ be_value-be_bytes 8 n hn

  counted-add_repo :
      (s : Store) (path : Bytes) (n : ℕ)
      → n + 1 < 2 ^ 64
      → counter K (add_repo K s path n) ≡ ok (n + 1)
  unfolding counter
  counted-add_repo s path n h =
      let small : (n + 1) % 2 ^ 64 ≡ n + 1 = omega arith in
      rw (get-add_repo_counter s path n, counter)
        (ap (λ m. decode_u64 (encode_u64 m)) small ∙ decode_u64-encode_u64 (n + 1) h)

  pub index_hit :
      (s : Store) (path q : Bytes) (n : ℕ)
      → eq_bytes path q ≡ true
      → get (add_repo K s path n) (repo_index q) ≡ some (encode_u64 n)
  index_hit s path q n e = get-add_repo_index s path q n ∙ rw e refl

  pub index_miss :
      (s : Store) (path q : Bytes) (n : ℕ)
      → eq_bytes path q ≡ false
      → get (add_repo K s path n) (repo_index q) ≡ get s (repo_index q)
  index_miss s path q n e = get-add_repo_index s path q n ∙ rw e refl

  meta_kept :
      (s : Store) (path : Bytes) (n id : ℕ)
      → get s (repo_meta id repo_meta_exists) ≡ some []
      → get (add_repo K s path n) (repo_meta id repo_meta_exists) ≡ some []
  meta_kept s path n id h =
      elim (Bool-cases (eq_bytes (repo_meta n repo_meta_exists) (repo_meta id repo_meta_exists))) [
        | inl e ↦ get-add_repo_meta s path n id ∙ rw e refl
        | inr e ↦ get-add_repo_meta s path n id ∙ rw e h
      ]

  meta_new :
      (s : Store) (path : Bytes) (n : ℕ)
      → get (add_repo K s path n) (repo_meta n repo_meta_exists) ≡ some []
  meta_new s path n =
      get-add_repo_meta s path n n ∙ rw (eq_bytes_refl (repo_meta n repo_meta_exists)) refl

  same_bytes : (a b : Bytes) → some a ≡ some b → a ≡ b
  same_bytes a b e = cc

  -- The new id is no other path's.
  index_new :
      (s : Store) (q v : Bytes) (n : ℕ)
      → Wf s n
      → get s (repo_index q) ≡ some v
      → v ≡ encode_u64 n
      → ⊥
  index_new s q v n w h e =
      let (id, e', z, l, m) = w.ids q v h in
      let same = encode_u64_inj id n (omega (arith, w.fits)) w.fits (sym e' ∙ e) in omega arith

  pub Wf-add_repo :
      (s : Store) (path : Bytes) (n : ℕ)
      → Wf s n
      → n + 1 < 2 ^ 64
      → Wf (add_repo K s path n) (n + 1)
  Wf-add_repo s path n w room = record {
    counted = counted-add_repo s path n room;
    positive = omega arith;
    fits = room;
    ids = λ q v h. elim (Bool-cases (eq_bytes path q)) [
      | inl e ↦ (
        n,
        same_bytes v (encode_u64 n) (sym h ∙ index_hit s path q n e),
        w.positive,
        omega arith,
        meta_new s path n,
      )
      | inr e ↦
          let (id, e', z, l, m) = w.ids q v (sym (index_miss s path q n e) ∙ h) in
          (id, e', z, omega arith, meta_kept s path n id m)
    ];
    one_path = λ p q v h k. elim (Bool-cases (eq_bytes path p)) [
      | inl e ↦
          let is_new = same_bytes v (encode_u64 n) (sym h ∙ index_hit s path p n e) in
          elim (Bool-cases (eq_bytes path q)) [
            | inl e' ↦ sym (eq_of_eq_bytes path p e) ∙ eq_of_eq_bytes path q e'
            | inr e' ↦ absurd (index_new s q v n w (sym (index_miss s path q n e') ∙ k) is_new)
          ]
      | inr e ↦ elim (Bool-cases (eq_bytes path q)) [
        | inl e' ↦
            let is_new = same_bytes v (encode_u64 n) (sym k ∙ index_hit s path q n e') in
            absurd (index_new s p v n w (sym (index_miss s path p n e) ∙ h) is_new)
        | inr e' ↦
            w.one_path p q v (sym (index_miss s path p n e) ∙ h)
              (sym (index_miss s path q n e') ∙ k)
      ]
    ];
  }
