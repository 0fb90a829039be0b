-- ===== src/Kv/Refs/Listed.antt =====
-- `list_refs` of the KV backend lists what its refs resolve to.
use mathlib.Core.List.Memᴰ
use mathlib.Core.Bool.{false≢true}
use mizzle.Base.{
  ℕ, Bytes, true, false, Option, none, some, List, [], ◌∷◌, ok, ObjectId, OidCodec, ◌≡◌, ◌↔◌, refl,
  sym, ap, ◌∙◌, Memᴰ, Bool-cases, Option-cases, inl, inr, eq_bytes, eq_bytes_refl, eq_of_eq_bytes,
}
use mizzle.Refs.{RefMap}
use mizzle.Server.Snapshot.{HeadInfo, RefInfo, RefsSnapshot}
use mizzle.Kv.Keys.{refkey, refs_prefix_start, refs_prefix_end, repo_meta, repo_meta_head}
use mizzle.Kv.Keys.Layout.{IsU64}
use mizzle.Kv.Store.{KvStore}
use mizzle.Kv.Refs.{find_head, head_or_default, list_refs}
use mizzle.Kv.Refs.Update.{Shows, finalize_read_lem}
use mizzle.Kv.Refs.Scanned.{
  Match, read_pairs-Match, Match-sound, Match-complete, AreTexts, KeysAreBytes, scan_good,
  pairs_readable, ref_scanned, same_name,
}

module _ (K : KvStore) (C : OidCodec) (r : ℕ) where
  open K use {Store, get, scan}
  open C use {try_from}

  -- The ref with a name and an id is listed.
  abbrev pub Lists : List RefInfo → Bytes → ObjectId → Type 0
  Lists refs name oid = (x : RefInfo) × Memᴰ x refs × (x.name ≡ name) × (x.oid ≡ oid)

  same_oid : (a b : ObjectId) → some a ≡ some b → a ≡ b
  same_oid a b h = cc

  -- What the map says of the target of HEAD.
  abbrev pub head_of : RefMap → Bytes → Option HeadInfo
  head_of m target = elim (m target) [
    | none ↦ none
    | some oid ↦ some (record { oid = oid; symref_target = some target })
  ]

  head_of-some :
      (m : RefMap) (target : Bytes) (oid : ObjectId)
      → m target ≡ some oid
      → head_of m target ≡ some (record { oid = oid; symref_target = some target })
  head_of-some m target oid e = rw (e, head_of) refl

  find_head-hit :
      (target : Bytes) (x : RefInfo) (refs : List RefInfo)
      → eq_bytes x.name target ≡ true
      → find_head target (x ∷ refs) ≡ some (record { oid = x.oid; symref_target = some target })
  unfolding find_head
  find_head-hit target x refs e = rw (e, find_head) refl

  find_head-miss :
      (target : Bytes) (x : RefInfo) (refs : List RefInfo)
      → eq_bytes x.name target ≡ false
      → find_head target (x ∷ refs) ≡ find_head target refs
  unfolding find_head
  find_head-miss target x refs e = rw (e, find_head) refl

  Lists-later :
      (target : Bytes) (x : RefInfo) (refs : List RefInfo) (oid : ObjectId)
      → eq_bytes x.name target ≡ false
      → Lists (x ∷ refs) target oid
      → Lists refs target oid
  Lists-later target x refs oid e (y, m, n, o) = elim (Memᴰ.cases_cons m) [
    | inr later ↦ (y, later, n, o)
    | inl same ↦
        let is_target : x.name ≡ target = ap (λ (z : RefInfo). z.name) (sym same) ∙ n in
        absurd (false≢true (sym e ∙ ap (λ b. eq_bytes b target) is_target ∙ eq_bytes_refl target))
  ]

  find_head_lem :
      (m : RefMap) (target : Bytes) (refs : List RefInfo)
      → ((x : RefInfo) → Memᴰ x refs → m x.name ≡ some x.oid)
      → ((oid : ObjectId) → m target ≡ some oid → Lists refs target oid)
      → find_head target refs ≡ head_of m target
  unfolding find_head
  find_head_lem m target [] sound complete = elim (Option-cases (m target)) [
    | inl e ↦ rw (e, head_of) refl
    | inr (oid, e) ↦ (let (x, n, _, _) = complete oid e in absurd (Memᴰ.not-nil n))
  ]
  find_head_lem m target (x ∷ refs) sound complete = elim (Bool-cases (eq_bytes x.name target)) [
    | inl e ↦
        let is_x = ap m (sym (eq_of_eq_bytes x.name target e)) ∙ sound x (Memᴰ.head refl) in
        find_head-hit target x refs e ∙ sym (head_of-some m target x.oid is_x)
    | inr e ↦
        find_head-miss target x refs e
        ∙ find_head_lem m target refs (λ y n. sound y (Memᴰ.tail n))
            (λ oid k. Lists-later target x refs oid e (complete oid k))
  ]

  -- For a store whose refs resolve to what `m` says, where the names in `m` are texts and the keys
  -- are bytes, and a repository below 2 ^ 64: `list_refs` succeeds; it lists a ref with a name and an
  -- id exactly when `m` gives the id for the name; and its head is the ref that HEAD names, if `m`
  -- has it.
  pub list_refs_exact :
      (s : Store) (m : RefMap)
      → IsU64 r
      → Shows K C r s m
      → AreTexts K C r m
      → KeysAreBytes K C r s
      → (snapshot : RefsSnapshot) × (list_refs K C r s ≡ ok snapshot)
        × ((name : Bytes) (oid : ObjectId) → Lists snapshot.refs name oid ↔ (m name ≡ some oid))
        × (snapshot.head ≡ head_of m (head_or_default (get s (repo_meta r repo_meta_head))))
  unfolding list_refs
  list_refs_exact s m hr h texts bytes =
      let pairs = scan s (refs_prefix_start r) (refs_prefix_end r) in
      let target = head_or_default (get s (repo_meta r repo_meta_head)) in
      let good = λ (k v : Bytes) (n : Memᴰ (k, v) pairs). scan_good K C r s m k v h texts bytes n in
      let (refs, run, matched) =
        read_pairs-Match K C r pairs (pairs_readable K C r s m pairs texts good) in
      let sound = λ (x : RefInfo) (n : Memᴰ x refs). sound_at refs pairs x good matched n in
      let complete = λ (name : Bytes) (oid : ObjectId) (e : m name ≡ some oid).
        complete_at refs pairs name oid matched (ref_scanned K C r s m name oid hr h texts e) in
      (
        record { head = find_head target refs; refs = refs },
        rw (run, list_refs) (finalize_read_lem true _),
        λ name oid.
            ((λ (x, n, e, f). ap m (sym e) ∙ sound x n ∙ ap (λ o. some o) f), complete name oid),
        find_head_lem m target refs sound (complete target),
      )
    where
      sound_at :
          (refs : List RefInfo) (pairs : List (Bytes × Bytes)) (x : RefInfo)
          → ((k v : Bytes)
              → Memᴰ (k, v) pairs
              → (name : Bytes) × (oid : ObjectId) × (k ≡ refkey r name)
                × (try_from v ≡ some oid)
                × (m name ≡ some oid))
          → Match K C r pairs refs
          → Memᴰ x refs
          → m x.name ≡ some x.oid
      sound_at refs pairs x good matched n =
          let (v, in_pairs, t) = Match-sound K C r pairs refs x matched n in
          let (name, oid, e, f, g) = good (refkey r x.name) v in_pairs in
          ap m (same_name K C r x.name name e) ∙ g ∙ sym f ∙ t

      complete_at :
          (refs : List RefInfo) (pairs : List (Bytes × Bytes)) (name : Bytes) (oid : ObjectId)
          → Match K C r pairs refs
          → (v : Bytes) × Memᴰ (refkey r name, v) pairs × (try_from v ≡ some oid)
          → Lists refs name oid
      complete_at refs pairs name oid matched (v, n, t) =
          let (x, n', e, f) = Match-complete K C r pairs refs (refkey r name) v matched n in
          (x, n', sym (same_name K C r name x.name e), same_oid x.oid oid (sym f ∙ t))
