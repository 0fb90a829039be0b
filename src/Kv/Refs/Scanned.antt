-- ===== src/Kv/Refs/Scanned.antt =====
-- The pairs that the scan of refs gives, and the refs that they stand for.
use mathlib.Core.List.Memᴰ
use mizzle.Base.Result.{Result}
use mizzle.Base.{
  ℕ, Bytes, AreBytes, true, Option, none, some, List, [], ◌∷◌, ◌++◌, ok, err, ObjectId, OidCodec,
  ◌≡◌, refl, sym, ap, ◌∙◌, arith, Memᴰ, All, Option-cases, inl, inr, eq_bytes, eq_bytes_refl,
  eq_of_eq_bytes, starts_with, length, drop, is_utf8, AreBytes-be_bytes, ==_refl,
}
use mizzle.Refs.{RefMap}
use mizzle.Server.Snapshot.{RefInfo}
use mizzle.Kv.Keys.{prefix_ref, u64_be, refkey, refs_prefix_start, refs_prefix_end}
use mizzle.Kv.Keys.Scan.{increment_in_place_range}
use mizzle.Kv.Keys.Layout.{IsU64, refs_scan-refkey, refname_from_key-refkey}
use mizzle.Kv.Store.{KvStore}
use mizzle.Kv.Refs.{RefError, corrupt, decode_ref, read_pair, read_pairs}
use mizzle.Kv.Refs.Update.{Shows, decode-resolve, refkey_eq}

starts_with-drop : (p k : Bytes) → starts_with p k ≡ true → k ≡ p ++ drop (length p) k
starts_with-drop [] k h = refl
starts_with-drop (x ∷ p) [] h = cc
starts_with-drop (x ∷ p) (y ∷ k) h = ground (arith, starts_with-drop p k)

abbrev pub ref_info : Bytes → ObjectId → RefInfo
ref_info name oid = record { name = name; oid = oid; peeled = none; symref_target = none }

module _ (K : KvStore) (C : OidCodec) (r : ℕ) where
  open K use {Store, get, scan}
  open C use {try_from}

  -- A pair of the scan that can be read.
  abbrev pub Good : Bytes × Bytes → Type 0
  Good (k, v) =
      (name : Bytes) × (oid : ObjectId) × (k ≡ refkey r name)
      × (try_from v ≡ some oid)
      × (is_utf8 name ≡ true)

  -- The refs that the pairs stand for, one by one.
  abbrev pub Match : List (Bytes × Bytes) → List RefInfo → Type 0
  Match [] [] = Unit
  Match [] (x ∷ xs) = ⊥
  Match (p ∷ ps) [] = ⊥
  Match (p ∷ ps) (x ∷ xs) = (p.0 ≡ refkey r x.name) × (try_from p.1 ≡ some x.oid) × Match ps xs

  read_pair-Good :
      (k v name : Bytes) (oid : ObjectId)
      → k ≡ refkey r name
      → try_from v ≡ some oid
      → is_utf8 name ≡ true
      → read_pair K C r (k, v) ≡ ok (ref_info name oid)
  unfolding read_pair
  read_pair-Good k v name oid e f u = rw (e, read_pair, refname_from_key-refkey r name u, f) refl

  pub read_pairs-Match :
      (pairs : List (Bytes × Bytes))
      → All Good pairs
      → (refs : List RefInfo) × (read_pairs K C r pairs ≡ ok refs) × Match pairs refs
  unfolding read_pairs
  read_pairs-Match [] h = ([], refl, tt)
  read_pairs-Match ((k, v) ∷ pairs) ((name, oid, e, f, u), h) =
      let (refs, run, m) = read_pairs-Match pairs h in
      (
        ref_info name oid ∷ refs,
        rw (read_pairs, read_pair-Good k v name oid e f u, run) refl,
        (e, f, m),
      )

  pub Match-sound :
      (pairs : List (Bytes × Bytes)) (refs : List RefInfo) (x : RefInfo)
      → Match pairs refs
      → Memᴰ x refs
      → (v : Bytes) × Memᴰ (refkey r x.name, v) pairs × (try_from v ≡ some x.oid)
  Match-sound [] [] x h m = absurd (Memᴰ.not-nil m)
  Match-sound [] (y ∷ refs) x h m = absurd h
  Match-sound (p ∷ pairs) [] x h m = absurd h
  Match-sound ((k, v) ∷ pairs) (y ∷ refs) x (e, f, h) m = elim (Memᴰ.cases_cons m) [
    | inl same ↦ (
      v,
      Memᴰ.head (ap (λ j. (j, v)) (ap (λ (z : RefInfo). refkey r z.name) same ∙ sym e)),
      f ∙ ap (λ (z : RefInfo). some z.oid) (sym same),
    )
    | inr later ↦ let (v', m', f') = Match-sound pairs refs x h later in (v', Memᴰ.tail m', f')
  ]

  pub Match-complete :
      (pairs : List (Bytes × Bytes)) (refs : List RefInfo) (k v : Bytes)
      → Match pairs refs
      → Memᴰ (k, v) pairs
      → (x : RefInfo) × Memᴰ x refs × (k ≡ refkey r x.name) × (try_from v ≡ some x.oid)
  Match-complete [] refs k v h m = absurd (Memᴰ.not-nil m)
  Match-complete (p ∷ pairs) [] k v h m = absurd h
  Match-complete ((j, w) ∷ pairs) (y ∷ refs) k v (e, f, h) m = elim (Memᴰ.cases_cons m) [
    | inl same ↦ (y, Memᴰ.head refl, ap (λ p. p.0) same ∙ e, ap (λ p. try_from p.1) same ∙ f)
    | inr later ↦
        let (x, m', e', f') = Match-complete pairs refs k v h later in (x, Memᴰ.tail m', e', f')
  ]

  -- `m` gives only ids of names that are texts, and the store's keys are bytes.
  abbrev pub AreTexts : RefMap → Type 0
  AreTexts m =
      (name : Bytes) (oid : ObjectId) → m name ≡ some oid → (is_utf8 name ≡ true) × AreBytes name

  abbrev pub KeysAreBytes : Store → Type 0
  KeysAreBytes s = (k v : Bytes) → get s k ≡ some v → AreBytes k

  same_ok :
      (a b : Option ObjectId) → ◌≡◌ {A = Result RefError (Option ObjectId)} (ok a) (ok b) → a ≡ b
  same_ok a b h = cc

  err_not_ok :
      (e : RefError) (b : Option ObjectId)
      → ◌≡◌ {A = Result RefError (Option ObjectId)} (err e) (ok b)
      → ⊥
  err_not_ok e b h = cc

  decode_ref-ok :
      (name v : Bytes) (oid : ObjectId)
      → try_from v ≡ some oid
      → decode_ref K C name (some v) ≡ ok (some oid)
  unfolding decode_ref
  decode_ref-ok name v oid e = rw (e, decode_ref) refl

  decode_ref-corrupt :
      (name v : Bytes) → try_from v ≡ none → decode_ref K C name (some v) ≡ err (corrupt name)
  unfolding decode_ref
  decode_ref-corrupt name v e = rw (e, decode_ref) refl

  decode_ref-some :
      (name v : Bytes) (o : Option ObjectId)
      → decode_ref K C name (some v) ≡ ok o
      → (oid : ObjectId) × (try_from v ≡ some oid) × (o ≡ some oid)
  decode_ref-some name v o h = elim (Option-cases (try_from v)) [
    | inr (oid, e) ↦ (oid, e, same_ok o (some oid) (sym h ∙ decode_ref-ok name v oid e))
    | inl e ↦ absurd (err_not_ok (corrupt name) o (sym (decode_ref-corrupt name v e) ∙ h))
  ]

  decode_ref-none : (name : Bytes) → decode_ref K C name none ≡ ok none
  unfolding decode_ref
  decode_ref-none name = refl

  pub scan_good :
      (s : Store) (m : RefMap) (k v : Bytes)
      → Shows K C r s m
      → AreTexts m
      → KeysAreBytes s
      → Memᴰ (k, v) (scan s (refs_prefix_start r) (refs_prefix_end r))
      → (name : Bytes) × (oid : ObjectId) × (k ≡ refkey r name)
        × (try_from v ≡ some oid)
        × (m name ≡ some oid)
  unfolding refs_prefix_start refs_prefix_end refkey
  scan_good s m k v h texts bytes mem =
      let (got, inside) = K.scan_sound s (refs_prefix_start r) (refs_prefix_end r) k v mem in
      let prefix = prefix_ref ∷ u64_be r in
      let starts =
        sym (
          increment_in_place_range prefix k (inl (omega arith)) (omega arith, AreBytes-be_bytes 8 r)
            (bytes k v got))
        ∙ inside in
      let name = drop (length prefix) k in
      let is_key : k ≡ refkey r name = starts_with-drop prefix k starts in
      let shown = decode-resolve K C r s m name h in
      let (oid, e, o) =
        decode_ref-some name v (m name)
          (ap (λ g. decode_ref K C name g) (sym got ∙ ap (λ j. get s j) is_key) ∙ shown) in
      (name, oid, is_key, e, o)

  pub pairs_readable :
      (s : Store) (m : RefMap) (pairs : List (Bytes × Bytes))
      → AreTexts m
      → ((k v : Bytes)
          → Memᴰ (k, v) pairs
          → (name : Bytes) × (oid : ObjectId) × (k ≡ refkey r name)
            × (try_from v ≡ some oid)
            × (m name ≡ some oid))
      → All Good pairs
  pairs_readable s m [] texts h = tt
  pairs_readable s m ((k, v) ∷ pairs) texts h =
      let (name, oid, e, f, g) = h k v (Memᴰ.head refl) in
      (
        (name, oid, e, f, (texts name oid g).0),
        pairs_readable s m pairs texts (λ k v n. h k v (Memᴰ.tail n)),
      )

  -- A ref of the map has its pair in the scan.
  pub ref_scanned :
      (s : Store) (m : RefMap) (name : Bytes) (oid : ObjectId)
      → IsU64 r
      → Shows K C r s m
      → AreTexts m
      → m name ≡ some oid
      → (v : Bytes) × Memᴰ (refkey r name, v) (scan s (refs_prefix_start r) (refs_prefix_end r))
        × (try_from v ≡ some oid)
  ref_scanned s m name oid hr h texts e =
      let shown = decode-resolve K C r s m name h ∙ ap (λ o. ok o) e in
      elim (Option-cases (get s (refkey r name))) [
        | inl g ↦ absurd (
            none_not_some (
              same_ok none (some oid)
                (sym (decode_ref-none name) ∙ ap (λ x. decode_ref K C name x) (sym g) ∙ shown)))
        | inr (v, g) ↦
            let (o, t, q) =
              decode_ref-some name v (some oid) (ap (λ x. decode_ref K C name x) (sym g) ∙ shown) in
            (
              v,
              K.scan_complete s (refs_prefix_start r) (refs_prefix_end r) (refkey r name) v g
                  (refs_scan-refkey r r name hr hr (texts name oid e).1 ∙ ==_refl r),
              t ∙ sym q,
            )
      ]
    where
      none_not_some : {o : ObjectId} → ◌≡◌ {A = Option ObjectId} none (some o) → ⊥
      none_not_some h = cc

  pub same_name : (a b : Bytes) → refkey r a ≡ refkey r b → a ≡ b
  same_name a b e = eq_of_eq_bytes a b (
      sym (refkey_eq r a b)
      ∙ ap (λ k. eq_bytes (refkey r a) k) (sym e)
      ∙ eq_bytes_refl (refkey r a))
