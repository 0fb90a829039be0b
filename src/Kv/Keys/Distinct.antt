-- ===== src/Kv/Keys/Distinct.antt =====
-- The table at the head of mizzle/src/backend/kv/keys.rs as a data type: one constructor for each
-- kind of key, with the function that builds it.
use mizzle.Base.{
  ℕ, ◌^◌, ◌<◌, ◌≡◌, refl, ap, sym, ◌∙◌, [], ◌∷◌, ◌++◌, length, arith, be_bytes, be_value,
  be_value-be_bytes, length-be_bytes, Bytes, append_assoc,
}
use mizzle.Kv.Keys.{repo_index, next_repo_id, repo_meta, refkey, obj, par, u64_be, u16_be}
use mizzle.Kv.Keys.Layout.{IsU64, IsU16, IsOid}

pub data Key : Type 0 where
  index : Bytes → Key
  counter : Key
  meta : ℕ → ℕ → Key
  reference : ℕ → Bytes → Key
  object : ℕ → Bytes → Key
  parent : ℕ → Bytes → ℕ → Key

unfoldable pub encode : Key → Bytes
encode (index path) = repo_index path
encode counter = next_repo_id
encode (meta r tag) = repo_meta r tag
encode (reference r name) = refkey r name
encode (object r oid) = obj r oid
encode (parent r c pos) = par r c pos

abbrev pub InBounds : Key → Type 0
InBounds (index path) = Unit
InBounds counter = Unit
InBounds (meta r tag) = IsU64 r
InBounds (reference r name) = IsU64 r
InBounds (object r oid) = IsU64 r × IsOid oid
InBounds (parent r c pos) = IsU64 r × IsOid c × IsU16 pos

-- Two splits of one string at the same place are one split.
append_inj : (a b c d : Bytes) → length a ≡ length c → a ++ b ≡ c ++ d → (a ≡ c) × (b ≡ d)
append_inj [] b [] d h e = (refl, e)
append_inj [] b (y ∷ c) d h e = absurd (omega arith)
append_inj (x ∷ a) b [] d h e = absurd (omega arith)
append_inj (x ∷ a) b (y ∷ c) d h e = ground (arith, append_inj a b c d)

be_bytes_inj : (w m n : ℕ) → m < 256 ^ w → n < 256 ^ w → be_bytes w m ≡ be_bytes w n → m ≡ n
be_bytes_inj w m n hm hn e =
    sym (be_value-be_bytes w m hm) ∙ ap (be_value 0) e ∙ be_value-be_bytes w n hn

tail_eq : (x y : ℕ) (a b : Bytes) → ◌≡◌ {A = Bytes} (x ∷ a) (y ∷ b) → a ≡ b
tail_eq x y a b e = cc

-- What follows a repository's id: both are determined.
after_repo :
    (r r' x y : ℕ) (a b : Bytes)
    → IsU64 r
    → IsU64 r'
    → ◌≡◌ {A = Bytes} (x ∷ (u64_be r ++ a)) (y ∷ (u64_be r' ++ b))
    → (r ≡ r') × (a ≡ b)
after_repo r r' x y a b hr hr' e =
    let (p, q) =
      append_inj (u64_be r) a (u64_be r') b (length-be_bytes 8 r ∙ sym (length-be_bytes 8 r'))
        (tail_eq x y _ _ e) in
    (be_bytes_inj 8 r r' hr hr' p, q)

after_commit :
    (c c' : Bytes) (i j : ℕ)
    → IsOid c
    → IsOid c'
    → IsU16 i
    → IsU16 j
    → c ++ u16_be i ≡ c' ++ u16_be j
    → (c ≡ c') × (i ≡ j)
after_commit c c' i j hc hc' hi hj e =
    let (p, q) = append_inj c (u16_be i) c' (u16_be j) (hc.0 ∙ sym hc'.0) e in
    (p, be_bytes_inj 2 i j hi hj q)

-- For keys whose repository, commit and position are in bounds: keys with the same bytes are the same
-- key.
pub encode-injective : (k l : Key) → InBounds k → InBounds l → encode k ≡ encode l → k ≡ l
unfolding encode repo_index next_repo_id repo_meta refkey obj par
encode-injective (index p) (index q) hk hl e = cc
encode-injective counter counter hk hl e = refl
encode-injective (meta r t) (meta r' t') hk hl e =
    let (p, q) = after_repo r r' _ _ (t ∷ []) (t' ∷ []) hk hl e in cc
encode-injective (reference r n) (reference r' n') hk hl e =
    let (p, q) = after_repo r r' _ _ n n' hk hl e in cc
encode-injective (object r o) (object r' o') hk hl e =
    let (p, q) = after_repo r r' _ _ o o' hk.0 hl.0 e in cc
encode-injective (parent r c i) (parent r' c' j) hk hl e =
    let (p, q) =
      after_repo r r' 6 6 (c ++ u16_be i) (c' ++ u16_be j) hk.0 hl.0 (simp (← append_assoc) e) in
    let (s, t) = after_commit c c' i j hk.1 hl.1 hk.2 hl.2 q in cc
encode-injective _ _ hk hl e = cc
