-- ===== src/Kv/Keys/Layout.antt =====
-- How the subspaces of the keyspace lie (mizzle/src/backend/kv/keys.rs): which keys a scan returns,
-- in which order, and that no two logical keys share their bytes.
use mizzle.Base.{
  ℕ, ◌^◌, ◌<◌, ◌≡◌, ap, sym, ◌∙◌, inl, AreBytes, true, is_utf8, ◌&&◌, ◌∷◌, ◌++◌, some, ltb, ◌==◌,
  bytes_lt, length, from_utf8, arith, eq_bytes, starts_with-eq_length, eq_bytes-append,
  eq_bytes-be_bytes, bytes_lt-be_bytes, bytes_lt-append, length-be_bytes, AreBytes-be_bytes,
  All-append, drop-append, starts_with-append, IsByte, length-append, Bytes,
}
use mizzle.Kv.Keys.{
  refkey, refs_prefix_start, refs_prefix_end, refname_from_key, par, parents_prefix_start,
  parents_prefix_end, u64_be, u16_be, prefix_ref,
}
use mizzle.Kv.Keys.Scan.{in_range, increment_in_place_range}

abbrev pub IsU64 : ℕ → Type 0
IsU64 n = n < 2 ^ 64

abbrev pub IsU16 : ℕ → Type 0
IsU16 n = n < 2 ^ 16

-- The 20 bytes of an object id.
abbrev pub IsOid : Bytes → Type 0
IsOid oid = (length oid ≡ 20) × AreBytes oid

-- For repositories below 2 ^ 64 and a name of bytes: the ref scan of `r` holds the key of a ref of
-- `r'` exactly when `r` is `r'`.
pub refs_scan-refkey :
    (r r' : ℕ) (name : Bytes)
    → IsU64 r
    → IsU64 r'
    → AreBytes name
    → in_range (refs_prefix_start r) (refs_prefix_end r) (refkey r' name) ≡ (r == r')
unfolding refs_prefix_start refs_prefix_end refkey
refs_scan-refkey r r' name hr hr' hn =
    increment_in_place_range (prefix_ref ∷ u64_be r) (prefix_ref ∷ (u64_be r' ++ name))
      (inl (omega arith)) (omega arith, AreBytes-be_bytes 8 r)
      (omega arith, All-append IsByte (u64_be r') name (AreBytes-be_bytes 8 r') hn)
    ∙ starts_with-eq_length (u64_be r) (u64_be r') name
        (length-be_bytes 8 r ∙ sym (length-be_bytes 8 r'))
    ∙ eq_bytes-be_bytes 8 r r' hr hr'

same_total :
    (r r' : ℕ) (c c' : Bytes)
    → length c ≡ length c'
    → length (u64_be r ++ c) ≡ length (u64_be r' ++ c')
same_total r r' c c' h = omega (
  arith,
  length-append (u64_be r) c,
  length-append (u64_be r') c',
  length-be_bytes 8 r,
  length-be_bytes 8 r',
)

-- For repositories below 2 ^ 64 and ids of 20 bytes: the parent scan of commit `c` in `r` holds the
-- key of a parent of `c'` in `r'` exactly when `r` is `r'` and `c` is `c'`.
pub parents_scan-par :
    (r r' : ℕ) (c c' : Bytes) (pos : ℕ)
    → IsU64 r
    → IsU64 r'
    → IsOid c
    → IsOid c'
    → in_range (parents_prefix_start r c) (parents_prefix_end r c) (par r' c' pos)
      ≡ ((r == r') && eq_bytes c c')
unfolding parents_prefix_start parents_prefix_end par
parents_scan-par r r' c c' pos hr hr' hc hc' =
    increment_in_place_range (0x06 ∷ (u64_be r ++ c)) (0x06 ∷ (u64_be r' ++ c' ++ u16_be pos))
      (inl (omega arith)) (omega arith, All-append IsByte (u64_be r) c (AreBytes-be_bytes 8 r) hc.1)
      (
        omega arith,
        All-append IsByte (u64_be r' ++ c') (u16_be pos)
            (All-append IsByte (u64_be r') c' (AreBytes-be_bytes 8 r') hc'.1)
            (AreBytes-be_bytes 2 pos),
      )
    ∙ starts_with-eq_length (u64_be r ++ c) (u64_be r' ++ c') (u16_be pos)
        (same_total r r' c c' (hc.0 ∙ sym hc'.0))
    ∙ eq_bytes-append (u64_be r) (u64_be r') c c' (length-be_bytes 8 r ∙ sym (length-be_bytes 8 r'))
    ∙ ap (λ b. b && eq_bytes c c') (eq_bytes-be_bytes 8 r r' hr hr')

-- For positions below 2 ^ 16: the parent keys of one commit stand in the order of their positions.
pub par_order :
    (r : ℕ) (c : Bytes) (i j : ℕ) → IsU16 i → IsU16 j → bytes_lt (par r c i) (par r c j) ≡ ltb i j
unfolding par
par_order r c i j hi hj =
    bytes_lt-append (0x06 ∷ (u64_be r ++ c)) (u16_be i) (u16_be j) ∙ bytes_lt-be_bytes 2 i j hi hj

-- For a UTF-8 name: the name read back from the key of a ref is the ref's name.
pub refname_from_key-refkey :
    (r : ℕ) (name : Bytes) → is_utf8 name ≡ true → refname_from_key r (refkey r name) ≡ some name
unfolding refname_from_key refkey refs_prefix_start from_utf8
refname_from_key-refkey r name h =
    rw (starts_with-append (u64_be r) name, drop-append (u64_be r) name, h)
