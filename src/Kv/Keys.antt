-- ===== src/Kv/Keys.antt =====
-- Key encoding for the KV backend (mizzle/src/backend/kv/keys.rs). A key is its bytes, a string its
-- UTF-8 bytes, and an `ObjectId` the list of its 20 bytes (`as_bytes`).
pub mod Scan
pub mod Layout
pub mod Distinct
use mizzle.Base.{
  ℕ, zero, suc, ◌+◌, Bytes, List, [], ◌∷◌, ◌++◌, Option, none, some, ltb, starts_with, length, take,
  drop, set, get_or, be_bytes, from_utf8, if◌then◌else◌,
}

abbrev pub prefix_repo_index : ℕ
prefix_repo_index = 0x01

abbrev pub prefix_next_repo_id : ℕ
prefix_next_repo_id = 0x02

abbrev pub prefix_repo_meta : ℕ
prefix_repo_meta = 0x03

abbrev pub prefix_ref : ℕ
prefix_ref = 0x04

abbrev pub prefix_obj : ℕ
prefix_obj = 0x05

abbrev pub prefix_par : ℕ
prefix_par = 0x06

abbrev pub repo_meta_exists : ℕ
repo_meta_exists = 0x00

abbrev pub repo_meta_head : ℕ
repo_meta_head = 0x01

-- `u64::to_be_bytes` and `u16::to_be_bytes`
abbrev pub u64_be : ℕ → Bytes
u64_be = be_bytes 8

abbrev pub u16_be : ℕ → Bytes
u16_be = be_bytes 2

unfoldable pub repo_index : Bytes → Bytes
repo_index path = prefix_repo_index ∷ path

unfoldable pub next_repo_id : Bytes
next_repo_id = prefix_next_repo_id ∷ []

unfoldable pub repo_meta : ℕ → ℕ → Bytes
repo_meta repo_id tag = prefix_repo_meta ∷ (u64_be repo_id ++ tag ∷ [])

unfoldable pub refkey : ℕ → Bytes → Bytes
refkey repo_id name = prefix_ref ∷ (u64_be repo_id ++ name)

-- Lower bound (inclusive) for a range scan over all refs of a repo.
unfoldable pub refs_prefix_start : ℕ → Bytes
refs_prefix_start repo_id = prefix_ref ∷ u64_be repo_id

-- The loop of `increment_in_place` with `i` positions left, the last one first.
unfoldable pub increment_from : ℕ → Bytes → Bytes
increment_from zero key = key ++ 0x00 ∷ []
increment_from (suc i) key =
    let rest = increment_from i key in
    if ltb (get_or key i 0) 0xFF then take (suc i) (set key i (get_or key i 0 + 1)) else rest

unfoldable pub increment_in_place : Bytes → Bytes
unfolding increment_from
increment_in_place key = increment_from (length key) key

-- Upper bound (exclusive) for a range scan over all refs of a repo.
unfoldable pub refs_prefix_end : ℕ → Bytes
unfolding refs_prefix_start increment_in_place
refs_prefix_end repo_id = increment_in_place (refs_prefix_start repo_id)

-- Extract the ref name from a `refs_prefix_start`-prefixed key.
unfoldable pub refname_from_key : ℕ → Bytes → Option Bytes
refname_from_key repo_id key =
    let prefix = refs_prefix_start repo_id in
    if starts_with prefix key then from_utf8 (drop (length prefix) key) else none

unfoldable pub obj : ℕ → Bytes → Bytes
obj repo_id oid = prefix_obj ∷ (u64_be repo_id ++ oid)

unfoldable pub par : ℕ → Bytes → ℕ → Bytes
par repo_id commit_oid pos = prefix_par ∷ (u64_be repo_id ++ commit_oid ++ u16_be pos)

-- Lower bound (inclusive) for a scan over the parents of a single commit.
unfoldable pub parents_prefix_start : ℕ → Bytes → Bytes
parents_prefix_start repo_id commit_oid = prefix_par ∷ (u64_be repo_id ++ commit_oid)

-- Upper bound (exclusive) for a scan over the parents of a single commit.
unfoldable pub parents_prefix_end : ℕ → Bytes → Bytes
unfolding parents_prefix_start increment_in_place
parents_prefix_end repo_id commit_oid = increment_in_place (parents_prefix_start repo_id commit_oid)
