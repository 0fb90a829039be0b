-- ===== src/Tests/Keys.antt =====
-- The theorems on keys at concrete keys.
use mizzle.Base.{
  Bytes, [], ◌∷◌, ◌≡◌, refl, ◌==◌, eq_bytes, ◌&&◌, inl, arith, codes, is_utf8, some, starts_with,
  be_bytes, length-be_bytes, AreBytes-be_bytes,
}
use mizzle.Kv.Keys.{
  increment_in_place, refkey, refs_prefix_start, refs_prefix_end, par, parents_prefix_start,
  parents_prefix_end, refname_from_key,
}
use mizzle.Kv.Keys.Scan.{in_range, increment_in_place_range}
use mizzle.Kv.Keys.Layout.{refs_scan-refkey, parents_scan-par, refname_from_key-refkey, IsOid}
use mizzle.Kv.Keys.Distinct.{encode-injective, reference, Key}

abbrev main : Bytes
main = codes "refs/heads/main"

abbrev commit : Bytes
commit = be_bytes 20 1000

commit-IsOid : IsOid commit
commit-IsOid = (length-be_bytes 20 1000, AreBytes-be_bytes 20 1000)

increment_in_place_range_example :
    in_range (4 ∷ 255 ∷ []) (increment_in_place (4 ∷ 255 ∷ [])) (4 ∷ 255 ∷ 7 ∷ [])
    ≡ starts_with (4 ∷ 255 ∷ []) (4 ∷ 255 ∷ 7 ∷ [])
increment_in_place_range_example =
    increment_in_place_range (4 ∷ 255 ∷ []) (4 ∷ 255 ∷ 7 ∷ []) (inl (omega arith)) (omega arith)
      (omega arith)

refs_scan-refkey_example :
    in_range (refs_prefix_start 255) (refs_prefix_end 255) (refkey 256 main) ≡ (255 == 256)
refs_scan-refkey_example = refs_scan-refkey 255 256 main (omega arith) (omega arith) (omega arith)

parents_scan-par_example :
    in_range (parents_prefix_start 1 commit) (parents_prefix_end 1 commit) (par 1 commit 65535)
    ≡ ((1 == 1) && eq_bytes commit commit)
parents_scan-par_example =
    parents_scan-par 1 1 commit commit 65535 (omega arith) (omega arith) commit-IsOid commit-IsOid

refname_from_key-refkey_example : refname_from_key 7 (refkey 7 main) ≡ some main
unfolding is_utf8
refname_from_key-refkey_example = refname_from_key-refkey 7 main refl

encode-injective_example : ◌≡◌ {A = Key} (reference 3 main) (reference 3 main)
encode-injective_example =
    encode-injective (reference 3 main) (reference 3 main) (omega arith) (omega arith) refl

saturated : increment_in_place (255 ∷ 255 ∷ []) ≡ 255 ∷ 255 ∷ 0 ∷ []
unfolding increment_in_place
saturated = refl

carried : refs_prefix_end 255 ≡ 4 ∷ 0 ∷ 0 ∷ 0 ∷ 0 ∷ 0 ∷ 0 ∷ 1 ∷ []
unfolding refs_prefix_end be_bytes
carried = refl
