-- ===== src/Tests/Repos.antt =====
-- The theorems on repositories, with two of them in a log of writes.
use mizzle.Base.Result.{Result}
use mizzle.Base.{
  ℕ, ◌+◌, ◌<◌, ◌^◌, Bytes, true, [], ◌≡◌, ◌≢◌, refl, arith, codes, some, none, ok, be_bytes,
  be_value,
}
use mizzle.Kv.Keys.{repo_meta, repo_meta_exists}
use mizzle.Kv.Repos.{init_repo_inner, open_inner, counter, RepoError}
use mizzle.Kv.Repos.History.{init_step, Steps, here, next, AnyStart, Unraced}
use mizzle.Kv.Repos.Opened.{open_inner-init_repo_inner, open_inner_injective, init_repo_inner-raced}
use mizzle.Tests.Models.{log_store, log_get, sha1_codec, Log}

abbrev first : Log
first = (init_repo_inner log_store true [] [] [] (codes "a.git")).0

abbrev second : Log
second = (init_repo_inner log_store true first first first (codes "b.git")).0

given : (init_repo_inner log_store true [] [] [] (codes "a.git")).1 ≡ ok 1
unfolding init_repo_inner log_get
given = refl

no_keys : (k : Bytes) → log_get [] k ≡ none
unfolding log_get
no_keys k = refl

room : (k n : ℕ) → ◌≡◌ {A = Result RepoError ℕ} (ok k) (ok n) → k + 1 < 2 ^ 64 → n + 1 < 2 ^ 64
room k n h l = (let same : k ≡ n = cc in omega (arith, same))

start_room : (n : ℕ) → counter log_store [] ≡ ok n → n + 1 < 2 ^ 64
unfolding counter log_get
start_room n h = room 1 n h (omega arith)

second_room : (n : ℕ) → counter log_store first ≡ ok n → n + 1 < 2 ^ 64
unfolding init_repo_inner counter log_get be_bytes be_value
second_room n h = room 2 n h (omega arith)

to_first : Steps log_store sha1_codec (AnyStart log_store sha1_codec) [] first
to_first = next here (init_step true [] [] (codes "a.git") tt start_room)

to_second : Steps log_store sha1_codec (Unraced log_store sha1_codec (codes "a.git")) first second
to_second = next here (init_step true first first (codes "b.git") (λ _ e. e) second_room)

open_inner-init_repo_inner_example : (0 < 1) × (open_inner log_store second (codes "a.git") ≡ ok 1)
open_inner-init_repo_inner_example =
    open_inner-init_repo_inner log_store sha1_codec [] [] [] [] second true (codes "a.git") 1
      (λ k. no_keys k) here here here given to_second start_room

open_first : open_inner log_store first (codes "a.git") ≡ ok 1
unfolding open_inner init_repo_inner log_get be_bytes be_value
open_first = refl

open_inner_injective_example :
    (log_store.get first (repo_meta 1 repo_meta_exists) ≡ some [])
    × (open_inner log_store first (codes "b.git") ≡ ok 1 → codes "a.git" ≡ codes "b.git")
open_inner_injective_example =
    open_inner_injective log_store sha1_codec [] first (codes "a.git") (codes "b.git") 1
      (λ k. no_keys k) to_first open_first

init_repo_inner-raced_example :
    (n : ℕ) × ((init_repo_inner log_store true [] [] first (codes "a.git")).1 ≡ ok n)
    × (n ≢ 1)
    × (open_inner log_store
          (init_repo_inner log_store true [] [] first (codes "a.git")).0
          (codes "a.git")
        ≡ ok n)
init_repo_inner-raced_example =
    init_repo_inner-raced log_store sha1_codec [] [] [] first (codes "a.git") 1 (λ k. no_keys k)
      to_first (no_keys _) (no_keys _) open_first
