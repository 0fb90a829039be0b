-- ===== src/Auth/Comparison/Cells.antt =====
-- The cells of a comparison (`OnceCell`, and the map of `verify_cache`), and the queries that go
-- through them: `new_commits`, `dropped_commits`, `ref_diff`, `verify` and `verify_tag` of
-- mizzle/src/auth.rs.
use mizzle.Base.Result.{Result}
use mizzle.Base.{
  ℕ, zero, suc, List, [], ◌∷◌, Option, none, some, ObjectId, ◌==◌, replicate, length, if◌then◌else◌,
}
use mizzle.Server.Snapshot.{PushRef}
use mizzle.Auth.Types.{CommitInfo, TagInfo, ComparisonError, RefDiff, VerificationStatus}
use mizzle.Auth.Comparison.{
  History, Verifier, Subject, Check, early, checked, ref_index, compute_new, compute_dropped,
  compute_diff, compute_keys, check_commit, check_tag,
}

-- The cells after `cells[n].get_or_init(v)`, and what it gives. A cell out of bounds is a panic.
unfoldable pub get_or_init {ℓ} :
    {A : Type ℓ} → ℕ → A → List (Option A) → Option (List (Option A) × A)
get_or_init n v [] = none
get_or_init zero v (none ∷ cells) = some (some v ∷ cells, v)
get_or_init zero v (some w ∷ cells) = some (some w ∷ cells, w)
get_or_init (suc n) v (c ∷ cells) = elim (get_or_init n v cells) [
  | none ↦ none
  | some (cells', w) ↦ some (c ∷ cells', w)
]

-- `verify_cache.get`
unfoldable pub cached : List (ObjectId × VerificationStatus) → ObjectId → Option VerificationStatus
cached [] oid = none
cached ((o, s) ∷ cache) oid = let rest = cached cache oid in if o == oid then some s else rest

pub record Caches : Type 0 where
  pub new_commits : List (Option (Result ComparisonError (List CommitInfo)))
  pub dropped_commits : List (Option (Result ComparisonError (List CommitInfo)))
  pub ref_diffs : List (Option (Result ComparisonError RefDiff))
  pub verify_cache : List (ObjectId × VerificationStatus)

pub data Query : Type 0 where
  ask_new : PushRef → Query
  ask_dropped : PushRef → Query
  ask_diff : PushRef → Query
  ask_verify : CommitInfo → Query
  ask_verify_tag : TagInfo → Query

pub data Answer : Type 0 where
  listed : Result ComparisonError (List CommitInfo) → Answer
  differs : Result ComparisonError RefDiff → Answer
  status : VerificationStatus → Answer

-- A status that is found, or the one that is computed, which is kept unless it came early.
unfoldable pub keep_status : Caches → ObjectId → Check → Caches × VerificationStatus
unfolding cached
keep_status m oid check = elim (cached m.verify_cache oid) [
  | some s ↦ (m, s)
  | none ↦ elim check [
    | early s ↦ (m, s)
    | checked s ↦ (record m { verify_cache = (oid, s) ∷ m.verify_cache }, s)
  ]
]

module _ (B : History) (V : Verifier) (P : Subject) where
  -- `run_comparison` starts with empty cells, one for each ref.
  abbrev pub no_caches : Caches
  no_caches = record {
    new_commits = replicate (length P.refs) none;
    dropped_commits = replicate (length P.refs) none;
    ref_diffs = replicate (length P.refs) none;
    verify_cache = [];
  }

  -- The answer to a query, and the caches after it; none is a panic. The keys are what the policy
  -- gives for one batch of signers, whenever they are asked for first.
  unfoldable pub ask : Caches → Query → Option (Caches × Answer)
  unfolding get_or_init keep_status
  ask m (ask_new r) = elim (ref_index B V P r) [
    | none ↦ none
    | some i ↦ elim (get_or_init i (compute_new B V P i r) m.new_commits) [
      | none ↦ none
      | some (cells, v) ↦ some (record m { new_commits = cells }, listed v)
    ]
  ]
  ask m (ask_dropped r) = elim (ref_index B V P r) [
    | none ↦ none
    | some i ↦ elim (get_or_init i (compute_dropped B V P r) m.dropped_commits) [
      | none ↦ none
      | some (cells, v) ↦ some (record m { dropped_commits = cells }, listed v)
    ]
  ]
  ask m (ask_diff r) = elim (ref_index B V P r) [
    | none ↦ none
    | some i ↦ elim (get_or_init i (compute_diff B V P r) m.ref_diffs) [
      | none ↦ none
      | some (cells, v) ↦ some (record m { ref_diffs = cells }, differs v)
    ]
  ]
  ask m (ask_verify c) =
      let (m', s) = keep_status m c.oid (check_commit B V P (compute_keys B V P) c) in
      some (m', status s)
  ask m (ask_verify_tag t) =
      let (m', s) = keep_status m t.oid (check_tag B V P (compute_keys B V P) t) in
      some (m', status s)

  -- Queries in order.
  unfoldable pub ask_all : Caches → List Query → Option (List Answer)
  unfolding ask
  ask_all m [] = some []
  ask_all m (q ∷ queries) = elim (ask m q) [
    | none ↦ none
    | some (m', a) ↦ elim (ask_all m' queries) [ none ↦ none | some answers ↦ some (a ∷ answers) ]
  ]
