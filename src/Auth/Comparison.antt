-- ===== src/Auth/Comparison.antt =====
-- `ConcreteComparison` of mizzle/src/auth.rs: what a policy asks of a push, and the caches of the
-- answers. The storage backend and the policy's keys are parameters. A panic is `none`.
pub mod Cells
pub mod Cached
pub mod Fresh
use mizzle.Base.Result.{Result}
use mizzle.Base.{
  ℕ, zero, suc, ◌*◌, Bytes, Bool, true, false, ◌||◌, ◌&&◌, List, [], ◌∷◌, ◌++◌, Option, none, some,
  ok, err, ◌>>=◌, codes, eq_bytes, ObjectId, is_null, ◌==◌, take, replicate, length, if◌then◌else◌,
}
use mizzle.Server.Snapshot.{PushRef}
use mizzle.Auth.Types.{
  Identity, SignatureFormat, eq_format, SignatureBlob, CommitInfo, TagInfo, ComparisonError,
  comparison_cap, backend_text, tip_not_found, RefDiff, VerificationStatus, bad_signature, unsigned,
  Signer, VerificationKey, VerificationKeys, ExternalSig, PackObject, commits, tags, find_commit,
}
use mizzle.Auth.Signature.{strip_gpgsig, strip_tag_signature, verify_native}

-- `ReachableError`
pub data ReachableError : Type 0 where
  reach_cap : ℕ → ReachableError
  reach_other : Bytes → ReachableError

-- What a comparison asks of the backend, and gix's id of the empty tree.
pub record History : Type 0 where
  pub reachable_excluding :
      List ObjectId → List ObjectId → ℕ → Result ReachableError (List ObjectId)
  pub read_commit_info : ObjectId → Result Bytes CommitInfo
  pub tree_diff : Option ObjectId → ObjectId → Result Bytes RefDiff
  pub read_object_raw : ObjectId → ℕ → Result Bytes (Option Bytes)
  pub empty_tree : ObjectId

-- What it asks of the policy.
pub record Verifier : Type 0 where
  pub verification_keys : List Signer → VerificationKeys
  pub verify_external : ExternalSig → Option VerificationStatus

-- What `run_comparison` is given of the push.
pub record Subject : Type 0 where
  pub objects : List PackObject
  pub refs : List PushRef
  pub existing_ref_tips : List ObjectId
  pub max_reachable_commits : ℕ

-- `.map_err(|e| match e { ... })` on the walks.
abbrev pub walk_error {ℓ} :
    {A : Type ℓ} → Bytes → Result ReachableError A → Result ComparisonError A
walk_error what (ok a) = ok a
walk_error what (err (reach_cap limit)) = err (comparison_cap what limit)
walk_error what (err (reach_other e)) = err (backend_text e)

abbrev pub backend_error {ℓ} : {A : Type ℓ} → Result Bytes A → Result ComparisonError A
backend_error (ok a) = ok a
backend_error (err e) = err (backend_text e)

-- `position`
unfoldable pub ref_position : Bytes → List PushRef → Option ℕ
ref_position name [] = none
ref_position name (p ∷ refs) =
    let rest = ref_position name refs in
    if eq_bytes p.refname name then some 0 else elim rest [ none ↦ none | some i ↦ some (suc i) ]

-- The new tips of earlier refs.
unfoldable pub new_tips : List PushRef → List ObjectId
new_tips [] = []
new_tips (r ∷ refs) =
    let rest = new_tips refs in if is_null r.new_oid then rest else r.new_oid ∷ rest

-- The batch of signers, and the set of those seen.
pub record Batch : Type 0 where
  pub signers : List Signer
  pub seen : List (Bytes × SignatureFormat)

abbrev pub is_seen : List (Bytes × SignatureFormat) → Bytes → SignatureFormat → Bool
is_seen [] email format = false
is_seen ((e, f) ∷ seen) email format =
    (eq_bytes e email && eq_format f format) || is_seen seen email format

-- `if seen.insert(key) { signers.push(...) }`
unfoldable pub add_signer : Batch → Bytes → SignatureFormat → Batch
add_signer b email format = if is_seen b.seen email format then b else record {
  signers = b.signers ++ record { email = email; format = format; identifier = none } ∷ [];
  seen = (email, format) ∷ b.seen;
}

unfoldable pub commit_signers : Batch → List CommitInfo → Batch
unfolding add_signer
commit_signers b [] = b
commit_signers b (c ∷ cs) =
    commit_signers
      (elim c.signature [ none ↦ b | some sig ↦ add_signer b c.committer.email sig.format ]) cs

unfoldable pub tag_signers : Batch → List TagInfo → Batch
unfolding add_signer
tag_signers b [] = b
tag_signers b (t ∷ ts) =
    tag_signers
      (elim t.signature [
        | none ↦ b
        | some sig ↦ elim t.tagger [ none ↦ b | some tagger ↦ add_signer b tagger.email sig.format ]
      ])
      ts

unfoldable pub signer_batch : List PackObject → List Signer
unfolding commit_signers tag_signers commits tags
signer_batch objects =
    (tag_signers (commit_signers (record { signers = []; seen = [] }) (commits objects))
      (tags objects)).signers

-- The keys that the policy gave for a signer.
unfoldable pub candidates : VerificationKeys → Bytes → SignatureFormat → List VerificationKey
candidates [] email format = []
candidates ((k, v) ∷ keys) email format =
    let rest = candidates keys email format in
    if eq_bytes k.email email && eq_format k.format format then v ++ rest else rest

-- The end of a signature check: an early return, or a status that is cached.
pub data Check : Type 0 where
  early : VerificationStatus → Check
  checked : VerificationStatus → Check

abbrev pub status_of : Check → VerificationStatus
status_of (early s) = s
status_of (checked s) = s

abbrev pub max_raw : ℕ
max_raw = 16 * 1024 * 1024

module _ (B : History) (V : Verifier) (P : Subject) where
  open B use {reachable_excluding, read_commit_info, tree_diff, read_object_raw, empty_tree}
  open V use {verification_keys, verify_external}

  unfoldable pub ref_index : PushRef → Option ℕ
  unfolding ref_position
  ref_index r = ref_position r.refname P.refs

  -- The loop that reads the commits of a walk.
  unfoldable pub read_infos :
      (ObjectId → Result ComparisonError CommitInfo)
      → List ObjectId
      → Result ComparisonError (List CommitInfo)
  read_infos read [] = ok []
  read_infos read (oid ∷ oids) =
      read oid >>= λ info. read_infos read oids >>= λ infos. ok (info ∷ infos)

  -- From the pack, or else from the backend.
  unfoldable pub read_staged : ObjectId → Result ComparisonError CommitInfo
  unfolding find_commit
  read_staged oid = elim (find_commit P.objects oid) [
    | some c ↦ ok c
    | none ↦ backend_error (read_commit_info oid)
  ]

  -- What is stored in the cell of `new_commits`.
  unfoldable pub compute_new : ℕ → PushRef → Result ComparisonError (List CommitInfo)
  unfolding new_tips read_infos read_staged
  compute_new idx r =
      if is_null r.new_oid
      then ok []
      else (walk_error (codes "new_commits walk") (
            reachable_excluding (r.new_oid ∷ []) (P.existing_ref_tips ++ new_tips (take idx P.refs))
              P.max_reachable_commits)
          >>= λ oids. read_infos read_staged oids)

  unfoldable pub compute_dropped : PushRef → Result ComparisonError (List CommitInfo)
  unfolding read_infos
  compute_dropped r =
      if is_null r.old_oid
      then ok []
      else (walk_error (codes "dropped_commits walk") (
            reachable_excluding (r.old_oid ∷ []) (if is_null r.new_oid then [] else r.new_oid ∷ [])
              P.max_reachable_commits)
          >>= λ oids. read_infos (λ oid. backend_error (read_commit_info oid)) oids)

  -- The tree of the new tip.
  unfoldable pub new_tree : PushRef → Result ComparisonError ObjectId
  unfolding find_commit
  new_tree r = elim (find_commit P.objects r.new_oid) [
    | some c ↦ ok c.tree
    | none ↦ elim (read_commit_info r.new_oid) [
      | ok c ↦ ok c.tree
      | err e ↦ err (tip_not_found r.new_oid)
    ]
  ]

  unfoldable pub parent_tree : PushRef → Result ComparisonError (Option ObjectId)
  parent_tree r =
      if is_null r.old_oid
      then ok none
      else (backend_error (read_commit_info r.old_oid) >>= λ old. ok (some old.tree))

  unfoldable pub compute_diff : PushRef → Result ComparisonError RefDiff
  unfolding new_tree parent_tree
  compute_diff r =
      if is_null r.new_oid
      then (backend_error (read_commit_info r.old_oid) >>= λ old.
          backend_error (tree_diff (some old.tree) empty_tree))
      else (new_tree r >>= λ child.
          parent_tree r >>= λ parent. backend_error (tree_diff parent child))

  -- What `keys` computes.
  unfoldable pub compute_keys : VerificationKeys
  unfolding signer_batch
  compute_keys = verification_keys (signer_batch P.objects)

  unfoldable pub run_verify :
      VerificationKeys → Bytes → SignatureFormat → Bytes → Bytes → VerificationStatus
  unfolding candidates verify_native
  run_verify keys email format signature payload =
      elim (verify_external (record {
        format = format;
        signature = signature;
        signed_payload = payload;
        signer_email = email;
      })) [
        | some status ↦ status
        | none ↦ verify_native format signature payload (candidates keys email format)
      ]

  -- The signature of a commit, and of a tag, checked with some keys.
  unfoldable pub check_commit : VerificationKeys → CommitInfo → Check
  unfolding run_verify strip_gpgsig
  check_commit keys c = elim c.signature [
    | none ↦ checked unsigned
    | some sig ↦ elim (read_object_raw c.oid max_raw) [
      | err e ↦ early bad_signature
      | ok none ↦ early bad_signature
      | ok (some raw) ↦
          checked (run_verify keys c.committer.email sig.format sig.bytes (strip_gpgsig raw))
    ]
  ]

  unfoldable pub check_tag : VerificationKeys → TagInfo → Check
  unfolding run_verify strip_tag_signature
  check_tag keys t = elim t.signature [
    | none ↦ checked unsigned
    | some sig ↦ elim t.tagger [
      | none ↦ checked unsigned
      | some tagger ↦ elim (read_object_raw t.oid max_raw) [
        | err e ↦ early bad_signature
        | ok none ↦ early bad_signature
        | ok (some raw) ↦
            checked (run_verify keys tagger.email sig.format sig.bytes (strip_tag_signature raw))
      ]
    ]
  ]
