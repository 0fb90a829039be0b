-- ===== src/Server/Policy.antt =====
-- What a push takes from outside: the storage backend (`StorageBackend`, mizzle/src/backend/mod.rs)
-- and the access policy (`RepoAccess`, mizzle/src/traits.rs), which is the application's.
use mizzle.Base.Result.{Result}
use mizzle.Base.{Bytes, List, [], Option, err, ◌≡◌, ObjectId}
use mizzle.Refs.{RefUpdate, PushKind, RefMap}
use mizzle.Server.Snapshot.{RefsSnapshot, PushRef}

-- A failure of a backend is a text.
pub record Backend : Type 1 where
  pub State : Type 0
  pub Repo : Type 0
  pub Pack : Type 0
  pub Object : Type 0
  pub open_repo : State → Result Bytes Repo
  pub list_refs : State → Repo → Result Bytes RefsSnapshot
  pub compute_push_kind : State → Repo → RefUpdate → PushKind
  pub ingest_pack : State → Repo → Bytes → State × Result Bytes (Option Pack)
  pub inspect_ingested : State → Pack → Result Bytes (List Object)
  pub rollback_ingest : State → Pack → State
  pub update_refs : State → Repo → List RefUpdate → State × Result Bytes (Unit {0})
  -- The refs that a state shows.
  pub refs : State → RefMap
  pub refs-ingest_pack : (s : State) (r : Repo) (p : Bytes) → refs (ingest_pack s r p).0 ≡ refs s
  pub refs-rollback_ingest : (s : State) (p : Pack) → refs (rollback_ingest s p) ≡ refs s
  pub refs-no_updates : (s : State) (r : Repo) → refs (update_refs s r []).0 ≡ refs s
  pub refs-failed_update :
      (s : State) (r : Repo) (us : List RefUpdate) (e : Bytes)
      → (update_refs s r us).1 ≡ err e
      → refs (update_refs s r us).0 ≡ refs s

-- What `run_comparison` hands to the policy.
pub record Comparison (Object : Type 0) : Type 0 where
  pub push_refs : List PushRef
  pub objects : List Object
  pub existing : List ObjectId

pub record Access (Object : Type 0) : Type 1 where
  pub Context : Type 0
  pub authorize_preliminary : List PushRef → Result Bytes Context
  pub authorize_push : Context → Comparison Object → Result Bytes (Unit {0})
