-- ===== src/Server/Push.antt =====
-- A push: `recv_pack_post` of mizzle/src/serve.rs and `update_refs_and_report` of
-- mizzle/src/receive.rs. The task that the code spawns runs at the end of the request, and its
-- writes to the pipe succeed.
pub mod Authorized
pub mod Posted
use mizzle.Base.Result.{Result}
use mizzle.Base.{
  ℕ, Bytes, Bool, true, false, List, [], ◌∷◌, ◌++◌, map, ok, err, Option, none, some, codes, OidHex,
  ObjectId,
}
use mizzle.Refs.{RefUpdate, PushKind, preliminary_push_kind}
use mizzle.Proto.Limits.{ProtocolLimits}
use mizzle.Proto.Lines.{Line, data_line, flush, newline, space}
use mizzle.Proto.Receive.{read_receive_request}
use mizzle.Server.Snapshot.{RefsSnapshot, PushRef, tips}
use mizzle.Server.Policy.{Backend, Comparison, Access}

-- `build_push_refs`, and `build_push_refs_async` with the backend's classifier.
unfoldable pub build_push_refs : List RefUpdate → (RefUpdate → PushKind) → List PushRef
build_push_refs [] kind = []
build_push_refs (u ∷ us) kind =
    record { refname = u.refname; kind = kind u; old_oid = u.old_oid; new_oid = u.new_oid }
    ∷ build_push_refs us kind

-- `text_to_write`
abbrev pub text : Bytes → Line
text t = data_line (t ++ newline ∷ [])

-- `format!("ng {} {}", refname, msg)` and `format!("ok {}", refname)`
abbrev pub ng_line : Bytes → RefUpdate → Line
ng_line msg u = text (codes "ng " ++ (u.refname ++ space ∷ msg))

abbrev pub ok_line : RefUpdate → Line
ok_line u = text (codes "ok " ++ u.refname)

unfoldable pub rejection : List RefUpdate → Bytes → List Line
rejection us msg = text (codes "unpack ok") ∷ (map (ng_line msg) us ++ flush ∷ [])

unfoldable pub success : List RefUpdate → List Line
success us = text (codes "unpack ok") ∷ (map ok_line us ++ flush ∷ [])

-- `stage_pack`, where the temporary file can be written: no data gives none.
unfoldable pub stage_pack : Bytes → Option Bytes
stage_pack [] = none
stage_pack (b ∷ bs) = some (b ∷ bs)

-- Status 500, or status 200 with what is written to the client.
pub data Response : Type 0 where
  internal_error : Response
  report : List Line → Response

module _ (H : OidHex) (limits : ProtocolLimits) (B : Backend) (A : Access B.Object) where
  open B use {
    State, Repo, Pack, Object, open_repo, list_refs, compute_push_kind, ingest_pack,
    inspect_ingested, rollback_ingest, update_refs,
  }
  open A use {Context, authorize_preliminary, authorize_push}

  -- The state, the response, and the comparison that `post_receive` was called with.
  pub record Outcome : Type 0 where
    pub state : State
    pub response : Response
    pub post_receive : Option (Comparison Object)

  abbrev pub fail : State → Outcome
  fail s = record { state = s; response = internal_error; post_receive = none }

  abbrev pub reject : State → List RefUpdate → Bytes → Outcome
  reject s us msg = record { state = s; response = report (rejection us msg); post_receive = none }

  unfoldable pub existing_ref_tips : State → Repo → List PushRef → List ObjectId
  unfolding tips
  existing_ref_tips s repo push_refs = elim (list_refs s repo) [
    | ok snapshot ↦ tips push_refs snapshot.refs
    | err e ↦ []
  ]

  abbrev pub rollback : State → Option Pack → State
  rollback s none = s
  rollback s (some pack) = rollback_ingest s pack

  abbrev pub after_update :
      List RefUpdate → Comparison Object → State × Result Bytes (Unit {0}) → Outcome
  after_update us comparison (s, ok _) = record {
    state = s;
    response = report (success us);
    post_receive = some comparison;
  }
  after_update us comparison (s, err e) = record {
    state = s;
    response = report [];
    post_receive = none;
  }

  -- The end of an accepted push: `update_refs_and_report`, and `post_receive` where that succeeds.
  unfoldable pub finish : State → Repo → List RefUpdate → Comparison Object → Outcome
  finish s repo us comparison = after_update us comparison (update_refs s repo us)

  -- A denied push: the pack is rolled back, and the refs are reported where there are any.
  unfoldable pub deny :
      State → Repo → List RefUpdate → Comparison Object → Option Pack → Bytes → Outcome
  unfolding finish
  deny s repo [] comparison pack msg = finish (rollback s pack) repo [] comparison
  deny s repo (u ∷ us) comparison pack msg = reject (rollback s pack) (u ∷ us) msg

  abbrev pub comparison_of : State → Repo → List RefUpdate → List Object → Comparison Object
  comparison_of s repo us objects =
      let push_refs = build_push_refs us (compute_push_kind s repo) in
      record {
        push_refs = push_refs;
        objects = objects;
        existing = existing_ref_tips s repo push_refs;
      }

  -- From the final authorization on.
  unfoldable pub authorize :
      Context → State → Repo → List RefUpdate → Option Pack → List Object → Outcome
  unfolding finish deny
  authorize ctx s repo us pack objects =
      let comparison = comparison_of s repo us objects in
      elim (authorize_push ctx comparison) [
        | ok _ ↦ finish s repo us comparison
        | err msg ↦ deny s repo us comparison pack msg
      ]

  -- The inspection of an ingested pack.
  unfoldable pub inspect : Context → State → Repo → List RefUpdate → Option Pack → Outcome
  unfolding authorize
  inspect ctx s repo us none = authorize ctx s repo us none []
  inspect ctx s repo us (some pack) = elim (inspect_ingested s pack) [
    | ok objects ↦ authorize ctx s repo us (some pack) objects
    | err e ↦ reject (rollback_ingest s pack) us (codes "pack inspection failed: " ++ e)
  ]

  abbrev pub after_ingest :
      Context → Repo → List RefUpdate → State × Result Bytes (Option Pack) → Outcome
  after_ingest ctx repo us (s, err e) = fail s
  after_ingest ctx repo us (s, ok pack) = inspect ctx s repo us pack

  -- The staging and ingestion of the pack.
  unfoldable pub ingest : Context → State → Repo → List RefUpdate → Option Bytes → Outcome
  unfolding inspect
  ingest ctx s repo us none = inspect ctx s repo us none
  ingest ctx s repo us (some staged) = after_ingest ctx repo us (ingest_pack s repo staged)

  -- After the request has been read.
  unfoldable pub push : State → List RefUpdate → Bytes → Outcome
  unfolding ingest stage_pack
  push s us body = elim (authorize_preliminary (build_push_refs us preliminary_push_kind)) [
    | err msg ↦ reject s us msg
    | ok ctx ↦ elim (open_repo s) [
      | err e ↦ fail s
      | ok repo ↦ ingest ctx s repo us (stage_pack body)
    ]
  ]

  unfoldable pub recv_pack_post : State → Bytes → Outcome
  unfolding push
  recv_pack_post s body = elim (read_receive_request H limits body) [
    | err e ↦ fail s
    | ok r ↦ push s r.0 r.1
  ]
