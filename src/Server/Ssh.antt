-- ===== src/Server/Ssh.antt =====
-- The sessions of the SSH transport: `serve_receive_pack` of mizzle/src/serve.rs. Writes succeed, and
-- the body is what the client sends after the advertisement.
pub mod Parity
use mizzle.Base.Result.{Result}
use mizzle.Base.{Bytes, List, [], ◌++◌, ok, err, Option, none, some, codes, OidHex, ObjectId}
use mizzle.Refs.{RefUpdate, preliminary_push_kind}
use mizzle.Proto.Limits.{ProtocolLimits}
use mizzle.Proto.Lines.{Line}
use mizzle.Proto.Receive.{read_receive_request}
use mizzle.Server.Snapshot.{as_receive_pack}
use mizzle.Server.Policy.{Backend, Comparison, Access}
use mizzle.Server.Push.{
  build_push_refs, rejection, success, stage_pack, existing_ref_tips, rollback, comparison_of,
}
use mizzle.Server.Adverts.{info_refs_receive_pack_task}
use mizzle.Server.Routes.{Services, auto_init_repo}

module _ (H : OidHex) (limits : ProtocolLimits) (B : Backend) (A : Access B.Object)
    (S : Services B) where
  open B use {
    State, Repo, Pack, Object, open_repo, list_refs, compute_push_kind, ingest_pack,
    inspect_ingested, rollback_ingest, update_refs,
  }
  open A use {Context, authorize_preliminary, authorize_push}

  -- The state, what was written, whether the session ended without an error, and the comparison that
  -- `post_receive` was called with.
  pub record Session : Type 0 where
    pub state : State
    pub written : List Line
    pub result : Result (Unit {0}) (Unit {0})
    pub post_receive : Option (Comparison Object)

  abbrev pub failed : State → Session
  failed s = record { state = s; written = []; result = err tt; post_receive = none }

  abbrev pub rejected : State → List RefUpdate → Bytes → Session
  rejected s us msg = record {
    state = s;
    written = rejection us msg;
    result = ok tt;
    post_receive = none;
  }

  abbrev pub after : List Line → Session → Session
  after ls session = record session { written = ls ++ session.written }

  -- `post_receive` gets kinds that are computed again, after the update.
  abbrev pub ssh_updated :
      Repo
      → List RefUpdate
      → List Object
      → List ObjectId
      → State × Result Bytes (Unit {0})
      → Session
  ssh_updated repo us objects existing (s, err e) = failed s
  ssh_updated repo us objects existing (s, ok _) = record {
    state = s;
    written = success us;
    result = ok tt;
    post_receive = some (record {
      push_refs = build_push_refs us (compute_push_kind s repo);
      objects = objects;
      existing = existing;
    });
  }

  -- From the final authorization on.
  unfoldable pub ssh_authorize :
      Context → State → Repo → List RefUpdate → Option Pack → List Object → Session
  ssh_authorize ctx s repo us pack objects =
      let comparison = comparison_of H limits B A s repo us objects in
      elim (authorize_push ctx comparison) [
        | err msg ↦ rejected (rollback H limits B A s pack) us msg
        | ok _ ↦ ssh_updated repo us objects comparison.existing (update_refs s repo us)
      ]

  unfoldable pub ssh_inspect : Context → State → Repo → List RefUpdate → Option Pack → Session
  unfolding ssh_authorize
  ssh_inspect ctx s repo us none = ssh_authorize ctx s repo us none []
  ssh_inspect ctx s repo us (some pack) = elim (inspect_ingested s pack) [
    | ok objects ↦ ssh_authorize ctx s repo us (some pack) objects
    | err e ↦ rejected (rollback_ingest s pack) us (codes "pack inspection failed: " ++ e)
  ]

  abbrev pub ssh_after_ingest :
      Context → Repo → List RefUpdate → State × Result Bytes (Option Pack) → Session
  ssh_after_ingest ctx repo us (s, err e) = failed s
  ssh_after_ingest ctx repo us (s, ok pack) = ssh_inspect ctx s repo us pack

  unfoldable pub ssh_ingest : Context → State → Repo → List RefUpdate → Option Bytes → Session
  unfolding ssh_inspect
  ssh_ingest ctx s repo us none = ssh_inspect ctx s repo us none
  ssh_ingest ctx s repo us (some staged) = ssh_after_ingest ctx repo us (ingest_pack s repo staged)

  -- After the request has been read.
  unfoldable pub ssh_push : State → Repo → List RefUpdate → Bytes → Session
  unfolding ssh_ingest stage_pack
  ssh_push s repo us body =
      elim (authorize_preliminary (build_push_refs us preliminary_push_kind)) [
        | err msg ↦ rejected s us msg
        | ok ctx ↦ ssh_ingest ctx s repo us (stage_pack body)
      ]

  -- From the advertisement on.
  unfoldable pub ssh_session : State → Repo → Bytes → Session
  unfolding ssh_push
  ssh_session s repo body = elim (list_refs s repo) [
    | err e ↦ failed s
    | ok snapshot ↦
        after (info_refs_receive_pack_task H (as_receive_pack snapshot))
          (elim (read_receive_request H limits body) [
            | err e ↦ failed s
            | ok r ↦ ssh_push s repo r.0 r.1
          ])
  ]

  abbrev pub ssh_after_init : Bytes → State × Result Bytes (Unit {0}) → Session
  ssh_after_init body (s, err e) = failed s
  ssh_after_init body (s, ok _) = elim (open_repo s) [
    | err e ↦ failed s
    | ok repo ↦ ssh_session s repo body
  ]

  unfoldable pub serve_receive_pack : State → Bytes → Session
  unfolding ssh_session auto_init_repo
  serve_receive_pack s body = ssh_after_init body (auto_init_repo H limits B A S s)
