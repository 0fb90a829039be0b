-- ===== src/Server/Routes.antt =====
-- The routing of requests: `recv_pack_info_refs`, `serve_git_protocol_1` and `serve_git_protocol_2`
-- of mizzle/src/serve.rs. `lines` is the packet-line reader of gix-packetline on a body. A fetch ends
-- with the arguments that `perform_fetch` is called with.
pub mod Guarded
use mizzle.Base.Result.{Result}
use mizzle.Base.{
  ℕ, Bytes, Bool, true, false, ◌||◌, ◌&&◌, List, [], ◌∷◌, ◌++◌, ok, err, Option, none, some, codes,
  eq_bytes, OidHex, ObjectId, if◌then◌else◌, ◌≡◌,
}
use mizzle.Proto.Limits.{ProtocolLimits}
use mizzle.Proto.Lines.{Line, flush, split}
use mizzle.Proto.Command.{Command, read_command}
use mizzle.Proto.Command as Commands
use mizzle.Proto.LsRefs.{read_lsrefs_args}
use mizzle.Proto.Fetch.{FetchArgs, read_fetch_args, read_fetch_args_v1}
use mizzle.Server.Snapshot.{RefsSnapshot, as_receive_pack, as_upload_pack_v1}
use mizzle.Server.Policy.{Backend, Access}
use mizzle.Server.Push.{text, Response, recv_pack_post}
use mizzle.Server.Adverts.{
  info_refs_receive_pack_task, upload_pack_v1_refs, capability_advertisement_v2, perform_listrefs,
}

pub record Request : Type 0 where
  pub protocol_path : Bytes
  pub query_string : Bytes
  pub content_type : Bytes
  pub body : Bytes

-- `GitResponse`, by what it is made of.
pub data Reply : Type 0 where
  not_found : Reply
  bad_content_type : Reply
  server_error : Reply
  lines_written : List Line → Reply
  fetch_run : FetchArgs → Reply
  push_done : Response → Reply

-- What the routes use besides the push.
pub record Services (B : Backend) : Type 0 where
  pub auto_init : Bool
  pub init_repo : B.State → B.State × Result Bytes (Unit {0})
  pub resolve_ref : B.State → B.Repo → Bytes → Result Bytes (Option ObjectId)
  pub lines : Bytes → List Line
  pub refs-init_repo : (s : B.State) → B.refs (init_repo s).0 ≡ B.refs s

abbrev pub any_equal : Bytes → List Bytes → Bool
any_equal wanted [] = false
any_equal wanted (kv ∷ kvs) = eq_bytes kv wanted || any_equal wanted kvs

-- `query_string.split('&').any(|kv| kv == wanted)`
unfoldable pub has_pair : Bytes → Bytes → Bool
unfolding split
has_pair query_string wanted = any_equal wanted (split 38 query_string)

module _ (H : OidHex) (limits : ProtocolLimits) (B : Backend) (A : Access B.Object)
    (S : Services B) where
  open B use {State, Repo, open_repo, list_refs}
  open S use {auto_init, init_repo, resolve_ref, lines}

  -- `if access.auto_init() { backend.init_repo(repo_id) }`
  unfoldable pub auto_init_repo : State → State × Result Bytes (Unit {0})
  auto_init_repo s = if auto_init then init_repo s else (s, ok tt)

  -- `open` and `list_refs`, and the reply with the snapshot.
  unfoldable pub with_refs : State → (RefsSnapshot → List Line) → Reply
  with_refs s reply = elim (open_repo s) [
    | err e ↦ server_error
    | ok repo ↦ elim (list_refs s repo) [
      | err e ↦ server_error
      | ok snapshot ↦ lines_written (reply snapshot)
    ]
  ]

  abbrev pub after_init :
      (RefsSnapshot → List Line) → State × Result Bytes (Unit {0}) → State × Reply
  after_init reply (s, err e) = (s, server_error)
  after_init reply (s, ok _) = (s, with_refs s reply)

  unfoldable pub recv_pack_info_refs : State → State × Reply
  unfolding auto_init_repo with_refs
  recv_pack_info_refs s =
      after_init
        (λ snapshot.
          text (codes "# service=git-receive-pack")
          ∷ flush
          ∷ info_refs_receive_pack_task H (as_receive_pack snapshot))
        (auto_init_repo s)

  -- Upload-pack discovery of protocol 1.
  unfoldable pub upload_pack_info_refs_v1 : State → State × Reply
  unfolding auto_init_repo with_refs
  upload_pack_info_refs_v1 s =
      after_init
        (λ snapshot.
          text (codes "# service=git-upload-pack")
          ∷ flush
          ∷ upload_pack_v1_refs H (as_upload_pack_v1 snapshot))
        (auto_init_repo s)

  -- Want-refs that resolve are added to the wants, in order.
  unfoldable pub resolve_wants : State → Repo → List Bytes → List ObjectId → List ObjectId
  resolve_wants s repo [] want = want
  resolve_wants s repo (refname ∷ refnames) want =
      resolve_wants s repo refnames (elim (resolve_ref s repo refname) [
        | ok (some oid) ↦ want ++ oid ∷ []
        | ok none ↦ want
        | err e ↦ want
      ])

  abbrev pub resolved : State → Repo → FetchArgs → FetchArgs
  resolved s repo args = record args { want = resolve_wants s repo args.want_refs args.want }

  unfoldable pub upload_pack_v1 : State → Bytes → Reply
  unfolding resolve_wants
  upload_pack_v1 s body = elim (open_repo s) [
    | err e ↦ server_error
    | ok repo ↦ elim (read_fetch_args_v1 H limits (lines body)) [
      | err e ↦ server_error
      | ok args ↦ fetch_run (resolved s repo args)
    ]
  ]

  -- The commands of protocol 2; an empty request falls through to status 404.
  unfoldable pub run_command : State → Command → List Line → Reply
  unfolding resolve_wants with_refs
  run_command s Commands.list_refs ls = elim (read_lsrefs_args ls limits) [
    | err e ↦ server_error
    | ok r ↦ with_refs s (λ snapshot. perform_listrefs H snapshot r.0)
  ]
  run_command s Commands.empty ls = not_found
  run_command s Commands.fetch ls = elim (open_repo s) [
    | err e ↦ server_error
    | ok repo ↦ elim (read_fetch_args H limits ls) [
      | err e ↦ server_error
      | ok r ↦ fetch_run (resolved s repo r.0)
    ]
  ]

  unfoldable pub upload_pack_v2 : State → Bytes → Reply
  unfolding run_command
  upload_pack_v2 s body = elim (read_command (lines body)) [
    | err e ↦ server_error
    | ok r ↦ run_command s r.0 r.1
  ]

  -- POST /git-receive-pack
  unfoldable pub receive_pack : State → Request → State × Reply
  receive_pack s req =
      if eq_bytes req.content_type (codes "application/x-git-receive-pack-request")
      then (
        (recv_pack_post H limits B A s req.body).state,
        push_done (recv_pack_post H limits B A s req.body).response,
      )
      else (s, bad_content_type)

  -- POST /git-upload-pack, with the handler of the protocol.
  unfoldable pub upload_pack : (State → Bytes → Reply) → State → Request → State × Reply
  upload_pack handler s req =
      if eq_bytes req.content_type (codes "application/x-git-upload-pack-request")
      then (s, handler s req.body)
      else (s, bad_content_type)

  unfoldable pub serve_git_protocol_1 : State → Request → State × Reply
  unfolding receive_pack upload_pack upload_pack_v1 recv_pack_info_refs upload_pack_info_refs_v1
  serve_git_protocol_1 s req =
      if eq_bytes req.protocol_path (codes "info/refs")
        && has_pair req.query_string (codes "service=git-receive-pack")
      then recv_pack_info_refs s
      else if eq_bytes req.protocol_path (codes "info/refs")
          && has_pair req.query_string (codes "service=git-upload-pack")
      then upload_pack_info_refs_v1 s
      else if eq_bytes req.protocol_path (codes "git-receive-pack")
      then receive_pack s req
      else if eq_bytes req.protocol_path (codes "git-upload-pack")
      then upload_pack upload_pack_v1 s req
      else (s, not_found)

  unfoldable pub serve_git_protocol_2 : State → Request → State × Reply
  unfolding receive_pack upload_pack upload_pack_v2 recv_pack_info_refs
  serve_git_protocol_2 s req =
      if eq_bytes req.protocol_path (codes "info/refs")
        && has_pair req.query_string (codes "service=git-receive-pack")
      then recv_pack_info_refs s
      else if eq_bytes req.protocol_path (codes "info/refs")
      then (
        s,
        lines_written
            (text (codes "# service=git-upload-pack") ∷ flush ∷ capability_advertisement_v2),
      )
      else if eq_bytes req.protocol_path (codes "git-receive-pack")
      then receive_pack s req
      else if eq_bytes req.protocol_path (codes "git-upload-pack")
      then upload_pack upload_pack_v2 s req
      else (s, not_found)
