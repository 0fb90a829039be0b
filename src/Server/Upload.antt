-- ===== src/Server/Upload.antt =====
-- The upload-pack sessions of the SSH transport: `serve_upload_pack` of mizzle/src/serve.rs. Writes
-- succeed, and the input is the lines that the reader yields. The loop over commands takes fuel, one
-- unit a command; the number of lines and one more are enough, since each command takes a line.
pub mod Answered
pub mod Ends
use mizzle.Base.Result.{Result}
use mizzle.Base.{
  ℕ, zero, suc, ◌+◌, leb, Bytes, Bool, List, [], ◌∷◌, ◌++◌, map, ok, err, codes, OidHex, length,
  if◌then◌else◌,
}
use mizzle.Proto.Limits.{ProtocolLimits, ProtoError}
use mizzle.Proto.Lines.{Line}
use mizzle.Proto.Command.{Command, read_command}
use mizzle.Proto.Command as Commands
use mizzle.Proto.LsRefs.{ListRefsArgs, read_lsrefs_args}
use mizzle.Proto.Fetch.{FetchArgs, read_fetch_args, read_fetch_args_v1}
use mizzle.Server.Snapshot.{RefsSnapshot, as_upload_pack_v1}
use mizzle.Server.Policy.{Backend, Access}
use mizzle.Server.Adverts.{upload_pack_v1_refs, capability_advertisement_v2, perform_listrefs}
use mizzle.Server.Routes.{Services, auto_init_repo, resolved}
use mizzle.Server.Fetch.{
  Packet, plain, FetchError, PackSource, Sent, perform_fetch, perform_fetch_v1,
}

-- How a session ends before its client does.
pub data SessionError : Type 0 where
  backend_failed : Bytes → SessionError
  request_refused : ProtoError → SessionError
  fetch_failed : FetchError → SessionError
  out_of_fuel : SessionError

-- What was written, and how the session ended.
abbrev pub Served : Type 0
Served = List Packet × Result SessionError (Unit {0})

-- `?`: the session goes on when a step succeeds.
abbrev pub go_on : Served → Served → Served
go_on (ps, err e) rest = (ps, err e)
go_on (ps, ok u) rest = (ps ++ rest.0, rest.1)

abbrev pub as_served : Sent → Served
as_served (ps, err e) = (ps, err (fetch_failed e))
as_served (ps, ok u) = (ps, ok u)

abbrev pub ended : SessionError → Served
ended e = ([], err e)

abbrev pub written : List Line → Served
written ls = (map plain ls, ok tt)

module _ (H : OidHex) (limits : ProtocolLimits) (B : Backend) (A : Access B.Object) (S : Services B)
    (source : B.State → B.Repo → PackSource) where
  open B use {State, Repo, open_repo, list_refs}

  -- The reply to `ls-refs`.
  abbrev pub listed_refs : State → Repo → ListRefsArgs → Served
  listed_refs s repo args = elim (list_refs s repo) [
    | err e ↦ ended (backend_failed e)
    | ok snapshot ↦ written (perform_listrefs H snapshot args)
  ]

  -- The reply to `fetch`, with the want-refs that resolve.
  abbrev pub fetched : State → Repo → FetchArgs → Served
  fetched s repo args =
      as_served (perform_fetch H (source s repo) (resolved H limits B A S s repo args))

  -- The loop over commands. A command that cannot be read ends the session.
  unfoldable pub serve_commands : ℕ → State → Repo → List Line → Served
  serve_commands zero s repo ls = ended out_of_fuel
  serve_commands (suc fuel) s repo ls = elim (read_command ls) [
    | err e ↦ ([], ok tt)
    | ok (Commands.empty, rest) ↦ ([], ok tt)
    | ok (Commands.list_refs, rest) ↦ elim (read_lsrefs_args rest limits) [
      | err e ↦ ended (request_refused e)
      | ok (args, next) ↦ go_on (listed_refs s repo args) (serve_commands fuel s repo next)
    ]
    | ok (Commands.fetch, rest) ↦ elim (read_fetch_args H limits rest) [
      | err e ↦ ended (request_refused e)
      | ok (args, next) ↦ go_on (fetched s repo args) (serve_commands fuel s repo next)
    ]
  ]

  unfoldable pub serve_v2 : State → Repo → List Line → Served
  unfolding serve_commands
  serve_v2 s repo ls =
      go_on (written capability_advertisement_v2) (serve_commands (length ls + 1) s repo ls)

  unfoldable pub serve_v1 : State → Repo → List Line → Served
  serve_v1 s repo ls = elim (list_refs s repo) [
    | err e ↦ ended (backend_failed e)
    | ok snapshot ↦
        go_on (written (upload_pack_v1_refs H (as_upload_pack_v1 snapshot)))
          (elim (read_fetch_args_v1 H limits ls) [
            | err e ↦ ended (request_refused e)
            | ok args ↦
                as_served (perform_fetch_v1 H (source s repo) (resolved H limits B A S s repo args))
          ])
  ]

  abbrev pub serve_version : State → ℕ → Repo → List Line → Served
  serve_version s version repo ls = if leb 2 version then serve_v2 s repo ls else serve_v1 s repo ls

  abbrev pub upload_after_init : ℕ → List Line → State × Result Bytes (Unit {0}) → State × Served
  upload_after_init version ls (s, err e) = (s, ended (backend_failed e))
  upload_after_init version ls (s, ok u) = elim (open_repo s) [
    | err e ↦ (s, ended (backend_failed e))
    | ok repo ↦ (s, serve_version s version repo ls)
  ]

  unfoldable pub serve_upload_pack : State → ℕ → List Line → State × Served
  unfolding serve_v1 serve_v2 auto_init_repo
  serve_upload_pack s version ls = upload_after_init version ls (auto_init_repo H limits B A S s)
