-- ===== src/Server/Upload/Answered.antt =====
-- What a client of an upload-pack session is sent for the requests that it writes.
use mizzle.Base.{
  ℕ, zero, suc, ◌≤◌, ◌<◌, Bytes, Bool, List, [], ◌∷◌, ok, codes, OidHex, ObjectId, IsObjectId, ◌≡◌,
  refl, length, arith, All, leb-true,
}
use mizzle.Proto.Limits.{ProtocolLimits}
use mizzle.Proto.Lines.{Line, chomp}
use mizzle.Proto.Command.{read_command, command_of}
use mizzle.Proto.Command as Commands
use mizzle.Proto.LsRefs.{ListRefsArgs}
use mizzle.Proto.LsRefs.Request.{text_line, write_request, read_lsrefs_args-write_request}
use mizzle.Proto.Fetch.{no_args}
use mizzle.Proto.Fetch.Written.{write_fetch, read_fetch_args-write_fetch}
use mizzle.Server.Policy.{Backend, Access}
use mizzle.Server.Routes.{Services}
use mizzle.Server.Fetch.{PackSource}
use mizzle.Server.Upload.{Served, go_on, listed_refs, fetched, serve_commands}

read_command-refs :
    (ls : List Line)
    → read_command (text_line (codes "command=ls-refs") ∷ ls) ≡ ok (Commands.list_refs, ls)
unfolding read_command command_of chomp
read_command-refs ls = refl

read_command-fetch :
    (ls : List Line)
    → read_command (text_line (codes "command=fetch") ∷ ls) ≡ ok (Commands.fetch, ls)
unfolding read_command command_of chomp
read_command-fetch ls = refl

-- A request as a client means it: the capabilities on its command, and its arguments.
pub data Asked : Type 0 where
  ask_refs : List Bytes → ListRefsArgs → Asked
  ask_fetch : List Bytes → List ObjectId → List ObjectId → Bool → Asked

module _ (H : OidHex) (limits : ProtocolLimits) where
  -- A request as its client writes it, and the lines after it.
  abbrev pub write_asked : Asked → List Line → List Line
  write_asked (ask_refs caps args) rest =
      text_line (codes "command=ls-refs") ∷ write_request caps args rest
  write_asked (ask_fetch caps wants haves done) rest =
      text_line (codes "command=fetch") ∷ write_fetch H limits caps wants haves done rest

  unfoldable pub write_all : List Asked → List Line
  write_all [] = []
  write_all (a ∷ asked) = write_asked a (write_all asked)

  -- A request within the limits.
  abbrev pub Fits : Asked → Type 0
  Fits (ask_refs caps args) = length args.prefixes ≤ limits.max_ref_prefixes
  Fits (ask_fetch caps wants haves done) =
      All IsObjectId wants
      × All IsObjectId haves
      × (length wants ≤ limits.max_wants)
      × (length haves ≤ limits.max_haves)

module _ (H : OidHex) (limits : ProtocolLimits) (B : Backend) (A : Access B.Object) (S : Services B)
    (source : B.State → B.Repo → PackSource) where
  open B use {State, Repo}

  abbrev pub answer : State → Repo → Asked → Served
  answer s repo (ask_refs caps args) = listed_refs H limits B A S source s repo args
  answer s repo (ask_fetch caps wants haves done) =
      fetched H limits B A S source s repo
        (record no_args { want = wants; have = haves; done = done })

  -- The answers in order, as far as the first that fails.
  unfoldable pub answers : State → Repo → List Asked → Served
  answers s repo [] = ([], ok tt)
  answers s repo (a ∷ asked) = go_on (answer s repo a) (answers s repo asked)

  -- For requests within the limits, where the fuel is above their number, a client that writes them
  -- and then disconnects is sent the answer to each in order, as far as the first that fails, and
  -- the session ends as that one does, or well.
  pub serve_commands-write_all :
      (fuel : ℕ) (s : State) (repo : Repo) (asked : List Asked)
      → All (Fits H limits) asked
      → length asked < fuel
      → serve_commands H limits B A S source fuel s repo (write_all H limits asked)
        ≡ answers s repo asked
  unfolding serve_commands write_all answers read_command
  serve_commands-write_all zero s repo asked h k = ground arith
  serve_commands-write_all (suc fuel) s repo [] h k = refl
  serve_commands-write_all (suc fuel) s repo (ask_refs caps args ∷ asked) (f, h) k =
      rw
        (
          serve_commands,
          read_command-refs (write_request caps args (write_all H limits asked)),
          read_lsrefs_args-write_request limits caps args (write_all H limits asked),
          leb-true (length args.prefixes) limits.max_ref_prefixes f,
          serve_commands-write_all fuel s repo asked h (omega arith),
        )
        refl
  serve_commands-write_all (suc fuel) s repo (ask_fetch caps wants haves done ∷ asked)
        ((hw, hh, kw, kh), h) k =
      rw
        (
          serve_commands,
          read_command-fetch
              (write_fetch H limits caps wants haves done (write_all H limits asked)),
          read_fetch_args-write_fetch H limits caps wants haves done (write_all H limits asked) hw
              hh kw kh,
          serve_commands-write_all fuel s repo asked h (omega arith),
        )
        refl
