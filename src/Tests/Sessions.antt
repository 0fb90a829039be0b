-- ===== src/Tests/Sessions.antt =====
-- The theorems on fetches and on the SSH sessions, with a backend in memory.
use mizzle.Base.{
  arith, Bytes, List, [], ◌∷◌, ◌++◌, ◌≡◌, ◌⊎◌, refl, Bool, true, false, codes, ok, none, All,
  if◌then◌else◌,
}
use mizzle.Refs.{RefUpdate}
use mizzle.Proto.Limits.{default_limits}
use mizzle.Proto.Lines.{Line, flush, delimiter}
use mizzle.Proto.Receive.{read_receive_request}
use mizzle.Proto.LsRefs.Request.{text_line}
use mizzle.Proto.Fetch.{FetchArgs, no_args}
use mizzle.Server.Push.{recv_pack_post}
use mizzle.Server.Push.Authorized.{BothAccepted}
use mizzle.Server.Routes.{auto_init_repo}
use mizzle.Server.Fetch.{PackSource, PackOutput, perform_fetch}
use mizzle.Server.Fetch.Sideband.{Reads, IsRead, pack_of}
use mizzle.Server.Fetch.Negotiated.{
  Negotiated, Shallow, pack_lines, held, missing, no_haves, perform_fetch-Negotiated,
}
use mizzle.Server.Ssh.{ssh_session, serve_receive_pack}
use mizzle.Server.Ssh.Parity.{ssh_session-Same, serve_receive_pack-BothAccepted}
use mizzle.Server.Upload.{serve_commands, serve_upload_pack}
use mizzle.Server.Upload.Ends.{Fuelled, serve_upload_pack-Fuelled}
use mizzle.Server.Upload.Answered.{
  Asked, ask_refs, ask_fetch, write_all, answers, serve_commands-write_all,
}
use mizzle.Tests.Hex.{sha1_hex}
use mizzle.Tests.Protocol.{push_body, lsrefs_args}
use mizzle.Tests.Memory.{memory_backend, open_policy, no_services, empty_memory}

abbrev packed : PackOutput
packed = record {
  rounds =
      record { pending = codes "counting" ∷ []; chunk = ok (codes "PACK") }
      ∷ record { pending = []; chunk = ok (codes "tail") }
      ∷ [];
  last = [];
  shallow = 7 ∷ [];
}

abbrev one_pack : PackSource
one_pack = record {
  has_objects = λ ids. ok (true ∷ false ∷ []);
  build_pack = λ wants haves options. ok packed;
}

abbrev fetch_args : FetchArgs
fetch_args = record no_args { want = 7 ∷ []; have = 9 ∷ 11 ∷ [] }

packed-IsRead : All IsRead packed.rounds
packed-IsRead = ((80, codes "ACK", refl), ((116, codes "ail", refl), tt))

perform_fetch-Negotiated_example :
    (follows : Bool) × (said : List Line) × (cut : List Line) × Negotiated sha1_hex fetch_args
      (9 ∷ [])
      follows
      said
    × Shallow sha1_hex (7 ∷ []) cut
    × Reads
        (perform_fetch sha1_hex one_pack fetch_args)
        (if follows then pack_of packed.rounds else [])
        (said ++ pack_lines sha1_hex follows cut)
perform_fetch-Negotiated_example =
    perform_fetch-Negotiated sha1_hex one_pack fetch_args (true ∷ false ∷ []) (9 ∷ []) none packed
      refl (held (missing no_haves)) refl refl packed-IsRead

ssh_session-Same_example :
    memory_backend.refs
      (ssh_session sha1_hex default_limits memory_backend open_policy no_services empty_memory tt
        push_body).state
    ≡ memory_backend.refs
        (recv_pack_post sha1_hex default_limits memory_backend open_policy empty_memory
          push_body).state
ssh_session-Same_example =
    ssh_session-Same sha1_hex default_limits memory_backend open_policy no_services empty_memory tt
      (record { head = none; refs = [] }) push_body refl refl

serve_receive_pack-BothAccepted_example :
    (memory_backend.refs
        (serve_receive_pack sha1_hex default_limits memory_backend open_policy no_services
          empty_memory push_body).state
      ≡ memory_backend.refs empty_memory)
    ⊎ ((us : List RefUpdate) × (rest : Bytes) × (read_receive_request sha1_hex default_limits
            push_body
          ≡ ok (us, rest))
        × BothAccepted sha1_hex default_limits memory_backend open_policy
            (auto_init_repo sha1_hex default_limits memory_backend open_policy no_services
              empty_memory).0
            us
            rest
            (memory_backend.refs
              (serve_receive_pack sha1_hex default_limits memory_backend open_policy no_services
                empty_memory push_body).state))
serve_receive_pack-BothAccepted_example =
    serve_receive_pack-BothAccepted sha1_hex default_limits memory_backend open_policy no_services
      empty_memory push_body

serve_upload_pack-Fuelled_example :
    Fuelled
      (serve_upload_pack sha1_hex default_limits memory_backend open_policy no_services
        (λ s repo. one_pack)
        empty_memory
        2
        (text_line (codes "command=ls-refs") ∷ delimiter ∷ flush ∷ flush ∷ [])).1
serve_upload_pack-Fuelled_example =
    serve_upload_pack-Fuelled sha1_hex default_limits memory_backend open_policy no_services
      (λ s repo. one_pack) empty_memory 2
      (text_line (codes "command=ls-refs") ∷ delimiter ∷ flush ∷ flush ∷ [])

abbrev asked : List Asked
asked = ask_refs (codes "agent=git" ∷ []) lsrefs_args ∷ ask_fetch [] (7 ∷ []) (9 ∷ []) true ∷ []

serve_commands-write_all_example :
    serve_commands sha1_hex default_limits memory_backend open_policy no_services
      (λ s repo. one_pack)
      3
      empty_memory
      tt
      (write_all sha1_hex default_limits asked)
    ≡ answers sha1_hex default_limits memory_backend open_policy no_services
        (λ s repo. one_pack)
        empty_memory
        tt
        asked
serve_commands-write_all_example =
    serve_commands-write_all sha1_hex default_limits memory_backend open_policy no_services
      (λ s repo. one_pack) 3 empty_memory tt asked
      (omega arith, (((omega arith, tt), (omega arith, tt), omega arith, omega arith), tt))
      (omega arith)
