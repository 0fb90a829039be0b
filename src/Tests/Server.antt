-- ===== src/Tests/Server.antt =====
-- The theorems on pushes and on lists of refs, with a backend in memory.
use mizzle.Base.{
  from_utf8, ℕ, Bytes, List, [], ◌∷◌, ◌++◌, ◌≡◌, ◌⊎◌, ◌↔◌, refl, true, codes, none, some, ok, err,
  Memᴰ, map, Bool, not, ◌&&◌, ◌==◌, arith,
}
use mizzle.Refs.{RefUpdate, cas_all, fast_forward}
use mizzle.Proto.Limits.{default_limits}
use mizzle.Proto.Receive.{read_receive_request}
use mizzle.Server.Snapshot.{PushRef, RefInfo, tips}
use mizzle.Server.Snapshot.Tips.{KeptTip, tips_exact}
use mizzle.Server.Policy.{Access}
use mizzle.Server.Push.{recv_pack_post, build_push_refs, existing_ref_tips}
use mizzle.Proto.Numbers.{from_str_radix}
use mizzle.Server.Push.Authorized.{BothAccepted, recv_pack_post-BothAccepted}
use mizzle.Server.Push.Posted.{Updated, recv_pack_post-Updated}
use mizzle.Server.Routes.{Request, serve_git_protocol_1, serve_git_protocol_2}
use mizzle.Server.Routes.Guarded.{
  Guarded, serve_git_protocol_1-Guarded, serve_git_protocol_2-Guarded,
}
use mizzle.Server.Adverts.{advert, ref_lines, receive_pack_caps}
use mizzle.Server.Adverts.Read.{
  Free, NameFits, listed, shown, listed-advert, ls_listed, ls_listed-ref_lines,
}
use mizzle.Server.Adverts.Asked.{Chosen}
use mizzle.Tests.Memory.{memory_backend, open_policy, no_services, empty_memory}
use mizzle.Tests.Hex.{sha1_hex}
use mizzle.Tests.Protocol.{push_body, lsrefs_args}

recv_pack_post-BothAccepted_example :
    (memory_backend.refs
        (recv_pack_post sha1_hex default_limits memory_backend open_policy empty_memory
          push_body).state
      ≡ memory_backend.refs empty_memory)
    ⊎ ((us : List RefUpdate) × (rest : Bytes) × (read_receive_request sha1_hex default_limits
            push_body
          ≡ ok (us, rest))
        × BothAccepted sha1_hex default_limits memory_backend open_policy empty_memory us rest (
            memory_backend.refs
              (recv_pack_post sha1_hex default_limits memory_backend open_policy empty_memory
                push_body).state))
recv_pack_post-BothAccepted_example =
    recv_pack_post-BothAccepted sha1_hex default_limits memory_backend open_policy empty_memory
      push_body

recv_pack_post-Updated_example :
    ((recv_pack_post sha1_hex default_limits memory_backend open_policy empty_memory
        push_body).post_receive
      ≡ none)
    ⊎ ((us : List RefUpdate) × (rest : Bytes) × (read_receive_request sha1_hex default_limits
            push_body
          ≡ ok (us, rest))
        × Updated sha1_hex default_limits memory_backend open_policy us (
            recv_pack_post sha1_hex default_limits memory_backend open_policy empty_memory
              push_body))
recv_pack_post-Updated_example =
    recv_pack_post-Updated sha1_hex default_limits memory_backend open_policy empty_memory push_body

abbrev pushed_main : List PushRef
pushed_main =
    record { refname = codes "refs/heads/main"; kind = fast_forward; old_oid = 5; new_oid = 7 } ∷ []

abbrev two_refs : List RefInfo
two_refs =
    record { name = codes "refs/heads/main"; oid = 5; peeled = none; symref_target = none }
    ∷ record { name = codes "refs/tags/v1"; oid = 8; peeled = some 4; symref_target = none }
    ∷ []

tips_exact_example : Memᴰ 4 (tips pushed_main two_refs) ↔ KeptTip pushed_main two_refs 4
tips_exact_example = tips_exact pushed_main two_refs 4

unfoldable is_free : ℕ → Bytes → Bool
is_free sep [] = true
is_free sep (b ∷ bs) = not (b == sep) && is_free sep bs

Free-is_free : (sep : ℕ) (bs : Bytes) → is_free sep bs ≡ true → Free sep bs
unfolding is_free
Free-is_free sep [] h = tt
Free-is_free sep (b ∷ bs) h = (λ e. ground arith, Free-is_free sep bs (ground arith))

plain : (name : Bytes) → is_free 0 name ≡ true → is_free 32 name ≡ true → NameFits name
plain name h k = (Free-is_free 0 name h, Free-is_free 32 name k)

listed-advert_example :
    map listed (advert sha1_hex receive_pack_caps ((7, codes "refs/m") ∷ (9, codes "refs/n") ∷ []))
    ≡ map (shown sha1_hex) ((7, codes "refs/m") ∷ (9, codes "refs/n") ∷ []) ++ none ∷ []
unfolding is_free
listed-advert_example =
    listed-advert sha1_hex receive_pack_caps (7, codes "refs/m") ((9, codes "refs/n") ∷ [])
      (plain (codes "refs/m") refl refl, (plain (codes "refs/n") refl refl, tt))

ls_listed-ref_lines_example :
    (chosen : List (ℕ × Bytes)) × Chosen lsrefs_args.prefixes two_refs chosen
    × (map (ls_listed sha1_hex) (ref_lines sha1_hex lsrefs_args two_refs)
        ≡ map (shown sha1_hex) chosen)
unfolding is_free
ls_listed-ref_lines_example = ls_listed-ref_lines sha1_hex lsrefs_args two_refs (
  Free-is_free 32 (codes "refs/heads/main") refl,
  (Free-is_free 32 (codes "refs/tags/v1") refl, tt),
)

abbrev push_request : Request
push_request = record {
  protocol_path = codes "git-receive-pack";
  query_string = [];
  content_type = codes "application/x-git-receive-pack-request";
  body = push_body;
}

serve_git_protocol_1-Guarded_example :
    Guarded sha1_hex default_limits memory_backend open_policy no_services empty_memory push_request
      (serve_git_protocol_1 sha1_hex default_limits memory_backend open_policy no_services
        empty_memory push_request)
serve_git_protocol_1-Guarded_example =
    serve_git_protocol_1-Guarded sha1_hex default_limits memory_backend open_policy no_services
      empty_memory push_request

serve_git_protocol_2-Guarded_example :
    Guarded sha1_hex default_limits memory_backend open_policy no_services empty_memory push_request
      (serve_git_protocol_2 sha1_hex default_limits memory_backend open_policy no_services
        empty_memory push_request)
serve_git_protocol_2-Guarded_example =
    serve_git_protocol_2-Guarded sha1_hex default_limits memory_backend open_policy no_services
      empty_memory push_request

abbrev closed_policy : Access Unit
closed_policy = record {
  Context = Unit;
  authorize_preliminary = λ refs. ok tt;
  authorize_push = λ ctx comparison. err (codes "denied");
}

-- For a push of no refs that the policy denies, `post_receive` is called.
denied_empty_push :
    (recv_pack_post sha1_hex default_limits memory_backend closed_policy empty_memory
      (codes "0000")).post_receive
    ≡ some (record { push_refs = []; objects = []; existing = [] })
unfolding recv_pack_post from_utf8 from_str_radix cas_all read_receive_request build_push_refs
    existing_ref_tips
denied_empty_push = refl
