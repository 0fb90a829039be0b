-- ===== src/Server/Adverts.antt =====
-- The lines that list refs for a client: `info_refs_receive_pack_task` of mizzle/src/receive.rs,
-- `upload_pack_v1_refs` of mizzle/src/serve.rs and `perform_listrefs` of mizzle/src/ls_refs.rs, as
-- what they write. Their writes succeed.
pub mod Asked
pub mod Read
use mizzle.Base.{
  Bytes, Bool, true, false, List, [], ◌∷◌, ◌++◌, Option, none, some, codes, starts_with, OidHex,
  ObjectId, replicate, if◌then◌else◌, ◌||◌,
}
use mizzle.Proto.Lines.{Line, data_line, flush, newline, space}
use mizzle.Proto.LsRefs.{ListRefsArgs}
use mizzle.Server.Snapshot.{HeadInfo, RefInfo, RefsSnapshot}
use mizzle.Server.Push.{text}

abbrev pub nul : Bytes
nul = 0 ∷ []

abbrev pub receive_pack_caps : Bytes
receive_pack_caps = codes "report-status delete-refs ofs-delta agent=mizzle/dev"

abbrev pub upload_pack_v1_caps : Bytes
upload_pack_v1_caps = codes "side-band-64k ofs-delta shallow filter agent=mizzle/dev"

-- The lines of `capability_advertisement_v2`.
abbrev pub capability_advertisement_v2 : List Line
capability_advertisement_v2 =
    text (codes "version 2")
    ∷ text (codes "agent=mizzle/dev")
    ∷ text (codes "ls-refs=unborn")
    ∷ text (codes "fetch=ref-in-want wait-for-done shallow filter")
    ∷ flush
    ∷ []

abbrev pub any_prefix : List Bytes → Bytes → Bool
any_prefix [] name = false
any_prefix (p ∷ ps) name = starts_with p name || any_prefix ps name

-- A ref is listed if there are no prefixes or it starts with one of them.
unfoldable pub wanted : List Bytes → Bytes → Bool
wanted [] name = true
wanted (p ∷ ps) name = any_prefix (p ∷ ps) name

module _ (H : OidHex) where
  open H use {to_hex}

  -- The first line alone carries the capabilities.
  unfoldable pub advert_refs : Bytes → Bool → List (ObjectId × Bytes) → List Line
  advert_refs caps first [] = []
  advert_refs caps true ((oid, name) ∷ refs) =
      text (to_hex oid ++ space ∷ (name ++ 0 ∷ caps)) ∷ advert_refs caps false refs
  advert_refs caps false ((oid, name) ∷ refs) =
      text (to_hex oid ++ space ∷ name) ∷ advert_refs caps false refs

  -- The advertisement with the capabilities `caps`.
  unfoldable pub advert : Bytes → List (ObjectId × Bytes) → List Line
  unfolding advert_refs
  advert caps [] = text (replicate 40 48 ++ (codes " capabilities^{}" ++ 0 ∷ caps)) ∷ flush ∷ []
  advert caps (r ∷ refs) = advert_refs caps true (r ∷ refs) ++ flush ∷ []

  unfoldable pub info_refs_receive_pack_task : List (ObjectId × Bytes) → List Line
  unfolding advert
  info_refs_receive_pack_task refs = advert receive_pack_caps refs

  unfoldable pub upload_pack_v1_refs : List (ObjectId × Bytes) → List Line
  unfolding advert
  upload_pack_v1_refs refs = advert upload_pack_v1_caps refs

  abbrev pub head_target : Bool → Option Bytes → Bytes
  head_target true (some target) = codes " symref-target:" ++ target
  head_target true none = []
  head_target false target = []

  unfoldable pub head_lines : ListRefsArgs → Option HeadInfo → List Line
  head_lines args none = if args.unborn then text (codes "unborn HEAD") ∷ [] else []
  head_lines args (some head) =
      text (to_hex head.oid ++ (codes " HEAD" ++ head_target args.symrefs head.symref_target)) ∷ []

  -- What follows the name of a ref.
  abbrev pub attributes : ListRefsArgs → Option Bytes → Option ObjectId → Bytes
  attributes args (some target) peeled =
      if args.symrefs then codes " symref-target:" ++ target else []
  attributes args none (some peeled) = if args.peel then codes " peeled:" ++ to_hex peeled else []
  attributes args none none = []

  abbrev pub ref_line : ListRefsArgs → RefInfo → Line
  ref_line args r =
      text (to_hex r.oid ++ space ∷ (r.name ++ attributes args r.symref_target r.peeled))

  unfoldable pub ref_lines : ListRefsArgs → List RefInfo → List Line
  ref_lines args [] = []
  ref_lines args (r ∷ refs) =
      let rest = ref_lines args refs in
      if wanted args.prefixes r.name then ref_line args r ∷ rest else rest

  unfoldable pub perform_listrefs : RefsSnapshot → ListRefsArgs → List Line
  unfolding head_lines ref_lines
  perform_listrefs snapshot args =
      head_lines args snapshot.head ++ (ref_lines args snapshot.refs ++ flush ∷ [])
