-- ===== src/Server/Fetch/Negotiated.antt =====
-- The reply to a fetch, told from the request and the backend's answers alone.
use mizzle.Base.{
  Bytes, Bool, true, false, ◌||◌, ◌&&◌, not, List, [], ◌∷◌, ◌++◌, map, ok, Option, none, some,
  codes, OidHex, ObjectId, ◌≡◌, refl, sym, ap, ◌∙◌, All, append_assoc, append-nil, if◌then◌else◌,
}
use mizzle.Proto.Lines.{Line, delimiter, flush}
use mizzle.Proto.Fetch.{FetchArgs, Filter, parse_filter}
use mizzle.Server.Push.{text}
use mizzle.Server.Fetch.{
  PackOutput, PackSource, known_haves, read_filter, is_empty, server_haves, requested_pack,
  shallow_info, perform_fetch,
}
use mizzle.Server.Fetch.Sideband.{
  Reads, IsRead, pack_of, pack_section, ack_section, perform_fetch-Reads,
}

-- The haves that a backend's answers say it has, in order.
pub data Held : List ObjectId → List Bool → List ObjectId → Type 0 where
  no_haves : Held [] [] []
  held :
      {id : ObjectId} {ids : List ObjectId} {known : List Bool} {kept : List ObjectId}
      → Held ids known kept
      → Held (id ∷ ids) (true ∷ known) (id ∷ kept)
  missing :
      {id : ObjectId} {ids : List ObjectId} {known : List Bool} {kept : List ObjectId}
      → Held ids known kept
      → Held (id ∷ ids) (false ∷ known) kept

known_haves-Held :
    (ids : List ObjectId) (known : List Bool) (kept : List ObjectId)
    → Held ids known kept
    → known_haves ids known ≡ kept
unfolding known_haves
known_haves-Held _ _ _ no_haves = refl
known_haves-Held _ _ _ (held {id = id} {ids = ids} {known = known} {kept = kept} h) =
    ap (λ t. id ∷ t) (known_haves-Held ids known kept h)
known_haves-Held _ _ kept (missing {ids = ids} {known = known} h) =
    known_haves-Held ids known kept h

-- The filter of a request that has none, or one that can be read.
abbrev pub IsFilter : Option Bytes → Option Filter → Type 0
IsFilter none f = f ≡ none
IsFilter (some spec) f = (g : Filter) × (parse_filter spec ≡ some g) × (f ≡ some g)

read_filter-IsFilter :
    (spec : Option Bytes) (f : Option Filter) → IsFilter spec f → read_filter spec ≡ ok f
unfolding read_filter
read_filter-IsFilter none f h = ap (λ t. ok t) (sym h)
read_filter-IsFilter (some spec) f (g, e, h) = rw (e, read_filter) (ap (λ t. ok t) (sym h))

module _ (H : OidHex) where
  open H use {to_hex}

  abbrev pub ack : ObjectId → Line
  ack id = text (codes "ACK " ++ to_hex id)

  -- What is said of the haves, and whether a pack follows.
  pub data Negotiated (args : FetchArgs) : List ObjectId → Bool → List Line → Type 0 where
    is_done : {kept : List ObjectId} → args.done ≡ true → Negotiated args kept true []
    ready :
        {id : ObjectId} {ids : List ObjectId}
        → args.done ≡ false
        → args.wait_for_done ≡ false
        → Negotiated args (id ∷ ids) true (
            text (codes "acknowledgments")
            ∷ (map ack (id ∷ ids) ++ text (codes "ready") ∷ delimiter ∷ []))
    waits :
        {id : ObjectId} {ids : List ObjectId}
        → args.done ≡ false
        → args.wait_for_done ≡ true
        → Negotiated args
            (id ∷ ids)
            false
            (text (codes "acknowledgments") ∷ (map ack (id ∷ ids) ++ flush ∷ []))
    none_known :
        args.done ≡ false
        → Negotiated args [] false
            (text (codes "acknowledgments") ∷ text (codes "NAK") ∷ flush ∷ [])

  -- The section on shallow commits.
  pub data Shallow : List ObjectId → List Line → Type 0 where
    no_shallow : Shallow [] []
    shallow :
        {id : ObjectId} {ids : List ObjectId}
        → Shallow (id ∷ ids) (
            text (codes "shallow-info")
            ∷ (map (λ i. text (codes "shallow " ++ to_hex i)) (id ∷ ids) ++ delimiter ∷ []))

  -- What follows the negotiation.
  abbrev pub pack_lines : Bool → List Line → List Line
  pack_lines false cut = []
  pack_lines true cut = cut ++ text (codes "packfile") ∷ flush ∷ []

  module _ (S : PackSource) where
    open S use {has_objects, build_pack}

    Shallow-shallow_info : (ids : List ObjectId) → Shallow ids (shallow_info H S ids)
    Shallow-shallow_info [] = no_shallow
    Shallow-shallow_info (id ∷ ids) = shallow

    -- For a fetch where the backend has of the haves `kept`, reads no filter or one of the known ones,
    -- and builds from the wants, `kept`, the depth and the filter a pack that can be read: the reply
    -- ends well; a client that is `done` is told nothing of its haves, another one which of them the
    -- server has or that it has none; the pack, with its shallow commits before it, is sent to a client
    -- that is `done`, and to one of whose haves the server has any and that does not ask to wait; and
    -- the client puts it together from the side bands.
    pub perform_fetch-Negotiated :
        (args : FetchArgs) (known : List Bool) (kept : List ObjectId) (f : Option Filter)
        (out : PackOutput)
        → has_objects args.have ≡ ok known
        → Held args.have known kept
        → IsFilter args.filter f
        → build_pack args.want kept
            (record { deepen = args.deepen; filter = f; thin_pack = args.thin_pack })
          ≡ ok out
        → All IsRead out.rounds
        → (follows : Bool) × (said : List Line) × (cut : List Line) × Negotiated args kept follows
            said
          × Shallow out.shallow cut
          × Reads
              (perform_fetch H S args)
              (if follows then pack_of out.rounds else [])
              (said ++ pack_lines follows cut)
    unfolding server_haves requested_pack
    perform_fetch-Negotiated args known kept f out asked h filter built read =
        let have : server_haves H S args ≡ ok kept =
          rw (asked, server_haves, known_haves-Held args.have known kept h) refl in
        let pack : requested_pack H S args kept ≡ ok out =
          rw (read_filter-IsFilter args.filter f filter, requested_pack) built in
        replied args.done args.wait_for_done kept refl refl
          (perform_fetch-Reads H S args kept out have pack read)
      where
        flat :
            pack_section H S out
            ≡ shallow_info H S out.shallow ++ text (codes "packfile") ∷ flush ∷ []
        flat =
            append_assoc (shallow_info H S out.shallow) (text (codes "packfile") ∷ []) (flush ∷ [])

        replied :
            (done wait : Bool) (kept : List ObjectId)
            → args.done ≡ done
            → args.wait_for_done ≡ wait
            → Reads
                (perform_fetch H S args)
                (if done || not (is_empty kept) && not wait then pack_of out.rounds else [])
                (if done
                  then pack_section H S out
                  else if not (is_empty kept) && not wait
                  then ack_section H S kept
                    ++ text (codes "ready") ∷ delimiter ∷ []
                    ++ pack_section H S out
                  else ack_section H S kept ++ flush ∷ [])
            → (follows : Bool) × (said : List Line) × (cut : List Line) × Negotiated args kept
                follows said
              × Shallow out.shallow cut
              × Reads
                  (perform_fetch H S args)
                  (if follows then pack_of out.rounds else [])
                  (said ++ pack_lines follows cut)
        replied true wait kept d w (p, l, e) = (
          true,
          [],
          shallow_info H S out.shallow,
          is_done d,
          Shallow-shallow_info out.shallow,
          (p, l ∙ flat, e),
        )
        replied false wait [] d w (p, l, e) = (
          false,
          _,
          shallow_info H S out.shallow,
          none_known d,
          Shallow-shallow_info out.shallow,
          (p, l, e),
        )
        replied false true (id ∷ ids) d w (p, l, e) = (
          false,
          _,
          shallow_info H S out.shallow,
          waits d w,
          Shallow-shallow_info out.shallow,
          (p, l ∙ sym (append-nil _), e),
        )
        replied false false (id ∷ ids) d w (p, l, e) = (
          true,
          _,
          shallow_info H S out.shallow,
          ready d w,
          Shallow-shallow_info out.shallow,
          (
            p,
            l
                ∙ ap
                    (λ t.
                      (ack_section H S (id ∷ ids) ++ text (codes "ready") ∷ delimiter ∷ []) ++ t)
                    flat,
            e,
          ),
        )
