-- ===== src/Server/Fetch/Sideband.antt =====
-- What a client reads from the reply to a fetch.
use mizzle.Base.{
  ℕ, Bytes, Bool, true, false, ◌||◌, List, [], ◌∷◌, ◌++◌, map, ok, err, codes, OidHex, ObjectId,
  ◌≡◌, refl, ap, ◌∙◌, All, Bool-cases, inl, inr, append_assoc, append-nil, subst, if◌then◌else◌,
}
use mizzle.Proto.Lines.{Line, delimiter, flush}
use mizzle.Proto.Fetch.{FetchArgs}
use mizzle.Server.Push.{text}
use mizzle.Server.Fetch.{
  Packet, plain, data_band, progress_band, Round, PackOutput, PackSource, Sent, progress,
  stream_pack_sideband, is_ready, say, server_haves, requested_pack, shallow_line, shallow_info,
  send_pack, acks, negotiate, perform_fetch, perform_fetch_v1,
}

-- The pack, as a client puts it together: the data bands in order.
unfoldable pub received : List Packet → Bytes
received [] = []
received (data_band d ∷ ps) = d ++ received ps
received (plain l ∷ ps) = received ps
received (progress_band m ∷ ps) = received ps

-- The pack that the rounds of reading give.
abbrev pub pack_of : List Round → Bytes
pack_of [] = []
pack_of (r ∷ rounds) = elim r.chunk [ ok d ↦ d ++ pack_of rounds | err e ↦ [] ]

-- A read that succeeds with at least one byte.
abbrev pub IsRead : Round → Type 0
IsRead r = (b : ℕ) × (bs : Bytes) × (r.chunk ≡ ok (b ∷ bs))

received-append : (ps qs : List Packet) → received (ps ++ qs) ≡ received ps ++ received qs
unfolding received
received-append [] qs = refl
received-append (data_band d ∷ ps) qs =
    rw (received-append ps qs, append_assoc d (received ps) (received qs)) refl
received-append (plain l ∷ ps) qs = received-append ps qs
received-append (progress_band m ∷ ps) qs = received-append ps qs

received-progress :
    (quiet : Bool) (msgs : List Bytes) (ps : List Packet)
    → received (progress quiet msgs ++ ps) ≡ received ps
unfolding received
received-progress true msgs ps = refl
received-progress false [] ps = refl
received-progress false (m ∷ msgs) ps = received-progress false msgs ps

received-stream :
    (quiet : Bool) (rounds : List Round) (last : List Bytes)
    → All IsRead rounds
    → (received (stream_pack_sideband quiet rounds last).0 ≡ pack_of rounds)
      × ((stream_pack_sideband quiet rounds last).1 ≡ ok tt)
unfolding stream_pack_sideband received
received-stream quiet [] last h = (received-progress quiet last (plain flush ∷ []), refl)
received-stream quiet (r ∷ rounds) last ((b, bs, e), h) =
    let (same, done) = received-stream quiet rounds last h in
    (
      received-progress quiet r.pending _ ∙ rw (e, received) (ap (λ t. b ∷ (bs ++ t)) same),
      rw e done,
    )

-- The plain lines of the reply, but the side bands.
unfoldable pub lines_of : List Packet → List Line
lines_of [] = []
lines_of (data_band d ∷ ps) = lines_of ps
lines_of (plain l ∷ ps) = l ∷ lines_of ps
lines_of (progress_band m ∷ ps) = lines_of ps

lines_of-append : (ps qs : List Packet) → lines_of (ps ++ qs) ≡ lines_of ps ++ lines_of qs
unfolding lines_of
lines_of-append [] qs = refl
lines_of-append (data_band d ∷ ps) qs = lines_of-append ps qs
lines_of-append (plain l ∷ ps) qs = ap (λ t. l ∷ t) (lines_of-append ps qs)
lines_of-append (progress_band m ∷ ps) qs = lines_of-append ps qs

lines_of-progress :
    (quiet : Bool) (msgs : List Bytes) (ps : List Packet)
    → lines_of (progress quiet msgs ++ ps) ≡ lines_of ps
unfolding lines_of
lines_of-progress true msgs ps = refl
lines_of-progress false [] ps = refl
lines_of-progress false (m ∷ msgs) ps = lines_of-progress false msgs ps

lines_of-stream :
    (quiet : Bool) (rounds : List Round) (last : List Bytes)
    → All IsRead rounds
    → lines_of (stream_pack_sideband quiet rounds last).0 ≡ flush ∷ []
unfolding stream_pack_sideband lines_of
lines_of-stream quiet [] last h = lines_of-progress quiet last (plain flush ∷ [])
lines_of-stream quiet (r ∷ rounds) last ((b, bs, e), h) =
    lines_of-progress quiet r.pending _ ∙ rw (e, lines_of) (lines_of-stream quiet rounds last h)

-- What a client has read of a reply: the pack, the lines, and that it ended well.
abbrev pub Reads : Sent → Bytes → List Line → Type 0
Reads out pack lines = (received out.0 ≡ pack) × (lines_of out.0 ≡ lines) × (out.1 ≡ ok tt)

Reads-stream :
    (quiet : Bool) (out : PackOutput)
    → All IsRead out.rounds
    → Reads (stream_pack_sideband quiet out.rounds out.last) (pack_of out.rounds) (flush ∷ [])
Reads-stream quiet out h =
    let (same, done) = received-stream quiet out.rounds out.last h in
    (same, lines_of-stream quiet out.rounds out.last h, done)

received-say : (ls : List Line) (ps : List Packet) → received (map plain ls ++ ps) ≡ received ps
unfolding received
received-say [] ps = refl
received-say (l ∷ ls) ps = received-say ls ps

lines_of-say :
    (ls : List Line) (ps : List Packet) → lines_of (map plain ls ++ ps) ≡ ls ++ lines_of ps
unfolding lines_of
lines_of-say [] ps = refl
lines_of-say (l ∷ ls) ps = ap (λ t. l ∷ t) (lines_of-say ls ps)

Reads-say :
    (ls : List Line) (rest : Sent) (pack : Bytes) (lines : List Line)
    → Reads rest pack lines
    → Reads (say ls rest) pack (ls ++ lines)
Reads-say ls rest pack lines (p, l, r) =
    (received-say ls rest.0 ∙ p, lines_of-say ls rest.0 ∙ ap (λ t. ls ++ t) l, r)

Reads-nothing : Reads ([], ok tt) [] []
unfolding received lines_of
Reads-nothing = (refl, refl, refl)

module _ (H : OidHex) (S : PackSource) where
  -- The sections of a reply that has a pack.
  abbrev pub pack_section : PackOutput → List Line
  pack_section out = shallow_info H S out.shallow ++ text (codes "packfile") ∷ [] ++ flush ∷ []

  abbrev pub ack_section : List ObjectId → List Line
  ack_section have = text (codes "acknowledgments") ∷ acks H S have

  Reads-send_pack :
      (args : FetchArgs) (have : List ObjectId) (out : PackOutput)
      → requested_pack H S args have ≡ ok out
      → All IsRead out.rounds
      → Reads (send_pack H S args have) (pack_of out.rounds) (pack_section out)
  unfolding send_pack
  Reads-send_pack args have out e h =
      rw (e, send_pack)
        (Reads-say (shallow_info H S out.shallow ++ text (codes "packfile") ∷ [])
          (stream_pack_sideband args.no_progress out.rounds out.last) (pack_of out.rounds)
          (flush ∷ []) (Reads-stream args.no_progress out h))

  -- For a fetch where the server has the haves `have` and builds the pack `out`, which it can read, a
  -- client that is `done`, or that the server is ready for, reads the pack; the lines tell it the
  -- haves that the server has unless it is `done`, and then, where there is a pack, its shallow
  -- commits; and the reply ends well. The server is ready when it has a have, and is not asked to
  -- wait.
  pub perform_fetch-Reads :
      (args : FetchArgs) (have : List ObjectId) (out : PackOutput)
      → server_haves H S args ≡ ok have
      → requested_pack H S args have ≡ ok out
      → All IsRead out.rounds
      → Reads
          (perform_fetch H S args)
          (if args.done || is_ready H S args have then pack_of out.rounds else [])
          (if args.done
            then pack_section out
            else if is_ready H S args have
            then ack_section have ++ text (codes "ready") ∷ delimiter ∷ [] ++ pack_section out
            else ack_section have ++ flush ∷ [])
  unfolding perform_fetch negotiate
  perform_fetch-Reads args have out he e h = elim (Bool-cases args.done) [
    | inl d ↦ rw (he, d, perform_fetch) (Reads-send_pack args have out e h)
    | inr d ↦ elim (Bool-cases (is_ready H S args have)) [
      | inl r ↦
          rw (he, d, r, perform_fetch, negotiate)
            (Reads-say (ack_section have ++ text (codes "ready") ∷ delimiter ∷ [])
              (send_pack H S args have) (pack_of out.rounds) (pack_section out)
              (Reads-send_pack args have out e h))
      | inr r ↦
          rw (he, d, r, perform_fetch, negotiate)
            (subst (Reads (say (ack_section have ++ flush ∷ []) ([], ok tt)) [])
              (append-nil (ack_section have ++ flush ∷ []))
              (Reads-say (ack_section have ++ flush ∷ []) ([], ok tt) [] [] Reads-nothing))
    ]
  ]

  -- For a protocol 1 fetch where the server has the haves `have` and builds the pack `out`, which it
  -- can read, a client reads the shallow commits, a NAK and the pack, and the reply ends well.
  pub perform_fetch_v1-Reads :
      (args : FetchArgs) (have : List ObjectId) (out : PackOutput)
      → server_haves H S args ≡ ok have
      → requested_pack H S args have ≡ ok out
      → All IsRead out.rounds
      → Reads
          (perform_fetch_v1 H S args)
          (pack_of out.rounds)
          (map (shallow_line H S) out.shallow ++ text (codes "NAK") ∷ [] ++ flush ∷ [])
  unfolding perform_fetch_v1
  perform_fetch_v1-Reads args have out he e h =
      rw (he, e, perform_fetch_v1)
        (Reads-say (map (shallow_line H S) out.shallow ++ text (codes "NAK") ∷ [])
          (stream_pack_sideband args.no_progress out.rounds out.last) (pack_of out.rounds)
          (flush ∷ []) (Reads-stream args.no_progress out h))
