-- ===== src/Server/Fetch.antt =====
-- The replies to a fetch (mizzle/src/fetch.rs): what is written to the client, and how it ends. The
-- storage backend is a parameter, and writes succeed.
pub mod Sideband
pub mod Negotiated
use mizzle.Base.Result.{Result}
use mizzle.Base.{
  ℕ, ◌-◌, Bytes, Bool, true, false, not, ◌&&◌, List, [], ◌∷◌, ◌++◌, map, ok, err, ◌>>=◌, Option,
  none, some, codes, OidHex, ObjectId, if◌then◌else◌,
}
use mizzle.Proto.Lines.{Line, delimiter, flush}
use mizzle.Proto.Fetch.{FetchArgs, Filter, parse_filter}
use mizzle.Server.Push.{text}

-- A packet of the reply: a line, or one of the two side bands.
pub data Packet : Type 0 where
  plain : Line → Packet
  data_band : Bytes → Packet
  progress_band : Bytes → Packet

pub data FetchError : Type 0 where
  backend_error : FetchError
  unsupported_filter : Bytes → FetchError
  read_error : FetchError

-- One round of reading a pack: the progress messages that are pending, and what `read` gives.
pub record Round : Type 0 where
  pub pending : List Bytes
  pub chunk : Result FetchError Bytes

-- `PackOutput`. After the last round a read gives no bytes, and `last` is pending.
pub record PackOutput : Type 0 where
  pub rounds : List Round
  pub last : List Bytes
  pub shallow : List ObjectId

pub record PackOptions : Type 0 where
  pub deepen : Option ℕ
  pub filter : Option Filter
  pub thin_pack : Bool

-- What `perform_fetch` asks of a backend.
pub record PackSource : Type 0 where
  pub has_objects : List ObjectId → Result FetchError (List Bool)
  pub build_pack : List ObjectId → List ObjectId → PackOptions → Result FetchError PackOutput

-- What was written, and the result.
abbrev pub Sent : Type 0
Sent = List Packet × Result FetchError (Unit {0})

abbrev pub send : List Packet → Sent → Sent
send ps rest = (ps ++ rest.0, rest.1)

-- Lines, and then the rest.
abbrev pub say : List Line → Sent → Sent
say ls rest = send (map plain ls) rest

-- The messages of progress, unless they are turned off.
abbrev pub progress : Bool → List Bytes → List Packet
progress true msgs = []
progress false msgs = map progress_band msgs

-- `stream_pack_sideband`, and the flush after it.
unfoldable pub stream_pack_sideband : Bool → List Round → List Bytes → Sent
stream_pack_sideband quiet [] last = send (progress quiet last) (plain flush ∷ [], ok tt)
stream_pack_sideband quiet (r ∷ rounds) last =
    let rest = stream_pack_sideband quiet rounds last in
    send (progress quiet r.pending) (elim r.chunk [
      | err e ↦ ([], err e)
      | ok [] ↦ send (progress quiet last) (plain flush ∷ [], ok tt)
      | ok (b ∷ bs) ↦ send (data_band (b ∷ bs) ∷ []) rest
    ])

-- The haves that the server has: `zip`, then `filter_map`.
unfoldable pub known_haves : List ObjectId → List Bool → List ObjectId
known_haves [] known = []
known_haves (id ∷ ids) [] = []
known_haves (id ∷ ids) (exists ∷ known) =
    let rest = known_haves ids known in if exists then id ∷ rest else rest

abbrev pub is_empty {ℓ} : {A : Type ℓ} → List A → Bool
is_empty [] = true
is_empty (x ∷ xs) = false

-- `filter.as_deref().map(Filter::parse).transpose()`
unfoldable pub read_filter : Option Bytes → Result FetchError (Option Filter)
read_filter none = ok none
read_filter (some spec) = elim (parse_filter spec) [
  | none ↦ err (unsupported_filter spec)
  | some f ↦ ok (some f)
]

abbrev pub sent_error : FetchError → Sent
sent_error e = ([], err e)

module _ (H : OidHex) (S : PackSource) where
  open H use {to_hex}
  open S use {has_objects, build_pack}

  -- `has_objects`, and the haves that are left.
  unfoldable pub server_haves : FetchArgs → Result FetchError (List ObjectId)
  unfolding known_haves
  server_haves args = has_objects args.have >>= λ known. ok (known_haves args.have known)

  -- The filter, and the pack that the backend builds.
  unfoldable pub requested_pack : FetchArgs → List ObjectId → Result FetchError PackOutput
  unfolding read_filter
  requested_pack args have = read_filter args.filter >>= λ f.
      build_pack args.want have
        (record { deepen = args.deepen; filter = f; thin_pack = args.thin_pack })

  abbrev pub shallow_line : ObjectId → Line
  shallow_line id = text (codes "shallow " ++ to_hex id)

  abbrev pub shallow_info : List ObjectId → List Line
  shallow_info [] = []
  shallow_info (id ∷ ids) =
      text (codes "shallow-info") ∷ (map shallow_line (id ∷ ids) ++ delimiter ∷ [])

  -- The sections after the negotiation.
  unfoldable pub send_pack : FetchArgs → List ObjectId → Sent
  unfolding requested_pack stream_pack_sideband
  send_pack args have = elim (requested_pack args have) [
    | err e ↦ sent_error e
    | ok out ↦
        say (shallow_info out.shallow ++ text (codes "packfile") ∷ [])
          (stream_pack_sideband args.no_progress out.rounds out.last)
  ]

  abbrev pub ack_line : ObjectId → Line
  ack_line id = text (codes "ACK " ++ to_hex id)

  abbrev pub acks : List ObjectId → List Line
  acks [] = text (codes "NAK") ∷ []
  acks (id ∷ ids) = map ack_line (id ∷ ids)

  -- The server is ready when it has a have of the client, which did not ask to wait.
  abbrev pub is_ready : FetchArgs → List ObjectId → Bool
  is_ready args have = not (is_empty have) && not args.wait_for_done

  unfoldable pub negotiate : FetchArgs → List ObjectId → Sent
  unfolding send_pack
  negotiate args have =
      let sections = text (codes "acknowledgments") ∷ acks have in
      if is_ready args have
      then say (sections ++ text (codes "ready") ∷ delimiter ∷ []) (send_pack args have)
      else say (sections ++ flush ∷ []) ([], ok tt)

  unfoldable pub perform_fetch : FetchArgs → Sent
  unfolding server_haves negotiate
  perform_fetch args = elim (server_haves args) [
    | err e ↦ sent_error e
    | ok have ↦ if args.done then send_pack args have else negotiate args have
  ]

  unfoldable pub perform_fetch_v1 : FetchArgs → Sent
  unfolding server_haves requested_pack stream_pack_sideband
  perform_fetch_v1 args = elim (server_haves args) [
    | err e ↦ sent_error e
    | ok have ↦ elim (requested_pack args have) [
      | err e ↦ sent_error e
      | ok out ↦
          say (map shallow_line out.shallow ++ text (codes "NAK") ∷ [])
            (stream_pack_sideband args.no_progress out.rounds out.last)
    ]
  ]
