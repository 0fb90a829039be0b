-- ===== src/Server/Push/Authorized.antt =====
-- Which pushes change refs: what was ingested, inspected and accepted, and the refs that it leaves.
use mizzle.Base.Result.{Result}
use mizzle.Base.{
  Bytes, List, [], ◌∷◌, ok, err, Option, none, some, OidHex, ◌≡◌, ◌⊎◌, inl, inr, refl, ap, ◌∙◌,
  Result-cases,
}
use mizzle.Refs.{RefUpdate, preliminary_push_kind, RefMap}
use mizzle.Proto.Limits.{ProtocolLimits}
use mizzle.Proto.Receive.{read_receive_request}
use mizzle.Server.Policy.{Backend, Comparison, Access}
use mizzle.Server.Push.{
  build_push_refs, stage_pack, existing_ref_tips, Outcome, rollback, after_update, finish, deny,
  comparison_of, authorize, inspect, after_ingest, ingest, push, recv_pack_post,
}

module _ (H : OidHex) (limits : ProtocolLimits) (B : Backend) (A : Access B.Object) where
  open B use {
    State, Repo, Pack, Object, open_repo, compute_push_kind, ingest_pack, inspect_ingested,
    update_refs, refs,
  }
  open A use {Context, authorize_preliminary, authorize_push}

  -- The outcome shows the refs that the state did.
  abbrev Kept : State → Outcome H limits B A → Type 0
  Kept s o = refs o.state ≡ refs s

  -- The policy accepted the comparison of the updates with the state `s`, with the kinds that the
  -- backend computes there and these objects, and `after` are the refs that updating from `s` leaves.
  abbrev pub AuthorizedIn : Context → State → Repo → List RefUpdate → List Object → RefMap → Type 0
  AuthorizedIn ctx s repo us objects after =
      (c : Comparison Object) × (c.push_refs ≡ build_push_refs us (compute_push_kind s repo))
      × (c.objects ≡ objects)
      × (c.existing ≡ existing_ref_tips H limits B A s repo c.push_refs)
      × (authorize_push ctx c ≡ ok tt)
      × (after ≡ refs (update_refs s repo us).0)

  -- The pack, where there is one, was inspected, and its objects are what the policy accepted.
  abbrev pub InspectedIn : Context → State → Repo → List RefUpdate → Option Pack → RefMap → Type 0
  InspectedIn ctx s repo us none after = AuthorizedIn ctx s repo us [] after
  InspectedIn ctx s repo us (some pack) after =
      (objects : List Object) × (inspect_ingested s pack ≡ ok objects)
      × AuthorizedIn ctx s repo us objects after

  -- The same after an ingestion that succeeded.
  abbrev pub IngestedIn :
      Context → Repo → List RefUpdate → State × Result Bytes (Option Pack) → RefMap → Type 0
  IngestedIn ctx repo us r after =
      (pack : Option Pack) × (r.1 ≡ ok pack) × InspectedIn ctx r.0 repo us pack after

  -- The same from the state before the body of the push, which is empty or a pack.
  abbrev pub ReadIn : Context → State → Repo → List RefUpdate → Bytes → RefMap → Type 0
  ReadIn ctx s repo us [] after = InspectedIn ctx s repo us none after
  ReadIn ctx s repo us (b ∷ bs) after = IngestedIn ctx repo us (ingest_pack s repo (b ∷ bs)) after

  -- The policy accepted the updates by themselves, and then with what was ingested of the body; and
  -- `after` are the refs that updating from there leaves.
  abbrev pub BothAccepted : State → List RefUpdate → Bytes → RefMap → Type 0
  BothAccepted s us body after =
      (ctx : Context) × (authorize_preliminary (build_push_refs us preliminary_push_kind) ≡ ok ctx)
      × ((repo : Repo) × (open_repo s ≡ ok repo) × ReadIn ctx s repo us body after)

  state-after_update :
      (us : List RefUpdate) (c : Comparison Object) (r : State × Result Bytes (Unit {0}))
      → (after_update H limits B A us c r).state ≡ r.0
  state-after_update us c (s, ok _) = refl
  state-after_update us c (s, err e) = refl

  refs-rollback : (s : State) (pack : Option Pack) → refs (rollback H limits B A s pack) ≡ refs s
  refs-rollback s none = refl
  refs-rollback s (some pack) = B.refs-rollback_ingest s pack

  Kept-deny :
      (s : State) (repo : Repo) (us : List RefUpdate) (c : Comparison Object) (pack : Option Pack)
      (msg : Bytes)
      → Kept s (deny H limits B A s repo us c pack msg)
  unfolding deny finish
  Kept-deny s repo [] c pack msg =
      let before = rollback H limits B A s pack in
      ap refs (state-after_update [] c (update_refs before repo []))
      ∙ B.refs-no_updates before repo
      ∙ refs-rollback s pack
  Kept-deny s repo (u ∷ us) c pack msg = refs-rollback s pack

  Kept-authorize :
      (ctx : Context) (s : State) (repo : Repo) (us : List RefUpdate) (pack : Option Pack)
      (objects : List Object)
      → Kept s (authorize H limits B A ctx s repo us pack objects)
        ⊎ AuthorizedIn ctx s repo us objects
            (refs (authorize H limits B A ctx s repo us pack objects).state)
  unfolding authorize finish
  Kept-authorize ctx s repo us pack objects =
      let c = comparison_of H limits B A s repo us objects in
      elim (Result-cases (authorize_push ctx c)) [
        | inl (u, e) ↦ inr (
          c,
          refl,
          refl,
          refl,
          e,
          rw (e, authorize) (ap refs (state-after_update us c (update_refs s repo us))),
        )
        | inr (msg, e) ↦ inl (rw (e, authorize) (Kept-deny s repo us c pack msg))
      ]

  Kept-inspect :
      (ctx : Context) (s : State) (repo : Repo) (us : List RefUpdate) (pack : Option Pack)
      → Kept s (inspect H limits B A ctx s repo us pack)
        ⊎ InspectedIn ctx s repo us pack (refs (inspect H limits B A ctx s repo us pack).state)
  unfolding inspect
  Kept-inspect ctx s repo us none = Kept-authorize ctx s repo us none []
  Kept-inspect ctx s repo us (some pack) = elim (Result-cases (inspect_ingested s pack)) [
    | inl (objects, e) ↦ elim (Kept-authorize ctx s repo us (some pack) objects) [
      | inl kept ↦ inl (rw (e, inspect) kept)
      | inr accepted ↦ inr (objects, e, rw (e, inspect) accepted)
    ]
    | inr (x, e) ↦ inl (rw (e, inspect) (B.refs-rollback_ingest s pack))
  ]

  Kept-after_ingest :
      (ctx : Context) (repo : Repo) (us : List RefUpdate) (r : State × Result Bytes (Option Pack))
      → Kept r.0 (after_ingest H limits B A ctx repo us r)
        ⊎ IngestedIn ctx repo us r (refs (after_ingest H limits B A ctx repo us r).state)
  Kept-after_ingest ctx repo us (s, ok pack) = elim (Kept-inspect ctx s repo us pack) [
    | inl kept ↦ inl kept
    | inr accepted ↦ inr (pack, refl, accepted)
  ]
  Kept-after_ingest ctx repo us (s, err e) = inl refl

  Kept-ingest :
      (ctx : Context) (s : State) (repo : Repo) (us : List RefUpdate) (body : Bytes)
      → Kept s (ingest H limits B A ctx s repo us (stage_pack body))
        ⊎ ReadIn ctx s repo us body
            (refs (ingest H limits B A ctx s repo us (stage_pack body)).state)
  unfolding ingest stage_pack
  Kept-ingest ctx s repo us [] = Kept-inspect ctx s repo us none
  Kept-ingest ctx s repo us (b ∷ bs) =
      elim (Kept-after_ingest ctx repo us (ingest_pack s repo (b ∷ bs))) [
        | inl k ↦ inl (k ∙ B.refs-ingest_pack s repo (b ∷ bs))
        | inr a ↦ inr a
      ]

  Kept-push :
      (s : State) (us : List RefUpdate) (body : Bytes)
      → Kept s (push H limits B A s us body)
        ⊎ BothAccepted s us body (refs (push H limits B A s us body).state)
  unfolding push
  Kept-push s us body =
      elim (Result-cases (authorize_preliminary (build_push_refs us preliminary_push_kind))) [
        | inr (msg, e) ↦ inl (rw (e, push) refl)
        | inl (ctx, e) ↦ elim (Result-cases (open_repo s)) [
          | inr (x, k) ↦ inl (rw (e, k, push) refl)
          | inl (repo, k) ↦ elim (Kept-ingest ctx s repo us body) [
            | inl kept ↦ inl (rw (e, k, push) kept)
            | inr a ↦ inr (ctx, e, (repo, k, rw (e, k, push) a))
          ]
        ]
      ]

  -- For any state and body, a push leaves the refs as they were; or its ref updates were read, the
  -- policy accepted them by themselves, the rest of the body, where there is any, was ingested and
  -- inspected, the policy accepted the updates with the objects found and the kinds that the backend
  -- computed after the ingestion, and the refs are what `update_refs` with these updates leaves from
  -- the ingested state.
  pub recv_pack_post-BothAccepted :
      (s : State) (body : Bytes)
      → (refs (recv_pack_post H limits B A s body).state ≡ refs s)
        ⊎ ((us : List RefUpdate) × (rest : Bytes) × (read_receive_request H limits body
              ≡ ok (us, rest))
            × BothAccepted s us rest (refs (recv_pack_post H limits B A s body).state))
  unfolding recv_pack_post
  recv_pack_post-BothAccepted s body = elim (Result-cases (read_receive_request H limits body)) [
    | inr (x, e) ↦ inl (rw (e, recv_pack_post) refl)
    | inl ((us, rest), e) ↦ elim (Kept-push s us rest) [
      | inl kept ↦ inl (rw (e, recv_pack_post) kept)
      | inr a ↦ inr (us, rest, e, rw (e, recv_pack_post) a)
    ]
  ]
