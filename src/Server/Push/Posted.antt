-- ===== src/Server/Push/Posted.antt =====
-- When `post_receive` runs, and what the client has been told by then.
use mizzle.Base.Result.{Result}
use mizzle.Base.{
  Bytes, List, [], ◌∷◌, ok, err, Option, none, some, OidHex, ◌≡◌, ◌⊎◌, inl, inr, refl, ap,
  Result-cases,
}
use mizzle.Refs.{RefUpdate, preliminary_push_kind}
use mizzle.Proto.Limits.{ProtocolLimits}
use mizzle.Proto.Receive.{read_receive_request}
use mizzle.Server.Policy.{Backend, Comparison, Access}
use mizzle.Server.Push.{
  build_push_refs, success, stage_pack, report, Outcome, rollback, after_update, finish, deny,
  comparison_of, authorize, inspect, after_ingest, ingest, push, recv_pack_post,
}

module _ (H : OidHex) (limits : ProtocolLimits) (B : Backend) (A : Access B.Object) where
  open B use {State, Repo, Pack, Object, open_repo, ingest_pack, inspect_ingested, update_refs}
  open A use {Context, authorize_preliminary, authorize_push}

  -- The backend accepted the updates, the client was told so, and nothing changed after that.
  abbrev pub Updated : List RefUpdate → Outcome H limits B A → Type 0
  Updated us o =
      (s : State) × (repo : Repo) × ((update_refs s repo us).1 ≡ ok tt)
      × ((update_refs s repo us).0 ≡ o.state)
      × (o.response ≡ report (success us))

  abbrev Told : List RefUpdate → Outcome H limits B A → Type 0
  Told us o = (o.post_receive ≡ none) ⊎ Updated us o

  Told-after_update :
      (s : State) (repo : Repo) (us : List RefUpdate) (c : Comparison Object)
      (r : State × Result Bytes (Unit {0}))
      → update_refs s repo us ≡ r
      → Told us (after_update H limits B A us c r)
  Told-after_update s repo us c (s', ok u) e = inr (s, repo, ap (λ r. r.1) e, ap (λ r. r.0) e, refl)
  Told-after_update s repo us c (s', err x) e = inl refl

  Told-finish :
      (s : State) (repo : Repo) (us : List RefUpdate) (c : Comparison Object)
      → Told us (finish H limits B A s repo us c)
  unfolding finish
  Told-finish s repo us c = Told-after_update s repo us c (update_refs s repo us) refl

  Told-deny :
      (s : State) (repo : Repo) (us : List RefUpdate) (c : Comparison Object) (pack : Option Pack)
      (msg : Bytes)
      → Told us (deny H limits B A s repo us c pack msg)
  unfolding deny
  Told-deny s repo [] c pack msg = Told-finish (rollback H limits B A s pack) repo [] c
  Told-deny s repo (u ∷ us) c pack msg = inl refl

  Told-authorize :
      (ctx : Context) (s : State) (repo : Repo) (us : List RefUpdate) (pack : Option Pack)
      (objects : List Object)
      → Told us (authorize H limits B A ctx s repo us pack objects)
  unfolding authorize
  Told-authorize ctx s repo us pack objects =
      let c = comparison_of H limits B A s repo us objects in
      elim (Result-cases (authorize_push ctx c)) [
        | inl (u, e) ↦ rw (e, authorize) (Told-finish s repo us c)
        | inr (msg, e) ↦ rw (e, authorize) (Told-deny s repo us c pack msg)
      ]

  Told-inspect :
      (ctx : Context) (s : State) (repo : Repo) (us : List RefUpdate) (pack : Option Pack)
      → Told us (inspect H limits B A ctx s repo us pack)
  unfolding inspect
  Told-inspect ctx s repo us none = Told-authorize ctx s repo us none []
  Told-inspect ctx s repo us (some pack) = elim (Result-cases (inspect_ingested s pack)) [
    | inl (objects, e) ↦ rw (e, inspect) (Told-authorize ctx s repo us (some pack) objects)
    | inr (x, e) ↦ rw (e, inspect) (inl refl)
  ]

  Told-after_ingest :
      (ctx : Context) (repo : Repo) (us : List RefUpdate) (r : State × Result Bytes (Option Pack))
      → Told us (after_ingest H limits B A ctx repo us r)
  Told-after_ingest ctx repo us (s, ok pack) = Told-inspect ctx s repo us pack
  Told-after_ingest ctx repo us (s, err e) = inl refl

  Told-ingest :
      (ctx : Context) (s : State) (repo : Repo) (us : List RefUpdate) (staged : Option Bytes)
      → Told us (ingest H limits B A ctx s repo us staged)
  unfolding ingest
  Told-ingest ctx s repo us none = Told-inspect ctx s repo us none
  Told-ingest ctx s repo us (some p) = Told-after_ingest ctx repo us (ingest_pack s repo p)

  Told-push :
      (s : State) (us : List RefUpdate) (body : Bytes) → Told us (push H limits B A s us body)
  unfolding push
  Told-push s us body =
      elim (Result-cases (authorize_preliminary (build_push_refs us preliminary_push_kind))) [
        | inr (msg, e) ↦ rw (e, push) (inl refl)
        | inl (ctx, e) ↦ elim (Result-cases (open_repo s)) [
          | inr (x, k) ↦ rw (e, k, push) (inl refl)
          | inl (repo, k) ↦ rw (e, k, push) (Told-ingest ctx s repo us (stage_pack body))
        ]
      ]

  -- For any state and body, `post_receive` is not called; or the ref updates were read, the backend
  -- applied them with the final state as its result, and the client is told that each was accepted.
  pub recv_pack_post-Updated :
      (s : State) (body : Bytes)
      → ((recv_pack_post H limits B A s body).post_receive ≡ none)
        ⊎ ((us : List RefUpdate) × (rest : Bytes) × (read_receive_request H limits body
              ≡ ok (us, rest))
            × Updated us (recv_pack_post H limits B A s body))
  unfolding recv_pack_post
  recv_pack_post-Updated s body = elim (Result-cases (read_receive_request H limits body)) [
    | inr (x, e) ↦ inl (rw (e, recv_pack_post) refl)
    | inl ((us, rest), e) ↦ elim (Told-push s us rest) [
      | inl quiet ↦ inl (rw (e, recv_pack_post) quiet)
      | inr told ↦ inr (us, rest, e, rw (e, recv_pack_post) told)
    ]
  ]
