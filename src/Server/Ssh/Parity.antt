-- ===== src/Server/Ssh/Parity.antt =====
-- A push over SSH has the effect on refs that it has over HTTP.
use mizzle.Base.Result.{Result}
use mizzle.Base.{
  Bytes, List, [], ◌∷◌, ok, err, Option, none, some, OidHex, ◌≡◌, ◌⊎◌, inl, inr, refl, sym, ap, ◌∙◌,
  subst, Result-cases,
}
use mizzle.Refs.{RefUpdate, preliminary_push_kind, RefMap}
use mizzle.Proto.Limits.{ProtocolLimits}
use mizzle.Proto.Receive.{read_receive_request}
use mizzle.Server.Policy.{Backend, Comparison, Access}
use mizzle.Server.Push.{
  build_push_refs, stage_pack, Outcome, rollback, after_update, finish, deny, comparison_of,
  authorize, inspect, after_ingest, ingest, push, recv_pack_post,
}
use mizzle.Server.Push.Authorized.{BothAccepted, recv_pack_post-BothAccepted}
use mizzle.Server.Routes.{Services, auto_init_repo}
use mizzle.Server.Routes.Guarded.{refs-auto_init_repo}
use mizzle.Server.Snapshot.{RefsSnapshot}
use mizzle.Server.Ssh.{
  Session, ssh_updated, ssh_authorize, ssh_inspect, ssh_after_ingest, ssh_ingest, ssh_push,
  ssh_session, ssh_after_init, serve_receive_pack,
}

module _ (H : OidHex) (limits : ProtocolLimits) (B : Backend) (A : Access B.Object)
    (S : Services B) where
  open B use {
    State, Repo, Pack, Object, open_repo, list_refs, ingest_pack, inspect_ingested, update_refs,
    refs,
  }
  open A use {Context, authorize_preliminary, authorize_push}

  -- The two transports leave the same refs.
  abbrev Same : Session H limits B A S → Outcome H limits B A → Type 0
  Same session o = refs session.state ≡ refs o.state

  Same-updated :
      (repo : Repo) (us : List RefUpdate) (c : Comparison Object)
      (r : State × Result Bytes (Unit {0}))
      → Same
          (ssh_updated H limits B A S repo us c.objects c.existing r)
          (after_update H limits B A us c r)
  Same-updated repo us c (s, ok u) = refl
  Same-updated repo us c (s, err e) = refl

  state-after_update :
      (us : List RefUpdate) (c : Comparison Object) (r : State × Result Bytes (Unit {0}))
      → (after_update H limits B A us c r).state ≡ r.0
  state-after_update us c (s, ok u) = refl
  state-after_update us c (s, err e) = refl

  -- A denied push of nothing is finished over HTTP, which changes no ref.
  refs-deny :
      (s : State) (repo : Repo) (us : List RefUpdate) (c : Comparison Object) (pack : Option Pack)
      (msg : Bytes)
      → refs (rollback H limits B A s pack) ≡ refs (deny H limits B A s repo us c pack msg).state
  unfolding deny finish
  refs-deny s repo [] c pack msg =
      let before = rollback H limits B A s pack in
      sym (
        ap refs (state-after_update [] c (update_refs before repo []))
        ∙ B.refs-no_updates before repo)
  refs-deny s repo (u ∷ us) c pack msg = refl

  Same-authorize :
      (ctx : Context) (s : State) (repo : Repo) (us : List RefUpdate) (pack : Option Pack)
      (objects : List Object)
      → Same
          (ssh_authorize H limits B A S ctx s repo us pack objects)
          (authorize H limits B A ctx s repo us pack objects)
  unfolding authorize ssh_authorize finish
  Same-authorize ctx s repo us pack objects =
      let c = comparison_of H limits B A s repo us objects in
      elim (Result-cases (authorize_push ctx c)) [
        | inl (u, e) ↦
            rw (e, authorize, ssh_authorize) (Same-updated repo us c (update_refs s repo us))
        | inr (msg, e) ↦ rw (e, authorize, ssh_authorize) (refs-deny s repo us c pack msg)
      ]

  Same-inspect :
      (ctx : Context) (s : State) (repo : Repo) (us : List RefUpdate) (pack : Option Pack)
      → Same
          (ssh_inspect H limits B A S ctx s repo us pack)
          (inspect H limits B A ctx s repo us pack)
  unfolding inspect ssh_inspect
  Same-inspect ctx s repo us none = Same-authorize ctx s repo us none []
  Same-inspect ctx s repo us (some pack) = elim (Result-cases (inspect_ingested s pack)) [
    | inl (objects, e) ↦
        rw (e, inspect, ssh_inspect) (Same-authorize ctx s repo us (some pack) objects)
    | inr (x, e) ↦ rw (e, inspect, ssh_inspect) refl
  ]

  Same-after_ingest :
      (ctx : Context) (repo : Repo) (us : List RefUpdate) (r : State × Result Bytes (Option Pack))
      → Same
          (ssh_after_ingest H limits B A S ctx repo us r)
          (after_ingest H limits B A ctx repo us r)
  Same-after_ingest ctx repo us (s, ok pack) = Same-inspect ctx s repo us pack
  Same-after_ingest ctx repo us (s, err e) = refl

  Same-ingest :
      (ctx : Context) (s : State) (repo : Repo) (us : List RefUpdate) (staged : Option Bytes)
      → Same
          (ssh_ingest H limits B A S ctx s repo us staged)
          (ingest H limits B A ctx s repo us staged)
  unfolding ingest ssh_ingest
  Same-ingest ctx s repo us none = Same-inspect ctx s repo us none
  Same-ingest ctx s repo us (some p) = Same-after_ingest ctx repo us (ingest_pack s repo p)

  Same-push :
      (s : State) (repo : Repo) (us : List RefUpdate) (body : Bytes)
      → open_repo s ≡ ok repo
      → Same (ssh_push H limits B A S s repo us body) (push H limits B A s us body)
  unfolding push ssh_push
  Same-push s repo us body k =
      elim (Result-cases (authorize_preliminary (build_push_refs us preliminary_push_kind))) [
        | inr (msg, e) ↦ rw (e, push, ssh_push) refl
        | inl (ctx, e) ↦ rw (e, k, push, ssh_push) (Same-ingest ctx s repo us (stage_pack body))
      ]

  -- Where the repository can be opened and its refs can be listed, a session over SSH and a request
  -- over HTTP with the same push leave the same refs.
  pub ssh_session-Same :
      (s : State) (repo : Repo) (snapshot : RefsSnapshot) (body : Bytes)
      → open_repo s ≡ ok repo
      → list_refs s repo ≡ ok snapshot
      → refs (ssh_session H limits B A S s repo body).state
        ≡ refs (recv_pack_post H limits B A s body).state
  unfolding ssh_session recv_pack_post
  ssh_session-Same s repo snapshot body k e =
      elim (Result-cases (read_receive_request H limits body)) [
        | inr (x, e') ↦ rw (e, e', ssh_session, recv_pack_post) refl
        | inl ((us, rest), e') ↦
            rw (e, e', ssh_session, recv_pack_post) (Same-push s repo us rest k)
      ]

  abbrev AcceptedBody : State → Bytes → RefMap → Type 0
  AcceptedBody s body after =
      (us : List RefUpdate) × (rest : Bytes) × (read_receive_request H limits body ≡ ok (us, rest))
      × BothAccepted H limits B A s us rest after

  Accepted-session :
      (s : State) (repo : Repo) (body : Bytes)
      → open_repo s ≡ ok repo
      → (refs (ssh_session H limits B A S s repo body).state ≡ refs s)
        ⊎ AcceptedBody s body (refs (ssh_session H limits B A S s repo body).state)
  unfolding ssh_session
  Accepted-session s repo body k = elim (Result-cases (list_refs s repo)) [
    | inr (x, e) ↦ inl (rw (e, ssh_session) refl)
    | inl (snapshot, e) ↦
        let same = ssh_session-Same s repo snapshot body k e in
        elim (recv_pack_post-BothAccepted H limits B A s body) [
          | inl kept ↦ inl (same ∙ kept)
          | inr accepted ↦ inr (subst (λ m. AcceptedBody s body m) (sym same) accepted)
        ]
  ]

  Accepted-after_init :
      (body : Bytes) (r : State × Result Bytes (Unit {0}))
      → (refs (ssh_after_init H limits B A S body r).state ≡ refs r.0)
        ⊎ AcceptedBody r.0 body (refs (ssh_after_init H limits B A S body r).state)
  Accepted-after_init body (s, err e) = inl refl
  Accepted-after_init body (s, ok u) = elim (Result-cases (open_repo s)) [
    | inr (x, k) ↦ inl (rw (k, ssh_after_init) refl)
    | inl (repo, k) ↦ elim (Accepted-session s repo body k) [
      | inl kept ↦ inl (rw (k, ssh_after_init) kept)
      | inr accepted ↦
          let opened : ssh_after_init H limits B A S body (s, ok u)
              ≡ ssh_session H limits B A S s repo body =
            rw (k, ssh_after_init) refl in
          inr (subst (λ t. AcceptedBody s body (refs t.state)) (sym opened) accepted)
    ]
  ]

  -- For any state and body, a session over SSH leaves the refs as they were; or its ref updates were
  -- read, the policy accepted them by themselves, the rest of the body, where there is any, was
  -- ingested and inspected in the repository that the session initialised or found, the policy
  -- accepted the updates with the objects found and the kinds that the backend computed after the
  -- ingestion, and the refs are what `update_refs` with these updates leaves from the ingested state.
  pub serve_receive_pack-BothAccepted :
      (s : State) (body : Bytes)
      → (refs (serve_receive_pack H limits B A S s body).state ≡ refs s)
        ⊎ ((us : List RefUpdate) × (rest : Bytes) × (read_receive_request H limits body
              ≡ ok (us, rest))
            × BothAccepted H limits B A
                (auto_init_repo H limits B A S s).0
                us
                rest
                (refs (serve_receive_pack H limits B A S s body).state))
  unfolding serve_receive_pack
  serve_receive_pack-BothAccepted s body =
      elim (Accepted-after_init body (auto_init_repo H limits B A S s)) [
        | inl kept ↦ inl (kept ∙ refs-auto_init_repo H limits B A S s)
        | inr accepted ↦ inr accepted
      ]
