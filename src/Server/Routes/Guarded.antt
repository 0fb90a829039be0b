-- ===== src/Server/Routes/Guarded.antt =====
-- Which requests can change a ref.
use mizzle.Base.Result.{Result}
use mizzle.Base.{
  Bytes, Bool, List, ok, err, codes, eq_bytes, OidHex, ◌≡◌, ◌⊎◌, inl, inr, refl, ap, ◌∙◌,
  Bool-cases, true, false, if◌then◌else◌, ◌&&◌, eq_of_eq_bytes,
}
use mizzle.Refs.{RefUpdate, RefMap}
use mizzle.Proto.Limits.{ProtocolLimits}
use mizzle.Proto.Lines.{Line}
use mizzle.Proto.Receive.{read_receive_request}
use mizzle.Server.Snapshot.{RefsSnapshot}
use mizzle.Server.Policy.{Backend, Access}
use mizzle.Server.Push.Authorized.{BothAccepted, recv_pack_post-BothAccepted}
use mizzle.Server.Routes.{
  Request, Reply, Services, has_pair, auto_init_repo, after_init, recv_pack_info_refs,
  upload_pack_info_refs_v1, receive_pack, upload_pack, upload_pack_v1, upload_pack_v2,
  serve_git_protocol_1, serve_git_protocol_2,
}

module _ (H : OidHex) (limits : ProtocolLimits) (B : Backend) (A : Access B.Object)
    (S : Services B) where
  open B use {State, refs}

  -- The request is a push that the policy accepted before and after the pack was read, and the refs
  -- are those of its update.
  abbrev pub AcceptedPush : State → Request → RefMap → Type 0
  AcceptedPush s req after =
      (req.protocol_path ≡ codes "git-receive-pack")
      × ((us : List RefUpdate) × (rest : Bytes) × (read_receive_request H limits req.body
            ≡ ok (us, rest))
          × BothAccepted H limits B A s us rest after)

  abbrev pub Guarded : State → Request → State × Reply → Type 0
  Guarded s req r = (refs r.0 ≡ refs s) ⊎ AcceptedPush s req (refs r.0)

  state-after_init :
      (reply : RefsSnapshot → List Line) (r : State × Result Bytes (Unit {0}))
      → (after_init H limits B A S reply r).0 ≡ r.0
  state-after_init reply (s, err e) = refl
  state-after_init reply (s, ok _) = refl

  pub refs-auto_init_repo : (s : State) → refs (auto_init_repo H limits B A S s).0 ≡ refs s
  unfolding auto_init_repo
  refs-auto_init_repo s = elim (Bool-cases S.auto_init) [
    | inl e ↦ rw e (S.refs-init_repo s)
    | inr e ↦ rw e refl
  ]

  refs-info_refs : (s : State) → refs (recv_pack_info_refs H limits B A S s).0 ≡ refs s
  unfolding recv_pack_info_refs
  refs-info_refs s =
      ap refs (state-after_init _ (auto_init_repo H limits B A S s)) ∙ refs-auto_init_repo s

  refs-info_refs_v1 : (s : State) → refs (upload_pack_info_refs_v1 H limits B A S s).0 ≡ refs s
  unfolding upload_pack_info_refs_v1
  refs-info_refs_v1 s =
      ap refs (state-after_init _ (auto_init_repo H limits B A S s)) ∙ refs-auto_init_repo s

  refs-upload_pack :
      (handler : State → Bytes → Reply) (s : State) (req : Request)
      → refs (upload_pack H limits B A S handler s req).0 ≡ refs s
  unfolding upload_pack
  refs-upload_pack handler s req =
      elim (Bool-cases
        (eq_bytes req.content_type (codes "application/x-git-upload-pack-request"))) [
          | inl e ↦ rw e refl
          | inr e ↦ rw e refl
        ]

  Guarded-receive_pack :
      (s : State) (req : Request)
      → req.protocol_path ≡ codes "git-receive-pack"
      → Guarded s req (receive_pack H limits B A S s req)
  unfolding receive_pack
  Guarded-receive_pack s req p =
      elim (Bool-cases
        (eq_bytes req.content_type (codes "application/x-git-receive-pack-request"))) [
          | inr e ↦ inl (rw e refl)
          | inl e ↦ elim (recv_pack_post-BothAccepted H limits B A s req.body) [
            | inl kept ↦ inl (rw e kept)
            | inr accepted ↦ inr (p, rw e accepted)
          ]
        ]

  Guarded-if :
      (b : Bool) (s : State) (req : Request) (r t : State × Reply)
      → (b ≡ true → Guarded s req r)
      → Guarded s req t
      → Guarded s req (if b then r else t)
  Guarded-if true s req r t h k = h refl
  Guarded-if false s req r t h k = k

  -- For any state and request of protocol 1, the refs stay as they were; or the request is a push to
  -- git-receive-pack whose updates the policy accepted by themselves, and then with the objects of
  -- the pack that was ingested and with the kinds that the backend computed after it; and the refs
  -- are what `update_refs` with these updates leaves from the ingested state.
  pub serve_git_protocol_1-Guarded :
      (s : State) (req : Request) → Guarded s req (serve_git_protocol_1 H limits B A S s req)
  unfolding serve_git_protocol_1
  serve_git_protocol_1-Guarded s req =
      Guarded-if
        (eq_bytes req.protocol_path (codes "info/refs")
          && has_pair req.query_string (codes "service=git-receive-pack"))
        s req (recv_pack_info_refs H limits B A S s) _ (λ e. inl (refs-info_refs s))
        (Guarded-if
          (eq_bytes req.protocol_path (codes "info/refs")
            && has_pair req.query_string (codes "service=git-upload-pack"))
          s req (upload_pack_info_refs_v1 H limits B A S s) _ (λ e. inl (refs-info_refs_v1 s))
          (Guarded-if (eq_bytes req.protocol_path (codes "git-receive-pack")) s req
            (receive_pack H limits B A S s req) _
            (λ e. Guarded-receive_pack s req (eq_of_eq_bytes _ _ e))
            (Guarded-if (eq_bytes req.protocol_path (codes "git-upload-pack")) s req
              (upload_pack H limits B A S (upload_pack_v1 H limits B A S) s req) _
              (λ e. inl (refs-upload_pack (upload_pack_v1 H limits B A S) s req)) (inl refl))))

  -- For any state and request of protocol 2, the refs stay as they were; or the request is a push to
  -- git-receive-pack whose updates the policy accepted by themselves, and then with the objects of
  -- the pack that was ingested and with the kinds that the backend computed after it; and the refs
  -- are what `update_refs` with these updates leaves from the ingested state.
  pub serve_git_protocol_2-Guarded :
      (s : State) (req : Request) → Guarded s req (serve_git_protocol_2 H limits B A S s req)
  unfolding serve_git_protocol_2
  serve_git_protocol_2-Guarded s req =
      Guarded-if
        (eq_bytes req.protocol_path (codes "info/refs")
          && has_pair req.query_string (codes "service=git-receive-pack"))
        s req (recv_pack_info_refs H limits B A S s) _ (λ e. inl (refs-info_refs s))
        (Guarded-if (eq_bytes req.protocol_path (codes "info/refs")) s req _ _ (λ e. inl refl)
          (Guarded-if (eq_bytes req.protocol_path (codes "git-receive-pack")) s req
            (receive_pack H limits B A S s req) _
            (λ e. Guarded-receive_pack s req (eq_of_eq_bytes _ _ e))
            (Guarded-if (eq_bytes req.protocol_path (codes "git-upload-pack")) s req
              (upload_pack H limits B A S (upload_pack_v2 H limits B A S) s req) _
              (λ e. inl (refs-upload_pack (upload_pack_v2 H limits B A S) s req)) (inl refl))))
