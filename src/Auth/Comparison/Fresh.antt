-- ===== src/Auth/Comparison/Fresh.antt =====
-- What `new_commits` and `dropped_commits` list, where the backend walks the commit graph as the KV
-- backend does.
use mathlib.Core.Bool.{false≢true}
use mizzle.Base.Result.{Result}
use mizzle.Base.{
  ℕ, ◌≤◌, ◌<◌, true, false, List, [], ◌∷◌, ◌++◌, Option, none, some, ok, err, ObjectId, is_null,
  ◌==◌, ◌≡◌, ◌⊎◌, ◌↔◌, inl, inr, refl, sym, ap, ◌∙◌, arith, map, take, length, Bool-cases,
  Option-cases, subst, ==_iff, codes, Bytes, if◌then◌else◌, ◌>>=◌, ==_refl,
}
use mizzle.Server.Snapshot.{PushRef}
use mizzle.Kv.Graph.{WalkError, cap_exceeded, other, out_of_fuel, Fetch}
use mizzle.Kv.Graph as Graph
use mizzle.Kv.Graph.Sets.{contains, Distinct}
use mizzle.Kv.Graph.Reach.{Readable, FromSome, FromSome-nil, Reach-universe}
use mizzle.Kv.Graph.Reachable.{reachable_excluding_exact}
use mizzle.Auth.Types.{CommitInfo, ComparisonError, comparison_cap, find_commit, find_oid, commits}
use mizzle.Auth.Comparison.{
  ReachableError, reach_cap, reach_other, History, Verifier, Subject, walk_error, backend_error,
  new_tips, read_infos, read_staged, compute_new, compute_dropped,
}

abbrev pub as_walk {ℓ} : {A : Type ℓ} → Result WalkError A → Result ReachableError A
as_walk (ok a) = ok a
as_walk (err (cap_exceeded limit)) = err (reach_cap limit)
as_walk (err other) = err (reach_other [])
as_walk (err out_of_fuel) = err (reach_other [])

abbrev pub oids_of : List CommitInfo → List ObjectId
oids_of infos = map (λ c. c.oid) infos

-- A backend with a commit graph that can be read: the walk is the KV backend's, with fuel for every
-- commit, and each commit is read under its own id.
pub record IsGraph (B : History) (fetch : Fetch) (universe : List ObjectId) (fuel : ℕ)
    : Type 0 where
  pub walks :
      (tips excluding : List ObjectId) (cap : ℕ)
      → B.reachable_excluding tips excluding cap
        ≡ as_walk (Graph.reachable_excluding fetch fuel tips excluding cap)
  pub readable : Readable fetch universe
  pub fuelled : length universe ≤ fuel
  pub reads :
      (c : ObjectId)
      → contains universe c ≡ true
      → (info : CommitInfo) × (B.read_commit_info c ≡ ok info) × (info.oid ≡ c)

-- Ids that are read one by one.
abbrev ReadAs : (ObjectId → Result ComparisonError CommitInfo) → ObjectId → Type 0
ReadAs read c = (info : CommitInfo) × (read c ≡ ok info) × (info.oid ≡ c)

find_hit :
    (oid : ObjectId) (x : CommitInfo) (cs : List CommitInfo)
    → (x.oid == oid) ≡ true
    → find_oid oid (x ∷ cs) ≡ some x
find_hit oid x cs e = rw e refl

find_miss :
    (oid : ObjectId) (x : CommitInfo) (cs : List CommitInfo)
    → (x.oid == oid) ≡ false
    → find_oid oid (x ∷ cs) ≡ find_oid oid cs
find_miss oid x cs e = rw e refl

abbrev oid_or : ObjectId → Option CommitInfo → ObjectId
oid_or d none = d
oid_or d (some c) = c.oid

find_oid-same :
    (oid : ObjectId) (cs : List CommitInfo) (c : CommitInfo)
    → find_oid oid cs ≡ some c
    → c.oid ≡ oid
find_oid-same oid [] c h = cc
find_oid-same oid (x ∷ cs) c h = elim (Bool-cases (x.oid == oid)) [
  | inl e ↦ ap (oid_or oid) (sym h ∙ find_hit oid x cs e) ∙ (==_iff x.oid oid).0 e
  | inr e ↦ find_oid-same oid cs c (sym (find_miss oid x cs e) ∙ h)
]

-- The tip that a ref is moved to, or from, if there is one.
abbrev pub tip_of : ObjectId → List ObjectId
tip_of oid = if is_null oid then [] else oid ∷ []

-- The tips that refs are moved to.
abbrev pub tips_of : List PushRef → List ObjectId
tips_of [] = []
tips_of (r ∷ refs) = tip_of r.new_oid ++ tips_of refs

new_tips_lem : (refs : List PushRef) → new_tips refs ≡ tips_of refs
unfolding new_tips
new_tips_lem [] = refl
new_tips_lem (r ∷ refs) = elim (Bool-cases (is_null r.new_oid)) [
  | inl e ↦ rw (e, new_tips, new_tips_lem refs) refl
  | inr e ↦ rw (e, new_tips, new_tips_lem refs) refl
]

module _ (B : History) (V : Verifier) (P : Subject) where
  read_infos-oids :
      (read : ObjectId → Result ComparisonError CommitInfo) (oids : List ObjectId)
      → ((c : ObjectId) → contains oids c ≡ true → ReadAs read c)
      → (infos : List CommitInfo) × (read_infos B V P read oids ≡ ok infos) × (oids_of infos ≡ oids)
  unfolding read_infos
  read_infos-oids read [] h = ([], refl, refl)
  read_infos-oids read (oid ∷ oids) h =
      let (info, e, same) = h oid (ground (arith, ==_refl oid)) in
      let (infos, es, all) = read_infos-oids read oids (λ c m. h c (ground arith)) in
      (info ∷ infos, rw (e, es, read_infos) refl, cc)

  module _ (fetch : Fetch) (universe : List ObjectId) (fuel : ℕ)
      (g : IsGraph B fetch universe fuel) where
    read_staged-ReadAs : (c : ObjectId) → contains universe c ≡ true → ReadAs (read_staged B V P) c
    unfolding read_staged find_commit
    read_staged-ReadAs c m = elim (Option-cases (find_commit P.objects c)) [
      | inr (info, e) ↦ (info, rw (e, read_staged) refl, find_oid-same c (commits P.objects) info e)
      | inl e ↦ let (info, k, same) = g.reads c m in (info, rw (e, read_staged, k) refl, same)
    ]

    -- The commits that the tips reach and the excluded ids do not, each once; or an excess over the
    -- cap, which is then below the size of the universe.
    abbrev pub Lists :
        List ObjectId → List ObjectId → Bytes → Result ComparisonError (List CommitInfo) → Type 0
    Lists tips excluding what res =
        ((infos : List CommitInfo) × (res ≡ ok infos)
          × ((c : ObjectId)
              → (contains (oids_of infos) c ≡ true)
                ↔ (FromSome fetch tips c × ¬ FromSome fetch excluding c))
          × Distinct (oids_of infos)
          × (length (oids_of infos) ≤ P.max_reachable_commits))
        ⊎ ((res ≡ err (comparison_cap what P.max_reachable_commits))
            × (P.max_reachable_commits < length universe))

    abbrev Inside : List ObjectId → Type 0
    Inside ids = (c : ObjectId) → contains ids c ≡ true → contains universe c ≡ true

    Lists-walk :
        (read : ObjectId → Result ComparisonError CommitInfo) (tips excluding : List ObjectId)
        (what : Bytes)
        → ((c : ObjectId) → contains universe c ≡ true → ReadAs read c)
        → Inside tips
        → Inside excluding
        → Lists tips excluding what (
            walk_error what (B.reachable_excluding tips excluding P.max_reachable_commits)
            >>= λ oids. read_infos B V P read oids)
    Lists-walk read tips excluding what h ht hx =
        let cap = P.max_reachable_commits in
        elim (reachable_excluding_exact fetch universe tips excluding fuel cap g.readable ht hx
          g.fuelled) [
            | inr (e, over) ↦ inr (rw (g.walks tips excluding cap, e) refl, over)
            | inl (oids, e, exact, once, below) ↦
                let inside = λ (c : ObjectId) (m : contains oids c ≡ true).
                  inside_of tips c ht ((exact c).0 m).0 in
                let (infos, run, same) = read_infos-oids read oids (λ c m. h c (inside c m)) in
                inl (
                  infos,
                  rw (g.walks tips excluding cap, e, run) refl,
                  subst
                      (λ ids.
                        (c : ObjectId)
                        → (contains ids c ≡ true)
                          ↔ (FromSome fetch tips c × ¬ FromSome fetch excluding c))
                      (sym same) exact,
                  subst Distinct (sym same) once,
                  subst (λ ids. length ids ≤ cap) (sym same) below,
                )
          ]
      where
        inside_of :
            (tips : List ObjectId) (c : ObjectId)
            → Inside tips
            → FromSome fetch tips c
            → contains universe c ≡ true
        inside_of tips c ht (t, m, p) = Reach-universe fetch universe t c g.readable (ht t m) p

    Lists-none : (excluding : List ObjectId) (what : Bytes) → Lists [] excluding what (ok [])
    Lists-none excluding what = inl (
      [],
      refl,
      λ c. (λ x. absurd (false≢true x), λ (p, _). absurd (FromSome-nil fetch c p)),
      tt,
      omega arith,
    )

    one_tip : (oid : ObjectId) → is_null oid ≡ false → tip_of oid ≡ oid ∷ []
    one_tip oid e = rw e refl

    new_exact :
        (i : ℕ) (r : PushRef)
        → Inside (tip_of r.new_oid)
        → Inside (P.existing_ref_tips ++ new_tips (take i P.refs))
        → Lists
            (tip_of r.new_oid)
            (P.existing_ref_tips ++ new_tips (take i P.refs))
            (codes "new_commits walk")
            (compute_new B V P i r)
    unfolding compute_new
    new_exact i r hn hx =
        let excluding = P.existing_ref_tips ++ new_tips (take i P.refs) in
        elim (Bool-cases (is_null r.new_oid)) [
          | inl e ↦ rw (e, compute_new) (Lists-none excluding (codes "new_commits walk"))
          | inr e ↦
              rw (e, compute_new)
                (Lists-walk (read_staged B V P) (r.new_oid ∷ []) excluding
                  (codes "new_commits walk") read_staged-ReadAs
                  (subst Inside (one_tip r.new_oid e) hn) hx)
        ]

    dropped_exact :
        (r : PushRef)
        → Inside (tip_of r.old_oid)
        → Inside (tip_of r.new_oid)
        → Lists
            (tip_of r.old_oid)
            (tip_of r.new_oid)
            (codes "dropped_commits walk")
            (compute_dropped B V P r)
    unfolding compute_dropped
    dropped_exact r ho hn =
        let read = λ (oid : ObjectId). backend_error (B.read_commit_info oid) in
        let what = codes "dropped_commits walk" in
        elim (Bool-cases (is_null r.old_oid)) [
          | inl e ↦ rw (e, compute_dropped) (Lists-none (tip_of r.new_oid) what)
          | inr e ↦
              rw (e, compute_dropped)
                (Lists-walk read (r.old_oid ∷ []) (tip_of r.new_oid) what
                  (λ c m. (let (info, k, same) = g.reads c m in (info, rw k refl, same)))
                  (subst Inside (one_tip r.old_oid e) ho) hn)
        ]

    -- For a backend with a commit graph that can be read, and a ref of the push at index `i` whose
    -- ids, like the tips of other refs and of earlier refs of the push, belong to the graph:
    -- `new_commits` lists, each once, exactly the commits that the new tip reaches and no tip of
    -- another ref or of an earlier ref of the push reaches, and so also those that the ref's own old
    -- tip reaches, which is not excluded, where no such tip reaches them; `dropped_commits` lists, each
    -- once, exactly those that the old tip reaches and the new tip does not; or a walk fails with
    -- `CapExceeded`, and then the cap is below the number of commits. A null id has no commits.
    pub compute_exact :
        (i : ℕ) (r : PushRef)
        → Inside (tip_of r.new_oid)
        → Inside (tip_of r.old_oid)
        → Inside (P.existing_ref_tips ++ tips_of (take i P.refs))
        → Lists
            (tip_of r.new_oid)
            (P.existing_ref_tips ++ tips_of (take i P.refs))
            (codes "new_commits walk")
            (compute_new B V P i r)
          × Lists
              (tip_of r.old_oid)
              (tip_of r.new_oid)
              (codes "dropped_commits walk")
              (compute_dropped B V P r)
    compute_exact i r hn ho hx =
        let same = ap (λ ts. P.existing_ref_tips ++ ts) (new_tips_lem (take i P.refs)) in
        (
          subst
              (λ ts. Lists (tip_of r.new_oid) ts (codes "new_commits walk") (compute_new B V P i r))
              same (new_exact i r hn (subst Inside (sym same) hx)),
          dropped_exact r ho hn,
        )
