-- ===== src/Kv/Graph/Exclude.antt =====
-- The first pass of `reachable_excluding`: the ancestors of the excluded tips.
use mizzle.Base.Result.{Result}
use mizzle.Base.{
  ℕ, zero, suc, ◌+◌, ◌≤◌, ◌<◌, true, List, [], ◌∷◌, ok, err, ObjectId, ◌≡◌, ◌↔◌, refl, arith,
  length, if◌then◌else◌, ◌⊎◌, inl, inr, Bool-cases, List-cases, ap, sym, ◌∙◌, ltb, ltb→lt, subst,
  ==_iff,
}
use mathlib.Core.Logic.{⊎_elim}
use mizzle.Kv.Graph.{
  Walk, WalkError, Fetch, cap_exceeded, offer, offer_all, collect_loop, collect_ancestors,
  exclude_all,
}
use mizzle.Kv.Graph.Sets.{contains, unseen, unseen-le}
use mizzle.Kv.Graph.Reach.{
  Edge, Reach, here, step, Readable, Reach-universe, FromSome, FromSome-nil, FromSome-cons,
}
use mizzle.Kv.Graph.Round.{
  Inv, Inv-round, closed_at_end, visited-offer, frontier-offer, visited-offer_all, work, work-offer,
  work-offer_all, size, size-offer, size-offer_all,
}

collect_loop-end :
    (fetch : Fetch) (fuel cap : ℕ) (w : Walk)
    → w.frontier ≡ []
    → collect_loop fetch fuel cap w ≡ ok w.visited
unfolding collect_loop
collect_loop-end fetch zero cap w e = rw e refl
collect_loop-end fetch (suc fuel) cap w e = rw e refl

collect_loop-round :
    (fetch : Fetch) (fuel cap : ℕ) (w : Walk) (u : ObjectId) (rest ps : List ObjectId)
    → w.frontier ≡ u ∷ rest
    → fetch u ≡ ok ps
    → collect_loop fetch (suc fuel) cap w ≡ (
        if ltb cap (length w.visited)
        then err (cap_exceeded cap)
        else collect_loop fetch fuel cap
            (offer_all [] (record { visited = w.visited; frontier = rest }) ps))
unfolding collect_loop
collect_loop-round fetch fuel cap w u rest ps e f = rw (e, f) refl

module _ (fetch : Fetch) (universe : List ObjectId) (r : Readable fetch universe) where
  -- A set of ids that holds the parents of its commits, and fits in the universe.
  pub record IsClosed (set : List ObjectId) : Type 0 where
    pub parents : (u v : ObjectId) → contains set u ≡ true → Edge fetch u v → contains set v ≡ true
    pub inside : (c : ObjectId) → contains set c ≡ true → contains universe c ≡ true
    pub fits : unseen set universe + length set ≤ length universe

  module _ (set : List ObjectId) (oid : ObjectId) where
    -- `c` was in the set, or is an ancestor of `oid`.
    abbrev pub Wanted : ObjectId → Type 0
    Wanted c = (contains set c ≡ true) ⊎ Reach fetch oid c

    record Collecting (w : Walk) : Type 0 where
      inv : Inv fetch [] Wanted w
      base : (c : ObjectId) → contains set c ≡ true → contains w.visited c ≡ true
      start : contains w.visited oid ≡ true
      fits : size [] universe w ≤ length universe

    -- What the walk leaves: the set and the ancestors of `oid`, or an excess over the cap.
    abbrev pub Collected : ℕ → Result WalkError (List ObjectId) → Type 0
    Collected cap out =
        ((set' : List ObjectId) × (out ≡ ok set')
          × IsClosed set'
          × ((c : ObjectId) → (contains set' c ≡ true) ↔ Wanted c))
        ⊎ (out ≡ err (cap_exceeded cap)) × (cap < length universe)

    Wanted-step : IsClosed set → (u v : ObjectId) → Wanted u → Edge fetch u v → Wanted v
    Wanted-step h u v (inl m) e = inl (h.parents u v m e)
    Wanted-step h u v (inr p) e = inr (step p e)

    Wanted-inside :
        IsClosed set
        → contains universe oid ≡ true
        → (c : ObjectId) → Wanted c
        → contains universe c ≡ true
    Wanted-inside h ho c (inl m) = h.inside c m
    Wanted-inside h ho c (inr p) = Reach-universe fetch universe oid c r ho p

    Collecting-round :
        IsClosed set
        → (w : Walk) (u : ObjectId) (rest ps : List ObjectId) → w.frontier ≡ u ∷ rest
        → fetch u ≡ ok ps
        → ((p : ObjectId) → contains ps p ≡ true → contains universe p ≡ true)
        → Collecting w
        → Collecting (offer_all [] (record { visited = w.visited; frontier = rest }) ps)
    Collecting-round hs w u rest ps e f inside h =
        let w' : Walk = record { visited = w.visited; frontier = rest } in
        let visits = visited-offer_all [] w' ps in
        record {
          inv =
              Inv-round fetch [] Wanted (λ x v p edge _. Wanted-step hs x v p edge) w u rest ps e f
                h.inv;
          base = λ c m. ground (arith, visits c, h.base c m);
          start = ground (arith, visits oid, h.start);
          fits = omega (arith, size-offer_all [] universe w' ps inside, h.fits);
        }

    Collecting-end :
        IsClosed set
        → contains universe oid ≡ true
        → (cap : ℕ) (w : Walk) → Collecting w
        → w.frontier ≡ []
        → Collected cap (ok w.visited)
    Collecting-end hs ho cap w h e =
        let shut = λ (u v : ObjectId) (m : contains w.visited u ≡ true) (edge : Edge fetch u v).
          closed_at_end fetch [] Wanted w u v h.inv e m edge refl in
        inl (
          w.visited,
          refl,
          record {
            parents = shut;
            inside = λ c m. Wanted-inside hs ho c (h.inv.sound c m);
            fits = h.fits;
          },
          λ c. (h.inv.sound c, reached shut c),
        )
      where
        reached :
            ((u v : ObjectId)
              → contains w.visited u ≡ true
              → Edge fetch u v
              → contains w.visited v ≡ true)
            → (c : ObjectId) → Wanted c
            → contains w.visited c ≡ true
        reached shut c (inl m) = h.base c m
        reached shut c (inr here) = h.start
        reached shut c (inr (step {v = x} p edge)) = shut x c (reached shut x (inr p)) edge

    collect_loop-Collected :
        IsClosed set
        → contains universe oid ≡ true
        → (fuel cap : ℕ) (w : Walk) → Collecting w
        → work [] universe w ≤ fuel
        → Collected cap (collect_loop fetch fuel cap w)
    collect_loop-Collected hs ho zero cap w h m = elim (List-cases w.frontier) [
      | inl e ↦
          subst (Collected cap) (sym (collect_loop-end fetch zero cap w e))
            (Collecting-end hs ho cap w h e)
      | inr (u, rest, e) ↦ absurd (omega (arith, ap length e))
    ]
    collect_loop-Collected hs ho (suc fuel) cap w h m = elim (List-cases w.frontier) [
      | inl e ↦
          subst (Collected cap) (sym (collect_loop-end fetch (suc fuel) cap w e))
            (Collecting-end hs ho cap w h e)
      | inr (u, rest, e) ↦
          let w' : Walk = record { visited = w.visited; frontier = rest } in
          let in_u =
            Wanted-inside hs ho u
              (h.inv.sound u (h.inv.queued u (ground (arith, ap (λ l. contains l u) e)))) in
          let (ps, f, inside) = r.parents_of u in_u in
          elim (Bool-cases (ltb cap (length w.visited))) [
            | inl over ↦ inr (
              collect_loop-round fetch fuel cap w u rest ps e f ∙ rw over refl,
              omega (arith, ltb→lt cap (length w.visited) over, h.fits),
            )
            | inr under ↦
                subst (Collected cap)
                  (sym (collect_loop-round fetch fuel cap w u rest ps e f ∙ rw under refl))
                  (collect_loop-Collected hs ho fuel cap (offer_all [] w' ps)
                    (Collecting-round hs w u rest ps e f inside h)
                    (omega (arith, work-offer_all [] universe w' ps inside, ap length e)))
          ]
    ]

    -- The walk as `collect_ancestors` starts it.
    abbrev begun : Walk
    begun = offer [] (record { visited = set; frontier = [] }) oid

    Collecting-start : IsClosed set → contains universe oid ≡ true → Collecting begun
    Collecting-start hs ho =
        let w : Walk = record { visited = set; frontier = [] } in
        let visits = visited-offer [] w oid in
        record {
          inv = record {
            queued = λ c q. ground (arith, frontier-offer [] w oid c);
            sound = λ c m. elim (Bool-cases (contains set c)) [
              | inl old ↦ inl old
              | inr new ↦
                  inr (subst (Reach fetch oid) ((==_iff oid c).0 (ground (arith, visits c))) here)
            ];
            closed = λ u v m edge _. elim (Bool-cases (contains set u)) [
              | inl old ↦ inr (ground (arith, visits v, hs.parents u v old edge))
              | inr new ↦ inl (ground (arith, frontier-offer [] w oid u))
            ];
          };
          base = λ c m. ground (arith, visits c);
          start = ground (arith, visits oid);
          fits = omega (arith, size-offer [] universe w oid ho, hs.fits);
        }

    -- From a closed set and an id of the universe.
    pub collect_ancestors-Collected :
        IsClosed set
        → contains universe oid ≡ true
        → (fuel cap : ℕ) → length universe ≤ fuel
        → Collected cap (collect_ancestors fetch fuel set oid cap)
    unfolding collect_ancestors
    collect_ancestors-Collected hs ho fuel cap m =
        collect_loop-Collected hs ho fuel cap begun (Collecting-start hs ho) (
          omega (
            arith,
            work-offer [] universe (record { visited = set; frontier = [] }) oid ho,
            unseen-le set universe,
          ))

  -- The excluded set after the tips `tips`.
  abbrev pub Excluded :
      ℕ → List ObjectId → List ObjectId → Result WalkError (List ObjectId) → Type 0
  Excluded cap set tips out =
      ((set' : List ObjectId) × (out ≡ ok set')
        × IsClosed set'
        × ((c : ObjectId)
            → (contains set' c ≡ true) ↔ ((contains set c ≡ true) ⊎ FromSome fetch tips c)))
      ⊎ (out ≡ err (cap_exceeded cap)) × (cap < length universe)

  -- Two steps of the accumulation are one.
  union :
      (set set' set'' : List ObjectId) (t : ObjectId) (tips : List ObjectId) (c : ObjectId)
      → (contains set' c ≡ true) ↔ Wanted set t c
      → (contains set'' c ≡ true) ↔ ((contains set' c ≡ true) ⊎ FromSome fetch tips c)
      → (contains set'' c ≡ true) ↔ ((contains set c ≡ true) ⊎ FromSome fetch (t ∷ tips) c)
  union set set' set'' t tips c first rest =
      let (split, join) = FromSome-cons fetch t tips c in
      (
        λ x.
            ⊎_elim (λ y. ⊎_elim inl (λ p. inr (join (inl p))) (first.0 y)) (λ q. inr (join (inr q)))
              (rest.0 x),
        ⊎_elim (λ y. rest.1 (inl (first.1 (inl y))))
            (λ q. ⊎_elim (λ p. rest.1 (inl (first.1 (inr p)))) (λ p. rest.1 (inr p)) (split q)),
      )

  pub exclude_all-Excluded :
      (set tips : List ObjectId) (fuel cap : ℕ)
      → IsClosed set
      → ((c : ObjectId) → contains tips c ≡ true → contains universe c ≡ true)
      → length universe ≤ fuel
      → Excluded cap set tips (exclude_all fetch fuel set tips cap)
  unfolding exclude_all
  exclude_all-Excluded set [] fuel cap hs ht m =
      inl (set, refl, hs, λ c. (inl, ⊎_elim (λ p. p) (λ p. absurd (FromSome-nil fetch c p))))
  exclude_all-Excluded set (t ∷ tips) fuel cap hs ht m =
      elim (collect_ancestors-Collected set t hs (ht t (ground arith)) fuel cap m) [
        | inr (e, over) ↦ inr (rw e refl, over)
        | inl (set', e, hs', exact) ↦
            elim (exclude_all-Excluded set' tips fuel cap hs' (λ c x. ht c (ground arith)) m) [
              | inr (e', over) ↦ inr (rw e e', over)
              | inl (set'', e', hs'', exact') ↦
                  inl
                    (set'', rw e e', hs'', λ c. union set set' set'' t tips c (exact c) (exact' c))
            ]
      ]
