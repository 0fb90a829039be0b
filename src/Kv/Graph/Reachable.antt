-- ===== src/Kv/Graph/Reachable.antt =====
-- `reachable_excluding` returns the commits that the tips reach and the excluded tips do not.
use mathlib.Core.Bool.{false≢true}
use mathlib.Core.Logic.{⊎_elim}
use mizzle.Base.Result.{Result}
use mizzle.Base.{
  ℕ, zero, suc, ◌+◌, ◌≤◌, ◌<◌, true, false, List, [], ◌∷◌, ◌++◌, ok, err, ObjectId, ◌≡◌, ◌↔◌, refl,
  arith, length, length-append, ◌⊎◌, inl, inr, Bool-cases, List-cases, ap, sym, ◌∙◌, leb, leb→le,
  not_leb, subst, append-nil,
}
use mizzle.Kv.Graph.{
  Walk, WalkError, Fetch, cap_exceeded, offer_all, reachable_loop, reachable_excluding,
}
use mizzle.Kv.Graph.Sets.{contains, Distinct, unseen-le}
use mizzle.Kv.Graph.Reach.{
  Edge, Reach, here, step, Readable, Reach-universe, FromSome, FromSome-nil,
}
use mizzle.Kv.Graph.Round.{
  Inv, Inv-round, closed_at_end, visited-offer_all, frontier-offer_all, work, work-offer_all, size,
  size-offer_all, grow-offer_all, IsSplit, IsSplit-pop, IsSplit-offer_all,
}
use mizzle.Kv.Graph.Exclude.{IsClosed, exclude_all-Excluded}
use mizzle.Kv.Graph.Emit.{reachable_loop-end, reachable_loop-round}

module _ (fetch : Fetch) (universe : List ObjectId) (r : Readable fetch universe)
    (ex tips : List ObjectId) where
  -- Some tip leads to `c`, and `c` is not excluded.
  abbrev pub Fresh : ObjectId → Type 0
  Fresh c = FromSome fetch tips c × (contains ex c ≡ false)

  record Emitting (cap : ℕ) (w : Walk) (result : List ObjectId) : Type 0 where
    inv : Inv fetch ex Fresh w
    tips_in :
        (c : ObjectId)
        → contains tips c ≡ true
        → contains ex c ≡ false
        → contains w.visited c ≡ true
    split : IsSplit ex result w
    lengths : length result + length w.frontier ≡ length w.visited
    fits : size ex universe w ≤ length universe
    below : length result ≤ cap

  -- What the walk returns: each fresh commit once, within the cap, or an excess over the cap.
  abbrev pub Emitted : ℕ → Result WalkError (List ObjectId) → Type 0
  Emitted cap res =
      ((out : List ObjectId) × (res ≡ ok out)
        × ((c : ObjectId) → (contains out c ≡ true) ↔ Fresh c)
        × Distinct out
        × (length out ≤ cap))
      ⊎ (res ≡ err (cap_exceeded cap)) × (cap < length universe)

  Fresh-step : (u v : ObjectId) → Fresh u → Edge fetch u v → contains ex v ≡ false → Fresh v
  Fresh-step u v ((t, m, p), _) edge out = ((t, m, step p edge), out)

  module _ (he : IsClosed fetch universe r ex)
      (ht : (c : ObjectId) → contains tips c ≡ true → contains universe c ≡ true) where
    Fresh-inside : (c : ObjectId) → Fresh c → contains universe c ≡ true
    Fresh-inside c ((t, m, p), out) = Reach-universe fetch universe t c r (ht t m) p

    Emitting-end :
        (cap : ℕ) (w : Walk) (result : List ObjectId)
        → Emitting cap w result
        → w.frontier ≡ []
        → Emitted cap (ok result)
    Emitting-end cap w result h e =
        let all = λ (c : ObjectId). h.split.listed c ∙ rw e (ground arith) in
        inl (
          result,
          refl,
          λ c. (
            (λ m. h.inv.sound c (all c ∙ m)),
            λ ((t, m, p), out). sym (all c) ∙ reached t m c p out,
          ),
          subst Distinct (ap (λ l. result ++ l) e ∙ append-nil result) h.split.once,
          h.below,
        )
      where
        reached :
            (t : ObjectId)
            → contains tips t ≡ true
            → (c : ObjectId) → Reach fetch t c
            → contains ex c ≡ false
            → contains w.visited c ≡ true
        reached t m c here out = h.tips_in t m out
        reached t m c (step {v = x} p edge) out = elim (Bool-cases (contains ex x)) [
          | inl shut ↦ absurd (false≢true (sym out ∙ he.parents x c shut edge))
          | inr open_x ↦
              closed_at_end fetch ex Fresh w x c h.inv e (reached t m x p open_x) edge out
        ]

    Emitting-round :
        (cap : ℕ) (w : Walk) (result : List ObjectId) (u : ObjectId) (rest ps : List ObjectId)
        → w.frontier ≡ u ∷ rest
        → fetch u ≡ ok ps
        → ((p : ObjectId) → contains ps p ≡ true → contains universe p ≡ true)
        → leb cap (length result) ≡ false
        → Emitting cap w result
        → Emitting cap
            (offer_all ex (record { visited = w.visited; frontier = rest }) ps)
            (result ++ u ∷ [])
    Emitting-round cap w result u rest ps e f inside under h =
        let w' : Walk = record { visited = w.visited; frontier = rest } in
        let visits = visited-offer_all ex w' ps in
        let popped = IsSplit-pop ex result w u rest e h.split in
        record {
          inv = Inv-round fetch ex Fresh Fresh-step w u rest ps e f h.inv;
          tips_in = λ c m out. ground (arith, visits c, h.tips_in c m out);
          split = IsSplit-offer_all ex (result ++ u ∷ []) w' ps popped;
          lengths = omega (
            arith,
            grow-offer_all ex w' ps,
            h.lengths,
            ap length e,
            length-append result (u ∷ []),
          );
          fits = omega (arith, size-offer_all ex universe w' ps inside, h.fits);
          below = omega (arith, length-append result (u ∷ []), not_leb cap (length result) under);
        }

    reachable_loop-Emitted :
        (fuel cap : ℕ) (w : Walk) (result : List ObjectId)
        → Emitting cap w result
        → work ex universe w ≤ fuel
        → Emitted cap (reachable_loop fetch fuel ex cap w result)
    reachable_loop-Emitted zero cap w result h m = elim (List-cases w.frontier) [
      | inl e ↦
          subst (Emitted cap) (sym (reachable_loop-end fetch zero ex cap w result e))
            (Emitting-end cap w result h e)
      | inr (u, rest, e) ↦ absurd (omega (arith, ap length e))
    ]
    reachable_loop-Emitted (suc fuel) cap w result h m = elim (List-cases w.frontier) [
      | inl e ↦
          subst (Emitted cap) (sym (reachable_loop-end fetch (suc fuel) ex cap w result e))
            (Emitting-end cap w result h e)
      | inr (u, rest, e) ↦
          let w' : Walk = record { visited = w.visited; frontier = rest } in
          let front = h.inv.queued u (ground (arith, ap (λ l. contains l u) e)) in
          let (ps, f, inside) = r.parents_of u (Fresh-inside u (h.inv.sound u front)) in
          let runs = reachable_loop-round fetch fuel ex cap w result u rest ps e f in
          elim (Bool-cases (leb cap (length result))) [
            | inl over ↦ inr (
              runs ∙ rw over refl,
              omega (arith, leb→le cap (length result) over, h.lengths, h.fits, ap length e),
            )
            | inr under ↦ subst (Emitted cap) (sym (runs ∙ rw under refl)) (
                reachable_loop-Emitted fuel cap (offer_all ex w' ps) (result ++ u ∷ [])
                  (Emitting-round cap w result u rest ps e f inside under h)
                  (omega (arith, work-offer_all ex universe w' ps inside, ap length e)))
          ]
    ]

    -- The walk as `reachable_excluding` starts it.
    abbrev nothing : Walk
    nothing = record { visited = []; frontier = [] }

    Emitting-start : (cap : ℕ) → Emitting cap (offer_all ex nothing tips) []
    Emitting-start cap =
        let visits = visited-offer_all ex nothing tips in
        record {
          inv = record {
            queued = λ c q. ground (arith, frontier-offer_all ex nothing tips c);
            sound = λ c m. ((c, ground (arith, visits c), here), ground (arith, visits c));
            closed = λ u v m edge _. inl (ground (arith, frontier-offer_all ex nothing tips u));
          };
          tips_in = λ c m out. ground (arith, visits c);
          split = IsSplit-offer_all ex [] nothing tips (record { listed = λ c. refl; once = tt });
          lengths = omega (arith, grow-offer_all ex nothing tips);
          fits = omega (arith, size-offer_all ex universe nothing tips ht, unseen-le [] universe);
          below = omega arith;
        }

    pub walk-Emitted :
        (fuel cap : ℕ)
        → length universe ≤ fuel
        → Emitted cap (reachable_loop fetch fuel ex cap (offer_all ex nothing tips) [])
    walk-Emitted fuel cap m =
        reachable_loop-Emitted fuel cap (offer_all ex nothing tips) [] (Emitting-start cap)
          (omega (arith, work-offer_all ex universe nothing tips ht, unseen-le [] universe))

-- For tips and excluded tips in a universe that can be read, and fuel for each of its commits:
-- `reachable_excluding` returns, at most `cap` commits and none twice, exactly those that some tip
-- reaches and no excluded tip reaches; or it fails with `CapExceeded`, and then the cap is below the
-- size of the universe.
pub reachable_excluding_exact :
    (fetch : Fetch) (universe tips excluding : List ObjectId) (fuel cap : ℕ)
    → Readable fetch universe
    → ((c : ObjectId) → contains tips c ≡ true → contains universe c ≡ true)
    → ((c : ObjectId) → contains excluding c ≡ true → contains universe c ≡ true)
    → length universe ≤ fuel
    → ((out : List ObjectId) × (reachable_excluding fetch fuel tips excluding cap ≡ ok out)
        × ((c : ObjectId)
            → (contains out c ≡ true) ↔ (FromSome fetch tips c × ¬ FromSome fetch excluding c))
        × Distinct out
        × (length out ≤ cap))
      ⊎ (reachable_excluding fetch fuel tips excluding cap ≡ err (cap_exceeded cap))
        × (cap < length universe)
unfolding reachable_excluding
reachable_excluding_exact fetch universe [] excluding fuel cap r ht hx m = inl (
  [],
  refl,
  λ c. ((λ x. absurd (false≢true x)), λ (p, _). absurd (FromSome-nil fetch c p)),
  tt,
  omega arith,
)
reachable_excluding_exact fetch universe (tip ∷ tips) excluding fuel cap r ht hx m =
    let none_yet : IsClosed fetch universe r [] = record {
      parents = λ u v x edge. absurd (false≢true x);
      inside = λ c x. absurd (false≢true x);
      fits = omega (arith, unseen-le [] universe);
    } in
    elim (exclude_all-Excluded fetch universe r [] excluding fuel cap none_yet hx m) [
      | inr (e, over) ↦ inr (rw e refl, over)
      | inl (ex, e, he, exact) ↦
          elim (walk-Emitted fetch universe r ex (tip ∷ tips) he ht fuel cap m) [
            | inr (e', over) ↦ inr (rw e e', over)
            | inl (out, e', fresh, once, below) ↦
                inl (
                  out,
                  rw e e',
                  λ c. outside (tip ∷ tips) out ex c (fresh c) (exact c),
                  once,
                  below,
                )
          ]
    ]
  where
    outside :
        (ts out ex : List ObjectId) (c : ObjectId)
        → (contains out c ≡ true) ↔ (FromSome fetch ts c × (contains ex c ≡ false))
        → (contains ex c ≡ true) ↔ ((contains [] c ≡ true) ⊎ FromSome fetch excluding c)
        → (contains out c ≡ true) ↔ (FromSome fetch ts c × ¬ FromSome fetch excluding c)
    outside ts out ex c fresh exact = (
      λ x. ((fresh.0 x).0, λ p. false≢true (sym (fresh.0 x).1 ∙ exact.1 (inr p))),
      λ (p, n). elim (Bool-cases (contains ex c)) [
        | inl shut ↦ absurd (⊎_elim false≢true n (exact.0 shut))
        | inr free ↦ fresh.1 (p, free)
      ],
    )
