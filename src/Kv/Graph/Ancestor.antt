-- ===== src/Kv/Graph/Ancestor.antt =====
-- `is_ancestor` and `compute_push_kind` decide reachability.
use mizzle.Base.Result.{Result}
use mizzle.Base.{
  ℕ, zero, suc, ◌≤◌, Bool, true, false, List, [], ◌∷◌, ok, ObjectId, ◌==◌, ◌≡◌, ◌↔◌, refl, arith,
  length, if◌then◌else◌, inl, inr, Bool-cases, List-cases, ap, sym, ◌∙◌, is_null, ==_iff, subst,
}
use mathlib.Core.Bool.{false≢true}
use mizzle.Refs.{create, delete, fast_forward, force_push}
use mizzle.Kv.Graph.{
  Walk, WalkError, Fetch, found, more, offer, offer_all, scan_parents, after_scan, ancestor_loop,
  is_ancestor, compute_push_kind,
}
use mizzle.Kv.Graph.Sets.{contains, unseen-insert, unseen-le}
use mizzle.Kv.Graph.Reach.{Reach, here, step, Readable, Reach-universe}
use mizzle.Kv.Graph.Round.{Inv, Inv-round, closed_at_end, visited-offer_all, work, work-offer_all}

scan_parents-eq :
    (a : ObjectId) (w : Walk) (ps : List ObjectId)
    → scan_parents a w ps ≡ (if contains ps a then found else more (offer_all [] w ps))
unfolding scan_parents offer_all
scan_parents-eq a w [] = refl
scan_parents-eq a w (p ∷ ps) = ground (arith, scan_parents-eq a (offer [] w p) ps)

scan_after :
    (a : ObjectId) (w : Walk) (ps : List ObjectId) (k : Walk → Result WalkError Bool)
    → after_scan (scan_parents a w ps) k
      ≡ (if contains ps a then ok true else k (offer_all [] w ps))
scan_after a w ps k = rw (scan_parents-eq a w ps) (ground arith)

-- One round of the loop.
ancestor_loop-round :
    (fetch : Fetch) (fuel : ℕ) (a : ObjectId) (w : Walk) (u : ObjectId) (rest ps : List ObjectId)
    → w.frontier ≡ u ∷ rest
    → fetch u ≡ ok ps
    → ancestor_loop fetch (suc fuel) a w ≡ (
        if contains ps a
        then ok true
        else ancestor_loop fetch fuel a
            (offer_all [] (record { visited = w.visited; frontier = rest }) ps))
unfolding ancestor_loop
ancestor_loop-round fetch fuel a w u rest ps e f =
    rw (e, f)
      (scan_after a (record { visited = w.visited; frontier = rest }) ps
        (ancestor_loop fetch fuel a))

module _ (fetch : Fetch) (a d : ObjectId) where
  record Searching (w : Walk) : Type 0 where
    inv : Inv fetch [] (Reach fetch d) w
    start : contains w.visited d ≡ true
    unmet : contains w.visited a ≡ false

  Searching-round :
      (w : Walk) (u : ObjectId) (rest ps : List ObjectId)
      → w.frontier ≡ u ∷ rest
      → fetch u ≡ ok ps
      → contains ps a ≡ false
      → Searching w
      → Searching (offer_all [] (record w { frontier = rest }) ps)
  Searching-round w u rest ps e f n h =
      let visits = visited-offer_all [] (record w { frontier = rest }) ps in
      record {
        inv =
            Inv-round fetch [] (Reach fetch d) (λ x v p edge _. step p edge) w u rest ps e f h.inv;
        start = ground (arith, visits d, h.start);
        unmet = ground (arith, visits a, h.unmet);
      }

  -- With an empty queue everything reachable is visited, so the ancestor is not reachable.
  unreachable : (w : Walk) → Searching w → w.frontier ≡ [] → Reach fetch d a → ⊥
  unreachable w h e p = false≢true (sym h.unmet ∙ reached a p)
    where
      reached : (c : ObjectId) → Reach fetch d c → contains w.visited c ≡ true
      reached c here = h.start
      reached c (step {v = x} p edge) =
          closed_at_end fetch [] (Reach fetch d) w x c h.inv e (reached x p) edge refl

  -- The answer `b` is right.
  abbrev Answers : Bool → Type 0
  Answers b = (b ≡ true) ↔ Reach fetch d a

  none_reached : (w : Walk) → Searching w → w.frontier ≡ [] → Answers false
  none_reached w h e = ((λ x. absurd (false≢true x)), λ p. absurd (unreachable w h e p))

  loop_decides :
      (universe : List ObjectId)
      → Readable fetch universe
      → contains universe d ≡ true
      → (fuel : ℕ) (w : Walk) → Searching w
      → work [] universe w ≤ fuel
      → (b : Bool) × (ancestor_loop fetch fuel a w ≡ ok b) × Answers b
  unfolding ancestor_loop
  loop_decides universe r hd zero w h m = elim (List-cases w.frontier) [
    | inl e ↦ (false, rw e refl, none_reached w h e)
    | inr (u, rest, e) ↦ absurd (omega (arith, ap length e))
  ]
  loop_decides universe r hd (suc fuel) w h m = elim (List-cases w.frontier) [
    | inl e ↦ (false, rw e refl, none_reached w h e)
    | inr (u, rest, e) ↦
        let from_d = h.inv.sound u (h.inv.queued u (ground (arith, ap (λ l. contains l u) e))) in
        let (ps, f, inside) = r.parents_of u (Reach-universe fetch universe d u r hd from_d) in
        let next = offer_all [] (record w { frontier = rest }) ps in
        elim (Bool-cases (contains ps a)) [
          | inl hit ↦ (
            true,
            ancestor_loop-round fetch fuel a w u rest ps e f ∙ rw hit refl,
            ((λ _. step from_d (ps, f, hit)), λ _. refl),
          )
          | inr miss ↦
              let less = work-offer_all [] universe (record w { frontier = rest }) ps inside in
              let (b, runs, answers) =
                loop_decides universe r hd fuel next (Searching-round w u rest ps e f miss h)
                  (omega (arith, less, ap length e)) in
              (b, ancestor_loop-round fetch fuel a w u rest ps e f ∙ rw miss runs, answers)
        ]
  ]

Searching-start :
    (fetch : Fetch) (a d : ObjectId)
    → (a == d) ≡ false
    → Searching fetch a d (record { visited = d ∷ []; frontier = d ∷ [] })
Searching-start fetch a d other = record {
  inv = record {
    queued = λ c q. q;
    sound = λ c m. subst (Reach fetch d) ((==_iff d c).0 (ground arith)) here;
    closed = λ u v m edge _. inl m;
  };
  start = ground arith;
  unmet = ground arith;
}

-- For a universe that can be read and holds the descendant, and fuel for each of its commits:
-- `is_ancestor` returns, and the answer is true exactly when the ancestor can be reached from the
-- descendant by parent edges.
pub is_ancestor_decides :
    (fetch : Fetch) (universe : List ObjectId) (a d : ObjectId) (fuel : ℕ)
    → Readable fetch universe
    → contains universe d ≡ true
    → length universe ≤ fuel
    → (b : Bool) × (is_ancestor fetch fuel a d ≡ ok b) × ((b ≡ true) ↔ Reach fetch d a)
unfolding is_ancestor
is_ancestor_decides fetch universe a d fuel r hd m = elim (Bool-cases (a == d)) [
  | inl same ↦ (
    true,
    rw same refl,
    ((λ _. subst (Reach fetch d) (sym ((==_iff a d).0 same)) here), λ _. refl),
  )
  | inr other ↦
      let first : Walk = record { visited = d ∷ []; frontier = d ∷ [] } in
      let searching = Searching-start fetch a d other in
      let (b, runs, answers) =
        loop_decides fetch a d universe r hd fuel first searching
          (omega (arith, unseen-insert d [] universe hd refl, unseen-le [] universe)) in
      (b, rw other runs, answers)
]

-- For a universe that can be read and holds the new id, and fuel for each of its commits: a push is a
-- creation when the old id is null, a deletion when only the new one is, and otherwise a fast-forward
-- exactly when the old id can be reached from the new one by parent edges, and a force-push when it
-- cannot.
pub compute_push_kind_exact :
    (fetch : Fetch) (universe : List ObjectId) (old new : ObjectId) (fuel : ℕ)
    → Readable fetch universe
    → contains universe new ≡ true
    → length universe ≤ fuel
    → (is_null old ≡ true → compute_push_kind fetch fuel old new ≡ create)
      × (is_null old ≡ false → is_null new ≡ true → compute_push_kind fetch fuel old new ≡ delete)
      × (is_null old ≡ false
          → is_null new ≡ false
          → (Reach fetch new old → compute_push_kind fetch fuel old new ≡ fast_forward)
            × (¬ Reach fetch new old → compute_push_kind fetch fuel old new ≡ force_push))
unfolding compute_push_kind
compute_push_kind_exact fetch universe old new fuel r h m =
    let (b, runs, answers) = is_ancestor_decides fetch universe old new fuel r h m in
    ((λ e. rw e refl), (λ e f. rw (e, f) refl), λ e f. classify b answers e f runs)
  where
    classify :
        (b : Bool)
        → ((b ≡ true) ↔ Reach fetch new old)
        → is_null old ≡ false
        → is_null new ≡ false
        → is_ancestor fetch fuel old new ≡ ok b
        → (Reach fetch new old → compute_push_kind fetch fuel old new ≡ fast_forward)
          × (¬ Reach fetch new old → compute_push_kind fetch fuel old new ≡ force_push)
    classify true answers e f runs = ((λ p. rw (e, f, runs) refl), λ n. absurd (n (answers.0 refl)))
    classify false answers e f runs =
        ((λ p. absurd (false≢true (answers.1 p))), λ n. rw (e, f, runs) refl)
