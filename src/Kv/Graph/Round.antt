-- ===== src/Kv/Graph/Round.antt =====
-- One round of a walk: what offering the parents of a commit does to the two collections.
use mizzle.Base.Result.{Result}
use mizzle.Base.{
  ℕ, ◌+◌, ◌≤◌, true, false, not, ◌&&◌, ◌||◌, List, [], ◌∷◌, ◌++◌, ok, ObjectId, ◌==◌, ◌≡◌, refl,
  arith, length, length-append, ◌⊎◌, inl, inr, Bool-cases, ==_iff, append_assoc, subst, ap, sym,
  ◌∙◌,
}
use mathlib.Core.Bool.{false≢true}
use mizzle.Kv.Graph.{Walk, WalkError, offer, offer_all, Fetch}
use mizzle.Kv.Graph.Sets.{
  contains, Distinct, Distinct-concat, contains-append, unseen, unseen-insert,
}
use mizzle.Kv.Graph.Reach.{Edge}

module _ (ex : List ObjectId) where
  pub visited-offer :
      (w : Walk) (p c : ObjectId)
      → contains (offer ex w p).visited c
        ≡ (contains w.visited c || ((p == c) && not (contains ex c)))
  unfolding offer
  visited-offer w p c = ground arith

  pub frontier-offer :
      (w : Walk) (p c : ObjectId)
      → contains (offer ex w p).frontier c ≡ (
          contains w.frontier c
          || (contains (offer ex w p).visited c && not (contains w.visited c)))
  unfolding offer
  frontier-offer w p c = ground (arith, contains-append w.frontier (p ∷ []) c)

  -- Visited are the old ones and those parents that are not excluded.
  pub visited-offer_all :
      (w : Walk) (ps : List ObjectId) (c : ObjectId)
      → contains (offer_all ex w ps).visited c
        ≡ (contains w.visited c || (contains ps c && not (contains ex c)))
  unfolding offer_all
  visited-offer_all w [] c = ground arith
  visited-offer_all w (p ∷ ps) c =
      ground (arith, visited-offer_all (offer ex w p) ps c, visited-offer w p c)

  -- Queued are the old ones and those that were not visited before.
  pub frontier-offer_all :
      (w : Walk) (ps : List ObjectId) (c : ObjectId)
      → contains (offer_all ex w ps).frontier c ≡ (
          contains w.frontier c
          || (contains (offer_all ex w ps).visited c && not (contains w.visited c)))
  unfolding offer_all
  frontier-offer_all w [] c = ground arith
  frontier-offer_all w (p ∷ ps) c = ground (
    arith,
    frontier-offer_all (offer ex w p) ps c,
    frontier-offer w p c,
    visited-offer_all (offer ex w p) ps c,
    visited-offer w p c,
  )

  -- Each commit of the universe is queued once, so this never grows.
  abbrev pub work : List ObjectId → Walk → ℕ
  work universe w = unseen w.visited universe + length w.frontier

  pub work-offer :
      (universe : List ObjectId) (w : Walk) (p : ObjectId)
      → contains universe p ≡ true
      → work universe (offer ex w p) ≤ work universe w
  unfolding offer
  work-offer universe w p h =
      ground (arith, unseen-insert p w.visited universe, length-append w.frontier (p ∷ []))

  pub work-offer_all :
      (universe : List ObjectId) (w : Walk) (ps : List ObjectId)
      → ((c : ObjectId) → contains ps c ≡ true → contains universe c ≡ true)
      → work universe (offer_all ex w ps) ≤ work universe w
  unfolding offer_all
  work-offer_all universe w [] h = omega arith
  work-offer_all universe w (p ∷ ps) h = omega (
    arith,
    work-offer universe w p (h p (ground arith)),
    work-offer_all universe (offer ex w p) ps (λ c m. h c (ground arith)),
  )

  -- The visited list never outgrows the universe.
  abbrev pub size : List ObjectId → Walk → ℕ
  size universe w = unseen w.visited universe + length w.visited

  pub size-offer :
      (universe : List ObjectId) (w : Walk) (p : ObjectId)
      → contains universe p ≡ true
      → size universe (offer ex w p) ≤ size universe w
  unfolding offer
  size-offer universe w p h = ground (arith, unseen-insert p w.visited universe)

  pub size-offer_all :
      (universe : List ObjectId) (w : Walk) (ps : List ObjectId)
      → ((c : ObjectId) → contains ps c ≡ true → contains universe c ≡ true)
      → size universe (offer_all ex w ps) ≤ size universe w
  unfolding offer_all
  size-offer_all universe w [] h = omega arith
  size-offer_all universe w (p ∷ ps) h = omega (
    arith,
    size-offer universe w p (h p (ground arith)),
    size-offer_all universe (offer ex w p) ps (λ c m. h c (ground arith)),
  )

  grow-offer :
      (w : Walk) (p : ObjectId)
      → length (offer ex w p).frontier + length w.visited
        ≡ length w.frontier + length (offer ex w p).visited
  unfolding offer
  grow-offer w p = ground (arith, length-append w.frontier (p ∷ []))

  -- Both collections grow by the same commits.
  pub grow-offer_all :
      (w : Walk) (ps : List ObjectId)
      → length (offer_all ex w ps).frontier + length w.visited
        ≡ length w.frontier + length (offer_all ex w ps).visited
  unfolding offer_all
  grow-offer_all w [] = refl
  grow-offer_all w (p ∷ ps) = omega (arith, grow-offer w p, grow-offer_all (offer ex w p) ps)

  -- `pre` holds the commits that have left the queue.
  pub record IsSplit (pre : List ObjectId) (w : Walk) : Type 0 where
    pub listed : (c : ObjectId) → contains w.visited c ≡ (contains pre c || contains w.frontier c)
    pub once : Distinct (pre ++ w.frontier)

  IsSplit-offer :
      (pre : List ObjectId) (w : Walk) (p : ObjectId) → IsSplit pre w → IsSplit pre (offer ex w p)
  unfolding offer
  IsSplit-offer pre w p h = record {
    listed = λ c. ground (arith, h.listed c, contains-append w.frontier (p ∷ []) c);
    once = elim (Bool-cases (not (contains ex p) && not (contains w.visited p))) [
      | inr stays ↦ rw stays h.once
      | inl goes ↦
          rw (goes, ← append_assoc)
            (Distinct-concat (pre ++ w.frontier) p h.once
              (ground (arith, h.listed p, contains-append pre w.frontier p)))
    ];
  }

  pub IsSplit-offer_all :
      (pre : List ObjectId) (w : Walk) (ps : List ObjectId)
      → IsSplit pre w
      → IsSplit pre (offer_all ex w ps)
  unfolding offer_all
  IsSplit-offer_all pre w [] h = h
  IsSplit-offer_all pre w (p ∷ ps) h =
      IsSplit-offer_all pre (offer ex w p) ps (IsSplit-offer pre w p h)

  -- The front of the queue leaves it.
  pub IsSplit-pop :
      (pre : List ObjectId) (w : Walk) (u : ObjectId) (rest : List ObjectId)
      → w.frontier ≡ u ∷ rest
      → IsSplit pre w
      → IsSplit (pre ++ u ∷ []) (record { visited = w.visited; frontier = rest })
  IsSplit-pop pre w u rest e h = record {
    listed =
        λ c. ground (arith, h.listed c, contains-append pre (u ∷ []) c, ap (λ l. contains l c) e);
    once = rw append_assoc (subst (λ l. Distinct (pre ++ l)) e h.once);
  }

ok_inj :
    (xs ys : List ObjectId) → ◌≡◌ {A = Result WalkError (List ObjectId)} (ok xs) (ok ys) → xs ≡ ys
ok_inj xs ys e = cc

module _ {ℓ} (fetch : Fetch) (ex : List ObjectId) (P : ObjectId → Type ℓ) where
  -- The visited commits satisfy `P`, and the parents of all but the queued ones are visited.
  pub record Inv (w : Walk) : Type ℓ where
    pub queued : (c : ObjectId) → contains w.frontier c ≡ true → contains w.visited c ≡ true
    pub sound : (c : ObjectId) → contains w.visited c ≡ true → P c
    pub closed :
        (u v : ObjectId)
        → contains w.visited u ≡ true
        → Edge fetch u v
        → contains ex v ≡ false
        → (contains w.frontier u ≡ true) ⊎ (contains w.visited v ≡ true)

  pub Inv-round :
      ((u v : ObjectId) → P u → Edge fetch u v → contains ex v ≡ false → P v)
      → (w : Walk) (u : ObjectId) (rest ps : List ObjectId) → w.frontier ≡ u ∷ rest
      → fetch u ≡ ok ps
      → Inv w
      → Inv (offer_all ex (record w { frontier = rest }) ps)
  Inv-round keep w u rest ps e f h =
      let w' = record w { frontier = rest } in
      let visits = visited-offer_all ex w' ps in
      let queues = frontier-offer_all ex w' ps in
      let popped = λ (c : ObjectId). ap (λ l. contains l c) e in
      let from_u = h.sound u (h.queued u (ground (arith, popped u))) in
      record {
        queued = λ c q. ground (arith, visits c, queues c, h.queued c, popped c);
        sound = λ c v. elim (Bool-cases (contains w.visited c)) [
          | inl old ↦ h.sound c old
          | inr new ↦ keep u c from_u (ps, f, ground (arith, visits c)) (ground (arith, visits c))
        ];
        closed = λ x v m (qs, g, mem) keeps. elim (Bool-cases (contains w.visited x)) [
          | inr new ↦ inl (ground (arith, queues x))
          | inl old ↦ elim (Bool-cases (u == x)) [
            | inl same ↦ inr (ground (arith, same_parents u x ps qs same f g, visits v))
            | inr other ↦ elim (h.closed x v old (qs, g, mem) keeps) [
              | inl q ↦ inl (ground (arith, queues x, popped x))
              | inr seen ↦ inr (ground (arith, visits v))
            ]
          ]
        ];
      }
    where
      same_parents :
          (a b : ObjectId) (xs ys : List ObjectId)
          → (a == b) ≡ true
          → fetch a ≡ ok xs
          → fetch b ≡ ok ys
          → xs ≡ ys
      same_parents a b xs ys same fa fb =
          ok_inj xs ys (sym fa ∙ ap fetch ((==_iff a b).0 same) ∙ fb)

  -- With an empty queue the parents of every visited commit are visited.
  pub closed_at_end :
      (w : Walk) (u v : ObjectId)
      → Inv w
      → w.frontier ≡ []
      → contains w.visited u ≡ true
      → Edge fetch u v
      → contains ex v ≡ false
      → contains w.visited v ≡ true
  closed_at_end w u v h e m edge keeps = elim (h.closed u v m edge keeps) [
    | inl q ↦ absurd (none_queued q)
    | inr seen ↦ seen
  ]
    where
      none_queued : contains w.frontier u ≡ true → ⊥
      none_queued q = false≢true (sym (ap (λ l. contains l u) e) ∙ q)
