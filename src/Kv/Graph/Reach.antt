-- ===== src/Kv/Graph/Reach.antt =====
-- What the walks compute: reachability over parent edges.
use mizzle.Base.Result.{Result}
use mizzle.Base.{
  true, List, [], ◌∷◌, ◌↔◌, ◌⊎◌, inl, inr, Bool-cases, ==_iff, ◌==◌, arith, ok, ObjectId, ◌≡◌, sym,
  ◌∙◌, subst,
}
use mathlib.Core.Logic.{⊎_elim}
use mathlib.Core.Bool.{false≢true}
use mizzle.Kv.Graph.{Fetch, WalkError}
use mizzle.Kv.Graph.Sets.{contains}

-- `v` is a parent of `u`.
abbrev pub Edge : Fetch → ObjectId → ObjectId → Type 0
Edge fetch u v = (ps : List ObjectId) × (fetch u ≡ ok ps) × (contains ps v ≡ true)

-- The commits that a chain of parent edges leads to.
pub data Reach (fetch : Fetch) (u : ObjectId) : ObjectId → Type 0 where
  here : Reach fetch u u
  step : {v w : ObjectId} → Reach fetch u v → Edge fetch v w → Reach fetch u w

pub Reach-trans :
    (fetch : Fetch) (u v w : ObjectId) → Reach fetch u v → Reach fetch v w → Reach fetch u w
Reach-trans fetch u v w p here = p
Reach-trans fetch u v w p (step {v = x} q e) = step (Reach-trans fetch u v x p q) e

-- Some id of the list leads to `c`.
abbrev pub FromSome : Fetch → List ObjectId → ObjectId → Type 0
FromSome fetch tips c = (t : ObjectId) × (contains tips t ≡ true) × Reach fetch t c

pub FromSome-nil : (fetch : Fetch) (c : ObjectId) → ¬ FromSome fetch [] c
FromSome-nil fetch c (t, m, p) = false≢true m

pub FromSome-cons :
    (fetch : Fetch) (t : ObjectId) (tips : List ObjectId) (c : ObjectId)
    → FromSome fetch (t ∷ tips) c ↔ (Reach fetch t c ⊎ FromSome fetch tips c)
FromSome-cons fetch t tips c = (
  λ (s, m, p). elim (Bool-cases (t == s)) [
    | inl same ↦ inl (subst (λ x. Reach fetch x c) (sym ((==_iff t s).0 same)) p)
    | inr other ↦ inr (s, ground arith, p)
  ],
  ⊎_elim (λ p. (t, ground arith, p)) (λ (s, m, p). (s, ground arith, p)),
)

-- Every commit of the universe can be read, and its parents belong to the universe.
pub record Readable (fetch : Fetch) (universe : List ObjectId) : Type 0 where
  pub parents_of :
      (c : ObjectId)
      → contains universe c ≡ true
      → (ps : List ObjectId) × (fetch c ≡ ok ps)
        × ((p : ObjectId) → contains ps p ≡ true → contains universe p ≡ true)

ok_inj :
    (xs ys : List ObjectId) → ◌≡◌ {A = Result WalkError (List ObjectId)} (ok xs) (ok ys) → xs ≡ ys
ok_inj xs ys e = cc

pub Edge-universe :
    (fetch : Fetch) (universe : List ObjectId) (u v : ObjectId)
    → Readable fetch universe
    → contains universe u ≡ true
    → Edge fetch u v
    → contains universe v ≡ true
Edge-universe fetch universe u v r h (ps, f, m) =
    let (qs, g, inside) = r.parents_of u h in
    inside v (subst (λ l. contains l v ≡ true) (ok_inj ps qs (sym f ∙ g)) m)

pub Reach-universe :
    (fetch : Fetch) (universe : List ObjectId) (u v : ObjectId)
    → Readable fetch universe
    → contains universe u ≡ true
    → Reach fetch u v
    → contains universe v ≡ true
Reach-universe fetch universe u v r h here = h
Reach-universe fetch universe u v r h (step {v = x} p e) =
    Edge-universe fetch universe x v r (Reach-universe fetch universe u x r h p) e
