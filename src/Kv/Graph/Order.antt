-- ===== src/Kv/Graph/Order.antt =====
-- The order in which `reachable_excluding` returns the commits.
use mizzle.Base.Result.{Result}
use mizzle.Base.{
  ℕ, zero, suc, List, [], ◌∷◌, ◌++◌, ok, err, ObjectId, ◌≡◌, refl, length, inl, inr, Bool-cases,
  List-cases, Result-cases, sym, ◌∙◌, leb, append-nil, append_assoc,
}
use mizzle.Kv.Graph.{
  Walk, WalkError, Fetch, cap_exceeded, out_of_fuel, offer_all, reachable_loop, reachable_excluding,
}
use mizzle.Kv.Graph.Emit.{
  reachable_loop-end, reachable_loop-round, reachable_loop-spent, reachable_loop-over,
  reachable_loop-failed,
}

ok_inj :
    (xs ys : List ObjectId) → ◌≡◌ {A = Result WalkError (List ObjectId)} (ok xs) (ok ys) → xs ≡ ys
ok_inj xs ys e = cc

ok-ne-err :
    (e : WalkError) (xs : List ObjectId)
    → ¬ (◌≡◌ {A = Result WalkError (List ObjectId)} (err e) (ok xs))
ok-ne-err e xs h = cc

-- What has been emitted stays in front.
reachable_loop_prefix :
    (fetch : Fetch) (fuel : ℕ) (ex : List ObjectId) (cap : ℕ) (w : Walk)
    (result out : List ObjectId)
    → reachable_loop fetch fuel ex cap w result ≡ ok out
    → (more : List ObjectId) × (out ≡ result ++ more)
reachable_loop_prefix fetch zero ex cap w result out h = elim (List-cases w.frontier) [
  | inl e ↦ (
    [],
    ok_inj out result (sym h ∙ reachable_loop-end fetch zero ex cap w result e)
        ∙ sym (append-nil result),
  )
  | inr (u, rest, e) ↦
      absurd
        (ok-ne-err out_of_fuel out (sym (reachable_loop-spent fetch ex cap w result u rest e) ∙ h))
]
reachable_loop_prefix fetch (suc fuel) ex cap w result out h = elim (List-cases w.frontier) [
  | inl e ↦ (
    [],
    ok_inj out result (sym h ∙ reachable_loop-end fetch (suc fuel) ex cap w result e)
        ∙ sym (append-nil result),
  )
  | inr (u, rest, e) ↦ elim (Bool-cases (leb cap (length result))) [
    | inl over ↦ absurd (
        ok-ne-err (cap_exceeded cap) out
          (sym (reachable_loop-over fetch fuel ex cap w result u rest e over) ∙ h))
    | inr under ↦ elim (Result-cases (fetch u)) [
      | inr (x, f) ↦ absurd (
          ok-ne-err x out
            (sym (reachable_loop-failed fetch fuel ex cap w result u rest x e under f) ∙ h))
      | inl (ps, f) ↦
          let (more, same) =
            reachable_loop_prefix fetch fuel ex cap
              (offer_all ex (record { visited = w.visited; frontier = rest }) ps) (result ++ u ∷ [])
              out
              (sym (reachable_loop-round fetch fuel ex cap w result u rest ps e f ∙ rw under refl)
                ∙ h) in
          (u ∷ more, same ∙ append_assoc result (u ∷ []) more)
    ]
  ]
]

-- The walk from one tip, with nothing excluded, puts the tip before all other commits, so before its
-- parents.
pub reachable_excluding-tip_first :
    (fetch : Fetch) (fuel : ℕ) (tip : ObjectId) (cap : ℕ) (out : List ObjectId)
    → reachable_excluding fetch fuel (tip ∷ []) [] cap ≡ ok out
    → (rest : List ObjectId) × (out ≡ tip ∷ rest)
unfolding reachable_excluding
reachable_excluding-tip_first fetch zero tip cap out h = cc
reachable_excluding-tip_first fetch (suc fuel) tip cap out h = elim (Bool-cases (leb cap 0)) [
  | inl over ↦ absurd (ok-ne-err (cap_exceeded cap) out (sym (rw over refl) ∙ h))
  | inr under ↦ elim (Result-cases (fetch tip)) [
    | inr (x, f) ↦ absurd (ok-ne-err x out (sym (rw (under, f) refl) ∙ h))
    | inl (ps, f) ↦
        reachable_loop_prefix fetch fuel [] cap
          (offer_all [] (record { visited = tip ∷ []; frontier = [] }) ps) (tip ∷ []) out
          (rw (under, f) at h)
  ]
]
