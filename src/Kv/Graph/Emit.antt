-- ===== src/Kv/Graph/Emit.antt =====
-- The `while` loop of `reachable_excluding`, one round at a time.
use mizzle.Base.{
  ℕ, zero, suc, true, false, List, [], ◌∷◌, ◌++◌, ok, err, ObjectId, ◌≡◌, refl, length,
  if◌then◌else◌, leb,
}
use mizzle.Kv.Graph.{Walk, WalkError, Fetch, cap_exceeded, out_of_fuel, offer_all, reachable_loop}

pub reachable_loop-end :
    (fetch : Fetch) (fuel : ℕ) (ex : List ObjectId) (cap : ℕ) (w : Walk) (result : List ObjectId)
    → w.frontier ≡ []
    → reachable_loop fetch fuel ex cap w result ≡ ok result
unfolding reachable_loop
reachable_loop-end fetch zero ex cap w result e = rw e refl
reachable_loop-end fetch (suc fuel) ex cap w result e = rw e refl

pub reachable_loop-round :
    (fetch : Fetch) (fuel : ℕ) (ex : List ObjectId) (cap : ℕ) (w : Walk) (result : List ObjectId)
    (u : ObjectId) (rest ps : List ObjectId)
    → w.frontier ≡ u ∷ rest
    → fetch u ≡ ok ps
    → reachable_loop fetch (suc fuel) ex cap w result ≡ (
        if leb cap (length result)
        then err (cap_exceeded cap)
        else reachable_loop fetch fuel ex cap
            (offer_all ex (record { visited = w.visited; frontier = rest }) ps)
            (result ++ u ∷ []))
unfolding reachable_loop
reachable_loop-round fetch fuel ex cap w result u rest ps e f = rw (e, f) refl

pub reachable_loop-spent :
    (fetch : Fetch) (ex : List ObjectId) (cap : ℕ) (w : Walk) (result : List ObjectId)
    (u : ObjectId) (rest : List ObjectId)
    → w.frontier ≡ u ∷ rest
    → reachable_loop fetch zero ex cap w result ≡ err out_of_fuel
unfolding reachable_loop
reachable_loop-spent fetch ex cap w result u rest e = rw e refl

pub reachable_loop-over :
    (fetch : Fetch) (fuel : ℕ) (ex : List ObjectId) (cap : ℕ) (w : Walk) (result : List ObjectId)
    (u : ObjectId) (rest : List ObjectId)
    → w.frontier ≡ u ∷ rest
    → leb cap (length result) ≡ true
    → reachable_loop fetch (suc fuel) ex cap w result ≡ err (cap_exceeded cap)
unfolding reachable_loop
reachable_loop-over fetch fuel ex cap w result u rest e over = rw (e, over) refl

pub reachable_loop-failed :
    (fetch : Fetch) (fuel : ℕ) (ex : List ObjectId) (cap : ℕ) (w : Walk) (result : List ObjectId)
    (u : ObjectId) (rest : List ObjectId) (x : WalkError)
    → w.frontier ≡ u ∷ rest
    → leb cap (length result) ≡ false
    → fetch u ≡ err x
    → reachable_loop fetch (suc fuel) ex cap w result ≡ err x
unfolding reachable_loop
reachable_loop-failed fetch fuel ex cap w result u rest x e under f = rw (e, under, f) refl
