-- ===== src/Kv/Graph.antt =====
-- Commit-parent graph walks (mizzle/src/backend/kv/graph.rs). A `HashSet` is the list of its items,
-- each inserted once, and a `VecDeque` a list with its front first. `fetch` is `fetch_parents`. The
-- loops take fuel: `out_of_fuel` is no error of the code.
pub mod Sets
pub mod Reach
pub mod Round
pub mod Ancestor
pub mod Exclude
pub mod Emit
pub mod Reachable
pub mod Order
use mizzle.Base.Result.{Result}
use mizzle.Base.{
  ℕ, zero, suc, Bool, true, false, not, ◌&&◌, ◌||◌, List, [], ◌∷◌, ◌++◌, ok, err, ◌>>=◌, ◌>>◌,
  ObjectId, is_null, ◌==◌, ltb, leb, length, if◌then◌else◌,
}
use mizzle.Refs.{PushKind, create, delete, fast_forward, force_push}
use mizzle.Kv.Graph.Sets.{contains}

-- `ReachableError`
pub data WalkError : Type 0 where
  cap_exceeded : ℕ → WalkError
  other : WalkError
  out_of_fuel : WalkError

pub record Walk : Type 0 where
  pub visited : List ObjectId
  pub frontier : List ObjectId

-- `if !excluded.contains(oid) && visited.insert(oid) { frontier.push_back(oid) }`
unfoldable pub offer : List ObjectId → Walk → ObjectId → Walk
offer excluded w oid =
    if not (contains excluded oid) && not (contains w.visited oid)
    then record { visited = oid ∷ w.visited; frontier = w.frontier ++ oid ∷ [] }
    else w

-- The loop over the parents of one commit, or over the tips.
unfoldable pub offer_all : List ObjectId → Walk → List ObjectId → Walk
unfolding offer
offer_all excluded w [] = w
offer_all excluded w (oid ∷ oids) = offer_all excluded (offer excluded w oid) oids

pub data Scan : Type 0 where
  found : Scan
  more : Walk → Scan

-- The loop over the parents in `is_ancestor`, with its early return.
unfoldable pub scan_parents : ObjectId → Walk → List ObjectId → Scan
unfolding offer
scan_parents ancestor w [] = more w
scan_parents ancestor w (parent ∷ parents) =
    let rest = scan_parents ancestor (offer [] w parent) parents in
    if parent == ancestor then found else rest

-- What follows that loop.
abbrev pub after_scan : Scan → (Walk → Result WalkError Bool) → Result WalkError Bool
after_scan found next = ok true
after_scan (more w) next = next w

abbrev pub Fetch : Type 0
Fetch = ObjectId → Result WalkError (List ObjectId)

module _ (fetch : Fetch) where
  -- The `while` loop of `is_ancestor`.
  unfoldable pub ancestor_loop : ℕ → ObjectId → Walk → Result WalkError Bool
  unfolding scan_parents
  ancestor_loop zero ancestor w = elim w.frontier [ [] ↦ ok false | _ ∷ _ ↦ err out_of_fuel ]
  ancestor_loop (suc fuel) ancestor w = elim w.frontier [
    | [] ↦ ok false
    | oid ∷ rest ↦ fetch oid >>= λ parents.
        after_scan (scan_parents ancestor (record { visited = w.visited; frontier = rest }) parents)
          (λ w'. ancestor_loop fuel ancestor w')
  ]

  unfoldable pub is_ancestor : ℕ → ObjectId → ObjectId → Result WalkError Bool
  unfolding ancestor_loop
  is_ancestor fuel ancestor descendant =
      if ancestor == descendant
      then ok true
      else ancestor_loop fuel ancestor
          (record { visited = descendant ∷ []; frontier = descendant ∷ [] })

  -- A walk that fails counts as one that did not find the ancestor.
  unfoldable pub compute_push_kind : ℕ → ObjectId → ObjectId → PushKind
  unfolding is_ancestor
  compute_push_kind fuel old_oid new_oid =
      if is_null old_oid
      then create
      else if is_null new_oid
      then delete
      else elim (is_ancestor fuel old_oid new_oid) [
        | ok true ↦ fast_forward
        | ok false ↦ force_push
        | err e ↦ force_push
      ]

  -- The `while` loop of `collect_ancestors`, which ends with the set.
  unfoldable pub collect_loop : ℕ → ℕ → Walk → Result WalkError (List ObjectId)
  unfolding offer_all
  collect_loop zero cap w = elim w.frontier [ [] ↦ ok w.visited | _ ∷ _ ↦ err out_of_fuel ]
  collect_loop (suc fuel) cap w = elim w.frontier [
    | [] ↦ ok w.visited
    | current ∷ rest ↦
        if ltb cap (length w.visited)
        then err (cap_exceeded cap)
        else fetch current >>= λ parents.
            collect_loop fuel cap
              (offer_all [] (record { visited = w.visited; frontier = rest }) parents)
  ]

  unfoldable pub collect_ancestors :
      ℕ → List ObjectId → ObjectId → ℕ → Result WalkError (List ObjectId)
  unfolding collect_loop offer
  collect_ancestors fuel set oid cap =
      collect_loop fuel cap (offer [] (record { visited = set; frontier = [] }) oid)

  -- The first pass of `reachable_excluding`.
  unfoldable pub exclude_all :
      ℕ → List ObjectId → List ObjectId → ℕ → Result WalkError (List ObjectId)
  unfolding collect_ancestors
  exclude_all fuel set [] cap = ok set
  exclude_all fuel set (oid ∷ oids) cap =
      collect_ancestors fuel set oid cap >>= λ set'. exclude_all fuel set' oids cap

  -- The `while` loop of `reachable_excluding`.
  unfoldable pub reachable_loop :
      ℕ → List ObjectId → ℕ → Walk → List ObjectId → Result WalkError (List ObjectId)
  unfolding offer_all
  reachable_loop zero excluded cap w result = elim w.frontier [
    | [] ↦ ok result
    | _ ∷ _ ↦ err out_of_fuel
  ]
  reachable_loop (suc fuel) excluded cap w result = elim w.frontier [
    | [] ↦ ok result
    | oid ∷ rest ↦
        if leb cap (length result)
        then err (cap_exceeded cap)
        else fetch oid >>= λ parents.
            reachable_loop fuel excluded cap
              (offer_all excluded (record { visited = w.visited; frontier = rest }) parents)
              (result ++ oid ∷ [])
  ]

  unfoldable pub reachable_excluding :
      ℕ → List ObjectId → List ObjectId → ℕ → Result WalkError (List ObjectId)
  unfolding exclude_all reachable_loop
  reachable_excluding fuel [] excluding cap = ok []
  reachable_excluding fuel (tip ∷ tips) excluding cap =
      exclude_all fuel [] excluding cap >>= λ excluded.
      reachable_loop fuel excluded cap
        (offer_all excluded (record { visited = []; frontier = [] }) (tip ∷ tips)) []
