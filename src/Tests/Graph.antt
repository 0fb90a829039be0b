-- ===== src/Tests/Graph.antt =====
-- The walks on a small history: 4 merges 3 and 2, which both follow 1.
use mizzle.Base.{
  Bool, true, false, List, [], ◌∷◌, ok, err, ObjectId, ◌==◌, ◌≡◌, ◌↔◌, ◌⊎◌, refl, arith, length,
  if◌then◌else◌, ◌≤◌, ◌<◌, is_null,
}
use mizzle.Refs.{create, delete, fast_forward, force_push}
use mizzle.Kv.Graph.{Fetch, is_ancestor, compute_push_kind, reachable_excluding, cap_exceeded}
use mizzle.Kv.Graph.Sets.{contains, Distinct}
use mizzle.Kv.Graph.Reach.{Reach, Readable, FromSome}
use mizzle.Kv.Graph.Ancestor.{is_ancestor_decides, compute_push_kind_exact}
use mizzle.Kv.Graph.Reachable.{reachable_excluding_exact}
use mizzle.Kv.Graph.Order.{reachable_excluding-tip_first}

abbrev pub parents : ObjectId → List ObjectId
parents c = if c == 4 then 3 ∷ 2 ∷ [] else if c == 3 then 1 ∷ [] else if c == 2 then 1 ∷ [] else []

abbrev pub fetch : Fetch
fetch c = ok (parents c)

abbrev pub universe : List ObjectId
universe = 4 ∷ 3 ∷ 2 ∷ 1 ∷ []

parents-universe : (c p : ObjectId) → contains (parents c) p ≡ true → contains universe p ≡ true
parents-universe c p h = ground arith

pub readable : Readable fetch universe
readable = record { parents_of = λ c h. (parents c, refl, parents-universe c) }

among_merges : (c : ObjectId) → contains (4 ∷ []) c ≡ true → contains universe c ≡ true
among_merges c h = ground arith

among_threes : (c : ObjectId) → contains (3 ∷ []) c ≡ true → contains universe c ≡ true
among_threes c h = ground arith

is_ancestor_decides_example :
    (b : Bool) × (is_ancestor fetch 4 1 4 ≡ ok b) × ((b ≡ true) ↔ Reach fetch 4 1)
is_ancestor_decides_example = is_ancestor_decides fetch universe 1 4 4 readable refl (omega arith)

compute_push_kind_exact_example :
    (is_null 2 ≡ true → compute_push_kind fetch 4 2 3 ≡ create)
    × (is_null 2 ≡ false → is_null 3 ≡ true → compute_push_kind fetch 4 2 3 ≡ delete)
    × (is_null 2 ≡ false
        → is_null 3 ≡ false
        → (Reach fetch 3 2 → compute_push_kind fetch 4 2 3 ≡ fast_forward)
          × (¬ Reach fetch 3 2 → compute_push_kind fetch 4 2 3 ≡ force_push))
compute_push_kind_exact_example =
    compute_push_kind_exact fetch universe 2 3 4 readable refl (omega arith)

reachable_excluding_exact_example :
    ((out : List ObjectId) × (reachable_excluding fetch 4 (4 ∷ []) (3 ∷ []) 9 ≡ ok out)
      × ((c : ObjectId)
          → (contains out c ≡ true) ↔ (FromSome fetch (4 ∷ []) c × ¬ FromSome fetch (3 ∷ []) c))
      × Distinct out
      × (length out ≤ 9))
    ⊎ (reachable_excluding fetch 4 (4 ∷ []) (3 ∷ []) 9 ≡ err (cap_exceeded 9))
      × (9 < length universe)
reachable_excluding_exact_example =
    reachable_excluding_exact fetch universe (4 ∷ []) (3 ∷ []) 4 9 readable among_merges
      among_threes (omega arith)

walked : reachable_excluding fetch 4 (4 ∷ []) (3 ∷ []) 9 ≡ ok (4 ∷ 2 ∷ [])
unfolding reachable_excluding
walked = refl

forced : compute_push_kind fetch 4 2 3 ≡ force_push
unfolding compute_push_kind
forced = refl

whole : reachable_excluding fetch 4 (4 ∷ []) [] 9 ≡ ok (4 ∷ 3 ∷ 2 ∷ 1 ∷ [])
unfolding reachable_excluding
whole = refl

reachable_excluding-tip_first_example :
    (rest : List ObjectId) × (◌≡◌ {A = List ObjectId} (4 ∷ 3 ∷ 2 ∷ 1 ∷ []) (4 ∷ rest))
reachable_excluding-tip_first_example =
    reachable_excluding-tip_first fetch 4 4 9 (4 ∷ 3 ∷ 2 ∷ 1 ∷ []) whole
