-- ===== src/Kv/Graph/Sets.antt =====
-- Membership in a list of ids, as the tests of the code see it.
use mizzle.Base.{
  ℕ, suc, ◌≤◌, Bool, true, false, ◌||◌, List, [], ◌∷◌, ◌++◌, ObjectId, ◌==◌, ◌≡◌, refl, arith,
  length, if◌then◌else◌,
}

abbrev pub contains : List ObjectId → ObjectId → Bool
contains [] oid = false
contains (x ∷ xs) oid = x == oid || contains xs oid

pub contains-append :
    (xs ys : List ObjectId) (c : ObjectId)
    → contains (xs ++ ys) c ≡ (contains xs c || contains ys c)
contains-append [] ys c = refl
contains-append (x ∷ xs) ys c = ground (arith, contains-append xs ys c)

-- How many entries of `universe` are not in `set`.
pub unseen : List ObjectId → List ObjectId → ℕ
unseen set [] = 0
unseen set (c ∷ universe) =
    let rest = unseen set universe in if contains set c then rest else suc rest

pub unseen_mono :
    (x : ObjectId) (set universe : List ObjectId) → unseen (x ∷ set) universe ≤ unseen set universe
unfolding unseen
unseen_mono x set [] = omega arith
unseen_mono x set (c ∷ universe) = ground (arith, unseen_mono x set universe)

pub unseen-insert :
    (x : ObjectId) (set universe : List ObjectId)
    → contains universe x ≡ true
    → contains set x ≡ false
    → suc (unseen (x ∷ set) universe) ≤ unseen set universe
unfolding unseen
unseen-insert x set [] h n = cc
unseen-insert x set (c ∷ universe) h n =
    ground (arith, unseen-insert x set universe, unseen_mono x set universe)

pub unseen-le : (set universe : List ObjectId) → unseen set universe ≤ length universe
unfolding unseen
unseen-le set [] = omega arith
unseen-le set (c ∷ universe) = ground (arith, unseen-le set universe)

-- No id stands twice.
abbrev pub Distinct : List ObjectId → Type 0
Distinct [] = Unit
Distinct (x ∷ xs) = (contains xs x ≡ false) × Distinct xs

pub Distinct-concat :
    (xs : List ObjectId) (p : ObjectId)
    → Distinct xs
    → contains xs p ≡ false
    → Distinct (xs ++ p ∷ [])
Distinct-concat [] p h n = (refl, tt)
Distinct-concat (x ∷ xs) p h n =
    (ground (arith, contains-append xs (p ∷ []) x, h.0), Distinct-concat xs p h.1 (ground arith))
