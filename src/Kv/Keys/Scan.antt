-- ===== src/Kv/Keys/Scan.antt =====
-- The scan range of a prefix (`increment_in_place` of mizzle/src/backend/kv/keys.rs): it holds the
-- keys with that prefix and no other.
use mizzle.Base.{
  ℕ, zero, suc, ◌+◌, ◌≤◌, ◌<◌, ◌≡◌, refl, ◌∙◌, ◌⊎◌, inl, inr, Bytes, AreBytes, Bool, true, false,
  not, ◌&&◌, [], ◌∷◌, ◌++◌, Option, none, some, ltb, starts_with, bytes_lt, length, take, get_or,
  if◌then◌else◌, arith, Option-cases, take-length, take-set, take-suc, All-append, IsByte,
  starts_with-append,
}
use native.Mathlib.Nat.{le_refl}
use mizzle.Kv.Keys.{increment_from, increment_in_place}

-- `k` lies in the half-open range that a scan reads.
abbrev pub in_range : Bytes → Bytes → Bytes → Bool
in_range start end k = not (bytes_lt k start) && bytes_lt k end

-- The last byte below 0xFF goes up by one, and what follows it is dropped.
bump : Bytes → Option Bytes
bump [] = none
bump (x ∷ xs) = elim (bump xs) [
  | some ys ↦ some (x ∷ ys)
  | none ↦ if ltb x 0xFF then some ((x + 1) ∷ []) else none
]

bump-concat :
    (xs : Bytes) (x : ℕ)
    → bump (xs ++ x ∷ []) ≡ (if ltb x 0xFF then some (xs ++ (x + 1) ∷ []) else bump xs)
unfolding bump
bump-concat [] x = refl
bump-concat (y ∷ xs) x = ground (arith, bump-concat xs x)

or_else : Option Bytes → Bytes → Bytes
or_else none d = d
or_else (some ys) d = ys

increment_from-eq-bump :
    (i : ℕ) (key : Bytes)
    → i ≤ length key
    → increment_from i key ≡ or_else (bump (take i key)) (key ++ 0x00 ∷ [])
unfolding increment_from or_else bump
increment_from-eq-bump zero key h = refl
increment_from-eq-bump (suc i) key h =
    rw (take-suc i key 0 h, bump-concat)
      (ground (arith, take-set i key (get_or key i 0 + 1), increment_from-eq-bump i key))

bytes_lt-nil : (k : Bytes) → bytes_lt k [] ≡ false
bytes_lt-nil [] = refl
bytes_lt-nil (y ∷ k) = refl

-- Saturated bytes: nothing of the same length is above them.
Saturated-lt :
    (xs ys : Bytes)
    → bump xs ≡ none
    → AreBytes xs
    → AreBytes ys
    → not (bytes_lt ys xs) ≡ starts_with xs ys
unfolding bump
Saturated-lt [] [] h bx by = refl
Saturated-lt [] (y ∷ ys) h bx by = refl
Saturated-lt (x ∷ xs) [] h bx by = refl
Saturated-lt (x ∷ xs) (y ∷ ys) h bx by = ground (arith, Saturated-lt xs ys)

bump_range :
    (p q k : Bytes) → bump p ≡ some q → AreBytes p → AreBytes k → in_range p q k ≡ starts_with p k
unfolding bump
bump_range [] q k h bp bk = cc
bump_range (x ∷ p) q [] h bp bk = refl
bump_range (x ∷ p) q (y ∷ k) h bp bk = elim (Option-cases (bump p)) [
  | inl e ↦ ground (arith, Saturated-lt p k, bytes_lt-nil k)
  | inr (q', e) ↦ ground (arith, bump_range p q' k)
]

-- Some byte of a key can still go up, so the scan range of the key as a prefix has an end.
abbrev pub HasRoom : Bytes → Type 0
HasRoom [] = ⊥
HasRoom (x ∷ xs) = (x < 0xFF) ⊎ HasRoom xs

bump-HasRoom : (p : Bytes) → HasRoom p → (q : Bytes) × (bump p ≡ some q)
unfolding bump
bump-HasRoom [] h = absurd h
bump-HasRoom (x ∷ p) (inl low) = elim (Option-cases (bump p)) [
  | inl e ↦ ((x + 1) ∷ [], ground arith)
  | inr (q, e) ↦ (x ∷ q, rw e)
]
bump-HasRoom (x ∷ p) (inr room) = let (q, e) = bump-HasRoom p room in (x ∷ q, rw e)

-- For bytes `p` of which one is below 0xFF and bytes `k`: `k` lies in the half-open range from `p` to
-- `increment_in_place p` exactly when `k` starts with `p`.
pub increment_in_place_range :
    (p k : Bytes)
    → HasRoom p
    → AreBytes p
    → AreBytes k
    → in_range p (increment_in_place p) k ≡ starts_with p k
unfolding increment_in_place or_else
increment_in_place_range p k h bp bk =
    let (q, e) = bump-HasRoom p h in
    rw (increment_from-eq-bump (length p) p (le_refl (length p)), take-length p, e)
      (bump_range p q k e bp bk)

and_right : (a b : Bool) → (a && b) ≡ true → b ≡ true
and_right true b h = h
and_right false b h = cc

extend_lt : (p : Bytes) → bytes_lt p (p ++ 0x00 ∷ []) ≡ true
extend_lt [] = refl
extend_lt (x ∷ p) = ground (arith, extend_lt p)

-- For bytes `p` of which one is below 0xFF: a byte string lies strictly between `p` and
-- `increment_in_place p`.
pub increment_in_place-gap :
    (p : Bytes)
    → HasRoom p
    → AreBytes p
    → (bytes_lt p (p ++ 0x00 ∷ []) ≡ true)
      × (bytes_lt (p ++ 0x00 ∷ []) (increment_in_place p) ≡ true)
increment_in_place-gap p h bp =
    let range =
      increment_in_place_range p (p ++ 0x00 ∷ []) h bp
        (All-append IsByte p (0x00 ∷ []) bp (omega arith)) in
    (extend_lt p, and_right _ _ (range ∙ starts_with-append p (0x00 ∷ [])))
