-- ===== src/Server/Adverts/Asked.antt =====
-- Which refs an `ls-refs` request asks for.
use mathlib.Core.List.Memᴰ
use mizzle.Base.{
  Bytes, true, false, List, [], ◌∷◌, ◌++◌, ObjectId, inl, inr, arith, ◌≡◌, refl, ◌⊎◌, Bool-cases,
  Memᴰ, subst, starts_with, starts_with-append,
}
use mizzle.Server.Snapshot.{RefInfo}
use mizzle.Server.Adverts.{any_prefix, wanted}

-- What a request with these prefixes asks for.
abbrev pub Asked : List Bytes → Bytes → Type 0
Asked prefixes name =
    (prefixes ≡ []) ⊎ ((p : Bytes) × (rest : Bytes) × Memᴰ p prefixes × (name ≡ p ++ rest))

-- The refs that are asked for, in order.
pub data Chosen (prefixes : List Bytes) : List RefInfo → List (ObjectId × Bytes) → Type 0 where
  nothing : Chosen prefixes [] []
  take_ref :
      {r : RefInfo} {refs : List RefInfo} {chosen : List (ObjectId × Bytes)}
      → Asked prefixes r.name
      → Chosen prefixes refs chosen
      → Chosen prefixes (r ∷ refs) ((r.oid, r.name) ∷ chosen)
  skip_ref :
      {r : RefInfo} {refs : List RefInfo} {chosen : List (ObjectId × Bytes)}
      → ¬ (Asked prefixes r.name)
      → Chosen prefixes refs chosen
      → Chosen prefixes (r ∷ refs) chosen

rest_of : (p name : Bytes) → starts_with p name ≡ true → (rest : Bytes) × (name ≡ p ++ rest)
rest_of [] name h = (name, refl)
rest_of (x ∷ p) [] h = absurd (no_true h)
  where
    no_true : false ≡ true → ⊥
    no_true e = cc
rest_of (x ∷ p) (y ∷ name) h =
    let (rest, e) = rest_of p name (ground arith) in let same : y ≡ x = ground arith in (rest, cc)

any_prefix-true :
    (ps : List Bytes) (name : Bytes)
    → any_prefix ps name ≡ true
    → (p : Bytes) × (rest : Bytes) × Memᴰ p ps × (name ≡ p ++ rest)
any_prefix-true [] name h = cc
any_prefix-true (p ∷ ps) name h = elim (Bool-cases (starts_with p name)) [
  | inl e ↦ (let (rest, same) = rest_of p name e in (p, rest, Memᴰ.head refl, same))
  | inr e ↦
      let (q, rest, m, same) = any_prefix-true ps name (ground arith) in
      (q, rest, Memᴰ.tail m, same)
]

any_prefix-Memᴰ : (ps : List Bytes) (p rest : Bytes) → Memᴰ p ps → any_prefix ps (p ++ rest) ≡ true
any_prefix-Memᴰ [] p rest m = absurd (Memᴰ.not-nil m)
any_prefix-Memᴰ (q ∷ ps) p rest (Memᴰ.head e) = rw (← e, starts_with-append p rest) refl
any_prefix-Memᴰ (q ∷ ps) p rest (Memᴰ.tail m) =
    let found = any_prefix-Memᴰ ps p rest m in ground arith

pub wanted-Asked :
    (prefixes : List Bytes) (name : Bytes)
    → (wanted prefixes name ≡ true) × Asked prefixes name
      ⊎ (wanted prefixes name ≡ false) × ¬ (Asked prefixes name)
unfolding wanted
wanted-Asked [] name = inl (refl, inl refl)
wanted-Asked (p ∷ ps) name = elim (Bool-cases (any_prefix (p ∷ ps) name)) [
  | inl e ↦ inl (e, inr (any_prefix-true (p ∷ ps) name e))
  | inr e ↦ inr (
    e,
    λ a. elim a [
      | inl h ↦ cc
      | inr (q, rest, m, same) ↦
          let hit = any_prefix-Memᴰ (p ∷ ps) q rest m in
          let miss = subst (λ n. any_prefix (p ∷ ps) n ≡ false) same e in cc
    ],
  )
]
