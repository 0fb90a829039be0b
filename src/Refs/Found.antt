-- ===== src/Refs/Found.antt =====
-- Batches of updates that are all checked against the refs which a transaction found, beside the
-- contract of mizzle/src/backend/mod.rs, which checks each after the ones before it.
use mizzle.Base.{
  Bytes, false, Option, none, some, List, [], ◌∷◌, ObjectId, null_oid, is_null, eq_bytes,
  eq_bytes_refl, if◌then◌else◌, ◌≡◌, refl, All, arith,
}
use mizzle.Refs.{RefUpdate, RefMap, allowed, write, cas_all}

unfoldable pub cas_found : RefMap → RefMap → List RefUpdate → Option RefMap
cas_found base m [] = some m
cas_found base m (u ∷ us) =
    let rest = cas_found base (write m u) us in if allowed base u then rest else none

-- No two updates name the same ref.
abbrev pub NamedOnce : List RefUpdate → Type 0
NamedOnce [] = Unit
NamedOnce (u ∷ us) = All (λ v. eq_bytes u.refname v.refname ≡ false) us × NamedOnce us

allowed-agree :
    (base m : RefMap) (u : RefUpdate) → base u.refname ≡ m u.refname → allowed base u ≡ allowed m u
unfolding allowed
allowed-agree base m u e = rw e refl

-- Where two maps agree on the refs of a batch.
abbrev Agree : RefMap → RefMap → List RefUpdate → Type 0
Agree base m = All (λ u. base u.refname ≡ m u.refname)

Agree-write :
    (base m : RefMap) (u : RefUpdate) (us : List RefUpdate)
    → All (λ v. eq_bytes u.refname v.refname ≡ false) us
    → Agree base m us
    → Agree base (write m u) us
unfolding write
Agree-write base m u [] h k = tt
Agree-write base m u (v ∷ us) h k = (rw h.0 k.0, Agree-write base m u us h.1 k.1)

cas_found-Agree :
    (base m : RefMap) (us : List RefUpdate)
    → NamedOnce us
    → Agree base m us
    → cas_found base m us ≡ cas_all m us
unfolding cas_found cas_all
cas_found-Agree base m [] once h = refl
cas_found-Agree base m (u ∷ us) once h =
    rw
      (
        allowed-agree base m u h.0,
        cas_found-Agree base (write m u) us once.1 (Agree-write base m u us once.0 h.1),
      )
      refl

Agree-refl : (m : RefMap) (us : List RefUpdate) → Agree m m us
Agree-refl m [] = tt
Agree-refl m (u ∷ us) = (refl, Agree-refl m us)

-- A batch that names no ref twice may be checked at once.
pub cas_found-cas_all :
    (m : RefMap) (us : List RefUpdate) → NamedOnce us → cas_found m m us ≡ cas_all m us
cas_found-cas_all m us once = cas_found-Agree m m us once (Agree-refl m us)

-- A ref is created and then moved.
abbrev pub moved_twice : Bytes → ObjectId → ObjectId → List RefUpdate
moved_twice name a b =
    record { old_oid = null_oid; new_oid = a; refname = name }
    ∷ record { old_oid = a; new_oid = b; refname = name }
    ∷ []

pub cas_found-moved_twice :
    (m : RefMap) (name : Bytes) (a b : ObjectId)
    → is_null a ≡ false
    → is_null b ≡ false
    → m name ≡ none
    → cas_found m m (moved_twice name a b) ≡ none
unfolding cas_found allowed
cas_found-moved_twice m name a b na nb absent = rw (absent, na, nb) refl

pub cas_all-moved_twice :
    (m : RefMap) (name : Bytes) (a b : ObjectId)
    → is_null a ≡ false
    → is_null b ≡ false
    → m name ≡ none
    → (m' : RefMap) × (cas_all m (moved_twice name a b) ≡ some m') × (m' name ≡ some b)
unfolding cas_all allowed write
cas_all-moved_twice m name a b na nb absent =
    let m1 = write m (record { old_oid = null_oid; new_oid = a; refname = name }) in
    (
      write m1 (record { old_oid = a; new_oid = b; refname = name }),
      rw (absent, na, nb, eq_bytes_refl name) (ground arith),
      rw (eq_bytes_refl name, nb) refl,
    )
