-- ===== src/Refs.antt =====
-- The contract of `StorageBackend::update_refs` (mizzle/src/backend/mod.rs), over the ref updates of
-- a push (`RefUpdate` of mizzle-proto/src/receive.rs).
pub mod Contract
pub mod Found
use mizzle.Base.Result.{Result}
use mizzle.Base.{
  Bytes, Bool, true, false, Option, none, some, List, [], ◌∷◌, ok, err, ObjectId, IsObjectId,
  is_null, ◌==◌, eq_bytes, if◌then◌else◌, ◌≡◌, not, ◌&&◌,
}

pub record RefUpdate : Type 0 where
  pub old_oid : ObjectId
  pub new_oid : ObjectId
  pub refname : Bytes

-- How a push changes a ref (mizzle-proto/src/types.rs).
pub data PushKind : Type 0 where
  create : PushKind
  delete : PushKind
  fast_forward : PushKind
  force_push : PushKind

-- The classification without the object database (mizzle-proto/src/receive.rs).
unfoldable pub preliminary_push_kind : RefUpdate → PushKind
preliminary_push_kind update =
    if is_null update.old_oid
    then create
    else if is_null update.new_oid
    then delete
    else fast_forward

-- Both ids have 160 bits.
abbrev pub IsValid : RefUpdate → Type 0
IsValid u = IsObjectId u.old_oid × IsObjectId u.new_oid

-- What a client sees of a repository's refs.
abbrev pub RefMap : Type 0
RefMap = Bytes → Option ObjectId

-- A ref holds exactly this id.
abbrev pub holds : Option ObjectId → ObjectId → Bool
holds none oid = false
holds (some actual) oid = actual == oid

abbrev pub is_absent : Option ObjectId → Bool
is_absent none = true
is_absent (some actual) = false

-- The three rules: delete with CAS, create, update with CAS.
unfoldable pub allowed : RefMap → RefUpdate → Bool
allowed m u =
    if is_null u.new_oid
    then holds (m u.refname) u.old_oid
    else if is_null u.old_oid
    then is_absent (m u.refname)
    else holds (m u.refname) u.old_oid

unfoldable pub write : RefMap → RefUpdate → RefMap
write m u j =
    if eq_bytes u.refname j then (if is_null u.new_oid then none else some u.new_oid) else m j

-- A batch lands whole, or not at all.
unfoldable pub cas_all : RefMap → List RefUpdate → Option RefMap
cas_all m [] = some m
cas_all m (u ∷ us) = let rest = cas_all (write m u) us in if allowed m u then rest else none

-- An update that names at least one object: the null id on both sides asks to create and to delete.
abbrev pub NamesObject : RefUpdate → Type 0
NamesObject u = (is_null u.old_oid && is_null u.new_oid) ≡ false

-- A batch that the contract refuses fails, and one that it accepts succeeds in a state that shows it.
abbrev pub Implements {ℓ} :
    {E S : Type ℓ} → (S → RefMap → Type 0) → Option RefMap → Result E S → Type 0
Implements Shows none (ok s) = ⊥
Implements Shows none (err e) = Unit
Implements Shows (some m) (ok s) = Shows s m
Implements Shows (some m) (err e) = ⊥
