-- ===== src/Server/Snapshot.antt =====
-- What `list_refs` returns and what the server makes of it (mizzle/src/backend/mod.rs, serve.rs).
pub mod Tips
use mizzle.Base.{
  Bytes, Bool, true, false, not, ◌||◌, List, [], ◌∷◌, ◌++◌, Option, none, some, codes, eq_bytes,
  starts_with, ObjectId, if◌then◌else◌,
}
use mizzle.Refs.{PushKind}

pub record HeadInfo : Type 0 where
  pub oid : ObjectId
  pub symref_target : Option Bytes

pub record RefInfo : Type 0 where
  pub name : Bytes
  pub oid : ObjectId
  pub peeled : Option ObjectId
  pub symref_target : Option Bytes

pub record RefsSnapshot : Type 0 where
  pub head : Option HeadInfo
  pub refs : List RefInfo

-- The refs whose names start with `refs/`, as pairs of id and name.
unfoldable pub concrete_refs : List RefInfo → List (ObjectId × Bytes)
concrete_refs [] = []
concrete_refs (r ∷ refs) =
    let rest = concrete_refs refs in
    if starts_with (codes "refs/") r.name then (r.oid, r.name) ∷ rest else rest

unfoldable pub as_receive_pack : RefsSnapshot → List (ObjectId × Bytes)
unfolding concrete_refs
as_receive_pack snapshot = concrete_refs snapshot.refs

abbrev pub head_ref : Option HeadInfo → List (ObjectId × Bytes)
head_ref none = []
head_ref (some head) = (head.oid, codes "HEAD") ∷ []

unfoldable pub as_upload_pack_v1 : RefsSnapshot → List (ObjectId × Bytes)
unfolding concrete_refs
as_upload_pack_v1 snapshot = head_ref snapshot.head ++ concrete_refs snapshot.refs

-- `PushRef` of mizzle/src/auth_types.rs
pub record PushRef : Type 0 where
  pub refname : Bytes
  pub kind : PushKind
  pub old_oid : ObjectId
  pub new_oid : ObjectId

-- `pushed.contains(name)`
abbrev pub is_pushed : List PushRef → Bytes → Bool
is_pushed [] name = false
is_pushed (p ∷ pushed) name = eq_bytes p.refname name || is_pushed pushed name

abbrev pub peeled_tip : Option ObjectId → List ObjectId
peeled_tip none = []
peeled_tip (some p) = p ∷ []

-- The loop of `existing_ref_tips` over the refs of a snapshot.
unfoldable pub tips : List PushRef → List RefInfo → List ObjectId
tips pushed [] = []
tips pushed (r ∷ refs) =
    let rest = tips pushed refs in
    if is_pushed pushed r.name then rest else r.oid ∷ (peeled_tip r.peeled ++ rest)
