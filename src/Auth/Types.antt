-- ===== src/Auth/Types.antt =====
-- The data of the comparison: mizzle/src/auth_types.rs, and `PackMetadata` of
-- mizzle/src/backend/mod.rs. Texts and byte strings are their bytes.
use mizzle.Base.{
  ℕ, Bytes, Bool, true, false, ◌||◌, List, [], ◌∷◌, Option, none, some, codes, eq_bytes,
  starts_with, ObjectId, ◌==◌, if◌then◌else◌,
}

pub record Identity : Type 0 where
  pub name : Bytes
  pub email : Bytes
  pub time : Bytes

pub data SignatureFormat : Type 0 where
  open_pgp : SignatureFormat
  ssh : SignatureFormat
  x509_cms : SignatureFormat
  unknown : SignatureFormat

-- `PartialEq`
abbrev pub eq_format : SignatureFormat → SignatureFormat → Bool
eq_format open_pgp open_pgp = true
eq_format ssh ssh = true
eq_format x509_cms x509_cms = true
eq_format unknown unknown = true
eq_format f g = false

unfoldable pub detect : Bytes → SignatureFormat
detect bytes =
    if starts_with (codes "-----BEGIN PGP SIGNATURE-----") bytes
    then open_pgp
    else if starts_with (codes "-----BEGIN SSH SIGNATURE-----") bytes
    then ssh
    else if starts_with (codes "-----BEGIN SIGNED MESSAGE-----") bytes
        || starts_with (codes "-----BEGIN CMS-----") bytes
    then x509_cms
    else unknown

pub record SignatureBlob : Type 0 where
  pub format : SignatureFormat
  pub bytes : Bytes

pub record CommitInfo : Type 0 where
  pub oid : ObjectId
  pub tree : ObjectId
  pub parents : List ObjectId
  pub author : Identity
  pub committer : Identity
  pub message : Bytes
  pub encoding : Option Bytes
  pub signature : Option SignatureBlob

pub record TagInfo : Type 0 where
  pub oid : ObjectId
  pub target : ObjectId
  pub name : Bytes
  pub tagger : Option Identity
  pub message : Bytes
  pub signature : Option SignatureBlob

pub data ComparisonError : Type 0 where
  comparison_cap : Bytes → ℕ → ComparisonError
  backend_text : Bytes → ComparisonError
  tip_not_found : ObjectId → ComparisonError

pub data RefDiffChange : Type 0 where
  added : RefDiffChange
  modified : RefDiffChange
  removed : RefDiffChange

pub record RefDiffEntry : Type 0 where
  pub path : Bytes
  pub change : RefDiffChange
  pub mode : ℕ
  pub oid : ObjectId

-- `RefDiff`, by its entries.
abbrev pub RefDiff : Type 0
RefDiff = List RefDiffEntry

pub data SignedIdentity : Type 0 where
  pgp_identity : Bytes → Bytes → SignedIdentity
  ssh_identity : Bytes → Option Bytes → SignedIdentity
  x509_identity : Bytes → Option Bytes → SignedIdentity
  other_identity : Bytes → SignedIdentity

unfoldable pub matches_email : SignedIdentity → Bytes → Bool
matches_email (pgp_identity key_id e) email = eq_bytes e email
matches_email (x509_identity subject (some s)) email = eq_bytes s email
matches_email (ssh_identity fingerprint (some p)) email = eq_bytes p email
matches_email (x509_identity subject none) email = false
matches_email (ssh_identity fingerprint none) email = false
matches_email (other_identity description) email = false

pub data VerificationStatus : Type 0 where
  verified : SignedIdentity → SignatureFormat → VerificationStatus
  bad_signature : VerificationStatus
  unknown_key : VerificationStatus
  unsupported_format : VerificationStatus
  unsigned : VerificationStatus

pub record Signer : Type 0 where
  pub email : Bytes
  pub format : SignatureFormat
  pub identifier : Option Bytes

-- `SignerKey` has the fields of a signer, owned.
abbrev pub SignerKey : Type 0
SignerKey = Signer

pub record VerificationKey : Type 0 where
  pub format : SignatureFormat
  pub key_data : Bytes

-- `HashMap<SignerKey, Vec<VerificationKey>>`, in the order in which it is iterated.
abbrev pub VerificationKeys : Type 0
VerificationKeys = List (SignerKey × List VerificationKey)

pub record ExternalSig : Type 0 where
  pub format : SignatureFormat
  pub signature : Bytes
  pub signed_payload : Bytes
  pub signer_email : Bytes

pub data ObjectKind : Type 0 where
  blob : ObjectKind
  tree : ObjectKind
  commit : CommitInfo → ObjectKind
  tag : TagInfo → ObjectKind

pub record PackObject : Type 0 where
  pub oid : ObjectId
  pub kind : ObjectKind
  pub size : ℕ

-- `PackMetadata`, by its objects: `commits`, `tags` and `find_commit`.
unfoldable pub commits : List PackObject → List CommitInfo
commits [] = []
commits (o ∷ objects) =
    let rest = commits objects in
    elim o.kind [ blob ↦ rest | tree ↦ rest | commit c ↦ c ∷ rest | tag t ↦ rest ]

unfoldable pub tags : List PackObject → List TagInfo
tags [] = []
tags (o ∷ objects) =
    let rest = tags objects in
    elim o.kind [ blob ↦ rest | tree ↦ rest | commit c ↦ rest | tag t ↦ t ∷ rest ]

abbrev pub find_oid : ObjectId → List CommitInfo → Option CommitInfo
find_oid oid [] = none
find_oid oid (c ∷ cs) = let rest = find_oid oid cs in if c.oid == oid then some c else rest

unfoldable pub find_commit : List PackObject → ObjectId → Option CommitInfo
unfolding commits
find_commit objects oid = find_oid oid (commits objects)
