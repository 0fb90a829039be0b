-- ===== src/Base/Oid.antt =====
-- `gix_hash::ObjectId`. The code compares ids and tests for the null id; a number names an id here,
-- and 0 the null id. How an id is written in bytes and in hex is gix's, and stands as a parameter.
use Prim.Native.Nat.{ℕ, ◌^◌, ◌<◌, ◌≤◌}
use mathlib.Core.Path.{◌≡◌}
use mathlib.Core.Bool.{Bool}
use mathlib.Core.Logic.{◌⊎◌}
use mathlib.Core.Option.{Option, some}
use mizzle.Base.Tests.{◌==◌}
use mizzle.Base.ByteStrings.{Bytes, AreBytes}
use mizzle.Base.Lists.{length, All}

abbrev pub ObjectId : Type 0
ObjectId = ℕ

abbrev pub null_oid : ObjectId
null_oid = 0

abbrev pub is_null : ObjectId → Bool
is_null oid = oid == 0

-- An id has 20 bytes, so 160 bits.
abbrev pub IsObjectId : ObjectId → Type 0
IsObjectId oid = oid < 2 ^ 160

-- `as_bytes` and `try_from(&[u8])`: an id is read back from its 20 bytes, and from no others.
pub record OidCodec : Type 0 where
  pub as_bytes : ObjectId → Bytes
  pub try_from : Bytes → Option ObjectId
  pub length-as_bytes : (oid : ObjectId) → length (as_bytes oid) ≡ 20
  pub AreBytes-as_bytes : (oid : ObjectId) → AreBytes (as_bytes oid)
  pub try_from-as_bytes : (oid : ObjectId) → IsObjectId oid → try_from (as_bytes oid) ≡ some oid
  pub as_bytes-try_from :
      (bs : Bytes) (oid : ObjectId) → try_from bs ≡ some oid → (as_bytes oid ≡ bs) × IsObjectId oid

-- A digit that `to_hex` writes.
abbrev pub IsHexDigit : ℕ → Type 0
IsHexDigit b = ((48 ≤ b) × (b ≤ 57)) ⊎ ((97 ≤ b) × (b ≤ 102))

-- `to_hex` and `from_hex`: the hex digits of an id are read back as the id.
pub record OidHex : Type 0 where
  pub to_hex : ObjectId → Bytes
  pub from_hex : Bytes → Option ObjectId
  pub AreDigits-to_hex : (oid : ObjectId) → All IsHexDigit (to_hex oid)
  pub from_hex-to_hex : (oid : ObjectId) → IsObjectId oid → from_hex (to_hex oid) ≡ some oid
