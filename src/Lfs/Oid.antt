-- ===== src/Lfs/Oid.antt =====
-- `LfsOid` of mizzle-proto/src/lfs.rs: 32 bytes, and how they are written and read.
use mizzle.Base.{
  ℕ, ◌+◌, ◌-◌, ◌*◌, ◌/◌, ◌%◌, ◌<◌, Bytes, AreBytes, ◌&&◌, [], ◌∷◌, ◌++◌, Option, none, some, codes,
  strip_prefix, ltb, leb, ◌==◌, length, ◌≡◌, refl, arith, if◌then◌else◌,
}

abbrev pub LfsOid : Type 0
LfsOid = Bytes

-- A digit of `{:02x}`.
abbrev pub hex_digit : ℕ → ℕ
hex_digit d = if ltb d 10 then d + 48 else d + 87

unfoldable pub to_hex : LfsOid → Bytes
to_hex [] = []
to_hex (b ∷ bs) = hex_digit (b / 16) ∷ hex_digit (b % 16) ∷ to_hex bs

-- `hex_nibble`; an error is `none`.
unfoldable pub hex_nibble : ℕ → Option ℕ
hex_nibble b =
    if leb 48 b && leb b 57
    then some (b - 48)
    else if leb 97 b && leb b 102
    then some (b - 97 + 10)
    else if leb 65 b && leb b 70
    then some (b - 65 + 10)
    else none

abbrev both : Option ℕ → Option ℕ → Option Bytes → Option Bytes
both (some hi) (some lo) (some rest) = some ((hi * 16 + lo) ∷ rest)
both none lo rest = none
both (some hi) none rest = none
both (some hi) (some lo) none = none

-- The loop over pairs of digits; `(hi << 4) | lo` is `hi * 16 + lo`.
unfoldable pub read_pairs : Bytes → Option Bytes
unfolding hex_nibble
read_pairs [] = some []
read_pairs (a ∷ []) = none
read_pairs (a ∷ b ∷ hex) = both (hex_nibble a) (hex_nibble b) (read_pairs hex)

unfoldable pub from_str : Bytes → Option LfsOid
unfolding read_pairs
from_str s = elim (strip_prefix (codes "sha256:") s) [
  | none ↦ none
  | some hex ↦ if length hex == 64 then read_pairs hex else none
]

-- An id has 32 bytes.
abbrev pub IsLfsOid : LfsOid → Type 0
IsLfsOid oid = (length oid ≡ 32) × AreBytes oid

hex_nibble-hex_digit : (d : ℕ) → d < 16 → hex_nibble (hex_digit d) ≡ some d
unfolding hex_nibble
hex_nibble-hex_digit d h = ground arith

read_pairs-to_hex : (oid : LfsOid) → AreBytes oid → read_pairs (to_hex oid) ≡ some oid
unfolding read_pairs to_hex
read_pairs-to_hex [] h = refl
read_pairs-to_hex (b ∷ bs) (l, h) =
    let byte : b / 16 * 16 + b % 16 ≡ b = omega arith in
    rw
      (
        hex_nibble-hex_digit (b / 16) (omega arith),
        hex_nibble-hex_digit (b % 16) (omega arith),
        read_pairs-to_hex bs h,
        byte,
      )
      refl

length-to_hex : (oid : LfsOid) → length (to_hex oid) ≡ 2 * length oid
unfolding to_hex
length-to_hex [] = refl
length-to_hex (b ∷ bs) = omega (arith, length-to_hex bs)

-- For an id of 32 bytes: its digits after the prefix are read back as the id.
pub from_str-to_hex :
    (oid : LfsOid) → IsLfsOid oid → from_str (codes "sha256:" ++ to_hex oid) ≡ some oid
unfolding from_str
from_str-to_hex oid (l, h) =
    let len : length (to_hex oid) ≡ 64 = omega (arith, length-to_hex oid) in
    rw (len, read_pairs-to_hex oid h) refl
