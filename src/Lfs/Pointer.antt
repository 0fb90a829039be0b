-- ===== src/Lfs/Pointer.antt =====
-- Pointer blobs of mizzle-proto/src/lfs.rs: `parse_pointer` and `write_pointer`.
use mizzle.Base.{
  ℕ, zero, suc, ◌+◌, ◌/◌, ◌%◌, ◌^◌, Bytes, [], ◌∷◌, ◌++◌, List, Option, none, some, codes,
  strip_prefix, starts_with, eq_bytes, from_utf8, ltb, ◌==◌, ◌&&◌, if◌then◌else◌,
}
use mizzle.Proto.Numbers.{from_str_radix}
use mizzle.Lfs.Oid.{LfsOid, to_hex, from_str}

pub record LfsPointer : Type 0 where
  pub oid : LfsOid
  pub size : ℕ

-- A byte before the lines of what follows it.
abbrev pub cons_first : ℕ → List Bytes → List Bytes
cons_first b [] = (b ∷ []) ∷ []
cons_first b (line ∷ rest) = (b ∷ line) ∷ rest

-- `str::lines`: a line ends at `\n`, with the `\r` just before it left out.
unfoldable pub lines : Bytes → List Bytes
lines [] = []
lines (b ∷ bs) =
    let rest = lines bs in
    if b == 10
    then [] ∷ rest
    else if (b == 13) && starts_with (10 ∷ []) bs
    then rest
    else cons_first b rest

-- `{}` of a `u64`, with fuel for the number of digits.
unfoldable pub decimal : ℕ → ℕ → Bytes
decimal zero n = []
decimal (suc fuel) n =
    let high = decimal fuel (n / 10) in
    if ltb n 10 then (n + 48) ∷ [] else high ++ (n % 10 + 48) ∷ []

abbrev pub version_line : Bytes
version_line = codes "version https://git-lfs.github.com/spec/v1"

abbrev pub parse_u64 : Bytes → Option ℕ
parse_u64 = from_str_radix 10 (2 ^ 64)

abbrev pub pointer : Option LfsOid → Option ℕ → Option LfsPointer
pointer none size = none
pointer (some o) none = none
pointer (some o) (some n) = some (record { oid = o; size = n })

-- The loop over the lines after the first; a later line replaces what an earlier one gave.
unfoldable pub read_fields : List Bytes → Option LfsOid → Option ℕ → Option LfsPointer
read_fields [] oid size = pointer oid size
read_fields (line ∷ rest) oid size = elim (strip_prefix (codes "oid ") line) [
  | some text ↦ read_fields rest (from_str text) size
  | none ↦ elim (strip_prefix (codes "size ") line) [
    | some text ↦ read_fields rest oid (parse_u64 text)
    | none ↦ read_fields rest oid size
  ]
]

abbrev pub read_lines : List Bytes → Option LfsPointer
read_lines [] = none
read_lines (first ∷ rest) = if eq_bytes first version_line then read_fields rest none none else none

unfoldable pub read_text : Option Bytes → Option LfsPointer
unfolding lines read_fields
read_text none = none
read_text (some text) = read_lines (lines text)

unfoldable pub parse_pointer : Bytes → Option LfsPointer
unfolding read_text
parse_pointer blob = read_text (from_utf8 blob)

abbrev pub oid_line : LfsOid → Bytes
oid_line oid = codes "oid " ++ (codes "sha256:" ++ to_hex oid)

-- A `u64` has at most 20 digits.
abbrev pub size_line : ℕ → Bytes
unfolding decimal
size_line size = codes "size " ++ decimal 20 size

unfoldable pub write_pointer : LfsPointer → Bytes
unfolding decimal
write_pointer p = version_line ++ (10 ∷ (oid_line p.oid ++ (10 ∷ (size_line p.size ++ 10 ∷ []))))
