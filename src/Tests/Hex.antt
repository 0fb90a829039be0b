-- ===== src/Tests/Hex.antt =====
-- Ids in hex, 40 lower-case digits, as an instance of `OidHex`.
use mizzle.Base.{
  ℕ, zero, suc, ◌+◌, ◌-◌, ◌*◌, ◌/◌, ◌%◌, ◌^◌, ◌<◌, Bytes, [], ◌∷◌, ◌++◌, ◌≡◌, refl, ◌∙◌, ltb,
  if◌then◌else◌, Bool-cases, inl, inr, arith, All, All-append, IsHexDigit, OidHex, ObjectId,
  IsObjectId, Option, some, none, length, length-append, ◌==◌,
}

abbrev digit : ℕ → ℕ
digit d = if ltb d 10 then d + 48 else d + 87

abbrev undigit : ℕ → ℕ
undigit c = if ltb c 58 then c - 48 else c - 87

undigit-digit : (d : ℕ) → undigit (digit d) ≡ d
undigit-digit d = ground arith

IsHexDigit-digit : (d : ℕ) → d < 16 → IsHexDigit (digit d)
IsHexDigit-digit d h = elim (Bool-cases (ltb d 10)) [
  | inl e ↦ inl (ground arith, ground arith)
  | inr e ↦ inr (ground arith, ground arith)
]

unfoldable digits : ℕ → ℕ → Bytes
digits zero v = []
digits (suc n) v = digits n (v / 16) ++ digit (v % 16) ∷ []

unfoldable value : ℕ → Bytes → ℕ
value acc [] = acc
value acc (c ∷ cs) = value (acc * 16 + undigit c) cs

value-append :
    (acc : ℕ) (xs : Bytes) (c : ℕ) → value acc (xs ++ c ∷ []) ≡ value acc xs * 16 + undigit c
unfolding value
value-append acc [] c = refl
value-append acc (x ∷ xs) c = value-append (acc * 16 + undigit x) xs c

quotient_lt : (v m : ℕ) → v < 16 * m → v / 16 < m
quotient_lt v m h = omega arith

value-digits : (n v : ℕ) → v < 16 ^ n → value 0 (digits n v) ≡ v
unfolding digits value
value-digits zero v h = (omega arith)
value-digits (suc n) v h =
    value-append 0 (digits n (v / 16)) (digit (v % 16))
    ∙ rw (value-digits n (v / 16) (quotient_lt v (16 ^ n) (omega arith)), undigit-digit (v % 16))
        (omega arith)

AreDigits-digits : (n v : ℕ) → All IsHexDigit (digits n v)
unfolding digits
AreDigits-digits zero v = tt
AreDigits-digits (suc n) v =
    All-append IsHexDigit (digits n (v / 16)) (digit (v % 16) ∷ []) (AreDigits-digits n (v / 16))
      (IsHexDigit-digit (v % 16) (omega arith), tt)

length-digits : (n v : ℕ) → length (digits n v) ≡ n
unfolding digits
length-digits zero v = refl
length-digits (suc n) v =
    omega (arith, length-append (digits n (v / 16)) (digit (v % 16) ∷ []), length-digits n (v / 16))

unfoldable pub parse_hex : Bytes → Option ObjectId
unfolding value
parse_hex text = if length text == 40 then some (value 0 text) else none

unfoldable pub print_hex : ObjectId → Bytes
unfolding digits
print_hex oid = digits 40 oid

parse_hex-digits : (oid : ObjectId) → IsObjectId oid → parse_hex (digits 40 oid) ≡ some oid
unfolding parse_hex
parse_hex-digits oid h = rw (length-digits 40 oid, value-digits 40 oid h) refl

pub parse_hex-print_hex : (oid : ObjectId) → IsObjectId oid → parse_hex (print_hex oid) ≡ some oid
unfolding print_hex
parse_hex-print_hex oid h = parse_hex-digits oid h

pub AreDigits-print_hex : (oid : ObjectId) → All IsHexDigit (print_hex oid)
unfolding print_hex
AreDigits-print_hex oid = AreDigits-digits 40 oid

abbrev pub sha1_hex : OidHex
sha1_hex = record {
  to_hex = print_hex;
  from_hex = parse_hex;
  AreDigits-to_hex = AreDigits-print_hex;
  from_hex-to_hex = parse_hex-print_hex;
}
