-- ===== src/Proto/Numbers.antt =====
-- `usize::from_str_radix(s, 16)` and `str::parse::<u32>` of Rust's standard library: an optional
-- `+`, then at least one digit, and no value above the type's largest.
use mizzle.Base.{
  ℕ, ◌+◌, ◌-◌, ◌*◌, ◌^◌, Bytes, [], ◌∷◌, Option, none, some, leb, ltb, ◌&&◌, ◌==◌, if◌then◌else◌,
}

-- `char::to_digit`
unfoldable pub to_digit : ℕ → ℕ → Option ℕ
to_digit radix b =
    let value =
      (if leb 48 b && leb b 57
        then b - 48
        else if leb 97 b && leb b 122
        then b - 87
        else if leb 65 b && leb b 90
        then b - 55
        else radix) in
    if ltb value radix then some value else none

-- The digits after those of value `acc`, for a type with `limit` values.
unfoldable pub digits_value : ℕ → ℕ → ℕ → Bytes → Option ℕ
unfolding to_digit
digits_value radix limit acc [] = some acc
digits_value radix limit acc (b ∷ bs) = elim (to_digit radix b) [
  | none ↦ none
  | some d ↦
      let rest = digits_value radix limit (acc * radix + d) bs in
      if ltb (acc * radix + d) limit then rest else none
]

unfoldable pub unsigned_digits : ℕ → ℕ → Bytes → Option ℕ
unfolding digits_value
unsigned_digits radix limit [] = none
unsigned_digits radix limit (b ∷ bs) = digits_value radix limit 0 (b ∷ bs)

unfoldable pub from_str_radix : ℕ → ℕ → Bytes → Option ℕ
unfolding unsigned_digits
from_str_radix radix limit [] = none
from_str_radix radix limit (b ∷ bs) =
    if b == 43 then unsigned_digits radix limit bs else unsigned_digits radix limit (b ∷ bs)

abbrev pub parse_u32 : Bytes → Option ℕ
parse_u32 = from_str_radix 10 (2 ^ 32)
