-- ===== src/Lfs/Written.antt =====
-- What `write_pointer` of mizzle-proto/src/lfs.rs writes, read by `parse_pointer`.
use mizzle.Base.{
  ℕ, zero, suc, ◌+◌, ◌-◌, ◌*◌, ◌/◌, ◌%◌, ◌^◌, ◌≤◌, ◌<◌, Bytes, AreBytes, All, All-append, Bool,
  true, ◌&&◌, leb, subst, ap, ◌∙◌, [], ◌∷◌, ◌++◌, some, codes, from_utf8-ascii, Bool-cases, inl,
  inr, ltb, ◌≡◌, refl, arith,
}
use native.Mathlib.Omega.{pow_step}
use mizzle.Proto.Numbers.{to_digit, digits_value, unsigned_digits, from_str_radix}
use mizzle.Lfs.Oid.{LfsOid, IsLfsOid, to_hex, hex_digit, from_str-to_hex}
use mizzle.Lfs.Pointer.{
  LfsPointer, lines, decimal, version_line, read_fields, read_lines, read_text, oid_line, size_line,
  parse_pointer, write_pointer,
}

-- An ASCII byte from `lo` on.
abbrev IsFrom : ℕ → ℕ → Type 0
IsFrom lo b = (lo ≤ b) × (b < 128)

abbrev are_from : ℕ → Bytes → Bool
are_from lo [] = true
are_from lo (b ∷ bs) = leb lo b && (ltb b 128 && are_from lo bs)

are_from-IsFrom : (lo : ℕ) (bs : Bytes) → are_from lo bs ≡ true → All (IsFrom lo) bs
are_from-IsFrom lo [] e = tt
are_from-IsFrom lo (b ∷ bs) e = ((ground arith, ground arith), are_from-IsFrom lo bs (ground arith))

All-map : (P Q : ℕ → Type 0) (bs : Bytes) → ((b : ℕ) → P b → Q b) → All P bs → All Q bs
All-map P Q [] f h = tt
All-map P Q (b ∷ bs) f (p, h) = (f b p, All-map P Q bs f h)

lines-line :
    (line rest : Bytes) → All (IsFrom 32) line → lines (line ++ 10 ∷ rest) ≡ line ∷ lines rest
unfolding lines
lines-line [] rest h = refl
lines-line (b ∷ line) rest ((l, u), h) = ground (arith, lines-line line rest h)

IsFrom-decimal : (fuel n : ℕ) → All (IsFrom 48) (decimal fuel n)
unfolding decimal
IsFrom-decimal zero n = tt
IsFrom-decimal (suc fuel) n = elim (Bool-cases (ltb n 10)) [
  | inl t ↦ simp t (ground arith, tt)
  | inr f ↦ simp f (
      All-append (IsFrom 48) (decimal fuel (n / 10)) _ (IsFrom-decimal fuel (n / 10))
        (ground arith, tt))
]

IsFrom-hex_digit : (d : ℕ) → d < 16 → IsFrom 48 (hex_digit d)
IsFrom-hex_digit d h = ground arith

IsFrom-to_hex : (oid : LfsOid) → AreBytes oid → All (IsFrom 48) (to_hex oid)
unfolding to_hex
IsFrom-to_hex [] h = tt
IsFrom-to_hex (b ∷ bs) (l, h) = (
  IsFrom-hex_digit (b / 16) (omega arith),
  (IsFrom-hex_digit (b % 16) (omega arith), IsFrom-to_hex bs h),
)

-- One more digit.
digits_value-snoc :
    (limit acc v d : ℕ) (bs : Bytes)
    → d < 10
    → v * 10 + d < limit
    → digits_value 10 limit acc bs ≡ some v
    → digits_value 10 limit acc (bs ++ (d + 48) ∷ []) ≡ some (v * 10 + d)
unfolding digits_value to_digit
digits_value-snoc limit acc v d [] h k e = ground arith
digits_value-snoc limit acc v d (b ∷ bs) h k e =
    ground (arith, digits_value-snoc limit (acc * 10 + (b - 48)) v d bs h k)

smaller : (fuel n : ℕ) → n < 10 ^ suc fuel → n / 10 < 10 ^ fuel
smaller fuel n h = let power = pow_step 10 fuel in omega arith

digits_value-decimal :
    (limit fuel n : ℕ)
    → n < limit
    → n < 10 ^ fuel
    → digits_value 10 limit 0 (decimal fuel n) ≡ some n
unfolding decimal digits_value to_digit
digits_value-decimal limit zero n h k = ground arith
digits_value-decimal limit (suc fuel) n h k =
    let high = digits_value-decimal limit fuel (n / 10) (omega arith) (smaller fuel n k) in
    let more =
      digits_value-snoc limit 0 (n / 10) (n % 10) (decimal fuel (n / 10)) (omega arith)
        (omega arith) high in
    let whole : n / 10 * 10 + n % 10 ≡ n = omega arith in ground (arith, more)

-- Digits have no sign before them.
from_str_radix-digits :
    (limit c : ℕ) (bs : Bytes)
    → All (IsFrom 48) (bs ++ c ∷ [])
    → from_str_radix 10 limit (bs ++ c ∷ []) ≡ digits_value 10 limit 0 (bs ++ c ∷ [])
unfolding from_str_radix unsigned_digits
from_str_radix-digits limit c [] ((l, u), h) = ground arith
from_str_radix-digits limit c (b ∷ bs) ((l, u), h) = ground arith

decimal-snoc : (fuel n : ℕ) → (bs : Bytes) × (c : ℕ) × (decimal (suc fuel) n ≡ bs ++ c ∷ [])
unfolding decimal
decimal-snoc fuel n = elim (Bool-cases (ltb n 10)) [
  | inl t ↦ ([], n + 48, simp t refl)
  | inr f ↦ (decimal fuel (n / 10), n % 10 + 48, simp f refl)
]

from_str_radix-decimal :
    (limit fuel n : ℕ)
    → n < limit
    → n < 10 ^ suc fuel
    → from_str_radix 10 limit (decimal (suc fuel) n) ≡ some n
from_str_radix-decimal limit fuel n h k =
    let (bs, c, e) = decimal-snoc fuel n in
    let digits = subst (λ x. All (IsFrom 48) x) e (IsFrom-decimal (suc fuel) n) in
    let value = digits_value-decimal limit (suc fuel) n h k in
    let read = from_str_radix-digits limit c bs digits in cc

-- Three lines.
abbrev three : Bytes → Bytes → Bytes → Bytes
three a b c = a ++ (10 ∷ (b ++ (10 ∷ (c ++ 10 ∷ []))))

lines-three :
    (a b c : Bytes)
    → All (IsFrom 32) a
    → All (IsFrom 32) b
    → All (IsFrom 32) c
    → lines (three a b c) ≡ a ∷ b ∷ c ∷ []
unfolding lines
lines-three a b c ha hb hc =
    rw
      (
        lines-line a (b ++ (10 ∷ (c ++ 10 ∷ []))) ha,
        lines-line b (c ++ 10 ∷ []) hb,
        lines-line c [] hc,
      )
      refl

IsAscii-line :
    (line rest : Bytes)
    → All (IsFrom 32) line
    → All (λ b. b < 128) rest
    → All (λ b. b < 128) (line ++ 10 ∷ rest)
IsAscii-line line rest h k =
    All-append (λ b. b < 128) line (10 ∷ rest)
      (All-map (IsFrom 32) (λ b. b < 128) line (λ b l. l.1) h) (omega arith, k)

parse_pointer-three :
    (a b c : Bytes)
    → All (IsFrom 32) a
    → All (IsFrom 32) b
    → All (IsFrom 32) c
    → parse_pointer (three a b c) ≡ read_lines (a ∷ b ∷ c ∷ [])
unfolding parse_pointer read_text
parse_pointer-three a b c ha hb hc =
    let ascii = IsAscii-line a _ ha (IsAscii-line b _ hb (IsAscii-line c [] hc tt)) in
    ap read_text (from_utf8-ascii (three a b c) ascii) ∙ ap read_lines (lines-three a b c ha hb hc)

-- Text of the format, and then digits.
IsFrom-digits :
    (text digits : Bytes)
    → are_from 32 text ≡ true
    → All (IsFrom 48) digits
    → All (IsFrom 32) (text ++ digits)
IsFrom-digits text digits e h =
    All-append (IsFrom 32) text digits (are_from-IsFrom 32 text e)
      (All-map (IsFrom 48) (IsFrom 32) digits (λ b l. (omega arith, l.1)) h)

-- For a pointer with an id of 32 bytes and a `u64` for size: what `write_pointer` writes is read
-- back as the pointer.
pub parse_pointer-write_pointer :
    (p : LfsPointer) → IsLfsOid p.oid → p.size < 2 ^ 64 → parse_pointer (write_pointer p) ≡ some p
unfolding write_pointer read_fields
parse_pointer-write_pointer p h k =
    let parsed =
      parse_pointer-three version_line (oid_line p.oid) (size_line p.size)
        (are_from-IsFrom 32 version_line refl)
        (IsFrom-digits (codes "oid sha256:") (to_hex p.oid) refl (IsFrom-to_hex p.oid h.1))
        (IsFrom-digits (codes "size ") (decimal 20 p.size) refl (IsFrom-decimal 20 p.size)) in
    let id = from_str-to_hex p.oid h in
    let size = from_str_radix-decimal (2 ^ 64) 19 p.size k (omega arith) in
    rw (parsed, id, size) refl
