-- ===== src/Base/Utf8.antt =====
-- `std::str::from_utf8` and `String::from_utf8`: which byte strings are UTF-8 (RFC 3629). A Rust
-- string is its bytes, so the conversion itself changes nothing.
use mizzle.Base.Tests.{leb, if◌then◌else◌}
use mizzle.Base.ByteStrings.{Bytes}
use mizzle.Base.Lists.{All}
use Prim.Native.Nat.{ℕ, ◌<◌}
use mathlib.Core.Path.{◌≡◌, refl}
use native.Mathlib.Omega.{arith}
use mathlib.Core.Bool.{Bool, true, false, ◌&&◌}
use mathlib.Core.Option.{Option, none, some}
use mathlib.Core.List.{List, [], ◌∷◌}

abbrev within : ℕ → ℕ → ℕ → Bool
within lo hi b = leb lo b && leb b hi

abbrev tail_byte : ℕ × ℕ
tail_byte = (0x80, 0xBF)

-- The ranges of the bytes that must follow a first byte.
utf8_tail : ℕ → Option (List (ℕ × ℕ))
utf8_tail b =
    if within 0 0x7F b
    then some []
    else if within 0xC2 0xDF b
    then some (tail_byte ∷ [])
    else if within 0xE0 0xE0 b
    then some ((0xA0, 0xBF) ∷ tail_byte ∷ [])
    else if within 0xED 0xED b
    then some ((0x80, 0x9F) ∷ tail_byte ∷ [])
    else if within 0xE1 0xEF b
    then some (tail_byte ∷ tail_byte ∷ [])
    else if within 0xF0 0xF0 b
    then some ((0x90, 0xBF) ∷ tail_byte ∷ tail_byte ∷ [])
    else if within 0xF1 0xF3 b
    then some (tail_byte ∷ tail_byte ∷ tail_byte ∷ [])
    else if within 0xF4 0xF4 b
    then some ((0x80, 0x8F) ∷ tail_byte ∷ tail_byte ∷ [])
    else none

utf8_after : List (ℕ × ℕ) → Bytes → Bool
unfolding utf8_tail
utf8_after [] [] = true
utf8_after (p ∷ ps) [] = false
utf8_after [] (b ∷ bs) = elim (utf8_tail b) [ none ↦ false | some ps ↦ utf8_after ps bs ]
utf8_after ((lo, hi) ∷ ps) (b ∷ bs) = within lo hi b && utf8_after ps bs

unfoldable pub is_utf8 : Bytes → Bool
unfolding utf8_after
is_utf8 = utf8_after []

is_utf8-ascii : (bs : Bytes) → All (λ b. b < 128) bs → is_utf8 bs ≡ true
unfolding is_utf8 utf8_after utf8_tail
is_utf8-ascii [] h = refl
is_utf8-ascii (b ∷ bs) (l, h) = ground (arith, is_utf8-ascii bs h)

unfoldable pub from_utf8 : Bytes → Option Bytes
unfolding is_utf8
from_utf8 bs = if is_utf8 bs then some bs else none

pub from_utf8-ascii : (bs : Bytes) → All (λ b. b < 128) bs → from_utf8 bs ≡ some bs
unfolding from_utf8
from_utf8-ascii bs h = rw (is_utf8-ascii bs h) refl
