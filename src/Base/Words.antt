-- ===== src/Base/Words.antt =====
-- Big-endian encodings: `to_be_bytes` and `from_be_bytes` of the unsigned integers.
use Prim.Native.Nat.{ℕ, zero, suc, ◌+◌, ◌*◌, ◌/◌, ◌%◌, ◌-◌, ◌^◌, ◌<◌, ◌≤◌}
use mathlib.Core.Path.{◌≡◌, refl, ap, ◌∙◌}
use mathlib.Core.List.{[], ◌∷◌, ◌++◌, append-nil, append_assoc}
use native.Mathlib.Omega.{arith}
use mizzle.Base.Lists.{length, length-append, All-append}
use native.Mathlib.Nat.{zero-add, pow-suc}
use mathlib.Core.Bool.{true, false, ◌&&◌}
use mizzle.Base.Tests.{ltb, ◌==◌, if◌then◌else◌}
use mizzle.Base.ByteStrings.{Bytes, AreBytes, IsByte, eq_bytes, bytes_lt, starts_with}

-- The `w` low bytes of `n`, the most significant first.
unfoldable pub be_bytes : ℕ → ℕ → Bytes
be_bytes zero n = []
be_bytes (suc w) n = be_bytes w (n / 256) ++ (n % 256) ∷ []

unfoldable pub be_value : ℕ → Bytes → ℕ
be_value acc [] = acc
be_value acc (b ∷ bs) = be_value (acc * 256 + b) bs

pub length-be_bytes : (w n : ℕ) → length (be_bytes w n) ≡ w
unfolding be_bytes
length-be_bytes zero n = refl
length-be_bytes (suc w) n =
    omega
      (arith, length-be_bytes w (n / 256), length-append (be_bytes w (n / 256)) ((n % 256) ∷ []))

pub AreBytes-be_bytes : (w n : ℕ) → AreBytes (be_bytes w n)
unfolding be_bytes
AreBytes-be_bytes zero n = tt
AreBytes-be_bytes (suc w) n =
    All-append IsByte (be_bytes w (n / 256)) ((n % 256) ∷ []) (AreBytes-be_bytes w (n / 256))
      (omega arith, tt)

be_value-append :
    (acc : ℕ) (xs : Bytes) (b : ℕ) → be_value acc (xs ++ b ∷ []) ≡ be_value acc xs * 256 + b
unfolding be_value
be_value-append acc [] b = refl
be_value-append acc (x ∷ xs) b = be_value-append (acc * 256 + x) xs b

-- `from_be_bytes` undoes `to_be_bytes` on a value that fits.
pub be_value-be_bytes : (w n : ℕ) → n < 256 ^ w → be_value 0 (be_bytes w n) ≡ n
unfolding be_bytes be_value
be_value-be_bytes zero n h = omega arith
be_value-be_bytes (suc w) n h = omega (
  arith,
  be_value-append 0 (be_bytes w (n / 256)) (n % 256),
  be_value-be_bytes w (n / 256) (omega arith),
)

bytes_lt-concat :
    (xs ys : Bytes) (a b : ℕ)
    → length xs ≡ length ys
    → bytes_lt (xs ++ a ∷ []) (ys ++ b ∷ [])
      ≡ (if bytes_lt xs ys then true else if eq_bytes xs ys then ltb a b else false)
bytes_lt-concat [] [] a b h = ground arith
bytes_lt-concat [] (y ∷ ys) a b h = absurd (omega arith)
bytes_lt-concat (x ∷ xs) [] a b h = absurd (omega arith)
bytes_lt-concat (x ∷ xs) (y ∷ ys) a b h = ground (arith, bytes_lt-concat xs ys a b)

pub eq_bytes-append :
    (xs ys xt yt : Bytes)
    → length xs ≡ length ys
    → eq_bytes (xs ++ xt) (ys ++ yt) ≡ (eq_bytes xs ys && eq_bytes xt yt)
eq_bytes-append [] [] xt yt h = refl
eq_bytes-append [] (y ∷ ys) xt yt h = absurd (omega arith)
eq_bytes-append (x ∷ xs) [] xt yt h = absurd (omega arith)
eq_bytes-append (x ∷ xs) (y ∷ ys) xt yt h = ground (arith, eq_bytes-append xs ys xt yt)

pub starts_with-eq_length :
    (p q k : Bytes) → length p ≡ length q → starts_with p (q ++ k) ≡ eq_bytes p q
starts_with-eq_length [] [] k h = refl
starts_with-eq_length [] (y ∷ q) k h = absurd (omega arith)
starts_with-eq_length (x ∷ p) [] k h = absurd (omega arith)
starts_with-eq_length (x ∷ p) (y ∷ q) k h = ground (arith, starts_with-eq_length p q k)

same_length : (w m n : ℕ) → length (be_bytes w m) ≡ length (be_bytes w n)
same_length w m n = omega (arith, length-be_bytes w m, length-be_bytes w n)

-- Equal encodings of one width are encodings of equal values.
pub eq_bytes-be_bytes :
    (w m n : ℕ) → m < 256 ^ w → n < 256 ^ w → eq_bytes (be_bytes w m) (be_bytes w n) ≡ (m == n)
unfolding be_bytes
eq_bytes-be_bytes zero m n hm hn = ground arith
eq_bytes-be_bytes (suc w) m n hm hn =
    rw (eq_bytes-append _ _ _ _ (same_length w (m / 256) (n / 256)))
      (rw (eq_bytes-be_bytes w (m / 256) (n / 256) (omega arith) (omega arith)) (ground arith))

-- The byte order of encodings of one width is the order of the values.
pub bytes_lt-be_bytes :
    (w m n : ℕ) → m < 256 ^ w → n < 256 ^ w → bytes_lt (be_bytes w m) (be_bytes w n) ≡ ltb m n
unfolding be_bytes
bytes_lt-be_bytes zero m n hm hn = ground arith
bytes_lt-be_bytes (suc w) m n hm hn =
    rw (bytes_lt-concat _ _ _ _ (same_length w (m / 256) (n / 256))) (
      rw
        (
          bytes_lt-be_bytes w (m / 256) (n / 256) (omega arith) (omega arith),
          eq_bytes-be_bytes w (m / 256) (n / 256) (omega arith) (omega arith),
        )
        (ground arith))

be_bytes-add :
    (w acc : ℕ) (bs : Bytes)
    → AreBytes bs
    → be_bytes (length bs + w) (be_value acc bs) ≡ be_bytes w acc ++ bs
unfolding be_bytes be_value
be_bytes-add w acc [] h = rw (zero-add, append-nil)
be_bytes-add w acc (b ∷ bs) h =
    let shift : suc (length bs) + w ≡ length bs + suc w = omega arith in
    let high : (acc * 256 + b) / 256 ≡ acc = omega arith in
    let low : (acc * 256 + b) % 256 ≡ b = omega arith in
    rw (shift, be_bytes-add (suc w) (acc * 256 + b) bs h.1, be_bytes, high, low, append_assoc)

-- `to_be_bytes` undoes `from_be_bytes`.
pub be_bytes-be_value : (bs : Bytes) → AreBytes bs → be_bytes (length bs) (be_value 0 bs) ≡ bs
be_bytes-be_value bs h =
    ap (λ n. be_bytes n (be_value 0 bs)) (omega arith)
    ∙ be_bytes-add 0 0 bs h
    ∙ unfold be_bytes in refl

step_bound : (acc b p : ℕ) → b < 256 → (acc * 256 + b + 1) * p ≤ (acc + 1) * (p * 256)
step_bound acc b p h =
    let e : (acc * 256 + b + 1) + (255 - b) ≡ (acc + 1) * 256 = omega arith in
    omega (arith, ap (λ (t : ℕ). t * p) e)

be_value-bound :
    (acc : ℕ) (bs : Bytes) → AreBytes bs → be_value acc bs < (acc + 1) * 256 ^ length bs
unfolding be_value
be_value-bound acc [] h = omega arith
be_value-bound acc (b ∷ bs) h = rw pow-suc (
    omega (
      arith,
      be_value-bound (acc * 256 + b) bs h.1,
      step_bound acc b (256 ^ length bs) (omega arith),
    ))

pub be_value-lt : (bs : Bytes) → AreBytes bs → be_value 0 bs < 256 ^ length bs
be_value-lt bs h = omega (arith, be_value-bound 0 bs h)
