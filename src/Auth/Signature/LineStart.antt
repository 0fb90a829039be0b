-- ===== src/Auth/Signature/LineStart.antt =====
-- `find_line_start` finds the first line that starts with the needle.
use mizzle.Base.{
  ℕ, zero, suc, ◌+◌, ◌-◌, ◌<◌, Bytes, Bool, true, false, ◌||◌, ◌&&◌, [], ◌∷◌, ◌++◌, Option, none,
  some, starts_with, ◌==◌, ◌≡◌, refl, sym, ap, ◌∙◌, arith, length, length-append, drop, drop-append,
  get_or, append_assoc, Bool-cases, Option-cases, inl, inr, if◌then◌else◌, subst,
}
use mizzle.Proto.Lines.{newline}
use mizzle.Auth.Signature.{Needle, needle_bytes, position, find_loop, find_line_start}

-- The position of the first line that starts with the needle; the flag says whether a line starts
-- here.
unfoldable pub line_start : Bool → Needle → Bytes → Option ℕ
line_start here needle [] = none
line_start here needle (b ∷ bs) =
    let rest = line_start (b == newline) needle bs in
    if here && starts_with (needle_bytes needle) (b ∷ bs)
    then some 0
    else elim rest [ none ↦ none | some i ↦ some (suc i) ]

abbrev shift : ℕ → Option ℕ → Option ℕ
shift n none = none
shift n (some i) = some (n + i)

-- A line starts at `i`.
abbrev starts_line : Bytes → ℕ → Bool
starts_line h i = (i == 0) || (get_or h (i - 1) 0 == newline)

-- What a round does with the window that it found.
abbrev visit : ℕ → Bytes → Needle → ℕ → Option ℕ → Option ℕ
visit fuel h needle from none = none
visit fuel h needle from (some rel) =
    if starts_line h (from + rel)
    then some (from + rel)
    else find_loop fuel h needle (from + rel + 1)

find_loop-visit :
    (fuel : ℕ) (h : Bytes) (needle : Needle) (from : ℕ) (suf : Bytes)
    → drop from h ≡ suf
    → find_loop (suc fuel) h needle from ≡ visit fuel h needle from (position needle suf)
unfolding find_loop
find_loop-visit fuel h needle from suf e = elim (Option-cases (position needle suf)) [
  | inl k ↦ rw (e, k, find_loop) refl
  | inr (i, k) ↦ rw (e, k, find_loop) refl
]

get_or-append : (pre : Bytes) (b : ℕ) (bs : Bytes) → get_or (pre ++ b ∷ bs) (length pre) 0 ≡ b
get_or-append [] b bs = refl
get_or-append (x ∷ pre) b bs = get_or-append pre b bs

abbrev bump : Option ℕ → Option ℕ
bump none = none
bump (some i) = some (suc i)

position-hit :
    (needle : Needle) (b : ℕ) (bs : Bytes)
    → starts_with (needle_bytes needle) (b ∷ bs) ≡ true
    → position needle (b ∷ bs) ≡ some 0
unfolding position
position-hit needle b bs e = rw (e, position) refl

position-miss :
    (needle : Needle) (b : ℕ) (bs : Bytes)
    → starts_with (needle_bytes needle) (b ∷ bs) ≡ false
    → position needle (b ∷ bs) ≡ bump (position needle bs)
unfolding position
position-miss needle b bs e = elim (Option-cases (position needle bs)) [
  | inl k ↦ rw (e, k, position) refl
  | inr (i, k) ↦ rw (e, k, position) refl
]

line_start-hit :
    (needle : Needle) (b : ℕ) (bs : Bytes)
    → starts_with (needle_bytes needle) (b ∷ bs) ≡ true
    → line_start true needle (b ∷ bs) ≡ some 0
unfolding line_start
line_start-hit needle b bs e = rw (e, line_start) refl

line_start-miss :
    (here : Bool) (needle : Needle) (b : ℕ) (bs : Bytes)
    → (here && starts_with (needle_bytes needle) (b ∷ bs)) ≡ false
    → line_start here needle (b ∷ bs) ≡ bump (line_start (b == newline) needle bs)
unfolding line_start
line_start-miss here needle b bs e = elim (Option-cases (line_start (b == newline) needle bs)) [
  | inl k ↦ rw (e, k, line_start) refl
  | inr (i, k) ↦ rw (e, k, line_start) refl
]

shift-bump : (n : ℕ) (o : Option ℕ) → shift (n + 1) o ≡ shift n (bump o)
shift-bump n none = refl
shift-bump n (some i) = ap some (omega arith)

-- A round that starts one byte further on finds the same window.
visit-bump :
    (fuel : ℕ) (h : Bytes) (needle : Needle) (from : ℕ) (o : Option ℕ)
    → visit fuel h needle from (bump o) ≡ visit fuel h needle (from + 1) o
visit-bump fuel h needle from none = refl
visit-bump fuel h needle from (some i) =
    ap (λ p. if starts_line h p then some p else find_loop fuel h needle (p + 1)) (omega arith)

line_ends :
    (pre : Bytes) (b : ℕ) (bs h : Bytes)
    → h ≡ pre ++ b ∷ bs
    → starts_line h (length pre + 1) ≡ (b == newline)
line_ends pre b bs h e =
    let last : length pre + 1 - 1 ≡ length pre = omega arith in
    let some_line : (length pre + 1 == 0) ≡ false = ground arith in
    rw (some_line, last, e, get_or-append pre b bs) refl

-- A round at a window that starts no line, or at none, is a round from the next byte.
past_miss :
    (fuel : ℕ) (h : Bytes) (needle : Needle) (from b : ℕ) (bs : Bytes)
    → drop from h ≡ b ∷ bs
    → drop (from + 1) h ≡ bs
    → starts_with (needle_bytes needle) (b ∷ bs) ≡ false
    → find_loop (suc fuel) h needle from ≡ find_loop (suc fuel) h needle (from + 1)
past_miss fuel h needle from b bs d d' miss =
    find_loop-visit fuel h needle from (b ∷ bs) d
    ∙ ap (visit fuel h needle from) (position-miss needle b bs miss)
    ∙ visit-bump fuel h needle from (position needle bs)
    ∙ sym (find_loop-visit fuel h needle (from + 1) bs d')

at_hit :
    (fuel : ℕ) (h : Bytes) (needle : Needle) (from b : ℕ) (bs : Bytes)
    → drop from h ≡ b ∷ bs
    → starts_with (needle_bytes needle) (b ∷ bs) ≡ true
    → find_loop (suc fuel) h needle from
      ≡ (if starts_line h from then some from else find_loop fuel h needle (from + 1))
at_hit fuel h needle from b bs d hit =
    find_loop-visit fuel h needle from (b ∷ bs) d
    ∙ ap (visit fuel h needle from) (position-hit needle b bs hit)
    ∙ ap (λ p. if starts_line h p then some p else find_loop fuel h needle (p + 1)) (omega arith)

line_start-on :
    (here : Bool) (needle : Needle) (from b : ℕ) (bs : Bytes)
    → (here && starts_with (needle_bytes needle) (b ∷ bs)) ≡ false
    → shift (from + 1) (line_start (b == newline) needle bs)
      ≡ shift from (line_start here needle (b ∷ bs))
line_start-on here needle from b bs e =
    shift-bump from (line_start (b == newline) needle bs)
    ∙ ap (shift from) (sym (line_start-miss here needle b bs e))

found_here :
    (here : Bool) (needle : Needle) (from b : ℕ) (bs : Bytes)
    → here ≡ true
    → starts_with (needle_bytes needle) (b ∷ bs) ≡ true
    → some from ≡ shift from (line_start here needle (b ∷ bs))
found_here here needle from b bs e hit =
    ap some (omega arith)
    ∙ ap (shift from)
        (sym (line_start-hit needle b bs hit) ∙ ap (λ t. line_start t needle (b ∷ bs)) (sym e))

-- The loop, from the end of `pre` on.
find_loop-line_start :
    (needle : Needle) (pre suf h : Bytes) (fuel : ℕ) (here : Bool)
    → h ≡ pre ++ suf
    → length suf < fuel
    → starts_line h (length pre) ≡ here
    → find_loop fuel h needle (length pre) ≡ shift (length pre) (line_start here needle suf)
unfolding line_start position
find_loop-line_start needle pre suf h zero here e k s = absurd (omega arith)
find_loop-line_start needle pre [] h (suc fuel) here e k s =
    find_loop-visit fuel h needle (length pre) []
      (ap (λ t. drop (length pre) t) e ∙ drop-append pre [])
find_loop-line_start needle pre (b ∷ bs) h (suc fuel) here e k s =
    let from = length pre in
    let e' : h ≡ (pre ++ b ∷ []) ++ bs = e ∙ sym (append_assoc pre (b ∷ []) bs) in
    let len : length (pre ++ b ∷ []) ≡ from + 1 = length-append pre (b ∷ []) in
    let next = ap (λ n. starts_line h n) len ∙ line_ends pre b bs h e in
    let d = ap (λ t. drop from t) e ∙ drop-append pre (b ∷ bs) in
    let d' : drop (from + 1) h ≡ bs =
      subst (λ n. drop n h ≡ bs) len
        (ap (λ t. drop (length (pre ++ b ∷ [])) t) e' ∙ drop-append (pre ++ b ∷ []) bs) in
    let on : (f : ℕ)
        → length bs < f
        → find_loop f h needle (from + 1) ≡ shift (from + 1) (line_start (b == newline) needle bs) =
      λ f lt.
        subst (λ n. find_loop f h needle n ≡ shift n (line_start (b == newline) needle bs)) len
          (find_loop-line_start needle (pre ++ b ∷ []) bs h f (b == newline) e' lt next) in
    elim (Bool-cases (starts_with (needle_bytes needle) (b ∷ bs))) [
      | inr miss ↦
          past_miss fuel h needle from b bs d d' miss
          ∙ on (suc fuel) (omega arith)
          ∙ line_start-on here needle from b bs (ground arith)
      | inl hit ↦ at_hit fuel h needle from b bs d hit ∙ (elim (Bool-cases here) [
        | inl line ↦
            ap (λ t. if t then some from else find_loop fuel h needle (from + 1)) (s ∙ line)
            ∙ found_here here needle from b bs line hit
        | inr within ↦
            ap (λ t. if t then some from else find_loop fuel h needle (from + 1)) (s ∙ within)
            ∙ on fuel (omega arith)
            ∙ line_start-on here needle from b bs (ground arith)
      ])
    ]

shift_zero : (o : Option ℕ) → shift 0 o ≡ o
shift_zero none = refl
shift_zero (some i) = ap some (omega arith)

-- For any bytes and a needle of at least one byte, `find_line_start` never runs out of fuel, and gives the position of the
-- first line that starts with the needle, if there is one.
pub find_line_start-line_start :
    (haystack : Bytes) (needle : Needle)
    → find_line_start haystack needle ≡ line_start true needle haystack
unfolding find_line_start
find_line_start-line_start haystack needle =
    find_loop-line_start needle [] haystack haystack (length haystack + 1) true refl (omega arith)
      refl
    ∙ shift_zero (line_start true needle haystack)
