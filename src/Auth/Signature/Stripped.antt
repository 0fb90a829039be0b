-- ===== src/Auth/Signature/Stripped.antt =====
-- Stripping the signature of a commit gives the commit as it was before it was signed.
use mizzle.Base.{
  ℕ, Bytes, Bool, true, false, List, [], ◌∷◌, ◌++◌, codes, starts_with, ◌==◌, ◌≡◌, refl, ap, ◌∙◌,
  sym, arith, All, All-append, append_assoc, Option, none, some, map, Bool-cases, inl, inr, ◌≢◌,
}
use mizzle.Proto.Lines.{newline, push_front}
use mizzle.Server.Adverts.Read.{Free}
use mizzle.Auth.Signature.{
  split_lines, is_boundary, is_gpgsig, strip_line, strip_lines, strip_gpgsig,
}

-- A line with its newline.
abbrev pub ended : Bytes → Bytes
ended l = l ++ newline ∷ []

abbrev pub unlines : List Bytes → Bytes
unlines [] = []
unlines (l ∷ ls) = l ++ newline ∷ unlines ls

-- The two names of the header.
pub data SignatureHeader : Type 0 where
  gpgsig : SignatureHeader
  gpgsig_sha256 : SignatureHeader

abbrev pub header_name : SignatureHeader → Bytes
header_name gpgsig = codes "gpgsig "
header_name gpgsig_sha256 = codes "gpgsig-sha256 "

-- The lines of a signature header: the first, and those that continue it.
abbrev pub signature_lines : SignatureHeader → Bytes → List Bytes → List Bytes
signature_lines header first more = (header_name header ++ first) ∷ map (λ l. codes " " ++ l) more

-- A signature: the name of its header, its first line and the lines that continue it.
abbrev pub Signature : Type 0
Signature = SignatureHeader × Bytes × List Bytes

abbrev pub lines_of_signature : Option Signature → List Bytes
lines_of_signature none = []
lines_of_signature (some (header, first, more)) = signature_lines header first more

-- No line of a signature has a newline in it.
abbrev pub IsSignature : Option Signature → Type 0
IsSignature none = Unit
IsSignature (some (header, first, more)) = Free newline first × All (Free newline) more

-- A commit object: the lines of its headers, and its message.
abbrev pub write_commit : List Bytes → Bytes → Bytes
write_commit headers message = unlines headers ++ newline ∷ message

-- A header line that is no part of a signature.
abbrev pub IsPlain : Bytes → Type 0
IsPlain l = Free newline l × (is_boundary (ended l) ≡ false) × (is_gpgsig (ended l) ≡ false)

-- The first of the lines, if any, continues no header.
abbrev pub StartsHeader : List Bytes → Type 0
StartsHeader [] = Unit
StartsHeader (l ∷ ls) = starts_with (codes " ") (ended l) ≡ false

split_lines-line :
    (l rest : Bytes)
    → Free newline l
    → split_lines (l ++ newline ∷ rest) ≡ ended l ∷ split_lines rest
unfolding split_lines
split_lines-line [] rest h = refl
split_lines-line (b ∷ l) rest (n, h) = elim (Bool-cases (b == newline)) [
  | inl e ↦ ground arith
  | inr e ↦ rw (e, split_lines, split_lines-line l rest h) refl
]

split_lines-unlines :
    (ls : List Bytes) (rest : Bytes)
    → All (Free newline) ls
    → split_lines (unlines ls ++ rest) ≡ map ended ls ++ split_lines rest
split_lines-unlines [] rest h = refl
split_lines-unlines (l ∷ ls) rest (k, h) =
    rw
      (
        append_assoc l (newline ∷ unlines ls) rest,
        split_lines-line l (unlines ls ++ rest) k,
        split_lines-unlines ls rest h,
      )
      refl

-- The lines, put together.
abbrev join : List Bytes → Bytes
join [] = []
join (l ∷ ls) = l ++ join ls

join-push_front : (b : ℕ) (ls : List Bytes) → join (push_front b ls) ≡ b ∷ join ls
join-push_front b [] = refl
join-push_front b (l ∷ ls) = refl

join-split_lines : (bs : Bytes) → join (split_lines bs) ≡ bs
unfolding split_lines
join-split_lines [] = refl
join-split_lines (b ∷ bs) = elim (Bool-cases (b == newline)) [
  | inl e ↦ rw (e, split_lines) (ap (λ t. b ∷ t) (join-split_lines bs))
  | inr e ↦
      rw (e, split_lines)
        (join-push_front b (split_lines bs) ∙ ap (λ t. b ∷ t) (join-split_lines bs))
]

strip_lines-body : (skipping : Bool) (ls : List Bytes) → strip_lines true skipping ls ≡ join ls
unfolding strip_lines strip_line
strip_lines-body skipping [] = refl
strip_lines-body skipping (l ∷ ls) = ap (λ t. l ++ t) (strip_lines-body skipping ls)

-- The line before the message, and the message.
strip_lines-message :
    (skipping : Bool) (message : Bytes)
    → strip_lines false skipping (split_lines (newline ∷ message)) ≡ newline ∷ message
unfolding strip_lines strip_line split_lines
strip_lines-message skipping message =
    ap (λ t. newline ∷ t) (strip_lines-body false (split_lines message) ∙ join-split_lines message)

strip_lines-plain :
    (hs ls : List Bytes)
    → All IsPlain hs
    → strip_lines false false (map ended hs ++ ls) ≡ unlines hs ++ strip_lines false false ls
unfolding strip_lines strip_line
strip_lines-plain [] ls h = refl
strip_lines-plain (l ∷ hs) ls ((_, b, g), h) =
    rw (b, g, strip_lines, strip_line, strip_lines-plain hs ls h)
      (append_assoc l (newline ∷ []) (unlines hs ++ strip_lines false false ls)
        ∙ sym (append_assoc l (newline ∷ unlines hs) (strip_lines false false ls)))

strip_lines-more :
    (more ls : List Bytes)
    → strip_lines false true (map ended (map (λ l. codes " " ++ l) more) ++ ls)
      ≡ strip_lines false true ls
unfolding strip_lines strip_line
strip_lines-more [] ls = refl
strip_lines-more (l ∷ more) ls = strip_lines-more more ls

strip_lines-signature :
    (header : SignatureHeader) (first : Bytes) (more ls : List Bytes)
    → strip_lines false false (map ended (signature_lines header first more) ++ ls)
      ≡ strip_lines false true ls
unfolding strip_lines strip_line
strip_lines-signature gpgsig first more ls = strip_lines-more more ls
strip_lines-signature gpgsig_sha256 first more ls = strip_lines-more more ls

strip_lines-after :
    (hs : List Bytes) (message : Bytes)
    → All IsPlain hs
    → StartsHeader hs
    → strip_lines false true (map ended hs ++ split_lines (newline ∷ message))
      ≡ unlines hs ++ newline ∷ message
unfolding strip_lines strip_line
strip_lines-after [] message h k = strip_lines-message true message
strip_lines-after (l ∷ hs) message ((_, b, g), h) k =
    rw
      (
        b,
        g,
        k,
        strip_lines,
        strip_line,
        strip_lines-plain hs (split_lines (newline ∷ message)) h,
        strip_lines-message false message,
      )
      (append_assoc l (newline ∷ []) (unlines hs ++ newline ∷ message)
        ∙ sym (append_assoc l (newline ∷ unlines hs) (newline ∷ message)))

Free-plain : (hs : List Bytes) → All IsPlain hs → All (Free newline) hs
Free-plain [] h = tt
Free-plain (l ∷ hs) ((f, _, _), h) = (f, Free-plain hs h)

Free-more :
    (more : List Bytes)
    → All (Free newline) more
    → All (Free newline) (map (λ l. codes " " ++ l) more)
Free-more [] h = tt
Free-more (l ∷ more) (f, h) = (((λ e. omega arith), f), Free-more more h)

Free-name :
    (header : SignatureHeader) (first : Bytes)
    → Free newline first
    → Free newline (header_name header ++ first)
Free-name gpgsig first h = All-append (λ b. b ≢ newline) (codes "gpgsig ") first (omega arith) h
Free-name gpgsig_sha256 first h =
    All-append (λ b. b ≢ newline) (codes "gpgsig-sha256 ") first (omega arith) h

Free-signature :
    (signature : Option Signature)
    → IsSignature signature
    → All (Free newline) (lines_of_signature signature)
Free-signature none h = tt
Free-signature (some (header, first, more)) (f, h) = (Free-name header first f, Free-more more h)

map-append {ℓ ℓ'} :
    {A : Type ℓ} {B : Type ℓ'} (f : A → B) (xs ys : List A)
    → map f (xs ++ ys) ≡ map f xs ++ map f ys
map-append f [] ys = refl
map-append f (x ∷ xs) ys = ap (λ t. f x ∷ t) (map-append f xs ys)

unlines-append : (xs ys : List Bytes) → unlines (xs ++ ys) ≡ unlines xs ++ unlines ys
unlines-append [] ys = refl
unlines-append (l ∷ xs) ys =
    rw (unlines-append xs ys) (sym (append_assoc l (newline ∷ unlines xs) (unlines ys)))

-- The headers after the signature, if there is one, and the message.
strip_lines-rest :
    (signature : Option Signature) (after : List Bytes) (message : Bytes)
    → All IsPlain after
    → StartsHeader after
    → strip_lines false false (
        map ended (lines_of_signature signature)
        ++ (map ended after ++ split_lines (newline ∷ message)))
      ≡ unlines after ++ newline ∷ message
strip_lines-rest none after message h k =
    rw
      (
        strip_lines-plain after (split_lines (newline ∷ message)) h,
        strip_lines-message false message,
      )
      refl
strip_lines-rest (some (header, first, more)) after message h k =
    strip_lines-signature header first more (map ended after ++ split_lines (newline ∷ message))
    ∙ strip_lines-after after message h k

-- For header lines that are no part of a signature, of which those after the signature, if any,
-- start with a header of their own, any message, and any signature or none: from the commit that
-- has the signature between the headers, `strip_gpgsig` gives the commit without it.
pub strip_gpgsig-write_commit :
    (before after : List Bytes) (signature : Option Signature) (message : Bytes)
    → All IsPlain before
    → All IsPlain after
    → StartsHeader after
    → IsSignature signature
    → strip_gpgsig (write_commit (before ++ (lines_of_signature signature ++ after)) message)
      ≡ write_commit (before ++ after) message
unfolding strip_gpgsig
strip_gpgsig-write_commit before after signature message hb ha k hs =
    let sig = lines_of_signature signature in
    let lines = split_lines (newline ∷ message) in
    let free =
      All-append (Free newline) before (sig ++ after) (Free-plain before hb)
        (All-append (Free newline) sig after (Free-signature signature hs) (Free-plain after ha)) in
    rw
      (
        split_lines-unlines (before ++ (sig ++ after)) (newline ∷ message) free,
        map-append ended before (sig ++ after),
        map-append ended sig after,
        append_assoc (map ended before) (map ended sig ++ map ended after) lines,
        append_assoc (map ended sig) (map ended after) lines,
        strip_lines-plain before (map ended sig ++ (map ended after ++ lines)) hb,
        strip_lines-rest signature after message ha k,
        unlines-append before after,
      )
      (sym (append_assoc (unlines before) (unlines after) (newline ∷ message)))
