-- ===== src/Auth/Signature.antt =====
-- The payload that a signature signs: mizzle/src/sigverify.rs.
pub mod Stripped
pub mod LineStart
use mizzle.Base.{
  ℕ, zero, suc, ◌+◌, ◌-◌, length, take, drop, get_or, Bytes, Bool, true, false, ◌||◌, ◌&&◌, List,
  [], ◌∷◌, ◌++◌, Option, none, some, codes, eq_bytes, starts_with, ◌==◌, if◌then◌else◌,
}
use mizzle.Proto.Lines.{newline, push_front}
use mizzle.Auth.Types.{
  SignatureFormat, open_pgp, ssh, x509_cms, unknown, VerificationKey, VerificationStatus,
  unknown_key, unsupported_format,
}

-- What `SplitLinesKeepTerm` yields: the lines with their newlines.
unfoldable pub split_lines : Bytes → List Bytes
split_lines [] = []
split_lines (b ∷ bs) =
    let rest = split_lines bs in if b == newline then (b ∷ []) ∷ rest else push_front b rest

-- The line between headers and body.
abbrev pub is_boundary : Bytes → Bool
is_boundary line =
    eq_bytes line (newline ∷ []) || (eq_bytes line (13 ∷ newline ∷ []) || eq_bytes line [])

abbrev pub is_gpgsig : Bytes → Bool
is_gpgsig line = starts_with (codes "gpgsig ") line || starts_with (codes "gpgsig-sha256 ") line

-- What the loop does with a line, from `in_body` and `skipping`: what goes to the output, and the
-- two flags afterwards.
unfoldable pub strip_line : Bool → Bool → Bytes → Bytes × Bool × Bool
strip_line true skipping line = (line, true, skipping)
strip_line false skipping line =
    if is_boundary line
    then (line, true, false)
    else if skipping && starts_with (codes " ") line
    then ([], false, true)
    else if is_gpgsig line
    then ([], false, true)
    else (line, false, false)

-- The loop of `strip_gpgsig`.
unfoldable pub strip_lines : Bool → Bool → List Bytes → Bytes
unfolding strip_line
strip_lines in_body skipping [] = []
strip_lines in_body skipping (line ∷ lines) =
    let (out, in_body', skipping') = strip_line in_body skipping line in
    out ++ strip_lines in_body' skipping' lines

unfoldable pub strip_gpgsig : Bytes → Bytes
unfolding split_lines strip_lines
strip_gpgsig raw = strip_lines false false (split_lines raw)

-- A needle, which has at least one byte: `windows` panics for none, and no caller has such a one.
pub record Needle : Type 0 where
  pub first : ℕ
  pub rest : Bytes

abbrev pub needle_bytes : Needle → Bytes
needle_bytes n = n.first ∷ n.rest

-- The first window of a slice that is the needle.
unfoldable pub position : Needle → Bytes → Option ℕ
position needle [] = none
position needle (b ∷ bs) =
    let rest = position needle bs in
    if starts_with (needle_bytes needle) (b ∷ bs)
    then some 0
    else elim rest [ none ↦ none | some i ↦ some (suc i) ]

-- The loop of `find_line_start`, from `search_from` on.
unfoldable pub find_loop : ℕ → Bytes → Needle → ℕ → Option ℕ
unfolding position
find_loop zero haystack needle search_from = none
find_loop (suc fuel) haystack needle search_from =
    elim (position needle (drop search_from haystack)) [
      | none ↦ none
      | some rel ↦
          let pos = search_from + rel in
          let rest = find_loop fuel haystack needle (pos + 1) in
          if (pos == 0) || (get_or haystack (pos - 1) 0 == newline) then some pos else rest
    ]

-- Each round starts further on: one unit of fuel for each byte, and one more.
unfoldable pub find_line_start : Bytes → Needle → Option ℕ
unfolding find_loop
find_line_start haystack needle = find_loop (length haystack + 1) haystack needle 0

-- The loop over the markers.
unfoldable pub strip_at : List Needle → Bytes → Bytes
unfolding find_line_start
strip_at [] raw = raw
strip_at (marker ∷ markers) raw = elim (find_line_start raw marker) [
  | some pos ↦ take pos raw
  | none ↦ strip_at markers raw
]

-- The five dashes of a marker, and what follows them.
abbrev pub dashes : Bytes → Needle
dashes t = record { first = 45; rest = codes "----" ++ t }

abbrev pub tag_markers : List Needle
tag_markers =
    dashes (codes "BEGIN PGP SIGNATURE-----")
    ∷ dashes (codes "BEGIN SSH SIGNATURE-----")
    ∷ dashes (codes "BEGIN SIGNED MESSAGE-----")
    ∷ []

unfoldable pub strip_tag_signature : Bytes → Bytes
unfolding strip_at
strip_tag_signature raw = strip_at tag_markers raw

-- `verify_native`
unfoldable pub verify_native :
    SignatureFormat → Bytes → Bytes → List VerificationKey → VerificationStatus
verify_native unknown signature payload keys = unsupported_format
verify_native format signature payload [] = unknown_key
verify_native format signature payload (k ∷ keys) = unsupported_format
