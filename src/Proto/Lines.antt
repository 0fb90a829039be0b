-- ===== src/Proto/Lines.antt =====
-- What `StreamingPeekableIter::read_line` of gix-packetline yields, line by line: a packet line, or
-- a failure to read or decode one. The end of the list is the end of the input (`None`).
-- `skip_till_delimiter` is mizzle-proto/src/utils.rs.
use mizzle.Base.Result.{Result}
use mizzle.Base.{
  ℕ, Bytes, List, [], ◌∷◌, ◌++◌, ◌≡◌, refl, ap, Option, none, some, ok, err, if◌then◌else◌, ◌==◌,
  map,
}
use mizzle.Proto.Limits.{ProtoError, unexpected_eof, broken_line, end_before_delimiter}

pub data Line : Type 0 where
  data_line : Bytes → Line
  flush : Line
  delimiter : Line
  response_end : Line
  broken : Line

abbrev pub newline : ℕ
newline = 10

-- `d.strip_suffix(b"\n").unwrap_or(d)`
unfoldable pub chomp : Bytes → Bytes
chomp [] = []
chomp (b ∷ []) = if b == newline then [] else b ∷ []
chomp (b ∷ c ∷ d) = b ∷ chomp (c ∷ d)

-- `?` on an optional value.
abbrev pub ok_or {ℓ} : {A : Type ℓ} → ProtoError → Option A → Result ProtoError A
ok_or e none = err e
ok_or e (some a) = ok a

abbrev pub space : ℕ
space = 32

-- The bytes before the first `sep`, and those after it if there is one: `splitn(2, ...)`.
abbrev pub cut : ℕ → Bytes → Bytes × Option Bytes
cut sep [] = ([], none)
cut sep (b ∷ bs) = let rest = cut sep bs in if b == sep then ([], some bs) else (b ∷ rest.0, rest.1)

abbrev pub push_front : ℕ → List Bytes → List Bytes
push_front b [] = (b ∷ []) ∷ []
push_front b (piece ∷ pieces) = (b ∷ piece) ∷ pieces

-- `bytes.split(|&b| b == sep)`: one piece more than there are separators.
unfoldable pub split : ℕ → Bytes → List Bytes
split sep [] = [] ∷ []
split sep (b ∷ bs) = let rest = split sep bs in if b == sep then [] ∷ rest else push_front b rest

unfoldable pub skip_till_delimiter : List Line → Result ProtoError (List Line)
skip_till_delimiter [] = err unexpected_eof
skip_till_delimiter (broken ∷ ls) = err broken_line
skip_till_delimiter (response_end ∷ ls) = err end_before_delimiter
skip_till_delimiter (flush ∷ ls) = err end_before_delimiter
skip_till_delimiter (delimiter ∷ ls) = ok ls
skip_till_delimiter (data_line d ∷ ls) = skip_till_delimiter ls

pub chomp-newline : (d : Bytes) → chomp (d ++ newline ∷ []) ≡ d
unfolding chomp
chomp-newline [] = refl
chomp-newline (b ∷ []) = refl
chomp-newline (b ∷ c ∷ d) = ap (λ t. b ∷ t) (chomp-newline (c ∷ d))

-- Lines of data before a delimiter are skipped with it.
pub skip_till_delimiter-append :
    (ds : List Bytes) (ls : List Line)
    → skip_till_delimiter (map data_line ds ++ delimiter ∷ ls) ≡ ok ls
unfolding skip_till_delimiter
skip_till_delimiter-append [] ls = refl
skip_till_delimiter-append (d ∷ ds) ls = skip_till_delimiter-append ds ls
