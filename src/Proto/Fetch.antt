-- ===== src/Proto/Fetch.antt =====
-- The arguments of `fetch`, and the body of a protocol 1 upload-pack request
-- (mizzle-proto/src/fetch.rs, pack.rs).
pub mod Bounded
pub mod Written
use mizzle.Base.Result.{Result}
use mizzle.Base.{
  ℕ, Bytes, Bool, true, false, ◌||◌, List, [], ◌∷◌, ◌++◌, ok, err, ◌>>=◌, ◌>>◌, Option, none, some,
  codes, strip_prefix, starts_with, eq_bytes, length, if◌then◌else◌, ObjectId, OidHex, from_utf8,
  ◌==◌,
}
use mizzle.Proto.Limits.{
  ProtoError, ProtocolLimits, unexpected_eof, broken_line, unexpected_delimiter,
  unrecognised_argument, unsupported_argument, bad_oid, bad_utf8, bad_number, deepen_zero,
  check_limit, want_lines, have_lines, want_ref_lines,
}
use mizzle.Proto.Lines.{
  Line, data_line, flush, delimiter, response_end, broken, chomp, cut, split, space, ok_or,
  skip_till_delimiter,
}
use mizzle.Proto.Numbers.{parse_u32}

pub record FetchArgs : Type 0 where
  pub want : List ObjectId
  pub want_refs : List Bytes
  pub have : List ObjectId
  pub done : Bool
  pub thin_pack : Bool
  pub no_progress : Bool
  pub include_tag : Bool
  pub ofs_delta : Bool
  pub wait_for_done : Bool
  pub deepen : Option ℕ
  pub filter : Option Bytes

abbrev pub no_args : FetchArgs
no_args = record {
  want = [];
  want_refs = [];
  have = [];
  done = false;
  thin_pack = false;
  no_progress = false;
  include_tag = false;
  ofs_delta = false;
  wait_for_done = false;
  deepen = none;
  filter = none;
}

pub data Filter : Type 0 where
  blob_none : Filter
  tree_none : Filter

-- `Filter::parse`
unfoldable pub parse_filter : Bytes → Option Filter
parse_filter spec =
    if eq_bytes spec (codes "blob:none")
    then some blob_none
    else if eq_bytes spec (codes "tree:0")
    then some tree_none
    else none

-- The value of a `deepen` line, which is a UTF-8 text.
unfoldable pub read_depth : Bytes → Result ProtoError ℕ
read_depth text = ok_or bad_utf8 (from_utf8 text) >>= λ s.
    ok_or bad_number (parse_u32 s) >>= λ n. if n == 0 then err deepen_zero else ok n

unfoldable pub set_deepen : FetchArgs → Bytes → Result ProtoError FetchArgs
unfolding read_depth
set_deepen args text = read_depth text >>= λ n. ok (record args { deepen = some n })

unfoldable pub set_filter : FetchArgs → Bytes → Result ProtoError FetchArgs
set_filter args spec = ok_or bad_utf8 (from_utf8 spec) >>= λ s. ok (record args { filter = some s })

unfoldable pub add_want_ref : ProtocolLimits → FetchArgs → Bytes → Result ProtoError FetchArgs
add_want_ref limits args refname = ok_or bad_utf8 (from_utf8 refname) >>= λ s.
    (let want_refs = args.want_refs ++ s ∷ [] in
      check_limit (length want_refs) limits.max_want_refs want_ref_lines
      >> ok (record args { want_refs = want_refs }))

-- The lines that are one word.
unfoldable pub set_flag : FetchArgs → Bytes → Result ProtoError FetchArgs
set_flag args arg =
    if eq_bytes arg (codes "done")
    then ok (record args { done = true })
    else if eq_bytes arg (codes "thin-pack")
    then ok (record args { thin_pack = true })
    else if eq_bytes arg (codes "no-progress")
    then ok (record args { no_progress = true })
    else if eq_bytes arg (codes "include-tag")
    then ok (record args { include_tag = true })
    else if eq_bytes arg (codes "ofs-delta")
    then ok (record args { ofs_delta = true })
    else if eq_bytes arg (codes "wait-for-done")
    then ok (record args { wait_for_done = true })
    else err unrecognised_argument

-- The lines that are refused by name, before the lines of one word.
unfoldable pub read_other : FetchArgs → Bytes → Result ProtoError FetchArgs
unfolding set_flag
read_other args arg =
    if starts_with (codes "deepen-since ") arg
      || starts_with (codes "deepen-not ") arg
      || starts_with (codes "deepen-relative") arg
    then err (unsupported_argument arg)
    else set_flag args arg

-- The capabilities on the first `want` line of protocol 1; others are ignored.
unfoldable pub set_capability : FetchArgs → Bytes → FetchArgs
set_capability args cap =
    if eq_bytes cap (codes "ofs-delta")
    then record args { ofs_delta = true }
    else if eq_bytes cap (codes "thin-pack")
    then record args { thin_pack = true }
    else if eq_bytes cap (codes "no-progress")
    then record args { no_progress = true }
    else if eq_bytes cap (codes "include-tag")
    then record args { include_tag = true }
    else args

unfoldable pub set_capabilities : FetchArgs → List Bytes → FetchArgs
unfolding set_capability
set_capabilities args [] = args
set_capabilities args (cap ∷ caps) = set_capabilities (set_capability args cap) caps

abbrev pub caps_of : Option Bytes → List Bytes
caps_of none = []
caps_of (some caps) = split space caps

-- The line after the flush.
unfoldable pub read_done : FetchArgs → List Line → FetchArgs
read_done args (data_line d ∷ ls) =
    if eq_bytes (chomp d) (codes "done") then record args { done = true } else args
read_done args ls = args

module _ (H : OidHex) (limits : ProtocolLimits) where
  open H use {from_hex}

  unfoldable pub add_want : FetchArgs → Bytes → Result ProtoError FetchArgs
  add_want args hex = ok_or bad_oid (from_hex hex) >>= λ oid.
      (let want = args.want ++ oid ∷ [] in
        check_limit (length want) limits.max_wants want_lines >> ok (record args { want = want }))

  unfoldable pub add_have : FetchArgs → Bytes → Result ProtoError FetchArgs
  add_have args hex = ok_or bad_oid (from_hex hex) >>= λ oid.
      (let have = args.have ++ oid ∷ [] in
        check_limit (length have) limits.max_haves have_lines >> ok (record args { have = have }))

  -- One line of arguments.
  unfoldable pub read_arg : FetchArgs → Bytes → Result ProtoError FetchArgs
  unfolding add_want add_have add_want_ref set_deepen set_filter read_other
  read_arg args arg = elim (strip_prefix (codes "want ") arg) [
    | some oid ↦ add_want args oid
    | none ↦ elim (strip_prefix (codes "have ") arg) [
      | some oid ↦ add_have args oid
      | none ↦ elim (strip_prefix (codes "want-ref ") arg) [
        | some refname ↦ add_want_ref limits args refname
        | none ↦ elim (strip_prefix (codes "deepen ") arg) [
          | some depth ↦ set_deepen args depth
          | none ↦ elim (strip_prefix (codes "filter ") arg) [
            | some spec ↦ set_filter args spec
            | none ↦ read_other args arg
          ]
        ]
      ]
    ]
  ]

  -- The loop over the lines of arguments.
  unfoldable pub read_args : FetchArgs → List Line → Result ProtoError (FetchArgs × List Line)
  unfolding read_arg
  read_args args [] = err unexpected_eof
  read_args args (broken ∷ ls) = err broken_line
  read_args args (response_end ∷ ls) = ok (args, ls)
  read_args args (flush ∷ ls) = ok (args, ls)
  read_args args (delimiter ∷ ls) = err unexpected_delimiter
  read_args args (data_line d ∷ ls) = read_arg args (chomp d) >>= λ args'. read_args args' ls

  unfoldable pub read_fetch_args : List Line → Result ProtoError (FetchArgs × List Line)
  unfolding read_args
  read_fetch_args ls = skip_till_delimiter ls >>= λ rest. read_args no_args rest

  -- A `want` line of protocol 1.
  unfoldable pub add_want_v1 : FetchArgs → Bytes → Result ProtoError FetchArgs
  unfolding split set_capabilities add_want
  add_want_v1 args rest =
      let (oid_bytes, caps_opt) = cut space rest in
      add_want args oid_bytes >>= λ args'. ok (set_capabilities args' (caps_of caps_opt))

  -- One line of a protocol 1 body; unknown lines are ignored.
  unfoldable pub read_arg_v1 : FetchArgs → Bytes → Result ProtoError FetchArgs
  unfolding add_want_v1 add_have set_deepen set_filter
  read_arg_v1 args arg = elim (strip_prefix (codes "want ") arg) [
    | some rest ↦ add_want_v1 args rest
    | none ↦ elim (strip_prefix (codes "have ") arg) [
      | some rest ↦ add_have args rest
      | none ↦ elim (strip_prefix (codes "deepen ") arg) [
        | some depth ↦ set_deepen args depth
        | none ↦ elim (strip_prefix (codes "filter ") arg) [
          | some spec ↦ set_filter args spec
          | none ↦ ok args
        ]
      ]
    ]
  ]

  -- The loop up to the flush; a delimiter and the end of a response are ignored.
  unfoldable pub read_args_v1 : FetchArgs → List Line → Result ProtoError (FetchArgs × List Line)
  unfolding read_arg_v1
  read_args_v1 args [] = err unexpected_eof
  read_args_v1 args (broken ∷ ls) = err broken_line
  read_args_v1 args (flush ∷ ls) = ok (args, ls)
  read_args_v1 args (response_end ∷ ls) = read_args_v1 args ls
  read_args_v1 args (delimiter ∷ ls) = read_args_v1 args ls
  read_args_v1 args (data_line d ∷ ls) =
      read_arg_v1 args (chomp d) >>= λ args'. read_args_v1 args' ls

  unfoldable pub read_fetch_args_v1 : List Line → Result ProtoError FetchArgs
  unfolding read_args_v1 read_done
  read_fetch_args_v1 ls = read_args_v1 no_args ls >>= λ r. ok (read_done r.0 r.1)
