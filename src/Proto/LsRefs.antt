-- ===== src/Proto/LsRefs.antt =====
-- The arguments of `ls-refs` (mizzle-proto/src/ls_refs.rs).
pub mod Request
use mizzle.Base.Result.{Result}
use mizzle.Base.{
  Bytes, Bool, true, false, List, [], ◌∷◌, ◌++◌, ok, err, ◌>>=◌, ◌>>◌, none, some, codes,
  strip_prefix, eq_bytes, length, if◌then◌else◌,
}
use mizzle.Proto.Limits.{
  ProtoError, ProtocolLimits, unexpected_eof, broken_line, unexpected_delimiter,
  unrecognised_argument, check_limit, ref_prefix_lines,
}
use mizzle.Proto.Lines.{
  Line, data_line, flush, delimiter, response_end, broken, chomp, skip_till_delimiter,
}

pub record ListRefsArgs : Type 0 where
  pub symrefs : Bool
  pub peel : Bool
  pub prefixes : List Bytes
  pub unborn : Bool

abbrev pub no_args : ListRefsArgs
no_args = record { symrefs = false; peel = false; prefixes = []; unborn = false }

-- A line that is no `ref-prefix`.
unfoldable pub read_flag : ListRefsArgs → Bytes → Result ProtoError ListRefsArgs
read_flag args arg =
    if eq_bytes arg (codes "peel")
    then ok (record args { peel = true })
    else if eq_bytes arg (codes "symrefs")
    then ok (record args { symrefs = true })
    else if eq_bytes arg (codes "unborn")
    then ok (record args { unborn = true })
    else err unrecognised_argument

-- One line of arguments.
unfoldable pub read_arg : ProtocolLimits → ListRefsArgs → Bytes → Result ProtoError ListRefsArgs
unfolding read_flag
read_arg limits args arg = elim (strip_prefix (codes "ref-prefix ") arg) [
  | some prefix ↦
      let prefixes = args.prefixes ++ prefix ∷ [] in
      check_limit (length prefixes) limits.max_ref_prefixes ref_prefix_lines
      >> ok (record args { prefixes = prefixes })
  | none ↦ read_flag args arg
]

-- The loop over the lines of arguments.
unfoldable pub read_args :
    ProtocolLimits → ListRefsArgs → List Line → Result ProtoError (ListRefsArgs × List Line)
unfolding read_arg
read_args limits args [] = err unexpected_eof
read_args limits args (broken ∷ ls) = err broken_line
read_args limits args (response_end ∷ ls) = ok (args, ls)
read_args limits args (flush ∷ ls) = ok (args, ls)
read_args limits args (delimiter ∷ ls) = err unexpected_delimiter
read_args limits args (data_line d ∷ ls) =
    read_arg limits args (chomp d) >>= λ args'. read_args limits args' ls

unfoldable pub read_lsrefs_args :
    List Line → ProtocolLimits → Result ProtoError (ListRefsArgs × List Line)
unfolding read_args
read_lsrefs_args ls limits = skip_till_delimiter ls >>= λ rest. read_args limits no_args rest
