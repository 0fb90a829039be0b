-- ===== src/Proto/LsRefs/Request.antt =====
-- An `ls-refs` request as a client writes it, and what `read_lsrefs_args` reads from it.
use mizzle.Base.{
  ℕ, ◌+◌, ◌≤◌, Bytes, Bool, true, false, List, [], ◌∷◌, ◌++◌, ◌≡◌, refl, ok, err, codes, leb, ◌∙◌,
  leb→le, not_leb, leb-false, Bool-cases, inl, inr, append-nil, leb-true, length, length-append,
  map, append_assoc, arith, if◌then◌else◌,
}
use mizzle.Proto.Limits.{ProtocolLimits, too_many, ref_prefix_lines}
use mizzle.Proto.Lines.{
  Line, data_line, flush, delimiter, newline, chomp, chomp-newline, skip_till_delimiter-append,
}
use mizzle.Proto.LsRefs.{ListRefsArgs, no_args, read_flag, read_arg, read_args, read_lsrefs_args}

abbrev pub text_line : Bytes → Line
text_line d = data_line (d ++ newline ∷ [])

abbrev pub prefix_line : Bytes → Line
prefix_line p = text_line (codes "ref-prefix " ++ p)

abbrev pub flag_line : Bool → Bytes → List Line
flag_line true name = text_line name ∷ []
flag_line false name = []

-- The arguments in the order in which git writes them, and the lines after them.
unfoldable pub write_args : ListRefsArgs → List Line → List Line
write_args args ls =
    flag_line args.peel (codes "peel")
    ++ (flag_line args.symrefs (codes "symrefs")
        ++ (flag_line args.unborn (codes "unborn") ++ (map prefix_line args.prefixes ++ ls)))

unfoldable pub write_request : List Bytes → ListRefsArgs → List Line → List Line
unfolding write_args
write_request capabilities args rest =
    map data_line capabilities ++ delimiter ∷ write_args args (flush ∷ rest)

abbrev pub add_prefix : ListRefsArgs → Bytes → ListRefsArgs
add_prefix args p = record args { prefixes = args.prefixes ++ p ∷ [] }

read_args-prefix :
    (limits : ProtocolLimits) (args : ListRefsArgs) (p : Bytes) (ls : List Line)
    → read_args limits args (prefix_line p ∷ ls) ≡ (
        if leb (length args.prefixes + 1) limits.max_ref_prefixes
        then read_args limits (add_prefix args p) ls
        else err (too_many ref_prefix_lines (length args.prefixes + 1) limits.max_ref_prefixes))
unfolding read_args read_arg
read_args-prefix limits args p ls =
    rw (chomp-newline (codes "ref-prefix " ++ p), length-append args.prefixes (p ∷ []))
      (elim (Bool-cases (leb (length args.prefixes + 1) limits.max_ref_prefixes)) [
        | inl e ↦ rw e refl
        | inr e ↦ rw e refl
      ])

at_limit : (a b : ℕ) → a ≤ b → leb (a + 1) b ≡ false → a ≡ b
at_limit a b h e = omega (arith, not_leb _ _ e)

-- The prefixes are read in order, `n` in all; the first one past the limit is an error.
prefixes_read :
    (limits : ProtocolLimits) (args : ListRefsArgs) (ps : List Bytes) (rest : List Line) (n : ℕ)
    → length args.prefixes ≤ limits.max_ref_prefixes
    → n ≡ length args.prefixes + length ps
    → read_args limits args (map prefix_line ps ++ flush ∷ rest) ≡ (
        if leb n limits.max_ref_prefixes
        then ok (record args { prefixes = args.prefixes ++ ps }, rest)
        else err (too_many ref_prefix_lines (limits.max_ref_prefixes + 1) limits.max_ref_prefixes))
unfolding read_args
prefixes_read limits args [] rest n h k =
    rw (append-nil args.prefixes, leb-true n limits.max_ref_prefixes (omega arith)) refl
prefixes_read limits args (p ∷ ps) rest n h k =
    elim (Bool-cases (leb (length args.prefixes + 1) limits.max_ref_prefixes)) [
      | inl e ↦
          read_args-prefix limits args p (map prefix_line ps ++ flush ∷ rest)
          ∙ rw e (
              prefixes_read limits (add_prefix args p) ps rest n
                (omega (arith, leb→le _ _ e, length-append args.prefixes (p ∷ [])))
                (omega (arith, length-append args.prefixes (p ∷ [])))
              ∙ rw (append_assoc args.prefixes (p ∷ []) ps) refl)
      | inr e ↦
          read_args-prefix limits args p (map prefix_line ps ++ flush ∷ rest)
          ∙ rw e (
              rw
                (
                  leb-false n limits.max_ref_prefixes (omega (arith, not_leb _ _ e)),
                  at_limit (length args.prefixes) limits.max_ref_prefixes h e,
                )
                refl)
    ]

flags_read :
    (limits : ProtocolLimits) (peel symrefs unborn : Bool) (ls : List Line)
    → read_args limits no_args (
        flag_line peel (codes "peel")
        ++ (flag_line symrefs (codes "symrefs") ++ (flag_line unborn (codes "unborn") ++ ls)))
      ≡ read_args limits
          (record { symrefs = symrefs; peel = peel; prefixes = []; unborn = unborn })
          ls
unfolding read_args read_arg read_flag chomp
flags_read limits true true true ls = refl
flags_read limits true true false ls = refl
flags_read limits true false true ls = refl
flags_read limits true false false ls = refl
flags_read limits false true true ls = refl
flags_read limits false true false ls = refl
flags_read limits false false true ls = refl
flags_read limits false false false ls = refl

-- For any capability lines and arguments, the request that a client writes for the arguments is
-- read back as them, with the input after it left over, when the limit allows its `ref-prefix`
-- lines; and otherwise it is refused at the first line above the limit.
pub read_lsrefs_args-write_request :
    (limits : ProtocolLimits) (capabilities : List Bytes) (args : ListRefsArgs) (rest : List Line)
    → read_lsrefs_args (write_request capabilities args rest) limits ≡ (
        if leb (length args.prefixes) limits.max_ref_prefixes
        then ok (args, rest)
        else err (too_many ref_prefix_lines (limits.max_ref_prefixes + 1) limits.max_ref_prefixes))
unfolding read_lsrefs_args write_request write_args
read_lsrefs_args-write_request limits capabilities args rest =
    rw (skip_till_delimiter-append capabilities (write_args args (flush ∷ rest))) (
      flags_read limits args.peel args.symrefs args.unborn
        (map prefix_line args.prefixes ++ flush ∷ rest)
      ∙ prefixes_read limits (record args { prefixes = [] }) args.prefixes rest
          (length args.prefixes) (omega arith) (omega arith))
