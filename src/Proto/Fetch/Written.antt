-- ===== src/Proto/Fetch/Written.antt =====
-- A fetch request as a client writes it, and what `read_fetch_args` reads from it.
use mizzle.Base.{
  ◌+◌, ◌≤◌, Bytes, Bool, true, false, List, [], ◌∷◌, ◌++◌, ◌≡◌, refl, ok, codes, ap, ◌∙◌, OidHex,
  ObjectId, IsObjectId, All, length, length-append, append-nil, map, append_assoc, arith, leb-true,
}
use mizzle.Proto.Limits.{ProtocolLimits}
use mizzle.Proto.Lines.{
  Line, data_line, flush, delimiter, chomp, chomp-newline, skip_till_delimiter-append,
}
use mizzle.Proto.LsRefs.Request.{text_line, flag_line}
use mizzle.Proto.Fetch.{
  FetchArgs, no_args, add_want, add_have, read_arg, read_args, read_fetch_args, read_other,
  set_flag,
}

module _ (H : OidHex) (limits : ProtocolLimits) where
  open H use {to_hex}

  abbrev pub want_line : ObjectId → Line
  want_line oid = text_line (codes "want " ++ to_hex oid)

  abbrev pub have_line : ObjectId → Line
  have_line oid = text_line (codes "have " ++ to_hex oid)

  abbrev pub write_fetch : List Bytes → List ObjectId → List ObjectId → Bool → List Line → List Line
  write_fetch capabilities wants haves done rest =
      map data_line capabilities
      ++ delimiter
        ∷ (map want_line wants
            ++ (map have_line haves ++ (flag_line done (codes "done") ++ flush ∷ rest)))

  read_args-want :
      (args : FetchArgs) (oid : ObjectId) (ls : List Line)
      → IsObjectId oid
      → length args.want + 1 ≤ limits.max_wants
      → read_args H limits args (want_line oid ∷ ls)
        ≡ read_args H limits (record args { want = args.want ++ oid ∷ [] }) ls
  unfolding read_args read_arg add_want
  read_args-want args oid ls h k =
      rw
        (
          chomp-newline (codes "want " ++ to_hex oid),
          H.from_hex-to_hex oid h,
          leb-true (length (args.want ++ oid ∷ [])) limits.max_wants
              (omega (arith, length-append args.want (oid ∷ []))),
        )
        refl

  read_args-have :
      (args : FetchArgs) (oid : ObjectId) (ls : List Line)
      → IsObjectId oid
      → length args.have + 1 ≤ limits.max_haves
      → read_args H limits args (have_line oid ∷ ls)
        ≡ read_args H limits (record args { have = args.have ++ oid ∷ [] }) ls
  unfolding read_args read_arg add_have
  read_args-have args oid ls h k =
      rw
        (
          chomp-newline (codes "have " ++ to_hex oid),
          H.from_hex-to_hex oid h,
          leb-true (length (args.have ++ oid ∷ [])) limits.max_haves
              (omega (arith, length-append args.have (oid ∷ []))),
        )
        refl

  wants_read :
      (args : FetchArgs) (wants : List ObjectId) (ls : List Line)
      → All IsObjectId wants
      → length args.want + length wants ≤ limits.max_wants
      → read_args H limits args (map want_line wants ++ ls)
        ≡ read_args H limits (record args { want = args.want ++ wants }) ls
  wants_read args [] ls h k = rw (append-nil args.want) refl
  wants_read args (oid ∷ wants) ls h k =
      read_args-want args oid (map want_line wants ++ ls) h.0 (omega arith)
      ∙ wants_read (record args { want = args.want ++ oid ∷ [] }) wants ls h.1
          (omega (arith, length-append args.want (oid ∷ [])))
      ∙ rw (append_assoc args.want (oid ∷ []) wants) refl

  haves_read :
      (args : FetchArgs) (haves : List ObjectId) (ls : List Line)
      → All IsObjectId haves
      → length args.have + length haves ≤ limits.max_haves
      → read_args H limits args (map have_line haves ++ ls)
        ≡ read_args H limits (record args { have = args.have ++ haves }) ls
  haves_read args [] ls h k = rw (append-nil args.have) refl
  haves_read args (oid ∷ haves) ls h k =
      read_args-have args oid (map have_line haves ++ ls) h.0 (omega arith)
      ∙ haves_read (record args { have = args.have ++ oid ∷ [] }) haves ls h.1
          (omega (arith, length-append args.have (oid ∷ [])))
      ∙ rw (append_assoc args.have (oid ∷ []) haves) refl

  done_read :
      (args : FetchArgs) (done : Bool) (rest : List Line)
      → args.done ≡ false
      → read_args H limits args (flag_line done (codes "done") ++ flush ∷ rest)
        ≡ ok (record args { done = done }, rest)
  unfolding read_args read_arg read_other set_flag chomp
  done_read args true rest h = refl
  done_read args false rest h = ap (λ b. ok (record args { done = b }, rest)) h

  -- For wants and haves of 160 bits within the limits, and any capability lines, the request that a
  -- client writes for them is read back as the same wants and haves in their order, with `done` as
  -- it was written, nothing else set, and the input after the request left over.
  pub read_fetch_args-write_fetch :
      (capabilities : List Bytes) (wants haves : List ObjectId) (done : Bool) (rest : List Line)
      → All IsObjectId wants
      → All IsObjectId haves
      → length wants ≤ limits.max_wants
      → length haves ≤ limits.max_haves
      → read_fetch_args H limits (write_fetch capabilities wants haves done rest)
        ≡ ok (record no_args { want = wants; have = haves; done = done }, rest)
  unfolding read_fetch_args
  read_fetch_args-write_fetch capabilities wants haves done rest hw hh kw kh =
      let tail = flag_line done (codes "done") ++ flush ∷ rest in
      rw
        (skip_till_delimiter-append capabilities
          (map want_line wants ++ (map have_line haves ++ tail)))
        (wants_read no_args wants (map have_line haves ++ tail) hw (omega arith)
          ∙ haves_read (record no_args { want = wants }) haves tail hh (omega arith)
          ∙ done_read (record no_args { want = wants; have = haves }) done rest refl)
