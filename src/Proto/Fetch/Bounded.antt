-- ===== src/Proto/Fetch/Bounded.antt =====
-- What every accepted fetch request keeps to: the limits, and a depth that is not 0.
use mizzle.Base.Result.{Result}
use mizzle.Base.{
  ℕ, ◌≤◌, ◌<◌, Bytes, List, [], ◌∷◌, ◌≡◌, ok, err, Option, none, some, codes, ◌||◌, strip_prefix,
  starts_with, eq_bytes, length, arith, OidHex, subst, Option-cases, Result-cases, Bool-cases, inl,
  inr, leb→le, from_utf8, leb, ◌++◌,
}
use mizzle.Proto.Limits.{ProtoError, ProtocolLimits}
use mizzle.Proto.Lines.{
  Line, data_line, flush, delimiter, response_end, broken, chomp, cut, space, skip_till_delimiter,
}
use mizzle.Proto.Numbers.{parse_u32}
use mizzle.Proto.Fetch.{
  FetchArgs, no_args, add_want, add_have, add_want_ref, set_deepen, read_depth, set_filter,
  set_flag, read_other, read_arg, read_args, read_fetch_args, add_want_v1, read_arg_v1,
  read_args_v1, read_done, read_fetch_args_v1, set_capability, set_capabilities, caps_of,
}

-- A depth is positive.
abbrev pub DepthFits : Option ℕ → Type 0
DepthFits none = Unit
DepthFits (some n) = 0 < n

abbrev pub Bounded : ProtocolLimits → FetchArgs → Type 0
Bounded limits args =
    (length args.want ≤ limits.max_wants)
    × (length args.have ≤ limits.max_haves)
    × (length args.want_refs ≤ limits.max_want_refs)
    × DepthFits args.deepen

-- A step that keeps to the limits where it succeeds.
abbrev pub Keeps : ProtocolLimits → Result ProtoError FetchArgs → Type 0
Keeps limits (ok args) = Bounded limits args
Keeps limits (err e) = Unit

read_depth-positive : (text : Bytes) (n : ℕ) → read_depth text ≡ ok n → 0 < n
unfolding read_depth
read_depth-positive text n h = elim (Option-cases (from_utf8 text)) [
  | inl e ↦ ground arith
  | inr (s, e) ↦ elim (Option-cases (parse_u32 s)) [
    | inl k ↦ ground arith
    | inr (m, k) ↦ ground arith
  ]
]

Bounded-set_capability :
    (limits : ProtocolLimits) (args : FetchArgs) (cap : Bytes)
    → Bounded limits args
    → Bounded limits (set_capability args cap)
unfolding set_capability
Bounded-set_capability limits args cap b = elim (Bool-cases (eq_bytes cap (codes "ofs-delta"))) [
  | inl e ↦ rw e b
  | inr e ↦ rw e (elim (Bool-cases (eq_bytes cap (codes "thin-pack"))) [
    | inl e ↦ rw e b
    | inr e ↦ rw e (elim (Bool-cases (eq_bytes cap (codes "no-progress"))) [
      | inl e ↦ rw e b
      | inr e ↦ rw e (elim (Bool-cases (eq_bytes cap (codes "include-tag"))) [
        | inl e ↦ rw e b
        | inr e ↦ rw e b
      ])
    ])
  ])
]

Bounded-no_args : (limits : ProtocolLimits) → Bounded limits no_args
Bounded-no_args limits = (omega arith, omega arith, omega arith, tt)

module _ (limits : ProtocolLimits) (args : FetchArgs) (b : Bounded limits args) where
  Keeps-set_flag : (arg : Bytes) → Keeps limits (set_flag args arg)
  unfolding set_flag
  Keeps-set_flag arg = elim (Bool-cases (eq_bytes arg (codes "done"))) [
    | inl e ↦ rw e b
    | inr e ↦ rw e (elim (Bool-cases (eq_bytes arg (codes "thin-pack"))) [
      | inl e ↦ rw e b
      | inr e ↦ rw e (elim (Bool-cases (eq_bytes arg (codes "no-progress"))) [
        | inl e ↦ rw e b
        | inr e ↦ rw e (elim (Bool-cases (eq_bytes arg (codes "include-tag"))) [
          | inl e ↦ rw e b
          | inr e ↦ rw e (elim (Bool-cases (eq_bytes arg (codes "ofs-delta"))) [
            | inl e ↦ rw e b
            | inr e ↦ rw e (elim (Bool-cases (eq_bytes arg (codes "wait-for-done"))) [
              | inl e ↦ rw e b
              | inr e ↦ rw e tt
            ])
          ])
        ])
      ])
    ])
  ]

  Keeps-read_other : (arg : Bytes) → Keeps limits (read_other args arg)
  unfolding read_other
  Keeps-read_other arg =
      elim (Bool-cases (
        starts_with (codes "deepen-since ") arg
        || starts_with (codes "deepen-not ") arg
        || starts_with (codes "deepen-relative") arg)) [
          | inl e ↦ rw e tt
          | inr e ↦ rw e (Keeps-set_flag arg)
        ]

  Keeps-set_deepen : (text : Bytes) → Keeps limits (set_deepen args text)
  unfolding set_deepen
  Keeps-set_deepen text = elim (Result-cases (read_depth text)) [
    | inl (n, e) ↦ rw e (b.0, b.1, b.2, read_depth-positive text n e)
    | inr (x, e) ↦ rw e tt
  ]

  Keeps-set_filter : (text : Bytes) → Keeps limits (set_filter args text)
  unfolding set_filter
  Keeps-set_filter text = elim (Option-cases (from_utf8 text)) [
    | inl e ↦ rw e tt
    | inr (s, e) ↦ rw e b
  ]

  Keeps-add_want_ref : (text : Bytes) → Keeps limits (add_want_ref limits args text)
  unfolding add_want_ref
  Keeps-add_want_ref text = elim (Option-cases (from_utf8 text)) [
    | inl e ↦ rw e tt
    | inr (s, e) ↦
        rw e (elim (Bool-cases (leb (length (args.want_refs ++ s ∷ [])) limits.max_want_refs)) [
          | inl k ↦ rw k (b.0, b.1, leb→le _ _ k, b.3)
          | inr k ↦ rw k tt
        ])
  ]

  Keeps-add_want : (H : OidHex) (hex : Bytes) → Keeps limits (add_want H limits args hex)
  unfolding add_want
  Keeps-add_want H hex = elim (Option-cases (H.from_hex hex)) [
    | inl e ↦ rw e tt
    | inr (oid, e) ↦
        rw e (elim (Bool-cases (leb (length (args.want ++ oid ∷ [])) limits.max_wants)) [
          | inl k ↦ rw k (leb→le _ _ k, b.1, b.2, b.3)
          | inr k ↦ rw k tt
        ])
  ]

  Keeps-add_have : (H : OidHex) (hex : Bytes) → Keeps limits (add_have H limits args hex)
  unfolding add_have
  Keeps-add_have H hex = elim (Option-cases (H.from_hex hex)) [
    | inl e ↦ rw e tt
    | inr (oid, e) ↦
        rw e (elim (Bool-cases (leb (length (args.have ++ oid ∷ [])) limits.max_haves)) [
          | inl k ↦ rw k (b.0, leb→le _ _ k, b.2, b.3)
          | inr k ↦ rw k tt
        ])
  ]

  Keeps-read_arg : (H : OidHex) (arg : Bytes) → Keeps limits (read_arg H limits args arg)
  unfolding read_arg
  Keeps-read_arg H arg = elim (Option-cases (strip_prefix (codes "want ") arg)) [
    | inr (x, e) ↦ rw e (Keeps-add_want H x)
    | inl e ↦ rw e (elim (Option-cases (strip_prefix (codes "have ") arg)) [
      | inr (x, e) ↦ rw e (Keeps-add_have H x)
      | inl e ↦ rw e (elim (Option-cases (strip_prefix (codes "want-ref ") arg)) [
        | inr (x, e) ↦ rw e (Keeps-add_want_ref x)
        | inl e ↦ rw e (elim (Option-cases (strip_prefix (codes "deepen ") arg)) [
          | inr (x, e) ↦ rw e (Keeps-set_deepen x)
          | inl e ↦ rw e (elim (Option-cases (strip_prefix (codes "filter ") arg)) [
            | inr (x, e) ↦ rw e (Keeps-set_filter x)
            | inl e ↦ rw e (Keeps-read_other arg)
          ])
        ])
      ])
    ])
  ]

Bounded-set_capabilities :
    (limits : ProtocolLimits) (args : FetchArgs) (caps : List Bytes)
    → Bounded limits args
    → Bounded limits (set_capabilities args caps)
unfolding set_capabilities
Bounded-set_capabilities limits args [] b = b
Bounded-set_capabilities limits args (cap ∷ caps) b =
    Bounded-set_capabilities limits (set_capability args cap) caps
      (Bounded-set_capability limits args cap b)

Keeps-add_want_v1 :
    (H : OidHex) (limits : ProtocolLimits) (args : FetchArgs) (rest : Bytes)
    → Bounded limits args
    → Keeps limits (add_want_v1 H limits args rest)
unfolding add_want_v1
Keeps-add_want_v1 H limits args rest b =
    let before = Keeps-add_want limits args b H (cut space rest).0 in
    elim (Result-cases (add_want H limits args (cut space rest).0)) [
      | inl (args', e) ↦
          rw e (Bounded-set_capabilities limits args' (caps_of (cut space rest).1) (rw e at before))
      | inr (x, e) ↦ rw e tt
    ]

Keeps-read_arg_v1 :
    (H : OidHex) (limits : ProtocolLimits) (args : FetchArgs) (arg : Bytes)
    → Bounded limits args
    → Keeps limits (read_arg_v1 H limits args arg)
unfolding read_arg_v1
Keeps-read_arg_v1 H limits args arg b = elim (Option-cases (strip_prefix (codes "want ") arg)) [
  | inr (x, e) ↦ rw e (Keeps-add_want_v1 H limits args x b)
  | inl e ↦ rw e (elim (Option-cases (strip_prefix (codes "have ") arg)) [
    | inr (x, e) ↦ rw e (Keeps-add_have limits args b H x)
    | inl e ↦ rw e (elim (Option-cases (strip_prefix (codes "deepen ") arg)) [
      | inr (x, e) ↦ rw e (Keeps-set_deepen limits args b x)
      | inl e ↦ rw e (elim (Option-cases (strip_prefix (codes "filter ") arg)) [
        | inr (x, e) ↦ rw e (Keeps-set_filter limits args b x)
        | inl e ↦ rw e b
      ])
    ])
  ])
]

-- The same for a result with the lines left over.
abbrev pub KeepsFirst : ProtocolLimits → Result ProtoError (FetchArgs × List Line) → Type 0
KeepsFirst limits (ok r) = Bounded limits r.0
KeepsFirst limits (err e) = Unit

KeepsFirst-read_args :
    (H : OidHex) (limits : ProtocolLimits) (args : FetchArgs) (ls : List Line)
    → Bounded limits args
    → KeepsFirst limits (read_args H limits args ls)
unfolding read_args
KeepsFirst-read_args H limits args [] b = tt
KeepsFirst-read_args H limits args (broken ∷ ls) b = tt
KeepsFirst-read_args H limits args (response_end ∷ ls) b = b
KeepsFirst-read_args H limits args (flush ∷ ls) b = b
KeepsFirst-read_args H limits args (delimiter ∷ ls) b = tt
KeepsFirst-read_args H limits args (data_line d ∷ ls) b =
    let step = Keeps-read_arg limits args b H (chomp d) in
    elim (Result-cases (read_arg H limits args (chomp d))) [
      | inl (args', e) ↦ rw e (KeepsFirst-read_args H limits args' ls (rw e at step))
      | inr (x, e) ↦ rw e tt
    ]

KeepsFirst-read_args_v1 :
    (H : OidHex) (limits : ProtocolLimits) (args : FetchArgs) (ls : List Line)
    → Bounded limits args
    → KeepsFirst limits (read_args_v1 H limits args ls)
unfolding read_args_v1
KeepsFirst-read_args_v1 H limits args [] b = tt
KeepsFirst-read_args_v1 H limits args (broken ∷ ls) b = tt
KeepsFirst-read_args_v1 H limits args (flush ∷ ls) b = b
KeepsFirst-read_args_v1 H limits args (response_end ∷ ls) b =
    KeepsFirst-read_args_v1 H limits args ls b
KeepsFirst-read_args_v1 H limits args (delimiter ∷ ls) b =
    KeepsFirst-read_args_v1 H limits args ls b
KeepsFirst-read_args_v1 H limits args (data_line d ∷ ls) b =
    let step = Keeps-read_arg_v1 H limits args (chomp d) b in
    elim (Result-cases (read_arg_v1 H limits args (chomp d))) [
      | inl (args', e) ↦ rw e (KeepsFirst-read_args_v1 H limits args' ls (rw e at step))
      | inr (x, e) ↦ rw e tt
    ]

-- For any input that `read_fetch_args` accepts, the numbers of wants, haves and want-refs that it
-- returns are within the limits, and a depth that it returns is not 0.
pub read_fetch_args-Bounded :
    (H : OidHex) (limits : ProtocolLimits) (ls rest : List Line) (args : FetchArgs)
    → read_fetch_args H limits ls ≡ ok (args, rest)
    → Bounded limits args
unfolding read_fetch_args
read_fetch_args-Bounded H limits ls rest args h = elim (Result-cases (skip_till_delimiter ls)) [
  | inl (after, e) ↦
      subst (KeepsFirst limits) (rw e at h)
        (KeepsFirst-read_args H limits no_args after (Bounded-no_args limits))
  | inr (x, e) ↦ (let k = rw e at h in cc)
]

Bounded-read_done :
    (limits : ProtocolLimits) (args : FetchArgs) (ls : List Line)
    → Bounded limits args
    → Bounded limits (read_done args ls)
unfolding read_done
Bounded-read_done limits args [] b = b
Bounded-read_done limits args (data_line d ∷ ls) b =
    elim (Bool-cases (eq_bytes (chomp d) (codes "done"))) [ inl e ↦ rw e b | inr e ↦ rw e b ]
Bounded-read_done limits args (flush ∷ ls) b = b
Bounded-read_done limits args (delimiter ∷ ls) b = b
Bounded-read_done limits args (response_end ∷ ls) b = b
Bounded-read_done limits args (broken ∷ ls) b = b

-- For any input that `read_fetch_args_v1` accepts, the numbers of wants, haves and want-refs that it
-- returns are within the limits, and a depth that it returns is not 0.
pub read_fetch_args_v1-Bounded :
    (H : OidHex) (limits : ProtocolLimits) (ls : List Line) (args : FetchArgs)
    → read_fetch_args_v1 H limits ls ≡ ok args
    → Bounded limits args
unfolding read_fetch_args_v1
read_fetch_args_v1-Bounded H limits ls args h =
    let kept = KeepsFirst-read_args_v1 H limits no_args ls (Bounded-no_args limits) in
    elim (Result-cases (read_args_v1 H limits no_args ls)) [
      | inl (r, e) ↦
          subst (Keeps limits) (rw e at h) (Bounded-read_done limits r.0 r.1 (rw e at kept))
      | inr (x, e) ↦ (let k = rw e at h in cc)
    ]
