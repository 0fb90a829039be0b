-- ===== src/Server/Upload/Ends.antt =====
-- A session of upload-pack ends for want of input, and not of fuel.
use mizzle.Base.Result.{Result}
use mizzle.Base.{
  ℕ, zero, suc, ◌+◌, ◌≤◌, ◌<◌, Bytes, List, [], ◌∷◌, ok, err, OidHex, ◌≡◌, ◌≢◌, length, arith,
  subst, Result-cases, inl, inr, leb, Bool-cases, Option-cases, strip_prefix, codes, ◌>>=◌,
}
use mizzle.Proto.Limits.{ProtocolLimits, ProtoError}
use mizzle.Proto.Lines.{
  Line, data_line, flush, delimiter, response_end, broken, chomp, skip_till_delimiter,
}
use mizzle.Proto.Command.{Command, read_command, command_of}
use mizzle.Proto.Command as Commands
use mizzle.Proto.LsRefs as LsRefs
use mizzle.Proto.LsRefs.{ListRefsArgs, read_lsrefs_args}
use mizzle.Proto.Fetch as Fetch
use mizzle.Proto.Fetch.{FetchArgs, read_fetch_args, read_fetch_args_v1}
use mizzle.Server.Policy.{Backend, Access}
use mizzle.Server.Routes.{Services, auto_init_repo}
use mizzle.Server.Fetch.{PackSource, Sent}
use mizzle.Server.Upload.{
  out_of_fuel, Served, go_on, as_served, listed_refs, fetched, serve_commands, serve_v1, serve_v2,
  serve_upload_pack, upload_after_init, serve_version,
}

-- A parser that succeeds leaves at most `n` lines.
abbrev Leaves {ℓ} : {A : Type ℓ} → ℕ → Result ProtoError (A × List Line) → Type 0
Leaves n (ok (a, rest)) = length rest ≤ n
Leaves n (err e) = Unit

Leaves-bind {ℓ ℓ'} :
    {A : Type ℓ} {B : Type ℓ'} (n : ℕ) (r : Result ProtoError A)
    (f : A → Result ProtoError (B × List Line))
    → ((a : A) → Leaves n (f a))
    → Leaves n (r >>= f)
Leaves-bind n (ok a) f h = h a
Leaves-bind n (err e) f h = tt

Leaves-named :
    (n : ℕ) (rest : List Line) (c : Result ProtoError Command)
    → length rest ≤ n
    → Leaves n (elim c [ ok c' ↦ ok (c', rest) | err e ↦ err e ])
Leaves-named n rest (ok c) h = h
Leaves-named n rest (err e) h = tt

-- A command takes a line.
Leaves-command : (l : Line) (ls : List Line) → Leaves (length ls) (read_command (l ∷ ls))
unfolding read_command
Leaves-command broken ls = tt
Leaves-command flush ls = omega arith
Leaves-command delimiter ls = tt
Leaves-command response_end ls = tt
Leaves-command (data_line d) ls = elim (Option-cases (strip_prefix (codes "command=") (chomp d))) [
  | inl e ↦ rw (e, read_command) tt
  | inr (name, e) ↦
      rw (e, read_command) (Leaves-named (length ls) ls (command_of name) (omega arith))
]

Leaves-weaker {ℓ} :
    {A : Type ℓ} (m n : ℕ) (r : Result ProtoError (A × List Line)) → m ≤ n → Leaves m r → Leaves n r
Leaves-weaker m n (ok (a, rest)) h k = omega arith
Leaves-weaker m n (err e) h k = tt

-- The lines that are left after the delimiter.
skip_till_delimiter-Leaves {ℓ} :
    {A : Type ℓ} (ls : List Line) (f : List Line → Result ProtoError (A × List Line))
    → ((rest : List Line) → Leaves (length rest) (f rest))
    → Leaves (length ls) (skip_till_delimiter ls >>= f)
unfolding skip_till_delimiter
skip_till_delimiter-Leaves [] f h = tt
skip_till_delimiter-Leaves (broken ∷ ls) f h = tt
skip_till_delimiter-Leaves (response_end ∷ ls) f h = tt
skip_till_delimiter-Leaves (flush ∷ ls) f h = tt
skip_till_delimiter-Leaves (delimiter ∷ ls) f h =
    Leaves-weaker (length ls) (length (delimiter ∷ ls)) (f ls) (omega arith) (h ls)
skip_till_delimiter-Leaves (data_line d ∷ ls) f h =
    Leaves-weaker (length ls) (length (data_line d ∷ ls)) (skip_till_delimiter ls >>= f)
      (omega arith) (skip_till_delimiter-Leaves ls f h)

abbrev bound_by {ℓ ℓ'} :
    {A : Type ℓ} {B : Type ℓ'} (d : Bytes) (ls : List Line) (r : Result ProtoError A)
    (f : A → Result ProtoError (B × List Line))
    → ((a : A) → Leaves (length ls) (f a))
    → Leaves (length (data_line d ∷ ls)) (r >>= f)
bound_by d ls r f h =
    Leaves-weaker (length ls) (length (data_line d ∷ ls)) (r >>= f) (omega arith)
      (Leaves-bind (length ls) r f h)

lsrefs_left :
    (limits : ProtocolLimits) (args : ListRefsArgs) (ls : List Line)
    → Leaves (length ls) (LsRefs.read_args limits args ls)
unfolding LsRefs.read_args
lsrefs_left limits args [] = tt
lsrefs_left limits args (broken ∷ ls) = tt
lsrefs_left limits args (response_end ∷ ls) = omega arith
lsrefs_left limits args (flush ∷ ls) = omega arith
lsrefs_left limits args (delimiter ∷ ls) = tt
lsrefs_left limits args (data_line d ∷ ls) =
    bound_by d ls (LsRefs.read_arg limits args (chomp d)) (λ a. LsRefs.read_args limits a ls)
      (λ a. lsrefs_left limits a ls)

fetch_left :
    (H : OidHex) (limits : ProtocolLimits) (args : FetchArgs) (ls : List Line)
    → Leaves (length ls) (Fetch.read_args H limits args ls)
unfolding Fetch.read_args
fetch_left H limits args [] = tt
fetch_left H limits args (broken ∷ ls) = tt
fetch_left H limits args (response_end ∷ ls) = omega arith
fetch_left H limits args (flush ∷ ls) = omega arith
fetch_left H limits args (delimiter ∷ ls) = tt
fetch_left H limits args (data_line d ∷ ls) =
    bound_by d ls (Fetch.read_arg H limits args (chomp d)) (λ a. Fetch.read_args H limits a ls)
      (λ a. fetch_left H limits a ls)

read_lsrefs_args-Leaves :
    (limits : ProtocolLimits) (ls : List Line) → Leaves (length ls) (read_lsrefs_args ls limits)
unfolding read_lsrefs_args
read_lsrefs_args-Leaves limits ls =
    skip_till_delimiter-Leaves ls (LsRefs.read_args limits LsRefs.no_args)
      (lsrefs_left limits LsRefs.no_args)

read_fetch_args-Leaves :
    (H : OidHex) (limits : ProtocolLimits) (ls : List Line)
    → Leaves (length ls) (read_fetch_args H limits ls)
unfolding read_fetch_args
read_fetch_args-Leaves H limits ls =
    skip_till_delimiter-Leaves ls (Fetch.read_args H limits Fetch.no_args)
      (fetch_left H limits Fetch.no_args)

next_lt {ℓ} :
    {A : Type ℓ} (l : Line) (ls rest next : List Line) (args : A) (c : Command) (fuel : ℕ)
    → length (l ∷ ls) < suc fuel
    → read_command (l ∷ ls) ≡ ok (c, rest)
    → Leaves (length rest) (ok (args, next))
    → length next < fuel
next_lt l ls rest next args c fuel h e k =
    let left = subst (Leaves (length ls)) e (Leaves-command l ls) in omega arith

-- A session that does not stop for want of fuel.
abbrev pub Fuelled : Served → Type 0
Fuelled out = out.1 ≢ err out_of_fuel

Fuelled-go_on : (a b : Served) → Fuelled a → Fuelled b → Fuelled (go_on a b)
Fuelled-go_on (ps, err e) b h k = h
Fuelled-go_on (ps, ok u) b h k = k

Fuelled-sent : (out : Sent) → Fuelled (as_served out)
Fuelled-sent (ps, err e) = λ h. cc
Fuelled-sent (ps, ok u) = λ h. cc

module _ (H : OidHex) (limits : ProtocolLimits) (B : Backend) (A : Access B.Object) (S : Services B)
    (source : B.State → B.Repo → PackSource) where
  open B use {State, Repo, open_repo, list_refs}

  Fuelled-listed :
      (s : State) (repo : Repo) (args : ListRefsArgs)
      → Fuelled (listed_refs H limits B A S source s repo args)
  Fuelled-listed s repo args = elim (Result-cases (list_refs s repo)) [
    | inl (snapshot, e) ↦ rw (e, listed_refs) (λ h. cc)
    | inr (x, e) ↦ rw (e, listed_refs) (λ h. cc)
  ]

  Fuelled-commands :
      (fuel : ℕ) (s : State) (repo : Repo) (ls : List Line)
      → length ls < fuel
      → Fuelled (serve_commands H limits B A S source fuel s repo ls)
  unfolding serve_commands read_command
  Fuelled-commands zero s repo ls h = omega arith
  Fuelled-commands (suc fuel) s repo [] h = λ e. cc
  Fuelled-commands (suc fuel) s repo (l ∷ ls) h = elim (Result-cases (read_command (l ∷ ls))) [
    | inr (x, e) ↦ rw (e, serve_commands) (λ k. cc)
    | inl ((Commands.empty, rest), e) ↦ rw (e, serve_commands) (λ k. cc)
    | inl ((Commands.list_refs, rest), e) ↦ elim (Result-cases (read_lsrefs_args rest limits)) [
      | inr (x, k) ↦ rw (e, k, serve_commands) (λ q. cc)
      | inl ((args, next), k) ↦
          rw (e, k, serve_commands)
            (Fuelled-go_on (listed_refs H limits B A S source s repo args) _
              (Fuelled-listed s repo args)
              (Fuelled-commands fuel s repo next (
                next_lt l ls rest next args Commands.list_refs fuel h e
                  (subst (Leaves (length rest)) k (read_lsrefs_args-Leaves limits rest)))))
    ]
    | inl ((Commands.fetch, rest), e) ↦ elim (Result-cases (read_fetch_args H limits rest)) [
      | inr (x, k) ↦ rw (e, k, serve_commands) (λ q. cc)
      | inl ((args, next), k) ↦
          rw (e, k, serve_commands)
            (Fuelled-go_on (fetched H limits B A S source s repo args) _ (Fuelled-sent _) (
              Fuelled-commands fuel s repo next (
                next_lt l ls rest next args Commands.fetch fuel h e
                  (subst (Leaves (length rest)) k (read_fetch_args-Leaves H limits rest)))))
    ]
  ]

  Fuelled-v1 :
      (s : State) (repo : Repo) (ls : List Line)
      → Fuelled (serve_v1 H limits B A S source s repo ls)
  unfolding serve_v1
  Fuelled-v1 s repo ls = elim (Result-cases (list_refs s repo)) [
    | inr (x, e) ↦ rw (e, serve_v1) (λ h. cc)
    | inl (snapshot, e) ↦ elim (Result-cases (read_fetch_args_v1 H limits ls)) [
      | inr (x, k) ↦ rw (e, k, serve_v1) (λ h. cc)
      | inl (args, k) ↦ rw (e, k, serve_v1) (Fuelled-sent _)
    ]
  ]

  Fuelled-after_init :
      (version : ℕ) (ls : List Line) (r : State × Result Bytes (Unit {0}))
      → Fuelled (upload_after_init H limits B A S source version ls r).1
  unfolding serve_v2
  Fuelled-after_init version ls (s, err e) = λ h. cc
  Fuelled-after_init version ls (s, ok u) = elim (Result-cases (open_repo s)) [
    | inr (x, e) ↦ rw (e, upload_after_init) (λ h. cc)
    | inl (repo, e) ↦ elim (Bool-cases (leb 2 version)) [
      | inl v ↦
          rw (e, v, upload_after_init, serve_version)
            (Fuelled-commands (length ls + 1) s repo ls (omega arith))
      | inr v ↦ rw (e, v, upload_after_init, serve_version) (Fuelled-v1 s repo ls)
    ]
  ]

  -- For any state, protocol version and input, a session of upload-pack never runs out of fuel: its
  -- loop over commands ends for another reason.
  pub serve_upload_pack-Fuelled :
      (s : State) (version : ℕ) (ls : List Line)
      → Fuelled (serve_upload_pack H limits B A S source s version ls).1
  unfolding serve_upload_pack
  serve_upload_pack-Fuelled s version ls =
      Fuelled-after_init version ls (auto_init_repo H limits B A S s)
