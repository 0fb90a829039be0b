-- ===== src/Proto/Receive/Bounded.antt =====
-- What `read_receive_request` returns: it always ends, it keeps to the limit, and it hands on a
-- suffix of the body.
use mizzle.Base.Result.{Result}
use mizzle.Base.{
  ℕ, zero, suc, ◌-◌, ◌+◌, ◌<◌, ◌≤◌, ◌^◌, Bytes, Bool, true, false, List, [], ◌∷◌, ◌++◌, ok, err,
  ◌>>=◌, length, take, drop, leb, ltb, ◌==◌, ◌≡◌, ◌≢◌, ◌⊎◌, refl, sym, ◌∙◌, OidHex, Option-cases,
  Result-cases, Bool-cases, inl, inr, leb→le, arith, from_utf8, Option, none, some, append_assoc,
  ap, subst,
}
use mizzle.Refs.{RefUpdate}
use mizzle.Proto.Limits.{ProtoError, ProtocolLimits, out_of_fuel, unexpected_eof}
use mizzle.Proto.Lines.{chomp}
use mizzle.Proto.Numbers.{from_str_radix}
use mizzle.Proto.Receive.{
  read_exact, read_length, strip_capabilities, split_command, push_update, push_parts, read_line,
  read_updates, read_receive_request,
}

take-drop {ℓ} : {A : Type ℓ} (n : ℕ) (xs : List A) → take n xs ++ drop n xs ≡ xs
take-drop zero xs = refl
take-drop (suc n) [] = refl
take-drop (suc n) (x ∷ xs) = ap (λ t. x ∷ t) (take-drop n xs)

length-drop {ℓ} :
    {A : Type ℓ} (n : ℕ) (xs : List A) → n ≤ length xs → length (drop n xs) + n ≡ length xs
length-drop zero xs h = omega arith
length-drop (suc n) [] h = absurd (omega arith)
length-drop (suc n) (x ∷ xs) h = omega (arith, length-drop n xs (omega arith))

-- A read succeeds with a prefix of `n` bytes and the rest, or it fails with an error of the code.
read_exact-cases :
    (n : ℕ) (body : Bytes)
    → ((read_exact n body ≡ ok (take n body, drop n body))
        × (length (drop n body) + n ≡ length body))
      ⊎ ((e : ProtoError) × (read_exact n body ≡ err e) × (e ≢ out_of_fuel))
unfolding read_exact
read_exact-cases n body = elim (Bool-cases (leb n (length body))) [
  | inl e ↦ inl (rw e refl, length-drop n body (leb→le _ _ e))
  | inr e ↦ inr (unexpected_eof, rw e refl, λ h. cc)
]

-- What a result promises: it is not out of fuel, and an accepted one keeps to the limit and hands
-- on what it has not read.
abbrev pub Sound : ProtocolLimits → Bytes → Result ProtoError (List RefUpdate × Bytes) → Type 0
Sound limits body (ok r) =
    (length r.0 ≤ limits.max_ref_updates) × ((before : Bytes) × (body ≡ before ++ r.1))
Sound limits body (err e) = e ≢ out_of_fuel

abbrev pub LineSound : ProtocolLimits → Result ProtoError (List RefUpdate) → Type 0
LineSound limits (ok us) = length us ≤ limits.max_ref_updates
LineSound limits (err e) = e ≢ out_of_fuel

LineSound-push_update :
    (H : OidHex) (limits : ProtocolLimits) (us : List RefUpdate) (old new name : Bytes)
    → LineSound limits (push_update H limits us (old, new, name))
unfolding push_update
LineSound-push_update H limits us old new name = elim (Option-cases (H.from_hex old)) [
  | inl e ↦ rw e (λ h. cc)
  | inr (o, e) ↦ rw e (elim (Option-cases (H.from_hex new)) [
    | inl e ↦ rw e (λ h. cc)
    | inr (n, e) ↦ rw e (elim (Option-cases (from_utf8 name)) [
      | inl e ↦ rw e (λ h. cc)
      | inr (s, e) ↦
          rw e
            (elim (Bool-cases (
              leb (length (us ++ record { old_oid = o; new_oid = n; refname = s } ∷ []))
                limits.max_ref_updates)) [ inl k ↦ rw k (leb→le _ _ k) | inr k ↦ rw k (λ h. cc) ])
    ])
  ])
]

LineSound-push_parts :
    (H : OidHex) (limits : ProtocolLimits) (us : List RefUpdate)
    (parts : Option (Bytes × Bytes × Bytes))
    → length us ≤ limits.max_ref_updates
    → LineSound limits (push_parts H limits us parts)
unfolding push_parts
LineSound-push_parts H limits us none h = h
LineSound-push_parts H limits us (some (old, new, name)) h =
    LineSound-push_update H limits us old new name

LineSound-read_line :
    (H : OidHex) (limits : ProtocolLimits) (first : Bool) (us : List RefUpdate) (d : Bytes)
    → length us ≤ limits.max_ref_updates
    → LineSound limits (read_line H limits first us d)
unfolding read_line
LineSound-read_line H limits first us d h =
    LineSound-push_parts H limits us (split_command (strip_capabilities first (chomp d))) h

-- A failure is an error of the code.
abbrev pub Coded {ℓ} : {A : Type ℓ} → Result ProtoError A → Type 0
Coded (ok a) = Unit
Coded (err e) = e ≢ out_of_fuel

Coded-read_length : (d : Bytes) → Coded (read_length d)
unfolding read_length
Coded-read_length d = elim (Option-cases (from_utf8 d)) [
  | inl e ↦ rw e (λ h. cc)
  | inr (s, e) ↦ rw e (elim (Option-cases (from_str_radix 16 (2 ^ 64) s)) [
    | inl k ↦ rw k (λ h. cc)
    | inr (n, k) ↦ rw k tt
  ])
]

Sound-suffix :
    (limits : ProtocolLimits) (before body : Bytes) (r : Result ProtoError (List RefUpdate × Bytes))
    → Sound limits body r
    → Sound limits (before ++ body) r
Sound-suffix limits before body (ok r) (h, (more, e)) =
    (h, (before ++ more, ap (λ t. before ++ t) e ∙ sym (append_assoc before more r.1)))
Sound-suffix limits before body (err e) h = h

Sound-drop :
    (limits : ProtocolLimits) (n : ℕ) (body : Bytes)
    (r : Result ProtoError (List RefUpdate × Bytes))
    → Sound limits (drop n body) r
    → Sound limits body r
Sound-drop limits n body r h =
    subst (λ b. Sound limits b r) (take-drop n body)
      (Sound-suffix limits (take n body) (drop n body) r h)

-- The rounds after a line's length, when the next round is sound.
Sound-payload :
    (H : OidHex) (limits : ProtocolLimits) (fuel : ℕ) (first : Bool) (us : List RefUpdate)
    (body : Bytes) (n : ℕ)
    → length us ≤ limits.max_ref_updates
    → length body < fuel
    → ((us' : List RefUpdate) (rest : Bytes)
        → length us' ≤ limits.max_ref_updates
        → length rest < fuel
        → Sound limits rest (read_updates H limits fuel false us' rest))
    → Sound limits body (
        read_exact n body >>= λ payload. read_line H limits first us payload.0 >>= λ us'.
        read_updates H limits fuel false us' payload.1)
Sound-payload H limits fuel first us body n h k next = elim (read_exact-cases n body) [
  | inr (e, eq, coded) ↦ rw eq coded
  | inl (eq, left) ↦ rw eq (
      let line = LineSound-read_line H limits first us (take n body) h in
      elim (Result-cases (read_line H limits first us (take n body))) [
        | inr (x, e) ↦ rw e (rw e at line)
        | inl (us', e) ↦
            rw e (Sound-drop limits n body _ (next us' (drop n body) (rw e at line) (omega arith)))
      ])
]

Sound-read_updates :
    (H : OidHex) (limits : ProtocolLimits) (fuel : ℕ) (first : Bool) (us : List RefUpdate)
    (body : Bytes)
    → length us ≤ limits.max_ref_updates
    → length body < fuel
    → Sound limits body (read_updates H limits fuel first us body)
unfolding read_updates
Sound-read_updates H limits zero first us body h k = absurd (omega arith)
Sound-read_updates H limits (suc fuel) first us body h k = elim (read_exact-cases 4 body) [
  | inr (e, eq, coded) ↦ rw eq coded
  | inl (eq, left) ↦ rw eq (
      let coded = Coded-read_length (take 4 body) in
      elim (Result-cases (read_length (take 4 body))) [
        | inr (x, e) ↦ rw e (rw e at coded)
        | inl (len, e) ↦ rw e (elim (Bool-cases (len == 0)) [
          | inl z ↦ rw z (h, (take 4 body, sym (take-drop 4 body)))
          | inr z ↦ rw z (elim (Bool-cases (ltb len 4)) [
            | inl t ↦ rw t (λ q. cc)
            | inr t ↦ rw t (
                Sound-drop limits 4 body _ (
                  Sound-payload H limits fuel first us (drop 4 body) (len - 4) h (omega arith)
                    (λ us' rest. Sound-read_updates H limits fuel false us' rest)))
          ])
        ])
      ])
]

-- For any body, `read_receive_request` ends without running out of fuel; and where it succeeds, the
-- ref updates are within the limit and the input that it hands on is a suffix of the body.
pub read_receive_request-Sound :
    (H : OidHex) (limits : ProtocolLimits) (body : Bytes)
    → Sound limits body (read_receive_request H limits body)
unfolding read_receive_request
read_receive_request-Sound H limits body =
    Sound-read_updates H limits (suc (length body)) true [] body (omega arith) (omega arith)
