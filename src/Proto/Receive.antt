-- ===== src/Proto/Receive.antt =====
-- The ref updates at the head of a push, and the header of its pack (mizzle-proto/src/receive.rs).
-- The body is the list of its bytes. The loop takes fuel: `out_of_fuel` is no error of the code, and
-- no body gives it.
pub mod Bounded
use mizzle.Base.Result.{Result}
use mizzle.Base.{
  ℕ, zero, suc, ◌^◌, ◌-◌, Bytes, Bool, true, false, List, [], ◌∷◌, ◌++◌, ok, err, ◌>>=◌, ◌>>◌,
  Option, none, some, codes, eq_bytes, length, take, drop, leb, ltb, if◌then◌else◌, OidHex,
  from_utf8, ◌==◌, ◌&&◌, be_value,
}
use mizzle.Refs.{RefUpdate}
use mizzle.Proto.Limits.{
  ProtoError, ProtocolLimits, unexpected_eof, bad_oid, bad_utf8, bad_number, invalid_length,
  out_of_fuel, check_limit, ref_updates,
}
use mizzle.Proto.Lines.{chomp, cut, space, ok_or}
use mizzle.Proto.Numbers.{from_str_radix}

-- `read_exact`: the next `n` bytes and the rest.
unfoldable pub read_exact : ℕ → Bytes → Result ProtoError (Bytes × Bytes)
read_exact n body =
    if leb n (length body) then ok (take n body, drop n body) else err unexpected_eof

-- The length of a packet line, in hex.
unfoldable pub read_length : Bytes → Result ProtoError ℕ
read_length len_buf = ok_or bad_utf8 (from_utf8 len_buf) >>= λ len_str.
    ok_or bad_number (from_str_radix 16 (2 ^ 64) len_str)

-- On the first line, everything after NUL is capabilities.
abbrev pub strip_capabilities : Bool → Bytes → Bytes
strip_capabilities true d = (cut 0 d).0
strip_capabilities false d = d

abbrev pub after_old : Bytes → Bytes × Option Bytes → Option (Bytes × Bytes × Bytes)
after_old old (new, none) = none
after_old old (new, some name) = some (old, new, name)

abbrev pub after_line : Bytes × Option Bytes → Option (Bytes × Bytes × Bytes)
after_line (old, none) = none
after_line (old, some rest) = after_old old (cut space rest)

-- The three parts of `line.splitn(3, ' ')`, if there are three.
unfoldable pub split_command : Bytes → Option (Bytes × Bytes × Bytes)
split_command line = after_line (cut space line)

-- `data[0..4] == *b"PACK"`, and then the big-endian number in `data[8..12]`.
unfoldable pub pack_object_count : Bytes → Option ℕ
pack_object_count d =
    if leb 12 (length d) && eq_bytes (take 4 d) (codes "PACK")
    then some (be_value 0 (take 4 (drop 8 d)))
    else none

module _ (H : OidHex) (limits : ProtocolLimits) where
  open H use {from_hex}

  unfoldable pub push_update :
      List RefUpdate → Bytes × Bytes × Bytes → Result ProtoError (List RefUpdate)
  push_update updates (old_hex, new_hex, name) = ok_or bad_oid (from_hex old_hex) >>= λ old_oid.
      ok_or bad_oid (from_hex new_hex) >>= λ new_oid. ok_or bad_utf8 (from_utf8 name) >>= λ refname.
      (let updates' =
          updates ++ record { old_oid = old_oid; new_oid = new_oid; refname = refname } ∷ [] in
        check_limit (length updates') limits.max_ref_updates ref_updates >> ok updates')

  -- A line without three parts is skipped.
  unfoldable pub push_parts :
      List RefUpdate → Option (Bytes × Bytes × Bytes) → Result ProtoError (List RefUpdate)
  unfolding push_update
  push_parts updates none = ok updates
  push_parts updates (some parts) = push_update updates parts

  -- The payload of one packet line.
  unfoldable pub read_line : Bool → List RefUpdate → Bytes → Result ProtoError (List RefUpdate)
  unfolding push_parts
  read_line first updates d =
      push_parts updates (split_command (strip_capabilities first (chomp d)))

  unfoldable pub read_updates :
      ℕ → Bool → List RefUpdate → Bytes → Result ProtoError (List RefUpdate × Bytes)
  unfolding read_exact read_length read_line
  read_updates zero first updates body = err out_of_fuel
  read_updates (suc fuel) first updates body = read_exact 4 body >>= λ head.
      read_length head.0 >>= λ len.
      if len == 0
      then ok (updates, head.1)
      else if ltb len 4
      then err (invalid_length len)
      else read_exact (len - 4) head.1 >>= λ payload.
          read_line first updates payload.0 >>= λ updates'.
          read_updates fuel false updates' payload.1

  unfoldable pub read_receive_request : Bytes → Result ProtoError (List RefUpdate × Bytes)
  unfolding read_updates
  read_receive_request body = read_updates (suc (length body)) true [] body
