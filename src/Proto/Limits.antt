-- ===== src/Proto/Limits.antt =====
-- Limits on what one request may hold (mizzle-proto/src/limits.rs), and the errors of the parsers.
use mizzle.Base.Result.{Result}
use mizzle.Base.{ℕ, Bytes, ensure, leb}

-- What is counted: the `name` of `check_limit`.
pub data Item : Type 0 where
  ref_updates : Item
  want_lines : Item
  have_lines : Item
  want_ref_lines : Item
  ref_prefix_lines : Item

pub data ProtoError : Type 0 where
  unexpected_eof : ProtoError
  broken_line : ProtoError
  end_before_delimiter : ProtoError
  unexpected_delimiter : ProtoError
  no_data : ProtoError
  expected_command : ProtoError
  unrecognised_command : Bytes → ProtoError
  unrecognised_argument : ProtoError
  unsupported_argument : Bytes → ProtoError
  bad_oid : ProtoError
  bad_utf8 : ProtoError
  bad_number : ProtoError
  deepen_zero : ProtoError
  invalid_length : ℕ → ProtoError
  out_of_fuel : ProtoError
  too_many : Item → ℕ → ℕ → ProtoError

pub record ProtocolLimits : Type 0 where
  pub max_ref_updates : ℕ
  pub max_wants : ℕ
  pub max_haves : ℕ
  pub max_want_refs : ℕ
  pub max_ref_prefixes : ℕ

-- `ProtocolLimits::default`
abbrev pub default_limits : ProtocolLimits
default_limits = record {
  max_ref_updates = 10000;
  max_wants = 100000;
  max_haves = 100000;
  max_want_refs = 10000;
  max_ref_prefixes = 1000;
}

abbrev pub check_limit : ℕ → ℕ → Item → Result ProtoError (Unit {0})
check_limit count max name = ensure (leb count max) (too_many name count max)
