-- ===== src/Tests/Objects.antt =====
-- The theorems on LFS, with a store that remembers sizes, and a pointer.
use mizzle.Base.{
  ℕ, [], ◌∷◌, Option, none, some, ok, codes, ◌≡◌, refl, arith, eq_bytes, eq_bytes_refl, replicate,
  if◌then◌else◌,
}
use mizzle.Lfs.Oid.{LfsOid, to_hex, from_str}
use mizzle.Lfs.Store.{LfsStore, proxy}
use mizzle.Lfs.Batch.{BatchRequestObject}
use mizzle.Lfs.Pointer.{
  LfsPointer, lines, decimal, read_fields, read_text, parse_pointer, write_pointer,
}
use mizzle.Lfs.Written.{parse_pointer-write_pointer}
use mizzle.Base.{from_utf8, ◌++◌}
use mizzle.Proto.Numbers.{from_str_radix}

abbrev Sizes : Type 0
Sizes = LfsOid → Option ℕ

stored :
    (s : Sizes) (oid : LfsOid) (size : ℕ)
    → (if eq_bytes oid oid then some size else s oid) ≡ some size
stored s oid size = rw (eq_bytes_refl oid) refl

abbrev size_store : LfsStore
size_store = record {
  State = Sizes;
  Repo = Unit;
  handle = λ s. ok tt;
  stat = λ s r oid. ok (s oid);
  download_action = λ s r oid size. ok proxy;
  upload_action = λ s r oid size. ok proxy;
  read = λ s r oid. ok [];
  write = λ s r oid size body. ((λ o. if eq_bytes oid o then some size else s o), ok tt);
  authorize_lfs = λ op git_ref. ok tt;
  handle-write = λ s r oid size body e. e;
  stat-write = λ s r oid size body e. (let kept = stored s oid size in rw kept refl);
}

abbrev empty_sizes : Sizes
empty_sizes oid = none

abbrev an_oid : LfsOid
an_oid = replicate 32 171

abbrev an_object : BatchRequestObject
an_object = record { oid = an_oid; size = 5 }

abbrev a_pointer : LfsPointer
a_pointer = record { oid = an_oid; size = 12345 }

parse_pointer-write_pointer_example : parse_pointer (write_pointer a_pointer) ≡ some a_pointer
parse_pointer-write_pointer_example =
    parse_pointer-write_pointer a_pointer (refl, omega arith) (omega arith)

written_size : decimal 20 12345 ≡ codes "12345"
unfolding decimal
written_size = refl

-- A line may end with `\r\n`, and the last one may have no end.
read_ends : lines (codes "a" ++ (13 ∷ 10 ∷ (10 ∷ codes "b"))) ≡ codes "a" ∷ [] ∷ codes "b" ∷ []
unfolding lines
read_ends = refl

-- Another version.
bad_version : parse_pointer (codes "version https://example.com/bad\nsize 1\n") ≡ none
unfolding parse_pointer read_text from_utf8 lines read_fields
bad_version = refl

-- A second `oid` line that is not an id leaves the pointer without one.
second_oid :
    read_fields
      ((codes "oid sha256:" ++ to_hex an_oid) ∷ codes "size 1" ∷ codes "oid x" ∷ [])
      none
      none
    ≡ none
unfolding read_fields to_hex from_str from_str_radix
second_oid = refl
