-- ===== src/Tests/Protocol.antt =====
-- The theorems on requests, with requests as git sends them.
use mizzle.Base.{
  arith, Bytes, List, [], ◌∷◌, ◌++◌, ◌≡◌, refl, true, false, codes, some, ok, from_utf8,
}
use mizzle.Proto.Limits.{default_limits}
use mizzle.Proto.Lines.{Line, flush, delimiter, chomp, skip_till_delimiter}
use mizzle.Proto.Numbers.{from_str_radix}
use mizzle.Proto.LsRefs as LsRefs
use mizzle.Proto.LsRefs.{read_lsrefs_args}
use mizzle.Proto.LsRefs.Request.{write_request, text_line, read_lsrefs_args-write_request}
use mizzle.Proto.Fetch.{FetchArgs, no_args, read_fetch_args, read_fetch_args_v1}
use mizzle.Proto.Fetch.Bounded.{Bounded, read_fetch_args-Bounded}
use mizzle.Proto.Fetch.Written.{write_fetch, read_fetch_args-write_fetch}
use mizzle.Proto.Receive.{read_receive_request, split_command}
use mizzle.Proto.Receive.Bounded.{Sound, read_receive_request-Sound}
use mizzle.Tests.Hex.{sha1_hex, print_hex, parse_hex}

abbrev agent : Bytes
agent = codes "agent=git/2.40.1"

abbrev pub lsrefs_args : LsRefs.ListRefsArgs
lsrefs_args = record {
  symrefs = true;
  peel = true;
  prefixes = codes "refs/heads/" ∷ codes "refs/tags/" ∷ [];
  unborn = false;
}

read_lsrefs_args-write_request_example :
    read_lsrefs_args (write_request (agent ∷ []) lsrefs_args []) default_limits
    ≡ ok (lsrefs_args, [])
read_lsrefs_args-write_request_example =
    read_lsrefs_args-write_request default_limits (agent ∷ []) lsrefs_args []

abbrev fetch_lines : List Line
fetch_lines =
    text_line agent
    ∷ delimiter
    ∷ text_line (codes "want " ++ print_hex 7)
    ∷ text_line (codes "have " ++ print_hex 9)
    ∷ text_line (codes "want-ref refs/heads/main")
    ∷ text_line (codes "deepen 12")
    ∷ text_line (codes "done")
    ∷ flush
    ∷ []

abbrev fetch_args : FetchArgs
fetch_args = record no_args {
  want = 7 ∷ [];
  have = 9 ∷ [];
  want_refs = codes "refs/heads/main" ∷ [];
  deepen = some 12;
  done = true;
}

fetch_run : read_fetch_args sha1_hex default_limits fetch_lines ≡ ok (fetch_args, [])
unfolding read_fetch_args skip_till_delimiter chomp print_hex parse_hex from_utf8 from_str_radix
fetch_run = refl

read_fetch_args-Bounded_example : Bounded default_limits fetch_args
read_fetch_args-Bounded_example =
    read_fetch_args-Bounded sha1_hex default_limits fetch_lines [] fetch_args fetch_run

abbrev v1_lines : List Line
v1_lines =
    text_line (codes "want " ++ (print_hex 7 ++ codes " thin-pack ofs-delta agent=git"))
    ∷ text_line (codes "deepen 3")
    ∷ flush
    ∷ text_line (codes "done")
    ∷ []

abbrev v1_args : FetchArgs
v1_args = record no_args {
  want = 7 ∷ [];
  thin_pack = true;
  ofs_delta = true;
  deepen = some 3;
  done = true;
}

v1_run : read_fetch_args_v1 sha1_hex default_limits v1_lines ≡ ok v1_args
unfolding read_fetch_args_v1 chomp print_hex parse_hex from_utf8 from_str_radix
v1_run = refl

abbrev pub push_body : Bytes
push_body =
    codes "0066"
    ++ (print_hex 0 ++ (codes " " ++ (print_hex 7 ++ codes " refs/heads/main\n0000PACK")))

receive_run :
    read_receive_request sha1_hex default_limits push_body
    ≡ ok (record { old_oid = 0; new_oid = 7; refname = codes "refs/heads/main" } ∷ [], codes "PACK")
unfolding read_receive_request split_command chomp print_hex parse_hex from_utf8 from_str_radix
receive_run = refl

read_receive_request-Sound_example :
    Sound default_limits push_body (read_receive_request sha1_hex default_limits push_body)
read_receive_request-Sound_example = read_receive_request-Sound sha1_hex default_limits push_body

read_fetch_args-write_fetch_example :
    read_fetch_args sha1_hex default_limits
      (write_fetch sha1_hex default_limits (agent ∷ []) (7 ∷ 8 ∷ []) (9 ∷ []) true [])
    ≡ ok (record no_args { want = 7 ∷ 8 ∷ []; have = 9 ∷ []; done = true }, [])
read_fetch_args-write_fetch_example =
    read_fetch_args-write_fetch sha1_hex default_limits (agent ∷ []) (7 ∷ 8 ∷ []) (9 ∷ []) true []
      (omega arith, (omega arith, tt)) (omega arith, tt) (omega arith) (omega arith)
