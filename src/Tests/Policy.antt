-- ===== src/Tests/Policy.antt =====
-- The theorems on the comparison, over the small history of the graph walks.
use mathlib.Core.Bool.{false≢true}
use mizzle.Base.{
  Bytes, true, List, [], ◌∷◌, ◌++◌, none, some, ok, codes, ObjectId, ◌≡◌, refl, arith, map,
}
use mizzle.Refs.{fast_forward}
use mizzle.Server.Snapshot.{PushRef}
use mizzle.Kv.Graph as Graph
use mizzle.Kv.Graph.Sets.{contains}
use mizzle.Auth.Types.{Identity, CommitInfo, unsigned}
use mizzle.Auth.Signature.{strip_gpgsig}
use mizzle.Auth.Signature.{dashes, find_line_start}
use mizzle.Auth.Signature.LineStart.{line_start, find_line_start-line_start}
use mizzle.Auth.Signature.Stripped.{
  gpgsig, Signature, lines_of_signature, write_commit, strip_gpgsig-write_commit,
}
use mizzle.Auth.Comparison.{
  History, Verifier, Subject, compute_new, compute_dropped, ref_index, check_commit, compute_keys,
  status_of,
}
use mizzle.Auth.Comparison.Cells.{Query, ask_new, ask_verify, listed, ask_all, no_caches}
use mizzle.Auth.Comparison.Cached.{answer, ask_all-answer}
use mizzle.Auth.Comparison.Fresh.{as_walk, IsGraph, Lists, compute_exact}
use mizzle.Tests.Graph.{fetch, universe, readable}

abbrev someone : Identity
someone = record { name = codes "A"; email = codes "a@x"; time = codes "1 +0000" }

abbrev commit_of : ObjectId → CommitInfo
commit_of oid = record {
  oid = oid;
  tree = 100;
  parents = [];
  author = someone;
  committer = someone;
  message = [];
  encoding = none;
  signature = none;
}

abbrev history : History
history = record {
  reachable_excluding =
      λ tips excluding cap. as_walk (Graph.reachable_excluding fetch 4 tips excluding cap);
  read_commit_info = λ oid. ok (commit_of oid);
  tree_diff = λ parent child. ok [];
  read_object_raw = λ oid cap. ok none;
  empty_tree = 99;
}

abbrev verifier : Verifier
verifier = record { verification_keys = λ signers. []; verify_external = λ sig. none }

abbrev main_moves : ObjectId → ObjectId → PushRef
main_moves old new = record {
  refname = codes "refs/heads/main";
  kind = fast_forward;
  old_oid = old;
  new_oid = new;
}

abbrev pushed : List PushRef → Subject
pushed refs = record {
  objects = [];
  refs = refs;
  existing_ref_tips = [];
  max_reachable_commits = 9;
}

history-IsGraph : IsGraph history fetch universe 4
history-IsGraph = record {
  walks = λ tips excluding cap. refl;
  readable = readable;
  fuelled = omega arith;
  reads = λ c m. (commit_of c, refl, refl);
}

only_in :
    (oid c : ObjectId)
    → contains universe oid ≡ true
    → contains (oid ∷ []) c ≡ true
    → contains universe c ≡ true
only_in oid c h m = ground arith

compute_exact_example :
    Lists history verifier
      (pushed (main_moves 2 4 ∷ []))
      fetch
      universe
      4
      history-IsGraph
      (4 ∷ [])
      []
      (codes "new_commits walk")
      (compute_new history verifier (pushed (main_moves 2 4 ∷ [])) 0 (main_moves 2 4))
    × Lists history verifier
        (pushed (main_moves 2 4 ∷ []))
        fetch
        universe
        4
        history-IsGraph
        (2 ∷ [])
        (4 ∷ [])
        (codes "dropped_commits walk")
        (compute_dropped history verifier (pushed (main_moves 2 4 ∷ [])) (main_moves 2 4))
compute_exact_example =
    compute_exact history verifier (pushed (main_moves 2 4 ∷ [])) fetch universe 4 history-IsGraph 0
      (main_moves 2 4) (λ c. only_in 4 c refl) (λ c. only_in 2 c refl)
      (λ c m. absurd (false≢true m))

abbrev queries : List Query
queries = ask_new (main_moves 2 4) ∷ ask_verify (commit_of 3) ∷ ask_new (main_moves 2 4) ∷ []

main_first : ref_index history verifier (pushed (main_moves 2 4 ∷ [])) (main_moves 2 4) ≡ some 0
unfolding ref_index
main_first = refl

not_signed :
    status_of (
      check_commit history verifier
        (pushed (main_moves 2 4 ∷ []))
        (compute_keys history verifier (pushed (main_moves 2 4 ∷ [])))
        (commit_of 3))
    ≡ unsigned
unfolding check_commit
not_signed = refl

ask_all-answer_example :
    ask_all history verifier
      (pushed (main_moves 2 4 ∷ []))
      (no_caches history verifier (pushed (main_moves 2 4 ∷ [])))
      queries
    ≡ some (map (answer history verifier (pushed (main_moves 2 4 ∷ [])) (λ oid. unsigned)) queries)
ask_all-answer_example =
    ask_all-answer history verifier (pushed (main_moves 2 4 ∷ [])) (λ oid. unsigned) queries
      ((0, main_first, refl), (not_signed, ((0, main_first, refl), tt)))

-- For the only ref of a repository, `new_commits` of a fast-forward lists the history of the old
-- tip as well.
whole_history :
    compute_new history verifier (pushed (main_moves 2 4 ∷ [])) 0 (main_moves 2 4)
    ≡ ok (map commit_of (4 ∷ 3 ∷ 2 ∷ 1 ∷ []))
unfolding compute_new Graph.reachable_excluding
whole_history = refl

-- Where one push moves a ref twice, what the second move brings is never listed.
twice :
    ask_all history verifier
      (pushed (main_moves 1 2 ∷ main_moves 2 4 ∷ []))
      (no_caches history verifier (pushed (main_moves 1 2 ∷ main_moves 2 4 ∷ [])))
      (ask_new (main_moves 1 2) ∷ ask_new (main_moves 2 4) ∷ [])
    ≡ some
        (listed (ok (map commit_of (2 ∷ 1 ∷ []))) ∷ listed (ok (map commit_of (2 ∷ 1 ∷ []))) ∷ [])
unfolding ask_all compute_new ref_index Graph.reachable_excluding
twice = refl

abbrev headers : List Bytes
headers = codes "tree abc" ∷ codes "author A <a@x> 1 +0000" ∷ []

abbrev signature : Signature
signature = (
  gpgsig,
  codes "-----BEGIN PGP SIGNATURE-----",
  codes "iQE" ∷ codes "-----END PGP SIGNATURE-----" ∷ [],
)

strip_gpgsig-write_commit_example :
    strip_gpgsig (
      write_commit
        (headers ++ (lines_of_signature (some signature) ++ codes "mergetag x" ∷ []))
        (codes "Hello"))
    ≡ write_commit (headers ++ codes "mergetag x" ∷ []) (codes "Hello")
strip_gpgsig-write_commit_example =
    strip_gpgsig-write_commit headers (codes "mergetag x" ∷ []) (some signature) (codes "Hello")
      ((omega arith, refl, refl), ((omega arith, refl, refl), tt)) ((omega arith, refl, refl), tt)
      refl (omega arith, (omega arith, (omega arith, tt)))

find_line_start-line_start_example :
    find_line_start (codes "notes\n-----BEGIN\n") (dashes (codes "BEGIN"))
    ≡ line_start true (dashes (codes "BEGIN")) (codes "notes\n-----BEGIN\n")
find_line_start-line_start_example =
    find_line_start-line_start (codes "notes\n-----BEGIN\n") (dashes (codes "BEGIN"))
