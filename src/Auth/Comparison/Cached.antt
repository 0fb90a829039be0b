-- ===== src/Auth/Comparison/Cached.antt =====
-- The caches of a comparison change no answer.
use mizzle.Base.Result.{Result}
use mizzle.Base.{
  ℕ, zero, suc, ◌<◌, List, [], ◌∷◌, Option, none, some, ok, ObjectId, ◌==◌, ◌≡◌, refl, sym, ap, ◌∙◌,
  arith, true, false, map, replicate, length, All, Bool-cases, Option-cases, inl, inr, subst,
  ==_iff,
}
use mizzle.Server.Snapshot.{PushRef}
use mizzle.Auth.Types.{CommitInfo, ComparisonError, RefDiff, VerificationStatus}
use mizzle.Auth.Comparison.{
  History, Verifier, Subject, Check, early, checked, status_of, ref_index, compute_new,
  compute_dropped, compute_diff, compute_keys, check_commit, check_tag,
}
use mizzle.Auth.Comparison.Cells.{
  get_or_init, cached, Caches, Query, ask_new, ask_dropped, ask_diff, ask_verify, ask_verify_tag,
  Answer, listed, differs, status, keep_status, no_caches, ask, ask_all,
}

abbrev pub ref_at : List PushRef → ℕ → Option PushRef
ref_at [] i = none
ref_at (r ∷ refs) zero = some r
ref_at (r ∷ refs) (suc i) = ref_at refs i

ref_at-lt : (refs : List PushRef) (i : ℕ) (r : PushRef) → ref_at refs i ≡ some r → i < length refs
ref_at-lt [] i r h = cc
ref_at-lt (x ∷ refs) zero r h = omega arith
ref_at-lt (x ∷ refs) (suc i) r h = omega (arith, ref_at-lt refs i r h)

-- Each cell that is filled has its value.
abbrev Cell {ℓ} : {A : Type ℓ} → A → Option A → Type ℓ
Cell v none = Unit
Cell v (some w) = w ≡ v

abbrev Holds {ℓ} : {A : Type ℓ} → (ℕ → A) → List (Option A) → Type ℓ
Holds f [] = Unit
Holds f (c ∷ cells) = Cell (f 0) c × Holds (λ i. f (suc i)) cells

Holds-empty {ℓ} : {A : Type ℓ} (f : ℕ → A) (n : ℕ) → Holds f (replicate n none)
Holds-empty f zero = tt
Holds-empty f (suc n) = (tt, Holds-empty (λ i. f (suc i)) n)

length-replicate {ℓ} : {A : Type ℓ} (n : ℕ) (a : A) → length (replicate n a) ≡ n
length-replicate zero a = refl
length-replicate (suc n) a = ap suc (length-replicate n a)

get_or_init-Holds {ℓ} :
    {A : Type ℓ} (f : ℕ → A) (n : ℕ) (cells : List (Option A))
    → Holds f cells
    → n < length cells
    → (cells' : List (Option A)) × (get_or_init n (f n) cells ≡ some (cells', f n))
      × Holds f cells'
      × (length cells' ≡ length cells)
unfolding get_or_init
get_or_init-Holds f n [] h k = absurd (omega arith)
get_or_init-Holds f zero (none ∷ cells) (_, h) k = (some (f 0) ∷ cells, refl, (refl, h), refl)
get_or_init-Holds f zero (some w ∷ cells) (e, h) k =
    (some w ∷ cells, ap (λ v. some (some w ∷ cells, v)) e, (e, h), refl)
get_or_init-Holds f (suc n) (c ∷ cells) (e, h) k =
    let (cells', run, holds, same) = get_or_init-Holds (λ i. f (suc i)) n cells h (omega arith) in
    (c ∷ cells', rw (run, get_or_init) refl, (e, holds), ap suc same)

abbrev AreTrue : (ObjectId → VerificationStatus) → List (ObjectId × VerificationStatus) → Type 0
AreTrue truth cache = All (λ p. p.1 ≡ truth p.0) cache

cached_hit :
    (o oid : ObjectId) (t : VerificationStatus) (cache : List (ObjectId × VerificationStatus))
    → (o == oid) ≡ true
    → cached ((o, t) ∷ cache) oid ≡ some t
unfolding cached
cached_hit o oid t cache e = rw (e, cached) refl

cached_miss :
    (o oid : ObjectId) (t : VerificationStatus) (cache : List (ObjectId × VerificationStatus))
    → (o == oid) ≡ false
    → cached ((o, t) ∷ cache) oid ≡ cached cache oid
unfolding cached
cached_miss o oid t cache e = rw (e, cached) refl

same_truth :
    (truth : ObjectId → VerificationStatus) (o oid : ObjectId) (s t : VerificationStatus)
    → o ≡ oid
    → some t ≡ some s
    → t ≡ truth o
    → s ≡ truth oid
same_truth truth o oid s t e k h = cc

cached-AreTrue :
    (truth : ObjectId → VerificationStatus) (cache : List (ObjectId × VerificationStatus))
    (oid : ObjectId) (s : VerificationStatus)
    → AreTrue truth cache
    → cached cache oid ≡ some s
    → s ≡ truth oid
unfolding cached
cached-AreTrue truth [] oid s h k = cc
cached-AreTrue truth ((o, t) ∷ cache) oid s (e, h) k = elim (Bool-cases (o == oid)) [
  | inl same ↦
      same_truth truth o oid s t ((==_iff o oid).0 same) (sym (cached_hit o oid t cache same) ∙ k) e
  | inr other ↦ cached-AreTrue truth cache oid s h (sym (cached_miss o oid t cache other) ∙ k)
]

keep_status-new :
    (truth : ObjectId → VerificationStatus) (m : Caches) (oid : ObjectId) (check : Check)
    → cached m.verify_cache oid ≡ none
    → AreTrue truth m.verify_cache
    → status_of check ≡ truth oid
    → (cache : List (ObjectId × VerificationStatus)) × (keep_status m oid check
        ≡ (record m { verify_cache = cache }, status_of check))
      × AreTrue truth cache
unfolding keep_status
keep_status-new truth m oid (early s) e h k = (m.verify_cache, rw (e, keep_status) refl, h)
keep_status-new truth m oid (checked s) e h k =
    ((oid, s) ∷ m.verify_cache, rw (e, keep_status) refl, (k, h))

keep_status-AreTrue :
    (truth : ObjectId → VerificationStatus) (m : Caches) (oid : ObjectId) (check : Check)
    → AreTrue truth m.verify_cache
    → status_of check ≡ truth oid
    → (cache : List (ObjectId × VerificationStatus)) × (keep_status m oid check
        ≡ (record m { verify_cache = cache }, status_of check))
      × AreTrue truth cache
unfolding keep_status
keep_status-AreTrue truth m oid check h k = elim (Option-cases (cached m.verify_cache oid)) [
  | inr (s, e) ↦ (
    m.verify_cache,
    rw (e, keep_status) (ap (λ t. (m, t)) (cached-AreTrue truth m.verify_cache oid s h e ∙ sym k)),
    h,
  )
  | inl e ↦ keep_status-new truth m oid check e h k
]

module _ (B : History) (V : Verifier) (P : Subject) (truth : ObjectId → VerificationStatus) where
  -- The first ref of its name.
  abbrev pub IsFirst : PushRef → Type 0
  IsFirst r = (i : ℕ) × (ref_index B V P r ≡ some i) × (ref_at P.refs i ≡ some r)

  -- A query for the first ref of its name, or for an object whose id has one true status.
  abbrev pub Fair : Query → Type 0
  Fair (ask_new r) = IsFirst r
  Fair (ask_dropped r) = IsFirst r
  Fair (ask_diff r) = IsFirst r
  Fair (ask_verify c) = status_of (check_commit B V P (compute_keys B V P) c) ≡ truth c.oid
  Fair (ask_verify_tag t) = status_of (check_tag B V P (compute_keys B V P) t) ≡ truth t.oid

  abbrev pub index_of : PushRef → ℕ
  index_of r = elim (ref_index B V P r) [ none ↦ 0 | some i ↦ i ]

  -- The answer without a cache.
  abbrev pub answer : Query → Answer
  answer (ask_new r) = listed (compute_new B V P (index_of r) r)
  answer (ask_dropped r) = listed (compute_dropped B V P r)
  answer (ask_diff r) = differs (compute_diff B V P r)
  answer (ask_verify c) = status (status_of (check_commit B V P (compute_keys B V P) c))
  answer (ask_verify_tag t) = status (status_of (check_tag B V P (compute_keys B V P) t))

  abbrev for_ref {ℓ} : {A : Type ℓ} → A → (ℕ → PushRef → A) → ℕ → A
  for_ref d f i = elim (ref_at P.refs i) [ none ↦ d | some r ↦ f i r ]

  abbrev new_of : ℕ → Result ComparisonError (List CommitInfo)
  new_of = for_ref (ok []) (λ i r. compute_new B V P i r)

  abbrev dropped_of : ℕ → Result ComparisonError (List CommitInfo)
  dropped_of = for_ref (ok []) (λ i r. compute_dropped B V P r)

  abbrev diff_of : ℕ → Result ComparisonError RefDiff
  diff_of = for_ref (ok []) (λ i r. compute_diff B V P r)

  -- What the caches hold at any time.
  record Sound (m : Caches) : Type 0 where
    new_true : Holds new_of m.new_commits
    dropped_true : Holds dropped_of m.dropped_commits
    diffs_true : Holds diff_of m.ref_diffs
    new_size : length m.new_commits ≡ length P.refs
    dropped_size : length m.dropped_commits ≡ length P.refs
    diffs_size : length m.ref_diffs ≡ length P.refs
    statuses_true : AreTrue truth m.verify_cache

  Sound-no_caches : Sound (no_caches B V P)
  Sound-no_caches = record {
    new_true = Holds-empty new_of (length P.refs);
    dropped_true = Holds-empty dropped_of (length P.refs);
    diffs_true = Holds-empty diff_of (length P.refs);
    new_size = length-replicate (length P.refs) none;
    dropped_size = length-replicate (length P.refs) none;
    diffs_size = length-replicate (length P.refs) none;
    statuses_true = tt;
  }

  -- A cell of the first ref of its name.
  cell_run {ℓ} :
      {A : Type ℓ} (d : A) (f : ℕ → PushRef → A) (i : ℕ) (r : PushRef) (cells : List (Option A))
      → ref_at P.refs i ≡ some r
      → Holds (for_ref d f) cells
      → length cells ≡ length P.refs
      → (cells' : List (Option A)) × (get_or_init i (f i r) cells ≡ some (cells', f i r))
        × Holds (for_ref d f) cells'
        × (length cells' ≡ length P.refs)
  cell_run d f i r cells e h k =
      let here : for_ref d f i ≡ f i r = rw (e, for_ref) refl in
      let (cells', run, holds, same) =
        get_or_init-Holds (for_ref d f) i cells h (omega (arith, ref_at-lt P.refs i r e)) in
      (cells', subst (λ v. get_or_init i v cells ≡ some (cells', v)) here run, holds, same ∙ k)

  -- A fair query is answered as without a cache.
  ask-Sound :
      (m : Caches) (q : Query)
      → Sound m
      → Fair q
      → (m' : Caches) × (ask B V P m q ≡ some (m', answer q)) × Sound m'
  unfolding ask
  ask-Sound m (ask_new r) h (i, e, k) =
      let (cells, run, holds, same) =
        cell_run (ok []) (λ i r. compute_new B V P i r) i r m.new_commits k h.new_true h.new_size in
      (
        record m { new_commits = cells },
        rw (e, ask, run, answer, index_of) refl,
        record {
          new_true = holds;
          dropped_true = h.dropped_true;
          diffs_true = h.diffs_true;
          new_size = same;
          dropped_size = h.dropped_size;
          diffs_size = h.diffs_size;
          statuses_true = h.statuses_true;
        },
      )
  ask-Sound m (ask_dropped r) h (i, e, k) =
      let (cells, run, holds, same) =
        cell_run (ok []) (λ i r. compute_dropped B V P r) i r m.dropped_commits k h.dropped_true
          h.dropped_size in
      (
        record m { dropped_commits = cells },
        rw (e, ask, run, answer, index_of) refl,
        record {
          new_true = h.new_true;
          dropped_true = holds;
          diffs_true = h.diffs_true;
          new_size = h.new_size;
          dropped_size = same;
          diffs_size = h.diffs_size;
          statuses_true = h.statuses_true;
        },
      )
  ask-Sound m (ask_diff r) h (i, e, k) =
      let (cells, run, holds, same) =
        cell_run (ok []) (λ i r. compute_diff B V P r) i r m.ref_diffs k h.diffs_true
          h.diffs_size in
      (
        record m { ref_diffs = cells },
        rw (e, ask, run, answer, index_of) refl,
        record {
          new_true = h.new_true;
          dropped_true = h.dropped_true;
          diffs_true = holds;
          new_size = h.new_size;
          dropped_size = h.dropped_size;
          diffs_size = same;
          statuses_true = h.statuses_true;
        },
      )
  ask-Sound m (ask_verify c) h k =
      let (cache, run, all) =
        keep_status-AreTrue truth m c.oid (check_commit B V P (compute_keys B V P) c)
          h.statuses_true k in
      (
        record m { verify_cache = cache },
        rw (run, ask) refl,
        record {
          new_true = h.new_true;
          dropped_true = h.dropped_true;
          diffs_true = h.diffs_true;
          new_size = h.new_size;
          dropped_size = h.dropped_size;
          diffs_size = h.diffs_size;
          statuses_true = all;
        },
      )
  ask-Sound m (ask_verify_tag t) h k =
      let (cache, run, all) =
        keep_status-AreTrue truth m t.oid (check_tag B V P (compute_keys B V P) t) h.statuses_true
          k in
      (
        record m { verify_cache = cache },
        rw (run, ask) refl,
        record {
          new_true = h.new_true;
          dropped_true = h.dropped_true;
          diffs_true = h.diffs_true;
          new_size = h.new_size;
          dropped_size = h.dropped_size;
          diffs_size = h.diffs_size;
          statuses_true = all;
        },
      )

  ask_all-Sound :
      (m : Caches) (queries : List Query)
      → Sound m
      → All Fair queries
      → ask_all B V P m queries ≡ some (map answer queries)
  unfolding ask_all
  ask_all-Sound m [] h k = refl
  ask_all-Sound m (q ∷ queries) h (fair, k) =
      let (m', run, sound) = ask-Sound m q h fair in
      rw (run, ask_all, ask_all-Sound m' queries sound k) refl

  -- For any queries in any order, where each asks for a ref that is the first of its name in the
  -- push, or for an object whose id has one true status: a comparison that starts with empty caches
  -- does not panic, and answers each query as it is computed without a cache.
  pub ask_all-answer :
      (queries : List Query)
      → All Fair queries
      → ask_all B V P (no_caches B V P) queries ≡ some (map answer queries)
  ask_all-answer queries h = ask_all-Sound (no_caches B V P) queries Sound-no_caches h
