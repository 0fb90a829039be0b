-- ===== src/Tests/Models.antt =====
-- Instances of what the development takes as parameters: ids of 20 bytes, a store that is a log of
-- writes, and a table that is a function.
use mizzle.Base.{
  ℕ, ◌^◌, ◌<◌, Bytes, AreBytes, Bool, true, false, ◌&&◌, Option, none, some, List, [], ◌∷◌, ◌++◌,
  ◌≡◌, refl, ap, sym, length, ltb, ◌==◌, eq_bytes, if◌then◌else◌, OidCodec, be_bytes, be_value,
  arith, Memᴰ, length-be_bytes, AreBytes-be_bytes, be_value-be_bytes, be_bytes-be_value,
  be_value-lt, subst, ObjectId, IsObjectId, eq_of_eq_bytes, Bool-cases, inl, inr,
}
use mathlib.Core.List.Memᴰ
use mizzle.Kv.Store.{KvStore}
use mizzle.Kv.Keys.Scan.{in_range}
use mizzle.Sql.Table.{RefsTable, holds_row, same_row}

unfoldable pub all_bytes : Bytes → Bool
all_bytes [] = true
all_bytes (b ∷ bs) = ltb b 256 && all_bytes bs

AreBytes-all_bytes : (bs : Bytes) → all_bytes bs ≡ true → AreBytes bs
unfolding all_bytes
AreBytes-all_bytes [] h = tt
AreBytes-all_bytes (b ∷ bs) h = (ground arith, AreBytes-all_bytes bs (ground arith))

unfoldable pub parse20 : Bytes → Option ObjectId
unfolding all_bytes
parse20 bs = if (length bs == 20) && all_bytes bs then some (be_value 0 bs) else none

abbrev pub Log : Type 0
Log = List (Bytes × Option Bytes)

unfoldable pub log_get : Log → Bytes → Option Bytes
log_get [] j = none
log_get ((k, v) ∷ s) j = if eq_bytes k j then v else log_get s j

pick : Bytes → Option Bytes → Bool → List (Bytes × Bytes)
pick k none wanted = []
pick k (some v) false = []
pick k (some v) true = (k, v) ∷ []

unfoldable pub log_scan : Log → Log → Bytes → Bytes → List (Bytes × Bytes)
unfolding log_get pick
log_scan s [] a b = []
log_scan s ((k, _) ∷ rest) a b = pick k (log_get s k) (in_range a b k) ++ log_scan s rest a b

pick_sound :
    (k' : Bytes) (o : Option Bytes) (wanted : Bool) (k v : Bytes)
    → Memᴰ (k, v) (pick k' o wanted)
    → (k ≡ k') × (o ≡ some v) × (wanted ≡ true)
unfolding pick
pick_sound k' none wanted k v m = absurd (Memᴰ.not-nil m)
pick_sound k' (some v') false k v m = absurd (Memᴰ.not-nil m)
pick_sound k' (some v') true k v m =
    let e = Memᴰ.eq_of_singleton m in (ap (λ p. p.0) e, ap (λ p. some p.1) (sym e), refl)

pub scan_sound :
    (s rest : Log) (a b k v : Bytes)
    → Memᴰ (k, v) (log_scan s rest a b)
    → (log_get s k ≡ some v) × (in_range a b k ≡ true)
unfolding log_scan
scan_sound s [] a b k v m = absurd (Memᴰ.not-nil m)
scan_sound s ((k', x) ∷ rest) a b k v m =
    elim (Memᴰ.append_cases (pick k' (log_get s k') (in_range a b k')) m) [
      | inl here ↦ let (e, got, wanted) = pick_sound _ _ _ k v here in (rw e got, rw e wanted)
      | inr later ↦ scan_sound s rest a b k v later
    ]

pub logged : (s : Log) (k v : Bytes) → log_get s k ≡ some v → (x : Option Bytes) × Memᴰ (k, x) s
unfolding log_get
logged [] k v h = cc
logged ((k', x) ∷ s) k v h = elim (Bool-cases (eq_bytes k' k)) [
  | inl e ↦ (x, Memᴰ.head (ap (λ j. (j, x)) (sym (eq_of_eq_bytes k' k e))))
  | inr e ↦ let (y, m) = logged s k v (rw (e, log_get) at h) in (y, Memᴰ.tail m)
]

pub scan_complete :
    (s rest : Log) (a b k v : Bytes) (x : Option Bytes)
    → Memᴰ (k, x) rest
    → log_get s k ≡ some v
    → in_range a b k ≡ true
    → Memᴰ (k, v) (log_scan s rest a b)
unfolding log_scan
scan_complete s [] a b k v x m got wanted = absurd (Memᴰ.not-nil m)
scan_complete s ((k', y) ∷ rest) a b k v x (Memᴰ.head e) got wanted =
    let same = ap (λ p. p.0) e in
    Memᴰ.append_left {s = pick k' (log_get s k') (in_range a b k')} (log_scan s rest a b)
      (rw (← same, got, wanted, pick) (Memᴰ.head (ap (λ j. (j, v)) same)))
scan_complete s ((k', y) ∷ rest) a b k v x (Memᴰ.tail m) got wanted =
    Memᴰ.append_right (pick k' (log_get s k') (in_range a b k'))
      (scan_complete s rest a b k v x m got wanted)

pub log_get_cons :
    (s : Log) (k : Bytes) (v : Option Bytes) (j : Bytes)
    → log_get ((k, v) ∷ s) j ≡ (if eq_bytes k j then v else log_get s j)
unfolding log_get
log_get_cons s k v j = refl

abbrev pub log_store : KvStore
log_store = record {
  Store = Log;
  get = log_get;
  put = λ s k v. (k, some v) ∷ s;
  delete = λ s k. (k, none) ∷ s;
  scan = λ s a b. log_scan s s a b;
  get-put = λ s k v j. log_get_cons s k (some v) j;
  get-delete = λ s k j. log_get_cons s k none j;
  scan_sound = λ s a b k v m. scan_sound s s a b k v m;
  scan_complete = λ s a b k v got wanted.
      let (x, m) = logged s k v got in scan_complete s s a b k v x m got wanted;
}

abbrev pub row_write :
    (ℕ → Bytes → Option Bytes) → ℕ → Bytes → Option Bytes → ℕ → Bytes → Option Bytes
row_write t r n v r' n' = if same_row r n r' n' then v else t r' n'

abbrev pub row_change :
    (ℕ → Bytes → Option Bytes) → Option Bytes → ℕ → Bytes → Bytes → (ℕ → Bytes → Option Bytes) × ℕ
row_change t v r n o = if holds_row (t r n) o then (row_write t r n v, 1) else (t, 0)

pub row_count :
    (t : ℕ → Bytes → Option Bytes) (v : Option Bytes) (r : ℕ) (n o : Bytes)
    → (row_change t v r n o).1 ≡ (if holds_row (t r n) o then 1 else 0)
row_count t v r n o = elim (Bool-cases (holds_row (t r n) o)) [
  | inl e ↦ rw e refl
  | inr e ↦ rw e refl
]

pub row_read :
    (t : ℕ → Bytes → Option Bytes) (v : Option Bytes) (r : ℕ) (n o : Bytes) (r' : ℕ) (n' : Bytes)
    → (row_change t v r n o).0 r' n'
      ≡ (if holds_row (t r n) o && same_row r n r' n' then v else t r' n')
row_read t v r n o r' n' = elim (Bool-cases (holds_row (t r n) o)) [
  | inl e ↦ rw e refl
  | inr e ↦ rw e refl
]

abbrev pub function_table : RefsTable
function_table = record {
  Table = ℕ → Bytes → Option Bytes;
  select = λ t r n. t r n;
  delete_where = λ t r n o. row_change t none r n o;
  insert = λ t r n o. elim (t r n) [ none ↦ some (row_write t r n (some o)) | some _ ↦ none ];
  update_where = λ t new r n o. row_change t (some new) r n o;
  rows-delete = λ t r n o. row_count t none r n o;
  select-delete = λ t r n o r' n'. row_read t none r n o r' n';
  rows-update = λ t new r n o. row_count t (some new) r n o;
  select-update = λ t new r n o r' n'. row_read t (some new) r n o r' n';
  insert_taken = λ t r n o v e. rw e refl;
  insert_free = λ t r n o e. (row_write t r n (some o), rw e refl, λ r' n'. refl);
}

all_bytes_lem : (bs : Bytes) → AreBytes bs → all_bytes bs ≡ true
unfolding all_bytes
all_bytes_lem [] h = refl
all_bytes_lem (b ∷ bs) h = ground (arith, all_bytes_lem bs h.1)

pub codec_read : (oid : ObjectId) → IsObjectId oid → parse20 (be_bytes 20 oid) ≡ some oid
unfolding parse20
codec_read oid h =
    rw
      (
        length-be_bytes 20 oid,
        all_bytes_lem (be_bytes 20 oid) (AreBytes-be_bytes 20 oid),
        be_value-be_bytes 20 oid h,
      )
      refl

parse20-eq-some :
    (bs : Bytes) (oid : ObjectId)
    → parse20 bs ≡ some oid
    → (length bs ≡ 20) × (all_bytes bs ≡ true) × (be_value 0 bs ≡ oid)
unfolding parse20
parse20-eq-some bs oid h = ground arith

pub codec_write :
    (bs : Bytes) (oid : ObjectId) → parse20 bs ≡ some oid → (be_bytes 20 oid ≡ bs) × IsObjectId oid
unfolding parse20
codec_write bs oid h =
    let (size, bytes, value) = parse20-eq-some bs oid h in
    let fits = AreBytes-all_bytes bs bytes in
    (
      rw (← value, ← size) (be_bytes-be_value bs fits),
      rw (← value) (subst (λ n. be_value 0 bs < 256 ^ n) size (be_value-lt bs fits)),
    )

abbrev pub sha1_codec : OidCodec
sha1_codec = record {
  as_bytes = be_bytes 20;
  try_from = parse20;
  length-as_bytes = length-be_bytes 20;
  AreBytes-as_bytes = AreBytes-be_bytes 20;
  try_from-as_bytes = codec_read;
  as_bytes-try_from = codec_write;
}
