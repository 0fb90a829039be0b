-- ===== src/Kv/Store.antt =====
-- What the KV backend relies on in TiKV: a store is what is committed, `put` and `delete` are what
-- the commit of such a write does to it, and a scan returns the pairs of a half-open range of keys.
-- A read of a pessimistic transaction through `get_for_update` reads what is committed, not the
-- transaction's own writes, and locks the key, so that the store which the commit finds has the same
-- value there; a plain `get` reads the store in which the transaction started.
use mizzle.Base.{Bytes, true, Option, none, some, List, eq_bytes, if◌then◌else◌, ◌≡◌, Memᴰ}
use mizzle.Kv.Keys.Scan.{in_range}

pub record KvStore : Type 1 where
  pub Store : Type 0
  pub get : Store → Bytes → Option Bytes
  pub put : Store → Bytes → Bytes → Store
  pub delete : Store → Bytes → Store
  pub scan : Store → Bytes → Bytes → List (Bytes × Bytes)
  pub get-put :
      (s : Store) (k v j : Bytes) → get (put s k v) j ≡ (if eq_bytes k j then some v else get s j)
  pub get-delete :
      (s : Store) (k j : Bytes) → get (delete s k) j ≡ (if eq_bytes k j then none else get s j)
  pub scan_sound :
      (s : Store) (a b k v : Bytes)
      → Memᴰ (k, v) (scan s a b)
      → (get s k ≡ some v) × (in_range a b k ≡ true)
  pub scan_complete :
      (s : Store) (a b k v : Bytes)
      → get s k ≡ some v
      → in_range a b k ≡ true
      → Memᴰ (k, v) (scan s a b)
