-- ===== src/Sql/Table.antt =====
-- What the SQL backend relies on in SQLite: the statements on the table `refs` that
-- mizzle/src/backend/sql/refs.rs runs, under the primary key (repo_id, name) of schema.rs. Each
-- statement binds a repository; `holds_row` says that the row of a name has exactly this id.
use mizzle.Base.{
  ℕ, Bytes, Bool, false, Option, none, some, eq_bytes, if◌then◌else◌, ◌≡◌, ◌==◌, ◌&&◌,
}

abbrev pub holds_row : Option Bytes → Bytes → Bool
holds_row none oid = false
holds_row (some v) oid = eq_bytes v oid

abbrev pub same_row : ℕ → Bytes → ℕ → Bytes → Bool
same_row r n r' n' = (r == r') && eq_bytes n n'

pub record RefsTable : Type 1 where
  pub Table : Type 0
  -- SELECT oid FROM refs WHERE repo_id = ? AND name = ?
  pub select : Table → ℕ → Bytes → Option Bytes
  -- DELETE FROM refs WHERE repo_id = ? AND name = ? AND oid = ?, with `rows_affected`
  pub delete_where : Table → ℕ → Bytes → Bytes → Table × ℕ
  -- INSERT INTO refs (repo_id, name, oid) VALUES (?, ?, ?)
  pub insert : Table → ℕ → Bytes → Bytes → Option Table
  -- UPDATE refs SET oid = ? WHERE repo_id = ? AND name = ? AND oid = ?, with `rows_affected`
  pub update_where : Table → Bytes → ℕ → Bytes → Bytes → Table × ℕ
  pub rows-delete :
      (t : Table) (r : ℕ) (n o : Bytes)
      → (delete_where t r n o).1 ≡ (if holds_row (select t r n) o then 1 else 0)
  pub select-delete :
      (t : Table) (r : ℕ) (n o : Bytes) (r' : ℕ) (n' : Bytes)
      → select (delete_where t r n o).0 r' n'
        ≡ (if holds_row (select t r n) o && same_row r n r' n' then none else select t r' n')
  pub rows-update :
      (t : Table) (new : Bytes) (r : ℕ) (n o : Bytes)
      → (update_where t new r n o).1 ≡ (if holds_row (select t r n) o then 1 else 0)
  pub select-update :
      (t : Table) (new : Bytes) (r : ℕ) (n o : Bytes) (r' : ℕ) (n' : Bytes)
      → select (update_where t new r n o).0 r' n'
        ≡ (if holds_row (select t r n) o && same_row r n r' n' then some new else select t r' n')
  pub insert_taken :
      (t : Table) (r : ℕ) (n o v : Bytes) → select t r n ≡ some v → insert t r n o ≡ none
  pub insert_free :
      (t : Table) (r : ℕ) (n o : Bytes)
      → select t r n ≡ none
      → (t' : Table) × (insert t r n o ≡ some t')
        × ((r' : ℕ) (n' : Bytes)
            → select t' r' n' ≡ (if same_row r n r' n' then some o else select t r' n'))
