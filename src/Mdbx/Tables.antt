-- ===== src/Mdbx/Tables.antt =====
-- What the MDBX library promises, by its documentation, about the calls that mdbx.rs makes.
use ubt_exex.Common.{
  ℕ, ◌<◌, Option, none, some, List, [], ◌∷◌, ◌≡◌, ◌≢◌, ◌==◌, length, if◌then◌else◌, list_eq, nat_eq,
  All, false,
}
use ubt_exex.Common.Assoc.{lookup}
use ubt_exex.Common.Bytes.{Bytes}
use ubt_exex.Common.Order.{bytes_leb}
use ubt_exex.Common.Text.{Text}
use ubt_exex.Store.{put}
use ubt_exex.Mdbx.{Ffi}

-- A table by its rows, and the tables by their names.
abbrev pub Rows : Type 0
Rows = Bytes → Option Bytes

abbrev pub Tables : Type 0
Tables = Text → Rows

abbrev pub change : Text → (Rows → Rows) → Tables → Tables
change name f tables other = if other == name then f (tables other) else tables other

abbrev pub write : Bytes → Bytes → Rows → Rows
write key value rows = put key value rows

abbrev pub remove : Bytes → Rows → Rows
remove key rows other = if key == other then none else rows other

abbrev pub Ascending : List (Bytes × Bytes) → Type 0
Ascending [] = Unit {0}
Ascending ((k, v) ∷ l) = All (λ row. bytes_leb row.0 k ≡ false) l × Ascending l

-- The rows of a table in the order of their keys.
pub record Lists (rows : Rows) (l : List (Bytes × Bytes)) : Type 0 where
  pub ascending : Ascending l
  pub each : (key : Bytes) → lookup key l ≡ rows key

-- Reads see what the transaction sees; writes change one row; a transaction takes effect as a whole
-- by its commit or not at all; a cursor goes through the rows in order and ends.
pub record IsFfi (M : Ffi) : Type 1 where
  pub rows : M.Env → Tables
  pub seen : M.Txn → Tables
  pub name_of : M.Dbi → Text
  pub left : M.Cursor → List (Bytes × Bytes)
  pub begin_sees :
      (e : M.Env) (flags : ℕ)
      → (M.txn_begin e flags).0 ≡ M.success
      → seen (M.txn_begin e flags).1 ≡ rows e
  pub open_names :
      (t : M.Txn) (name : Text) (flags : ℕ)
      → (M.dbi_open t (some name) flags).0 ≡ M.success
      → (name_of (M.dbi_open t (some name) flags).1.0 ≡ name)
        × (seen (M.dbi_open t (some name) flags).1.1 ≡ seen t)
  pub get_found :
      (t : M.Txn) (db : M.Dbi) (key : Bytes)
      → (M.get t db key).0 ≡ M.success
      → seen t (name_of db) key ≡ some (M.get t db key).1
  pub get_missing :
      (t : M.Txn) (db : M.Dbi) (key : Bytes)
      → (M.get t db key).0 ≡ M.not_found
      → seen t (name_of db) key ≡ none
  pub put_writes :
      (t : M.Txn) (db : M.Dbi) (key value : Bytes)
      → (M.put t db key value 0).0 ≡ M.success
      → seen (M.put t db key value 0).1 ≡ change (name_of db) (write key value) (seen t)
  pub del_removes :
      (t : M.Txn) (db : M.Dbi) (key : Bytes)
      → (M.del t db key none).0 ≡ M.success
      → seen (M.del t db key none).1 ≡ change (name_of db) (remove key) (seen t)
  pub del_missing :
      (t : M.Txn) (db : M.Dbi) (key : Bytes)
      → (M.del t db key none).0 ≡ M.not_found
      → seen (M.del t db key none).1 ≡ change (name_of db) (remove key) (seen t)
  pub cursor_lists :
      (t : M.Txn) (db : M.Dbi)
      → (M.cursor_open t db).0 ≡ M.success
      → Lists (seen t (name_of db)) (left (M.cursor_open t db).1)
        × (length (left (M.cursor_open t db).1) < M.most_rows t db)
  pub next_row :
      (c : M.Cursor)
      → (M.cursor_next c).0 ≡ M.success
      → left c ≡ (M.cursor_next c).1.0 ∷ left (M.cursor_next c).1.1
  pub next_end : (c : M.Cursor) → (M.cursor_next c).0 ≡ M.not_found → left c ≡ []
  pub commit_done :
      (t : M.Txn) (e : M.Env)
      → (M.txn_commit t e).0 ≡ M.success
      → rows (M.txn_commit t e).1 ≡ seen t
  pub commit_failed :
      (t : M.Txn) (e : M.Env)
      → (M.txn_commit t e).0 ≢ M.success
      → rows (M.txn_commit t e).1 ≡ rows e

-- Which tables there are: opening one succeeds only if it is there or is made, and a commit keeps
-- those of its transaction.
pub record HasTables (M : Ffi) : Type 1 where
  pub made : M.Env → Text → Type 0
  pub made_in : M.Txn → Text → Type 0
  pub open_makes :
      (t : M.Txn) (name : Text) (flags : ℕ)
      → (M.dbi_open t (some name) flags).0 ≡ M.success
      → made_in (M.dbi_open t (some name) flags).1.1 name
  pub open_keeps :
      (t : M.Txn) (name other : Text) (flags : ℕ)
      → (M.dbi_open t (some name) flags).0 ≡ M.success
      → made_in t other
      → made_in (M.dbi_open t (some name) flags).1.1 other
  pub commit_keeps :
      (t : M.Txn) (e : M.Env) (name : Text)
      → (M.txn_commit t e).0 ≡ M.success
      → made_in t name
      → made (M.txn_commit t e).1 name
