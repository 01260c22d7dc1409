-- ===== src/Tests/Disk.antt =====
-- MDBX in memory: tables as lists of rows in the order of their keys, with a bincode.
use ubt_exex.Common.{
  suc, ◌<◌, Bool, true, false, Option, none, some, List, [], ◌∷◌, ◌≡◌, refl, fun_ext, if◌then◌else◌,
  list_eq, nat_eq, ◌==◌, ◌&&◌, not, length, All, arith, list_beq_iff,
}
use ubt_exex.Common.Assoc.{lookup}
use ubt_exex.Common.Bytes.{Bytes}
use ubt_exex.Common.Integers.{ℤ, pos, negsuc}
use ubt_exex.Common.Order.{bytes_leb}
use ubt_exex.Common.Text.{Text}
use ubt_exex.Mdbx.{Ffi}
use ubt_exex.Mdbx.Tables.{IsFfi, Lists, Ascending, Rows, Tables, change, write, remove}

abbrev pub RowList : Type 0
RowList = List (Bytes × Bytes)

unfoldable pub insert_row : Bytes → Bytes → RowList → RowList
insert_row k v [] = (k, v) ∷ []
insert_row k v ((j, w) ∷ l) =
    if j == k
    then (k, v) ∷ l
    else if bytes_leb k j
    then (k, v) ∷ (j, w) ∷ l
    else (j, w) ∷ insert_row k v l

unfoldable pub remove_row : Bytes → RowList → RowList
remove_row k [] = []
remove_row k ((j, w) ∷ l) = if k == j then remove_row k l else (j, w) ∷ remove_row k l

pub lookup-insert_row :
    (k v other : Bytes) (l : RowList)
    → lookup other (insert_row k v l) ≡ write k v (λ j. lookup j l) other
unfolding lookup insert_row
lookup-insert_row k v other [] = refl
lookup-insert_row k v other ((j, w) ∷ l) =
    ground (arith, lookup-insert_row k v other l, list_beq_iff j k, list_beq_iff k other)

pub lookup-remove_row :
    (k other : Bytes) (l : RowList)
    → lookup other (remove_row k l) ≡ remove k (λ j. lookup j l) other
unfolding lookup remove_row
lookup-remove_row k other [] = ground arith
lookup-remove_row k other ((j, w) ∷ l) = ground (
  arith,
  lookup-remove_row k other l,
  list_beq_iff k j,
  list_beq_iff k other,
  list_beq_iff j other,
)

unfoldable pub all_after : Bytes → RowList → Bool
all_after k [] = true
all_after k ((j, w) ∷ l) = not (bytes_leb j k) && all_after k l

unfoldable pub is_ascending : RowList → Bool
is_ascending [] = true
is_ascending ((k, v) ∷ l) = all_after k l && is_ascending l

abbrev pub DiskTables : Type 0
DiskTables = Text → RowList

abbrev pub with_table : Text → (RowList → RowList) → DiskTables → DiskTables
with_table name f t other = if other == name then f (t other) else t other

abbrev pub success : ℤ
success = pos 0

abbrev pub not_found : ℤ
not_found = negsuc 30797

unfoldable pub find : Option Bytes → ℤ × Bytes
find none = (not_found, [])
find (some v) = (success, v)

-- A table lists its rows only if they stand in order.
unfoldable pub open_rows : RowList → Bool → ℤ × RowList
open_rows l true = (success, l)
open_rows l false = (pos 1, l)

unfoldable pub next_row : RowList → ℤ × ((Bytes × Bytes) × RowList)
next_row [] = (not_found, (([], []), []))
next_row (row ∷ l) = (success, (row, l))

unfoldable pub opened : DiskTables → Option Text → ℤ × (Text × DiskTables)
opened t none = (pos 1, ([], t))
opened t (some name) = (success, (name, t))

abbrev pub memory_mdbx : Ffi
memory_mdbx = record {
  Env = DiskTables;
  Txn = DiskTables;
  Dbi = Text;
  Cursor = RowList;
  success = success;
  not_found = not_found;
  create = 262144;
  rdonly = 131072;
  strerror = λ _. none;
  env_create = (success, λ _. []);
  env_set_maxdbs = λ e n. (success, e);
  env_set_geometry = λ e g. (success, e);
  env_open = λ e path flags mode. (success, e);
  env_sync_ex = λ e force nonblock. success;
  txn_begin = λ e flags. (success, e);
  txn_commit = λ t e. (success, t);
  dbi_open = λ t name flags. opened t name;
  get = λ t db key. find (lookup key (t db));
  put = λ t db key value flags. (success, with_table db (insert_row key value) t);
  del = λ t db key value. (success, with_table db (remove_row key) t);
  cursor_open = λ t db. open_rows (t db) (is_ascending (t db));
  cursor_next = next_row;
  most_rows = λ t db. suc (length (t db));
}

pub find_found : (o : Option Bytes) → (find o).0 ≡ success → o ≡ some (find o).1
unfolding find
find_found none p = cc
find_found (some v) p = refl

pub find_missing : (o : Option Bytes) → (find o).0 ≡ not_found → o ≡ none
unfolding find
find_missing none p = refl
find_missing (some v) p = cc

all_after-All :
    (k : Bytes) (l : RowList) → all_after k l ≡ true → All (λ row. bytes_leb row.0 k ≡ false) l
unfolding all_after
all_after-All k [] h = tt
all_after-All k ((j, w) ∷ l) h = (ground arith, all_after-All k l (ground arith))

is_ascending-Ascending : (l : RowList) → is_ascending l ≡ true → Ascending l
unfolding is_ascending
is_ascending-Ascending [] h = tt
is_ascending-Ascending ((k, v) ∷ l) h =
    (all_after-All k l (ground arith), is_ascending-Ascending l (ground arith))

pub open_rows-Lists :
    (l : RowList) (b : Bool)
    → is_ascending l ≡ b
    → (open_rows l b).0 ≡ success
    → Lists (λ k. lookup k l) (open_rows l b).1 × (length (open_rows l b).1 < suc (length l))
unfolding open_rows
open_rows-Lists l true h p =
    (record { ascending = is_ascending-Ascending l h; each = λ k. refl }, omega arith)
open_rows-Lists l false h p = cc

pub next_row-success :
    (c : RowList) → (next_row c).0 ≡ success → c ≡ (next_row c).1.0 ∷ (next_row c).1.1
unfolding next_row
next_row-success [] p = cc
next_row-success (row ∷ l) p = refl

pub next_row-end : (c : RowList) → (next_row c).0 ≡ not_found → c ≡ []
unfolding next_row
next_row-end [] p = refl
next_row-end (row ∷ l) p = cc

abbrev pub seen : DiskTables → Tables
seen t name k = lookup k (t name)

pub with_table-change :
    (name : Text) (f : RowList → RowList) (g : Rows → Rows) (t : DiskTables)
    → ((l : RowList) (k : Bytes) → lookup k (f l) ≡ g (λ j. lookup j l) k)
    → seen (with_table name f t) ≡ change name g (seen t)
with_table-change name f g t h = fun_ext (λ other. fun_ext (λ k. by_test (other == name) other k))
  where
    by_test :
        (b : Bool) (other : Text) (k : Bytes)
        → lookup k (if b then f (t other) else t other)
          ≡ (if b then g (λ j. lookup j (t other)) else λ j. lookup j (t other)) k
    by_test true other k = h (t other) k
    by_test false other k = refl

pub opened_names :
    (t : DiskTables) (name : Text)
    → ((opened t (some name)).1.0 ≡ name) × (seen (opened t (some name)).1.1 ≡ seen t)
unfolding opened
opened_names t name = (refl, refl)

abbrev pub memory_mdbx-IsFfi : IsFfi memory_mdbx
memory_mdbx-IsFfi = record {
  rows = seen;
  seen = seen;
  name_of = λ name. name;
  left = λ c. c;
  begin_sees = λ e flags p. refl;
  open_names = λ t name flags p. opened_names t name;
  get_found = λ t db key p. find_found (lookup key (t db)) p;
  get_missing = λ t db key p. find_missing (lookup key (t db)) p;
  put_writes = λ t db key value p.
      with_table-change db (insert_row key value) (write key value) t
        (λ l k. lookup-insert_row key value k l);
  del_removes = λ t db key p.
      with_table-change db (remove_row key) (remove key) t (λ l k. lookup-remove_row key k l);
  del_missing = λ t db key p.
      with_table-change db (remove_row key) (remove key) t (λ l k. lookup-remove_row key k l);
  cursor_lists = λ t db p. open_rows-Lists (t db) (is_ascending (t db)) refl p;
  next_row = λ c p. next_row-success c p;
  next_end = λ c p. next_row-end c p;
  commit_done = λ t e p. refl;
  commit_failed = λ t e p. absurd (p refl);
}
