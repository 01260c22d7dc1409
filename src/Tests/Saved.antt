-- ===== src/Tests/Saved.antt =====
-- Runs of `UbtDatabase` on MDBX in memory, and the theorems on persistence.rs applied to them.
use ubt_exex.Common.{
  none, some, List, [], ◌∷◌, ◌≡◌, refl, ok, replicate, list_beq, list_eq, if◌then◌else◌, nat_eq,
  ltb, ◌==◌, arith,
}
use ubt_exex.Common.Bytes.{Bytes, to_be_bytes, to_le_bytes, from_be_bytes, from_le_bytes}
use ubt_exex.Mdbx.{returning, check_rc, found}
use ubt_exex.Mdbx.Env.{begin_ro_txn, begin_rw_txn, c_string}
use ubt_exex.Mdbx.Txn.{open_db, c_name, open_named, get, del, cursor, commit}
use ubt_exex.Mdbx.Txn
use ubt_exex.Mdbx.Cursor.{next}
use ubt_exex.Common.Text.{contains}
use ubt_exex.Common.Integers.{int_beq}
use ubt_exex.Common.Order.{bytes_leb}
use ubt_exex.Common.Assoc.{lookup}
use ubt_exex.Persistence.{as_mdbx, read_from, write_to, commit_or_drop, finish, while_rows}
use ubt_exex.Tree.{Stem, Delta, Address}
use ubt_exex.Store.{UbtHead, Contents, IsStore, word, put}
use ubt_exex.Persistence.Head.{load_head, save_head, decode_head}
use ubt_exex.Persistence.Deltas.{
  save_block_deltas, load_block_deltas, prune_deltas_before, deltas_or_empty, delete_where,
  delete_keys, push_key,
}
use ubt_exex.Persistence.Deltas.{block_key, delete_deltas_after}
use ubt_exex.Persistence.Addresses.{batch_save_stem_addresses, save_stem_address}
use ubt_exex.Persistence.Rules.{while_rows-folds, LoopsTo, fold_rows}
use ubt_exex.Persistence.Writes.{Changes, view, with_addresses}
use ubt_exex.Persistence.Blocks.{delete_deltas_after-Changes}
use ubt_exex.Persistence.Agreement.{
  Extends, batch_save_stem_addresses-Agrees, save_stem_address-put,
}
use ubt_exex.Common.Exec.{Ensures}
use ubt_exex.Persistence.Refine.{ubt_database, ubt_database-IsStore}
use ubt_exex.Persistence.RoundTrip.{
  load_head-save_head, load-save_block_deltas, load-prune_deltas_before,
}
use ubt_exex.Tests.Disk.{
  memory_mdbx, memory_mdbx-IsFfi, DiskTables, opened, insert_row, remove_row, open_rows, next_row,
  is_ascending, all_after, find,
}
use ubt_exex.Tests.Codecs.{disk_ubt, memory_bincode, memory_bincode-IsBincode, disk_ubt-HasValues}

ubt_database-IsStore_example : IsStore (
    ubt_database memory_mdbx memory_mdbx-IsFfi memory_bincode memory_bincode-IsBincode
      disk_ubt-HasValues)
ubt_database-IsStore_example =
    ubt_database-IsStore memory_mdbx memory_mdbx-IsFfi memory_bincode memory_bincode-IsBincode
      disk_ubt-HasValues

-- What the tables hold.
abbrev disk_view : DiskTables → Contents disk_ubt
disk_view e = view memory_mdbx memory_mdbx-IsFfi memory_bincode memory_bincode-IsBincode e

abbrev empty_disk : DiskTables
empty_disk = λ _. []

abbrev delta1 : Delta
delta1 = (replicate 31 1, 3, replicate 32 0)

abbrev delta2 : Delta
delta2 = (replicate 31 2, 4, replicate 32 7)

-- Blocks 1 and 300, whose keys have their bytes in the order of the numbers.
abbrev disk1 : DiskTables
disk1 = (save_block_deltas memory_mdbx memory_bincode 1 (delta1 ∷ []) empty_disk).1

abbrev disk300 : DiskTables
disk300 = (save_block_deltas memory_mdbx memory_bincode 300 (delta2 ∷ delta1 ∷ []) disk1).1

abbrev pruned : DiskTables
pruned = (prune_deltas_before memory_mdbx 300 disk300).1

saved300 :
    save_block_deltas memory_mdbx memory_bincode 300 (delta2 ∷ delta1 ∷ []) disk1 ≡ (ok tt, disk300)
unfolding save_block_deltas write_to commit_or_drop finish begin_rw_txn commit returning check_rc
    found open_db c_name c_string open_named contains int_beq opened to_be_bytes to_le_bytes Txn.put
    insert_row bytes_leb list_beq
saved300 = refl

before1 : load_block_deltas memory_mdbx memory_bincode 1 disk1 ≡ ok (delta1 ∷ [])
unfolding load_block_deltas deltas_or_empty save_block_deltas write_to commit_or_drop finish
    begin_rw_txn commit read_from begin_ro_txn get returning check_rc found open_db c_name c_string
    open_named contains int_beq opened to_be_bytes to_le_bytes ubt_exex.Mdbx.Txn.put insert_row
    bytes_leb find lookup list_beq
before1 = refl

loaded1 : load_block_deltas memory_mdbx memory_bincode 1 disk300 ≡ ok (delta1 ∷ [])
unfolding load_block_deltas deltas_or_empty save_block_deltas write_to commit_or_drop finish
    begin_rw_txn commit read_from begin_ro_txn get returning check_rc found open_db c_name c_string
    open_named contains int_beq opened to_be_bytes to_le_bytes ubt_exex.Mdbx.Txn.put insert_row
    bytes_leb find lookup list_beq
loaded1 = refl

pruned1 : prune_deltas_before memory_mdbx 300 disk300 ≡ (ok 1, pruned)
unfolding prune_deltas_before delete_where delete_keys push_key while_rows cursor next
    save_block_deltas write_to commit_or_drop finish begin_rw_txn commit returning check_rc found
    open_db c_name c_string open_named contains int_beq opened to_be_bytes to_le_bytes
    ubt_exex.Mdbx.Txn.put del insert_row remove_row open_rows next_row is_ascending all_after
    bytes_leb from_be_bytes from_le_bytes list_beq
pruned1 = refl

after1 : load_block_deltas memory_mdbx memory_bincode 1 pruned ≡ ok []
unfolding load_block_deltas deltas_or_empty prune_deltas_before delete_where delete_keys push_key
    while_rows cursor next save_block_deltas write_to commit_or_drop finish begin_rw_txn commit
    read_from begin_ro_txn get returning check_rc found open_db c_name c_string open_named contains
    int_beq opened to_be_bytes to_le_bytes ubt_exex.Mdbx.Txn.put del insert_row remove_row open_rows
    next_row is_ascending all_after bytes_leb from_be_bytes from_le_bytes find lookup list_beq
after1 = refl

load-save_block_deltas_example :
    delta1 ∷ [] ≡ (if word 300 == word 1 then delta2 ∷ delta1 ∷ [] else delta1 ∷ [])
load-save_block_deltas_example =
    load-save_block_deltas memory_mdbx memory_mdbx-IsFfi memory_bincode memory_bincode-IsBincode 300
      1 (delta2 ∷ delta1 ∷ []) (delta1 ∷ []) (delta1 ∷ []) disk1 disk300 saved300 before1 loaded1

load-prune_deltas_before_example : [] ≡ (if ltb (word 1) 300 then [] else delta1 ∷ [])
load-prune_deltas_before_example =
    load-prune_deltas_before memory_mdbx memory_mdbx-IsFfi memory_bincode memory_bincode-IsBincode
      300 1 1 (delta1 ∷ []) [] disk300 pruned pruned1 loaded1 after1

abbrev head7 : UbtHead
head7 = record {
  block_number = 7;
  block_hash = replicate 32 3;
  root = replicate 32 4;
  stem_count = 2;
}

abbrev disk7 : DiskTables
disk7 = (save_head memory_mdbx memory_bincode head7 disk1).1

saved7 : save_head memory_mdbx memory_bincode head7 disk1 ≡ (ok tt, disk7)
unfolding save_head save_block_deltas write_to commit_or_drop finish begin_rw_txn commit returning
    check_rc found open_db c_name c_string open_named contains int_beq opened to_be_bytes
    to_le_bytes ubt_exex.Mdbx.Txn.put insert_row bytes_leb list_beq
saved7 = refl

loaded7 : load_head memory_mdbx memory_bincode disk7 ≡ ok (some head7)
unfolding load_head decode_head save_head save_block_deltas write_to commit_or_drop finish
    begin_rw_txn commit read_from begin_ro_txn get returning check_rc found open_db c_name c_string
    open_named contains int_beq opened to_be_bytes to_le_bytes ubt_exex.Mdbx.Txn.put insert_row
    bytes_leb find lookup list_beq
loaded7 = refl

load_head-save_head_example : some head7 ≡ some head7
load_head-save_head_example =
    load_head-save_head memory_mdbx memory_mdbx-IsFfi memory_bincode memory_bincode-IsBincode head7
      disk1 disk7 (some head7) saved7 loaded7

-- Two mappings, of which the second repeats the first.
abbrev mappings : List (Stem × Address)
mappings = (replicate 31 1, replicate 20 5) ∷ (replicate 31 1, replicate 20 5) ∷ []

batch_save_stem_addresses-Agrees_example :
    Ensures
      (λ _ e'.
        Extends memory_mdbx memory_mdbx-IsFfi memory_bincode memory_bincode-IsBincode mappings
          (disk_view disk1).addresses
          (disk_view e').addresses)
      (λ _ e'. (disk_view e').addresses ≡ (disk_view disk1).addresses)
      (batch_save_stem_addresses memory_mdbx mappings disk1)
batch_save_stem_addresses-Agrees_example =
    batch_save_stem_addresses-Agrees memory_mdbx memory_mdbx-IsFfi memory_bincode
      memory_bincode-IsBincode mappings disk1

save_stem_address-put_example :
    Ensures
      (λ _ e'.
        ((disk_view disk1).addresses (replicate 31 1) ≡ none)
        × (disk_view e'
            ≡ with_addresses memory_mdbx memory_mdbx-IsFfi memory_bincode memory_bincode-IsBincode
                (put (replicate 31 1) (replicate 20 5))
                (disk_view disk1)))
      (λ _ e'. disk_view e' ≡ disk_view disk1)
      (save_stem_address memory_mdbx (replicate 31 1) (replicate 20 5) disk1)
save_stem_address-put_example =
    save_stem_address-put memory_mdbx memory_mdbx-IsFfi memory_bincode memory_bincode-IsBincode
      (replicate 31 1) (replicate 20 5) disk1

delete_deltas_after-Changes_example :
    Changes memory_mdbx memory_mdbx-IsFfi memory_bincode memory_bincode-IsBincode
      (λ c. record c { deltas = λ m. if ltb 1 m then none else c.deltas m })
      disk300
      (delete_deltas_after memory_mdbx 1 disk300)
delete_deltas_after-Changes_example =
    delete_deltas_after-Changes memory_mdbx memory_mdbx-IsFfi memory_bincode
      memory_bincode-IsBincode 1 disk300

-- The rows of blocks 1 and 300.
abbrev two_rows : List (Bytes × Bytes)
two_rows = (block_key 1, []) ∷ (block_key 300, []) ∷ []

while_rows-folds_example :
    LoopsTo memory_mdbx memory_mdbx-IsFfi as_mdbx
      (push_key (λ bn. ltb bn 300))
      (fold_rows (push_key (λ bn. ltb bn 300)) two_rows [])
      (while_rows memory_mdbx as_mdbx (push_key (λ bn. ltb bn 300)) 3 two_rows [])
while_rows-folds_example =
    while_rows-folds memory_mdbx memory_mdbx-IsFfi as_mdbx (push_key (λ bn. ltb bn 300)) 3 two_rows
      [] (omega arith)
