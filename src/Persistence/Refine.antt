-- ===== src/Persistence/Refine.antt =====
-- `UbtDatabase` of persistence.rs as the database that `UbtExEx` uses.
use ubt_exex.Tree.{Ubt}
use ubt_exex.Store.{Store, IsStore}
use ubt_exex.Mdbx.{Ffi}
use ubt_exex.Mdbx.Tables.{IsFfi}
use ubt_exex.Persistence.{Bincode}
use ubt_exex.Persistence.Head.{load_head, save_head}
use ubt_exex.Persistence.Stems.{load_stem, batch_update_stems, iter_stems, iter_entries_sorted}
use ubt_exex.Persistence.Addresses.{load_stem_address, batch_save_stem_addresses}
use ubt_exex.Persistence.Deltas.{
  load_block_deltas, save_block_deltas, delete_block_deltas, prune_deltas_before,
}
use ubt_exex.Persistence.Writes.{
  IsBincode, view, load_head-reads, load_stem-reads, load_stem_address-reads, save_head-Changes,
  batch_update_stems-Changes, batch_save_stem_addresses-Changes,
}
use ubt_exex.Persistence.Blocks.{
  load_block_deltas-reads, save_block_deltas-Changes, delete_block_deltas-Changes,
  prune_deltas_before-Changes,
}
use ubt_exex.Persistence.Entries.{HasValues}
use ubt_exex.Persistence.Listing.{iter_entries_sorted-lists}

module _ {U : Ubt} (M : Ffi) (laws : IsFfi M) (B : Bincode U) (codecs : IsBincode B)
    (V : HasValues U) where
  abbrev pub ubt_database : Store U
  ubt_database = record {
    Db = M.Env;
    contents = view M laws B codecs;
    load_head = load_head M B;
    load_stem = load_stem M B;
    load_block_deltas = load_block_deltas M B;
    iter_stems = iter_stems M B;
    load_stem_address = load_stem_address M;
    iter_entries_sorted = iter_entries_sorted M B;
    save_head = save_head M B;
    batch_update_stems = batch_update_stems M B;
    batch_save_stem_addresses = batch_save_stem_addresses M;
    save_block_deltas = save_block_deltas M B;
    delete_block_deltas = delete_block_deltas M;
    prune_deltas_before = prune_deltas_before M;
  }

  -- Over an MDBX whose calls do what its documentation says, and a bincode that reads what it has
  -- written, `UbtDatabase` keeps every promise that `UbtExEx` relies on: a method that reads and
  -- returns has seen what the tables hold, a method that writes and returns has made its change and
  -- no other, one that fails has changed nothing, the entries of all stems come in the order of
  -- their keys, and nothing panics: the loops over a cursor end within their fuel.
  pub ubt_database-IsStore : IsStore ubt_database
  ubt_database-IsStore = record {
    load_head_reads = load_head-reads M laws B codecs;
    load_stem_reads = load_stem-reads M laws B codecs;
    load_deltas_reads = load_block_deltas-reads M laws B codecs;
    load_address_reads = load_stem_address-reads M laws B codecs;
    iter_entries_reads = iter_entries_sorted-lists M B V laws;
    save_head_writes = save_head-Changes M laws B codecs;
    update_stems_writes = batch_update_stems-Changes M laws B codecs;
    save_addresses_writes = batch_save_stem_addresses-Changes M laws B codecs;
    save_deltas_writes = save_block_deltas-Changes M laws B codecs;
    delete_deltas_writes = delete_block_deltas-Changes M laws B codecs;
    prune_writes = prune_deltas_before-Changes M laws B codecs;
  }
