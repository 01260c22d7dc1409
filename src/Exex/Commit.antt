-- ===== src/Exex/Commit.antt =====
-- `commit` of src/ubt_exex.rs: the writes of one notification go to NOMT, to the overlay with a
-- delta for each change, and every `flush_interval` blocks to MDBX with a new root.
pub mod Entries
pub mod Record
pub mod Drain
pub mod Flush
pub mod Trie
pub mod Correct
use ubt_exex.Common.{
  ℕ, ◌+◌, ◌-◌, ◌%◌, ◌^◌, Bool, true, false, Option, none, some, List, [], ◌∷◌, ◌++◌, map, ltb, leb,
  if◌then◌else◌, not, ◌||◌, list_eq, nat_eq, ◌==◌, Result, ok, err, panic, Foreign, map_err,
  replicate, ◌>>=◌ as result_bind,
}
use ubt_exex.Common.Assoc.{lookup, insert}
use ubt_exex.Common.Bytes.{Bytes, to_be_bytes}
use ubt_exex.Common.Order.{sort_by, bytes_leb}
use ubt_exex.Common.Exec.{Exec, pure, lift, reads, modify, when, ◌>>=◌, ◌>>◌}
use ubt_exex.Tree.{Stem, B256, Address, Delta, value_at}
use ubt_exex.Store.{UbtHead}
use ubt_exex.Exex.{
  Parts, PendingEntry, UbtExEx, is_empty, Dirty, Method, on_db, on_index, on_dirty, seed_stem,
  expect_stem,
}

-- `tree_index_from_key`, also of pir_export.rs: the 31 bytes of the stem, then the subindex.
unfoldable pub tree_index_from_key : Stem → ℕ → Bytes
tree_index_from_key stem subindex = stem ++ subindex ∷ []

-- `NOMT_HEAD_KEY`
abbrev pub nomt_head_key : Bytes
nomt_head_key = replicate 32 0xff

abbrev pub path_leb : Bytes × Bytes → Bytes × Bytes → Bool
path_leb a b = bytes_leb a.0 b.0

-- The key-value writes of the NOMT session, sorted by key path.
pub nomt_updates : List PendingEntry → ℕ → List (Bytes × Bytes)
unfolding sort_by tree_index_from_key
nomt_updates entries block_number = sort_by path_leb (
    map (λ e. (tree_index_from_key e.key.stem e.key.subindex, e.value)) entries
    ++ (nomt_head_key, to_be_bytes 8 block_number) ∷ [])

-- The deltas and the addresses of new stems, in the order in which they are pushed.
abbrev pub Log : Type 0
Log = List Delta × List (Stem × Address)

-- `new_stem_addresses.push(..)` for a stem that is not in MDBX.
abbrev pub note_fresh : Bool → PendingEntry → Log → Log
note_fresh true e (ds, as') = (ds, as' ++ (e.key.stem, e.address) ∷ [])
note_fresh false e (ds, as') = (ds, as')

-- `if old_value != *value { deltas.push(..) }`
abbrev pub note_delta : B256 → PendingEntry → Log → Log
note_delta old e (ds, as') =
    (if old == e.value then ds else ds ++ (e.key.stem, e.key.subindex, old) ∷ [], as')

-- A warning is logged for an error, and the method goes on.
abbrev pub warn_only : {A : Type 0} → Result A → Result (Unit {0})
warn_only (ok a) = ok tt
warn_only (err e) = ok tt
warn_only (panic m) = panic m

module _ (P : Parts) where
  open P use {ubt, store, index, trie}

  -- `session.warm_up(..)` for each path.
  pub warm_up_all : List (Bytes × Bytes) → trie.Session → trie.Session
  warm_up_all [] session = session
  warm_up_all ((path, _) ∷ rest) session = warm_up_all rest (trie.warm_up path session)

  -- `finished.commit(&self.nomt)`
  pub commit_finished : trie.Finished → Method P (Unit {0})
  commit_finished finished s =
      (map_err (trie.commit finished s.nomt).0, record s { nomt = (trie.commit finished s.nomt).1 })

  pub commit_nomt : List PendingEntry → ℕ → Method P (Unit {0})
  unfolding warm_up_all commit_finished nomt_updates
  commit_nomt entries block_number s =
      let updates = nomt_updates entries block_number in
      let session = warm_up_all updates (trie.begin_session s.nomt) in
      (lift (map_err (trie.finish updates session)) >>= commit_finished) s

  -- One round of the loop over the entries.
  pub commit_entry : store.Db → PendingEntry → Log → Exec (Dirty P) Log
  commit_entry db e log = do
    fresh ← seed_stem P db e.key.stem
    node ← expect_stem P e.key.stem
    modify (insert e.key.stem (ubt.set_value node e.key.subindex e.value))
    pure (note_delta (value_at ubt node e.key.subindex) e (note_fresh fresh e log))

  pub commit_entries : store.Db → List PendingEntry → Log → Exec (Dirty P) Log
  unfolding commit_entry
  commit_entries db [] log = pure log
  commit_entries db (e ∷ es) log = do log' ← commit_entry db e log; commit_entries db es log'

  -- `if !dirty.is_empty() { self.db.batch_update_stems(&dirty)?; }`
  unfoldable pub write_dirty : Dirty P → Method P (Unit {0})
  write_dirty dirty = when (not (is_empty dirty)) (on_db P (store.batch_update_stems dirty))

  -- The same after `self.dirty_stems.drain().collect()`.
  unfoldable pub flush_dirty : Method P (Unit {0})
  unfolding write_dirty
  flush_dirty s = write_dirty s.dirty_stems (record s { dirty_stems = [] })

  -- `compute_root_from_db`
  unfoldable pub compute_root_from_db : store.Db → Result B256
  compute_root_from_db db =
      result_bind (store.iter_entries_sorted db) (λ entries. ok (ubt.build_root_hash entries))

  unfoldable pub prune : ℕ → Method P (Unit {0})
  prune block_number s =
      if ltb s.delta_retention block_number
      then (
        warn_only (store.prune_deltas_before (block_number - s.delta_retention) s.db).0,
        record s { db = (store.prune_deltas_before (block_number - s.delta_retention) s.db).1 },
      )
      else (ok tt, s)

  abbrev pub head_at : ℕ → B256 → B256 → UbtExEx P → UbtHead
  head_at n hash root s = record {
    block_number = n;
    block_hash = hash;
    root = root;
    stem_count = s.stem_count;
  }

  -- The branch of `commit` that flushes, from the computed root to its return.
  unfoldable pub save_heads : ℕ → B256 → B256 → Method P B256
  unfolding prune
  save_heads block_number block_hash root = do
    λ s. on_db P (store.save_head (head_at block_number block_hash root s)) s
    λ s. on_index P (index.save_head block_number block_hash root s.stem_count) s
    modify (λ s. record s {
      last_persisted_block = block_number;
      last_persisted_hash = block_hash;
      last_root = root;
    })
    prune block_number
    pure root

  -- The whole branch.
  unfoldable pub flush : ℕ → B256 → Method P B256
  unfolding flush_dirty compute_root_from_db save_heads
  flush block_number block_hash = do
    flush_dirty
    root ← reads (λ s. compute_root_from_db s.db)
    save_heads block_number block_hash root

  -- The difference is read only where the block is past the persisted one.
  abbrev pub should_flush : ℕ → UbtExEx P → Bool
  should_flush block_number s =
      leb block_number s.last_persisted_block
      || leb s.flush_interval (block_number - s.last_persisted_block)

  -- `std::mem::take(&mut self.pending_entries)`
  abbrev pub take_pending : Method P (List PendingEntry)
  take_pending s = (ok s.pending_entries, record s { pending_entries = [] })

  abbrev pub index_updates : List PendingEntry → List (Stem × ℕ × Address)
  index_updates = map (λ e. (e.key.stem, e.key.subindex, e.address))

  pub save_fresh : List (Stem × Address) → Method P (Unit {0})
  save_fresh fresh = when (not (is_empty fresh)) (on_db P (store.batch_save_stem_addresses fresh))

  pub update_index : List PendingEntry → Method P (Unit {0})
  update_index entries = do
    new_stems ← on_index P (index.apply_updates (index_updates entries))
    modify (λ s. record s { stem_count = (s.stem_count + new_stems) % 2 ^ 64 })

  pub save_deltas : ℕ → List Delta → Method P (Unit {0})
  save_deltas block_number deltas =
      when (not (is_empty deltas)) (on_db P (store.save_block_deltas block_number deltas))

  -- What follows the loop: the stem addresses, the key index and the deltas.
  pub record_rest : List PendingEntry → ℕ → Log → Method P (Unit {0})
  unfolding save_fresh update_index save_deltas
  record_rest entries block_number log = do
    save_fresh log.1
    update_index entries
    save_deltas block_number log.0

  pub record_entries : List PendingEntry → ℕ → Method P (Unit {0})
  unfolding commit_entries record_rest
  record_entries entries block_number = do
    log ← on_dirty P (λ db. commit_entries db entries ([], []))
    record_rest entries block_number log

  flush_or_not : ℕ → B256 → Method P B256
  unfolding flush
  flush_or_not block_number block_hash s =
      if should_flush block_number s then flush block_number block_hash s else (ok s.last_root, s)

  pub commit : ℕ → B256 → Method P B256
  unfolding commit_nomt record_entries flush_or_not
  commit block_number block_hash = do
    entries ← take_pending
    commit_nomt entries block_number
    record_entries entries block_number
    modify (λ s. record s { last_block = block_number; last_hash = block_hash })
    flush_or_not block_number block_hash
