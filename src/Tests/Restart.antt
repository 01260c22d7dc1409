-- ===== src/Tests/Restart.antt =====
-- A flush on the parts in memory, and what reads its database afterwards.
use ubt_exex.Common.{
  none, some, done, inr, list_beq, [], ◌∷◌, ◌++◌, ◌≡◌, refl, replicate, ok, list_eq, nat_eq, arith,
  ◌==◌, if◌then◌else◌,
}
use ubt_exex.Common.Assoc.{lookup}
use ubt_exex.Common.Bytes.{to_be_bytes}
use ubt_exex.Tree.{B256, tree_key, Stem, zero_hash, key_bytes}
use ubt_exex.Store.{Store}
use ubt_exex.Exex.{UbtExEx}
use ubt_exex.Exex.Commit.{
  flush, flush_dirty, write_dirty, compute_root_from_db, save_heads, prune, nomt_head_key,
}
use ubt_exex.Exex.Lifecycle.{new}
use ubt_exex.Exex.Resume.{StartsFrom, flush-new}
use ubt_exex.PirExport.Delta.{check_window}
use ubt_exex.PirExport.Window.{flush-window}
use ubt_exex.Tests.Memory.{
  memory, memory_store, Writes, push_all, all_entries, sized_entries, node_entries, without_stem,
  is_sorted, all_before, entries_or_fail,
}
use ubt_exex.Tests.Laws.{memory-IsUbt, memory-IsStore, memory-IsIndex}

abbrev hash5 : B256
hash5 = replicate 32 5

abbrev stem2 : Stem
stem2 = replicate 31 2

-- Block 5 is about to be flushed, with one dirty stem, and deltas of blocks 1 and 4 are stored.
abbrev dirty5 : UbtExEx memory
dirty5 = record {
  db = record {
    table = [];
    addresses = λ _. none;
    deltas = λ n. if n == 1 then some [] else some ((stem2, 0, zero_hash) ∷ []);
    head = none;
  };
  last_block = 5;
  last_hash = hash5;
  last_root = zero_hash;
  pending_entries = [];
  dirty_stems = (stem2, (0, hash5) ∷ []) ∷ [];
  nomt = [];
  key_index = none;
  flush_interval = 1;
  delta_retention = 2;
  last_persisted_block = 4;
  last_persisted_hash = zero_hash;
  stem_count = 1;
}

abbrev flushed5 : UbtExEx memory
flushed5 = (flush memory 5 hash5 dirty5).1

abbrev root5 : B256
root5 = key_bytes (tree_key stem2 0) ++ hash5 ++ []

flush5 : flush memory 5 hash5 dirty5 ≡ (ok root5, flushed5)
unfolding flush flush_dirty write_dirty compute_root_from_db save_heads prune push_all all_entries
    sized_entries node_entries without_stem is_sorted all_before entries_or_fail
flush5 = refl

flushed5_entries :
    Store.iter_entries_sorted memory_store flushed5.db ≡ ok ((tree_key stem2 0, hash5) ∷ [])
unfolding flush flush_dirty write_dirty compute_root_from_db save_heads prune push_all all_entries
    sized_entries node_entries without_stem is_sorted all_before entries_or_fail
flushed5_entries = refl

-- NOMT at block 7, two blocks ahead, after three commits.
abbrev trie7 : Writes
trie7 =
    ((nomt_head_key, to_be_bytes 8 7) ∷ [])
    ∷ ((nomt_head_key, to_be_bytes 8 6) ∷ [])
    ∷ ((nomt_head_key, to_be_bytes 8 5) ∷ [])
    ∷ []

trie7_head : memory.trie.read nomt_head_key trie7 ≡ done (some (to_be_bytes 8 7))
unfolding lookup list_beq
trie7_head = refl

flush-new_example :
    (t : UbtExEx memory) × (new memory (ok flushed5.db) (ok none) (done trie7) 1 2 ≡ ok t)
    × StartsFrom memory memory-IsUbt memory-IsStore memory-IsIndex 5 7 hash5 root5 1 trie7 t
flush-new_example =
    flush-new memory memory-IsUbt memory-IsStore memory-IsIndex 5 7 hash5 root5 dirty5 flushed5
      flushed5.db.head ((tree_key stem2 0, hash5) ∷ []) none trie7 1 2 flush5 refl flushed5_entries
      (inr (trie7_head, omega arith))

window5 : check_window 3 5 5 2 ≡ ok tt
unfolding check_window
window5 = refl

flush-window_example : flushed5.db.deltas 4 ≡ dirty5.db.deltas 4
flush-window_example =
    flush-window memory memory-IsStore memory-IsIndex 5 hash5 root5 dirty5 flushed5 3 5 4 flush5
      window5 (omega arith)
