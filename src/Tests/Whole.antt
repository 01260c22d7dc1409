-- ===== src/Tests/Whole.antt =====
-- A commit and its revert on MDBX and redb in memory.
use ubt_exex.Common.{none, [], ◌∷◌, ◌≡◌, refl, replicate, arith, list_eq, nat_eq}
use ubt_exex.Common.Exec.{Ensures, ◌>>=◌}
use ubt_exex.Common.Assoc.{lookup}
use ubt_exex.Tree.{IsUbt, TreeKey, tree_key, zero_hash}
use ubt_exex.Exex.{Parts, UbtExEx}
use ubt_exex.Exex.Steps.{visible, StaysReady}
use ubt_exex.Exex.Commit.{commit}
use ubt_exex.Exex.Revert.{revert}
use ubt_exex.Whole.{whole, whole-commit-revert}
use ubt_exex.Tests.Memory.{memory_trie}
use ubt_exex.Tests.Laws.{memory-IsUbt}
use ubt_exex.Tests.Disk.{memory_mdbx, memory_mdbx-IsFfi}
use ubt_exex.Tests.Codecs.{disk_ubt, memory_bincode, memory_bincode-IsBincode, disk_ubt-HasValues}
use ubt_exex.Tests.Files.{memory_redb, memory_redb-IsRedb}

disk_ubt-IsUbt : IsUbt disk_ubt
disk_ubt-IsUbt = record {
  value_at-new = memory-IsUbt.value_at-new;
  value_at-set = memory-IsUbt.value_at-set;
}

abbrev parts : Parts
parts =
    whole disk_ubt-IsUbt memory_mdbx memory_mdbx-IsFfi memory_bincode memory_bincode-IsBincode
      disk_ubt-HasValues memory_redb memory_redb-IsRedb memory_trie

-- One entry is pending, for block 1.
abbrev pending1 : UbtExEx parts
pending1 = record {
  db = λ _. [];
  last_block = 0;
  last_hash = zero_hash;
  last_root = zero_hash;
  pending_entries =
      record { key = tree_key (replicate 31 2) 7; value = replicate 32 1; address = replicate 20 3 }
      ∷ [];
  dirty_stems = [];
  nomt = [];
  key_index = ([], none);
  flush_interval = 1;
  delta_retention = 256;
  last_persisted_block = 0;
  last_persisted_hash = zero_hash;
  stem_count = 0;
}

whole-commit-revert_example :
    Ensures
      (λ _ s'. (key : TreeKey) → visible parts s' key ≡ visible parts pending1 key)
      (StaysReady parts)
      ((commit parts 1 (replicate 32 9) >>= λ _. revert parts ((1, replicate 32 8) ∷ [])) pending1)
whole-commit-revert_example =
    whole-commit-revert disk_ubt-IsUbt memory_mdbx memory_mdbx-IsFfi memory_bincode
      memory_bincode-IsBincode disk_ubt-HasValues memory_redb memory_redb-IsRedb memory_trie 1
      (replicate 32 9) (replicate 32 8) pending1 tt (omega arith) (unfold lookup in refl)
