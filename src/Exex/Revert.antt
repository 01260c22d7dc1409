-- ===== src/Exex/Revert.antt =====
-- `revert` and `shutdown` of src/ubt_exex.rs.
pub mod Blocks
pub mod Persist
pub mod Correct
pub mod Ordered
pub mod Described
use ubt_exex.Common.{
  ℕ, ◌-◌, Bool, true, false, Option, none, some, List, [], ◌∷◌, map, reverse, ltb, leb, not, ◌||◌,
  if◌then◌else◌, ok, length,
}
use ubt_exex.Common.Order.{sort_by, min_by}
use ubt_exex.Common.Exec.{pure, reads, modify, when, ◌>>=◌, ◌>>◌}
use ubt_exex.Tree.{B256, zero_hash}
use ubt_exex.Exex.{Parts, UbtExEx, is_empty, Method, on_db, apply_deltas_reverse}
use ubt_exex.Exex.Commit.{flush_dirty, compute_root_from_db, head_at}

-- `chain.blocks()`: the numbers of the blocks with the parent's hash of each.
abbrev pub Blocks : Type 0
Blocks = List (ℕ × B256)

-- Sorted, then reversed.
abbrev pub block_numbers : Blocks → List ℕ
block_numbers blocks = reverse (sort_by leb (map (λ b. b.0) blocks))

-- `blocks.keys().any(|&b| b <= self.last_persisted_block)`
pub any_persisted : Blocks → ℕ → Bool
any_persisted [] persisted = false
any_persisted ((n, _) ∷ blocks) persisted = leb n persisted || any_persisted blocks persisted

-- The block before the first reverted one.
abbrev pub block_before : ℕ × B256 → ℕ × B256
block_before (n, parent) = if ltb 0 n then (n - 1, parent) else (0, zero_hash)

abbrev pub first_reverted : Blocks → Option (ℕ × B256)
first_reverted = min_by (λ a b. leb a.0 b.0)

module _ (P : Parts) where
  open P use {ubt, store, trie}

  -- A failed rollback is logged, and the method goes on.
  pub rollback_nomt : List ℕ → Method P (Unit {0})
  rollback_nomt numbers s =
      if is_empty numbers
      then (ok tt, s)
      else (ok tt, record s { nomt = (trie.rollback (length numbers) s.nomt).1 })

  -- One round of the loop over the block numbers.
  pub revert_block : ℕ → Method P (Unit {0})
  revert_block n = do
    deltas ← reads (λ s. store.load_block_deltas n s.db)
    apply_deltas_reverse P deltas
    λ s. when (ltb s.last_persisted_block n) (on_db P (store.delete_block_deltas n)) s

  pub revert_blocks : List ℕ → Method P (Unit {0})
  unfolding revert_block
  revert_blocks [] = pure tt
  revert_blocks (n ∷ ns) = do revert_block n; revert_blocks ns

  pub rewound : Option (ℕ × B256) → UbtExEx P → UbtExEx P
  rewound none s = s
  rewound (some b) s = record s { last_block = (block_before b).0; last_hash = (block_before b).1 }

  -- `last_block` and `last_hash` go back to the parent of the first reverted block.
  pub rewind : Blocks → Method P (Unit {0})
  unfolding rewound
  rewind blocks = modify (rewound (first_reverted blocks))

  -- `self.db.save_head(&head)?` with a head at `last_block`.
  pub save_last : B256 → Method P B256
  save_last root = do
    λ s. on_db P (store.save_head (head_at P s.last_block s.last_hash root s)) s
    pure root

  -- The overlay goes to MDBX with a head at `last_block`: the end of `shutdown`, and of `revert`.
  pub persist : Method P B256
  unfolding flush_dirty compute_root_from_db save_last
  persist = do flush_dirty P; root ← reads (λ s. compute_root_from_db P s.db); save_last root

  -- The branch of `revert` for a chain that reaches below the persisted block.
  pub persist_reverted : Method P (Unit {0})
  unfolding persist
  persist_reverted = do
    root ← persist
    modify (λ s. record s {
      last_persisted_block = s.last_block;
      last_persisted_hash = s.last_hash;
      last_root = root;
    })

  pub revert : Blocks → Method P (Unit {0})
  unfolding rollback_nomt revert_blocks rewind persist_reverted
  revert blocks = do
    rollback_nomt (block_numbers blocks)
    revert_blocks (block_numbers blocks)
    rewind blocks
    λ s. when (any_persisted blocks s.last_persisted_block) persist_reverted s

  unfoldable pub shutdown : Method P (Unit {0})
  unfolding persist
  shutdown = do persist; pure tt
