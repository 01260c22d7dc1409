-- ===== src/Exex/Revert/Described.antt =====
-- `revert` of src/ubt_exex.rs, with the order of its loop, the block that it goes back to and the
-- test for persisted blocks described apart from the code.
use ubt_exex.Common.{
  ℕ, ◌-◌, ◌≤◌, ◌<◌, true, false, some, List, [], map, ◌≡◌, ap, ◌∙◌, ◌⊎◌, inl, inr, arith, leb, ltb,
  nat_eq, ◌==◌, if◌then◌else◌, All, Any, Bool-cases,
}
use ubt_exex.Common.Order.{sort_by}
use ubt_exex.Common.Exec.{Ensures, Ensures-weaken}
use ubt_exex.Tree.{TreeKey, B256, IsUbt, zero_hash}
use ubt_exex.Store.{IsStore}
use ubt_exex.Index.{IsIndex}
use ubt_exex.Exex.{Parts, PendingEntry, UbtExEx}
use ubt_exex.Exex.Commit.Drain.{IsRootOf}
use ubt_exex.Exex.Steps.{visible, IsReady, StaysReady}
use ubt_exex.Exex.Revert.{Blocks, block_numbers, block_before, revert}
use ubt_exex.Exex.Revert.Blocks.{undo_blocks, forget_all}
use ubt_exex.Exex.Revert.Correct.{Reverted, revert-Reverted}
use ubt_exex.Exex.Revert.Ordered.{
  Falling, count, count-reverse, count-sort_by, sort_by-Climbing, reverse-Falling, Oldest,
  first_reverted-Oldest, any_persisted-Any, any_persisted-All,
}

module _ (P : Parts) (laws : IsUbt P.ubt) (stored : IsStore P.store)
    (indexed : IsIndex P.index) where
  open P use {store}

  -- The last block is the one before the oldest block reverted: the one of the number below, with
  -- the hash of the parent, or number 0 with the hash zero if the oldest has the number 0.
  pub record IsBefore (b : ℕ × B256) (s : UbtExEx P) : Type 0 where
    pub number : s.last_block ≡ b.0 - 1
    pub hash : s.last_hash ≡ (if b.0 == 0 then zero_hash else b.1)

  -- Some block is persisted: MDBX has the root of its stems and a head at the new last block, which
  -- is now the persisted one.
  pub record Lowered (blocks : Blocks) (s s' : UbtExEx P) : Type 0 where
    pub reached : Any (λ b. b.0 ≤ s.last_persisted_block) blocks
    pub root : B256
    pub root_is : IsRootOf P stored indexed root s'.db
    pub head_is :
        (store.contents s'.db).head
        ≡ some (record {
          block_number = s'.last_block;
          block_hash = s'.last_hash;
          root = root;
          stem_count = s'.stem_count;
        })
    pub overlay : s'.dirty_stems ≡ []
    pub persisted_block : s'.last_persisted_block ≡ s'.last_block
    pub persisted_hash : s'.last_persisted_hash ≡ s'.last_hash
    pub last_root : s'.last_root ≡ root

  -- No block is persisted: what is stored of the stems and the head stays.
  pub record Untouched (blocks : Blocks) (s s' : UbtExEx P) : Type 0 where
    pub missed : All (λ b. s.last_persisted_block < b.0) blocks
    pub stems : (store.contents s'.db).stems ≡ (store.contents s.db).stems
    pub head : (store.contents s'.db).head ≡ (store.contents s.db).head
    pub persisted_block : s'.last_persisted_block ≡ s.last_persisted_block
    pub persisted_hash : s'.last_persisted_hash ≡ s.last_persisted_hash
    pub last_root : s'.last_root ≡ s.last_root

  pub record Undone (blocks : Blocks) (s s' : UbtExEx P) : Type 0 where
    pub order : List ℕ
    pub newest_first : Falling order
    pub same_blocks : (n : ℕ) → count n order ≡ count n (map (λ b. b.0) blocks)
    pub visible_after :
        (key : TreeKey)
        → visible P s' key
          ≡ undo_blocks order s.last_persisted_block (store.contents s.db).deltas (visible P s) key
    pub ready : IsReady P s'
    pub deltas_after :
        (store.contents s'.db).deltas
        ≡ forget_all order s.last_persisted_block (store.contents s.db).deltas
    pub last_after : (blocks ≡ []) ⊎ ((b : ℕ × B256) × Oldest blocks b × IsBefore b s')
    pub reach : Lowered blocks s s' ⊎ Untouched blocks s s'

  abbrev Policy : Type 0
  Policy = List PendingEntry × ℕ × B256 × B256 × ℕ × ℕ

  IsBefore-oldest :
      (b : ℕ × B256) (s : UbtExEx P)
      → s.last_block ≡ (block_before b).0
      → s.last_hash ≡ (block_before b).1
      → IsBefore b s
  IsBefore-oldest (n, x) s p q = elim (Bool-cases (ltb 0 n)) [
    | inl h ↦
        let apart : (n == 0) ≡ false = ground (arith, h) in
        record { number = rw h at p; hash = rw apart (rw h at q) }
    | inr h ↦
        let none_left : (n == 0) ≡ true = ground (arith, h) in
        record { number = (rw h at p) ∙ ground (arith, h); hash = rw none_left (rw h at q) }
  ]

  described :
      (blocks : Blocks) (s s' : UbtExEx P)
      → Reverted P laws stored indexed blocks s s'
      → Undone blocks s s'
  described blocks s s' h = record {
    order = block_numbers blocks;
    newest_first = reverse-Falling _ (sort_by-Climbing (map (λ b. b.0) blocks));
    same_blocks = λ n.
        count-reverse n (sort_by leb (map (λ b. b.0) blocks))
        ∙ count-sort_by n (map (λ b. b.0) blocks);
    visible_after = h.visible_after;
    ready = h.ready;
    deltas_after = h.deltas_after;
    last_after = elim (first_reverted-Oldest blocks) [
      | inl p ↦ inl p
      | inr (b, p, oldest) ↦
          let last = rw p at h.last_after in inr (b, oldest, IsBefore-oldest b s' last.0 last.1)
    ];
    reach = elim h.reach [
      | inl k ↦ inl (record {
        reached = any_persisted-Any blocks s.last_persisted_block k.below;
        root = k.root;
        root_is = k.root_after;
        head_is = k.head_after;
        overlay = k.dirty_after;
        persisted_block = ap (λ (q : Policy). q.1) k.persisted;
        persisted_hash = ap (λ (q : Policy). q.2) k.persisted;
        last_root = ap (λ (q : Policy). q.3) k.persisted;
      })
      | inr k ↦ inr (record {
        missed = any_persisted-All blocks s.last_persisted_block k.above;
        stems = k.stems_after;
        head = k.head_after;
        persisted_block = ap (λ (q : Policy). q.1) k.persisted;
        persisted_hash = ap (λ (q : Policy). q.2) k.persisted;
        last_root = ap (λ (q : Policy). q.3) k.persisted;
      })
    ];
  }

  -- From a ready state `revert` never panics. If it returns, the stored deltas of its blocks are
  -- undone, in an order in which no block comes before one of a greater number and each block comes
  -- as often as in the chain, each block's deltas last to first, and those of blocks that are not
  -- persisted are deleted. The last block is the one before the oldest block reverted: its number
  -- is one less and its hash that of the parent, or both are zero where the oldest is block 0. If
  -- some block of the chain is not above the persisted block, MDBX is written with the root of its
  -- stems and a head at the new last block, which becomes the persisted one; if all are above it, the
  -- stems, the head and the persisted block stay. If it fails, the overlay still holds each stem
  -- once.
  pub revert-Undone :
      (blocks : Blocks) (s : UbtExEx P)
      → IsReady P s
      → Ensures (λ _ s'. Undone blocks s s') (StaysReady P) (revert P blocks s)
  revert-Undone blocks s ready =
      Ensures-weaken _ (revert-Reverted P laws stored indexed blocks s ready)
        (λ _ s' h. described blocks s s' h) (λ _ _ h. h)
