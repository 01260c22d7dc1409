-- ===== src/Exex/Revert/Correct.antt =====
-- `revert` of src/ubt_exex.rs as a whole.
use ubt_exex.Common.{
  ℕ, Bool, true, false, List, [], ◌∷◌, Option, none, some, ◌≡◌, refl, ap, ◌∙◌, sym, ◌⊎◌, inl, inr,
  nat_eq, list_eq,
}
use ubt_exex.Common.Exec.{Ensures, Ensures-bind, Ensures-weaken, when}
use ubt_exex.Tree.{TreeKey, B256, IsUbt}
use ubt_exex.Store.{IsStore, UbtHead}
use ubt_exex.Index.{IsIndex}
use ubt_exex.Exex.{Parts, PendingEntry, UbtExEx}
use ubt_exex.Exex.Steps.{visible, IsReady, StaysReady, when_step}
use ubt_exex.Exex.Effect.{Effect, policy}
use ubt_exex.Exex.Commit.{head_at}
use ubt_exex.Exex.Commit.Drain.{IsRootOf}
use ubt_exex.Exex.Revert.{
  Blocks, block_numbers, any_persisted, block_before, first_reverted, rollback_nomt, revert_blocks,
  rewound, rewind, persist, persist_reverted, revert,
}
use ubt_exex.Exex.Revert.Blocks.{undo_blocks, forget_all, revert_blocks-Effect}
use ubt_exex.Exex.Revert.Persist.{Persisted, persist-Persisted}

module _ (P : Parts) (laws : IsUbt P.ubt) (stored : IsStore P.store)
    (indexed : IsIndex P.index) where
  open P use {ubt, store, index, trie}

  -- The reverted chain reaches below the persisted block: MDBX and the head go back too.
  pub record BelowPersisted (blocks : Blocks) (s s' : UbtExEx P) : Type 0 where
    pub below : any_persisted blocks s.last_persisted_block ≡ true
    pub root : B256
    pub root_after : IsRootOf P stored indexed root s'.db
    pub dirty_after : s'.dirty_stems ≡ []
    pub head_after :
        (store.contents s'.db).head ≡ some (head_at P s'.last_block s'.last_hash root s')
    pub persisted : policy P s' ≡ (
      s.pending_entries, s'.last_block, s'.last_hash, root, s.flush_interval, s.delta_retention,
    )

  pub record AbovePersisted (blocks : Blocks) (s s' : UbtExEx P) : Type 0 where
    pub above : any_persisted blocks s.last_persisted_block ≡ false
    pub stems_after : (store.contents s'.db).stems ≡ (store.contents s.db).stems
    pub head_after : (store.contents s'.db).head ≡ (store.contents s.db).head
    pub persisted : policy P s' ≡ policy P s

  -- The last block is the one before the first reverted one.
  abbrev pub RewoundTo : Option (ℕ × B256) → UbtExEx P → Type 0
  RewoundTo none s = Unit {0}
  RewoundTo (some b) s = (s.last_block ≡ (block_before b).0) × (s.last_hash ≡ (block_before b).1)

  pub record Reverted (blocks : Blocks) (s s' : UbtExEx P) : Type 0 where
    pub visible_after :
        (key : TreeKey)
        → visible P s' key
          ≡ undo_blocks
              (block_numbers blocks)
              s.last_persisted_block
              (store.contents s.db).deltas
              (visible P s)
              key
    pub ready : IsReady P s'
    pub deltas_after :
        (store.contents s'.db).deltas
        ≡ forget_all (block_numbers blocks) s.last_persisted_block (store.contents s.db).deltas
    pub last_after : RewoundTo (first_reverted blocks) s'
    pub reach : BelowPersisted blocks s s' ⊎ AbovePersisted blocks s s'

  -- What the loop of `revert` does to the state.
  abbrev Undone : Blocks → UbtExEx P → UbtExEx P → Type 0
  Undone blocks s t =
      Effect P
        (undo_blocks (block_numbers blocks) s.last_persisted_block (store.contents s.db).deltas)
        (forget_all (block_numbers blocks) s.last_persisted_block) s t

  rewound-Undone :
      (blocks : Blocks) (o : Option (ℕ × B256)) (s t : UbtExEx P)
      → Undone blocks s t
      → Undone blocks s (rewound P o t)
  unfolding rewound
  rewound-Undone blocks none s t h = h
  rewound-Undone blocks (some b) s t h = record {
    visible_after = h.visible_after;
    deltas_after = h.deltas_after;
    stems_after = h.stems_after;
    head_after = h.head_after;
    ready = h.ready;
    same_policy = h.same_policy;
  }

  rewound-RewoundTo : (o : Option (ℕ × B256)) (t : UbtExEx P) → RewoundTo o (rewound P o t)
  unfolding rewound
  rewound-RewoundTo none t = tt
  rewound-RewoundTo (some b) t = (refl, refl)

  -- Only the two fields matter.
  RewoundTo-same :
      (o : Option (ℕ × B256)) (t u : UbtExEx P)
      → u.last_block ≡ t.last_block
      → u.last_hash ≡ t.last_hash
      → RewoundTo o t
      → RewoundTo o u
  RewoundTo-same none t u p q h = tt
  RewoundTo-same (some b) t u p q h = (p ∙ h.0, q ∙ h.1)

  below :
      (blocks : Blocks) (s t s' : UbtExEx P) (root : B256)
      → any_persisted blocks s.last_persisted_block ≡ true
      → IsReady P s
      → Undone blocks s t
      → RewoundTo (first_reverted blocks) t
      → Persisted P laws stored indexed t root s'
      → Reverted blocks s (record s' {
        last_persisted_block = s'.last_block;
        last_persisted_hash = s'.last_hash;
        last_root = root;
      })
  unfolding IsRootOf
  below blocks s t s' root reached ready h last k = record {
    visible_after = λ key. k.visible_after (h.ready ready) key ∙ h.visible_after key;
    ready = rw k.dirty_after tt;
    deltas_after = k.deltas_after ∙ h.deltas_after;
    last_after =
        RewoundTo-same (first_reverted blocks) t _ k.last_block_after k.last_hash_after last;
    reach = inl (record {
      below = reached;
      root = root;
      root_after = k.root_after;
      dirty_after = k.dirty_after;
      head_after =
          k.head_after
          ∙ head_eq (sym k.last_block_after) (sym k.last_hash_after) (sym k.stem_count_after);
      persisted =
          ap
            (λ (q : List PendingEntry × ℕ × B256 × B256 × ℕ × ℕ).
              (q.0, s'.last_block, s'.last_hash, root, q.4, q.5))
            (k.policy_after ∙ h.same_policy);
    });
  }
    where
      head_eq :
          {n n' : ℕ} {x x' : B256} {c c' : ℕ} {r : B256}
          → n ≡ n'
          → x ≡ x'
          → c ≡ c'
          → some (
              let u : UbtHead = record {
                block_number = n;
                block_hash = x;
                root = r;
                stem_count = c;
              } in
              u)
            ≡ some (record { block_number = n'; block_hash = x'; root = r; stem_count = c' })
      head_eq p q r = rw (p, q, r)

  above :
      (blocks : Blocks) (s t : UbtExEx P)
      → any_persisted blocks s.last_persisted_block ≡ false
      → IsReady P s
      → Undone blocks s t
      → RewoundTo (first_reverted blocks) t
      → Reverted blocks s t
  above blocks s t reached ready h last = record {
    visible_after = h.visible_after;
    ready = h.ready ready;
    deltas_after = h.deltas_after;
    last_after = last;
    reach = inr (record {
      above = reached;
      stems_after = h.stems_after;
      head_after = h.head_after;
      persisted = h.same_policy;
    });
  }

  finish :
      (blocks : Blocks) (s t : UbtExEx P)
      → IsReady P s
      → Undone blocks s t
      → RewoundTo (first_reverted blocks) t
      → Ensures
          (λ _ s'. Reverted blocks s s')
          (StaysReady P)
          (when (any_persisted blocks t.last_persisted_block) (persist_reverted P) t)
  unfolding persist_reverted
  finish blocks s t ready h last =
      when_step (any_persisted blocks t.last_persisted_block) (persist_reverted P) t
        (λ reached.
          Ensures-bind (persist P t) _
            (Ensures-weaken _ (persist-Persisted P laws stored indexed t) (λ _ _ k. k)
              (λ _ _ p. rw p tt))
            (λ root s' k. record { post = below blocks s t s' root (same reached) ready h last k }))
        (λ missed. above blocks s t (same missed) ready h last)
    where
      same :
          {b : Bool}
          → any_persisted blocks t.last_persisted_block ≡ b
          → any_persisted blocks s.last_persisted_block ≡ b
      same p =
          sym (
            ap (λ (q : List PendingEntry × ℕ × B256 × B256 × ℕ × ℕ). any_persisted blocks q.1)
              h.same_policy)
          ∙ p

  rolled_back-Quiet :
      (ns : List ℕ) (s : UbtExEx P)
      → Ensures
          (λ _ t. (x : trie.State) × (t ≡ record s { nomt = x }))
          (λ _ _. ⊥)
          (rollback_nomt P ns s)
  unfolding rollback_nomt
  rolled_back-Quiet [] s = record { post = (s.nomt, refl) }
  rolled_back-Quiet (n ∷ ns) s = record { post = (_, refl) }

  -- From a ready state `revert` never panics. If it returns, the stored deltas of its blocks are
  -- undone, newest block first and each last to first, and those of blocks that are not persisted
  -- are deleted. The last block is the parent of the first one reverted. If the chain reaches a
  -- persisted block, MDBX is written with the root of its stems and a head at the new last block;
  -- else the stems and the head stay. If it fails, the overlay still holds each stem once.
  pub revert-Reverted :
      (blocks : Blocks) (s : UbtExEx P)
      → IsReady P s
      → Ensures (λ _ s'. Reverted blocks s s') (StaysReady P) (revert P blocks s)
  unfolding revert rewind
  revert-Reverted blocks s ready =
      Ensures-bind (rollback_nomt P (block_numbers blocks) s) _
        (Ensures-weaken _ (rolled_back-Quiet (block_numbers blocks) s) (λ _ _ h. h)
          (λ _ _ h. absurd h))
        (λ _ t (x, p). rw p (
          Ensures-bind (revert_blocks P (block_numbers blocks) (record s { nomt = x })) _
            (Ensures-weaken _
              (revert_blocks-Effect P laws stored (block_numbers blocks) (record s { nomt = x }))
              (λ _ _ h. h) (λ _ _ h. h ready))
            (λ _ u h.
              finish blocks s (rewound P (first_reverted blocks) u) ready
                (rewound-Undone blocks (first_reverted blocks) s u (with_nomt blocks s u x h))
                (rewound-RewoundTo (first_reverted blocks) u))))
    where
      with_nomt :
          (blocks : Blocks) (s u : UbtExEx P) (x : trie.State)
          → Undone blocks (record s { nomt = x }) u
          → Undone blocks s u
      with_nomt blocks s u x h = record {
        visible_after = h.visible_after;
        deltas_after = h.deltas_after;
        stems_after = h.stems_after;
        head_after = h.head_after;
        ready = h.ready;
        same_policy = h.same_policy;
      }
