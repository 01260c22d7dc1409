-- ===== src/Tests/Exex.antt =====
-- One pending entry, committed, flushed and reverted on the parts in memory.
use ubt_exex.Exex.Lifecycle.{chain_reorged}
use ubt_exex.Exex.Reorg.{committed-reorged}
use ubt_exex.Common.{
  arith, inl, inr, Any, ap, sym, ◌∙◌, get_or, some, List, done, failed, Option, if◌then◌else◌, ◌==◌,
}
use ubt_exex.Common.Exec.{Answers}
use ubt_exex.Exex.{get_stem}
use ubt_exex.Exex.Overlay.{value_in}
use ubt_exex.Exex.Commit.Entries.{write_entries}
use ubt_exex.Exex.Lifecycle.{Chain, chain_committed, handle, bundle_entries}
use ubt_exex.Exex.Reads.{get_stem_lem, handle-Named}
use ubt_exex.Exex.Named.{Named, basic, hash, chunk, slot}
use ubt_exex.Common.Bytes.{to_be_bytes}
use ubt_exex.Exex.Lifecycle.{AccountInfo, BundleAccount}
use ubt_exex.Tree.{Address}
use mathlib.Core.Path.{subst}
use ubt_exex.Common.{ℕ, none, [], ◌∷◌, ◌≡◌, refl, replicate, Result, list_eq, nat_eq}
use ubt_exex.Common.Exec.{Ensures, ◌>>=◌}
use ubt_exex.Tree.{B256, TreeKey, tree_key, Stem, zero_hash}
use ubt_exex.Exex.{PendingEntry, UbtExEx}
use ubt_exex.Exex.Steps.{visible, IsReady, StaysReady}
use ubt_exex.Exex.Commit.{commit}
use ubt_exex.Exex.Commit.Correct.{Committed, commit-Committed}
use ubt_exex.Exex.Revert.{revert}
use ubt_exex.Exex.Revert.{Blocks}
use ubt_exex.Exex.Revert.Described.{Undone, revert-Undone}
use ubt_exex.Exex.Restore.{commit-revert}
use ubt_exex.Exex.Lifecycle.{chain_reverted}
use ubt_exex.Exex.Loop.{Turn, notified, terminated}
use ubt_exex.Exex.Loop.Ended.{Ended}
use ubt_exex.Tests.Memory.{memory, memory_ubt, stem_of, Db}
use ubt_exex.Tests.Laws.{memory-IsUbt, memory-IsStore, memory-IsIndex}

abbrev hash_of : ℕ → B256
hash_of b = replicate 32 b

abbrev stem1 : Stem
stem1 = replicate 31 2

abbrev entry1 : PendingEntry
entry1 = record { key = tree_key stem1 0; value = hash_of 7; address = replicate 20 1 }

abbrev pub empty_db : Db
empty_db = record { table = []; addresses = λ _. none; deltas = λ _. none; head = none }

-- A fresh state with one pending entry, which flushes at every block.
abbrev fresh : UbtExEx memory
fresh = record {
  db = empty_db;
  last_block = 0;
  last_hash = zero_hash;
  last_root = zero_hash;
  pending_entries = entry1 ∷ [];
  dirty_stems = [];
  nomt = [];
  key_index = none;
  flush_interval = 1;
  delta_retention = 2;
  last_persisted_block = 0;
  last_persisted_hash = zero_hash;
  stem_count = 0;
}

abbrev result_of : {A S : Type 0} → Result A × S → Result A
result_of r = r.0

commit-Committed_example :
    Ensures
      (λ root s'. Committed memory 1 (hash_of 9) fresh root s')
      (λ _ s'. IsReady memory s')
      (commit memory 1 (hash_of 9) fresh)
commit-Committed_example =
    commit-Committed memory memory-IsUbt memory-IsStore memory-IsIndex 1 (hash_of 9) fresh tt

commit-revert_example :
    Ensures
      (λ _ s'. (key : TreeKey) → visible memory s' key ≡ visible memory fresh key)
      (StaysReady memory)
      ((commit memory 1 (hash_of 9) >>= λ _. revert memory ((1, hash_of 8) ∷ [])) fresh)
commit-revert_example =
    commit-revert memory memory-IsUbt memory-IsStore memory-IsIndex 1 (hash_of 9) (hash_of 8) fresh
      tt (omega arith) refl

-- Blocks 1 and 2, of which the first is persisted.
abbrev two_blocks : Blocks
two_blocks = (1, hash_of 8) ∷ (2, hash_of 9) ∷ []

abbrev persisted1 : UbtExEx memory
persisted1 = record fresh {
  last_block = 2;
  last_persisted_block = 1;
  db = record empty_db {
    deltas = λ n. if n == 2 then some ((stem1, 0, hash_of 3) ∷ []) else some [];
  };
}

revert-Undone_example :
    Ensures
      (λ _ s'. Undone memory memory-IsUbt memory-IsStore memory-IsIndex two_blocks persisted1 s')
      (StaysReady memory)
      (revert memory two_blocks persisted1)
revert-Undone_example =
    revert-Undone memory memory-IsUbt memory-IsStore memory-IsIndex two_blocks persisted1 tt

-- A chain that is reverted, one whose event cannot be sent, and a signal that comes too late.
abbrev three_turns : List Turn
three_turns =
    notified
      (chain_reverted (record {
        bundle = [];
        blocks = (1, hash_of 8) ∷ [];
        tip_number = 1;
        tip_hash = hash_of 9;
      }))
      (done tt)
    ∷ notified
        (chain_committed (record {
          bundle = [];
          blocks = (1, hash_of 8) ∷ [];
          tip_number = 1;
          tip_hash = hash_of 9;
        }))
        (failed "channel closed")
    ∷ terminated
    ∷ []

-- A chain of one block that changes an account with code and one slot.
abbrev chain1 : Chain
chain1 = record {
  bundle =
      (
        replicate 20 1,
        record {
          info = some (record {
            nonce = 1;
            balance = 1000;
            code_hash = hash_of 6;
            code = some (3, 1 ∷ 2 ∷ 3 ∷ []);
          });
          storage = (0, 42) ∷ [];
        },
      )
      ∷ [];
  blocks = (1, hash_of 8) ∷ [];
  tip_number = 1;
  tip_hash = hash_of 9;
}

-- A chain whose only account has one slot.
abbrev slot_chain : Chain
slot_chain = record chain1 {
  bundle = (replicate 20 1, record { info = none; storage = (0, 42) ∷ [] }) ∷ [];
}

abbrev slot_key : TreeKey
slot_key = tree_key (stem_of 2 (replicate 20 1)) 0

abbrev nothing_pending : UbtExEx memory
nothing_pending = record fresh { pending_entries = [] }

no_info :
    (address : Address) (account : BundleAccount) (info : AccountInfo)
    → Any (λ x. x ≡ (address, account)) slot_chain.bundle
    → account.info ≡ some info
    → ⊥
no_info address account info (inl p) q =
    none_some (ap (λ (x : Address × BundleAccount). x.1.info) p ∙ q)
  where
    none_some : (let o : Option AccountInfo = none in o) ≡ some info → ⊥
    none_some r = cc
no_info address account info (inr m) q = absurd m

the_slot :
    (address : Address) (account : BundleAccount) (n v : ℕ)
    → Any (λ x. x ≡ (address, account)) slot_chain.bundle
    → Any (λ x. x ≡ (n, v)) account.storage
    → (replicate 20 1 ≡ address) × (42 ≡ v)
the_slot address account n v (inr m) k = absurd m
the_slot address account n v (inl p) k = (
  ap (λ (x : Address × BundleAccount). x.0) p,
  by_slot (subst (λ (x : Address × BundleAccount). Any (λ y. y ≡ (n, v)) x.1.storage) (sym p) k),
)
  where
    by_slot : Any {A = ℕ × ℕ} (λ y. y ≡ (n, v)) ((0, 42) ∷ []) → 42 ≡ v
    by_slot (inl q) = ap (λ (x : ℕ × ℕ). x.1) q
    by_slot (inr q) = absurd q

-- The bundle asks for one value.
slot_chain-Named :
    (k : TreeKey) (v : B256)
    → Named memory_ubt slot_chain.bundle k v
    → (slot_key ≡ k) × (to_be_bytes 32 42 ≡ v)
slot_chain-Named _ _ (basic address account info m q) = absurd (no_info address account info m q)
slot_chain-Named _ _ (hash address account info m q a b) = absurd (no_info address account info m q)
slot_chain-Named _ _ (chunk address account info size code i v m q a b r x) =
    absurd (no_info address account info m q)
slot_chain-Named _ _ (slot address account n v m k) =
    let h : (replicate 20 1 ≡ address) × (42 ≡ v) = the_slot address account n v m k in
    (ap (λ a. tree_key (stem_of 2 a) 0) h.0, ap (to_be_bytes 32) h.1)

slot_apart : slot_key ≡ tree_key stem1 0 → ⊥
slot_apart p = ones (ap (λ (k : TreeKey). get_or k.stem 0 0) p)
  where
    ones : (let n : ℕ = 1 in n) ≡ 2 → ⊥
    ones q = omega (arith, q)

handle-Named_example :
    Ensures
      (λ _ s'.
        (visible memory s' slot_key ≡ to_be_bytes 32 42)
        × (visible memory s' (tree_key stem1 0)
            ≡ visible memory nothing_pending (tree_key stem1 0)))
      (StaysReady memory)
      (handle memory (chain_committed slot_chain) nothing_pending)
handle-Named_example =
    handle-Named memory memory-IsUbt memory-IsStore memory-IsIndex slot_chain nothing_pending
      (λ _. to_be_bytes 32 42) slot_key (to_be_bytes 32 42) (tree_key stem1 0) tt refl
      (λ k v h. (slot_chain-Named k v h).1)
      (slot (replicate 20 1) (record { info = none; storage = (0, 42) ∷ [] }) 0 42 (inl refl)
        (inl refl))
      (λ v h. slot_apart (slot_chain-Named (tree_key stem1 0) v h).0)

get_stem_lem_example :
    Answers
      (λ o. value_in memory o 0 ≡ visible memory fresh (tree_key stem1 0))
      (get_stem memory stem1 fresh)
get_stem_lem_example = get_stem_lem memory memory-IsStore stem1 0 fresh

-- Another block of the same number, which only sets the slot to another value.
abbrev chain2 : Chain
chain2 = record {
  bundle = (replicate 20 1, record { info = none; storage = (0, 43) ∷ [] }) ∷ [];
  blocks = (1, hash_of 8) ∷ [];
  tip_number = 1;
  tip_hash = hash_of 10;
}

committed-reorged_example :
    Ensures
      (λ _ v.
        (key : TreeKey)
        → visible memory v key
          ≡ write_entries (bundle_entries memory chain2.bundle) (visible memory fresh) key)
      (StaysReady memory)
      ((handle memory (chain_committed chain1) >>= λ _. handle memory (chain_reorged chain1 chain2))
        fresh)
committed-reorged_example =
    committed-reorged memory memory-IsUbt memory-IsStore memory-IsIndex chain1 chain1 chain2
      (hash_of 8) fresh tt (omega arith) refl refl
