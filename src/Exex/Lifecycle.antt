-- ===== src/Exex/Lifecycle.antt =====
-- `UbtExEx::new`, `get_head`, `process_chain` and what `ubt_exex` does with a notification.
use ubt_exex.Common.{
  ℕ, ◌+◌, ◌-◌, ◌%◌, ◌^◌, Option, none, some, List, [], ◌∷◌, ◌++◌, map, ltb, not, ◌&&◌,
  if◌then◌else◌, ◌==◌, list_eq, nat_eq, ok, err, Result, root_verification_failed, hex, length,
  Foreign, done, failed, map_err,
}
use ubt_exex.Common.Bytes.{Bytes, from_be_bytes, to_be_bytes}
use ubt_exex.Common.Exec.{pure, modify, ◌>>◌}
use ubt_exex.Common.{◌>>=◌ as result_bind}
use ubt_exex.Tree.{B256, Address, zero_hash}
use ubt_exex.Store.{UbtHead}
use ubt_exex.Exex.{Parts, PendingEntry, UbtExEx, Method}
use ubt_exex.Exex.Commit.{commit, compute_root_from_db, nomt_head_key}
use ubt_exex.Exex.Revert.{Blocks, revert}

-- `KECCAK_EMPTY`
abbrev pub keccak_empty : B256
keccak_empty =
    0xc5 ∷ 0xd2 ∷ 0x46 ∷ 0x01 ∷ 0x86 ∷ 0xf7 ∷ 0x23 ∷ 0x3c ∷ 0x92 ∷ 0x7e ∷ 0x7d ∷ 0xb2 ∷ 0xdc ∷ 0xc7
    ∷ 0x03 ∷ 0xc0 ∷ 0xe5 ∷ 0x00 ∷ 0xb6 ∷ 0x53 ∷ 0xca ∷ 0x82 ∷ 0x27 ∷ 0x3b ∷ 0x7b ∷ 0xfa ∷ 0xd8
    ∷ 0x04 ∷ 0x5d ∷ 0x85 ∷ 0xa4 ∷ 0x70 ∷ []

unfoldable pub balance_to_u128 : ℕ → ℕ
balance_to_u128 balance = if ltb (2 ^ 128 - 1) balance then 2 ^ 128 - 1 else balance

unfoldable pub u256_to_b256 : ℕ → B256
u256_to_b256 value = to_be_bytes 32 value

-- What `process_chain` reads of an account in the bundle. Of the code that is `c.len()` and the
-- bytes that `original_byte_slice` returns.
pub record AccountInfo : Type 0 where
  pub nonce : ℕ
  pub balance : ℕ
  pub code_hash : B256
  pub code : Option (ℕ × Bytes)

pub record BundleAccount : Type 0 where
  pub info : Option AccountInfo
  -- each slot with its present value, in the order of the map
  pub storage : List (ℕ × ℕ)

abbrev pub Bundle : Type 0
Bundle = List (Address × BundleAccount)

-- `info.code.as_ref().map(|c| c.len()).unwrap_or(0) as u32`
abbrev pub code_size : Option (ℕ × Bytes) → ℕ
code_size none = 0
code_size (some (size, _)) = size % 2 ^ 32

-- `NOMT_HEAD_KEY` read as a block number: a value that is absent, unreadable or not of eight bytes
-- counts as 0.
unfoldable pub nomt_head_of : Foreign (Option Bytes) → ℕ
nomt_head_of (done (some v)) = if length v == 8 then from_be_bytes v else 0
nomt_head_of (done none) = 0
nomt_head_of (failed e) = 0

-- A chain of a notification: its bundle, its blocks, and its tip.
pub record Chain : Type 0 where
  pub bundle : Bundle
  pub blocks : Blocks
  pub tip_number : ℕ
  pub tip_hash : B256

pub data ExExNotification : Type 0 where
  chain_committed : Chain → ExExNotification
  chain_reorged : Chain → Chain → ExExNotification
  chain_reverted : Chain → ExExNotification

module _ (P : Parts) where
  open P use {ubt, store, index, trie}

  unfoldable pub chunk_entries : Address → ℕ → List B256 → List PendingEntry
  chunk_entries address i [] = []
  chunk_entries address i (chunk ∷ chunks) =
      record { key = ubt.get_code_chunk_key address i; value = chunk; address = address }
      ∷ chunk_entries address (i + 1) chunks

  unfoldable pub code_entries : Address → Option (ℕ × Bytes) → List PendingEntry
  unfolding chunk_entries
  code_entries address none = []
  code_entries address (some (_, code)) = chunk_entries address 0 (ubt.chunkify_code code)

  -- The account's code, unless it has none.
  unfoldable pub hashed_entries : Address → AccountInfo → List PendingEntry
  unfolding code_entries
  hashed_entries address info =
      if not (info.code_hash == zero_hash) && not (info.code_hash == keccak_empty)
      then record { key = ubt.get_code_hash_key address; value = info.code_hash; address = address }
        ∷ code_entries address info.code
      else []

  unfoldable pub info_entries : Address → Option AccountInfo → List PendingEntry
  unfolding hashed_entries balance_to_u128
  info_entries address none = []
  info_entries address (some info) =
      record {
        key = ubt.get_basic_data_key address;
        value = ubt.basic_data_leaf info.nonce (balance_to_u128 info.balance) (code_size info.code);
        address = address;
      }
      ∷ hashed_entries address info

  unfoldable pub storage_entries : Address → List (ℕ × ℕ) → List PendingEntry
  unfolding u256_to_b256
  storage_entries address slots =
      map
        (λ e. record {
          key = ubt.get_storage_slot_key address (u256_to_b256 e.0);
          value = u256_to_b256 e.1;
          address = address;
        })
        slots

  -- What `process_chain` pushes, in its order.
  unfoldable pub bundle_entries : Bundle → List PendingEntry
  unfolding info_entries storage_entries
  bundle_entries [] = []
  bundle_entries ((address, account) ∷ bundle) =
      info_entries address account.info
      ++ storage_entries address account.storage
      ++ bundle_entries bundle

  unfoldable pub process_chain : Bundle → Method P (Unit {0})
  unfolding bundle_entries
  process_chain bundle =
      modify (λ s. record s { pending_entries = s.pending_entries ++ bundle_entries bundle })

  -- The head to resume from; block 0 counts as none.
  unfoldable pub get_head : UbtExEx P → Option (ℕ × B256)
  get_head s =
      if s.last_persisted_block == 0
      then none
      else some (s.last_persisted_block, s.last_persisted_hash)

  -- The stored head, once its root is verified.
  unfoldable pub verify_head : store.Db → Option UbtHead → Result UbtHead
  unfolding compute_root_from_db
  verify_head db none =
      ok (record { block_number = 0; block_hash = zero_hash; root = zero_hash; stem_count = 0 })
  verify_head db (some head) = result_bind (compute_root_from_db P db) (λ computed.
      if computed == head.root
      then ok head
      else err (root_verification_failed (hex head.root ∷ []) (hex computed ∷ [])))

  -- NOMT ahead of MDBX is rolled back, where a failure is only logged. NOMT behind it sets the
  -- persisted block back.
  unfoldable pub sync_nomt : ℕ → ℕ → trie.State → trie.State × ℕ
  sync_nomt nomt_head persisted nomt =
      if ltb persisted nomt_head
      then ((trie.rollback (nomt_head - persisted) nomt).1, persisted)
      else if ltb nomt_head persisted
      then (nomt, nomt_head)
      else (nomt, persisted)

  unfoldable pub start_at : store.Db → index.Db → trie.State → ℕ → ℕ → UbtHead → UbtExEx P
  unfolding sync_nomt nomt_head_of
  start_at db key_index nomt flush_interval delta_retention head =
      let synced : trie.State × ℕ =
        sync_nomt (nomt_head_of (trie.read nomt_head_key nomt)) head.block_number nomt in
      record {
        db = db;
        last_block = head.block_number;
        last_hash = head.block_hash;
        last_root = head.root;
        pending_entries = [];
        dirty_stems = [];
        nomt = synced.0;
        key_index = key_index;
        flush_interval = flush_interval;
        delta_retention = delta_retention;
        last_persisted_block = synced.1;
        last_persisted_hash = head.block_hash;
        stem_count = head.stem_count;
      }

  -- `new` on what opening MDBX, the key index and NOMT gives, and on the two configured numbers.
  unfoldable pub new :
      Result store.Db → Result index.Db → Foreign trie.State → ℕ → ℕ → Result (UbtExEx P)
  unfolding verify_head start_at
  new mdbx index_opened nomt_opened flush_interval delta_retention = result_bind mdbx (λ db.
      result_bind index_opened (λ key_index. result_bind (store.load_head db) (λ stored.
        result_bind (verify_head db stored) (λ head.
          result_bind (map_err nomt_opened)
            (λ nomt. ok (start_at db key_index nomt flush_interval delta_retention head))))))

  unfoldable pub process_new : Chain → Method P (Unit {0})
  unfolding process_chain
  process_new new = do process_chain new.bundle; commit P new.tip_number new.tip_hash; pure tt

  unfoldable pub handle : ExExNotification → Method P (Unit {0})
  unfolding process_new
  handle (chain_committed new) = process_new new
  handle (chain_reorged old new) = do revert P old.blocks; process_new new
  handle (chain_reverted old) = revert P old.blocks
