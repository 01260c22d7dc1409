-- ===== src/Rpc/Handlers.antt =====
-- The requests of src/rpc.rs that write files: `export_state`, `export_contract` and
-- `get_state_delta`, and what they do where NOMT and the key index are at different blocks.
use ubt_exex.Common.{
  ℕ, ◌<◌, ◌^◌, Option, some, ◌≡◌, ◌≢◌, ◌∙◌, refl, Foreign, done, Result, ok, err, panic, UbtError,
  unwrap_or, false_of_ne, nat_eq,
}
use ubt_exex.Common.Exec.{Exec, lift, ◌>>=◌, ◌>>◌, pure}
use ubt_exex.Common.Text.{Text}
use ubt_exex.Tree.{Address, B256}
use ubt_exex.Index.Table.{Redb, load_head}
use ubt_exex.Index.Codec.{HeadRecord}
use ubt_exex.Exex.Commit.{nomt_head_key}
use ubt_exex.Common.Bytes.{to_be_bytes}
use ubt_exex.Exex.{Parts}
use ubt_exex.PirExport.{Files, FileName, ExportResult}
use ubt_exex.PirExport.Nomt.{export_full_state_from_nomt, export_contract_state_from_nomt}
use ubt_exex.PirExport.Delta
use ubt_exex.Rpc.{ensure_nomt_synced, compare_heads, heads_differ, synced-compare_heads}

pub record ExportStateParams : Type 0 where
  pub output_path : Text
  pub chain_id : Option ℕ

pub record ExportContractParams : Type 0 where
  pub contract : Address
  pub output_path : Text
  pub chain_id : Option ℕ

pub record GetStateDeltaParams : Type 0 where
  pub from_block : ℕ
  pub to_block : ℕ
  pub output_path : Text
  pub chain_id : Option ℕ

pub record ExportStateResult : Type 0 where
  pub block_number : ℕ
  pub block_hash : B256
  pub root : B256
  pub entry_count : ℕ
  pub stem_count : ℕ
  pub state_file : FileName
  pub stem_index_file : FileName

pub record StateDeltaResult : Type 0 where
  pub from_block : ℕ
  pub to_block : ℕ
  pub head_block : ℕ
  pub entry_count : ℕ
  pub delta_file : FileName

abbrev pub exported : ExportResult → ExportStateResult
exported r = record {
  block_number = r.block_number;
  block_hash = r.block_hash;
  root = r.root;
  entry_count = r.entry_count;
  stem_count = r.stem_count;
  state_file = r.state_file;
  stem_index_file = r.stem_index_file;
}

-- `F` gives the files below an output directory.
module _ (P : Parts) (R : Redb) (F : Text → Files) where
  open P use {store, trie}

  -- The paths of NOMT and of the key index are what comes of opening them: once for the check and
  -- once for the export.
  pub record UbtRpc : Type 0 where
    pub db : store.Db
    pub default_chain_id : ℕ
    pub delta_retention : ℕ
    pub nomt_checked : Foreign trie.State
    pub key_index_checked : Result R.Db
    pub nomt_dir : Foreign trie.State
    pub key_index_path : Result R.Db

  abbrev pub new :
      store.Db
      → ℕ
      → ℕ
      → Foreign trie.State × Result R.Db
      → Foreign trie.State × Result R.Db
      → UbtRpc
  new db default_chain_id delta_retention checked opened = record {
    db = db;
    default_chain_id = default_chain_id;
    delta_retention = delta_retention;
    nomt_checked = checked.0;
    key_index_checked = checked.1;
    nomt_dir = opened.0;
    key_index_path = opened.1;
  }

  -- The database is what comes of `UbtDatabase::open`.
  unfoldable pub from_paths :
      Result store.Db
      → Foreign trie.State × Result R.Db
      → Foreign trie.State × Result R.Db
      → ℕ
      → ℕ
      → Result UbtRpc
  from_paths (ok db) checked opened default_chain_id delta_retention =
      ok (new db default_chain_id delta_retention checked opened)
  from_paths (err e) checked opened default_chain_id delta_retention = err e
  from_paths (panic m) checked opened default_chain_id delta_retention = panic m

  -- The error of a request keeps the text of the error it came from; here it is the error itself.
  unfoldable pub synced : UbtRpc → Result (Unit {0})
  unfolding ensure_nomt_synced
  synced rpc = ensure_nomt_synced trie R rpc.nomt_checked rpc.key_index_checked

  unfoldable pub export_state :
      UbtRpc
      → (params : ExportStateParams) → Exec (Files.State (F params.output_path)) ExportStateResult
  unfolding synced export_full_state_from_nomt
  export_state rpc params =
      lift (synced rpc)
      >> (export_full_state_from_nomt trie R (F params.output_path) rpc.key_index_path rpc.nomt_dir
            (unwrap_or params.chain_id rpc.default_chain_id)
          >>= λ result. pure (exported result))

  unfoldable pub export_contract :
      UbtRpc
      → (params : ExportContractParams)
      → Exec (Files.State (F params.output_path)) ExportStateResult
  unfolding synced export_contract_state_from_nomt
  export_contract rpc params =
      lift (synced rpc)
      >> (lift rpc.key_index_path >>= λ key_index.
          export_contract_state_from_nomt trie R (F params.output_path) rpc.nomt_dir key_index
            params.contract (unwrap_or params.chain_id rpc.default_chain_id)
          >>= λ result. pure (exported result))

  unfoldable pub get_state_delta :
      UbtRpc
      → (params : GetStateDeltaParams) → Exec (Files.State (F params.output_path)) StateDeltaResult
  unfolding synced Delta.get_state_delta
  get_state_delta rpc params =
      lift (synced rpc)
      >> (Delta.get_state_delta P (F params.output_path) rpc.db params.from_block params.to_block
            (unwrap_or params.chain_id rpc.default_chain_id) rpc.delta_retention
          >>= λ result. pure (record {
            from_block = result.from_block;
            to_block = result.to_block;
            head_block = result.head_block;
            entry_count = result.entry_count;
            delta_file = result.delta_file;
          }))

  -- The request failed, and the files are as they were.
  abbrev pub Refused : {A S : Type 0} → Result A × S → S → Type 0
  Refused {A} r s = ((a : A) → r.0 ≢ ok a) × (r.1 ≡ s)

  refused :
      {A S : Type 0} (e : UbtError) (rest : Exec S A) (r : Result (Unit {0})) (s : S)
      → r ≡ err e
      → Refused ((lift r >> rest) s) s
  refused e rest r s p = rw p (λ a q. cc, refl)

  differing : (n m : ℕ) → n ≢ m → compare_heads n m ≡ err (heads_differ n m)
  unfolding compare_heads
  differing n m h = rw (false_of_ne n m h) refl

  -- Where both stores open and have the blocks `n` and `h.block_number` as their heads, and these
  -- differ, each of the three requests fails for all parameters, and no file is made or written.
  pub unsynced-Refused :
      (rpc : UbtRpc) (nomt : trie.State) (index : R.Db) (n : ℕ) (h : HeadRecord)
      → rpc.nomt_checked ≡ done nomt
      → rpc.key_index_checked ≡ ok index
      → n < 256 ^ 8
      → trie.read nomt_head_key nomt ≡ done (some (to_be_bytes 8 n))
      → load_head R index ≡ ok (some h)
      → n ≢ h.block_number
      → (((params : ExportStateParams) (s : _) → Refused (export_state rpc params s) s)
          × (((params : ExportContractParams) (s : _) → Refused (export_contract rpc params s) s)
              × ((params : GetStateDeltaParams) (s : _)
                  → Refused (get_state_delta rpc params s) s)))
  unfolding export_state export_contract get_state_delta
  unsynced-Refused rpc nomt index n h p q small at_nomt at_index other =
      let e : UbtError = heads_differ n h.block_number in
      let stale : synced rpc ≡ err e =
        unfold synced in
        (rw (p, q)
          (synced-compare_heads trie R nomt index n h small at_nomt at_index
            ∙ differing n h.block_number other)) in
      (
        λ params s. refused e _ (synced rpc) s stale,
        (
          λ params s. refused e _ (synced rpc) s stale,
          λ params s. refused e _ (synced rpc) s stale,
        ),
      )
