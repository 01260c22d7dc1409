-- ===== src/PirExport/Nomt.antt =====
-- The exports that enumerate keys by the key index and read values from NOMT:
-- `export_full_state_from_nomt_with` and `export_contract_state_from_nomt`.
use ubt_exex.Common.{
  ℕ, Bool, true, Option, none, some, List, [], ◌∷◌, ◌++◌, ◌==◌, ltb, ◌&&◌, list_eq, nat_eq,
  if◌then◌else◌, length, Result, ok, err, panic, mdbx_error, just, ok_or, database, mdbx, map_err,
  Foreign, ◌>>=◌ as result_bind,
}
use ubt_exex.Common.Bytes.{Bytes}
use ubt_exex.Common.Exec.{Exec, pure, lift, ◌>>=◌, ◌>>◌}
use ubt_exex.Tree.{Stem, B256, Address, zero_hash}
use ubt_exex.Store.{UbtHead}
use ubt_exex.Index.{Nomt}
use ubt_exex.Index.Codec.{HeadRecord, iter_bitmap_subindices}
use ubt_exex.Index.Table.{Redb, load_head}
use ubt_exex.Index.Iterate.{StemRecord, for_each_stem}
use ubt_exex.Exex.Commit.{tree_index_from_key}
use ubt_exex.PirExport.{
  FileName, state_bin, stem_index_bin, contract_bin, contract_stem_index_bin, Files, ExportResult,
}
use ubt_exex.PirExport.Export.{Progress, no_progress, write_value, start_file, finish_export}

-- `bytes.as_slice().try_into()` for 32 bytes; a key that NOMT does not have reads as zero.
unfoldable pub value_of_bytes : Option Bytes → Result B256
value_of_bytes none = ok zero_hash
value_of_bytes (some bytes) =
    if length bytes == 32 then ok bytes else mdbx_error (just "Invalid NOMT value length")

abbrev pub no_head : {A : Type 0} → Option A → Result A
no_head o = ok_or o (database (mdbx (just "Missing key index head metadata")))

-- The head of the key index as the header needs it.
abbrev pub as_head : HeadRecord → UbtHead
as_head h = record {
  block_number = h.block_number;
  block_hash = h.block_hash;
  root = h.root;
  stem_count = h.stem_count;
}

module _ (N : Nomt) (R : Redb) (F : Files) where
  unfoldable pub read_nomt_value : N.State → Bytes → Result B256
  unfolding value_of_bytes
  read_nomt_value nomt tree_index = result_bind (map_err (N.read tree_index nomt)) value_of_bytes

  module _ (nomt : N.State) (wanted : Address → Bool) (file : FileName) where
    unfoldable pub write_nomt_values : Stem → Address → List ℕ → ℕ → Exec F.State ℕ
    unfolding read_nomt_value write_value tree_index_from_key
    write_nomt_values stem address [] offset = pure offset
    write_nomt_values stem address (i ∷ is) offset = do
      value ← lift (read_nomt_value nomt (tree_index_from_key stem i))
      offset' ← write_value F file stem address i value offset
      write_nomt_values stem address is offset'

    -- `has_entries`: a stem with no bit set is not in the stem index.
    unfoldable pub export_indices : Stem → Address → List ℕ → Progress → Exec F.State Progress
    unfolding write_nomt_values
    export_indices stem address [] p = pure p
    export_indices stem address (i ∷ is) p = do
      offset ← write_nomt_values stem address (i ∷ is) p.entry_offset
      pure (record p {
        entry_offset = offset;
        stem_index = p.stem_index ++ (stem, p.entry_offset) ∷ [];
      })

    -- The callback of `for_each_stem`.
    unfoldable pub export_record : Stem → StemRecord → Progress → Exec F.State Progress
    unfolding export_indices iter_bitmap_subindices
    export_record stem r p =
        if wanted r.address
        then export_indices stem r.address (iter_bitmap_subindices r.bitmap) p
        else pure p

  -- The callback changes the files and the progress, which the closure captures.
  abbrev Captured : Type 0
  Captured = F.State × Progress

  abbrev keep_progress : Progress → Result Progress × F.State → Result (Unit {0}) × Captured
  keep_progress p (ok q, s) = (ok tt, (s, q))
  keep_progress p (err e, s) = (err e, (s, p))
  keep_progress p (panic m, s) = (panic m, (s, p))

  unfoldable pub export_round :
      N.State → (Address → Bool) → FileName → Stem → StemRecord → Exec Captured (Unit {0})
  unfolding export_record
  export_round nomt wanted file stem r (s, p) =
      keep_progress p (export_record nomt wanted file stem r p s)

  abbrev last_progress : Result (Unit {0}) × Captured → Result Progress × F.State
  last_progress (ok u, (s, p)) = (ok p, s)
  last_progress (err e, (s, p)) = (err e, s)
  last_progress (panic m, (s, p)) = (panic m, s)

  unfoldable pub export_index : N.State → (Address → Bool) → FileName → R.Db → Exec F.State Progress
  unfolding export_round for_each_stem
  export_index nomt wanted file db s =
      last_progress (for_each_stem R (export_round nomt wanted file) db (s, no_progress))

  -- The check that only the export of the whole state makes.
  unfoldable pub check_index :
      FileName → FileName → HeadRecord → ℕ → Progress → Exec F.State ExportResult
  unfolding finish_export
  check_index file index_file head chain_id p =
      if p.entry_offset == 0 && ltb 0 head.stem_count
      then lift (mdbx_error (just "Key index empty while state head indicates non-zero stems"))
      else finish_export F file index_file (as_head head) chain_id p

  unfoldable pub export_full_state_from_nomt_with : R.Db → N.State → ℕ → Exec F.State ExportResult
  unfolding load_head start_file export_index check_index
  export_full_state_from_nomt_with db nomt chain_id = do
    stored ← lift (load_head R db)
    head ← lift (no_head stored)
    start_file F state_bin (as_head head) chain_id
    p ← export_index nomt (λ _. true) state_bin db
    check_index state_bin stem_index_bin head chain_id p

  -- The key index is opened first.
  unfoldable pub export_full_state_from_nomt :
      Result R.Db → Foreign N.State → ℕ → Exec F.State ExportResult
  unfolding export_full_state_from_nomt_with
  export_full_state_from_nomt open_index open_nomt chain_id = do
    key_index ← lift open_index
    nomt ← lift (map_err open_nomt)
    export_full_state_from_nomt_with key_index nomt chain_id

  -- NOMT is opened after the file has its first header.
  unfoldable pub export_contract_state_from_nomt :
      Foreign N.State → R.Db → Address → ℕ → Exec F.State ExportResult
  unfolding load_head start_file export_index finish_export
  export_contract_state_from_nomt open_nomt db contract chain_id = do
    stored ← lift (load_head R db)
    head ← lift (no_head stored)
    start_file F (contract_bin contract) (as_head head) chain_id
    nomt ← lift (map_err open_nomt)
    p ← export_index nomt (λ address. address == contract) (contract_bin contract) db
    finish_export F (contract_bin contract) (contract_stem_index_bin contract) (as_head head)
        chain_id p
