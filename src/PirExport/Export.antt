-- ===== src/PirExport/Export.antt =====
-- The exports that read values from MDBX: `export_full_state_from_mdbx` and
-- `export_contract_state_from_mdbx`, which differ in the stems they want and in their file names.
use ubt_exex.Common.{
  ℕ, ◌+◌, ◌%◌, ◌^◌, Bool, true, Option, none, some, List, [], ◌∷◌, ◌++◌, map, leb, ◌==◌, list_eq,
  nat_eq, if◌then◌else◌, not, length, Result, ok, panic, mdbx_error, just, ok_or, text, number,
  database, mdbx,
}
use ubt_exex.Common.Assoc.{lookup}
use ubt_exex.Common.Bytes.{to_le_bytes}
use ubt_exex.Common.Order.{sort_by}
use ubt_exex.Common.Exec.{Exec, pure, lift, ◌>>=◌, ◌>>◌}
use ubt_exex.Tree.{Stem, B256, Address}
use ubt_exex.Store.{UbtHead}
use ubt_exex.Exex.{Parts, is_empty}
use ubt_exex.Exex.Commit.{tree_index_from_key}
use ubt_exex.PirExport.{
  FileName, state_bin, stem_index_bin, contract_bin, contract_stem_index_bin, Files, on_files,
  ExportResult,
}
use ubt_exex.PirExport.Format.{new_header, header_bytes, entry_bytes}

-- `entry_offset`, `stem_index_entries` and `missing_addresses`
pub record Progress : Type 0 where
  pub entry_offset : ℕ
  pub stem_index : List (Stem × ℕ)
  pub missing : List Stem

abbrev pub no_progress : Progress
no_progress = record { entry_offset = 0; stem_index = []; missing = [] }

abbrev pub no_state {ℓ} : {A : Type ℓ} → Option A → Result A
no_state o = ok_or o (database (mdbx (just "No canonical state yet")))

abbrev pub missing_error : {A : Type 0} → List Stem → Result A
missing_error missing = mdbx_error (
    text "Missing stem->address mappings for "
    ∷ number (length missing)
    ∷ text " stems. PIR export requires a fresh UBT build."
    ∷ [])

-- `stem_node.values[&subindex]`
unfoldable pub index_value : List (ℕ × B256) → ℕ → Result B256
index_value values subindex = elim (lookup subindex values) [
  | none ↦ panic (just "no entry found for key")
  | some value ↦ ok value
]

module _ (F : Files) where
  -- The entry of a value, after which `entry_offset` is counted up.
  unfoldable pub write_value : FileName → Stem → Address → ℕ → B256 → ℕ → Exec F.State ℕ
  write_value file stem address subindex value offset =
      on_files (
        F.write_all file (
          entry_bytes (record {
            address = address;
            tree_index = tree_index_from_key stem subindex;
            value = value;
          })))
      >> pure ((offset + 1) % 2 ^ 64)

  -- The loop over the subindices of one stem.
  unfoldable pub write_values :
      FileName → Stem → Address → List (ℕ × B256) → List ℕ → ℕ → Exec F.State ℕ
  unfolding write_value index_value
  write_values file stem address values [] offset = pure offset
  write_values file stem address values (i ∷ is) offset = do
    value ← lift (index_value values i)
    offset' ← write_value file stem address i value offset
    write_values file stem address values is offset'

  -- The header is written again with the count of the entries.
  unfoldable pub rewrite_header : FileName → ℕ → UbtHead → ℕ → Exec F.State (Unit {0})
  rewrite_header file count head chain_id = do
    on_files (F.flush file)
    on_files (
        F.overwrite_start file
          (header_bytes (new_header count head.block_number chain_id head.block_hash)))
    on_files (F.flush file)

  unfoldable pub write_stem_entries : FileName → List (Stem × ℕ) → Exec F.State (Unit {0})
  write_stem_entries file [] = pure tt
  write_stem_entries file ((stem, offset) ∷ r) = do
    on_files (F.write_all file stem)
    on_files (F.write_all file (to_le_bytes 8 offset))
    write_stem_entries file r

  -- The stem index: the count of the stems, then each stem with the offset of its first entry.
  unfoldable pub write_stem_index : FileName → List (Stem × ℕ) → Exec F.State (Unit {0})
  unfolding write_stem_entries
  write_stem_index file entries = do
    on_files (F.create file)
    on_files (F.write_all file (to_le_bytes 8 (length entries)))
    write_stem_entries file entries
    on_files (F.flush file)

  -- A new file with a header that counts no entries yet.
  unfoldable pub start_entries : FileName → UbtHead → ℕ → Exec F.State (Unit {0})
  start_entries file head chain_id = do
    on_files (F.create file)
    on_files
        (F.write_all file (header_bytes (new_header 0 head.block_number chain_id head.block_hash)))

  -- The same, after the directory is made.
  unfoldable pub start_file : FileName → UbtHead → ℕ → Exec F.State (Unit {0})
  unfolding start_entries
  start_file file head chain_id = do on_files F.create_dir_all; start_entries file head chain_id

  -- What follows the loop over the stems.
  unfoldable pub finish_export :
      FileName → FileName → UbtHead → ℕ → Progress → Exec F.State ExportResult
  unfolding rewrite_header write_stem_index
  finish_export file index_file head chain_id p = do
    rewrite_header file p.entry_offset head chain_id
    write_stem_index index_file p.stem_index
    pure (record {
      block_number = head.block_number;
      block_hash = head.block_hash;
      root = head.root;
      entry_count = p.entry_offset;
      stem_count = length p.stem_index;
      state_file = file;
      stem_index_file = index_file;
    })

module _ (P : Parts) (F : Files) (wanted : Address → Bool) where
  open P use {ubt, store}

  unfoldable pub export_values :
      FileName → Stem → Address → List (ℕ × B256) → List ℕ → Progress → Exec F.State Progress
  unfolding write_values
  export_values file stem address values [] p = pure p
  export_values file stem address values (i ∷ is) p = do
    offset ← write_values F file stem address values (i ∷ is) p.entry_offset
    pure (record p {
      entry_offset = offset;
      stem_index = p.stem_index ++ (stem, p.entry_offset) ∷ [];
    })

  -- A stem with no address is noted, and one of another contract is skipped.
  unfoldable pub export_stem_of :
      FileName → Stem → ubt.StemNode → Progress → Option Address → Exec F.State Progress
  unfolding export_values sort_by
  export_stem_of file stem node p none = pure (record p { missing = p.missing ++ stem ∷ [] })
  export_stem_of file stem node p (some address) =
      if wanted address
      then export_values file stem address (ubt.values node)
          (sort_by leb (map (λ e. e.0) (ubt.values node))) p
      else pure p

  unfoldable pub export_stems :
      FileName → store.Db → List (Stem × ubt.StemNode) → Progress → Exec F.State Progress
  unfolding export_stem_of
  export_stems file db [] p = pure p
  export_stems file db ((stem, node) ∷ r) p = do
    address ← lift (store.load_stem_address stem db)
    p' ← export_stem_of file stem node p address
    export_stems file db r p'

  -- The count is only reported where no address is missing.
  unfoldable pub check_missing :
      FileName → FileName → UbtHead → ℕ → Progress → Exec F.State ExportResult
  unfolding finish_export
  check_missing file index_file head chain_id p =
      if not (is_empty p.missing)
      then lift (missing_error p.missing)
      else finish_export F file index_file head chain_id p

  unfoldable pub export_from_mdbx : FileName → FileName → store.Db → ℕ → Exec F.State ExportResult
  unfolding start_file export_stems check_missing
  export_from_mdbx file index_file db chain_id = do
    stored ← lift (store.load_head db)
    head ← lift (no_state stored)
    start_file F file head chain_id
    stems ← lift (store.iter_stems db)
    p ← export_stems file db stems no_progress
    check_missing file index_file head chain_id p

module _ (P : Parts) (F : Files) where
  open P use {store}

  unfoldable pub export_full_state_from_mdbx : store.Db → ℕ → Exec F.State ExportResult
  unfolding export_from_mdbx
  export_full_state_from_mdbx = export_from_mdbx P F (λ _. true) state_bin stem_index_bin

  unfoldable pub export_contract_state_from_mdbx :
      store.Db → Address → ℕ → Exec F.State ExportResult
  unfolding export_from_mdbx
  export_contract_state_from_mdbx db contract =
      export_from_mdbx P F (λ address. address == contract) (contract_bin contract)
        (contract_stem_index_bin contract) db

  unfoldable pub export_full_state : store.Db → ℕ → Exec F.State ExportResult
  unfolding export_full_state_from_mdbx
  export_full_state = export_full_state_from_mdbx

  unfoldable pub export_contract_state : store.Db → Address → ℕ → Exec F.State ExportResult
  unfolding export_contract_state_from_mdbx
  export_contract_state = export_contract_state_from_mdbx
