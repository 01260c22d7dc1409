-- ===== src/PirExport.antt =====
-- pir_export.rs: the PIR2 files of the whole state, of one contract, and of the keys that a range
-- of blocks touched. The file system is a parameter: a file is created, appended to, and its
-- header is overwritten at the end.
pub mod Format
pub mod Export
pub mod Nomt
pub mod Delta
pub mod Window
use ubt_exex.Common.{ℕ, String, List, Result, ok, err, io, just, Foreign, done, failed}
use ubt_exex.Common.Bytes.{Bytes}
use ubt_exex.Common.Exec.{Exec}
use ubt_exex.Tree.{Address, B256}

-- The files that are written below the output directory, by what their names hold.
pub data FileName : Type 0 where
  state_bin : FileName
  stem_index_bin : FileName
  contract_bin : Address → FileName
  contract_stem_index_bin : Address → FileName
  delta_bin : ℕ → ℕ → FileName

pub record Files : Type 1 where
  pub State : Type 0
  pub create_dir_all : State → Foreign (Unit {0}) × State
  pub create : FileName → State → Foreign (Unit {0}) × State
  -- `write_all` of the buffered writer, at the end of the file
  pub write_all : FileName → Bytes → State → Foreign (Unit {0}) × State
  pub flush : FileName → State → Foreign (Unit {0}) × State
  -- `seek(SeekFrom::Start(0))` and `write_all`
  pub overwrite_start : FileName → Bytes → State → Foreign (Unit {0}) × State

-- An `io::Error` becomes `UbtError::Io`.
abbrev pub map_io {ℓ} : {A : Type ℓ} → Foreign A → Result A
map_io (done a) = ok a
map_io (failed e) = err (io (just e))

abbrev pub on_files : {S : Type 0} → (S → Foreign (Unit {0}) × S) → Exec S (Unit {0})
on_files op s = (map_io (op s).0, (op s).1)

pub record ExportResult : Type 0 where
  pub block_number : ℕ
  pub block_hash : B256
  pub root : B256
  pub entry_count : ℕ
  pub stem_count : ℕ
  pub state_file : FileName
  pub stem_index_file : FileName

pub record StateDeltaResult : Type 0 where
  pub from_block : ℕ
  pub to_block : ℕ
  pub head_block : ℕ
  pub entry_count : ℕ
  pub delta_file : FileName
