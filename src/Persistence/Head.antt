-- ===== src/Persistence/Head.antt =====
-- `open`, `load_head`, `save_head` and `sync` of persistence.rs.
use ubt_exex.Common.{
  ℕ, ◌*◌, true, some, none, Option, Result, ok, err, ◌>>=◌, unwrap_or, Message, Foreign, done,
  failed, database, open_failed, io, just,
}
use ubt_exex.Common.Bytes.{Bytes}
use ubt_exex.Common.Exec.{Exec}
use ubt_exex.Common.Integers.{pos, negsuc, as_i64}
use ubt_exex.Common.Text.{Text}
use ubt_exex.Tree.{Ubt}
use ubt_exex.Store.{UbtHead}
use ubt_exex.Mdbx.{Ffi, Geometry, to_string}
use ubt_exex.Mdbx.Env.{
  builder, set_max_dbs, set_geometry, open_env, begin_rw_txn, sync_env, default_flags,
}
use ubt_exex.Mdbx.Txn.{create_db, get, put}
use ubt_exex.Persistence.Size.{mdbx_max_size_from_env}
use ubt_exex.Persistence.{
  Bincode, stems_db, meta_db, deltas_db, stem_addr_db, meta_key_head, coded, or_fail, as_mdbx,
  as_transaction, plain, read_from, write_to, commit_or_drop,
}

-- The path of the database: its text, if it is valid UTF-8, and how it is displayed.
pub record Folder : Type 0 where
  pub to_str : Option Text
  pub display : Message

abbrev pub geometry_of : Option ℕ → Geometry
geometry_of max_size = record {
  size_lower = pos 0;
  size_now = pos (4096 * 256);
  size_upper = as_i64 (unwrap_or max_size (1024 * 1024 * 1024 * 1024));
  growth_step = negsuc 0;
  shrink_threshold = negsuc 0;
  page_size = pos 4096;
}

-- `std::fs::create_dir_all(path)?`
abbrev pub made_dir : Foreign (Unit {0}) → Result (Unit {0})
made_dir (done u) = ok u
made_dir (failed e) = err (io (just e))

module _ {U : Ubt} (M : Ffi) (B : Bincode U) where
  open M use {Env, Txn, Dbi}

  -- The four tables, made where they are missing.
  unfoldable pub create_tables : Txn → Result (Txn × Unit {0})
  create_tables txn = do
    stems ← or_fail as_mdbx (create_db M txn (some stems_db) M.create)
    meta ← or_fail as_mdbx (create_db M stems.1 (some meta_db) M.create)
    deltas ← or_fail as_mdbx (create_db M meta.1 (some deltas_db) M.create)
    addresses ← or_fail as_mdbx (create_db M deltas.1 (some stem_addr_db) default_flags)
    ok (addresses.1, tt)

  -- `var` is the environment variable `UBT_MDBX_MAX_SIZE`. The database is as the commit leaves it.
  unfoldable pub open_database : Folder → Foreign (Unit {0}) → Option Text → Result Env
  unfolding create_tables
  open_database path dirs var = do
    made ← made_dir dirs
    env ←
        or_fail (λ e. database (open_failed path.display (to_string e)))
          (open_env M
            (set_geometry (geometry_of (mdbx_max_size_from_env var)) (set_max_dbs 10 builder))
            path.to_str)
    let opened : Result (Unit {0}) × Env =
          commit_or_drop M plain
            (do txn ← or_fail as_transaction (begin_rw_txn M env); create_tables txn) env in
        opened.0 >>= λ u. ok opened.1

  unfoldable pub decode_head : Option Bytes → Result (Option UbtHead)
  decode_head none = ok none
  decode_head (some bytes) = do head ← coded (B.head.deserialize bytes); ok (some head)

  unfoldable pub load_head : Env → Result (Option UbtHead)
  unfolding decode_head
  load_head =
      read_from M meta_db
        (λ txn db. do bytes ← or_fail as_mdbx (get M txn db meta_key_head); decode_head bytes)

  unfoldable pub save_head : UbtHead → Exec Env (Unit {0})
  save_head head = write_to M plain meta_db (λ txn db. do
    bytes ← coded (B.head.serialize head)
    txn' ← or_fail as_mdbx (put M txn db meta_key_head bytes default_flags)
    ok (txn', tt))

  unfoldable pub sync : Env → Result (Unit {0})
  sync env = or_fail as_mdbx (sync_env M env true)
