-- ===== src/Persistence/Deltas.antt =====
-- The table of block deltas in persistence.rs, whose keys are block numbers of eight bytes.
use ubt_exex.Common.{
  ℕ, Bool, List, [], ◌∷◌, ◌++◌, some, none, Option, Result, ok, ◌>>=◌, ◌==◌, nat_eq, ltb, length,
  if◌then◌else◌, text, String, UbtError, database, mdbx, transaction,
}
use ubt_exex.Common.Bytes.{Bytes, to_be_bytes, from_be_bytes}
use ubt_exex.Common.Exec.{Exec}
use ubt_exex.Tree.{Ubt, Delta}
use ubt_exex.Mdbx.{Ffi, Error, to_string}
use ubt_exex.Mdbx.Env.{default_flags}
use ubt_exex.Mdbx.Txn.{get, put, del, cursor}
use ubt_exex.Persistence.{
  Bincode, Wording, deltas_db, coded, or_fail, as_mdbx, plain, read_from, write_to, while_rows,
}

-- `block_number.to_be_bytes()`
abbrev pub block_key : ℕ → Bytes
block_key block_number = to_be_bytes 8 block_number

-- The body of the loops over the table: keys of eight bytes are block numbers.
unfoldable pub push_key : (ℕ → Bool) → Bytes × Bytes → List Bytes → Result (List Bytes)
push_key old (key, value) to_delete = ok (
    if length key == 8
    then if old (from_be_bytes key) then to_delete ++ key ∷ [] else to_delete
    else to_delete)

-- The errors of `prune_deltas_before`.
abbrev pub because : String → Error → UbtError
because why e = database (mdbx (text why ∷ to_string e))

abbrev pub pruning : Wording
pruning = record {
  on_begin = λ e. database (transaction (text "Failed to begin prune transaction: " ∷ to_string e));
  on_open = because "Failed to open deltas db: ";
  on_cursor = because "Failed to create cursor: ";
  on_next = because "Cursor iteration failed: ";
  on_write = because "Failed to delete delta: ";
  on_commit = λ e. database (transaction (text "Failed to commit prune: " ∷ to_string e));
}

module _ (M : Ffi) where
  open M use {Env, Txn, Dbi}

  unfoldable pub delete_keys : (Error → UbtError) → Dbi → List Bytes → Txn → Result Txn
  delete_keys why db [] txn = ok txn
  delete_keys why db (key ∷ keys) txn = do
    txn' ← or_fail why (del M txn db key none)
    delete_keys why db keys txn'

  -- The keys of some blocks are collected, then deleted: how many there were.
  unfoldable pub delete_where : Wording → (ℕ → Bool) → Txn → Dbi → Result (Txn × ℕ)
  unfolding delete_keys push_key
  delete_where w old txn db = do
    c ← or_fail w.on_cursor (cursor M txn db)
    to_delete ← while_rows M w.on_next (push_key old) (M.most_rows txn db) c []
    txn' ← delete_keys w.on_write db to_delete txn
    ok (txn', length to_delete)

  unfoldable pub prune_deltas_before : ℕ → Exec Env ℕ
  unfolding delete_where
  prune_deltas_before block_number =
      write_to M pruning deltas_db (delete_where pruning (λ bn. ltb bn block_number))

  unfoldable pub delete_deltas_after : ℕ → Exec Env (Unit {0})
  unfolding delete_where
  delete_deltas_after block_number = write_to M plain deltas_db (λ txn db. do
    deleted ← delete_where plain (λ bn. ltb block_number bn) txn db
    ok (deleted.0, tt))

  unfoldable pub delete_block_deltas : ℕ → Exec Env (Unit {0})
  delete_block_deltas block_number = write_to M plain deltas_db (λ txn db. do
    txn' ← or_fail as_mdbx (del M txn db (block_key block_number) none)
    ok (txn', tt))

  module _ {U : Ubt} (B : Bincode U) where
    unfoldable pub save_block_deltas : ℕ → List Delta → Exec Env (Unit {0})
    save_block_deltas block_number deltas = write_to M plain deltas_db (λ txn db. do
      value ← coded (B.deltas.serialize deltas)
      txn' ← or_fail as_mdbx (put M txn db (block_key block_number) value default_flags)
      ok (txn', tt))

    unfoldable pub deltas_or_empty : Option Bytes → Result (List Delta)
    deltas_or_empty none = ok []
    deltas_or_empty (some bytes) = coded (B.deltas.deserialize bytes)

    unfoldable pub load_block_deltas : ℕ → Env → Result (List Delta)
    unfolding deltas_or_empty
    load_block_deltas block_number = read_from M deltas_db (λ txn db. do
      bytes ← or_fail as_mdbx (get M txn db (block_key block_number))
      deltas_or_empty bytes)
