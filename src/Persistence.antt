-- ===== src/Persistence.antt =====
-- `UbtDatabase` of persistence.rs over the wrapper of mdbx.rs: the tables, the errors, and the
-- transactions that every method runs in. The bincode crate is a parameter.
pub mod Head
pub mod Stems
pub mod Addresses
pub mod Deltas
pub mod Rules
pub mod View
pub mod Writes
pub mod Keys
pub mod Blocks
pub mod Entries
pub mod Listing
pub mod Refine
pub mod Agreement
pub mod RoundTrip
pub mod Size
pub mod Parsed
pub mod Opened
use ubt_exex.Common.{
  ℕ, zero, suc, List, [], ◌∷◌, ◌++◌, some, none, Option, Result, ok, err, panic, ◌>>=◌, UbtError,
  Message, Foreign, done, failed, database, mdbx, transaction, serialization, just, text, String,
}
use ubt_exex.Common.Bytes.{Bytes}
use ubt_exex.Common.Exec.{Exec}
use ubt_exex.Common.Text.{Text, codes}
use ubt_exex.Tree.{Ubt, Delta}
use ubt_exex.Store.{UbtHead}
use ubt_exex.Mdbx.{Ffi, Error, to_string}
use ubt_exex.Mdbx
use ubt_exex.Mdbx.Env.{begin_ro_txn, begin_rw_txn}
use ubt_exex.Mdbx.Txn.{open_db, commit}
use ubt_exex.Mdbx.Cursor.{next}

abbrev pub stems_db : Text
stems_db = codes "ubt_stems"

abbrev pub stem_addr_db : Text
stem_addr_db = codes "ubt_stem_addresses"

abbrev pub meta_db : Text
meta_db = codes "ubt_meta"

abbrev pub deltas_db : Text
deltas_db = codes "ubt_block_deltas"

abbrev pub meta_key_head : Bytes
meta_key_head = codes "head"

-- `bincode::serialize` and `deserialize` of a type.
pub record Codec (A : Type 0) : Type 0 where
  pub serialize : A → Foreign Bytes
  pub deserialize : Bytes → Foreign A

pub record Bincode (U : Ubt) : Type 0 where
  pub head : Codec UbtHead
  pub node : Codec U.StemNode
  pub deltas : Codec (List Delta)

-- `?` on an error of bincode.
abbrev pub coded {ℓ} : {A : Type ℓ} → Foreign A → Result A
coded (done a) = ok a
coded (failed e) = err (serialization (just e))

-- `map_err` on an error of the wrapper, and `?`.
abbrev pub or_fail {ℓ} : {A : Type ℓ} → (Error → UbtError) → Mdbx.Result A → Result A
or_fail why (Mdbx.ok a) = ok a
or_fail why (Mdbx.err e) = err (why e)

-- Which errors a method makes of those of the wrapper.
pub record Wording : Type 0 where
  pub on_begin : Error → UbtError
  pub on_open : Error → UbtError
  pub on_cursor : Error → UbtError
  pub on_next : Error → UbtError
  pub on_write : Error → UbtError
  pub on_commit : Error → UbtError

abbrev pub as_mdbx : Error → UbtError
as_mdbx e = database (mdbx (to_string e))

abbrev pub as_transaction : Error → UbtError
as_transaction e = database (transaction (to_string e))

abbrev pub plain : Wording
plain = record {
  on_begin = as_transaction;
  on_open = as_mdbx;
  on_cursor = as_mdbx;
  on_next = as_mdbx;
  on_write = as_mdbx;
  on_commit = as_transaction;
}

module _ (M : Ffi) where
  open M use {Env, Txn, Dbi, Cursor}

  -- The start of every read: a transaction and a table.
  unfoldable pub read_from : {A : Type 0} → Text → (Txn → Dbi → Result A) → Env → Result A
  read_from name body env = do
    txn ← or_fail as_transaction (begin_ro_txn M env)
    opened ← or_fail as_mdbx (open_db M txn (some name))
    body opened.1 opened.0

  -- The end of every write: the commit, and what the method returns after it.
  unfoldable pub finish : {A : Type 0} → Wording → A → Mdbx.Result (Unit {0}) × Env → Result A × Env
  finish w a (Mdbx.ok u, env) = (ok a, env)
  finish w a (Mdbx.err e, env) = (err (w.on_commit e), env)

  -- An error before the commit drops the transaction.
  unfoldable pub commit_or_drop : {A : Type 0} → Wording → Result (Txn × A) → Exec Env A
  unfolding finish
  commit_or_drop w (ok (txn, a)) env = finish w a (commit M txn env)
  commit_or_drop w (err e) env = (err e, env)
  commit_or_drop w (panic m) env = (panic m, env)

  unfoldable pub write_to :
      {A : Type 0} → Wording → Text → (Txn → Dbi → Result (Txn × A)) → Exec Env A
  unfolding commit_or_drop
  write_to w name body env =
      commit_or_drop w
        (do
          txn ← or_fail w.on_begin (begin_rw_txn M env)
          opened ← or_fail w.on_open (open_db M txn (some name))
          body opened.1 opened.0)
        env

  -- `while let Some(row) = cursor.next()? { .. }`, on fuel.
  unfoldable pub while_rows :
      {A : Type 0} → (Error → UbtError) → (Bytes × Bytes → A → Result A) → ℕ → Cursor → A → Result A
  while_rows why body zero c a = panic (just "more rows than the table has")
  while_rows why body (suc fuel) c a = or_fail why (next M c) >>= λ moved. elim moved [
    | none ↦ ok a
    | some (row, c') ↦ body row a >>= while_rows why body fuel c'
  ]
