-- ===== src/Persistence/Stems.antt =====
-- The table of stems in persistence.rs: `load_stem`, `batch_update_stems`, `iter_stems` and
-- `iter_entries_sorted`.
use ubt_exex.Common.{
  ℕ, List, [], ◌∷◌, ◌++◌, some, none, Option, Result, ok, ◌>>=◌, ◌==◌, nat_eq, leb, length,
  if◌then◌else◌,
}
use ubt_exex.Common.Assoc.{lookup}
use ubt_exex.Common.Bytes.{Bytes}
use ubt_exex.Common.Exec.{Exec}
use ubt_exex.Common.Order.{sort_by}
use ubt_exex.Tree.{Ubt, Stem, B256, TreeKey, tree_key}
use ubt_exex.Mdbx.{Ffi}
use ubt_exex.Mdbx.Env.{default_flags}
use ubt_exex.Mdbx.Txn.{get, put, cursor}
use ubt_exex.Persistence.{
  Bincode, stems_db, coded, or_fail, as_mdbx, plain, read_from, write_to, while_rows,
}

-- `stem_node.values.keys().copied()`
abbrev pub keys_of : List (ℕ × B256) → List ℕ
keys_of [] = []
keys_of ((i, v) ∷ m) = i ∷ keys_of m

-- The entries of one node, by the subindices in order.
unfoldable pub push_entries : Stem → List (ℕ × B256) → List ℕ → List (TreeKey × B256)
push_entries stem values [] = []
push_entries stem values (i ∷ is) = elim (lookup i values) [
  | none ↦ push_entries stem values is
  | some value ↦ (tree_key stem i, value) ∷ push_entries stem values is
]

module _ {U : Ubt} (M : Ffi) (B : Bincode U) where
  open M use {Env, Txn, Dbi}
  open U use {StemNode}

  unfoldable pub decode_node : Option Bytes → Result (Option StemNode)
  decode_node none = ok none
  decode_node (some bytes) = do stem_node ← coded (B.node.deserialize bytes); ok (some stem_node)

  unfoldable pub load_stem : Stem → Env → Result (Option StemNode)
  unfolding decode_node
  load_stem stem =
      read_from M stems_db
        (λ txn db. do bytes ← or_fail as_mdbx (get M txn db stem); decode_node bytes)

  unfoldable pub put_stems : Dbi → List (Stem × StemNode) → Txn → Result Txn
  put_stems db [] txn = ok txn
  put_stems db ((stem, stem_node) ∷ updates) txn = do
    value ← coded (B.node.serialize stem_node)
    txn' ← or_fail as_mdbx (put M txn db stem value default_flags)
    put_stems db updates txn'

  unfoldable pub batch_update_stems : List (Stem × StemNode) → Exec Env (Unit {0})
  unfolding put_stems
  batch_update_stems [] env = (ok tt, env)
  batch_update_stems (u ∷ updates) env =
      write_to M plain stems_db (λ txn db. put_stems db (u ∷ updates) txn >>= λ txn'. ok (txn', tt))
        env

  -- The body of the loop over the table, where a key of 31 bytes is a stem.
  unfoldable pub push_stem :
      Bytes × Bytes → List (Stem × StemNode) → Result (List (Stem × StemNode))
  push_stem (key, value) stems =
      if length key == 31
      then (coded (B.node.deserialize value) >>= λ stem_node. ok (stems ++ (key, stem_node) ∷ []))
      else ok stems

  unfoldable pub iter_stems : Env → Result (List (Stem × StemNode))
  unfolding push_stem
  iter_stems = read_from M stems_db (λ txn db. do
    c ← or_fail as_mdbx (cursor M txn db)
    while_rows M as_mdbx push_stem (M.most_rows txn db) c [])

  unfoldable pub push_node : Bytes × Bytes → List (TreeKey × B256) → Result (List (TreeKey × B256))
  unfolding push_entries
  push_node (key, value) entries =
      if length key == 31
      then (coded (B.node.deserialize value) >>= λ stem_node. ok (
          entries
          ++ push_entries key (U.values stem_node) (sort_by leb (keys_of (U.values stem_node)))))
      else ok entries

  unfoldable pub iter_entries_sorted : Env → Result (List (TreeKey × B256))
  unfolding push_node
  iter_entries_sorted = read_from M stems_db (λ txn db. do
    c ← or_fail as_mdbx (cursor M txn db)
    while_rows M as_mdbx push_node (M.most_rows txn db) c [])
