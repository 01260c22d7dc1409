-- ===== src/PirExport/Delta.antt =====
-- `get_state_delta`: the current values of the keys that the deltas of a range of blocks name.
use ubt_exex.Common.{
  ℕ, zero, suc, ◌+◌, ◌-◌, Bool, true, false, Option, none, some, List, [], ◌∷◌, ◌++◌, ltb, leb,
  ◌==◌, list_eq, nat_eq, if◌then◌else◌, not, Result, ok, mdbx_error, text, number, unwrap_or,
  ◌>>=◌ as result_bind,
}
use ubt_exex.Common.Order.{sort_by, bytes_leb}
use ubt_exex.Common.Exec.{Exec, pure, lift, ◌>>=◌, ◌>>◌}
use ubt_exex.Tree.{Stem, Address, TreeKey, tree_key, tree_key_eq, Delta, zero_hash}
use ubt_exex.Store.{UbtHead}
use ubt_exex.Exex.{Parts, is_empty, load_value}
use ubt_exex.PirExport.{FileName, delta_bin, Files, on_files, StateDeltaResult}
use ubt_exex.PirExport.Export.{no_state, missing_error, write_value, rewrite_header, start_entries}

-- The three checks, in their order. `saturating_sub` stops at zero.
unfoldable pub check_window : ℕ → ℕ → ℕ → ℕ → Result (Unit {0})
check_window from_block to_block head_block delta_retention =
    if ltb to_block from_block
    then mdbx_error (
        text "from_block "
        ∷ number from_block
        ∷ text " is greater than to_block "
        ∷ number to_block
        ∷ [])
    else if ltb head_block to_block
    then mdbx_error (
        text "to_block "
        ∷ number to_block
        ∷ text " is ahead of persisted head "
        ∷ number head_block
        ∷ [])
    else if ltb from_block (head_block - delta_retention)
    then mdbx_error (
        text "from_block "
        ∷ number from_block
        ∷ text " is before delta retention window (min: "
        ∷ number (head_block - delta_retention)
        ∷ text ")"
        ∷ [])
    else ok tt

unfoldable pub has_key : TreeKey → List TreeKey → Bool
has_key k [] = false
has_key k (j ∷ js) = if j == k then true else has_key k js

-- `touched_keys_set`, a hash set: each key once.
unfoldable pub touch : List Delta → List TreeKey → List TreeKey
unfolding has_key
touch [] keys = keys
touch ((stem, subindex, _) ∷ ds) keys =
    touch ds (if has_key (tree_key stem subindex) keys then keys else tree_key stem subindex ∷ keys)

-- The comparison by the stem, then by the subindex.
unfoldable pub key_leb : TreeKey → TreeKey → Bool
key_leb a b = if a.stem == b.stem then leb a.subindex b.subindex else bytes_leb a.stem b.stem

module _ (P : Parts) (F : Files) where
  open P use {ubt, store}

  -- The deltas of `n` blocks from `block` on.
  unfoldable pub touch_blocks : store.Db → ℕ → ℕ → List TreeKey → Result (List TreeKey)
  unfolding touch
  touch_blocks db zero block keys = ok keys
  touch_blocks db (suc n) block keys =
      result_bind (store.load_block_deltas block db)
        (λ ds. touch_blocks db n (suc block) (touch ds keys))

  -- One round of the loop over the keys, with the count and the stems that have no address.
  unfoldable pub write_key_of :
      FileName → store.Db → TreeKey → ℕ → List Stem → Option Address → Exec F.State (ℕ × List Stem)
  unfolding load_value write_value
  write_key_of file db key count missing none = pure (count, missing ++ key.stem ∷ [])
  write_key_of file db key count missing (some address) = do
    value ← lift (load_value P key db)
    count' ← write_value F file key.stem address key.subindex (unwrap_or value zero_hash) count
    pure (count', missing)

  unfoldable pub write_keys :
      FileName → store.Db → List TreeKey → ℕ → List Stem → Exec F.State (ℕ × List Stem)
  unfolding write_key_of
  write_keys file db [] count missing = pure (count, missing)
  write_keys file db (key ∷ keys) count missing = do
    address ← lift (store.load_stem_address key.stem db)
    r ← write_key_of file db key count missing address
    write_keys file db keys r.0 r.1

  unfoldable pub finish_delta : ℕ → ℕ → UbtHead → ℕ → ℕ × List Stem → Exec F.State StateDeltaResult
  unfolding rewrite_header
  finish_delta from_block to_block head chain_id (count, missing) =
      if not (is_empty missing)
      then lift (missing_error missing)
      else (rewrite_header F (delta_bin from_block to_block) count head chain_id
          >> pure (record {
            from_block = from_block;
            to_block = to_block;
            head_block = head.block_number;
            entry_count = count;
            delta_file = delta_bin from_block to_block;
          }))

  -- The directory is made before the deltas are read, and the file after.
  unfoldable pub write_delta_file : store.Db → ℕ → ℕ → UbtHead → ℕ → Exec F.State StateDeltaResult
  unfolding touch_blocks sort_by write_keys finish_delta start_entries
  write_delta_file db from_block to_block head chain_id = do
    on_files F.create_dir_all
    keys ← lift (touch_blocks db (to_block + 1 - from_block) from_block [])
    start_entries F (delta_bin from_block to_block) head chain_id
    r ← write_keys (delta_bin from_block to_block) db (sort_by key_leb keys) 0 []
    finish_delta from_block to_block head chain_id r

  unfoldable pub get_state_delta : store.Db → ℕ → ℕ → ℕ → ℕ → Exec F.State StateDeltaResult
  unfolding check_window write_delta_file
  get_state_delta db from_block to_block chain_id delta_retention = do
    stored ← lift (store.load_head db)
    head ← lift (no_state stored)
    lift (check_window from_block to_block head.block_number delta_retention)
    write_delta_file db from_block to_block head chain_id
