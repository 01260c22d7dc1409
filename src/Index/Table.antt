-- ===== src/Index/Table.antt =====
-- `KeyIndex` of key_index.rs over a redb database, which is a crate outside the repository: its
-- calls are parameters.
use ubt_exex.Common.{
  ℕ, suc, Bool, true, false, Option, none, some, List, [], ◌∷◌, ◌==◌, list_eq, nat_eq,
  if◌then◌else◌, replicate, Result, ok, err, panic, mdbx_error, just, Foreign, done, failed,
  map_err, ◌>>=◌, unwrap_or,
}
use ubt_exex.Common.Assoc.{lookup, insert}
use ubt_exex.Common.Bytes.{Bytes}
use ubt_exex.Common.Exec.{Exec}
use ubt_exex.Tree.{Stem, B256, Address}
use ubt_exex.Index.Codec.{
  HeadRecord, set_bit, merge_bitmaps, pack_value, split_value, pack_head, unpack_head,
}

pub record Redb : Type 1 where
  pub Db : Type 0
  pub Write : Type 0
  pub Read : Type 0
  pub begin_write : Db → Foreign Write
  pub open_stems : Write → Foreign (Unit {0})
  pub open_meta : Write → Foreign (Unit {0})
  pub get_stem : Bytes → Write → Foreign (Option Bytes)
  pub insert_stem : Bytes → Bytes → Write → Foreign Write
  pub insert_head : Bytes → Write → Foreign Write
  pub commit : Write → Db → Foreign (Unit {0}) × Db
  pub begin_read : Db → Foreign Read
  -- `none` is `TableError::TableDoesNotExist`.
  pub read_meta : Read → Foreign (Option (Unit {0}))
  pub read_head : Read → Foreign (Option Bytes)
  pub read_stems : Read → Foreign (Option (Unit {0}))
  pub iter_stems : Read → Foreign (List (Foreign (Bytes × Bytes)))

-- `per_stem`
abbrev pub PerStem : Type 0
PerStem = List (Stem × (Address × Bytes))

abbrev pub address_mismatch : {A : Type 0} → Result A
address_mismatch = mdbx_error (just "Stem address mismatch in key index")

-- One round of the first loop of `apply_updates`.
unfoldable pub note_update : Stem × ℕ × Address → PerStem → Result PerStem
note_update (stem, subindex, address) m =
    let entry : Address × Bytes =
      unwrap_or (lookup {V = Address × Bytes} stem m) (address, replicate 32 0) in
    if entry.0 == address
    then ok (insert {V = Address × Bytes} stem (entry.0, set_bit entry.1 subindex) m)
    else address_mismatch

unfoldable pub note_updates : List (Stem × ℕ × Address) → PerStem → Result PerStem
unfolding note_update
note_updates [] m = ok m
note_updates (u ∷ us) m = note_update u m >>= note_updates us

-- The bitmap to write for a stem, given its stored value, and whether the stem is new.
unfoldable pub merge_stored : Option Bytes → Address → Bytes → Result (Bytes × Bool)
merge_stored none address bitmap = ok (bitmap, true)
merge_stored (some existing) address bitmap =
    split_value existing >>= λ (existing_address, existing_bitmap).
    if existing_address == address
    then ok (merge_bitmaps bitmap existing_bitmap, false)
    else address_mismatch

module _ (R : Redb) where
  open R use {Db, Write, Read}

  -- One round of the loop over `per_stem`.
  unfoldable pub write_stem : Stem × (Address × Bytes) → Write × ℕ → Result (Write × ℕ)
  unfolding merge_stored
  write_stem (stem, (address, bitmap)) (txn, new_stems) = do
    existing ← map_err (R.get_stem stem txn)
    merged ← merge_stored existing address bitmap
    txn' ← map_err (R.insert_stem stem (pack_value address merged.0) txn)
    ok (txn', if merged.1 then suc new_stems else new_stems)

  unfoldable pub write_stems : PerStem → Write × ℕ → Result (Write × ℕ)
  unfolding write_stem
  write_stems [] t = ok t
  write_stems (e ∷ m) t = write_stem e t >>= write_stems m

  -- `write_txn.commit()`, with what the method returns after it.
  unfoldable pub finish : {A : Type 0} → A → Foreign (Unit {0}) × Db → Result A × Db
  finish a (done u, d) = (ok a, d)
  finish a (failed e, d) = (mdbx_error (just e), d)

  -- An error before the commit aborts the transaction.
  unfoldable pub commit_or_abort : {A : Type 0} → Result (Write × A) → Exec Db A
  unfolding finish
  commit_or_abort (ok (txn, a)) d = finish a (R.commit txn d)
  commit_or_abort (err e) d = (err e, d)
  commit_or_abort (panic m) d = (panic m, d)

  unfoldable pub apply_noted : PerStem → Exec Db ℕ
  unfolding write_stems commit_or_abort
  apply_noted [] d = (ok 0, d)
  apply_noted (e ∷ m) d =
      commit_or_abort
        (do
          txn ← map_err (R.begin_write d)
          map_err (R.open_stems txn) >>= λ _. write_stems (e ∷ m) (txn, 0))
        d

  unfoldable pub noted_or_fail : Result PerStem → Exec Db ℕ
  unfolding apply_noted
  noted_or_fail (ok m) d = apply_noted m d
  noted_or_fail (err e) d = (err e, d)
  noted_or_fail (panic x) d = (panic x, d)

  unfoldable pub apply_updates : List (Stem × ℕ × Address) → Exec Db ℕ
  unfolding note_updates noted_or_fail
  apply_updates updates d = noted_or_fail (note_updates updates []) d

  unfoldable pub save_head : ℕ → B256 → B256 → ℕ → Exec Db (Unit {0})
  unfolding commit_or_abort
  save_head block_number block_hash root stem_count d =
      commit_or_abort
        (do
          txn ← map_err (R.begin_write d)
          map_err (R.open_meta txn) >>= λ _. do
            txn' ← map_err (R.insert_head (pack_head block_number block_hash root stem_count) txn)
            ok (txn', tt))
        d

  unfoldable pub unpack_or_none : Option Bytes → Result (Option HeadRecord)
  unpack_or_none none = ok none
  unpack_or_none (some bytes) = unpack_head bytes >>= λ head. ok (some head)

  unfoldable pub head_in_table : Read → Option (Unit {0}) → Result (Option HeadRecord)
  unfolding unpack_or_none
  head_in_table txn none = ok none
  head_in_table txn (some table) = map_err (R.read_head txn) >>= unpack_or_none

  unfoldable pub load_head : Db → Result (Option HeadRecord)
  unfolding head_in_table
  load_head d = do
    txn ← map_err (R.begin_read d)
    table ← map_err (R.read_meta txn)
    head_in_table txn table
