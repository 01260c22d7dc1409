-- ===== src/Whole.antt =====
-- The parts put together: `UbtExEx` (src/ubt_exex.rs) on `UbtDatabase` (src/persistence.rs) over the
-- wrapper of MDBX (src/mdbx.rs), and on `KeyIndex` (src/key_index.rs) over redb. Outside remain the
-- `ubt` crate, the MDBX library, bincode, redb and NOMT.
use ubt_exex.Common.{
  ℕ, none, Option, List, [], ◌∷◌, ◌≡◌, refl, ap, sym, ◌∙◌, ltb, if◌then◌else◌, Bool, true, false,
}
use ubt_exex.Common.Exec.{Ensures, ◌>>=◌}
use ubt_exex.Tree.{Ubt, IsUbt, B256, TreeKey, Delta}
use ubt_exex.Store.{word}
use ubt_exex.Index.{Nomt}
use ubt_exex.Index.Table.{Redb}
use ubt_exex.Index.Refine.{IsRedb, key_index, key_index-IsIndex}
use ubt_exex.Mdbx.{Ffi}
use ubt_exex.Mdbx.Tables.{IsFfi, Rows}
use ubt_exex.Persistence.{Bincode, deltas_db}
use ubt_exex.Persistence.Deltas.{block_key}
use ubt_exex.Persistence.Keys.{block_key-word}
use ubt_exex.Persistence.Rules.{decoded}
use ubt_exex.Persistence.View.{deltas_in, words}
use ubt_exex.Persistence.Writes.{IsBincode}
use ubt_exex.Persistence.Entries.{HasValues}
use ubt_exex.Persistence.Refine.{ubt_database, ubt_database-IsStore}
use ubt_exex.Exex.{Parts, UbtExEx}
use ubt_exex.Exex.Steps.{visible, IsReady, StaysReady}
use ubt_exex.Exex.Commit.{commit}
use ubt_exex.Exex.Revert.{revert}
use ubt_exex.Exex.Restore.{commit-revert, IsWord}

module _ {U : Ubt} (tree : IsUbt U) (M : Ffi) (laws : IsFfi M) (B : Bincode U)
    (codecs : IsBincode B) (V : HasValues U) (R : Redb) (redb : IsRedb R) (N : Nomt) where
  abbrev pub whole : Parts
  whole = record {
    ubt = U;
    store = ubt_database M laws B codecs V;
    index = key_index R redb;
    trie = N;
  }

  no_deltas : (n : ℕ) (rows : Rows) → rows (block_key n) ≡ none → deltas_in B rows (word n) ≡ none
  no_deltas n rows h =
      ap (λ o. if ltb (word n) words then decoded B.deltas.deserialize o else none)
        (ap rows (sym (block_key-word n)) ∙ h)
      ∙ either_none (ltb (word n) words)
    where
      either_none :
          (b : Bool) → (if b then none else none) ≡ (let o : Option (List Delta) = none in o)
      either_none true = refl
      either_none false = refl

  -- On MDBX and redb: from a ready state in which the table of deltas has no row for block `n`, a
  -- `u64`, if `commit` of the block returns and `revert` of a chain of that block alone returns,
  -- every key has the value that it had before. Neither panics, and where one fails, the overlay
  -- still holds each stem once.
  pub whole-commit-revert :
      (n : ℕ) (hash parent : B256) (s : UbtExEx whole)
      → IsReady whole s
      → IsWord n
      → laws.rows s.db deltas_db (block_key n) ≡ none
      → Ensures
          (λ _ s'. (key : TreeKey) → visible whole s' key ≡ visible whole s key)
          (StaysReady whole)
          ((commit whole n hash >>= λ _. revert whole ((n, parent) ∷ [])) s)
  whole-commit-revert n hash parent s ready bound fresh =
      commit-revert whole tree (ubt_database-IsStore M laws B codecs V) (key_index-IsIndex R redb) n
        hash parent s ready bound (no_deltas n (laws.rows s.db deltas_db) fresh)
