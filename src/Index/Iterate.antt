-- ===== src/Index/Iterate.antt =====
-- `for_each_stem` of key_index.rs: the stems in the order of redb, with a callback that may change
-- what it captures.
use ubt_exex.Common.{Option, none, some, List, [], ◌∷◌, Foreign, map_err}
use ubt_exex.Common.Bytes.{Bytes}
use ubt_exex.Common.Exec.{Exec, pure, lift, ◌>>=◌, ◌>>◌}
use ubt_exex.Tree.{Stem, Address}
use ubt_exex.Index.Codec.{split_value}
use ubt_exex.Index.Table.{Redb}

pub record StemRecord : Type 0 where
  pub address : Address
  pub bitmap : Bytes

module _ (R : Redb) {S : Type 0} (f : Stem → StemRecord → Exec S (Unit {0})) where
  unfoldable pub visit_stem : Foreign (Bytes × Bytes) → Exec S (Unit {0})
  unfolding split_value
  visit_stem entry = do
    kv ← lift (map_err entry)
    value ← lift (split_value kv.1)
    f kv.0 (record { address = value.0; bitmap = value.1 })

  unfoldable pub visit_stems : List (Foreign (Bytes × Bytes)) → Exec S (Unit {0})
  unfolding visit_stem
  visit_stems [] = pure tt
  visit_stems (e ∷ es) = visit_stem e >> visit_stems es

  unfoldable pub visit_table : R.Read → Option (Unit {0}) → Exec S (Unit {0})
  unfolding visit_stems
  visit_table txn none = pure tt
  visit_table txn (some table) = lift (map_err (R.iter_stems txn)) >>= visit_stems

  unfoldable pub for_each_stem : R.Db → Exec S (Unit {0})
  unfolding visit_table
  for_each_stem d = do
    txn ← lift (map_err (R.begin_read d))
    table ← lift (map_err (R.read_stems txn))
    visit_table txn table
