-- ===== src/Exex.antt =====
-- The state of `UbtExEx` in src/ubt_exex.rs, its overlay of dirty stems, and reads through it.
pub mod Overlay
pub mod Steps
pub mod Effect
pub mod Commit
pub mod Undo
pub mod Root
pub mod Revert
pub mod Restore
pub mod Lifecycle
pub mod Loop
pub mod Named
pub mod Resume
pub mod Reads
pub mod Reorg
use ubt_exex.Common.{
  ℕ, Bool, true, false, Option, none, some, List, [], ◌∷◌, if◌then◌else◌, list_eq, nat_eq, Result,
  ok, panic, just, reverse, ◌>>=◌ as result_bind,
}
use ubt_exex.Common.Assoc.{lookup, insert, contains_key}
use ubt_exex.Common.Exec.{Exec, pure, lift, modify, ◌>>=◌, ◌>>◌}
use ubt_exex.Tree.{Stem, B256, Address, TreeKey, Delta, Ubt}
use ubt_exex.Store.{Store}
use ubt_exex.Index.{Index, Nomt}

pub record Parts : Type 1 where
  pub ubt : Ubt
  pub store : Store ubt
  pub index : Index
  pub trie : Nomt

pub record PendingEntry : Type 0 where
  pub key : TreeKey
  pub value : B256
  pub address : Address

pub record UbtExEx (P : Parts) : Type 0 where
  pub db : P.store.Db
  pub last_block : ℕ
  pub last_hash : B256
  pub last_root : B256
  pub pending_entries : List PendingEntry
  pub dirty_stems : List (Stem × P.ubt.StemNode)
  pub nomt : P.trie.State
  pub key_index : P.index.Db
  pub flush_interval : ℕ
  pub delta_retention : ℕ
  pub last_persisted_block : ℕ
  pub last_persisted_hash : B256
  pub stem_count : ℕ

abbrev pub is_empty {ℓ} : {A : Type ℓ} → List A → Bool
is_empty [] = true
is_empty (x ∷ xs) = false

module _ (P : Parts) where
  open P use {ubt, store, index}

  -- The overlay `dirty_stems`, which `commit` and `revert` change while they read MDBX.
  abbrev pub Dirty : Type 0
  Dirty = List (Stem × ubt.StemNode)

  abbrev pub Method : Type 0 → Type 0
  Method A = Exec (UbtExEx P) A

  -- A call that may write `self.db`, `self.key_index` or `self.dirty_stems` alone.
  abbrev pub on_db : {A : Type 0} → Exec store.Db A → Method A
  on_db op s = ((op s.db).0, record s { db = (op s.db).1 })

  abbrev pub on_index : {A : Type 0} → Exec index.Db A → Method A
  on_index op s = ((op s.key_index).0, record s { key_index = (op s.key_index).1 })

  abbrev pub on_dirty : {A : Type 0} → (store.Db → Exec Dirty A) → Method A
  on_dirty op s = ((op s.db s.dirty_stems).0, record s { dirty_stems = (op s.db s.dirty_stems).1 })

  -- The two branches on what MDBX has, and whether the stem is new.
  add_seed : Stem → Option ubt.StemNode → Exec Dirty Bool
  add_seed stem (some existing) m = (ok false, insert stem existing m)
  add_seed stem none m = (ok true, insert stem (ubt.new stem) m)

  -- `if !self.dirty_stems.contains_key(stem) { .. }` of `commit` and `apply_deltas_reverse`: the
  -- stem is seeded from MDBX, or starts empty. The result tells whether it started empty.
  pub seed_stem : store.Db → Stem → Exec Dirty Bool
  unfolding add_seed contains_key
  seed_stem db stem m =
      if contains_key stem m
      then (ok false, m)
      else (lift (store.load_stem stem db) >>= add_seed stem) m

  -- `self.dirty_stems.get_mut(stem).expect("just inserted")`
  pub expect_stem : Stem → Exec Dirty ubt.StemNode
  expect_stem stem m = elim (lookup stem m) [
    | none ↦ (panic (just "just inserted"), m)
    | some node ↦ (ok node, m)
  ]

  -- One round of the loop of `apply_deltas_reverse`.
  pub apply_delta : store.Db → Delta → Exec Dirty (Unit {0})
  unfolding seed_stem expect_stem
  apply_delta db (stem, subindex, old_value) = do
    seed_stem db stem
    node ← expect_stem stem
    modify (insert stem (ubt.set_value node subindex old_value))

  pub apply_each : store.Db → List Delta → Exec Dirty (Unit {0})
  apply_each db [] = pure tt
  apply_each db (d ∷ ds) = do apply_delta db d; apply_each db ds

  pub apply_deltas_reverse : List Delta → Method (Unit {0})
  unfolding apply_each
  apply_deltas_reverse deltas = on_dirty (λ db. apply_each db (reverse deltas))

  pub get_stem : Stem → UbtExEx P → Result (Option ubt.StemNode)
  get_stem stem s = elim (lookup stem s.dirty_stems) [
    | some node ↦ ok (some node)
    | none ↦ store.load_stem stem s.db
  ]

  -- `UbtDatabase::load_value`
  unfoldable pub load_value : TreeKey → store.Db → Result (Option B256)
  load_value key db =
      result_bind (store.load_stem key.stem db)
        (elim [ none ↦ ok none | some node ↦ ok (ubt.get_value node key.subindex) ])

  -- A value that the overlay's node does not have is looked up in MDBX too.
  value_or_load : TreeKey → Option B256 → store.Db → Result (Option B256)
  value_or_load key (some value) db = ok (some value)
  value_or_load key none db = load_value key db

  pub get_value : TreeKey → UbtExEx P → Result (Option B256)
  unfolding value_or_load
  get_value key s = elim (lookup key.stem s.dirty_stems) [
    | some node ↦ value_or_load key (ubt.get_value node key.subindex) s.db
    | none ↦ load_value key s.db
  ]
