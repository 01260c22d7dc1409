-- ===== src/Exex/Overlay.antt =====
-- The state that a client sees: the overlay over what MDBX holds.
use ubt_exex.Common.{
  ℕ, Option, none, some, List, [], ◌∷◌, ◌≡◌, refl, if◌then◌else◌, list_eq, nat_eq, ◌==◌,
  Option-cases, inl, inr, arith, ok, list_beq_iff, fun_ext, ap,
}
use ubt_exex.Common.Assoc.{
  lookup, insert, contains_key, lookup-insert, lookup-insert_self, Distinct, insert-Distinct,
}
use ubt_exex.Common.Exec.{Ensures, Ensures-bind, Ensures-lift, Ensures-weaken, modify, ◌>>=◌}
use ubt_exex.Tree.{
  Stem, B256, TreeKey, tree_key, tree_key_eq, key_beq, Delta, IsUbt, value_at, zero_hash,
}
use ubt_exex.Store.{IsStore}
use ubt_exex.Exex.{Parts, Dirty, add_seed, seed_stem, expect_stem, apply_delta, apply_each}

module _ (P : Parts) where
  open P use {ubt, store}

  -- The value that a node, or an absent one, has.
  abbrev pub value_in : Option ubt.StemNode → ℕ → B256
  value_in none i = zero_hash
  value_in (some n) i = value_at ubt n i

  abbrev pub or_else : Option ubt.StemNode → Option ubt.StemNode → Option ubt.StemNode
  or_else (some n) o = some n
  or_else none o = o

  -- The value of a key: that of the overlay's node if there is one, else that of MDBX's.
  unfoldable pub current : store.Db → Dirty P → TreeKey → B256
  current db m key =
      value_in (or_else (lookup key.stem m) ((store.contents db).stems key.stem)) key.subindex

  -- Only the stems that MDBX holds matter.
  pub current_of_stems :
      (db db' : store.Db) (m : Dirty P) (key : TreeKey)
      → (store.contents db').stems ≡ (store.contents db).stems
      → current db' m key ≡ current db m key
  unfolding current
  current_of_stems db db' m key h =
      ap (λ stems. value_in (or_else (lookup key.stem m) (stems key.stem)) key.subindex) h

  pub record Seeded (db : store.Db) (stem : Stem) (m m' : Dirty P) : Type 0 where
    pub node : ubt.StemNode
    pub found : lookup stem m' ≡ some node
    pub same : (key : TreeKey) → current db m' key ≡ current db m key
    pub distinct : Distinct m → Distinct m'

  -- What a loop over writes does to the state that a client sees.
  pub record Writes (db : store.Db) (change : (TreeKey → B256) → TreeKey → B256) (m m' : Dirty P)
      : Type 0 where
    pub values : (key : TreeKey) → current db m' key ≡ change (current db m) key
    pub distinct : Distinct m → Distinct m'

-- A write to one key of a state.
abbrev pub write : TreeKey → B256 → (TreeKey → B256) → TreeKey → B256
write k v f key = if k == key then v else f key

-- Writes to a state in the order of a list of deltas.
unfoldable pub write_deltas : List Delta → (TreeKey → B256) → TreeKey → B256
write_deltas [] f = f
write_deltas ((stem, i, v) ∷ ds) f = write_deltas ds (write (tree_key stem i) v f)

module _ (P : Parts) (laws : IsUbt P.ubt) (stored : IsStore P.store) where
  open P use {ubt, store}

  add_seed-Seeded :
      (db : store.Db) (stem : Stem) (m : Dirty P) (o : Option ubt.StemNode)
      → lookup stem m ≡ none
      → o ≡ (store.contents db).stems stem
      → Ensures (λ _ m'. Seeded P db stem m m') (λ _ m'. m' ≡ m) (add_seed P stem o m)
  unfolding add_seed current
  add_seed-Seeded db stem m (some n) out h = record {
    post = record {
      node = n;
      found = lookup-insert_self stem n m;
      same = λ key. ground (arith, lookup-insert stem key.stem n m, list_beq_iff stem key.stem);
      distinct = insert-Distinct stem n m;
    };
  }
  add_seed-Seeded db stem m none out h = record {
    post = record {
      node = ubt.new stem;
      found = lookup-insert_self stem (ubt.new stem) m;
      same = λ key. ground (
        arith,
        lookup-insert stem key.stem (ubt.new stem) m,
        list_beq_iff stem key.stem,
        laws.value_at-new stem key.subindex,
      );
      distinct = insert-Distinct stem (ubt.new stem) m;
    };
  }

  -- Seeding a stem changes no value, puts the stem in the overlay, and cannot panic.
  pub seed_stem-Seeded :
      (db : store.Db) (stem : Stem) (m : Dirty P)
      → Ensures (λ _ m'. Seeded P db stem m m') (λ _ m'. m' ≡ m) (seed_stem P db stem m)
  unfolding seed_stem
  seed_stem-Seeded db stem m = elim (Option-cases (lookup stem m)) [
    | inl out ↦
        rw (out, contains_key)
          (Ensures-bind (store.load_stem stem db, m) (add_seed P stem)
            (Ensures-lift _ m (stored.load_stem_reads stem db))
            (λ o m' (h, p). rw p (add_seed-Seeded db stem m o out h)))
    | inr (n, found) ↦
        rw (found, contains_key)
          (record {
            post = record { node = n; found = found; same = λ key. refl; distinct = λ h. h };
          })
  ]

  -- The node that seeding found has the current value.
  pub value_at-Seeded :
      (db : store.Db) (stem : Stem) (i : ℕ) (m m' : Dirty P) (h : Seeded P db stem m m')
      → value_at ubt h.node i ≡ current P db m (tree_key stem i)
  unfolding current
  value_at-Seeded db stem i m m' h = ground (arith, h.found, h.same (tree_key stem i))

  pub expect_stem_lem :
      (stem : Stem) (m : Dirty P) {n : ubt.StemNode}
      → lookup stem m ≡ some n
      → expect_stem P stem m ≡ (ok n, m)
  unfolding expect_stem
  expect_stem_lem stem m h = rw (h, expect_stem)

  pub set_value-Writes :
      (db : store.Db) (stem : Stem) (i : ℕ) (v : B256) (m m' : Dirty P) (h : Seeded P db stem m m')
      → Writes P db (write (tree_key stem i) v) m (insert stem (ubt.set_value h.node i v) m')
  unfolding current key_beq
  set_value-Writes db stem i v m m' h = record {
    values = λ key. ground (
      arith,
      lookup-insert stem key.stem (ubt.set_value h.node i v) m',
      list_beq_iff stem key.stem,
      laws.value_at-set h.node i key.subindex v,
      h.found,
      h.same key,
    );
    distinct = λ d. insert-Distinct stem _ m' (h.distinct d);
  }

  -- The steps that a round of either loop makes for one key: seed, look the node up, write.
  pub seed_then_write :
      (db : store.Db) (stem : Stem) (i : ℕ) (v : B256) (m m' : Dirty P)
      → Seeded P db stem m m'
      → Ensures
          (λ _ m''. Writes P db (write (tree_key stem i) v) m m'')
          (λ _ m''. Distinct m → Distinct m'')
          ((expect_stem P stem >>= λ node. modify (insert stem (ubt.set_value node i v))) m')
  seed_then_write db stem i v m m' h =
      rw (expect_stem_lem stem m' h.found) (record { post = set_value-Writes db stem i v m m' h })

  apply_delta-Writes :
      (db : store.Db) (stem : Stem) (i : ℕ) (v : B256) (m : Dirty P)
      → Ensures
          (λ _ m'. Writes P db (write (tree_key stem i) v) m m')
          (λ _ m'. Distinct m → Distinct m')
          (apply_delta P db (stem, i, v) m)
  unfolding apply_delta
  apply_delta-Writes db stem i v m =
      Ensures-bind (seed_stem P db stem m) _
        (Ensures-weaken (seed_stem P db stem m) (seed_stem-Seeded db stem m) (λ _ _ h. h)
          (λ _ m' p d. rw p d))
        (λ _ m' h. seed_then_write db stem i v m m' h)

  pub apply_each-Writes :
      (db : store.Db) (ds : List Delta) (m : Dirty P)
      → Ensures
          (λ _ m'. Writes P db (write_deltas ds) m m')
          (λ _ m'. Distinct m → Distinct m')
          (apply_each P db ds m)
  unfolding apply_each write_deltas
  apply_each-Writes db [] m = record { post = record { values = λ key. refl; distinct = λ d. d } }
  apply_each-Writes db ((stem, i, v) ∷ ds) m =
      Ensures-bind (apply_delta P db (stem, i, v) m) _ (apply_delta-Writes db stem i v m) (λ _ m' h.
        Ensures-weaken (apply_each P db ds m') (apply_each-Writes db ds m')
          (λ _ m'' k. record {
            values = λ key. rw (fun_ext h.values) at (k.values key);
            distinct = λ d. k.distinct (h.distinct d);
          })
          (λ _ m'' k d. k (h.distinct d)))
