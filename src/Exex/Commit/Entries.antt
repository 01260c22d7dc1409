-- ===== src/Exex/Commit/Entries.antt =====
-- The loop of `commit` over the entries: what it writes to the overlay and which deltas it pushes.
use ubt_exex.Common.{
  Bool, true, false, List, [], ◌∷◌, ◌++◌, ◌≡◌, refl, arith, if◌then◌else◌, list_eq, nat_eq, ◌==◌,
  fun_ext,
}
use ubt_exex.Common.{UbtError}
use ubt_exex.Common.Assoc.{insert, Distinct}
use ubt_exex.Common.Exec.{Ensures, Ensures-bind, Ensures-weaken, pure, modify, ◌>>=◌, ◌>>◌}
use ubt_exex.Tree.{B256, TreeKey, Delta, IsUbt, tree_key_eq, value_at}
use ubt_exex.Store.{IsStore}
use mathlib.Core.List.{append-nil, append_assoc}
use ubt_exex.Exex.{Parts, PendingEntry, Dirty, seed_stem, expect_stem}
use ubt_exex.Exex.Overlay.{
  current, write, Writes, seed_stem-Seeded, value_at-Seeded, expect_stem_lem, set_value-Writes,
  Seeded,
}
use ubt_exex.Exex.Commit.{Log, note_fresh, note_delta, commit_entry, commit_entries}

-- The entries as writes to a state, in order.
unfoldable pub write_entries : List PendingEntry → (TreeKey → B256) → TreeKey → B256
write_entries [] f = f
write_entries (e ∷ es) f = write_entries es (write e.key e.value f)

-- The old value of an entry that changes something.
abbrev pub delta_of : PendingEntry → (TreeKey → B256) → List Delta
delta_of e f = if f e.key == e.value then [] else (e.key.stem, e.key.subindex, f e.key) ∷ []

unfoldable pub deltas_of : List PendingEntry → (TreeKey → B256) → List Delta
deltas_of [] f = []
deltas_of (e ∷ es) f = delta_of e f ++ deltas_of es (write e.key e.value f)

note_deltas :
    (fresh : Bool) (old : B256) (e : PendingEntry) (log : Log)
    → (note_delta old e (note_fresh fresh e log)).0
      ≡ log.0 ++ (if old == e.value then [] else (e.key.stem, e.key.subindex, old) ∷ [])
note_deltas true old e (ds, as') = ground (arith, append-nil ds)
note_deltas false old e (ds, as') = ground (arith, append-nil ds)

module _ (P : Parts) where
  open P use {store}

  -- The overlay after some entries, with the deltas that they pushed behind those of `log`.
  pub record Recorded (db : store.Db) (es : List PendingEntry) (log : Log) (m : Dirty P)
      (log' : Log) (m' : Dirty P) : Type 0 where
    pub writes : Writes P db (write_entries es) m m'
    pub deltas : log'.0 ≡ log.0 ++ deltas_of es (current P db m)

module _ (P : Parts) (laws : IsUbt P.ubt) (stored : IsStore P.store) where
  open P use {ubt, store}

  abbrev pub Kept : Dirty P → UbtError → Dirty P → Type 0
  Kept m _ m' = Distinct m → Distinct m'

  -- One round: the entry is written, and a delta is pushed if it changes something.
  write_entry :
      (db : store.Db) (e : PendingEntry) (log : Log) (m m' : Dirty P) (fresh : Bool)
      → Seeded P db e.key.stem m m'
      → Ensures (Recorded P db (e ∷ []) log m) (Kept m) (
          (expect_stem P e.key.stem >>= λ node.
          modify (insert e.key.stem (ubt.set_value node e.key.subindex e.value))
          >> pure (note_delta (value_at ubt node e.key.subindex) e (note_fresh fresh e log)))
            m')
  unfolding write_entries deltas_of
  write_entry db e log m m' fresh h =
      rw (expect_stem_lem P laws stored e.key.stem m' h.found) (record {
        post = record {
          writes = set_value-Writes P laws stored db e.key.stem e.key.subindex e.value m m' h;
          deltas =
              rw (value_at-Seeded P laws stored db e.key.stem e.key.subindex m m' h, append-nil)
                (note_deltas fresh (current P db m e.key) e log);
        };
      })

  commit_entry-Recorded :
      (db : store.Db) (e : PendingEntry) (log : Log) (m : Dirty P)
      → Ensures (Recorded P db (e ∷ []) log m) (Kept m) (commit_entry P db e log m)
  unfolding commit_entry
  commit_entry-Recorded db e log m =
      Ensures-bind (seed_stem P db e.key.stem m) _
        (Ensures-weaken (seed_stem P db e.key.stem m)
          (seed_stem-Seeded P laws stored db e.key.stem m) (λ _ _ h. h) (λ _ m' p d. rw p d))
        (λ fresh m' h. write_entry db e log m m' fresh h)

  Recorded-cons :
      (db : store.Db) (e : PendingEntry) (es : List PendingEntry) (log log' log'' : Log)
      (m m' m'' : Dirty P)
      → Recorded P db (e ∷ []) log m log' m'
      → Recorded P db es log' m' log'' m''
      → Recorded P db (e ∷ es) log m log'' m''
  unfolding write_entries deltas_of
  Recorded-cons db e es log log' log'' m m' m'' h k = record {
    writes = record {
      values = λ key. rw (fun_ext h.writes.values) at (k.writes.values key);
      distinct = λ d. k.writes.distinct (h.writes.distinct d);
    };
    deltas = rw (k.deltas, fun_ext h.writes.values, h.deltas, append-nil, append_assoc) refl;
  }

  -- The loop writes every entry in order, and pushes a delta for each change, in order.
  pub commit_entries-Recorded :
      (db : store.Db) (es : List PendingEntry) (log : Log) (m : Dirty P)
      → Ensures (Recorded P db es log m) (Kept m) (commit_entries P db es log m)
  unfolding commit_entries
  commit_entries-Recorded db [] log m = record {
    post = record {
      writes = record { values = unfold write_entries in λ key. refl; distinct = λ d. d };
      deltas = unfold deltas_of in rw append-nil;
    };
  }
  commit_entries-Recorded db (e ∷ es) log m =
      Ensures-bind (commit_entry P db e log m) _ (commit_entry-Recorded db e log m) (λ log' m' h.
        Ensures-weaken (commit_entries P db es log' m') (commit_entries-Recorded db es log' m')
          (λ log'' m'' k. Recorded-cons db e es log log' log'' m m' m'' h k)
          (λ _ m'' k d. k (h.writes.distinct d)))
