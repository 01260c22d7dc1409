-- ===== src/Exex/Commit/Record.antt =====
-- `record_entries`: the entries become visible, and their deltas are stored for the block.
use ubt_exex.Common.{ℕ, List, [], ◌∷◌, ◌≡◌, refl, if◌then◌else◌, not, nat_eq, list_eq}
use ubt_exex.Common.Exec.{Ensures, Ensures-bind, Ensures-weaken}
use ubt_exex.Tree.{Delta, IsUbt, Stem, Address}
use ubt_exex.Store.{IsStore, put, add_missing, word}
use ubt_exex.Index.{IsIndex}
use ubt_exex.Exex.{Parts, PendingEntry, UbtExEx, is_empty, on_db, on_dirty, on_index}
use ubt_exex.Exex.Steps.{visible, on_index_step, on_dirty_step, when_step}
use ubt_exex.Exex.Effect.{
  Stored, Effect, Quiet, KeepsReady, Effect-refl, Effect-trans, Effect-then, on_db-Effect,
}
use ubt_exex.Exex.Commit.{
  Log, commit_entries, record_entries, record_rest, index_updates, save_fresh, update_index,
  save_deltas,
}
use ubt_exex.Exex.Commit.Entries.{write_entries, deltas_of, commit_entries-Recorded}

-- `save_block_deltas` is called only if there are deltas.
abbrev pub saved : ℕ → List Delta → Stored → Stored
saved n ds f = if is_empty ds then f else put (word n) ds f

module _ (P : Parts) (laws : IsUbt P.ubt) (stored : IsStore P.store)
    (indexed : IsIndex P.index) where
  open P use {store, index}

  save_fresh-Quiet :
      (fresh : List (Stem × Address)) (s : UbtExEx P)
      → Ensures (λ _ s'. Quiet P s s') (KeepsReady P s) (save_fresh P fresh s)
  unfolding save_fresh
  save_fresh-Quiet fresh s =
      when_step (not (is_empty fresh)) (on_db P (store.batch_save_stem_addresses fresh)) s
        (λ _.
          on_db-Effect P (store.batch_save_stem_addresses fresh)
            (λ c. record c { addresses = add_missing fresh c.addresses }) (λ d. d) s
            (stored.save_addresses_writes fresh) (λ _. refl) (λ _. refl) (λ _. refl))
        (λ _. Effect-refl P s)

  save_deltas-Effect :
      (n : ℕ) (ds : List Delta) (s : UbtExEx P)
      → Ensures
          (λ _ s'. Effect P (λ f. f) (saved n ds) s s')
          (KeepsReady P s)
          (save_deltas P n ds s)
  unfolding save_deltas
  save_deltas-Effect n [] s = record { post = Effect-refl P s }
  save_deltas-Effect n (d ∷ ds) s =
      on_db-Effect P (store.save_block_deltas n (d ∷ ds))
        (λ c. record c { deltas = put (word n) (d ∷ ds) c.deltas }) (put (word n) (d ∷ ds)) s
        (stored.save_deltas_writes n (d ∷ ds)) (λ _. refl) (λ _. refl) (λ _. refl)

  update_index-Quiet :
      (entries : List PendingEntry) (s : UbtExEx P)
      → Ensures (λ _ s'. Quiet P s s') (KeepsReady P s) (update_index P entries s)
  unfolding update_index
  update_index-Quiet entries s =
      Ensures-bind (on_index P (index.apply_updates (index_updates P entries)) s) _
        (Ensures-weaken _
          (on_index_step P (index.apply_updates (index_updates P entries)) s
            (indexed.apply_updates_keeps (index_updates P entries) s.key_index))
          (λ _ s' h. h) (λ _ s' (x, p, q) d. rw p d))
        (λ new_stems s' (x, p, q). record {
          post = rw p (record {
            visible_after = λ key. refl;
            deltas_after = refl;
            stems_after = refl;
            head_after = refl;
            ready = λ d. d;
            same_policy = refl;
          });
        })

  record_rest-Effect :
      (entries : List PendingEntry) (n : ℕ) (log : Log) (s : UbtExEx P)
      → Ensures
          (λ _ s'. Effect P (λ f. f) (saved n log.0) s s')
          (KeepsReady P s)
          (record_rest P entries n log s)
  unfolding record_rest
  record_rest-Effect entries n log s =
      Effect-then P (save_fresh P log.1) _ (λ f. f) (λ f. f) (λ d. d) (saved n log.0) s
        (save_fresh-Quiet log.1 s)
        (λ _ t.
          Effect-then P (update_index P entries) _ (λ f. f) (λ f. f) (λ d. d) (saved n log.0) t
            (update_index-Quiet entries t) (λ _ u. save_deltas-Effect n log.0 u))

  entries_step :
      (entries : List PendingEntry) (s : UbtExEx P)
      → Ensures
          (λ log s'.
            Effect P (write_entries entries) (λ d. d) s s'
            × (log.0 ≡ deltas_of entries (visible P s)))
          (KeepsReady P s)
          (on_dirty P (λ db. commit_entries P db entries ([], [])) s)
  entries_step entries s =
      Ensures-weaken _
        (on_dirty_step P (λ db. commit_entries P db entries ([], [])) s
          (commit_entries-Recorded P laws stored s.db entries ([], []) s.dirty_stems))
        (λ log s' (m, p, h). rw p (
          record {
            visible_after = h.writes.values;
            deltas_after = refl;
            stems_after = refl;
            head_after = refl;
            ready = h.writes.distinct;
            same_policy = refl;
          },
          h.deltas,
        ))
        (λ e s' (m, p, k) d. rw p (k d))

  -- Each entry is written, in order, and the block's deltas are stored if there are any.
  pub record_entries-Effect :
      (entries : List PendingEntry) (n : ℕ) (s : UbtExEx P)
      → Ensures
          (λ _ s'.
            Effect P (write_entries entries) (saved n (deltas_of entries (visible P s))) s s')
          (KeepsReady P s)
          (record_entries P entries n s)
  unfolding record_entries
  record_entries-Effect entries n s =
      Ensures-bind (on_dirty P (λ db. commit_entries P db entries ([], [])) s)
        (record_rest P entries n) (entries_step entries s)
        (λ log t (h, p).
          Ensures-weaken (record_rest P entries n log t) (record_rest-Effect entries n log t)
            (λ _ u k.
              rw p at (
                Effect-trans P (write_entries entries) (λ f. f) (λ d. d) (saved n log.0) s t u h k))
            (λ _ u k r. k (h.ready r)))
