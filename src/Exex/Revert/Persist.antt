-- ===== src/Exex/Revert/Persist.antt =====
-- Writing the overlay to MDBX with a head at the last block, for `shutdown` and `revert`.
use ubt_exex.Common.{[], some, ◌≡◌, refl, ap, ◌∙◌, sym, nat_eq, list_eq}
use mathlib.Core.Path.{subst}
use ubt_exex.Common.Exec.{Ensures, Ensures-bind, Ensures-weaken, Ensures-lift}
use ubt_exex.Tree.{TreeKey, B256, IsUbt}
use ubt_exex.Store.{IsStore, IsListing, UbtHead}
use ubt_exex.Index.{IsIndex}
use ubt_exex.Exex.{Parts, UbtExEx, on_db}
use ubt_exex.Exex.Steps.{visible, IsReady, on_db-DbChanged}
use ubt_exex.Exex.Effect.{policy}
use ubt_exex.Exex.Commit.{write_dirty, flush_dirty, compute_root_from_db, head_at}
use ubt_exex.Exex.Commit.Drain.{
  IsRootOf, write_dirty-DbChanged, compute_root-IsRootOf, current-drained, drained,
}
use ubt_exex.Exex.Revert.{save_last, persist}

module _ (P : Parts) (laws : IsUbt P.ubt) (stored : IsStore P.store)
    (indexed : IsIndex P.index) where
  open P use {ubt, store, index, trie}

  -- What MDBX holds after the overlay was written with a head at `last_block`.
  pub record Persisted (s : UbtExEx P) (root : B256) (s' : UbtExEx P) : Type 0 where
    pub visible_after : IsReady P s → (key : TreeKey) → visible P s' key ≡ visible P s key
    pub dirty_after : s'.dirty_stems ≡ []
    pub root_after : IsRootOf P stored indexed root s'.db
    pub head_after : (store.contents s'.db).head ≡ some (head_at P s.last_block s.last_hash root s)
    pub deltas_after : (store.contents s'.db).deltas ≡ (store.contents s.db).deltas
    pub last_block_after : s'.last_block ≡ s.last_block
    pub last_hash_after : s'.last_hash ≡ s.last_hash
    pub stem_count_after : s'.stem_count ≡ s.stem_count
    pub policy_after : policy P s' ≡ policy P s

  abbrev NoDirty : {E : Type 0} → E → UbtExEx P → Type 0
  NoDirty _ s = s.dirty_stems ≡ []

  save_last-Persisted :
      (s : UbtExEx P) (root : B256) (d1 : store.Db)
      → store.contents d1 ≡ drained P stored indexed s.dirty_stems (store.contents s.db)
      → IsRootOf P stored indexed root d1
      → Ensures
          (λ root' s'. Persisted s root' s')
          NoDirty
          (save_last P root (record s { db = d1; dirty_stems = [] }))
  unfolding save_last IsRootOf
  save_last-Persisted s root d1 c1 r =
      Ensures-bind (on_db P (store.save_head head) s1) _
        (Ensures-weaken _
          (on_db-DbChanged P (store.save_head head) (λ c. record c { head = some head }) s1
            (stored.save_head_writes head d1))
          (λ _ _ h. h) (λ _ _ h. rw h.state refl))
        (λ _ s2 h. rw h.state (record {
          post = record {
            visible_after = λ ready key.
                current-drained P s.db h.db s.dirty_stems key ready
                  (ap (λ c. c.stems) h.contents ∙ ap (λ c. c.stems) c1);
            dirty_after = refl;
            root_after = (
              r.0,
              subst (λ f. IsListing ubt f r.0) (sym (ap (λ c. c.stems) h.contents)) r.1,
              r.2,
            );
            head_after = ap (λ c. c.head) h.contents;
            deltas_after = ap (λ c. c.deltas) h.contents ∙ ap (λ c. c.deltas) c1;
            last_block_after = refl;
            last_hash_after = refl;
            stem_count_after = refl;
            policy_after = refl;
          };
        }))
    where
      s1 : UbtExEx P
      s1 = record s { db = d1; dirty_stems = [] }

      head : UbtHead
      head = head_at P s.last_block s.last_hash root s

  -- `shutdown` and the end of `revert`: a run that returns has written a head at `last_block`
  -- with the root of the stored stems; one that fails has drained the overlay.
  pub persist-Persisted :
      (s : UbtExEx P) → Ensures (λ root s'. Persisted s root s') NoDirty (persist P s)
  unfolding persist flush_dirty
  persist-Persisted s =
      Ensures-bind (write_dirty P s.dirty_stems (record s { dirty_stems = [] })) _
        (Ensures-weaken _
          (write_dirty-DbChanged P stored indexed s.dirty_stems (record s { dirty_stems = [] }))
          (λ _ _ h. h) (λ _ _ h. rw h.state refl))
        (λ _ s1 h1. rw h1.state (
          Ensures-bind (compute_root_from_db P h1.db, record s { db = h1.db; dirty_stems = [] }) _
            (Ensures-weaken _ (Ensures-lift _ _ (compute_root-IsRootOf P stored indexed h1.db))
              (λ _ _ h. h) (λ _ _ p. rw p refl))
            (λ root s2 (r, p2). rw p2 (save_last-Persisted s root h1.db h1.contents r))))
