-- ===== src/Exex/Revert/Blocks.antt =====
-- The loop of `revert` over the block numbers: which values it writes and which deltas it deletes.
use ubt_exex.Common.{
  ℕ, Bool, true, false, List, [], ◌∷◌, refl, ap, reverse, ltb, if◌then◌else◌, unwrap_or, ok, nat_eq,
  list_eq,
}
use mathlib.Core.Path.{subst}
use ubt_exex.Common.Exec.{Ensures, Ensures-bind, Ensures-weaken, Ensures-lift}
use ubt_exex.Tree.{Delta, B256, IsUbt}
use ubt_exex.Store.{IsStore, remove_at, word}
use ubt_exex.Exex.{Parts, PendingEntry, UbtExEx, apply_deltas_reverse, apply_each, on_db}
use ubt_exex.Exex.Overlay.{write_deltas, apply_each-Writes}
use ubt_exex.Exex.Steps.{on_dirty_step}
use ubt_exex.Exex.Effect.{
  Values, Stored, Effect, KeepsReady, Effect-refl, Effect-trans, on_db-Effect,
}
use ubt_exex.Exex.Revert.{revert_block, revert_blocks}

-- The old values of a block, last to first.
abbrev pub undo_block : List Delta → Values → Values
undo_block ds f = write_deltas (reverse ds) f

-- The deltas of a block that is not persisted are deleted.
abbrev pub forget : ℕ → ℕ → Stored → Stored
forget persisted n d = if ltb persisted n then remove_at (word n) d else d

abbrev pub deltas_at : Stored → ℕ → List Delta
deltas_at d n = unwrap_or (d (word n)) []

-- The values after some blocks are undone in order, from the deltas that are stored.
unfoldable pub undo_blocks : List ℕ → ℕ → Stored → Values → Values
undo_blocks [] persisted d f = f
undo_blocks (n ∷ ns) persisted d f =
    undo_blocks ns persisted (forget persisted n d) (undo_block (deltas_at d n) f)

unfoldable pub forget_all : List ℕ → ℕ → Stored → Stored
forget_all [] persisted d = d
forget_all (n ∷ ns) persisted d = forget_all ns persisted (forget persisted n d)

module _ (P : Parts) (laws : IsUbt P.ubt) (stored : IsStore P.store) where
  open P use {ubt, store}

  -- `apply_deltas_reverse` writes the old values, last to first, and changes nothing else.
  pub apply_deltas_reverse-Effect :
      (ds : List Delta) (s : UbtExEx P)
      → Ensures
          (λ _ s'. Effect P (undo_block ds) (λ d. d) s s')
          (KeepsReady P s)
          (apply_deltas_reverse P ds s)
  unfolding apply_deltas_reverse
  apply_deltas_reverse-Effect ds s =
      Ensures-weaken _
        (on_dirty_step P (λ db. apply_each P db (reverse ds)) s
          (apply_each-Writes P laws stored s.db (reverse ds) s.dirty_stems))
        (λ _ s' (m, p, h). rw p (record {
          visible_after = h.values;
          deltas_after = refl;
          stems_after = refl;
          head_after = refl;
          ready = h.distinct;
          same_policy = refl;
        }))
        (λ _ s' (m, p, k) d. rw p (k d))

  delete_step :
      (n : ℕ) (s : UbtExEx P) (b : Bool)
      → Ensures
          (λ _ s'. Effect P (λ f. f) (λ d. if b then remove_at (word n) d else d) s s')
          (KeepsReady P s)
          (if b then on_db P (store.delete_block_deltas n) s else (ok tt, s))
  delete_step n s true =
      on_db-Effect P (store.delete_block_deltas n)
        (λ c. record c { deltas = remove_at (word n) c.deltas }) (remove_at (word n)) s
        (stored.delete_deltas_writes n) (λ _. refl) (λ _. refl) (λ _. refl)
  delete_step n s false = record { post = Effect-refl P s }

  revert_block-Effect :
      (n : ℕ) (s : UbtExEx P)
      → Ensures
          (λ _ s'.
            Effect P
              (undo_block (deltas_at (store.contents s.db).deltas n))
              (forget s.last_persisted_block n)
              s
              s')
          (KeepsReady P s)
          (revert_block P n s)
  unfolding revert_block
  revert_block-Effect n s =
      Ensures-bind (store.load_block_deltas n s.db, s) _
        (Ensures-weaken _
          (Ensures-lift (store.load_block_deltas n s.db) s (stored.load_deltas_reads n s.db))
          (λ _ _ h. h) (λ _ _ p. rw p (λ d. d)))
        (λ ds t (p, q).
          rw (q, p)
            (Ensures-bind (apply_deltas_reverse P (deltas_at (store.contents s.db).deltas n) s) _
              (apply_deltas_reverse-Effect (deltas_at (store.contents s.db).deltas n) s)
              (λ _ u h.
                Ensures-weaken _ (delete_step n u (ltb u.last_persisted_block n))
                  (λ _ v k.
                    subst
                      (λ b.
                        Effect P (undo_block (deltas_at (store.contents s.db).deltas n))
                          (forget b n) s v)
                      (ap (λ q. q.1) h.same_policy)
                      (Effect-trans P (undo_block (deltas_at (store.contents s.db).deltas n))
                        (λ f. f) (λ d. d) (forget u.last_persisted_block n) s u v h k))
                  (λ _ v k r. k (h.ready r)))))

  pub revert_blocks-Effect :
      (ns : List ℕ) (s : UbtExEx P)
      → Ensures
          (λ _ s'.
            Effect P
              (undo_blocks ns s.last_persisted_block (store.contents s.db).deltas)
              (forget_all ns s.last_persisted_block)
              s
              s')
          (KeepsReady P s)
          (revert_blocks P ns s)
  unfolding revert_blocks undo_blocks forget_all
  revert_blocks-Effect [] s = record { post = Effect-refl P s }
  revert_blocks-Effect (n ∷ ns) s =
      Ensures-bind (revert_block P n s) _ (revert_block-Effect n s) (λ _ t h.
        Ensures-weaken _ (revert_blocks-Effect ns t) (λ _ u k. join n ns s t u h k)
          (λ _ u k r. k (h.ready r)))
    where
      join :
          (n : ℕ) (ns : List ℕ) (s t u : UbtExEx P)
          → Effect P
              (undo_block (deltas_at (store.contents s.db).deltas n))
              (forget s.last_persisted_block n)
              s
              t
          → Effect P
              (undo_blocks ns t.last_persisted_block (store.contents t.db).deltas)
              (forget_all ns t.last_persisted_block)
              t
              u
          → Effect P
              (undo_blocks (n ∷ ns) s.last_persisted_block (store.contents s.db).deltas)
              (forget_all (n ∷ ns) s.last_persisted_block)
              s
              u
      join n ns s t u h k =
          Effect-trans P (undo_block (deltas_at (store.contents s.db).deltas n))
            (undo_blocks ns s.last_persisted_block
              (forget s.last_persisted_block n (store.contents s.db).deltas))
            (forget s.last_persisted_block n) (forget_all ns s.last_persisted_block) s t u h
            (subst
              (λ m.
                Effect P
                  (undo_blocks ns m (forget s.last_persisted_block n (store.contents s.db).deltas))
                  (forget_all ns m) t u)
              (ap (λ (q : List PendingEntry × ℕ × B256 × B256 × ℕ × ℕ). q.1) h.same_policy)
              (subst
                (λ d.
                  Effect P (undo_blocks ns t.last_persisted_block d)
                    (forget_all ns t.last_persisted_block) t u)
                h.deltas_after k))
