-- ===== src/Exex/Reorg.antt =====
-- A notification that commits a block, followed by one that replaces it.
use ubt_exex.Common.{
  ℕ, List, [], ◌∷◌, ◌++◌, ◌≡◌, ap, ◌∙◌, none, inl, inr, nat_eq, list_eq, ◌⊎◌, fun_ext,
}
use ubt_exex.Common.Exec.{Ensures, Ensures-bind, Ensures-weaken, ◌>>=◌}
use ubt_exex.Tree.{TreeKey, B256, IsUbt}
use ubt_exex.Store.{IsStore, word}
use ubt_exex.Index.{IsIndex}
use ubt_exex.Exex.{Parts, PendingEntry, UbtExEx}
use ubt_exex.Exex.Steps.{visible, IsReady, StaysReady}
use ubt_exex.Exex.Commit.{commit}
use ubt_exex.Exex.Commit.Entries.{write_entries}
use ubt_exex.Exex.Commit.Correct.{Committed, commit-Committed, FlushedAt, HeldBack}
use ubt_exex.Exex.Restore.{restored, IsWord}
use ubt_exex.Exex.Revert.{Blocks, revert}
use ubt_exex.Exex.Revert.Correct.{Reverted, revert-Reverted, BelowPersisted, AbovePersisted}
use ubt_exex.Exex.Lifecycle.{
  Chain, chain_committed, chain_reorged, handle, process_new, process_chain, bundle_entries,
}

module _ (P : Parts) (laws : IsUbt P.ubt) (stored : IsStore P.store)
    (indexed : IsIndex P.index) where
  open P use {store}

  taken :
      (n : ℕ) (hash root : B256) (s t : UbtExEx P)
      → FlushedAt P n hash root s t ⊎ HeldBack P n root s t
      → t.pending_entries ≡ []
  taken n hash root s t (inl h) =
      ap (λ (q : List PendingEntry × ℕ × B256 × B256 × ℕ × ℕ). q.0) h.persisted
  taken n hash root s t (inr h) =
      ap (λ (q : List PendingEntry × ℕ × B256 × B256 × ℕ × ℕ). q.0) h.persisted

  kept_pending :
      (blocks : Blocks) (t u : UbtExEx P)
      → BelowPersisted P laws stored indexed blocks t u
        ⊎ AbovePersisted P laws stored indexed blocks t u
      → u.pending_entries ≡ t.pending_entries
  kept_pending blocks t u (inl h) =
      ap (λ (q : List PendingEntry × ℕ × B256 × B256 × ℕ × ℕ). q.0) h.persisted
  kept_pending blocks t u (inr h) =
      ap (λ (q : List PendingEntry × ℕ × B256 × B256 × ℕ × ℕ). q.0) h.persisted

  abbrev with_pending : UbtExEx P → Chain → UbtExEx P
  with_pending s c = record s { pending_entries = s.pending_entries ++ bundle_entries P c.bundle }

  -- `process_chain` and `commit` of a chain, as `commit` from the state with its entries.
  process_new-Committed :
      (c : Chain) (s : UbtExEx P)
      → IsReady P s
      → Ensures
          (λ _ t. (root : B256) × Committed P c.tip_number c.tip_hash (with_pending s c) root t)
          (StaysReady P)
          (process_new P c s)
  unfolding process_new process_chain
  process_new-Committed c s ready =
      Ensures-bind (commit P c.tip_number c.tip_hash (with_pending s c)) _
        (commit-Committed P laws stored indexed c.tip_number c.tip_hash (with_pending s c) ready)
        (λ root t h. record { post = (root, h) })

  replaced :
      (c new : Chain) (parent root root' : B256) (s t u v : UbtExEx P)
      → IsWord c.tip_number
      → (store.contents s.db).deltas (word c.tip_number) ≡ none
      → Committed P c.tip_number c.tip_hash (with_pending s c) root t
      → Reverted P laws stored indexed ((c.tip_number, parent) ∷ []) t u
      → Committed P new.tip_number new.tip_hash (with_pending u new) root' v
      → (key : TreeKey)
      → visible P v key ≡ write_entries (bundle_entries P new.bundle) (visible P s) key
  replaced c new parent root root' s t u v bound fresh h k l key =
      l.visible_after key
      ∙ ap (λ es. write_entries (es ++ bundle_entries P new.bundle) (visible P u) key)
          (kept_pending ((c.tip_number, parent) ∷ []) t u k.reach
            ∙ taken c.tip_number c.tip_hash root (with_pending s c) t h.decision)
      ∙ ap (λ f. write_entries (bundle_entries P new.bundle) f key)
          (fun_ext (
            restored P laws stored indexed c.tip_number c.tip_hash parent (with_pending s c) t u
              root bound fresh h k))

  -- From a ready state in which MDBX holds no deltas for the tip of a chain, a `u64`: if the chain is
  -- committed and then reorganised away, as a chain of its tip alone, for another one, and both
  -- notifications return, a client sees the new chain's entries, in their order, on top of what was
  -- visible before the first notification. Neither panics, and if one fails, the overlay still holds
  -- each stem once.
  pub committed-reorged :
      (c old new : Chain) (parent : B256) (s : UbtExEx P)
      → IsReady P s
      → IsWord c.tip_number
      → (store.contents s.db).deltas (word c.tip_number) ≡ none
      → old.blocks ≡ (c.tip_number, parent) ∷ []
      → Ensures
          (λ _ v.
            (key : TreeKey)
            → visible P v key ≡ write_entries (bundle_entries P new.bundle) (visible P s) key)
          (StaysReady P)
          ((handle P (chain_committed c) >>= λ _. handle P (chain_reorged old new)) s)
  unfolding handle
  committed-reorged c old new parent s ready bound fresh same = rw same (
      Ensures-bind (process_new P c s) _ (process_new-Committed c s ready) (λ _ t (root, h).
        Ensures-bind (revert P ((c.tip_number, parent) ∷ []) t) _
          (revert-Reverted P laws stored indexed ((c.tip_number, parent) ∷ []) t h.ready)
          (λ _ u k.
            Ensures-weaken _ (process_new-Committed new u k.ready)
              (λ _ v (root', l). replaced c new parent root root' s t u v bound fresh h k l)
              (λ _ _ r. r))))
