-- ===== src/Exex/Loop/Stays.antt =====
-- Each method that the loop of `ubt_exex` calls on a notification keeps the overlay as it must be.
use ubt_exex.Common.Exec.{Ensures, Ensures-bind, Ensures-weaken}
use ubt_exex.Tree.{IsUbt}
use ubt_exex.Store.{IsStore}
use ubt_exex.Index.{IsIndex}
use ubt_exex.Exex.{Parts, UbtExEx, Method}
use ubt_exex.Exex.Steps.{IsReady, StaysReady}
use ubt_exex.Exex.Commit.{commit}
use ubt_exex.Exex.Commit.Correct.{commit-Committed}
use ubt_exex.Exex.Revert.{Blocks, revert}
use ubt_exex.Exex.Revert.Correct.{revert-Reverted}
use ubt_exex.Exex.Lifecycle.{
  ExExNotification, chain_committed, chain_reorged, chain_reverted, Chain, process_chain,
  process_new, handle,
}

module _ (P : Parts) (laws : IsUbt P.ubt) (stored : IsStore P.store)
    (indexed : IsIndex P.index) where
  open P use {store}

  abbrev pub Stays : {A : Type 0} → Method P A → Type 0
  Stays m = (s : UbtExEx P) → IsReady P s → Ensures (λ _ s'. IsReady P s') (StaysReady P) (m s)

  revert-Stays : (blocks : Blocks) → Stays (revert P blocks)
  revert-Stays blocks s ready =
      Ensures-weaken _ (revert-Reverted P laws stored indexed blocks s ready) (λ _ _ h. h.ready)
        (λ _ _ h. h)

  process_new-Stays : (c : Chain) → Stays (process_new P c)
  unfolding process_new process_chain
  process_new-Stays c s ready =
      Ensures-bind (commit P c.tip_number c.tip_hash _) _
        (Ensures-weaken _ (commit-Committed P laws stored indexed c.tip_number c.tip_hash _ ready)
          (λ _ _ h. h.ready) (λ _ _ h. h))
        (λ _ _ h. record { post = h })

  pub handle-Stays : (n : ExExNotification) → Stays (handle P n)
  unfolding handle
  handle-Stays (chain_committed c) s ready = process_new-Stays c s ready
  handle-Stays (chain_reverted c) s ready = revert-Stays c.blocks s ready
  handle-Stays (chain_reorged old c) s ready =
      Ensures-bind (revert P old.blocks s) _ (revert-Stays old.blocks s ready)
        (λ _ t h. process_new-Stays c t h)
