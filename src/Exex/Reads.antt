-- ===== src/Exex/Reads.antt =====
-- What a client reads: the stem that `get_stem` returns, and the values after a notification.
use ubt_exex.Common.{ℕ, ◌∙◌, [], ◌++◌, ◌≡◌, refl, ap, inl, inr, Option-cases, list_eq, nat_eq}
use ubt_exex.Common.Assoc.{lookup}
use ubt_exex.Common.Exec.{Answers, Answers-weaken, Ensures, Ensures-bind, Ensures-weaken}
use ubt_exex.Tree.{Stem, B256, TreeKey, tree_key, IsUbt}
use ubt_exex.Store.{IsStore}
use ubt_exex.Index.{IsIndex}
use ubt_exex.Exex.{Parts, UbtExEx, get_stem}
use ubt_exex.Exex.Overlay.{current, value_in, or_else}
use ubt_exex.Exex.Steps.{visible, IsReady, StaysReady}
use ubt_exex.Exex.Commit.{commit}
use ubt_exex.Exex.Commit.Entries.{write_entries}
use ubt_exex.Exex.Commit.Correct.{commit-Committed}
use ubt_exex.Exex.Named.{Named}
use ubt_exex.Exex.Named.Written.{bundle-agree, bundle-others}
use ubt_exex.Exex.Lifecycle.{
  Chain, chain_committed, handle, process_new, process_chain, bundle_entries,
}

module _ (P : Parts) (stored : IsStore P.store) where
  open P use {ubt, store}

  -- `get_stem` does not panic, and a node that it returns has the value that a client sees at each
  -- subindex; where it returns none, that value is zero.
  pub get_stem_lem :
      (stem : Stem) (i : ℕ) (s : UbtExEx P)
      → Answers (λ o. value_in P o i ≡ visible P s (tree_key stem i)) (get_stem P stem s)
  unfolding get_stem current
  get_stem_lem stem i s = elim (Option-cases (lookup stem s.dirty_stems)) [
    | inl out ↦
        rw (out, get_stem, current, or_else)
          (Answers-weaken _ (stored.load_stem_reads stem s.db) (λ o p. ap (λ x. value_in P x i) p))
    | inr (n, found) ↦ rw (found, get_stem, current, or_else) (record { answer = refl })
  ]

module _ (P : Parts) (laws : IsUbt P.ubt) (stored : IsStore P.store)
    (indexed : IsIndex P.index) where
  open P use {ubt}

  -- From a ready state, handling a committed chain does not panic. If it returns, the entries of its
  -- bundle are visible after those that were pending, in their order; if it fails, the overlay still
  -- holds each stem once.
  handle-committed :
      (c : Chain) (s : UbtExEx P)
      → IsReady P s
      → Ensures
          (λ _ s'.
            (key : TreeKey)
            → visible P s' key
              ≡ write_entries (s.pending_entries ++ bundle_entries P c.bundle) (visible P s) key)
          (StaysReady P)
          (handle P (chain_committed c) s)
  unfolding handle process_new process_chain
  handle-committed c s ready =
      Ensures-bind (commit P c.tip_number c.tip_hash _) _
        (commit-Committed P laws stored indexed c.tip_number c.tip_hash
          (record s { pending_entries = s.pending_entries ++ bundle_entries P c.bundle }) ready)
        (λ _ t h. record { post = h.visible_after })

  -- From a ready state with no pending entries, and where no two data of the bundle ask for different
  -- values under one key, as `table` has them all: handling a committed chain does not panic. If it
  -- returns, a key of the bundle has the value asked for (`basic`, `hash`, `chunk` and `slot` of
  -- `Named`), and a key that no datum of the bundle has shows the value that it showed before. If
  -- it fails, the overlay still holds each stem once.
  pub handle-Named :
      (c : Chain) (s : UbtExEx P) (table : TreeKey → B256) (key : TreeKey) (value : B256)
      (other : TreeKey)
      → IsReady P s
      → s.pending_entries ≡ []
      → ((k : TreeKey) (v : B256) → Named ubt c.bundle k v → table k ≡ v)
      → Named ubt c.bundle key value
      → ((v : B256) → Named ubt c.bundle other v → ⊥)
      → Ensures
          (λ _ s'. (visible P s' key ≡ value) × (visible P s' other ≡ visible P s other))
          (StaysReady P)
          (handle P (chain_committed c) s)
  handle-Named c s table key value other ready none_pending agrees named absent =
      Ensures-weaken _ (handle-committed c s ready)
        (λ _ s' h. (
          h key
              ∙ ap (λ l. write_entries (l ++ bundle_entries P c.bundle) (visible P s) key)
                  none_pending
              ∙ bundle-agree P c.bundle table (visible P s) key value agrees named,
          h other
              ∙ ap (λ l. write_entries (l ++ bundle_entries P c.bundle) (visible P s) other)
                  none_pending
              ∙ bundle-others P c.bundle (visible P s) other absent,
        ))
        (λ _ _ h. h)
