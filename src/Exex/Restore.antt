-- ===== src/Exex/Restore.antt =====
-- `commit` of a block followed by `revert` of it, in src/ubt_exex.rs.
use ubt_exex.Common.{
  ℕ, ◌-◌, ◌<◌, true, List, [], ◌∷◌, none, ◌≡◌, refl, ap, ◌∙◌, ◌⊎◌, inl, inr, arith, ltb, nat_eq,
  fun_ext, reverse,
}
use ubt_exex.Common.Order.{sort_by, insert_sorted}
use ubt_exex.Common.Exec.{Ensures, Ensures-bind, Ensures-weaken, ◌>>=◌}
use ubt_exex.Tree.{TreeKey, B256, Delta, IsUbt}
use ubt_exex.Store.{IsStore, keep_from, word}
use ubt_exex.Index.{IsIndex}
use ubt_exex.Exex.{Parts, UbtExEx}
use ubt_exex.Exex.Overlay.{write_deltas}
use ubt_exex.Exex.Steps.{visible, IsReady, StaysReady}
use ubt_exex.Exex.Effect.{Stored, Values}
use ubt_exex.Exex.Commit.{commit}
use ubt_exex.Exex.Commit.Entries.{deltas_of}
use ubt_exex.Exex.Commit.Record.{saved}
use ubt_exex.Exex.Commit.Correct.{with_deltas, Committed, commit-Committed}
use ubt_exex.Exex.Undo.{undo_entries}
use ubt_exex.Exex.Revert.{revert, block_numbers}
use ubt_exex.Exex.Revert.Blocks.{undo_blocks, deltas_at}
use ubt_exex.Exex.Revert.Correct.{Reverted, revert-Reverted}

-- A block that had no deltas has just the recorded ones.
saved_at :
    (n : ℕ) (ds : List Delta) (d : Stored) → d (word n) ≡ none → deltas_at (saved n ds d) n ≡ ds
saved_at n [] d h = rw h
saved_at n (x ∷ ds) d h = ground arith

-- A `u64`.
abbrev pub IsWord : ℕ → Type 0
IsWord n = n < 18446744073709551616

word_of : (n : ℕ) → IsWord n → word n ≡ n
word_of n b = omega arith

-- Pruning at the block itself keeps them.
kept_at :
    (n r : ℕ) (d d' : Stored)
    → (d' ≡ d) ⊎ ((ltb r n ≡ true) × (d' ≡ keep_from (n - r) d))
    → IsWord n
    → deltas_at d' n ≡ deltas_at d n
kept_at n r d d' (inl p) b = ap (λ f. deltas_at f n) p
kept_at n r d d' (inr (_, p)) b = ap (λ f. deltas_at f n) p ∙ (ground (arith, word_of n b))

undo_one :
    (n : ℕ) (parent : B256) (persisted : ℕ) (d : Stored) (f : Values)
    → undo_blocks (block_numbers ((n, parent) ∷ [])) persisted d f
      ≡ write_deltas (reverse (deltas_at d n)) f
unfolding undo_blocks sort_by insert_sorted
undo_one n parent persisted d f = refl

module _ (P : Parts) (laws : IsUbt P.ubt) (stored : IsStore P.store)
    (indexed : IsIndex P.index) where
  open P use {store}

  pub restored :
      (n : ℕ) (hash parent : B256) (s t u : UbtExEx P) (root : B256)
      → IsWord n
      → (store.contents s.db).deltas (word n) ≡ none
      → Committed P n hash s root t
      → Reverted P laws stored indexed ((n, parent) ∷ []) t u
      → (key : TreeKey) → visible P u key ≡ visible P s key
  restored n hash parent s t u root bound new h k key =
      k.visible_after key
      ∙ ap (λ g. g key)
          (undo_one n parent t.last_persisted_block (store.contents t.db).deltas (visible P t))
      ∙ ap (λ ds. write_deltas (reverse ds) (visible P t) key)
          (kept_at n s.delta_retention (with_deltas P n s) (store.contents t.db).deltas h.deltas
              bound
            ∙ saved_at n (deltas_of s.pending_entries (visible P s)) (store.contents s.db).deltas
                new)
      ∙ ap (λ f. write_deltas (reverse (deltas_of s.pending_entries (visible P s))) f key)
          (fun_ext h.visible_after)
      ∙ ap (λ g. g key) (undo_entries s.pending_entries (visible P s))

  -- From a ready state in which MDBX holds no deltas for block `n`, a `u64`: if `commit` of the block
  -- returns and `revert` of a chain of that block alone returns, every key has the value that it
  -- had before, whether the block was flushed in between or not. Neither panics, and where one of
  -- them fails, the overlay still holds each stem once.
  pub commit-revert :
      (n : ℕ) (hash parent : B256) (s : UbtExEx P)
      → IsReady P s
      → IsWord n
      → (store.contents s.db).deltas (word n) ≡ none
      → Ensures
          (λ _ s'. (key : TreeKey) → visible P s' key ≡ visible P s key)
          (StaysReady P)
          ((commit P n hash >>= λ _. revert P ((n, parent) ∷ [])) s)
  commit-revert n hash parent s ready bound new =
      Ensures-bind (commit P n hash s) _ (commit-Committed P laws stored indexed n hash s ready)
        (λ root t h.
          Ensures-weaken _ (revert-Reverted P laws stored indexed ((n, parent) ∷ []) t h.ready)
            (λ _ u k. restored n hash parent s t u root bound new h k) (λ _ _ d. d))
