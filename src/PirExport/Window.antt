-- ===== src/PirExport/Window.antt =====
-- The range checks of `get_state_delta`, the pruning of `commit`, and the set of touched keys.
use ubt_exex.Common.{
  ℕ, ◌-◌, ◌≤◌, Bool, true, false, List, [], ◌∷◌, ◌≡◌, ap, ◌∙◌, ◌⊎◌, inl, inr, ◌↔◌, arith, ltb,
  nat_eq, list_eq, ◌==◌, ◌||◌, ok, Bool-cases,
}
use ubt_exex.Common.Exec.{Ensures-ok}
use ubt_exex.Tree.{Stem, TreeKey, Delta, tree_key, tree_key_eq, B256}
use ubt_exex.Store.{IsStore, keep_from}
use ubt_exex.Index.{IsIndex}
use ubt_exex.Exex.{Parts, UbtExEx}
use ubt_exex.Exex.Effect.{Stored}
use ubt_exex.Exex.Commit.{flush}
use ubt_exex.Exex.Commit.Flush.{Flushed, flush-Flushed}
use ubt_exex.PirExport.Delta.{check_window, has_key, touch}

window_of_ok :
    (from to head retention : ℕ)
    → check_window from to head retention ≡ ok tt
    → (from ≤ to) × ((to ≤ head) × (head - retention ≤ from))
unfolding check_window
window_of_ok from to head retention h = ground arith

ok_of_window :
    (from to head retention : ℕ)
    → (from ≤ to) × ((to ≤ head) × (head - retention ≤ from))
    → check_window from to head retention ≡ ok tt
unfolding check_window
ok_of_window from to head retention h = ground arith

-- The checks of `get_state_delta` pass exactly for a range of blocks in order that ends at the
-- persisted head or before, and begins at most `delta_retention` blocks before the head.
pub check_window_lem :
    (from to head retention : ℕ)
    → (check_window from to head retention ≡ ok tt)
      ↔ ((from ≤ to) × ((to ≤ head) × (head - retention ≤ from)))
check_window_lem from to head retention =
    (window_of_ok from to head retention, ok_of_window from to head retention)

window_kept :
    (n r from to m : ℕ) (d d' : Stored)
    → (d' ≡ d) ⊎ ((ltb r n ≡ true) × (d' ≡ keep_from (n - r) d))
    → check_window from to n r ≡ ok tt
    → from ≤ m
    → d' m ≡ d m
window_kept n r from to m d d' (inl p) h k = ap (λ f. f m) p
window_kept n r from to m d d' (inr (_, p)) h k =
    ap (λ f. f m) p ∙ (ground (arith, window_of_ok from to n r h))

module _ (P : Parts) (stored : IsStore P.store) (indexed : IsIndex P.index) where
  open P use {store}

  -- After a flush at block `n` that returned, every block of a range that `get_state_delta` accepts
  -- at head `n`, with the same retention, has the deltas that it had before the flush: the pruning
  -- in the flush removes none that an accepted range reads.
  pub flush-window :
      (n : ℕ) (hash root : B256) (s s' : UbtExEx P) (from to m : ℕ)
      → flush P n hash s ≡ (ok root, s')
      → check_window from to n s.delta_retention ≡ ok tt
      → from ≤ m
      → (store.contents s'.db).deltas m ≡ (store.contents s.db).deltas m
  flush-window n hash root s s' from to m returned h le =
      let k : Flushed P stored indexed n hash s root s' =
        Ensures-ok (flush P n hash s) (flush-Flushed P stored indexed n hash s) returned in
      window_kept n s.delta_retention from to m (store.contents s.db).deltas
        (store.contents s'.db).deltas k.deltas_after h le

-- Whether a delta names a key.
unfoldable pub names : TreeKey → List Delta → Bool
names k [] = false
names k ((stem, subindex, _) ∷ ds) = (tree_key stem subindex == k) || names k ds

-- The set of touched keys has a key exactly if it had it before or a delta names it.
pub has_key-touch :
    (k : TreeKey) (ds : List Delta) (keys : List TreeKey)
    → has_key k (touch ds keys) ≡ (has_key k keys || names k ds)
unfolding has_key touch names
has_key-touch k [] keys = ground arith
has_key-touch k ((stem, i, v) ∷ ds) keys = elim (Bool-cases (has_key (tree_key stem i) keys)) [
  | inl old ↦ rw old (
      has_key-touch k ds keys
      ∙ (ground (arith, tree_key_eq.beq_iff (tree_key stem i) k, had stem i)))
  | inr new ↦ rw new (ground (arith, has_key-touch k ds (tree_key stem i ∷ keys)))
]
  where
    had :
        (stem : Stem) (i : ℕ)
        → has_key (tree_key stem i) keys ≡ true
        → tree_key stem i ≡ k
        → has_key k keys ≡ true
    had stem i h p = rw p at h
