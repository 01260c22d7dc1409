-- ===== src/Exex/Commit/Trie.antt =====
-- The NOMT session of `commit`, and what of the state it concerns.
use ubt_exex.Common.{ℕ, List, refl, nat_eq, Foreign, done, failed, map_err}
use ubt_exex.Common.Bytes.{Bytes}
use ubt_exex.Common.Exec.{Ensures, lift, ◌>>=◌}
use ubt_exex.Exex.{Parts, PendingEntry, UbtExEx}
use ubt_exex.Exex.Effect.{Quiet, KeepsReady}
use ubt_exex.Exex.Commit.{commit_nomt, commit_finished, warm_up_all, nomt_updates}

module _ (P : Parts) where
  open P use {ubt, store, index, trie}

  nomt_Quiet : (s : UbtExEx P) (x : trie.State) → Quiet P s (record s { nomt = x })
  nomt_Quiet s x = record {
    visible_after = λ key. refl;
    deltas_after = refl;
    stems_after = refl;
    head_after = refl;
    ready = λ d. d;
    same_policy = refl;
  }

  commit_finished-Quiet :
      (finished : trie.Finished) (s : UbtExEx P)
      → Ensures (λ _ s'. Quiet P s s') (KeepsReady P s) (commit_finished P finished s)
  unfolding commit_finished
  commit_finished-Quiet finished s = go (trie.commit finished s.nomt)
    where
      go :
          (r : Foreign (Unit {0}) × trie.State)
          → Ensures (λ _ s'. Quiet P s s') (KeepsReady P s) (map_err r.0, record s { nomt = r.1 })
      go (done u, x) = record { post = nomt_Quiet s x }
      go (failed e, x) = record { post = λ d. d }

  pub commit_nomt-Quiet :
      (entries : List PendingEntry) (n : ℕ) (s : UbtExEx P)
      → Ensures (λ _ s'. Quiet P s s') (KeepsReady P s) (commit_nomt P entries n s)
  unfolding commit_nomt
  commit_nomt-Quiet entries n s =
      go (trie.finish updates (warm_up_all P updates (trie.begin_session s.nomt)))
    where
      updates : List (Bytes × Bytes)
      updates = nomt_updates entries n

      go :
          (r : Foreign trie.Finished)
          → Ensures
              (λ _ s'. Quiet P s s')
              (KeepsReady P s)
              ((lift (map_err r) >>= commit_finished P) s)
      go (done finished) = commit_finished-Quiet finished s
      go (failed e) = record { post = λ d. d }
