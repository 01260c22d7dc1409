-- ===== src/Exex/Loop/Ended.antt =====
-- How the loop of `ubt_exex` ends: the events sent, the errors reported, and what a signal leaves.
use ubt_exex.Common.{ℕ, List, [], ◌∷◌, ◌++◌, ◌≡◌, failed, All, some}
use ubt_exex.Tree.{B256, IsUbt}
use ubt_exex.Store.{IsStore}
use ubt_exex.Index.{IsIndex}
use ubt_exex.Exex.{Parts, UbtExEx}
use ubt_exex.Exex.Steps.{IsReady}
use ubt_exex.Exex.Commit.Drain.{IsRootOf}
use ubt_exex.Exex.Lifecycle.{ExExNotification, chain_committed, chain_reorged, chain_reverted}
use ubt_exex.Exex.Loop.{
  Turn, notified, stream_failed, ended, interrupted, terminated, unregistered, of_ubt, of_node, End,
  waiting, returned, reported, Ran,
}

-- The tips of the chains that some turns commit, in order.
unfoldable pub tips : List Turn → List (ℕ × B256)
tips [] = []
tips (notified (chain_committed new) _ ∷ ts) = (new.tip_number, new.tip_hash) ∷ tips ts
tips (notified (chain_reorged old new) _ ∷ ts) = (new.tip_number, new.tip_hash) ∷ tips ts
tips (_ ∷ ts) = tips ts

abbrev pub Registers : Turn → Type 0
Registers (unregistered e) = ⊥
Registers _ = Unit {0}

abbrev pub IsNotified : Turn → Type 0
IsNotified (notified n sending) = Unit {0}
IsNotified _ = ⊥

abbrev pub Commits : ExExNotification → Type 0
Commits (chain_reverted old) = ⊥
Commits _ = Unit {0}

module _ (P : Parts) (laws : IsUbt P.ubt) (stored : IsStore P.store)
    (indexed : IsIndex P.index) where
  open P use {store}

  -- MDBX has a head at the last block with the root of its stems, and the overlay is empty.
  pub record Saved (s : UbtExEx P) : Type 0 where
    pub root : B256
    pub root_is : IsRootOf P stored indexed root s.db
    pub head_is :
        (store.contents s.db).head
        ≡ some (record {
          block_number = s.last_block;
          block_hash = s.last_hash;
          root = root;
          stem_count = s.stem_count;
        })
    pub overlay : s.dirty_stems ≡ []

  -- The turn at which the loop has ended, if it has.
  abbrev pub EndsAt : End → List Turn → UbtExEx P → Type 0
  EndsAt waiting [] s = Unit {0}
  EndsAt returned (ended ∷ ts) s = Unit {0}
  EndsAt returned (interrupted ∷ ts) s = Saved s
  EndsAt returned (terminated ∷ ts) s = Saved s
  EndsAt (reported (of_node e)) (stream_failed x ∷ ts) s = x ≡ e
  EndsAt (reported (of_node e)) (notified n x ∷ ts) s = (x ≡ failed e) × Commits n
  EndsAt (reported (of_ubt e)) (notified n x ∷ ts) s = Unit {0}
  EndsAt (reported (of_ubt e)) (interrupted ∷ ts) s = Unit {0}
  EndsAt (reported (of_ubt e)) (terminated ∷ ts) s = Unit {0}
  EndsAt _ _ s = ⊥

  -- The turns before the end, each a notification that was handled and whose event was sent.
  pub record Ended (turns : List Turn) (r : Ran P) : Type 0 where
    pub before : List Turn
    pub after : List Turn
    pub split : turns ≡ before ++ after
    pub handled : All IsNotified before
    pub sent : r.sent ≡ tips before
    pub ready : IsReady P r.state
    pub ends : EndsAt r.end after r.state
