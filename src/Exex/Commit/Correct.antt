-- ===== src/Exex/Commit/Correct.antt =====
-- `commit` as a whole: what a client sees afterwards, which deltas are stored, and when the state
-- is flushed to MDBX.
use ubt_exex.Common.{
  ℕ, ◌-◌, true, false, List, [], some, ◌≡◌, ap, ◌∙◌, sym, ◌⊎◌, inl, inr, nat_eq, ltb, leb, ◌||◌,
  fun_ext, Bool-cases,
}
use mathlib.Core.Path.{subst}
use ubt_exex.Common.Exec.{Ensures, Ensures-bind, Ensures-weaken}
use ubt_exex.Tree.{TreeKey, B256, IsUbt}
use ubt_exex.Store.{IsStore, IsListing, keep_from}
use ubt_exex.Index.{IsIndex}
use ubt_exex.Index.Codec.{pack_head}
use ubt_exex.Exex.{Parts, PendingEntry, UbtExEx}
use ubt_exex.Exex.Steps.{visible, IsReady}
use ubt_exex.Exex.Effect.{Stored, Effect, Quiet, Effect-trans, policy}
use ubt_exex.Exex.Commit.{commit, commit_nomt, record_entries, should_flush, flush_or_not}
use ubt_exex.Exex.Commit.Entries.{write_entries, deltas_of}
use ubt_exex.Exex.Commit.Record.{saved, record_entries-Effect}
use ubt_exex.Exex.Commit.Flush.{Flushed, flush-Flushed}
use ubt_exex.Exex.Commit.Drain.{IsRootOf}
use ubt_exex.Exex.Commit.Trie.{commit_nomt-Quiet}

module _ (P : Parts) where
  open P use {ubt, store, index}

  -- The flush decision of `commit`, and what each side of it leaves in MDBX and in the key index.
  pub record FlushedAt (n : ℕ) (hash root : B256) (s s' : UbtExEx P) : Type 0 where
    pub due : should_flush P n s ≡ true
    pub root_of_stems :
        (es : List (TreeKey × B256)) × IsListing ubt (store.contents s'.db).stems es
        × (root ≡ ubt.build_root_hash es)
    pub dirty : s'.dirty_stems ≡ []
    pub stem_count : ℕ
    pub head :
        (store.contents s'.db).head
        ≡ some
            (record { block_number = n; block_hash = hash; root = root; stem_count = stem_count })
    pub index_head : index.head_of s'.key_index ≡ some (pack_head n hash root stem_count)
    pub persisted : policy P s' ≡ ([], n, hash, root, s.flush_interval, s.delta_retention)

  pub record HeldBack (n : ℕ) (root : B256) (s s' : UbtExEx P) : Type 0 where
    pub not_due : should_flush P n s ≡ false
    pub root_before : root ≡ s.last_root
    pub stems : (store.contents s'.db).stems ≡ (store.contents s.db).stems
    pub head : (store.contents s'.db).head ≡ (store.contents s.db).head
    pub persisted : policy P s' ≡ (
      [], s.last_persisted_block, s.last_persisted_hash, s.last_root, s.flush_interval,
      s.delta_retention,
    )

  -- The deltas with those of the block, where it has any.
  abbrev pub with_deltas : ℕ → UbtExEx P → Stored
  with_deltas n s = saved n (deltas_of s.pending_entries (visible P s)) (store.contents s.db).deltas

  pub record Committed (n : ℕ) (hash : B256) (s : UbtExEx P) (root : B256) (s' : UbtExEx P)
      : Type 0 where
    pub visible_after :
        (key : TreeKey) → visible P s' key ≡ write_entries s.pending_entries (visible P s) key
    pub ready : IsReady P s'
    pub deltas :
        ((store.contents s'.db).deltas ≡ with_deltas n s)
        ⊎ ((ltb s.delta_retention n ≡ true)
            × ((store.contents s'.db).deltas ≡ keep_from (n - s.delta_retention) (with_deltas n s)))
    pub decision : FlushedAt n hash root s s' ⊎ HeldBack n root s s'

  abbrev after_take : UbtExEx P → UbtExEx P
  after_take s = record s { pending_entries = [] }

-- The deltas after pruning, in terms of those before the flush.
flushed_deltas :
    (n : ℕ) (after before middle : Stored) (r r' : ℕ)
    → middle ≡ before
    → r' ≡ r
    → (after ≡ middle) ⊎ ((ltb r' n ≡ true) × (after ≡ keep_from (n - r') middle))
    → (after ≡ before) ⊎ ((ltb r n ≡ true) × (after ≡ keep_from (n - r) before))
flushed_deltas n after before middle r r' p q h = rw (p, q) at h

module _ (P : Parts) (laws : IsUbt P.ubt) (stored : IsStore P.store)
    (indexed : IsIndex P.index) where
  open P use {ubt, store, index}

  -- The effect of the recording on a state that shows what `s` shows.
  recorded_after :
      (n : ℕ) (s t u : UbtExEx P)
      → Quiet P (after_take P s) t
      → Effect P
          (write_entries s.pending_entries)
          (saved n (deltas_of s.pending_entries (visible P t)))
          t
          u
      → Effect P
          (write_entries s.pending_entries)
          (saved n (deltas_of s.pending_entries (visible P s)))
          (after_take P s)
          u
  recorded_after n s t u h k =
      Effect-trans P (λ f. f) (write_entries s.pending_entries) (λ d. d)
        (saved n (deltas_of s.pending_entries (visible P s))) (after_take P s) t u h
        (subst
          (λ f.
            Effect P (write_entries s.pending_entries) (saved n (deltas_of s.pending_entries f)) t
              u)
          (fun_ext h.visible_after) k)

  same_due :
      (n : ℕ) (s u : UbtExEx P)
      → policy P u ≡ policy P (after_take P s)
      → should_flush P n u ≡ should_flush P n s
  same_due n s u p =
      ap (λ (q : List PendingEntry × ℕ × B256 × B256 × ℕ × ℕ). leb n q.1 || leb q.4 (n - q.1)) p

  flushed :
      (n : ℕ) (hash root : B256) (s u s' : UbtExEx P)
      → IsReady P s
      → should_flush P n s ≡ true
      → Effect P
          (write_entries s.pending_entries)
          (saved n (deltas_of s.pending_entries (visible P s)))
          (after_take P s)
          u
      → Flushed P stored indexed n hash u root s'
      → Committed P n hash s root s'
  unfolding IsRootOf
  flushed n hash root s u s' ready due h k = record {
    visible_after = λ key. k.visible_after (h.ready ready) key ∙ h.visible_after key;
    ready = rw k.dirty_after tt;
    deltas =
        flushed_deltas n (store.contents s'.db).deltas (with_deltas P n s)
          (store.contents u.db).deltas s.delta_retention u.delta_retention h.deltas_after
          (ap (λ (q : List PendingEntry × ℕ × B256 × B256 × ℕ × ℕ). q.5) h.same_policy)
          k.deltas_after;
    decision = inl (record {
      due = due;
      root_of_stems = k.root_after;
      dirty = k.dirty_after;
      stem_count = u.stem_count;
      head = k.head_after;
      index_head = k.index_after;
      persisted =
          k.policy_after
          ∙ ap (λ (q : List PendingEntry × ℕ × B256 × B256 × ℕ × ℕ). (q.0, n, hash, root, q.4, q.5))
              h.same_policy;
    });
  }

  held_back :
      (n : ℕ) (hash : B256) (s u : UbtExEx P)
      → IsReady P s
      → should_flush P n s ≡ false
      → Effect P
          (write_entries s.pending_entries)
          (saved n (deltas_of s.pending_entries (visible P s)))
          (after_take P s)
          u
      → Committed P n hash s u.last_root (record u { last_block = n; last_hash = hash })
  held_back n hash s u ready due h = record {
    visible_after = h.visible_after;
    ready = h.ready ready;
    deltas = inl h.deltas_after;
    decision = inr (record {
      not_due = due;
      root_before = ap (λ (q : List PendingEntry × ℕ × B256 × B256 × ℕ × ℕ). q.3) h.same_policy;
      stems = h.stems_after;
      head = h.head_after;
      persisted = h.same_policy;
    });
  }

  decide :
      (n : ℕ) (hash : B256) (s u : UbtExEx P)
      → IsReady P s
      → Effect P
          (write_entries s.pending_entries)
          (saved n (deltas_of s.pending_entries (visible P s)))
          (after_take P s)
          u
      → Ensures
          (λ root s'. Committed P n hash s root s')
          (λ _ s'. IsReady P s')
          (flush_or_not P n hash (record u { last_block = n; last_hash = hash }))
  unfolding flush_or_not
  decide n hash s u ready h = elim (Bool-cases (should_flush P n u)) [
    | inl due ↦ rw due (
        Ensures-weaken _
          (flush-Flushed P stored indexed n hash (record u { last_block = n; last_hash = hash }))
          (λ root s' k.
            flushed n hash root s (record u { last_block = n; last_hash = hash }) s' ready
              (sym (same_due n s u h.same_policy) ∙ due)
              (record {
                visible_after = h.visible_after;
                deltas_after = h.deltas_after;
                stems_after = h.stems_after;
                head_after = h.head_after;
                ready = h.ready;
                same_policy = h.same_policy;
              })
              k)
          (λ _ s' p. rw p tt))
    | inr not_due ↦ rw not_due (record {
      post = held_back n hash s u ready (sym (same_due n s u h.same_policy) ∙ not_due) h;
    })
  ]

  -- From a ready state `commit` never panics. If it returns, every pending entry is visible, in
  -- order, on top of what was visible before; the old values are stored as the deltas of the
  -- block; the state is flushed, with the root of what MDBX then holds, exactly if the block is
  -- not past the persisted one or `flush_interval` blocks past it; else MDBX keeps its stems and
  -- head and the last root is returned. If it fails, the overlay still holds each stem once.
  pub commit-Committed :
      (n : ℕ) (hash : B256) (s : UbtExEx P)
      → IsReady P s
      → Ensures (λ root s'. Committed P n hash s root s') (λ _ s'. IsReady P s') (commit P n hash s)
  unfolding commit
  commit-Committed n hash s ready =
      Ensures-bind (commit_nomt P s.pending_entries n (after_take P s)) _
        (Ensures-weaken _ (commit_nomt-Quiet P s.pending_entries n (after_take P s)) (λ _ _ h. h)
          (λ _ _ h. h ready))
        (λ _ t h.
          Ensures-bind (record_entries P s.pending_entries n t) _
            (Ensures-weaken _ (record_entries-Effect P laws stored indexed s.pending_entries n t)
              (λ _ u k. recorded_after n s t u h k) (λ _ u k. k (h.ready ready)))
            (λ _ u k. decide n hash s u ready k))
