-- ===== src/Exex/Commit/Flush.antt =====
-- `flush`, the branch of `commit` that writes to MDBX: its heads, its pruning, and the whole.
use ubt_exex.Common.{
  ℕ, ◌-◌, true, [], some, ◌≡◌, refl, ap, ◌∙◌, ◌⊎◌, inl, inr, nat_eq, list_eq, ltb, ok, err, panic,
  Result, UbtError, Bool-cases,
}
use ubt_exex.Common.Exec.{Ensures, Ensures-bind, Ensures-weaken, Ensures-lift, Exec}
use ubt_exex.Tree.{TreeKey, B256}
use ubt_exex.Store.{Contents, IsStore, keep_from}
use ubt_exex.Index.{IsIndex}
use ubt_exex.Index.Codec.{pack_head}
use ubt_exex.Exex.{Parts, UbtExEx, on_db, on_index}
use ubt_exex.Exex.Steps.{visible, IsReady, on_db-DbChanged, on_index_step}
use ubt_exex.Exex.Effect.{Stored, policy}
use ubt_exex.Exex.Commit.{
  write_dirty, flush_dirty, compute_root_from_db, warn_only, prune, flush, save_heads, head_at,
}
use ubt_exex.Exex.Commit.Drain.{
  current-drained, drained, write_dirty-DbChanged, IsRootOf, compute_root-IsRootOf,
}

module _ (P : Parts) (stored : IsStore P.store) (indexed : IsIndex P.index) where
  open P use {ubt, store, index}

  abbrev pub kept : ℕ → Contents ubt → Contents ubt
  kept n c = record c { deltas = keep_from n c.deltas }

  abbrev pub IsPruned : ℕ → ℕ → Contents ubt → Contents ubt → Type 0
  IsPruned retention n c c' = (c' ≡ c) ⊎ ((ltb retention n ≡ true) × (c' ≡ kept (n - retention) c))

  -- Pruning removes the deltas of old blocks, or fails and removes none: `commit` goes on.
  pub record Pruned (n : ℕ) (s s' : UbtExEx P) : Type 0 where
    pub db : store.Db
    pub state : s' ≡ record s { db = db }
    pub contents : IsPruned s.delta_retention n (store.contents s.db) (store.contents db)

  stems_pruned : (r n : ℕ) (c c' : Contents ubt) → IsPruned r n c c' → c'.stems ≡ c.stems
  stems_pruned r n c c' (inl p) = ap (λ c. c.stems) p
  stems_pruned r n c c' (inr (_, p)) = ap (λ c. c.stems) p

  head_pruned : (r n : ℕ) (c c' : Contents ubt) → IsPruned r n c c' → c'.head ≡ c.head
  head_pruned r n c c' (inl p) = ap (λ c. c.head) p
  head_pruned r n c c' (inr (_, p)) = ap (λ c. c.head) p

  deltas_pruned :
      (r n : ℕ) (c c' : Contents ubt) (f : Stored)
      → c.deltas ≡ f
      → IsPruned r n c c'
      → (c'.deltas ≡ f) ⊎ ((ltb r n ≡ true) × (c'.deltas ≡ keep_from (n - r) f))
  deltas_pruned r n c c' f q (inl p) = inl (ap (λ c. c.deltas) p ∙ q)
  deltas_pruned r n c c' f q (inr (o, p)) = inr (o, ap (λ c. c.deltas) p ∙ ap (keep_from (n - r)) q)

  prune_step :
      (n : ℕ) (s : UbtExEx P) (r : Result ℕ × store.Db)
      → ltb s.delta_retention n ≡ true
      → Ensures
          (λ _ d'. store.contents d' ≡ kept (n - s.delta_retention) (store.contents s.db))
          (λ _ d'. store.contents d' ≡ store.contents s.db)
          r
      → Ensures {S = UbtExEx P}
          (λ _ s'. Pruned n s s')
          (λ _ s'. ⊥)
          (warn_only r.0, record s { db = r.1 })
  prune_step n s (ok k, d) old h = record {
    post = record { db = d; state = refl; contents = inr (old, h.post) };
  }
  prune_step n s (err e, d) old h = record {
    post = record { db = d; state = refl; contents = inl h.post };
  }
  prune_step n s (panic m, d) old h = elim h.post [ ]

  prune-Pruned : (n : ℕ) (s : UbtExEx P) → Ensures (λ _ s'. Pruned n s s') (λ _ s'. ⊥) (prune P n s)
  unfolding prune
  prune-Pruned n s = elim (Bool-cases (ltb s.delta_retention n)) [
    | inl old ↦ rw old (
        prune_step n s (store.prune_deltas_before (n - s.delta_retention) s.db) old
          (stored.prune_writes (n - s.delta_retention) s.db))
    | inr young ↦
        rw young (record { post = record { db = s.db; state = refl; contents = inl refl } })
  ]

  -- What a flush at block `n` leaves behind.
  pub record Flushed (n : ℕ) (hash : B256) (s : UbtExEx P) (root : B256) (s' : UbtExEx P)
      : Type 0 where
    pub visible_after : IsReady P s → (key : TreeKey) → visible P s' key ≡ visible P s key
    pub dirty_after : s'.dirty_stems ≡ []
    pub root_after : IsRootOf P stored indexed root s'.db
    pub head_after : (store.contents s'.db).head ≡ some (head_at P n hash root s)
    pub index_after : index.head_of s'.key_index ≡ some (pack_head n hash root s.stem_count)
    pub deltas_after :
        ((store.contents s'.db).deltas ≡ (store.contents s.db).deltas)
        ⊎ ((ltb s.delta_retention n ≡ true)
            × ((store.contents s'.db).deltas
                ≡ keep_from (n - s.delta_retention) (store.contents s.db).deltas))
    pub policy_after :
        policy P s' ≡ (s.pending_entries, n, hash, root, s.flush_interval, s.delta_retention)

  flush_end :
      (n : ℕ) (hash root : B256) (s : UbtExEx P) (d1 d3 : store.Db) (x : index.Db)
      → store.contents d1 ≡ drained P stored indexed s.dirty_stems (store.contents s.db)
      → IsRootOf P stored indexed root d1
      → store.contents d3
        ≡ (let c = store.contents d1 in record c { head = some (head_at P n hash root s) })
      → index.head_of x ≡ some (pack_head n hash root s.stem_count)
      → (s' : UbtExEx P)
      → Pruned n
          (record s {
            db = d3;
            dirty_stems = [];
            key_index = x;
            last_persisted_block = n;
            last_persisted_hash = hash;
            last_root = root;
          })
          s'
      → Flushed n hash s root s'
  unfolding IsRootOf
  flush_end n hash root s d1 d3 x c1 r c3 i s' p =
      let at_d3 : Contents ubt = store.contents d3 in
      let stems_eq = stems_pruned s.delta_retention n at_d3 _ p.contents ∙ ap (λ c. c.stems) c3 in
      rw p.state (record {
        visible_after = λ ready key.
            current-drained P s.db p.db s.dirty_stems key ready (stems_eq ∙ ap (λ c. c.stems) c1);
        dirty_after = refl;
        root_after = (r.0, rw stems_eq r.1, r.2);
        head_after = head_pruned s.delta_retention n at_d3 _ p.contents ∙ ap (λ c. c.head) c3;
        index_after = i;
        deltas_after =
            deltas_pruned s.delta_retention n at_d3 _ _
              (ap (λ c. c.deltas) c3 ∙ ap (λ c. c.deltas) c1) p.contents;
        policy_after = refl;
      })

  abbrev pub IsLost : UbtError → UbtExEx P → Type 0
  IsLost _ s = s.dirty_stems ≡ []

  flush_tail :
      (n : ℕ) (hash root : B256) (s : UbtExEx P) (d1 : store.Db)
      → store.contents d1 ≡ drained P stored indexed s.dirty_stems (store.contents s.db)
      → IsRootOf P stored indexed root d1
      → Ensures
          (λ root' s'. Flushed n hash s root' s')
          IsLost
          (save_heads P n hash root (record s { db = d1; dirty_stems = [] }))
  unfolding save_heads
  flush_tail n hash root s d1 c1 r =
      Ensures-bind (on_db P (store.save_head (head_at P n hash root s)) s1) _
        (Ensures-weaken _
          (on_db-DbChanged P (store.save_head (head_at P n hash root s))
            (λ c. record c { head = some (head_at P n hash root s) }) s1
            (stored.save_head_writes (head_at P n hash root s) d1))
          (λ _ _ h. h) (λ _ _ h. rw h.state refl))
        (λ _ s3 h3. rw h3.state (
          Ensures-bind (on_index P save (record s1 { db = h3.db })) _
            (Ensures-weaken _
              (on_index_step P save (record s1 { db = h3.db })
                (indexed.save_head_writes n hash root s.stem_count s.key_index))
              (λ _ _ h. h) (λ _ _ (x, p, q). rw p refl))
            (λ _ s4 (x, p4, i). rw p4 (
              Ensures-bind (prune P n (s5 h3.db x)) _
                (Ensures-weaken _ (prune-Pruned n (s5 h3.db x)) (λ _ _ h. h) (λ _ _ h. absurd h))
                (λ _ s6 h6. record {
                  post = flush_end n hash root s d1 h3.db x c1 r h3.contents i s6 h6;
                })))))
    where
      s1 : UbtExEx P
      s1 = record s { db = d1; dirty_stems = [] }

      save : Exec index.Db (Unit {0})
      save = index.save_head n hash root s.stem_count

      s5 : store.Db → index.Db → UbtExEx P
      s5 d x = record s {
        db = d;
        dirty_stems = [];
        key_index = x;
        last_persisted_block = n;
        last_persisted_hash = hash;
        last_root = root;
      }

  -- A flush that returns has written the head with the root of the stored stems, and clients see
  -- no difference. One that fails has drained P stored indexed the overlay.
  pub flush-Flushed :
      (n : ℕ) (hash : B256) (s : UbtExEx P)
      → Ensures (λ root s'. Flushed n hash s root s') IsLost (flush P n hash s)
  unfolding flush flush_dirty
  flush-Flushed n hash s =
      Ensures-bind (write_dirty P s.dirty_stems (record s { dirty_stems = [] })) _
        (Ensures-weaken _
          (write_dirty-DbChanged P stored indexed s.dirty_stems (record s { dirty_stems = [] }))
          (λ _ _ h. h) (λ _ _ h. rw h.state refl))
        (λ _ s1 h1. rw h1.state (
          Ensures-bind (compute_root_from_db P h1.db, record s { db = h1.db; dirty_stems = [] }) _
            (Ensures-weaken _ (Ensures-lift _ _ (compute_root-IsRootOf P stored indexed h1.db))
              (λ _ _ h. h) (λ _ _ p. rw p refl))
            (λ root s2 (r, p2). rw p2 (flush_tail n hash root s h1.db h1.contents r))))
