-- ===== src/Exex/Resume.antt =====
-- Starting again after a flush.
use ubt_exex.Common.{
  ℕ, ◌-◌, ◌^◌, ◌<◌, true, false, ◌&&◌, ltb, if◌then◌else◌, ◌==◌, Foreign, done, none, arith, length,
  ◌⊎◌, inl, inr, Bool-cases, Option, some, List, [], ◌≡◌, refl, sym, ap, ◌∙◌, list_eq, nat_eq,
  eq_refl, ok,
}
use mathlib.Core.Path.{subst}
use ubt_exex.Common.Bytes.{Bytes, to_be_bytes, from-to_be_bytes, length-to_be_bytes}
use ubt_exex.Common.Exec.{Ensures-ok, Holds}
use ubt_exex.Tree.{TreeKey, B256, IsUbt}
use ubt_exex.Store.{IsStore, IsListing, UbtHead}
use ubt_exex.Index.{IsIndex}
use ubt_exex.Exex.{Parts, UbtExEx}
use ubt_exex.Exex.Commit.{flush, compute_root_from_db, head_at, nomt_head_key}
use ubt_exex.Exex.Commit.Flush.{Flushed, flush-Flushed}
use ubt_exex.Exex.Commit.Drain.{IsRootOf}
use ubt_exex.Exex.Root.{IsListing-unique}
use ubt_exex.Exex.Lifecycle.{new, verify_head, start_at, nomt_head_of, sync_nomt, get_head}

module _ (P : Parts) (laws : IsUbt P.ubt) (stored : IsStore P.store)
    (indexed : IsIndex P.index) where
  open P use {ubt, store, index, trie}

  -- A database has one root: what reading computes is what any listing of its stems gives.
  read_root :
      (db : store.Db) (root : B256) (es : List (TreeKey × B256))
      → IsRootOf P stored indexed root db
      → store.iter_entries_sorted db ≡ ok es
      → ubt.build_root_hash es ≡ root
  unfolding IsRootOf
  read_root db root es (es', listing, p) read =
      ap ubt.build_root_hash (
        IsListing-unique ubt (store.contents db).stems es es'
          (subst (Holds (IsListing ubt (store.contents db).stems)) read
            (stored.iter_entries_reads db).answer)
          listing)
      ∙ sym p

  restarted :
      (db : store.Db) (head : UbtHead) (h : Option UbtHead) (es : List (TreeKey × B256))
      → IsRootOf P stored indexed head.root db
      → (store.contents db).head ≡ some head
      → store.load_head db ≡ ok h
      → store.iter_entries_sorted db ≡ ok es
      → (x : index.Db) (nomt : trie.State) (interval retention : ℕ)
      → new P (ok db) (ok x) (done nomt) interval retention
        ≡ ok (start_at P db x nomt interval retention head)
  unfolding new verify_head compute_root_from_db
  restarted db head h es is_root has_head loaded read x nomt interval retention =
      let stored_head : h ≡ some head =
        subst (Holds (λ o. o ≡ (store.contents db).head)) loaded (stored.load_head_reads db).answer
        ∙ has_head in
      rw (loaded, stored_head, read, read_root db head.root es is_root read, eq_refl head.root) refl

  -- The block number under NOMT's head key, where an absent value counts as 0.
  abbrev pub IsHead : Foreign (Option Bytes) → ℕ → Type 0
  IsHead r m = ((r ≡ done none) × (m ≡ 0)) ⊎ ((r ≡ done (some (to_be_bytes 8 m))) × (m < 2 ^ 64))

  abbrev pub block_at : ℕ → B256 → Option (ℕ × B256)
  block_at q hash = some (q, hash)

  -- A state that starts from a flushed block `n`, where NOMT was at block `m`.
  pub record StartsFrom (n m : ℕ) (hash root : B256) (stems : ℕ) (nomt : trie.State) (t : UbtExEx P)
      : Type 0 where
    pub last_block : t.last_block ≡ n
    pub last_hash : t.last_hash ≡ hash
    pub last_root : t.last_root ≡ root
    pub stem_count : t.stem_count ≡ stems
    pub pending : t.pending_entries ≡ []
    pub overlay : t.dirty_stems ≡ []
    pub persisted : t.last_persisted_block ≡ (if ltb m n then m else n)
    pub resumes :
        get_head P t
        ≡ (if ltb 0 m && ltb 0 n then block_at (if ltb m n then m else n) hash else none)
    pub trie_after : t.nomt ≡ (if ltb n m then (trie.rollback (m - n) nomt).1 else nomt)

  IsHead-nomt_head_of : (r : Foreign (Option Bytes)) (m : ℕ) → IsHead r m → nomt_head_of r ≡ m
  unfolding nomt_head_of
  IsHead-nomt_head_of r m (inl (p, q)) = rw (p, q) refl
  IsHead-nomt_head_of r m (inr (p, q)) =
      let sized : (length (to_be_bytes 8 m) == 8) ≡ true = rw (length-to_be_bytes 8 m) refl in
      rw (p, sized) (from-to_be_bytes 8 m q)

  sync_nomt_lem :
      (m n : ℕ) (nomt : trie.State)
      → (((sync_nomt P m n nomt).1 ≡ (if ltb m n then m else n))
          × ((sync_nomt P m n nomt).0 ≡ (if ltb n m then (trie.rollback (m - n) nomt).1 else nomt)))
  unfolding sync_nomt
  sync_nomt_lem m n nomt = elim (Bool-cases (ltb n m)) [
    | inl a ↦ let b : ltb m n ≡ false = ground (arith, a) in rw (a, b) (refl, refl)
    | inr a ↦ elim (Bool-cases (ltb m n)) [
      | inl b ↦ rw (a, b) (refl, refl)
      | inr b ↦ rw (a, b) (refl, refl)
    ]
  ]

  resumed :
      (m n q : ℕ) (hash : B256)
      → q ≡ (if ltb m n then m else n)
      → (if q == 0 then none else block_at q hash)
        ≡ (if ltb 0 m && ltb 0 n then block_at (if ltb m n then m else n) hash else none)
  resumed m n q hash p = elim (Bool-cases (ltb 0 m && ltb 0 n)) [
    | inl a ↦
        let apart : (q == 0) ≡ false = ground (arith, a, p) in
        rw (a, apart) (ap (λ k. block_at k hash) p)
    | inr a ↦ let zero_block : (q == 0) ≡ true = ground (arith, a, p) in rw (a, zero_block) refl
  ]

  start_at-StartsFrom :
      (db : store.Db) (x : index.Db) (nomt : trie.State) (interval retention n m : ℕ)
      (hash root : B256) (stems : ℕ)
      → IsHead (trie.read nomt_head_key nomt) m
      → StartsFrom n m hash root stems nomt (
          start_at P db x nomt interval retention
            (record { block_number = n; block_hash = hash; root = root; stem_count = stems }))
  unfolding start_at get_head
  start_at-StartsFrom db x nomt interval retention n m hash root stems h =
      let p : nomt_head_of (trie.read nomt_head_key nomt) ≡ m =
        IsHead-nomt_head_of (trie.read nomt_head_key nomt) m h in
      let q = sync_nomt_lem m n nomt in
      record {
        last_block = refl;
        last_hash = refl;
        last_root = refl;
        stem_count = refl;
        pending = refl;
        overlay = refl;
        persisted = rw p q.0;
        resumes = rw p (resumed m n (sync_nomt P m n nomt).1 hash q.0);
        trie_after = rw p q.1;
      }

  -- After a flush at block `n` that returned, where the head and the entries can be read, and where
  -- NOMT holds the eight bytes of a block number `m`, or none, which counts as 0: `new` on these
  -- stores succeeds, as the root that it computes is the stored one. It starts at block `n` with
  -- the flushed hash, root and count of stems and an empty overlay. If NOMT is ahead it is rolled
  -- back by the difference; the persisted block is the smaller of the two, which `get_head` gives
  -- with the flushed hash, unless it is 0.
  pub flush-new :
      (n m : ℕ) (hash root : B256) (s s' : UbtExEx P) (h : Option UbtHead)
      (es : List (TreeKey × B256)) (x : index.Db) (nomt : trie.State) (interval retention : ℕ)
      → flush P n hash s ≡ (ok root, s')
      → store.load_head s'.db ≡ ok h
      → store.iter_entries_sorted s'.db ≡ ok es
      → IsHead (trie.read nomt_head_key nomt) m
      → (t : UbtExEx P) × (new P (ok s'.db) (ok x) (done nomt) interval retention ≡ ok t)
        × StartsFrom n m hash root s.stem_count nomt t
  flush-new n m hash root s s' h es x nomt interval retention returned loaded read at_head =
      let k : Flushed P stored indexed n hash s root s' =
        Ensures-ok (flush P n hash s) (flush-Flushed P stored indexed n hash s) returned in
      (
        start_at P s'.db x nomt interval retention (head_at P n hash root s),
        restarted s'.db (head_at P n hash root s) h es k.root_after k.head_after loaded read x nomt
            interval retention,
        start_at-StartsFrom s'.db x nomt interval retention n m hash root s.stem_count at_head,
      )
