-- ===== src/Exex/Commit/Drain.antt =====
-- Writing the overlay to MDBX, and the root of what MDBX then holds.
use ubt_exex.Common.{
  List, [], ◌∷◌, Option, ◌≡◌, refl, ap, ◌∙◌, arith, nat_eq, list_eq, list_beq_iff, ok, err, panic,
  Result, ◌>>=◌ as result_bind,
}
use ubt_exex.Common.Assoc.{lookup, Distinct}
use ubt_exex.Common.Exec.{Ensures, Answers}
use ubt_exex.Tree.{Stem, TreeKey, B256}
use ubt_exex.Store.{Contents, IsStore, put, put_all, IsListing}
use ubt_exex.Index.{IsIndex}
use ubt_exex.Exex.{Parts, UbtExEx, Dirty}
use ubt_exex.Exex.Overlay.{current, or_else, value_in}
use ubt_exex.Exex.Steps.{DbChanged, on_db-DbChanged}
use ubt_exex.Exex.Commit.{write_dirty, compute_root_from_db}

module _ (P : Parts) where
  open P use {ubt, store, index}

  -- Each stem stands once, so the order of the writes does not matter.
  pub put_all-lookup :
      (m : Dirty P) (f : Stem → Option ubt.StemNode) (s : Stem)
      → Distinct m
      → put_all m f s ≡ or_else P (lookup s m) (f s)
  unfolding put_all lookup
  put_all-lookup [] f s h = refl
  put_all-lookup ((t, n) ∷ m) f s h =
      ground (arith, put_all-lookup m (put t n f) s h.1, list_beq_iff t s)

  pub current-drained :
      (db db' : store.Db) (m : Dirty P) (key : TreeKey)
      → Distinct m
      → (store.contents db').stems ≡ put_all m (store.contents db).stems
      → current P db' [] key ≡ current P db m key
  unfolding current lookup
  current-drained db db' m key h p =
      ap (λ stems. value_in P (stems key.stem) key.subindex) p
      ∙ ap (λ o. value_in P o key.subindex) (put_all-lookup m (store.contents db).stems key.stem h)

module _ (P : Parts) (stored : IsStore P.store) (indexed : IsIndex P.index) where
  open P use {ubt, store, index}

  abbrev pub drained : Dirty P → Contents ubt → Contents ubt
  drained m c = record c { stems = put_all m c.stems }

  pub write_dirty-DbChanged :
      (m : Dirty P) (s : UbtExEx P)
      → Ensures
          (λ _ s'. DbChanged P (drained m) s s')
          (λ _ s'. DbChanged P (λ c. c) s s')
          (write_dirty P m s)
  unfolding write_dirty
  write_dirty-DbChanged [] s = record {
    post = record { db = s.db; state = refl; contents = unfold put_all in refl };
  }
  write_dirty-DbChanged (e ∷ m) s =
      on_db-DbChanged P (store.batch_update_stems (e ∷ m)) (drained (e ∷ m)) s
        (stored.update_stems_writes (e ∷ m) s.db)

  -- The root of what the stems hold.
  unfoldable pub IsRootOf : B256 → store.Db → Type 0
  IsRootOf root db =
      (es : List (TreeKey × B256)) × IsListing ubt (store.contents db).stems es
      × (root ≡ ubt.build_root_hash es)

  root_step :
      (db : store.Db) (r : Result (List (TreeKey × B256)))
      → Answers (IsListing ubt (store.contents db).stems) r
      → Answers (λ root. IsRootOf root db) (result_bind r (λ es. ok (ubt.build_root_hash es)))
  unfolding IsRootOf
  root_step db (ok es) h = record { answer = (es, h.answer, refl) }
  root_step db (err e) h = record { answer = tt }
  root_step db (panic m) h = elim h.answer [ ]

  pub compute_root-IsRootOf :
      (db : store.Db) → Answers (λ root. IsRootOf root db) (compute_root_from_db P db)
  unfolding compute_root_from_db
  compute_root-IsRootOf db =
      root_step db (store.iter_entries_sorted db) (stored.iter_entries_reads db)
