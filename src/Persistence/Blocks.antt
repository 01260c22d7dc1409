-- ===== src/Persistence/Blocks.antt =====
-- The table of deltas of persistence.rs: what the methods read, write and delete, in terms of the
-- contents.
use ubt_exex.Common.{
  ℕ, ◌<◌, Bool, true, false, List, [], ◌∷◌, some, none, Option, ◌≡◌, refl, ap, sym, ◌∙◌, ◌==◌,
  list_eq, nat_eq, if◌then◌else◌, Bool-cases, inl, inr, ◌||◌, arith, ltb, unwrap_or, fun_ext,
  Foreign, done, failed, UbtError,
}
use ubt_exex.Common.Bytes.{Bytes, from_be_bytes, length-to_be_bytes}
use ubt_exex.Common.Exec.{Answers, Answers-bind, Answers-weaken}
use ubt_exex.Common.Text.{Text}
use ubt_exex.Tree.{Ubt, Delta}
use ubt_exex.Store.{Contents, word, put, remove_at, keep_from}
use ubt_exex.Mdbx.{Ffi, Error}
use ubt_exex.Mdbx.Tables.{IsFfi, Rows, Tables, Lists, change, write, remove}
use ubt_exex.Persistence.{Bincode, Wording, deltas_db, coded, as_mdbx, plain}
use ubt_exex.Persistence.Deltas.{
  block_key, push_key, delete_keys, delete_where, pruning, prune_deltas_before, delete_deltas_after,
  delete_block_deltas, save_block_deltas, load_block_deltas, deltas_or_empty,
}
use ubt_exex.Persistence.Rules.{
  decoded, option_of, coded-Answers, read_row-Answers, put-Answers, del-Answers, cursor-Answers,
  while_rows-Answers,
}
use ubt_exex.Persistence.View.{contents_of, deltas_in, deltas_changed, words}
use ubt_exex.Persistence.Writes.{IsBincode, Changes, view, write_to-Changes, decoded_put}
use ubt_exex.Persistence.Keys.{
  block_key-word, word_less, number_of_key, same_key, picks, fold-picks, has, has-picks, without,
  without-has,
}

module _ {A : Type 0} (f : Bytes → Foreign A) where
  decoded_remove :
      (b : Bool) (o : Option Bytes)
      → decoded f (if b then none else o) ≡ (if b then none else decoded f o)
  decoded_remove true o = refl
  decoded_remove false o = refl

  decoded_kept :
      (b : Bool) (o : Option Bytes)
      → decoded f (if (false || (elim o [ none ↦ false | some v ↦ b ])) then none else o)
        ≡ (if b then none else decoded f o)
  decoded_kept true none = refl
  decoded_kept true (some v) = refl
  decoded_kept false none = refl
  decoded_kept false (some v) = refl

module _ {U : Ubt} (B : Bincode U) where
  -- An entry of the table at a block number, and none beyond 64 bits.
  in_table :
      (m : ℕ) (r r' : Rows) (o : Option (List Delta) → Option (List Delta))
      → (m < words
          → decoded B.deltas.deserialize (r' (block_key m))
            ≡ o (decoded B.deltas.deserialize (r (block_key m))))
      → (ltb m words ≡ false → o none ≡ none)
      → deltas_in B r' m ≡ o (deltas_in B r m)
  in_table m r r' o h k = elim (Bool-cases (ltb m words)) [
    | inl p ↦ rw p (h (ground (arith, p)))
    | inr p ↦ rw p (sym (k p))
  ]

  past_words : (n m : ℕ) → ltb m words ≡ false → (word n == m) ≡ false
  past_words n m h = ground (arith, word_less n)

  deltas_put :
      (n : ℕ) (bytes : Bytes) (l : List Delta) (r : Rows)
      → B.deltas.deserialize bytes ≡ done l
      → (m : ℕ) → deltas_in B (write (block_key n) bytes r) m ≡ put (word n) l (deltas_in B r) m
  deltas_put n bytes l r p m =
      in_table m r (write (block_key n) bytes r) (λ o. if word n == m then some l else o)
        (λ h.
          decoded_put B.deltas.deserialize (block_key n) bytes l r p (block_key m)
          ∙ ap (λ b. if b then some l else decoded B.deltas.deserialize (r (block_key m)))
              (same_key n m h))
        (λ h. rw (past_words n m h) refl)

  deltas_removed :
      (n : ℕ) (r : Rows) (m : ℕ)
      → deltas_in B (remove (block_key n) r) m ≡ remove_at (word n) (deltas_in B r) m
  deltas_removed n r m =
      in_table m r (remove (block_key n) r) (λ o. if word n == m then none else o)
        (λ h.
          decoded_remove B.deltas.deserialize (block_key n == block_key m) (r (block_key m))
          ∙ ap (λ b. if b then none else decoded B.deltas.deserialize (r (block_key m)))
              (same_key n m h))
        (λ h. rw (past_words n m h) refl)

  deltas_without :
      (old : ℕ → Bool) (r : Rows) (l : List (Bytes × Bytes))
      → Lists r l
      → (m : ℕ)
      → deltas_in B (without (picks old l []) r) m ≡ (if old m then none else deltas_in B r m)
  unfolding has
  deltas_without old r l h m =
      in_table m r (without (picks old l []) r) (λ o. if old m then none else o)
        (λ k.
          ap (decoded B.deltas.deserialize) (without-has (picks old l []) r (block_key m))
          ∙ ap (λ b. decoded B.deltas.deserialize (if b then none else r (block_key m)))
              (has-picks old (block_key m) l [] (length-to_be_bytes 8 m))
          ∙ ap
              (λ o. decoded B.deltas.deserialize (
                if (false || (elim o [ none ↦ false | some v ↦ old (from_be_bytes (block_key m)) ]))
                then none
                else r (block_key m)))
              (h.each (block_key m))
          ∙ ap
              (λ n. decoded B.deltas.deserialize (
                if (false || (elim (r (block_key m)) [ none ↦ false | some v ↦ old n ]))
                then none
                else r (block_key m)))
              (number_of_key m k)
          ∙ decoded_kept B.deltas.deserialize (old m) (r (block_key m)))
        (λ k. ground arith)

change-change :
    (name : Text) (f g : Rows → Rows) (T : Tables)
    → change name g (change name f T) ≡ change name (λ r. g (f r)) T
change-change name f g T = fun_ext (λ other. by_test (other == name) other)
  where
    by_test :
        (b : Bool) (other : Text)
        → (if b then g (if b then f (T other) else T other) else if b then f (T other) else T other)
          ≡ (if b then g (f (T other)) else T other)
    by_test true other = refl
    by_test false other = refl

change-same : (name : Text) (T : Tables) → change name (λ r. r) T ≡ T
change-same name T = fun_ext (λ other. by_test (other == name) other)
  where
    by_test : (b : Bool) (other : Text) → (if b then T other else T other) ≡ T other
    by_test true other = refl
    by_test false other = refl

module _ {U : Ubt} (M : Ffi) (laws : IsFfi M) (B : Bincode U) (codecs : IsBincode B) where
  open M use {Env, Txn, Dbi}
  open laws use {rows, seen, name_of}

  deltas_or_empty-Answers :
      (o : Option Bytes)
      → Answers (λ l. l ≡ unwrap_or (decoded B.deltas.deserialize o) []) (deltas_or_empty M B o)
  unfolding deltas_or_empty
  deltas_or_empty-Answers none = record { answer = refl }
  deltas_or_empty-Answers (some bytes) = by_result (B.deltas.deserialize bytes)
    where
      by_result :
          (r : Foreign (List Delta))
          → Answers {A = List Delta} (λ l. l ≡ unwrap_or (option_of r) []) (coded r)
      by_result (done a) = record { answer = refl }
      by_result (failed e) = record { answer = tt }

  at_word :
      (n : ℕ) (r : Rows) → decoded B.deltas.deserialize (r (block_key n)) ≡ deltas_in B r (word n)
  at_word n r = rw (← block_key-word n) (ground (arith, word_less n))

  pub load_block_deltas-reads :
      (n : ℕ) (e : Env)
      → Answers
          (λ l. l ≡ unwrap_or ((view M laws B codecs e).deltas (word n)) [])
          (load_block_deltas M B n e)
  unfolding load_block_deltas
  load_block_deltas-reads n e =
      Answers-weaken _
        (read_row-Answers M laws deltas_db (block_key n) (deltas_or_empty M B)
          (λ o. unwrap_or (decoded B.deltas.deserialize o) []) e deltas_or_empty-Answers)
        (λ l p. p ∙ ap (λ o. unwrap_or o []) (at_word n (rows e deltas_db)))

  pub save_block_deltas-Changes :
      (n : ℕ) (l : List Delta) (e : Env)
      → Changes M laws B codecs
          (λ c. record c { deltas = put (word n) l c.deltas })
          e
          (save_block_deltas M B n l e)
  unfolding save_block_deltas
  save_block_deltas-Changes n l e =
      write_to-Changes M laws B codecs (λ c. record c { deltas = put (word n) l c.deltas }) plain
        deltas_db _ e
        (λ t db p. Answers-bind _ _ (coded-Answers B.deltas codecs.deltas_codec l) (λ bytes q.
          Answers-bind _ _ (put-Answers M laws deltas_db t db (block_key n) bytes p) (λ t' r.
            record {
              answer =
                  ap (contents_of B) r
                  ∙ deltas_changed B (write (block_key n) bytes) (seen t) _
                      (deltas_put B n bytes l (seen t deltas_db) q);
            })))

  pub delete_block_deltas-Changes :
      (n : ℕ) (e : Env)
      → Changes M laws B codecs
          (λ c. record c { deltas = remove_at (word n) c.deltas })
          e
          (delete_block_deltas M n e)
  unfolding delete_block_deltas
  delete_block_deltas-Changes n e =
      write_to-Changes M laws B codecs (λ c. record c { deltas = remove_at (word n) c.deltas })
        plain deltas_db _ e
        (λ t db p.
          Answers-bind _ _ (del-Answers M laws as_mdbx deltas_db t db (block_key n) p) (λ t' r.
            record {
              answer =
                  ap (contents_of B) r
                  ∙ deltas_changed B (remove (block_key n)) (seen t) _
                      (deltas_removed B n (seen t deltas_db));
            }))

  delete_keys-Answers :
      (why : Error → UbtError) (db : Dbi) (keys : List Bytes) (t : Txn)
      → name_of db ≡ deltas_db
      → Answers
          (λ t'. seen t' ≡ change deltas_db (without keys) (seen t))
          (delete_keys M why db keys t)
  unfolding delete_keys without
  delete_keys-Answers why db [] t p = record { answer = sym (change-same deltas_db (seen t)) }
  delete_keys-Answers why db (key ∷ keys) t p =
      Answers-bind _ _ (del-Answers M laws why deltas_db t db key p) (λ t' r.
        Answers-weaken _ (delete_keys-Answers why db keys t' p) (λ t'' k.
          k
          ∙ ap (change deltas_db (without keys)) r
          ∙ change-change deltas_db (remove key) (without keys) (seen t)))

  -- The deltas of the blocks that pass the test are deleted, and no others.
  delete_where-Answers :
      (w : Wording) (old : ℕ → Bool) (t : Txn) (db : Dbi)
      → name_of db ≡ deltas_db
      → Answers
          (λ t'. contents_of B (seen t'.0) ≡ (
            let c : Contents U = contents_of B (seen t) in
            record c { deltas = λ m. if old m then none else c.deltas m }))
          (delete_where M w old t db)
  unfolding delete_where
  delete_where-Answers w old t db p =
      Answers-bind _ _ (cursor-Answers M laws w.on_cursor deltas_db t db p) (λ c (lists, less).
        Answers-bind _ _
          (while_rows-Answers M laws w.on_next (push_key old) {Q = λ ds. ds ≡ picks old _ []}
            (M.most_rows t db) c [] less
            (rw (fold-picks old (laws.left c) []) (record { answer = refl })))
          (λ ds q. Answers-bind _ _ (delete_keys-Answers w.on_write db ds t p) (λ t' r. record {
            answer =
                ap (contents_of B) (r ∙ ap (λ ds. change deltas_db (without ds) (seen t)) q)
                ∙ deltas_changed B (without (picks old (laws.left c) [])) (seen t) _
                    (deltas_without B old (seen t deltas_db) (laws.left c) lists);
          })))

  pub prune_deltas_before-Changes :
      (n : ℕ) (e : Env)
      → Changes M laws B codecs
          (λ c. record c { deltas = keep_from n c.deltas })
          e
          (prune_deltas_before M n e)
  unfolding prune_deltas_before
  prune_deltas_before-Changes n e =
      write_to-Changes M laws B codecs (λ c. record c { deltas = keep_from n c.deltas }) pruning
        deltas_db _ e (delete_where-Answers pruning (λ bn. ltb bn n))

  -- If `delete_deltas_after` block `n` returns, the deltas of all later blocks are gone, those of `n`
  -- and before are as they were, and so is the rest; if it fails, nothing has changed.
  pub delete_deltas_after-Changes :
      (n : ℕ) (e : Env)
      → Changes M laws B codecs
          (λ c. record c { deltas = λ m. if ltb n m then none else c.deltas m })
          e
          (delete_deltas_after M n e)
  unfolding delete_deltas_after
  delete_deltas_after-Changes n e =
      write_to-Changes M laws B codecs
        (λ c. record c { deltas = λ m. if ltb n m then none else c.deltas m }) plain deltas_db _ e
        (λ t db p.
          Answers-bind _ _ (delete_where-Answers plain (λ bn. ltb n bn) t db p)
            (λ t' r. record { answer = r }))
