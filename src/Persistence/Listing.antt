-- ===== src/Persistence/Listing.antt =====
-- `iter_entries_sorted` of persistence.rs lists the entries of the table of stems in order.
use ubt_exex.Common.{
  true, false, List, [], ◌∷◌, ◌++◌, some, none, ◌≡◌, refl, ap, sym, ◌∙◌, ◌==◌, list_eq, nat_eq,
  if◌then◌else◌, Bool-cases, inl, inr, arith, leb, length, ok, ◌>>=◌, Foreign, done, failed, All,
  All-weaken, All-append, eq_of_true, false_of_ne,
}
use mathlib.Core.Path.{subst}
use mathlib.Core.List.{append_assoc, append-nil}
use ubt_exex.Common.Assoc.{lookup, lookup-append}
use ubt_exex.Common.Bytes.{Bytes}
use ubt_exex.Common.Exec.{Answers, Answers-bind, Answers-weaken}
use ubt_exex.Common.Order.{
  sort_by, mem-sort_by, sort_by-Rising, bytes_leb, bytes_leb-append, bytes_leb_refl,
}
use ubt_exex.Tree.{Ubt, Stem, TreeKey, tree_key_eq}
use ubt_exex.Store.{Before, IsSorted, IsListing}
use ubt_exex.Mdbx.{Ffi}
use ubt_exex.Mdbx.Tables.{IsFfi, Rows, Lists, Ascending}
use ubt_exex.Persistence.{Bincode, stems_db, coded, as_mdbx}
use ubt_exex.Persistence.Stems.{keys_of, push_entries, push_node, iter_entries_sorted}
use ubt_exex.Persistence.Rules.{
  decoded, option_of, read_from-Answers, cursor-Answers, while_rows-Answers, fold_rows,
}
use ubt_exex.Persistence.View.{contents_of}
use ubt_exex.Persistence.Entries.{
  HasValues, Entries, mem-keys_of, keys_of-NoRepeats, lookup-push_entries, stem_of-push_entries,
  push_entries-IsSorted, IsSorted-append,
}

same_length : (k key : Bytes) → (k == key) ≡ true → length k ≡ length key
same_length k key h = ap length (eq_of_true k key h)

after_ne : (k key : Bytes) → bytes_leb k key ≡ false → (k == key) ≡ false
after_ne k key h = false_of_ne k key (λ p. cc (bytes_leb_refl key, rw p at h))

module _ {U : Ubt} (M : Ffi) (B : Bincode U) (V : HasValues U) where
  abbrev node_entries : Stem → U.StemNode → Entries
  node_entries stem n = push_entries stem (U.values n) (sort_by leb (keys_of (U.values n)))

  lookup-node_entries :
      (key : TreeKey) (stem : Stem) (n : U.StemNode)
      → lookup key (node_entries stem n)
        ≡ (if stem == key.stem then U.get_value n key.subindex else none)
  lookup-node_entries key stem n =
      lookup-push_entries key stem (U.values n) (sort_by leb (keys_of (U.values n)))
      ∙ (ground (
        arith,
        mem-sort_by key.subindex (keys_of (U.values n)),
        mem-keys_of key.subindex (U.values n),
        V.each n key.subindex,
      ))

  node_entries-IsSorted : (stem : Stem) (n : U.StemNode) → IsSorted (node_entries stem n)
  node_entries-IsSorted stem n =
      push_entries-IsSorted stem (U.values n) (sort_by leb (keys_of (U.values n)))
        (sort_by-Rising (keys_of (U.values n)) (keys_of-NoRepeats (U.values n) (V.once n)))

  abbrev decoded_entries : Stem → Foreign U.StemNode → Entries
  decoded_entries stem (done n) = node_entries stem n
  decoded_entries stem (failed e) = []

  -- The entries of one row of the table.
  abbrev row_entries : Bytes → Bytes → Entries
  row_entries key value =
      if length key == 31 then decoded_entries key (B.node.deserialize value) else []

  unfoldable rows_entries : List (Bytes × Bytes) → Entries
  rows_entries [] = []
  rows_entries ((key, value) ∷ l) = row_entries key value ++ rows_entries l

  push_node-Answers :
      (key value : Bytes) (acc : Entries)
      → Answers (λ es. es ≡ acc ++ row_entries key value) (push_node M B (key, value) acc)
  unfolding push_node
  push_node-Answers key value acc = elim (Bool-cases (length key == 31)) [
    | inl p ↦ rw p (by_result (B.node.deserialize value))
    | inr p ↦ rw p (record { answer = sym (append-nil acc) })
  ]
    where
      by_result :
          (r : Foreign U.StemNode)
          → Answers
              (λ es. es ≡ acc ++ decoded_entries key r)
              (coded r >>= λ n. ok (acc ++ node_entries key n))
      by_result (done n) = record { answer = refl }
      by_result (failed e) = record { answer = tt }

  fold-rows_entries :
      (l : List (Bytes × Bytes)) (acc : Entries)
      → Answers (λ es. es ≡ acc ++ rows_entries l) (fold_rows (push_node M B) l acc)
  unfolding fold_rows rows_entries
  fold-rows_entries [] acc = record { answer = sym (append-nil acc) }
  fold-rows_entries ((key, value) ∷ l) acc =
      Answers-bind _ _ (push_node-Answers key value acc) (λ acc' p.
        Answers-weaken _ (fold-rows_entries l acc') (λ es q.
          q
          ∙ ap (λ xs. xs ++ rows_entries l) p
          ∙ append_assoc acc (row_entries key value) (rows_entries l)))

  -- Keys after another one are other keys.
  missing :
      (key : Bytes) (l : List (Bytes × Bytes))
      → All (λ row. bytes_leb row.0 key ≡ false) l
      → lookup key l ≡ none
  unfolding lookup
  missing key [] h = refl
  missing key ((k, v) ∷ l) h = rw (after_ne k key h.0) (missing key l h.1)

  lookup-row_entries :
      (key : TreeKey) (k value : Bytes)
      → lookup key (row_entries k value) ≡ (
          if k == key.stem
          then if length key.stem == 31
            then elim (decoded B.node.deserialize (some value)) [
              | none ↦ none
              | some n ↦ U.get_value n key.subindex
            ]
            else none
          else none)
  unfolding lookup
  lookup-row_entries key k value = by_result (B.node.deserialize value) (same_length k key.stem)
    where
      by_result :
          (r : Foreign U.StemNode)
          → ((k == key.stem) ≡ true → length k ≡ length key.stem)
          → lookup key (if length k == 31 then decoded_entries k r else []) ≡ (
              if k == key.stem
              then if length key.stem == 31
                then elim (option_of r) [ none ↦ none | some n ↦ U.get_value n key.subindex ]
                else none
              else none)
      by_result (done n) h = ground (arith, h, lookup-node_entries key k n)
      by_result (failed e) h = ground (arith, h)

  lookup-rows_entries :
      (key : TreeKey) (l : List (Bytes × Bytes))
      → Ascending l
      → lookup key (rows_entries l) ≡ (
          if length key.stem == 31
          then elim (decoded B.node.deserialize (lookup key.stem l)) [
            | none ↦ none
            | some n ↦ U.get_value n key.subindex
          ]
          else none)
  unfolding rows_entries lookup
  lookup-rows_entries key [] h = ground arith
  lookup-rows_entries key ((k, value) ∷ l) h = ground (
    arith,
    lookup-append key (row_entries k value) (rows_entries l),
    lookup-row_entries key k value,
    lookup-rows_entries key l h.1,
    missing_stem,
  )
    where
      missing_stem : (k == key.stem) ≡ true → lookup key.stem l ≡ none
      missing_stem p = missing key.stem l (rw (eq_of_true k key.stem p) at h.0)

  decoded_entries-stem :
      (k : Bytes) (r : Foreign U.StemNode) → All (λ x. x.0.stem ≡ k) (decoded_entries k r)
  decoded_entries-stem k (done n) =
      stem_of-push_entries k (U.values n) (sort_by leb (keys_of (U.values n)))
  decoded_entries-stem k (failed e) = tt

  decoded_entries-IsSorted : (k : Bytes) (r : Foreign U.StemNode) → IsSorted (decoded_entries k r)
  decoded_entries-IsSorted k (done n) = node_entries-IsSorted k n
  decoded_entries-IsSorted k (failed e) = tt

  -- The entries of rows after a key are those of stems after it.
  rows_entries-After :
      (k : Bytes) (l : List (Bytes × Bytes))
      → All (λ row. bytes_leb row.0 k ≡ false) l
      → All (λ x. (length x.0.stem ≡ 31) × (bytes_leb x.0.stem k ≡ false)) (rows_entries l)
  unfolding rows_entries
  rows_entries-After k [] h = tt
  rows_entries-After k ((j, value) ∷ l) h = elim (Bool-cases (length j == 31)) [
    | inl p ↦
        rw (p, All)
          (All-append _ (decoded_entries j (B.node.deserialize value)) (rows_entries l)
            (All-weaken (λ x q. (ap length q ∙ eq_of_true (length j) 31 p, rw q h.0))
              (decoded_entries j (B.node.deserialize value))
              (decoded_entries-stem j (B.node.deserialize value)))
            (rows_entries-After k l h.1))
    | inr p ↦ rw (p, All) (rows_entries-After k l h.1)
  ]

  stems-Before :
      (x y : TreeKey) (k : Bytes)
      → length k ≡ 31
      → x.stem ≡ k
      → (length y.stem ≡ 31) × (bytes_leb y.stem k ≡ false)
      → Before x y
  stems-Before x y k p q (r, h) =
      bytes_leb-append x.stem y.stem (x.subindex ∷ []) (y.subindex ∷ []) (ap length q ∙ p ∙ sym r)
        (rw q h)

  rows_entries-IsSorted : (l : List (Bytes × Bytes)) → Ascending l → IsSorted (rows_entries l)
  unfolding rows_entries
  rows_entries-IsSorted [] h = tt
  rows_entries-IsSorted ((k, value) ∷ l) h = elim (Bool-cases (length k == 31)) [
    | inl p ↦
        rw (p, IsSorted)
          (IsSorted-append (decoded_entries k (B.node.deserialize value)) (rows_entries l)
            (decoded_entries-IsSorted k (B.node.deserialize value)) (rows_entries-IsSorted l h.1)
            (All-weaken
              (λ x q.
                All-weaken (λ y r. stems-Before x.0 y.0 k (eq_of_true (length k) 31 p) q r)
                  (rows_entries l) (rows_entries-After k l h.0))
              (decoded_entries k (B.node.deserialize value))
              (decoded_entries-stem k (B.node.deserialize value))))
    | inr p ↦ rw (p, IsSorted) (rows_entries-IsSorted l h.1)
  ]

  rows_entries-IsListing :
      (r : Rows) (l : List (Bytes × Bytes))
      → Lists r l
      → IsListing U (λ stem. decoded B.node.deserialize (r stem)) (rows_entries l)
  rows_entries-IsListing r l h = record {
    sorted = rows_entries-IsSorted l h.ascending;
    listed = λ key. rw (← h.each key.stem) (lookup-rows_entries key l h.ascending);
  }

  pub iter_entries_sorted-lists :
      (laws : IsFfi M) (e : M.Env)
      → Answers (IsListing U (contents_of B (laws.rows e)).stems) (iter_entries_sorted M B e)
  unfolding iter_entries_sorted
  iter_entries_sorted-lists laws e = read_from-Answers M laws stems_db _ e (λ t db p q.
      Answers-bind _ _ (cursor-Answers M laws as_mdbx stems_db t db p) (λ c (lists, less).
        while_rows-Answers M laws as_mdbx (push_node M B) (M.most_rows t db) c [] less (
          Answers-weaken _ (fold-rows_entries (laws.left c) []) (λ es r.
            subst (λ es. IsListing U (contents_of B (laws.rows e)).stems es) (sym r)
              (rw q at (rows_entries-IsListing (laws.seen t stems_db) (laws.left c) lists))))))
