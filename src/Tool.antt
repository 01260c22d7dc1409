-- ===== src/Tool.antt =====
-- The command of src/bin/key_index.rs, which prints the head of the key index and counts its stems.
use ubt_exex.Common.{
  ℕ, suc, ◌+◌, ◌≡◌, refl, arith, length, Bool, Option, none, some, List, [], ◌∷◌, ◌++◌, ◌==◌,
  nat_eq, not, unwrap_or, Result, ok, err, panic, Foreign, done, failed,
}
use ubt_exex.Common.Exec.{
  Exec, Ensures, Ensures-bind, Ensures-weaken, lift, modify, when, ◌>>=◌, ◌>>◌,
}
use ubt_exex.Common.Text.{Text, codes}
use ubt_exex.Tree.{B256}
use ubt_exex.Index.Codec.{HeadRecord, split_value}
use ubt_exex.Index.Table.{Redb, load_head}
use ubt_exex.Index.Iterate.{for_each_stem, visit_stem, visit_stems, visit_table}
use ubt_exex.Common.Bytes.{Bytes}

-- The argument, else the variable `RETH_DATA_DIR`, else the current directory, if there is one.
unfoldable pub resolve_data_dir : Option Text → Option Text → Option Text → Text
resolve_data_dir arg var current_dir =
    unwrap_or arg (unwrap_or var (unwrap_or current_dir (codes ".")))

-- A line that is printed.
pub data Line : Type 0 where
  key_index : Text → Line
  head_block : ℕ → Line
  block_hash : B256 → Line
  root : B256 → Line
  stem_count_metadata : ℕ → Line
  stem_count_iterated : ℕ → Line
  stem_count_mismatch : Line
  no_head_metadata : Line

abbrev Printed : Type 0
Printed = List Line

abbrev pub println : Line → Exec Printed (Unit {0})
println line = modify (λ printed. printed ++ line ∷ [])

module _ (R : Redb) where
  abbrev pub counted : Result (Unit {0}) × ℕ → Result ℕ
  counted (ok u, count) = ok count
  counted (err e, count) = err e
  counted (panic m, count) = panic m

  -- The callback counts the stems.
  unfoldable pub count_stems : R.Db → Result ℕ
  unfolding for_each_stem
  count_stems db = counted (for_each_stem R (λ stem r. modify suc) db 0)

  unfoldable pub print_count : R.Db → HeadRecord → Exec Printed (Unit {0})
  unfolding count_stems
  print_count db head = lift (count_stems db) >>= λ count.
      println (stem_count_iterated count)
      >> when (not (count == head.stem_count)) (println stem_count_mismatch)

  unfoldable pub print_head : R.Db → Bool → Option HeadRecord → Exec Printed (Unit {0})
  unfolding print_count
  print_head db count none = println no_head_metadata
  print_head db count (some head) =
      println (head_block head.block_number)
      >> (println (block_hash head.block_hash)
          >> (println (root head.root)
              >> (println (stem_count_metadata head.stem_count)
                  >> when count (print_count db head))))

  unfoldable pub main : Text → Result R.Db → Bool → Exec Printed (Unit {0})
  unfolding print_head
  main key_index_path open_index count = lift open_index >>= λ db.
      println (key_index key_index_path)
      >> (lift (load_head R db) >>= λ head. print_head db count head)

  visit_stem-counts :
      (row : Foreign (Bytes × Bytes)) (c : ℕ)
      → Ensures (λ _ c'. c' ≡ suc c) (λ _ _. Unit {0}) (visit_stem R (λ stem r. modify suc) row c)
  unfolding visit_stem split_value
  visit_stem-counts (failed e) c = record { post = tt }
  visit_stem-counts (done (k, v)) c = record { post = refl }

  visit_stems-counts :
      (rows : List (Foreign (Bytes × Bytes))) (c : ℕ)
      → Ensures
          (λ _ c'. c' ≡ c + length rows)
          (λ _ _. Unit {0})
          (visit_stems R (λ stem r. modify suc) rows c)
  unfolding visit_stems
  visit_stems-counts [] c = record { post = omega arith }
  visit_stems-counts (row ∷ rows) c =
      Ensures-bind (visit_stem R (λ stem r. modify suc) row c) _ (visit_stem-counts row c)
        (λ _ c' p.
          Ensures-weaken _ (visit_stems-counts rows c') (λ _ c'' q. omega (arith, p, q))
            (λ _ _ _. tt))

  counted_ok :
      (m : Result (Unit {0}) × ℕ) (n l : ℕ)
      → Ensures (λ _ c. c ≡ l) (λ _ _. Unit {0}) m
      → counted m ≡ ok n
      → n ≡ l
  counted_ok (ok u, c) n l h p = cc (h.post)
  counted_ok (err e, c) n l h p = cc
  counted_ok (panic m, c) n l h p = cc

  -- If the key index opens for reading, has its table of stems, and the table can be listed, then a
  -- count that the command prints is the number of the table's rows.
  pub count_stems-length :
      (db : R.Db) (txn : R.Read) (rows : List (Foreign (Bytes × Bytes))) (n : ℕ)
      → R.begin_read db ≡ done txn
      → R.read_stems txn ≡ done (some tt)
      → R.iter_stems txn ≡ done rows
      → count_stems db ≡ ok n
      → n ≡ length rows
  unfolding count_stems for_each_stem visit_table
  count_stems-length db txn rows n p q t h =
      counted_ok (visit_stems R (λ stem r. modify suc) rows 0) n (length rows)
        (Ensures-weaken _ (visit_stems-counts rows 0) (λ _ c k. omega (arith, k)) (λ _ _ _. tt))
        (rw (p, q, t) at h)
