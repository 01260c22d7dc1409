-- ===== src/Persistence/RoundTrip.antt =====
-- Saving and loading over persistence.rs.
use ubt_exex.Common.{
  ℕ, Bool, true, false, List, [], some, none, Option, ◌≡◌, refl, ap, sym, ◌∙◌, ◌==◌, nat_eq,
  if◌then◌else◌, ok, ltb, unwrap_or,
}
use ubt_exex.Common.Exec.{Answers-ok, Ensures-ok}
use ubt_exex.Tree.{Ubt, Delta}
use ubt_exex.Store.{UbtHead, word}
use ubt_exex.Mdbx.{Ffi}
use ubt_exex.Mdbx.Tables.{IsFfi}
use ubt_exex.Persistence.{Bincode}
use ubt_exex.Persistence.Head.{load_head, save_head}
use ubt_exex.Persistence.Deltas.{save_block_deltas, load_block_deltas, prune_deltas_before}
use ubt_exex.Persistence.Writes.{IsBincode, view, load_head-reads, save_head-Changes}
use ubt_exex.Persistence.Blocks.{
  load_block_deltas-reads, save_block_deltas-Changes, prune_deltas_before-Changes,
}

listed_if :
    (b : Bool) (l : List Delta) (o : Option (List Delta))
    → unwrap_or (if b then some l else o) [] ≡ (if b then l else unwrap_or o [])
listed_if true l o = refl
listed_if false l o = refl

empty_if :
    (b : Bool) (o : Option (List Delta))
    → unwrap_or (if b then none else o) [] ≡ (if b then [] else unwrap_or o [])
empty_if true o = refl
empty_if false o = refl

module _ {U : Ubt} (M : Ffi) (laws : IsFfi M) (B : Bincode U) (codecs : IsBincode B) where
  open M use {Env}

  -- A head that `save_head` has saved is the one that `load_head` loads, if both return.
  pub load_head-save_head :
      (h : UbtHead) (e e' : Env) (o : Option UbtHead)
      → save_head M B h e ≡ (ok tt, e')
      → load_head M B e' ≡ ok o
      → o ≡ some h
  load_head-save_head h e e' o p q =
      Answers-ok (load_head M B e') (load_head-reads M laws B codecs e') q
      ∙ ap (λ c. c.head) (Ensures-ok _ (save_head-Changes M laws B codecs h e) p)

  loaded :
      (m : ℕ) (e : Env) (l : List Delta)
      → load_block_deltas M B m e ≡ ok l
      → l ≡ unwrap_or ((view M laws B codecs e).deltas (word m)) []
  loaded m e l p =
      Answers-ok (load_block_deltas M B m e) (load_block_deltas-reads M laws B codecs m e) p

  -- After `save_block_deltas` for block `n`, `load_block_deltas` gives the saved deltas for each
  -- block with the same 64 bits, and for every other block what it gave before, where all three
  -- return.
  pub load-save_block_deltas :
      (n m : ℕ) (l before after : List Delta) (e e' : Env)
      → save_block_deltas M B n l e ≡ (ok tt, e')
      → load_block_deltas M B m e ≡ ok before
      → load_block_deltas M B m e' ≡ ok after
      → after ≡ (if word n == word m then l else before)
  load-save_block_deltas n m l before after e e' p q r =
      loaded m e' after r
      ∙ ap (λ c. unwrap_or (c.deltas (word m)) [])
          (Ensures-ok _ (save_block_deltas-Changes M laws B codecs n l e) p)
      ∙ listed_if (word n == word m) l ((view M laws B codecs e).deltas (word m))
      ∙ ap (λ x. if word n == word m then l else x) (sym (loaded m e before q))

  -- After `prune_deltas_before` block `n`, `load_block_deltas` gives no deltas for a block below
  -- `n`, and for every other block what it gave before, where all three return.
  pub load-prune_deltas_before :
      (n m count : ℕ) (before after : List Delta) (e e' : Env)
      → prune_deltas_before M n e ≡ (ok count, e')
      → load_block_deltas M B m e ≡ ok before
      → load_block_deltas M B m e' ≡ ok after
      → after ≡ (if ltb (word m) n then [] else before)
  load-prune_deltas_before n m count before after e e' p q r =
      loaded m e' after r
      ∙ ap (λ c. unwrap_or (c.deltas (word m)) [])
          (Ensures-ok _ (prune_deltas_before-Changes M laws B codecs n e) p)
      ∙ empty_if (ltb (word m) n) ((view M laws B codecs e).deltas (word m))
      ∙ ap (λ x. if ltb (word m) n then [] else x) (sym (loaded m e before q))
