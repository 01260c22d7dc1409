-- ===== src/Rpc.antt =====
-- `ensure_nomt_synced` and `get_root` of src/rpc.rs. Opening the two stores is a parameter, with its
-- outcome.
pub mod Handlers
use ubt_exex.Common.{
  ℕ, ◌<◌, ◌^◌, Option, none, some, [], ◌∷◌, ◌≡◌, refl, ◌↔◌, length, arith, list_eq, nat_eq, ◌==◌,
  if◌then◌else◌, Result, ok, err, UbtError, mdbx_error, just, text, number, ok_or, database, mdbx,
  Foreign, done, failed, map_err, ◌>>=◌,
}
use ubt_exex.Common.Bytes.{Bytes, from_be_bytes, to_be_bytes, from-to_be_bytes, length-to_be_bytes}
use ubt_exex.Tree.{B256}
use ubt_exex.Index.{Nomt}
use ubt_exex.Index.Codec.{HeadRecord}
use ubt_exex.Index.Table.{Redb, load_head}
use ubt_exex.Exex.Commit.{nomt_head_key}
use ubt_exex.PirExport.Nomt.{no_head}

-- A key that is absent, or cannot be read, counts as block 0.
unfoldable pub nomt_head : Foreign (Option Bytes) → Result ℕ
nomt_head (done (some val)) =
    if length val == 8 then ok (from_be_bytes val) else mdbx_error (just "Invalid NOMT head value")
nomt_head (done none) = ok 0
nomt_head (failed e) = ok 0

abbrev pub heads_differ : ℕ → ℕ → UbtError
heads_differ nomt_head key_index_head = database (
    mdbx (
      text "NOMT head "
      ∷ number nomt_head
      ∷ text " does not match key index head "
      ∷ number key_index_head
      ∷ []))

unfoldable pub compare_heads : ℕ → ℕ → Result (Unit {0})
compare_heads nomt_head key_index_head =
    if nomt_head == key_index_head then ok tt else err (heads_differ nomt_head key_index_head)

-- `GetRootResult`
pub record GetRootResult : Type 0 where
  pub block_number : ℕ
  pub block_hash : B256
  pub root : B256
  pub stem_count : ℕ

module _ (N : Nomt) (R : Redb) where
  unfoldable pub ensure_nomt_synced : Foreign N.State → Result R.Db → Result (Unit {0})
  unfolding nomt_head compare_heads
  ensure_nomt_synced open_nomt open_index = do
    nomt ← map_err open_nomt
    head ← nomt_head (N.read nomt_head_key nomt)
    db ← open_index
    stored ← load_head R db
    index_head ← no_head stored
    compare_heads head index_head.block_number

  -- The error of a request keeps the text of the error it came from; here it is the error itself.
  pub get_root : Result R.Db → Result GetRootResult
  get_root open_index = do
    db ← open_index
    stored ← load_head R db
    head ← ok_or stored (database (mdbx (just "No canonical state yet")))
    ok (record {
      block_number = head.block_number;
      block_hash = head.block_hash;
      root = head.root;
      stem_count = head.stem_count;
    })

  pub synced-compare_heads :
      (nomt : N.State) (db : R.Db) (n : ℕ) (h : HeadRecord)
      → n < 256 ^ 8
      → N.read nomt_head_key nomt ≡ done (some (to_be_bytes 8 n))
      → load_head R db ≡ ok (some h)
      → ensure_nomt_synced (done nomt) (ok db) ≡ compare_heads n h.block_number
  unfolding ensure_nomt_synced nomt_head
  synced-compare_heads nomt db n h small at_nomt at_index =
      rw (at_nomt, length-to_be_bytes 8 n, from-to_be_bytes 8 n small, at_index) refl

  compared : (n m : ℕ) → (compare_heads n m ≡ ok tt) ↔ (n ≡ m)
  unfolding compare_heads
  compared n m = (λ p. ground arith, λ p. ground arith)

  -- Where both stores open, NOMT holds the eight bytes of a block number, and the key index has a
  -- head: requests are let through exactly if the two block numbers are the same.
  pub ensure_nomt_synced_lem :
      (nomt : N.State) (db : R.Db) (n : ℕ) (h : HeadRecord)
      → n < 256 ^ 8
      → N.read nomt_head_key nomt ≡ done (some (to_be_bytes 8 n))
      → load_head R db ≡ ok (some h)
      → (ensure_nomt_synced (done nomt) (ok db) ≡ ok tt) ↔ (n ≡ h.block_number)
  ensure_nomt_synced_lem nomt db n h small at_nomt at_index =
      rw (synced-compare_heads nomt db n h small at_nomt at_index) (compared n h.block_number)
