-- ===== src/Tests/Files.antt =====
-- The key index and the exported files at concrete values.
use ubt_exex.Tree.{Stem}
use ubt_exex.Index.Table.{PerStem, note_updates}
use ubt_exex.Index.Noted.{Update, bits_in, marked, note_updates-marked}
use ubt_exex.Common.{
  ℕ, none, ◌≤◌, ◌-◌, ◌||◌, true, Option, some, List, [], ◌∷◌, ◌≡◌, refl, ◌↔◌, replicate, length,
  drop, ok, Foreign, done, failed, String, arith, list_eq, nat_eq,
}
use ubt_exex.Common.Assoc.{lookup}
use ubt_exex.Common.Bytes.{Bytes, from_le_bytes}
use ubt_exex.Tree.{tree_key}
use ubt_exex.Index.{IsIndex}
use ubt_exex.Index.Codec.{
  iter_bitmap_subindices, set_bit, merge_bitmaps, pack_value, split_value, pack_head, unpack_head,
  slice,
}
use ubt_exex.Index.Bits.{contains, iter-set_bit, iter-merge_bitmaps}
use ubt_exex.Index.RoundTrip.{split-pack_value, unpack-pack_head}
use ubt_exex.Index.Table.{Redb}
use ubt_exex.Index.Refine.{IsRedb, key_index, key_index-IsIndex}
use ubt_exex.PirExport.Format.{
  StorageEntry, entry_bytes, new_header, header_bytes, header_fields, entry_fields,
  state_entry_size,
}
use ubt_exex.PirExport.Delta.{check_window, has_key, touch}
use ubt_exex.PirExport.Window.{check_window_lem, has_key-touch, names}

-- A redb database of two tables in memory, where a transaction is a copy.
abbrev pub Tables : Type 0
Tables = List (Bytes × Bytes) × Option Bytes

abbrev pub memory_redb : Redb
memory_redb = record {
  Db = Tables;
  Write = Tables;
  Read = Tables;
  begin_write = λ d. done d;
  open_stems = λ t. done tt;
  open_meta = λ t. done tt;
  get_stem = λ k t. done (lookup k t.0);
  insert_stem = λ k v t. done ((k, v) ∷ t.0, t.1);
  insert_head = λ v t. done (t.0, some v);
  commit = λ t d. (done tt, t);
  begin_read = λ d. done d;
  read_meta = λ t. done (some tt);
  read_head = λ t. done t.1;
  read_stems = λ t. done (some tt);
  iter_stems = λ t. done [];
}

pub done-never_failed : (e : String) → (let r : Foreign (Unit {0}) = done tt in r) ≡ failed e → ⊥
done-never_failed e p = ground arith

pub value_seen :
    (d r : Tables) (o : Option Bytes)
    → (let f : Foreign Tables = done d in f) ≡ done r
    → (let f : Foreign (Option Bytes) = done r.1 in f) ≡ done o
    → o ≡ d.1
value_seen d r o p q = cc

pub table_there : (let f : Foreign (Option (Unit {0})) = done (some tt) in f) ≡ done none → ⊥
table_there q = cc

abbrev pub memory_redb-IsRedb : IsRedb memory_redb
memory_redb-IsRedb = record {
  head_of = λ d. d.1;
  head_in = λ t. t.1;
  begin_write_head = λ d. refl;
  insert_stem_head = λ k v t. refl;
  insert_head_head = λ v t. refl;
  commit_head = λ t d. refl;
  commit_failed = λ t d e p. absurd (done-never_failed e p);
  read_head_of = λ d r o p q. value_seen d r o p q;
  no_meta = λ d r p q. absurd (table_there q);
}

key_index-IsIndex_example : IsIndex (key_index memory_redb memory_redb-IsRedb)
key_index-IsIndex_example = key_index-IsIndex memory_redb memory_redb-IsRedb

iter-set_bit_example :
    contains 77 (iter_bitmap_subindices (set_bit (replicate 32 0) 77))
    ≡ (true || contains 77 (iter_bitmap_subindices (replicate 32 0)))
iter-set_bit_example = iter-set_bit (replicate 32 0) 77 77 refl (omega arith)

iter-merge_bitmaps_example :
    contains 3 (iter_bitmap_subindices (merge_bitmaps (replicate 32 1) (replicate 32 8))) ≡ (
      contains 3 (iter_bitmap_subindices (replicate 32 1))
      || contains 3 (iter_bitmap_subindices (replicate 32 8)))
iter-merge_bitmaps_example = iter-merge_bitmaps (replicate 32 1) (replicate 32 8) 3 refl

split-pack_value_example :
    split_value (pack_value (replicate 20 1) (replicate 32 2)) ≡ ok (replicate 20 1, replicate 32 2)
split-pack_value_example = split-pack_value (replicate 20 1) (replicate 32 2) refl

unpack-pack_head_example :
    unpack_head (pack_head 258 (replicate 32 1) (replicate 32 2) 3)
    ≡ ok (record {
      block_number = 258;
      block_hash = replicate 32 1;
      root = replicate 32 2;
      stem_count = 3;
    })
unpack-pack_head_example =
    unpack-pack_head 258 (replicate 32 1) (replicate 32 2) 3 (omega arith) (omega arith) refl refl

header_fields_example :
    (let h : Bytes = header_bytes (new_header 300 5 1 (replicate 32 7)) in
      (slice 0 4 h ≡ 0x50 ∷ 0x49 ∷ 0x52 ∷ 0x32 ∷ [])
      × (slice 4 2 h ≡ 1 ∷ 0 ∷ [])
      × (slice 6 2 h ≡ 84 ∷ 0 ∷ [])
      × (from_le_bytes (slice 8 8 h) ≡ 300)
      × (from_le_bytes (slice 16 8 h) ≡ 5)
      × (from_le_bytes (slice 24 8 h) ≡ 1)
      × (drop 32 h ≡ replicate 32 7))
header_fields_example =
    header_fields 300 5 1 (replicate 32 7) (omega arith) (omega arith) (omega arith) refl

abbrev entry1 : StorageEntry
entry1 = record { address = replicate 20 1; tree_index = replicate 32 2; value = replicate 32 3 }

entry_fields_example :
    (length (entry_bytes entry1) ≡ state_entry_size)
    × ((slice 0 20 (entry_bytes entry1) ≡ replicate 20 1)
        × ((slice 20 32 (entry_bytes entry1) ≡ replicate 32 2)
            × (drop 52 (entry_bytes entry1) ≡ replicate 32 3)))
entry_fields_example = entry_fields entry1 refl refl refl

check_window_lem_example : (check_window 3 5 5 2 ≡ ok tt) ↔ ((3 ≤ 5) × ((5 ≤ 5) × (5 - 2 ≤ 3)))
check_window_lem_example = check_window_lem 3 5 5 2

has_key-touch_example :
    has_key (tree_key [] 1) (touch (([], 1, []) ∷ []) [])
    ≡ (has_key (tree_key [] 1) [] || names (tree_key [] 1) (([], 1, []) ∷ []))
has_key-touch_example = has_key-touch (tree_key [] 1) (([], 1, []) ∷ []) []

-- Two updates of one stem and one of another, each owned by its address.
abbrev updates3 : List Update
updates3 = (3 ∷ [], 7, 3 ∷ []) ∷ (4 ∷ [], 1, 4 ∷ []) ∷ (3 ∷ [], 200, 3 ∷ []) ∷ []

note_updates-marked_example :
    (m : PerStem) × ((note_updates updates3 [] ≡ ok m)
      × ((stem : Stem) (j : ℕ) → bits_in (lookup stem m) j ≡ marked updates3 stem j))
note_updates-marked_example =
    note_updates-marked (λ s. s) updates3
      ((omega arith, refl), ((omega arith, refl), ((omega arith, refl), tt)))
