-- ===== src/Index/Codec.antt =====
-- key_index.rs: the values of its two tables as bytes, and the bitmap of a stem's subindices,
-- which `iter_bitmap_subindices` of pir_export.rs reads.
use ubt_exex.Common.{
  ℕ, zero, suc, ◌/◌, ◌%◌, ◌^◌, bit_and, bit_or, Bool, not, List, [], ◌∷◌, ◌++◌, nat_eq, ◌==◌,
  list_eq, if◌then◌else◌, get_or, set, take, drop, Result, ok,
}
use ubt_exex.Common.Bytes.{Bytes, to_le_bytes, from_le_bytes}
use ubt_exex.Tree.{B256, Address}

pub record HeadRecord : Type 0 where
  pub block_number : ℕ
  pub block_hash : B256
  pub root : B256
  pub stem_count : ℕ

unfoldable pub set_bit : Bytes → ℕ → Bytes
set_bit bitmap subindex =
    set bitmap (subindex / 8) (bit_or (get_or bitmap (subindex / 8) 0) (2 ^ (subindex % 8)))

-- The test of `iter_bitmap_subindices`.
unfoldable pub has_bit : Bytes → ℕ → Bool
has_bit bitmap idx = not (bit_and (get_or bitmap (idx / 8) 0) (2 ^ (idx % 8)) == 0)

-- The subindices from `idx` on, `n` of them, whose bit is set.
unfoldable pub subindices_from : ℕ → ℕ → Bytes → List ℕ
unfolding has_bit
subindices_from zero idx bitmap = []
subindices_from (suc n) idx bitmap =
    let rest = subindices_from n (suc idx) bitmap in if has_bit bitmap idx then idx ∷ rest else rest

unfoldable pub iter_bitmap_subindices : Bytes → List ℕ
unfolding subindices_from
iter_bitmap_subindices bitmap = subindices_from 256 0 bitmap

-- `merged_bitmap[i] |= existing_bitmap[i]` for every byte.
unfoldable pub merge_bitmaps : Bytes → Bytes → Bytes
merge_bitmaps [] ys = []
merge_bitmaps (x ∷ xs) [] = x ∷ xs
merge_bitmaps (x ∷ xs) (y ∷ ys) = bit_or x y ∷ merge_bitmaps xs ys

unfoldable pub pack_value : Address → Bytes → Bytes
pack_value address bitmap = address ++ bitmap

unfoldable pub split_value : Bytes → Result (Address × Bytes)
split_value bytes = ok (take 20 bytes, drop 20 bytes)

unfoldable pub pack_head : ℕ → B256 → B256 → ℕ → Bytes
pack_head block_number block_hash root stem_count =
    to_le_bytes 8 block_number ++ (block_hash ++ (root ++ to_le_bytes 8 stem_count))

-- `bytes[from..from + n]`
abbrev pub slice : ℕ → ℕ → Bytes → Bytes
slice from n bytes = take n (drop from bytes)

unfoldable pub unpack_head : Bytes → Result HeadRecord
unpack_head bytes = ok (record {
  block_number = from_le_bytes (slice 0 8 bytes);
  block_hash = slice 8 32 bytes;
  root = slice 40 32 bytes;
  stem_count = from_le_bytes (slice 72 8 bytes);
})
