-- ===== src/Index/RoundTrip.antt =====
-- The values of the key index's tables, packed and unpacked.
use ubt_exex.Common.{
  ℕ, ◌^◌, ◌<◌, ◌++◌, ◌≡◌, refl, sym, ap, ◌∙◌, arith, length, take, drop, take-append, drop-append,
  length-append, ok, take-length,
}
use mathlib.Core.List.{append_assoc}
use ubt_exex.Common.Bytes.{Bytes, to_le_bytes, from-to_le_bytes, length-to_le_bytes}
use ubt_exex.Tree.{B256}
use ubt_exex.Index.Codec.{pack_value, split_value, pack_head, unpack_head, slice}

pub take_at : (n : ℕ) (xs ys : Bytes) → length xs ≡ n → take n (xs ++ ys) ≡ xs
take_at n xs ys h = rw (← h) (take-append xs ys)

pub drop_at : (n : ℕ) (xs ys : Bytes) → length xs ≡ n → drop n (xs ++ ys) ≡ ys
drop_at n xs ys h = rw (← h) (drop-append xs ys)

-- A packed value of an address of 20 bytes splits into the address and the bitmap.
pub split-pack_value :
    (address bitmap : Bytes)
    → length address ≡ 20
    → split_value (pack_value address bitmap) ≡ ok (address, bitmap)
unfolding split_value pack_value
split-pack_value address bitmap h =
    rw (take_at 20 address bitmap h, drop_at 20 address bitmap h) refl

-- The part of a string behind a prefix.
pub slice_at :
    (from n : ℕ) (xs ys zs : Bytes)
    → length xs ≡ from
    → length ys ≡ n
    → slice from n (xs ++ (ys ++ zs)) ≡ ys
slice_at from n xs ys zs h k = ap (take n) (drop_at from xs (ys ++ zs) h) ∙ take_at n ys zs k

-- A packed head with words of 64 bits and hashes of 32 bytes unpacks into the same fields.
pub unpack-pack_head :
    (n : ℕ) (hash root : B256) (stems : ℕ)
    → n < 2 ^ 64
    → stems < 2 ^ 64
    → length hash ≡ 32
    → length root ≡ 32
    → unpack_head (pack_head n hash root stems)
      ≡ ok (record { block_number = n; block_hash = hash; root = root; stem_count = stems })
unfolding unpack_head pack_head
unpack-pack_head n hash root stems small few h r =
    let a : Bytes = to_le_bytes 8 n in
    let c : Bytes = to_le_bytes 8 stems in
    let first : take 8 (a ++ (hash ++ (root ++ c))) ≡ a =
      take_at 8 a (hash ++ (root ++ c)) (length-to_le_bytes 8 n) in
    let second : slice 8 32 (a ++ (hash ++ (root ++ c))) ≡ hash =
      slice_at 8 32 a hash (root ++ c) (length-to_le_bytes 8 n) h in
    let third : slice 40 32 (a ++ (hash ++ (root ++ c))) ≡ root =
      ap (slice 40 32) (sym (append_assoc a hash (root ++ c)))
      ∙ slice_at 40 32 (a ++ hash) root c
          (omega (arith, length-append a hash, length-to_le_bytes 8 n)) r in
    let fourth : slice 72 8 (a ++ (hash ++ (root ++ c))) ≡ c =
      ap (slice 72 8)
        (sym (append_assoc a hash (root ++ c)) ∙ sym (append_assoc (a ++ hash) root c))
      ∙ ap (take 8) (
          drop_at 72 (a ++ hash ++ root) c (
            omega (
              arith,
              length-append (a ++ hash) root,
              length-append a hash,
              length-to_le_bytes 8 n,
            )))
      ∙ sym (ap (λ k. take k c) (length-to_le_bytes 8 stems))
      ∙ take-length c in
    rw (first, second, third, fourth, from-to_le_bytes 8 n small, from-to_le_bytes 8 stems few)
