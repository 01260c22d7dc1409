-- ===== src/PirExport/Format.antt =====
-- The header and the entries of a PIR2 file as bytes, and how they are read back.
use ubt_exex.Common.{
  ℕ, zero, suc, ◌+◌, take, ◌^◌, ◌<◌, [], ◌∷◌, ◌++◌, ◌≡◌, refl, sym, ap, ◌∙◌, arith, length, drop,
  length-append,
}
use mathlib.Core.List.{append_assoc}
use ubt_exex.Common.Bytes.{Bytes, to_le_bytes, from_le_bytes, from-to_le_bytes, length-to_le_bytes}
use ubt_exex.Tree.{B256}
use ubt_exex.Index.Codec.{slice}
use ubt_exex.Index.RoundTrip.{take_at, drop_at, slice_at}

-- `*b"PIR2"`
abbrev pub state_magic : Bytes
state_magic = 0x50 ∷ 0x49 ∷ 0x52 ∷ 0x32 ∷ []

abbrev pub state_header_size : ℕ
state_header_size = 64

abbrev pub state_entry_size : ℕ
state_entry_size = 84

pub record StateHeader : Type 0 where
  pub magic : Bytes
  pub version : ℕ
  pub entry_size : ℕ
  pub entry_count : ℕ
  pub block_number : ℕ
  pub chain_id : ℕ
  pub block_hash : Bytes

pub record StorageEntry : Type 0 where
  pub address : Bytes
  pub tree_index : Bytes
  pub value : Bytes

-- `StateHeader::new`
unfoldable pub new_header : ℕ → ℕ → ℕ → B256 → StateHeader
new_header entry_count block_number chain_id block_hash = record {
  magic = state_magic;
  version = 1;
  entry_size = state_entry_size;
  entry_count = entry_count;
  block_number = block_number;
  chain_id = chain_id;
  block_hash = block_hash;
}

-- `StateHeader::to_bytes`
unfoldable pub header_bytes : StateHeader → Bytes
header_bytes h =
    h.magic
    ++ (to_le_bytes 2 h.version
        ++ (to_le_bytes 2 h.entry_size
            ++ (to_le_bytes 8 h.entry_count
                ++ (to_le_bytes 8 h.block_number ++ (to_le_bytes 8 h.chain_id ++ h.block_hash)))))

-- `StorageEntry::to_bytes`
unfoldable pub entry_bytes : StorageEntry → Bytes
entry_bytes e = e.address ++ (e.tree_index ++ e.value)

drop_past : (k n : ℕ) (xs ys : Bytes) → length xs ≡ k → drop (k + n) (xs ++ ys) ≡ drop n ys
drop_past k n [] ys p = rw (← p) (ap (λ m. drop m ys) (omega arith))
drop_past zero n (x ∷ xs) ys p = absurd (omega (arith, p))
drop_past (suc k) n (x ∷ xs) ys p =
    ap (λ m. drop m (x ∷ xs ++ ys)) (next k n) ∙ drop_past k n xs ys (omega (arith, p))
  where
    next : (k n : ℕ) → suc k + n ≡ suc (k + n)
    next k n = omega arith

after :
    (k from n : ℕ) (xs ys : Bytes) → length xs ≡ k → slice (k + from) n (xs ++ ys) ≡ slice from n ys
after k from n xs ys p = ap (take n) (drop_past k from xs ys p)

-- The bytes of a header from an offset on, as a list of fields.
header_fields_lem :
    (a b c d e f g : Bytes)
    → length a ≡ 4
    → length b ≡ 2
    → length c ≡ 2
    → length d ≡ 8
    → length e ≡ 8
    → length f ≡ 8
    → (let h : Bytes = a ++ (b ++ (c ++ (d ++ (e ++ (f ++ g))))) in
        (slice 0 4 h ≡ a)
        × (slice 4 2 h ≡ b)
        × (slice 6 2 h ≡ c)
        × (slice 8 8 h ≡ d)
        × (slice 16 8 h ≡ e)
        × (slice 24 8 h ≡ f)
        × (drop 32 h ≡ g))
header_fields_lem a b c d e f g la lb lc ld le lf =
    let h2 : Bytes = c ++ (d ++ (e ++ (f ++ g))) in
    let h4 : Bytes = e ++ (f ++ g) in
    (
      take_at 4 a _ la,
      slice_at 4 2 a b h2 la lb,
      after 4 2 2 a (b ++ h2) la ∙ slice_at 2 2 b c (d ++ h4) lb lc,
      after 4 4 8 a (b ++ h2) la ∙ after 2 2 8 b h2 lb ∙ slice_at 2 8 c d h4 lc ld,
      after 4 12 8 a (b ++ h2) la
          ∙ after 2 10 8 b h2 lb
          ∙ after 2 8 8 c (d ++ h4) lc
          ∙ slice_at 8 8 d e (f ++ g) ld le,
      after 4 20 8 a (b ++ h2) la
          ∙ after 2 18 8 b h2 lb
          ∙ after 2 16 8 c (d ++ h4) lc
          ∙ after 8 8 8 d h4 ld
          ∙ slice_at 8 8 e f g le lf,
      drop_past 4 28 a (b ++ h2) la
          ∙ drop_past 2 26 b h2 lb
          ∙ drop_past 2 24 c (d ++ h4) lc
          ∙ drop_past 8 16 d h4 ld
          ∙ drop_past 8 8 e (f ++ g) le
          ∙ drop_at 8 f g lf,
    )

-- A header of a count, a block number and a chain of 64 bits and of a hash of 32 bytes: the magic
-- `PIR2` at 0, version 1 at 4, the size 84 of an entry at 6, the count at 8, the block number at
-- 16, the chain at 24, all of them lowest byte first, and the hash from 32 to the end.
pub header_fields :
    (count number chain : ℕ) (hash : B256)
    → count < 2 ^ 64
    → number < 2 ^ 64
    → chain < 2 ^ 64
    → length hash ≡ 32
    → (let h : Bytes = header_bytes (new_header count number chain hash) in
        (slice 0 4 h ≡ 0x50 ∷ 0x49 ∷ 0x52 ∷ 0x32 ∷ [])
        × (slice 4 2 h ≡ 1 ∷ 0 ∷ [])
        × (slice 6 2 h ≡ 84 ∷ 0 ∷ [])
        × (from_le_bytes (slice 8 8 h) ≡ count)
        × (from_le_bytes (slice 16 8 h) ≡ number)
        × (from_le_bytes (slice 24 8 h) ≡ chain)
        × (drop 32 h ≡ hash))
unfolding header_bytes new_header to_le_bytes
header_fields count number chain hash small_count small_number small_chain full =
    let fields =
      header_fields_lem state_magic (to_le_bytes 2 1) (to_le_bytes 2 84) (to_le_bytes 8 count)
        (to_le_bytes 8 number) (to_le_bytes 8 chain) hash refl refl refl
        (length-to_le_bytes 8 count) (length-to_le_bytes 8 number) (length-to_le_bytes 8 chain) in
    (
      fields.0,
      fields.1,
      fields.2,
      ap from_le_bytes fields.3 ∙ from-to_le_bytes 8 count small_count,
      ap from_le_bytes fields.4 ∙ from-to_le_bytes 8 number small_number,
      ap from_le_bytes fields.5 ∙ from-to_le_bytes 8 chain small_chain,
      fields.6,
    )

-- The three fields of an entry, of 20, 32 and 32 bytes, fill its 84 bytes, and a client that cuts
-- the entry at 20 and 52 reads them back.
pub entry_fields :
    (e : StorageEntry)
    → length e.address ≡ 20
    → length e.tree_index ≡ 32
    → length e.value ≡ 32
    → (length (entry_bytes e) ≡ state_entry_size)
      × ((slice 0 20 (entry_bytes e) ≡ e.address)
          × ((slice 20 32 (entry_bytes e) ≡ e.tree_index) × (drop 52 (entry_bytes e) ≡ e.value)))
unfolding entry_bytes
entry_fields e a t v = (
  omega (
    arith,
    length-append e.address (e.tree_index ++ e.value),
    length-append e.tree_index e.value,
  ),
  (
    take_at 20 e.address (e.tree_index ++ e.value) a,
    (
      slice_at 20 32 e.address e.tree_index e.value a t,
      ap (drop 52) (sym (append_assoc e.address e.tree_index e.value))
          ∙ drop_at 52 (e.address ++ e.tree_index) e.value
              (omega (arith, length-append e.address e.tree_index)),
    ),
  ),
)
