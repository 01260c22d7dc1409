-- ===== src/Index/Bits.antt =====
-- The bitmap of a stem: marking, merging, and the subindices that an export reads back.
use ubt_exex.Common.{
  ℕ, zero, suc, ◌+◌, ◌*◌, ◌/◌, ◌%◌, ◌^◌, ◌<◌, ◌≤◌, bit_or, Bool, false, not, ◌||◌, List, [], ◌∷◌,
  ◌≡◌, refl, ap, ◌∙◌, arith, nat_eq, ◌==◌, if◌then◌else◌, length, get_or, set, ◌&&◌, leb, ltb,
  Bool-cases, inl, inr, eq_of_true,
}
use Prim.Native.Nat.{bit_or-bitwise}
use native.Mathlib.Nat.{pow-suc}
use ubt_exex.Common.Bytes.{Bytes}
use ubt_exex.Common.Bits.{digit, digit-or, digit-pow, and-pow, digit-bound}
use ubt_exex.Index.Codec.{set_bit, has_bit, subindices_from, iter_bitmap_subindices, merge_bitmaps}

pub contains : ℕ → List ℕ → Bool
contains i [] = false
contains i (j ∷ js) = (i == j) || contains i js

-- A power of two is not zero.
pub pow-pos : (i : ℕ) → 1 ≤ 2 ^ i
pow-pos zero = omega arith
pow-pos (suc i) = omega (arith, pow-suc 2 i, pow-pos i)

pub has_bit-digit :
    (bitmap : Bytes) (j : ℕ) → has_bit bitmap j ≡ (digit (j % 8) (get_or bitmap (j / 8) 0) == 1)
unfolding has_bit
has_bit-digit bitmap j =
    by_digit (digit (j % 8) (get_or bitmap (j / 8) 0)) (2 ^ (j % 8)) _ (digit-bound (j % 8) _)
      (pow-pos (j % 8)) (and-pow (j % 8) (get_or bitmap (j / 8) 0))
  where
    by_digit : (d p x : ℕ) → d < 2 → 1 ≤ p → x ≡ d * p → not (x == 0) ≡ (d == 1)
    by_digit zero p x h k q = ground arith
    by_digit (suc zero) p x h k q = ground arith
    by_digit (suc (suc d)) p x h k q = absurd (omega arith)

get_or-set :
    (xs : Bytes) (i j v : ℕ)
    → i < length xs
    → get_or (set xs i v) j 0 ≡ (if i == j then v else get_or xs j 0)
get_or-set [] i j v h = absurd (omega arith)
get_or-set (x ∷ xs) zero zero v h = refl
get_or-set (x ∷ xs) zero (suc j) v h = ground arith
get_or-set (x ∷ xs) (suc i) zero v h = ground arith
get_or-set (x ∷ xs) (suc i) (suc j) v h = ground (arith, get_or-set xs i j v)

-- Marking a subindex sets its bit and no other.
pub has_bit-set_bit :
    (bitmap : Bytes) (i j : ℕ)
    → length bitmap ≡ 32
    → i < 256
    → has_bit (set_bit bitmap i) j ≡ ((i == j) || has_bit bitmap j)
unfolding set_bit
has_bit-set_bit bitmap i j full small =
    has_bit-digit _ j
    ∙ ap (λ b. digit (j % 8) b == 1) (get_or-set bitmap (i / 8) (j / 8) _ (omega arith))
    ∙ elim (Bool-cases (i / 8 == j / 8)) [
      | inl same ↦ ground (
        arith,
        has_bit-digit bitmap j,
        digit-or (j % 8) (get_or bitmap (i / 8) 0) (2 ^ (i % 8)),
        digit-pow (i % 8) (j % 8),
        digit-bound (j % 8) (get_or bitmap (j / 8) 0),
        ap (λ b. digit (j % 8) (get_or bitmap b 0)) (eq_of_true (i / 8) (j / 8) same),
      )
      | inr apart ↦ ground (arith, has_bit-digit bitmap j)
    ]

get_or-merge :
    (a b : Bytes) (k : ℕ)
    → length a ≡ length b
    → get_or (merge_bitmaps a b) k 0 ≡ bit_or (get_or a k 0) (get_or b k 0)
unfolding merge_bitmaps
get_or-merge [] [] k same = omega (arith, bit_or-bitwise 0 0)
get_or-merge [] (y ∷ b) k same = absurd (omega arith)
get_or-merge (x ∷ a) [] k same = absurd (omega arith)
get_or-merge (x ∷ a) (y ∷ b) zero same = refl
get_or-merge (x ∷ a) (y ∷ b) (suc k) same = get_or-merge a b k (omega arith)

pub length-merge_bitmaps : (a b : Bytes) → length (merge_bitmaps a b) ≡ length a
unfolding merge_bitmaps
length-merge_bitmaps [] b = refl
length-merge_bitmaps (x ∷ a) [] = refl
length-merge_bitmaps (x ∷ a) (y ∷ b) = ap suc (length-merge_bitmaps a b)

-- Merging keeps the bits of both.
pub has_bit-merge_bitmaps :
    (a b : Bytes) (j : ℕ)
    → length a ≡ length b
    → has_bit (merge_bitmaps a b) j ≡ (has_bit a j || has_bit b j)
has_bit-merge_bitmaps a b j same =
    has_bit-digit _ j
    ∙ ap (λ x. digit (j % 8) x == 1) (get_or-merge a b (j / 8) same)
    ∙ ground (
      arith,
      has_bit-digit a j,
      has_bit-digit b j,
      digit-or (j % 8) (get_or a (j / 8) 0) (get_or b (j / 8) 0),
      digit-bound (j % 8) (get_or a (j / 8) 0),
      digit-bound (j % 8) (get_or b (j / 8) 0),
    )

contains-subindices_from :
    (n idx : ℕ) (bitmap : Bytes) (j : ℕ)
    → contains j (subindices_from n idx bitmap) ≡ (leb idx j && ltb j (idx + n) && has_bit bitmap j)
unfolding subindices_from contains
contains-subindices_from zero idx bitmap j = ground arith
contains-subindices_from (suc n) idx bitmap j = elim (Bool-cases (idx == j)) [
  | inl here ↦ ground (
    arith,
    contains-subindices_from n (suc idx) bitmap j,
    ap (has_bit bitmap) (eq_of_true idx j here),
  )
  | inr there ↦ ground (arith, contains-subindices_from n (suc idx) bitmap j)
]

-- The export reads back the subindices below 256 whose bit is set.
contains-iter :
    (bitmap : Bytes) (j : ℕ)
    → contains j (iter_bitmap_subindices bitmap) ≡ (ltb j 256 && has_bit bitmap j)
unfolding iter_bitmap_subindices
contains-iter bitmap j = ground (arith, contains-subindices_from 256 0 bitmap j)

-- After a subindex of a 32-byte bitmap is marked, an export finds it, and every other one that it
-- found before.
pub iter-set_bit :
    (bitmap : Bytes) (i j : ℕ)
    → length bitmap ≡ 32
    → i < 256
    → contains j (iter_bitmap_subindices (set_bit bitmap i))
      ≡ ((i == j) || contains j (iter_bitmap_subindices bitmap))
iter-set_bit bitmap i j full small = ground (
  arith,
  contains-iter (set_bit bitmap i) j,
  contains-iter bitmap j,
  has_bit-set_bit bitmap i j full small,
)

-- After two bitmaps of one length are merged, an export finds the subindices of both.
pub iter-merge_bitmaps :
    (a b : Bytes) (j : ℕ)
    → length a ≡ length b
    → contains j (iter_bitmap_subindices (merge_bitmaps a b))
      ≡ (contains j (iter_bitmap_subindices a) || contains j (iter_bitmap_subindices b))
iter-merge_bitmaps a b j same = ground (
  arith,
  contains-iter (merge_bitmaps a b) j,
  contains-iter a j,
  contains-iter b j,
  has_bit-merge_bitmaps a b j same,
)
