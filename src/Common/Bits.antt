-- ===== src/Common/Bits.antt =====
-- `|`, `&` and shifts of one on machine words, by the value of each binary digit.
use Prim.Native.Nat.{
  ℕ, zero, suc, ◌+◌, ◌*◌, ◌/◌, ◌%◌, ◌^◌, ◌≤◌, ◌<◌, min, max, bit_and, bit_or, digits,
  bit_and-bitwise, bit_or-bitwise,
}
use mathlib.Core.Path.{◌≡◌, refl, ap, ◌∙◌, sym}
use native.Mathlib.Omega.{arith}
use native.Mathlib.Nat.{pow-suc, mul_assoc}
use ubt_exex.Common.Tests.{nat_eq, ◌==◌, if◌then◌else◌}

-- The digit of a number at a position.
unfoldable pub digit : ℕ → ℕ → ℕ
digit zero x = x % 2
digit (suc i) x = digit i (x / 2)

pub digit-bound : (i x : ℕ) → digit i x < 2
unfolding digit
digit-bound zero x = omega arith
digit-bound (suc i) x = digit-bound i (x / 2)

pub digit-zero : (i : ℕ) → digit i 0 ≡ 0
unfolding digit
digit-zero zero = refl
digit-zero (suc i) = digit-zero i

-- More digits to go than a number has make no difference.
digits_enough :
    (z : ℕ → ℕ) (f : ℕ → ℕ → ℕ) (n m a b : ℕ) → a ≤ n → a ≤ m → digits z f n a b ≡ digits z f m a b
digits_enough z f zero zero a b p q = refl
digits_enough z f zero (suc m) zero b p q = refl
digits_enough z f zero (suc m) (suc a) b p q = absurd (omega arith)
digits_enough z f (suc n) zero zero b p q = refl
digits_enough z f (suc n) zero (suc a) b p q = absurd (omega arith)
digits_enough z f (suc n) (suc m) zero b p q = refl
digits_enough z f (suc n) (suc m) (suc a) b p q =
    ap (λ r. r * 2 + f (suc a % 2) (b % 2))
      (digits_enough z f n m (suc a / 2) (b / 2) (omega arith) (omega arith))

or_low : (a b : ℕ) → bit_or a b ≡ bit_or (a / 2) (b / 2) * 2 + max (a % 2) (b % 2)
or_low zero b = omega (arith, bit_or-bitwise 0 b, bit_or-bitwise 0 (b / 2))
or_low (suc a) b =
    bit_or-bitwise (suc a) b
    ∙ ap (λ r. r * 2 + max (suc a % 2) (b % 2))
        (digits_enough (λ b. b) max a (suc a / 2) (suc a / 2) (b / 2) (omega arith) (omega arith)
          ∙ sym (bit_or-bitwise (suc a / 2) (b / 2)))

and_low : (a b : ℕ) → bit_and a b ≡ bit_and (a / 2) (b / 2) * 2 + min (a % 2) (b % 2)
and_low zero b = omega (arith, bit_and-bitwise 0 b, bit_and-bitwise 0 (b / 2))
and_low (suc a) b =
    bit_and-bitwise (suc a) b
    ∙ ap (λ r. r * 2 + min (suc a % 2) (b % 2))
        (digits_enough (λ b. 0) min a (suc a / 2) (suc a / 2) (b / 2) (omega arith) (omega arith)
          ∙ sym (bit_and-bitwise (suc a / 2) (b / 2)))

pub digit-or : (i a b : ℕ) → digit i (bit_or a b) ≡ max (digit i a) (digit i b)
unfolding digit
digit-or zero a b = omega (arith, or_low a b)
digit-or (suc i) a b = ap (digit i) (omega (arith, or_low a b)) ∙ digit-or i (a / 2) (b / 2)

and_none : (n a : ℕ) → a ≤ n → bit_and a 0 ≡ 0
and_none n zero h = omega (arith, bit_and-bitwise 0 0)
and_none zero (suc a) h = absurd (omega arith)
and_none (suc n) (suc a) h = omega (arith, and_low (suc a) 0, and_none n (suc a / 2) (omega arith))

-- The test `x & (1 << i)` of the source.
pub and-pow : (i a : ℕ) → bit_and a (2 ^ i) ≡ digit i a * 2 ^ i
unfolding digit
and-pow zero a = omega (arith, and_low a 1, and_none (a / 2) (a / 2) (omega arith))
and-pow (suc i) a =
    let half : 2 ^ suc i / 2 ≡ 2 ^ i = omega (arith, pow-suc 2 i) in
    let low : bit_and a (2 ^ suc i) ≡ bit_and (a / 2) (2 ^ i) * 2 =
      omega (arith, and_low a (2 ^ suc i), pow-suc 2 i, ap (bit_and (a / 2)) half) in
    low
    ∙ ap (λ x. x * 2) (and-pow i (a / 2))
    ∙ mul_assoc (digit i (a / 2)) (2 ^ i) 2
    ∙ ap (λ x. digit i (a / 2) * x) (omega (arith, pow-suc 2 i))

pub digit-pow : (i j : ℕ) → digit j (2 ^ i) ≡ (if i == j then 1 else 0)
unfolding digit
digit-pow zero zero = refl
digit-pow zero (suc j) = digit-zero j ∙ (ground arith)
digit-pow (suc i) zero = ground (arith, pow-suc 2 i)
digit-pow (suc i) (suc j) =
    ap (digit j) (omega (arith, pow-suc 2 i)) ∙ digit-pow i j ∙ (ground arith)
