-- ===== src/Common/Integers.antt =====
-- Signed machine integers: return codes and the sizes of a database.
use Prim.Native.Nat.{ℕ, ◌-◌}
use mathlib.Core.Path.{◌≡◌, refl, ap}
use mathlib.Core.Logic.{◌↔◌}
use mathlib.Core.Bool.{Bool, true, false}
use ubt_exex.Common.Tests.{Eq, nat_eq, ltb, ◌==◌, if◌then◌else◌}

-- `negsuc n` is `-(n + 1)`.
pub data ℤ : Type 0 where
  pos : ℕ → ℤ
  negsuc : ℕ → ℤ

unfoldable pub int_beq : ℤ → ℤ → Bool
int_beq (pos m) (pos n) = m == n
int_beq (pos m) (negsuc n) = false
int_beq (negsuc m) (pos n) = false
int_beq (negsuc m) (negsuc n) = m == n

int_beq→eq : (a b : ℤ) → int_beq a b ≡ true → a ≡ b
unfolding int_beq
int_beq→eq (pos m) (pos n) h = ap pos ((nat_eq.beq_iff m n).0 h)
int_beq→eq (pos m) (negsuc n) h = cc
int_beq→eq (negsuc m) (pos n) h = cc
int_beq→eq (negsuc m) (negsuc n) h = ap negsuc ((nat_eq.beq_iff m n).0 h)

int_beq_self : (a : ℤ) → int_beq a a ≡ true
unfolding int_beq
int_beq_self (pos m) = (nat_eq.beq_iff m m).1 refl
int_beq_self (negsuc m) = (nat_eq.beq_iff m m).1 refl

pub int_beq_iff : (a b : ℤ) → (int_beq a b ≡ true) ↔ (a ≡ b)
int_beq_iff a b = (int_beq→eq a b, λ p. rw (← p) (int_beq_self a))

instance abbrev pub int_eq : Eq ℤ
int_eq = record { beq = int_beq; beq_iff = int_beq_iff }

-- `as i64` of a number of 64 bits.
unfoldable pub as_i64 : ℕ → ℤ
as_i64 n = if ltb n 9223372036854775808 then pos n else negsuc (18446744073709551615 - n)
