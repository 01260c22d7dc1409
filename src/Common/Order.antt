-- ===== src/Common/Order.antt =====
-- `sort`, `sort_by` and `min_by_key` of the standard library on the orders in use: numbers, and
-- byte strings compared lexicographically.
use Prim.Native.Nat.{ℕ, ◌<◌}
use mathlib.Core.Path.{◌≡◌, refl, ◌∙◌}
use native.Mathlib.Omega.{arith}
use ubt_exex.Common.Lists.{length, All, All-weaken}
use mathlib.Core.Bool.{Bool, true, false, ◌||◌}
use mathlib.Core.Option.{Option, none, some}
use mathlib.Core.List.{List, [], ◌∷◌, ◌++◌}
use ubt_exex.Common.Tests.{ltb, leb, ◌==◌, nat_eq, if◌then◌else◌, Bool-cases}
use mathlib.Core.Logic.{inl, inr}
use ubt_exex.Common.Bytes.{Bytes}

-- `a <= b` for byte slices.
unfoldable pub bytes_leb : Bytes → Bytes → Bool
bytes_leb [] ys = true
bytes_leb (x ∷ xs) [] = false
bytes_leb (x ∷ xs) (y ∷ ys) = if ltb x y then true else if x == y then bytes_leb xs ys else false

module _ {ℓ} {A : Type ℓ} (le : A → A → Bool) where
  unfoldable pub insert_sorted : A → List A → List A
  insert_sorted x [] = x ∷ []
  insert_sorted x (y ∷ ys) = if le x y then x ∷ y ∷ ys else y ∷ insert_sorted x ys

  -- A stable sort: elements that compare equal keep their order.
  unfoldable pub sort_by : List A → List A
  unfolding insert_sorted
  sort_by [] = []
  sort_by (x ∷ xs) = insert_sorted x (sort_by xs)

  -- The first of the least elements.
  unfoldable pub min_by : List A → Option A
  min_by [] = none
  min_by (x ∷ xs) = elim (min_by xs) [ none ↦ some x | some y ↦ if le x y then some x else some y ]

pub bytes_leb_refl : (xs : Bytes) → bytes_leb xs xs ≡ true
unfolding bytes_leb
bytes_leb_refl [] = refl
bytes_leb_refl (x ∷ xs) = ground (arith, bytes_leb_refl xs)

-- A key before another of the same length stays before it, whatever follows.
pub bytes_leb-append :
    (xs ys : Bytes) (x y : Bytes)
    → length xs ≡ length ys
    → bytes_leb ys xs ≡ false
    → bytes_leb (ys ++ y) (xs ++ x) ≡ false
unfolding bytes_leb
bytes_leb-append [] [] x y p h = cc
bytes_leb-append [] (b ∷ ys) x y p h = ground (arith, p)
bytes_leb-append (a ∷ xs) [] x y p h = ground (arith, p)
bytes_leb-append (a ∷ xs) (b ∷ ys) x y p h = ground (arith, p, h, bytes_leb-append xs ys x y)

pub bytes_leb-last :
    (xs : Bytes) (i j : ℕ) → i < j → bytes_leb (xs ++ j ∷ []) (xs ++ i ∷ []) ≡ false
unfolding bytes_leb
bytes_leb-last [] i j h = ground (arith, h)
bytes_leb-last (x ∷ xs) i j h = ground (arith, bytes_leb-last xs i j h)

unfoldable pub mem : ℕ → List ℕ → Bool
mem i [] = false
mem i (j ∷ js) = j == i || mem i js

mem-insert_sorted : (i x : ℕ) (xs : List ℕ) → mem i (insert_sorted leb x xs) ≡ (x == i || mem i xs)
unfolding mem insert_sorted
mem-insert_sorted i x [] = refl
mem-insert_sorted i x (y ∷ xs) = ground (arith, mem-insert_sorted i x xs)

pub mem-sort_by : (i : ℕ) (xs : List ℕ) → mem i (sort_by leb xs) ≡ mem i xs
unfolding mem sort_by
mem-sort_by i [] = refl
mem-sort_by i (x ∷ xs) = ground (arith, mem-sort_by i xs, mem-insert_sorted i x (sort_by leb xs))

-- Each number stands once, and in order.
abbrev pub NoRepeats : List ℕ → Type 0
NoRepeats [] = Unit {0}
NoRepeats (x ∷ xs) = (mem x xs ≡ false) × NoRepeats xs

abbrev pub Rising : List ℕ → Type 0
Rising [] = Unit {0}
Rising (x ∷ xs) = All (λ y. x < y) xs × Rising xs

All-insert_sorted :
    (a x : ℕ) (xs : List ℕ)
    → a < x
    → All (λ y. a < y) xs
    → All (λ y. a < y) (insert_sorted leb x xs)
unfolding insert_sorted
All-insert_sorted a x [] h k = (h, tt)
All-insert_sorted a x (y ∷ xs) h k = elim (Bool-cases (leb x y)) [
  | inl p ↦ rw p (h, k)
  | inr p ↦ rw p (k.0, All-insert_sorted a x xs h k.1)
]

insert_sorted-Rising :
    (x : ℕ) (xs : List ℕ) → mem x xs ≡ false → Rising xs → Rising (insert_sorted leb x xs)
unfolding insert_sorted mem
insert_sorted-Rising x [] h k = (tt, tt)
insert_sorted-Rising x (y ∷ xs) h k = elim (Bool-cases (leb x y)) [
  | inl p ↦ rw p (
      let less : x < y = ground (arith, p, h) in
      ((less, All-weaken (λ z l. omega (arith, l, less)) xs k.0), k))
  | inr p ↦ rw p (
    All-insert_sorted y x xs (ground (arith, p)) k.0,
    insert_sorted-Rising x xs (ground (arith, h)) k.1,
  )
]

pub sort_by-Rising : (xs : List ℕ) → NoRepeats xs → Rising (sort_by leb xs)
unfolding sort_by
sort_by-Rising [] h = tt
sort_by-Rising (x ∷ xs) h =
    insert_sorted-Rising x (sort_by leb xs) (mem-sort_by x xs ∙ h.0) (sort_by-Rising xs h.1)
