-- ===== src/Exex/Revert/Ordered.antt =====
-- The numbers of the blocks that `revert` of src/ubt_exex.rs goes through, and the oldest of them.
use ubt_exex.Common.{
  ℕ, ◌+◌, ◌≤◌, ◌<◌, true, false, some, List, [], ◌∷◌, ◌++◌, reverse, ◌≡◌, refl, ap, ◌∙◌, ◌⊎◌, inl,
  inr, arith, leb, nat_eq, ◌==◌, if◌then◌else◌, All, Any, All-weaken, All-append, Bool-cases,
}
use mathlib.Core.List.{reverse-cons}
use ubt_exex.Common.Order.{sort_by, insert_sorted, min_by}
use ubt_exex.Tree.{B256}
use ubt_exex.Exex.Revert.{Blocks, any_persisted, first_reverted}

-- No number stands before a greater one.
abbrev pub Falling : List ℕ → Type 0
Falling [] = Unit {0}
Falling (n ∷ ns) = All (λ m. m ≤ n) ns × Falling ns

abbrev pub Climbing : List ℕ → Type 0
Climbing [] = Unit {0}
Climbing (n ∷ ns) = All (λ m. n ≤ m) ns × Climbing ns

-- How often a number stands in a list.
unfoldable pub count : ℕ → List ℕ → ℕ
count n [] = 0
count n (m ∷ ms) = (if m == n then 1 else 0) + count n ms

count-append : (n : ℕ) (xs ys : List ℕ) → count n (xs ++ ys) ≡ count n xs + count n ys
unfolding count
count-append n [] ys = omega arith
count-append n (x ∷ xs) ys = omega (arith, count-append n xs ys)

pub count-reverse : (n : ℕ) (xs : List ℕ) → count n (reverse xs) ≡ count n xs
unfolding count
count-reverse n [] = refl
count-reverse n (x ∷ xs) =
    ap (count n) (reverse-cons x xs)
    ∙ omega (arith, count-append n (reverse xs) (x ∷ []), count-reverse n xs)

count-insert_sorted : (n x : ℕ) (xs : List ℕ) → count n (insert_sorted leb x xs) ≡ count n (x ∷ xs)
unfolding count insert_sorted
count-insert_sorted n x [] = refl
count-insert_sorted n x (y ∷ xs) = elim (Bool-cases (leb x y)) [
  | inl p ↦ rw p refl
  | inr p ↦ rw p (omega (arith, count-insert_sorted n x xs))
]

pub count-sort_by : (n : ℕ) (xs : List ℕ) → count n (sort_by leb xs) ≡ count n xs
unfolding count sort_by
count-sort_by n [] = refl
count-sort_by n (x ∷ xs) =
    omega (arith, count-insert_sorted n x (sort_by leb xs), count-sort_by n xs)

All-insert_sorted :
    (a x : ℕ) (xs : List ℕ)
    → a ≤ x
    → All (λ m. a ≤ m) xs
    → All (λ m. a ≤ m) (insert_sorted leb x xs)
unfolding insert_sorted
All-insert_sorted a x [] h k = (h, tt)
All-insert_sorted a x (y ∷ xs) h k = elim (Bool-cases (leb x y)) [
  | inl p ↦ rw p (h, k)
  | inr p ↦ rw p (k.0, All-insert_sorted a x xs h k.1)
]

insert_sorted-Climbing : (x : ℕ) (xs : List ℕ) → Climbing xs → Climbing (insert_sorted leb x xs)
unfolding insert_sorted
insert_sorted-Climbing x [] h = (tt, tt)
insert_sorted-Climbing x (y ∷ xs) h = elim (Bool-cases (leb x y)) [
  | inl p ↦ rw p (
      let less : x ≤ y = ground (arith, p) in
      ((less, All-weaken (λ z l. omega (arith, l, less)) xs h.0), h))
  | inr p ↦ rw p (All-insert_sorted y x xs (ground (arith, p)) h.0, insert_sorted-Climbing x xs h.1)
]

pub sort_by-Climbing : (xs : List ℕ) → Climbing (sort_by leb xs)
unfolding sort_by
sort_by-Climbing [] = tt
sort_by-Climbing (x ∷ xs) = insert_sorted-Climbing x (sort_by leb xs) (sort_by-Climbing xs)

All-reverse : (P : ℕ → Type 0) (xs : List ℕ) → All P xs → All P (reverse xs)
All-reverse P [] h = tt
All-reverse P (x ∷ xs) h =
    rw (reverse-cons x xs) (All-append P (reverse xs) (x ∷ []) (All-reverse P xs h.1) (h.0, tt))

append-Falling : (x : ℕ) (xs : List ℕ) → Falling xs → All (λ m. x ≤ m) xs → Falling (xs ++ x ∷ [])
append-Falling x [] h k = (tt, tt)
append-Falling x (y ∷ xs) h k =
    (All-append (λ m. m ≤ y) xs (x ∷ []) h.0 (k.0, tt), append-Falling x xs h.1 k.1)

pub reverse-Falling : (xs : List ℕ) → Climbing xs → Falling (reverse xs)
reverse-Falling [] h = tt
reverse-Falling (x ∷ xs) h =
    rw (reverse-cons x xs)
      (append-Falling x (reverse xs) (reverse-Falling xs h.1) (All-reverse (λ m. x ≤ m) xs h.0))

-- The oldest of some blocks.
pub record Oldest (blocks : Blocks) (b : ℕ × B256) : Type 0 where
  pub among : Any (λ c. c ≡ b) blocks
  pub least : All (λ c. b.0 ≤ c.0) blocks

pub first_reverted-Oldest :
    (blocks : Blocks)
    → (blocks ≡ []) ⊎ ((b : ℕ × B256) × (first_reverted blocks ≡ some b) × Oldest blocks b)
unfolding min_by
first_reverted-Oldest [] = inl refl
first_reverted-Oldest (c ∷ blocks) = inr (by_rest c blocks (first_reverted-Oldest blocks))
  where
    by_rest :
        (c : ℕ × B256) (blocks : Blocks)
        → (blocks ≡ []) ⊎ ((b : ℕ × B256) × (first_reverted blocks ≡ some b) × Oldest blocks b)
        → (b : ℕ × B256) × (first_reverted (c ∷ blocks) ≡ some b) × Oldest (c ∷ blocks) b
    by_rest c blocks (inl p) =
        rw p (c, refl, record { among = inl refl; least = (omega arith, tt) })
    by_rest c blocks (inr (b, p, h)) = elim (Bool-cases (leb c.0 b.0)) [
      | inl q ↦
          let less : c.0 ≤ b.0 = ground (arith, q) in
          (
            c,
            (rw (p, q) refl),
            record {
              among = inl refl;
              least = (omega arith, All-weaken (λ d l. omega (arith, l, less)) blocks h.least);
            },
          )
      | inr q ↦ (
        b,
        (rw (p, q) refl),
        record { among = inr h.among; least = (ground (arith, q), h.least) },
      )
    ]

pub any_persisted-Any :
    (blocks : Blocks) (n : ℕ) → any_persisted blocks n ≡ true → Any (λ b. b.0 ≤ n) blocks
unfolding any_persisted
any_persisted-Any [] n p = absurd (ground (arith, p))
any_persisted-Any ((m, x) ∷ blocks) n p = elim (Bool-cases (leb m n)) [
  | inl q ↦ inl (ground (arith, q))
  | inr q ↦ inr (any_persisted-Any blocks n (ground (arith, p, q)))
]

pub any_persisted-All :
    (blocks : Blocks) (n : ℕ) → any_persisted blocks n ≡ false → All (λ b. n < b.0) blocks
unfolding any_persisted
any_persisted-All [] n p = tt
any_persisted-All ((m, x) ∷ blocks) n p =
    (ground (arith, p), any_persisted-All blocks n (ground (arith, p)))
