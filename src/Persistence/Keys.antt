-- ===== src/Persistence/Keys.antt =====
-- The keys of block deltas in persistence.rs, and those that a pruning collects.
use ubt_exex.Common.{
  ℕ, zero, suc, ◌+◌, ◌*◌, ◌%◌, ◌/◌, ◌<◌, Bool, true, false, List, [], ◌∷◌, ◌++◌, some, none, ◌≡◌,
  refl, ap, sym, ◌∙◌, ◌==◌, list_eq, nat_eq, if◌then◌else◌, Bool-cases, inl, inr, ◌||◌, arith,
  length, ok, eq_of_true, false_of_ne, list_beq_iff, reverse, ne_of_false,
}
use ubt_exex.Common.Assoc.{lookup}
use ubt_exex.Common.Bytes.{Bytes, to_be_bytes, to_le_bytes, from_be_bytes, from-to_be_bytes}
use ubt_exex.Store.{word}
use ubt_exex.Mdbx.Tables.{Rows, remove}
use ubt_exex.Persistence.Deltas.{block_key, push_key}
use ubt_exex.Persistence.Rules.{fold_rows}
use ubt_exex.Persistence.View.{words}

-- A multiple of `256 ^ w`.
unfoldable shift : ℕ → ℕ → ℕ
shift zero q = q
shift (suc w) q = 256 * shift w q

to_le_bytes_more : (w n q : ℕ) → to_le_bytes w (n + shift w q) ≡ to_le_bytes w n
unfolding to_le_bytes shift
to_le_bytes_more zero n q = refl
to_le_bytes_more (suc w) n q = next_byte (shift w q) (to_le_bytes_more w (n / 256) q)
  where
    next_byte :
        (x : ℕ)
        → to_le_bytes w (n / 256 + x) ≡ to_le_bytes w (n / 256)
        → (n + 256 * x) % 256 ∷ to_le_bytes w ((n + 256 * x) / 256)
          ≡ n % 256 ∷ to_le_bytes w (n / 256)
    next_byte x h =
        let low : (n + 256 * x) % 256 ≡ n % 256 = omega arith in
        let high : (n + 256 * x) / 256 ≡ n / 256 + x = omega arith in rw (low, high, h) refl

split_word : (n : ℕ) → n ≡ word n + shift 8 (n / words)
unfolding shift
split_word n = omega arith

-- The key of a block has the low 64 bits of its number.
pub block_key-word : (n : ℕ) → block_key n ≡ block_key (word n)
unfolding to_be_bytes
block_key-word n =
    ap (λ m. reverse (to_le_bytes 8 m)) (split_word n)
    ∙ ap reverse (to_le_bytes_more 8 (word n) (n / words))

pub word_less : (n : ℕ) → word n < words
word_less n = omega arith

pub number_of_key : (n : ℕ) → n < words → from_be_bytes (block_key n) ≡ n
number_of_key n h = from-to_be_bytes 8 n h

key_injective : (n m : ℕ) → n < words → m < words → block_key n ≡ block_key m → n ≡ m
key_injective n m h k p = sym (number_of_key n h) ∙ ap from_be_bytes p ∙ number_of_key m k

-- Two block numbers have the same key exactly if they are the same as numbers of 64 bits.
pub same_key : (n m : ℕ) → m < words → (block_key n == block_key m) ≡ (word n == m)
same_key n m h = elim (Bool-cases (word n == m)) [
  | inl p ↦ rw p (
      (list_beq_iff (block_key n) (block_key m)).1
        (block_key-word n ∙ ap block_key (eq_of_true (word n) m p)))
  | inr p ↦ rw p (
      false_of_ne (block_key n) (block_key m) (λ q.
        ne_of_false (word n) m p
          (key_injective (word n) m (word_less n) h (sym (block_key-word n) ∙ q))))
]

-- Which keys the loop collects.
unfoldable pub picks : (ℕ → Bool) → List (Bytes × Bytes) → List Bytes → List Bytes
picks old [] acc = acc
picks old ((key, _) ∷ l) acc =
    picks old l
      (if length key == 8 then if old (from_be_bytes key) then acc ++ key ∷ [] else acc else acc)

pub fold-picks :
    (old : ℕ → Bool) (l : List (Bytes × Bytes)) (acc : List Bytes)
    → fold_rows (push_key old) l acc ≡ ok (picks old l acc)
unfolding fold_rows push_key picks
fold-picks old [] acc = refl
fold-picks old (row ∷ l) acc = fold-picks old l _

unfoldable pub has : Bytes → List Bytes → Bool
has key [] = false
has key (k ∷ ks) = k == key || has key ks

has-append : (key k : Bytes) (ks : List Bytes) → has key (ks ++ k ∷ []) ≡ (has key ks || k == key)
unfolding has
has-append key k [] = ground arith
has-append key k (x ∷ ks) = ground (arith, has-append key k ks)

same_row :
    (k key : Bytes)
    → (k == key) ≡ true
    → (length k ≡ length key) × (from_be_bytes k ≡ from_be_bytes key)
same_row k key h = (ap length (eq_of_true k key h), ap from_be_bytes (eq_of_true k key h))

-- A key of eight bytes that the table has is collected exactly if its number passes the test.
pub has-picks :
    (old : ℕ → Bool) (key : Bytes) (l : List (Bytes × Bytes)) (acc : List Bytes)
    → length key ≡ 8
    → has key (picks old l acc)
      ≡ (has key acc || (elim (lookup key l) [ none ↦ false | some v ↦ old (from_be_bytes key) ]))
unfolding picks lookup
has-picks old key [] acc h = ground arith
has-picks old key ((k, v) ∷ l) acc h = ground (
  arith,
  h,
  has-picks old key l acc h,
  has-picks old key l (acc ++ k ∷ []) h,
  has-append key k acc,
  same_row k key,
)

unfoldable pub without : List Bytes → Rows → Rows
without [] rows = rows
without (key ∷ keys) rows = without keys (remove key rows)

pub without-has :
    (keys : List Bytes) (rows : Rows) (key : Bytes)
    → without keys rows key ≡ (if has key keys then none else rows key)
unfolding without has
without-has [] rows key = refl
without-has (k ∷ keys) rows key = ground (arith, without-has keys (remove k rows) key)
