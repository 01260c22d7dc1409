-- ===== src/Exex/Root.antt =====
-- The listing of the entries that `compute_root_from_db` reads.
use ubt_exex.Common.{
  true, false, Option, none, some, List, [], ◌∷◌, ◌≡◌, ◌≢◌, refl, sym, ◌∙◌, arith, All, nat_eq,
  ◌==◌, Bool-cases, inl, inr, eq_refl, eq_of_true, ne_of_false, false_of_ne,
}
use mathlib.Core.Path.{subst}
use ubt_exex.Common.Assoc.{lookup}
use ubt_exex.Common.Bytes.{Bytes}
use ubt_exex.Common.Order.{bytes_leb}
use ubt_exex.Tree.{TreeKey, B256, tree_key_eq, key_bytes, Ubt, Stem}
use ubt_exex.Store.{Before, IsSorted, IsListing}

bytes_leb_total : (a b : Bytes) → bytes_leb a b ≡ false → bytes_leb b a ≡ true
unfolding bytes_leb
bytes_leb_total [] b h = cc
bytes_leb_total (x ∷ a) [] h = refl
bytes_leb_total (x ∷ a) (y ∷ b) h = ground (arith, bytes_leb_total a b)

Before-asymm : (a b : TreeKey) → Before a b → ¬ Before b a
Before-asymm a b h k = cc (bytes_leb_total (key_bytes b) (key_bytes a) h)

Before-ne : (a b : TreeKey) → Before a b → a ≢ b
Before-ne a b h p = Before-asymm a b h (rw (← p) (rw (← p) at h))

abbrev Entries : Type 0
Entries = List (TreeKey × B256)

lookup_head : (k : TreeKey) (v : B256) (es : Entries) → lookup k ((k, v) ∷ es) ≡ some v
unfolding lookup
lookup_head k v es = rw (eq_refl k)

lookup_tail :
    (k j : TreeKey) (v : B256) (es : Entries)
    → (j == k) ≡ false
    → lookup k ((j, v) ∷ es) ≡ lookup k es
unfolding lookup
lookup_tail k j v es h = rw h

-- A key before all the entries is not among them.
lookup-Before : (k : TreeKey) (es : Entries) → All (λ x. Before k x.0) es → lookup k es ≡ none
unfolding lookup
lookup-Before k [] h = refl
lookup-Before k ((j, v) ∷ es) h =
    ground (arith, lookup-Before k es h.1, Before-ne k j h.0, tree_key_eq.beq_iff j k)

-- A key that is found stands at the head or behind it.
found_after :
    (k : TreeKey) (es : Entries) (j : TreeKey) {v : B256}
    → All (λ x. Before j x.0) es
    → lookup k es ≡ some v
    → Before j k
unfolding lookup
found_after k [] j h p = cc
found_after k ((i, w) ∷ es) j h p = elim (Bool-cases (i == k)) [
  | inl here ↦ rw (eq_of_true i k here) at h.0
  | inr there ↦ found_after k es j h.1 (rw there at p)
]

lookup_nil : (k : TreeKey) → lookup k (let none_left : Entries = [] in none_left) ≡ none
unfolding lookup
lookup_nil k = refl

module _ (k j : TreeKey) (v w : B256) (xs ys : Entries)
    (same : (i : TreeKey) → lookup i ((k, v) ∷ xs) ≡ lookup i ((j, w) ∷ ys)) where
  -- A head that the other list does not begin with stands further on in it.
  found_in_tail : (j == k) ≡ false → lookup k ys ≡ some v
  found_in_tail apart = sym (lookup_tail k j w ys apart) ∙ sym (same k) ∙ lookup_head k v xs

-- The heads of two listings are at the same key: otherwise each would stand before the other.
head_keys :
    (k j : TreeKey) (v w : B256) (xs ys : Entries)
    → IsSorted ((k, v) ∷ xs)
    → IsSorted ((j, w) ∷ ys)
    → ((i : TreeKey) → lookup i ((k, v) ∷ xs) ≡ lookup i ((j, w) ∷ ys))
    → k ≡ j
head_keys k j v w xs ys s t same = elim (Bool-cases (j == k)) [
  | inl here ↦ sym (eq_of_true j k here)
  | inr apart ↦ absurd (
      Before-asymm j k (found_after k ys j t.0 (found_in_tail k j v w xs ys same apart)) (
        found_after j xs k s.0 (
          found_in_tail j k w v ys xs (λ i. sym (same i))
            (false_of_ne k j (λ p. ne_of_false j k apart (sym p))))))
]

head_values :
    (k : TreeKey) (v w : B256) (xs ys : Entries)
    → ((i : TreeKey) → lookup i ((k, v) ∷ xs) ≡ lookup i ((k, w) ∷ ys))
    → v ≡ w
head_values k v w xs ys same = cc (same k, lookup_head k v xs, lookup_head k w ys)

same_tails :
    (k : TreeKey) (v w : B256) (xs ys : Entries)
    → IsSorted ((k, v) ∷ xs)
    → IsSorted ((k, w) ∷ ys)
    → ((i : TreeKey) → lookup i ((k, v) ∷ xs) ≡ lookup i ((k, w) ∷ ys))
    → (i : TreeKey) → lookup i xs ≡ lookup i ys
same_tails k v w xs ys s t same i = elim (Bool-cases (k == i)) [
  | inl here ↦ rw (← eq_of_true k i here) (lookup-Before k xs s.0 ∙ sym (lookup-Before k ys t.0))
  | inr apart ↦ sym (lookup_tail i k v xs apart) ∙ same i ∙ lookup_tail i k w ys apart
]

-- Two listings in order with the same lookups are the same list.
pub sorted_unique :
    (es es' : Entries)
    → IsSorted es
    → IsSorted es'
    → ((k : TreeKey) → lookup k es ≡ lookup k es')
    → es ≡ es'
sorted_unique [] [] s t same = refl
sorted_unique [] ((k, v) ∷ ys) s t same = cc (same k, lookup_head k v ys, lookup_nil k)
sorted_unique ((k, v) ∷ xs) [] s t same = cc (same k, lookup_head k v xs, lookup_nil k)
sorted_unique ((k, v) ∷ xs) ((j, w) ∷ ys) s t same =
    let p = head_keys k j v w xs ys s t same in
    let t' : IsSorted ((k, w) ∷ ys) = subst (λ m. IsSorted ((m, w) ∷ ys)) (sym p) t in
    let same' : (i : TreeKey) → lookup i ((k, v) ∷ xs) ≡ lookup i ((k, w) ∷ ys) =
      subst (λ m. (i : TreeKey) → lookup i ((k, v) ∷ xs) ≡ lookup i ((m, w) ∷ ys)) (sym p) same in
    cc (
      p,
      head_values k v w xs ys same',
      sorted_unique xs ys s.1 t.1 (same_tails k v w xs ys s t' same'),
    )

pub IsListing-unique :
    (U : Ubt) (stems : Stem → Option (Ubt.StemNode U)) (es es' : Entries)
    → IsListing U stems es
    → IsListing U stems es'
    → es ≡ es'
IsListing-unique U stems es es' h k =
    sorted_unique es es' h.sorted k.sorted (λ key. h.listed key ∙ sym (k.listed key))
