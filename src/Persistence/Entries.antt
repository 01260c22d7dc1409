-- ===== src/Persistence/Entries.antt =====
-- The entries of a stem node, and lists of entries in order.
use ubt_exex.Common.{
  ℕ, ◌<◌, true, false, List, [], ◌∷◌, ◌++◌, some, none, ◌≡◌, refl, ap, ◌==◌, list_eq, nat_eq,
  if◌then◌else◌, inl, inr, arith, All, All-append, eq_of_true, Option-cases,
}
use ubt_exex.Common.Assoc.{lookup, Distinct}
use ubt_exex.Common.Order.{mem, NoRepeats, Rising, bytes_leb-last}
use ubt_exex.Tree.{Ubt, Stem, B256, TreeKey, tree_key, tree_key_eq, key_beq}
use ubt_exex.Store.{Before, IsSorted}
use ubt_exex.Persistence.Stems.{keys_of, push_entries}

-- The field `values` of a stem node is the map that `get_value` reads.
pub record HasValues (U : Ubt) : Type 0 where
  pub once : (n : U.StemNode) → Distinct (U.values n)
  pub each : (n : U.StemNode) (i : ℕ) → lookup i (U.values n) ≡ U.get_value n i

abbrev pub Entries : Type 0
Entries = List (TreeKey × B256)

pub mem-keys_of :
    (i : ℕ) (m : List (ℕ × B256))
    → mem i (keys_of m) ≡ (elim (lookup i m) [ none ↦ false | some v ↦ true ])
unfolding mem lookup
mem-keys_of i [] = refl
mem-keys_of i ((j, v) ∷ m) = ground (arith, mem-keys_of i m)

pub keys_of-NoRepeats : (m : List (ℕ × B256)) → Distinct m → NoRepeats (keys_of m)
keys_of-NoRepeats [] h = tt
keys_of-NoRepeats ((i, v) ∷ m) h = (rw (mem-keys_of i m, h.0) refl, keys_of-NoRepeats m h.1)

same_value :
    (i j : ℕ) (values : List (ℕ × B256)) → (i == j) ≡ true → lookup i values ≡ lookup j values
same_value i j values h = ap (λ k. lookup k values) (eq_of_true i j h)

pub lookup-push_entries :
    (key : TreeKey) (stem : Stem) (values : List (ℕ × B256)) (is : List ℕ)
    → lookup key (push_entries stem values is) ≡ (
        if stem == key.stem
        then if mem key.subindex is then lookup key.subindex values else none
        else none)
unfolding push_entries mem lookup key_beq
lookup-push_entries key stem values [] = ground arith
lookup-push_entries key stem values (i ∷ is) =
    ground (arith, lookup-push_entries key stem values is, same_value i key.subindex values)

pub stem_of-push_entries :
    (stem : Stem) (values : List (ℕ × B256)) (is : List ℕ)
    → All (λ x. x.0.stem ≡ stem) (push_entries stem values is)
unfolding push_entries
stem_of-push_entries stem values [] = tt
stem_of-push_entries stem values (i ∷ is) = elim (Option-cases (lookup i values)) [
  | inl p ↦ rw (p, All) (stem_of-push_entries stem values is)
  | inr (v, p) ↦ rw (p, All) (refl, stem_of-push_entries stem values is)
]

push_entries-Before :
    (i : ℕ) (stem : Stem) (values : List (ℕ × B256)) (is : List ℕ)
    → All (λ j. i < j) is
    → All (λ x. Before (tree_key stem i) x.0) (push_entries stem values is)
unfolding push_entries
push_entries-Before i stem values [] h = tt
push_entries-Before i stem values (j ∷ is) h = elim (Option-cases (lookup j values)) [
  | inl p ↦ rw (p, All) (push_entries-Before i stem values is h.1)
  | inr (v, p) ↦ rw (p, All) (bytes_leb-last stem i j h.0, push_entries-Before i stem values is h.1)
]

pub push_entries-IsSorted :
    (stem : Stem) (values : List (ℕ × B256)) (is : List ℕ)
    → Rising is
    → IsSorted (push_entries stem values is)
unfolding push_entries
push_entries-IsSorted stem values [] h = tt
push_entries-IsSorted stem values (i ∷ is) h = elim (Option-cases (lookup i values)) [
  | inl p ↦ rw (p, IsSorted) (push_entries-IsSorted stem values is h.1)
  | inr (v, p) ↦
      rw (p, IsSorted)
        (push_entries-Before i stem values is h.0, push_entries-IsSorted stem values is h.1)
]

pub IsSorted-append :
    (xs ys : Entries)
    → IsSorted xs
    → IsSorted ys
    → All (λ x. All (λ y. Before x.0 y.0) ys) xs
    → IsSorted (xs ++ ys)
IsSorted-append [] ys h k l = k
IsSorted-append (x ∷ xs) ys h k l =
    (All-append (λ y. Before x.0 y.0) xs ys h.0 l.0, IsSorted-append xs ys h.1 k l.1)
