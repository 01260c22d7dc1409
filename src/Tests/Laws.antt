-- ===== src/Tests/Laws.antt =====
-- The parts in memory satisfy what the theorems ask of the outside parts.
use ubt_exex.Common.{
  Bool, true, false, none, some, List, [], ◌∷◌, if◌then◌else◌, list_eq, nat_eq, ◌==◌, ◌≡◌, refl, ap,
  arith, All, ◌∙◌, length, eq_of_true,
}
use ubt_exex.Common.Exec.{Answers}
use ubt_exex.Common.Assoc.{lookup, lookup-insert, lookup-append}
use ubt_exex.Tree.{Stem, B256, TreeKey, IsUbt, tree_key_eq, key_beq}
use ubt_exex.Store.{Contents, IsStore, IsListing, IsSorted, Before, put_all}
use ubt_exex.Index.{IsIndex}
use ubt_exex.Tests.Memory.{
  Node, Table, memory_ubt, memory_store, memory_index, push_all, node_entries, without_stem,
  all_entries, all_before, sized_entries, is_sorted, entries_or_fail,
}

lookup-node_entries :
    (key : TreeKey) (s : Stem) (n : Node)
    → lookup key (node_entries s n) ≡ (if s == key.stem then lookup key.subindex n else none)
unfolding lookup node_entries key_beq
lookup-node_entries key s [] = ground arith
lookup-node_entries key s ((i, v) ∷ n) = ground (arith, lookup-node_entries key s n)

same_length : (a b : Stem) → (a == b) ≡ true → length a ≡ length b
same_length a b h = ap length (eq_of_true a b h)

lookup-sized_entries :
    (key : TreeKey) (s : Stem) (n : Node)
    → lookup key (sized_entries s n) ≡ (
        if s == key.stem
        then if length key.stem == 31 then lookup key.subindex n else none
        else none)
unfolding sized_entries lookup
lookup-sized_entries key s n = ground (arith, lookup-node_entries key s n, same_length s key.stem)

lookup-without_stem :
    (key : TreeKey) (s : Stem) (es : List (TreeKey × B256))
    → lookup key (without_stem s es) ≡ (if s == key.stem then none else lookup key es)
unfolding lookup without_stem
lookup-without_stem key s [] = ground arith
lookup-without_stem key s ((k, v) ∷ es) =
    ground (arith, lookup-without_stem key s es, tree_key_eq.beq_iff k key)

lookup-all_entries :
    (key : TreeKey) (t : Table)
    → lookup key (all_entries t) ≡ (
        if length key.stem == 31
        then elim (lookup key.stem t) [ none ↦ none | some n ↦ lookup key.subindex n ]
        else none)
unfolding lookup all_entries
lookup-all_entries key [] = ground arith
lookup-all_entries key ((s, n) ∷ t) = ground (
  arith,
  lookup-append key (sized_entries s n) (without_stem s (all_entries t)),
  lookup-sized_entries key s n,
  lookup-without_stem key s (all_entries t),
  lookup-all_entries key t,
)

all_before-All :
    (k : TreeKey) (es : List (TreeKey × B256)) → all_before k es ≡ true → All (λ x. Before k x.0) es
unfolding all_before
all_before-All k [] h = tt
all_before-All k ((j, v) ∷ es) h = (ground arith, all_before-All k es (ground arith))

is_sorted-IsSorted : (es : List (TreeKey × B256)) → is_sorted es ≡ true → IsSorted es
unfolding is_sorted
is_sorted-IsSorted [] h = tt
is_sorted-IsSorted ((k, v) ∷ es) h =
    (all_before-All k es (ground arith), is_sorted-IsSorted es (ground arith))

entries_listed :
    (t : Table) (b : Bool)
    → is_sorted (all_entries t) ≡ b
    → Answers (IsListing memory_ubt (λ s. lookup s t)) (entries_or_fail (all_entries t) b)
unfolding entries_or_fail
entries_listed t true h = record {
  answer = record {
    sorted = is_sorted-IsSorted (all_entries t) h;
    listed = λ key. lookup-all_entries key t;
  };
}
entries_listed t false h = record { answer = tt }

push_all-lookup :
    (u : List (Stem × Node)) (t : Table)
    → (λ s. lookup s (push_all u t)) ≡ put_all u (λ s. lookup s t)
unfolding push_all put_all
push_all-lookup [] t = refl
push_all-lookup ((s, n) ∷ u) t =
    push_all-lookup u ((s, n) ∷ t) ∙ ap (put_all u) (unfold lookup in refl)

pub memory-IsUbt : IsUbt memory_ubt
unfolding lookup
memory-IsUbt = record {
  value_at-new = λ s i. refl;
  value_at-set = λ n i j v. ground (arith, lookup-insert i j v n);
}

pub memory-IsStore : IsStore memory_store
memory-IsStore = record {
  load_head_reads = λ d. record { answer = refl };
  load_stem_reads = λ s d. record { answer = refl };
  load_deltas_reads = λ n d. record { answer = refl };
  load_address_reads = λ s d. record { answer = refl };
  iter_entries_reads = λ d. entries_listed d.table (is_sorted (all_entries d.table)) refl;
  save_head_writes = λ h d. record { post = refl };
  update_stems_writes = λ u d. record {
    post =
        ap
          (λ f.
            let c : Contents memory_ubt = record {
              stems = f;
              addresses = d.addresses;
              deltas = d.deltas;
              head = d.head;
            } in
            c)
          (push_all-lookup u d.table);
  };
  save_addresses_writes = λ m d. record { post = refl };
  save_deltas_writes = λ n l d. record { post = refl };
  delete_deltas_writes = λ n d. record { post = refl };
  prune_writes = λ n d. record { post = refl };
}

pub memory-IsIndex : IsIndex memory_index
memory-IsIndex = record {
  apply_updates_keeps = λ u d. record { post = refl };
  save_head_writes = λ n h r c d. record { post = refl };
}
