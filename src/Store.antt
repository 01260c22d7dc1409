-- ===== src/Store.antt =====
-- `UbtDatabase` as `UbtExEx` sees it: its operations, what the database holds, and what each
-- operation does to that, whether it succeeds or fails.
use ubt_exex.Common.{
  ℕ, ◌≡◌, Option, none, some, List, [], ◌∷◌, Eq, ◌==◌, list_eq, nat_eq, if◌then◌else◌, ltb,
  unwrap_or, Result, All, false, length, ◌%◌,
}
use ubt_exex.Common.Exec.{Exec, Ensures, Answers}
use ubt_exex.Common.Assoc.{lookup}
use ubt_exex.Common.Order.{bytes_leb}
use ubt_exex.Tree.{Stem, B256, Address, TreeKey, Delta, Ubt, key_bytes, tree_key_eq}

pub record UbtHead : Type 0 where
  pub block_number : ℕ
  pub block_hash : B256
  pub root : B256
  pub stem_count : ℕ

-- What the four tables hold, as maps.
pub record Contents (U : Ubt) : Type 0 where
  pub stems : Stem → Option U.StemNode
  pub addresses : Stem → Option Address
  pub deltas : ℕ → Option (List Delta)
  pub head : Option UbtHead

module _ {ℓ κ} {K : Type ℓ} {V : Type κ} ⦃e : Eq K⦄ where
  abbrev pub put : K → V → (K → Option V) → K → Option V
  put k v f j = if k == j then some v else f j

  -- Writes in order: the last one for a key counts.
  unfoldable pub put_all : List (K × V) → (K → Option V) → K → Option V
  put_all [] f = f
  put_all ((k, v) ∷ r) f = put_all r (put k v f)

  -- Only the keys that are missing are written.
  unfoldable pub add_missing : List (K × V) → (K → Option V) → K → Option V
  add_missing [] f = f
  add_missing ((k, v) ∷ r) f = add_missing r (elim (f k) [ none ↦ put k v f | some w ↦ f ])

abbrev pub remove_at : ℕ → (ℕ → Option (List Delta)) → ℕ → Option (List Delta)
remove_at n f m = if n == m then none else f m

abbrev pub keep_from : ℕ → (ℕ → Option (List Delta)) → ℕ → Option (List Delta)
keep_from n f m = if ltb m n then none else f m

-- A block number is a `u64`.
abbrev pub word : ℕ → ℕ
word n = n % 18446744073709551616

pub record Store (U : Ubt) : Type 1 where
  pub Db : Type 0
  pub contents : Db → Contents U
  pub load_head : Db → Result (Option UbtHead)
  pub load_stem : Stem → Db → Result (Option U.StemNode)
  pub load_block_deltas : ℕ → Db → Result (List Delta)
  pub iter_stems : Db → Result (List (Stem × U.StemNode))
  pub load_stem_address : Stem → Db → Result (Option Address)
  pub iter_entries_sorted : Db → Result (List (TreeKey × B256))
  pub save_head : UbtHead → Exec Db (Unit {0})
  pub batch_update_stems : List (Stem × U.StemNode) → Exec Db (Unit {0})
  pub batch_save_stem_addresses : List (Stem × Address) → Exec Db (Unit {0})
  pub save_block_deltas : ℕ → List Delta → Exec Db (Unit {0})
  pub delete_block_deltas : ℕ → Exec Db (Unit {0})
  pub prune_deltas_before : ℕ → Exec Db ℕ

-- The order of keys: by the bytes of the stem, then by the subindex.
abbrev pub Before : TreeKey → TreeKey → Type 0
Before a b = bytes_leb (key_bytes b) (key_bytes a) ≡ false

abbrev pub IsSorted : List (TreeKey × B256) → Type 0
IsSorted [] = Unit {0}
IsSorted (e ∷ es) = All (λ x. Before e.0 x.0) es × IsSorted es

-- The entries of all stems, in order: each value that a node under a key of 31 bytes has, and no
-- other.
pub record IsListing (U : Ubt) (stems : Stem → Option U.StemNode) (es : List (TreeKey × B256))
    : Type 0 where
  pub sorted : IsSorted es
  pub listed :
      (key : TreeKey)
      → lookup key es ≡ (
          if length key.stem == 31
          then elim (stems key.stem) [ none ↦ none | some n ↦ U.get_value n key.subindex ]
          else none)

module _ {U : Ubt} (S : Store U) where
  open S use {Db, contents}

  -- A transaction that returns has made the change, and one that fails has made none.
  abbrev pub Writes : {A : Type 0} → (Contents U → Contents U) → Exec Db A → Type 0
  Writes change op =
      (d : Db)
      → Ensures (λ _ d'. contents d' ≡ change (contents d)) (λ _ d'. contents d' ≡ contents d)
          (op d)

  -- A read that returns has seen what is there.
  abbrev pub Reads : {A : Type 0} → (Contents U → A) → (Db → Result A) → Type 0
  Reads view op = (d : Db) → Answers (λ a. a ≡ view (contents d)) (op d)

  pub record IsStore : Type 0 where
    pub load_head_reads : Reads (λ c. c.head) S.load_head
    pub load_stem_reads : (s : Stem) → Reads (λ c. c.stems s) (S.load_stem s)
    pub load_deltas_reads :
        (n : ℕ) → Reads (λ c. unwrap_or (c.deltas (word n)) []) (S.load_block_deltas n)
    pub load_address_reads : (s : Stem) → Reads (λ c. c.addresses s) (S.load_stem_address s)
    pub iter_entries_reads :
        (d : Db) → Answers (IsListing U (contents d).stems) (S.iter_entries_sorted d)
    pub save_head_writes : (h : UbtHead) → Writes (λ c. record c { head = some h }) (S.save_head h)
    pub update_stems_writes :
        (u : List (Stem × U.StemNode))
        → Writes (λ c. record c { stems = put_all u c.stems }) (S.batch_update_stems u)
    pub save_addresses_writes :
        (m : List (Stem × Address))
        → Writes
            (λ c. record c { addresses = add_missing m c.addresses })
            (S.batch_save_stem_addresses m)
    pub save_deltas_writes :
        (n : ℕ) (l : List Delta)
        → Writes (λ c. record c { deltas = put (word n) l c.deltas }) (S.save_block_deltas n l)
    pub delete_deltas_writes :
        (n : ℕ)
        → Writes (λ c. record c { deltas = remove_at (word n) c.deltas }) (S.delete_block_deltas n)
    pub prune_writes :
        (n : ℕ) → Writes (λ c. record c { deltas = keep_from n c.deltas }) (S.prune_deltas_before n)
