-- ===== src/Tree.antt =====
-- What the source takes from the `ubt` crate: keys, stem nodes, key derivation and the root of a
-- sorted list of entries. The crate is not part of the repository, so it is a parameter, with the
-- documented behaviour of a stem node as laws.
use ubt_exex.Common.{
  ℕ, Bool, true, ◌≡◌, ◌↔◌, ◌&&◌, Option, List, [], ◌∷◌, ◌++◌, arith, Eq, ◌==◌, list_eq, nat_eq,
  if◌then◌else◌, unwrap_or, replicate, list_beq_iff,
}
use ubt_exex.Common.Bytes.{Bytes}

-- `Stem` has 31 bytes, `B256` has 32 and `Address` has 20.
abbrev pub Stem : Type 0
Stem = Bytes

abbrev pub B256 : Type 0
B256 = Bytes

abbrev pub Address : Type 0
Address = Bytes

-- `B256::ZERO`
abbrev pub zero_hash : B256
zero_hash = replicate 32 0

pub record TreeKey : Type 0 where
  pub stem : Stem
  pub subindex : ℕ

unfoldable pub key_beq : TreeKey → TreeKey → Bool
key_beq a b = a.stem == b.stem && a.subindex == b.subindex

key_beq→eq : (a b : TreeKey) → key_beq a b ≡ true → a ≡ b
unfolding key_beq
key_beq→eq a b h = ground (arith, list_beq_iff a.stem b.stem)

key_beq_of_eq : (a b : TreeKey) → a ≡ b → key_beq a b ≡ true
unfolding key_beq
key_beq_of_eq a b p = ground (arith, list_beq_iff a.stem b.stem)

pub key_beq_iff : (a b : TreeKey) → (key_beq a b ≡ true) ↔ (a ≡ b)
key_beq_iff a b = (key_beq→eq a b, key_beq_of_eq a b)

instance abbrev pub tree_key_eq : Eq TreeKey
tree_key_eq = record { beq = key_beq; beq_iff = key_beq_iff }

abbrev pub tree_key : Stem → ℕ → TreeKey
tree_key stem subindex = record { stem = stem; subindex = subindex }

-- The 32 bytes of a key.
abbrev pub key_bytes : TreeKey → Bytes
key_bytes k = k.stem ++ k.subindex ∷ []

-- (stem, subindex, old value)
abbrev pub Delta : Type 0
Delta = Stem × ℕ × B256

pub record Ubt : Type 1 where
  pub StemNode : Type 0
  pub new : Stem → StemNode
  pub get_value : StemNode → ℕ → Option B256
  pub set_value : StemNode → ℕ → B256 → StemNode
  -- the public field `values`
  pub values : StemNode → List (ℕ × B256)
  pub get_basic_data_key : Address → TreeKey
  pub get_code_hash_key : Address → TreeKey
  pub get_code_chunk_key : Address → ℕ → TreeKey
  pub get_storage_slot_key : Address → Bytes → TreeKey
  -- `BasicDataLeaf::new(nonce, balance, code_size).encode()`
  pub basic_data_leaf : ℕ → ℕ → ℕ → B256
  -- `chunkify_code`, each chunk encoded
  pub chunkify_code : Bytes → List B256
  -- `StreamingTreeBuilder::build_root_hash_parallel`
  pub build_root_hash : List (TreeKey × B256) → B256

-- The value at a subindex, where an absent one reads as zero.
abbrev pub value_at : (U : Ubt) → Ubt.StemNode U → ℕ → B256
value_at U n i = unwrap_or (U.get_value n i) zero_hash

pub record IsUbt (U : Ubt) : Type 0 where
  pub value_at-new : (s : Stem) (i : ℕ) → value_at U (U.new s) i ≡ zero_hash
  pub value_at-set :
      (n : U.StemNode) (i j : ℕ) (v : B256)
      → value_at U (U.set_value n i v) j ≡ (if i == j then v else value_at U n j)
