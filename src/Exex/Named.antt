-- ===== src/Exex/Named.antt =====
-- The data of a bundle that `process_chain` of src/ubt_exex.rs writes: which key and value each
-- part of an account has, said without the code's loops.
pub mod Held
pub mod Written
use ubt_exex.Common.{
  ℕ, zero, suc, ◌+◌, ◌-◌, ◌%◌, ◌^◌, true, false, Option, none, some, List, [], ◌∷◌, ◌++◌, ◌≡◌, ◌≢◌,
  refl, sym, ap, ◌∙◌, ◌⊎◌, inl, inr, arith, ltb, not, ◌&&◌, ◌==◌, list_eq, nat_eq, if◌then◌else◌,
  All, All-append, All-weaken, Any, Any-left, Any-right, get_elem?, Bool-cases, eq_of_true,
  ne_of_false, false_of_ne,
}
use mathlib.Core.Path.{subst}
use ubt_exex.Common.Bytes.{Bytes, to_be_bytes}
use ubt_exex.Tree.{Ubt, TreeKey, B256, Address, zero_hash, tree_key_eq}
use ubt_exex.Exex.{Parts, PendingEntry}
use ubt_exex.Exex.Overlay.{write}
use ubt_exex.Exex.Commit.Entries.{write_entries}
use ubt_exex.Exex.Lifecycle.{
  AccountInfo, BundleAccount, Bundle, keccak_empty, chunk_entries, code_entries, hashed_entries,
  info_entries, storage_entries, bundle_entries, balance_to_u128, u256_to_b256, code_size,
}

module _ (ubt : Ubt) where
  -- The keys and values that a bundle asks for.
  pub data Named (bundle : Bundle) : TreeKey → B256 → Type 0 where
    -- nonce, balance up to the greatest number of 128 bits, and size of the code to 32 bits
    basic :
        (address : Address) (account : BundleAccount) (info : AccountInfo)
        → Any (λ x. x ≡ (address, account)) bundle
        → account.info ≡ some info
        → Named bundle (ubt.get_basic_data_key address) (
            ubt.basic_data_leaf info.nonce
              (if ltb info.balance (2 ^ 128) then info.balance else 2 ^ 128 - 1)
              (elim info.code [ none ↦ 0 | some c ↦ c.0 % 2 ^ 32 ]))
    hash :
        (address : Address) (account : BundleAccount) (info : AccountInfo)
        → Any (λ x. x ≡ (address, account)) bundle
        → account.info ≡ some info
        → info.code_hash ≢ zero_hash
        → info.code_hash ≢ keccak_empty
        → Named bundle (ubt.get_code_hash_key address) info.code_hash
    chunk :
        (address : Address) (account : BundleAccount) (info : AccountInfo) (size : ℕ) (code : Bytes)
        (i : ℕ) (value : B256)
        → Any (λ x. x ≡ (address, account)) bundle
        → account.info ≡ some info
        → info.code_hash ≢ zero_hash
        → info.code_hash ≢ keccak_empty
        → info.code ≡ some (size, code)
        → get_elem? (ubt.chunkify_code code) i ≡ some value
        → Named bundle (ubt.get_code_chunk_key address i) value
    slot :
        (address : Address) (account : BundleAccount) (number value : ℕ)
        → Any (λ x. x ≡ (address, account)) bundle
        → Any (λ x. x ≡ (number, value)) account.storage
        → Named bundle
            (ubt.get_storage_slot_key address (to_be_bytes 32 number))
            (to_be_bytes 32 value)
