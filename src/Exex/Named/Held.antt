-- ===== src/Exex/Named/Held.antt =====
-- All that `process_chain` of src/ubt_exex.rs pushes is a datum of the bundle.
use ubt_exex.Common.{
  ℕ, zero, suc, ◌+◌, ◌-◌, ◌%◌, ◌^◌, true, Option, none, some, List, [], ◌∷◌, ◌++◌, ◌≡◌, ◌≢◌, refl,
  ap, inl, inr, arith, ltb, not, ◌&&◌, ◌==◌, list_eq, nat_eq, if◌then◌else◌, All, All-append, Any,
  get_elem?, Bool-cases, ne_of_false, false_of_ne,
}
use ubt_exex.Common.Bytes.{Bytes}
use ubt_exex.Tree.{TreeKey, B256, Address, zero_hash, tree_key_eq}
use ubt_exex.Exex.{Parts, PendingEntry}
use ubt_exex.Exex.Lifecycle.{
  AccountInfo, BundleAccount, Bundle, keccak_empty, chunk_entries, code_entries, hashed_entries,
  info_entries, storage_entries, bundle_entries, balance_to_u128, u256_to_b256, code_size,
}
use ubt_exex.Exex.Named.{Named, basic, hash, chunk, slot}

balance_lem : (n : ℕ) → balance_to_u128 n ≡ (if ltb n (2 ^ 128) then n else 2 ^ 128 - 1)
unfolding balance_to_u128
balance_lem n = ground arith

size_lem :
    (code : Option (ℕ × Bytes)) → code_size code ≡ (elim code [ none ↦ 0 | some c ↦ c.0 % 2 ^ 32 ])
size_lem none = refl
size_lem (some c) = refl

module _ (P : Parts) where
  open P use {ubt}

  -- What is pushed.
  abbrev pub Holds : Bundle → PendingEntry → Type 0
  Holds bundle e = Named ubt bundle e.key e.value

  -- That something is pushed under a key.
  abbrev pub Under : TreeKey → List PendingEntry → Type 0
  Under key es = Any (λ e. e.key ≡ key) es

  chunks_hold :
      (Q : TreeKey → B256 → Type 0) (address : Address) (i : ℕ) (chunks : List B256)
      → ((j : ℕ) (v : B256)
          → get_elem? chunks j ≡ some v
          → Q (ubt.get_code_chunk_key address (i + j)) v)
      → All (λ e. Q e.key e.value) (chunk_entries P address i chunks)
  unfolding chunk_entries
  chunks_hold Q address i [] h = tt
  chunks_hold Q address i (c ∷ chunks) h = (
    (rw (plus_zero i) at (h 0 c refl)),
    chunks_hold Q address (i + 1) chunks (λ j v p. rw (next i j) (h (suc j) v p)),
  )
    where
      plus_zero : (i : ℕ) → i + 0 ≡ i
      plus_zero i = omega arith

      next : (i j : ℕ) → (i + 1) + j ≡ i + suc j
      next i j = omega arith

  pub chunks-Under :
      (address : Address) (i j : ℕ) (chunks : List B256) (v : B256)
      → get_elem? chunks j ≡ some v
      → Under (ubt.get_code_chunk_key address (i + j)) (chunk_entries P address i chunks)
  unfolding chunk_entries
  chunks-Under address i j [] v p = absurd (ground (arith, p))
  chunks-Under address i zero (c ∷ chunks) v p =
      inl (ap (ubt.get_code_chunk_key address) (omega arith))
  chunks-Under address i (suc j) (c ∷ chunks) v p =
      let next : (i + 1) + j ≡ i + suc j = omega arith in
      inr (rw next at (chunks-Under address (i + 1) j chunks v p))

  -- The code of an account is written unless its hash is one of the two of no code.
  pub has_code :
      (h : B256)
      → h ≢ zero_hash
      → h ≢ keccak_empty
      → (not (h == zero_hash) && not (h == keccak_empty)) ≡ true
  has_code h p q = rw (false_of_ne h zero_hash p, false_of_ne h keccak_empty q) refl

  code_hold :
      (bundle : Bundle) (address : Address) (account : BundleAccount) (info : AccountInfo)
      → Any (λ x. x ≡ (address, account)) bundle
      → account.info ≡ some info
      → info.code_hash ≢ zero_hash
      → info.code_hash ≢ keccak_empty
      → (code : Option (ℕ × Bytes)) → info.code ≡ code
      → All (Holds bundle) (code_entries P address code)
  unfolding code_entries
  code_hold bundle address account info m p q r none h = tt
  code_hold bundle address account info m p q r (some (size, code)) h =
      chunks_hold (Named ubt bundle) address 0 (ubt.chunkify_code code)
        (λ j v k. rw (zero_plus j) (chunk address account info size code j v m p q r h k))
    where
      zero_plus : (j : ℕ) → 0 + j ≡ j
      zero_plus j = omega arith

  hashed_hold :
      (bundle : Bundle) (address : Address) (account : BundleAccount) (info : AccountInfo)
      → Any (λ x. x ≡ (address, account)) bundle
      → account.info ≡ some info
      → All (Holds bundle) (hashed_entries P address info)
  unfolding hashed_entries
  hashed_hold bundle address account info m p = elim (Bool-cases (info.code_hash == zero_hash)) [
    | inl q ↦ rw q tt
    | inr q ↦ rw q (elim (Bool-cases (info.code_hash == keccak_empty)) [
      | inl r ↦ rw r tt
      | inr r ↦ rw r (
          let a : info.code_hash ≢ zero_hash = ne_of_false info.code_hash zero_hash q in
          let b : info.code_hash ≢ keccak_empty = ne_of_false info.code_hash keccak_empty r in
          (
            hash address account info m p a b,
            code_hold bundle address account info m p a b info.code refl,
          ))
    ])
  ]

  info_hold :
      (bundle : Bundle) (address : Address) (account : BundleAccount) (o : Option AccountInfo)
      → Any (λ x. x ≡ (address, account)) bundle
      → account.info ≡ o
      → All (Holds bundle) (info_entries P address o)
  unfolding info_entries
  info_hold bundle address account none m p = tt
  info_hold bundle address account (some info) m p = (
    (rw (balance_lem info.balance, size_lem info.code) (basic address account info m p)),
    hashed_hold bundle address account info m p,
  )

  slots_hold :
      (bundle : Bundle) (address : Address) (account : BundleAccount) (slots : List (ℕ × ℕ))
      → Any (λ x. x ≡ (address, account)) bundle
      → ((x : ℕ × ℕ) → Any (λ y. y ≡ x) slots → Any (λ y. y ≡ x) account.storage)
      → All (Holds bundle) (storage_entries P address slots)
  unfolding storage_entries u256_to_b256
  slots_hold bundle address account [] m f = tt
  slots_hold bundle address account ((n, v) ∷ slots) m f = (
    slot address account n v m (f (n, v) (inl refl)),
    slots_hold bundle address account slots m (λ x h. f x (inr h)),
  )

  pub entries_hold :
      (bundle part : Bundle)
      → ((x : Address × BundleAccount) → Any (λ y. y ≡ x) part → Any (λ y. y ≡ x) bundle)
      → All (Holds bundle) (bundle_entries P part)
  unfolding bundle_entries
  entries_hold bundle [] f = tt
  entries_hold bundle ((address, account) ∷ part) f =
      let m : Any (λ y. y ≡ (address, account)) bundle = f (address, account) (inl refl) in
      All-append (Holds bundle)
        (info_entries P address account.info ++ storage_entries P address account.storage) _
        (All-append (Holds bundle) _ _ (info_hold bundle address account account.info m refl)
          (slots_hold bundle address account account.storage m (λ x h. h)))
        (entries_hold bundle part (λ x h. f x (inr h)))
