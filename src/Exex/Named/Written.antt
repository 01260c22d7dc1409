-- ===== src/Exex/Named/Written.antt =====
-- Every datum of a bundle is pushed by `process_chain` of src/ubt_exex.rs, and what the entries
-- write for it.
use ubt_exex.Common.{
  ℕ, ◌+◌, false, some, List, [], ◌∷◌, ◌++◌, ◌≡◌, ◌≢◌, refl, sym, ap, ◌∙◌, ◌⊎◌, inl, inr, arith,
  ◌==◌, list_eq, nat_eq, All, All-weaken, Any, Any-left, Any-right, Bool-cases, eq_of_true,
  ne_of_false, false_of_ne,
}
use mathlib.Core.Path.{subst}
use ubt_exex.Common.Bytes.{to_be_bytes}
use ubt_exex.Tree.{TreeKey, B256, Address, tree_key_eq}
use ubt_exex.Exex.{Parts, PendingEntry}
use ubt_exex.Exex.Overlay.{write}
use ubt_exex.Exex.Commit.Entries.{write_entries}
use ubt_exex.Exex.Lifecycle.{
  AccountInfo, BundleAccount, Bundle, code_entries, hashed_entries, info_entries, storage_entries,
  bundle_entries, u256_to_b256,
}
use ubt_exex.Exex.Named.{Named, basic, hash, chunk, slot}
use ubt_exex.Exex.Named.Held.{Under, chunks-Under, has_code, entries_hold}

module _ (P : Parts) where
  open P use {ubt}

  -- Whatever is pushed for an account is pushed for a bundle with it.
  of_account :
      (bundle : Bundle) (address : Address) (account : BundleAccount) (key : TreeKey)
      → Any (λ x. x ≡ (address, account)) bundle
      → Under P key
          (info_entries P address account.info ++ storage_entries P address account.storage)
      → Under P key (bundle_entries P bundle)
  unfolding bundle_entries
  of_account [] address account key m h = absurd m
  of_account ((a, b) ∷ bundle) address account key (inl p) h =
      Any-left (λ e. e.key ≡ key) _ _
        (subst
          (λ (x : Address × BundleAccount).
            Under P key (info_entries P x.0 x.1.info ++ storage_entries P x.0 x.1.storage))
          (sym p) h)
  of_account ((a, b) ∷ bundle) address account key (inr m) h =
      Any-right (λ e. e.key ≡ key) _ _ (of_account bundle address account key m h)

  slots-Under :
      (address : Address) (n v : ℕ) (slots : List (ℕ × ℕ))
      → Any (λ x. x ≡ (n, v)) slots
      → Under P
          (ubt.get_storage_slot_key address (to_be_bytes 32 n))
          (storage_entries P address slots)
  unfolding storage_entries u256_to_b256
  slots-Under address n v [] m = absurd m
  slots-Under address n v ((k, w) ∷ slots) (inl p) =
      inl (ap (λ (x : ℕ × ℕ). ubt.get_storage_slot_key address (to_be_bytes 32 x.0)) p)
  slots-Under address n v ((k, w) ∷ slots) (inr m) = inr (slots-Under address n v slots m)

  info-Under :
      (address : Address) (account : BundleAccount) (info : AccountInfo) (key : TreeKey)
      → account.info ≡ some info
      → Under P key (info_entries P address (some info))
      → Under P key
          (info_entries P address account.info ++ storage_entries P address account.storage)
  info-Under address account info key p h =
      Any-left (λ (e : PendingEntry). e.key ≡ key) (info_entries P address account.info)
        (storage_entries P address account.storage) (rw p h)

  Named-Under :
      (bundle : Bundle) (key : TreeKey) (value : B256)
      → Named ubt bundle key value
      → Under P key (bundle_entries P bundle)
  unfolding info_entries hashed_entries code_entries
  Named-Under bundle _ _ (basic address account info m p) =
      of_account bundle address account _ m (info-Under address account info _ p (inl refl))
  Named-Under bundle _ _ (hash address account info m p a b) =
      of_account bundle address account _ m
        (info-Under address account info _ p (inr (rw (has_code P info.code_hash a b) (inl refl))))
  Named-Under bundle _ _ (chunk address account info size code i v m p a b q r) =
      of_account bundle address account _ m (
        info-Under address account info _ p (
          inr (
            rw (has_code P info.code_hash a b, q)
              (inr
                (rw (zero_plus i) at (chunks-Under P address 0 i (ubt.chunkify_code code) v r))))))
    where
      zero_plus : (j : ℕ) → 0 + j ≡ j
      zero_plus j = omega arith
  Named-Under bundle _ _ (slot address account n v m p) = of_account bundle address account _ m (
      Any-right (λ e. e.key ≡ _) (info_entries P address account.info) _
        (slots-Under address n v account.storage p))

  -- Entries that agree with a table give the value of the table, under each key that one has.
  write_entries-agree :
      (table : TreeKey → B256) (es : List PendingEntry) (f : TreeKey → B256) (key : TreeKey)
      → All (λ e. table e.key ≡ e.value) es
      → (f key ≡ table key) ⊎ Under P key es
      → write_entries es f key ≡ table key
  unfolding write_entries
  write_entries-agree table [] f key h (inl p) = p
  write_entries-agree table [] f key h (inr u) = absurd u
  write_entries-agree table (e ∷ es) f key h u =
      write_entries-agree table es (write e.key e.value f) key h.1
        (elim (Bool-cases (e.key == key)) [
          | inl p ↦ inl (rw p (sym h.0 ∙ ap table (eq_of_true e.key key p)))
          | inr p ↦ still p u
        ])
    where
      still :
          (e.key == key) ≡ false
          → (f key ≡ table key) ⊎ Under P key (e ∷ es)
          → (write e.key e.value f key ≡ table key) ⊎ Under P key es
      still p (inl q) = inl (rw p q)
      still p (inr (inl q)) = absurd (ne_of_false e.key key p q)
      still p (inr (inr q)) = inr q

  write_entries-others :
      (es : List PendingEntry) (f : TreeKey → B256) (key : TreeKey)
      → All (λ e. e.key ≢ key) es
      → write_entries es f key ≡ f key
  unfolding write_entries
  write_entries-others [] f key h = refl
  write_entries-others (e ∷ es) f key h =
      write_entries-others es (write e.key e.value f) key h.1
      ∙ (rw (false_of_ne e.key key h.0) refl)

  -- The writes of a bundle whose data agree with a table.
  pub bundle-agree :
      (bundle : Bundle) (table : TreeKey → B256) (f : TreeKey → B256) (key : TreeKey) (value : B256)
      → ((k : TreeKey) (v : B256) → Named ubt bundle k v → table k ≡ v)
      → Named ubt bundle key value
      → write_entries (bundle_entries P bundle) f key ≡ value
  bundle-agree bundle table f key value agrees named =
      write_entries-agree table (bundle_entries P bundle) f key
        (All-weaken (λ e h. agrees e.key e.value h) _ (entries_hold P bundle bundle (λ x h. h)))
        (inr (Named-Under bundle key value named))
      ∙ agrees key value named

  pub bundle-others :
      (bundle : Bundle) (f : TreeKey → B256) (key : TreeKey)
      → ((v : B256) → Named ubt bundle key v → ⊥)
      → write_entries (bundle_entries P bundle) f key ≡ f key
  bundle-others bundle f key absent =
      write_entries-others (bundle_entries P bundle) f key (
        All-weaken (λ e h p. absent e.value (rw p at h)) _
          (entries_hold P bundle bundle (λ x h. h)))
