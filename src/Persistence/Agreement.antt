-- ===== src/Persistence/Agreement.antt =====
-- The methods of persistence.rs that write stem addresses: what they refuse.
use ubt_exex.Common.{
  true, List, [], ◌∷◌, some, none, Option, ◌≡◌, refl, ap, ◌∙◌, ◌==◌, list_eq, nat_eq, Bool-cases,
  Option-cases, inl, inr, All, arith, eq_refl, eq_of_true,
}
use ubt_exex.Common.Assoc.{lookup}
use ubt_exex.Common.Bytes.{Bytes}
use ubt_exex.Common.Exec.{
  Answers, Answers-bind, Answers-weaken, Answers-both, Ensures, Ensures-weaken, Ensures-both,
}
use ubt_exex.Tree.{Ubt, Stem, Address}
use ubt_exex.Store.{put, add_missing}
use ubt_exex.Mdbx.{Ffi}
use ubt_exex.Mdbx.Tables.{IsFfi}
use ubt_exex.Persistence.{Bincode, stem_addr_db, plain}
use ubt_exex.Persistence.Addresses.{
  put_or_compare, put_addresses, batch_save_stem_addresses, put_absent, save_stem_address,
}
use ubt_exex.Persistence.Rules.{get-Answers, put-Answers, write_to-Ensures}
use ubt_exex.Persistence.View.{contents_of}
use ubt_exex.Persistence.Writes.{
  IsBincode, view, with_addresses, address_put, put_addresses-Answers,
  batch_save_stem_addresses-Changes,
}

add_missing-keeps :
    (k : Stem) (a : Address) (m : List (Stem × Address)) (f : Stem → Option Address)
    → f k ≡ some a
    → add_missing m f k ≡ some a
unfolding add_missing
add_missing-keeps k a [] f h = h
add_missing-keeps k a ((j, b) ∷ m) f h = elim (Option-cases (f j)) [
  | inl p ↦ rw p (add_missing-keeps k a m (put j b f) (ground (arith, h, p, same_stem)))
  | inr (w, p) ↦ rw p (add_missing-keeps k a m f h)
]
  where
    same_stem : (j == k) ≡ true → f j ≡ f k
    same_stem q = ap f (eq_of_true j k q)

add_missing-others :
    (k : Stem) (m : List (Stem × Address)) (f : Stem → Option Address)
    → lookup k m ≡ none
    → add_missing m f k ≡ f k
unfolding add_missing lookup
add_missing-others k [] f h = refl
add_missing-others k ((j, b) ∷ m) f h = elim (Bool-cases (j == k)) [
  | inl p ↦ absurd (ground (arith, h, p))
  | inr p ↦ elim (Option-cases (f j)) [
    | inl q ↦ rw q (add_missing-others k m (put j b f) (ground (arith, h, p)) ∙ (rw p refl))
    | inr (w, q) ↦ rw q (add_missing-others k m f (ground (arith, h, p)))
  ]
]

module _ {U : Ubt} (M : Ffi) (laws : IsFfi M) (B : Bincode U) (codecs : IsBincode B) where
  open M use {Env, Txn, Dbi}
  open laws use {rows, seen, name_of}

  -- Each of some stems has the address that is given for it.
  abbrev pub Agree : List (Stem × Address) → (Stem → Option Address) → Type 0
  Agree m f = All (λ x. f x.0 ≡ some x.1) m

  round-Agrees :
      (stem : Stem) (address : Address) (db : Dbi) (t : Txn) (o : Option Bytes)
      → name_of db ≡ stem_addr_db
      → seen t stem_addr_db stem ≡ o
      → Answers
          (λ t'. seen t' stem_addr_db stem ≡ some address)
          (put_or_compare M stem address db t o)
  unfolding put_or_compare
  round-Agrees stem address db t none p q =
      Answers-weaken _ (put-Answers M laws stem_addr_db t db stem address p) (λ t' r.
        ap (λ c. c.addresses stem) (address_put M laws B codecs stem address t t' r)
        ∙ (rw (eq_refl stem) refl))
  round-Agrees stem address db t (some existing) p q = elim (Bool-cases (existing == address)) [
    | inl h ↦ rw h (record { answer = q ∙ ap some (eq_of_true existing address h) })
    | inr h ↦ rw h (record { answer = tt })
  ]

  put_addresses-Agrees :
      (db : Dbi) (m : List (Stem × Address)) (t : Txn)
      → name_of db ≡ stem_addr_db
      → Answers (λ t'. Agree m (seen t' stem_addr_db)) (put_addresses M db m t)
  unfolding put_addresses
  put_addresses-Agrees db [] t p = record { answer = tt }
  put_addresses-Agrees db ((stem, address) ∷ m) t p =
      Answers-bind _ _ (get-Answers M laws stem_addr_db t db stem p) (λ o q.
        Answers-bind (put_or_compare M stem address db t o) _ (round-Agrees stem address db t o p q)
          (λ t' r.
            Answers-weaken _
              (Answers-both _ (put_addresses-Answers M laws B codecs db m t' p)
                (put_addresses-Agrees db m t' p))
              (λ t'' (k, agree). (
                ap (λ c. c.addresses stem) k
                    ∙ add_missing-keeps stem address m (seen t' stem_addr_db) r,
                agree,
              ))))

  batch-Agrees :
      (m : List (Stem × Address)) (e : Env)
      → Ensures
          (λ _ e'. Agree m (rows e' stem_addr_db))
          (λ _ e'. rows e' ≡ rows e)
          (batch_save_stem_addresses M m e)
  unfolding batch_save_stem_addresses
  batch-Agrees [] e = record { post = tt }
  batch-Agrees (x ∷ m) e =
      write_to-Ensures M laws (λ T. Agree (x ∷ m) (T stem_addr_db)) plain stem_addr_db _ e
        (λ t db p q.
          Answers-bind (put_addresses M db (x ∷ m) t) _ (put_addresses-Agrees db (x ∷ m) t p)
            (λ t' r. record { answer = r }))

  -- The addresses that were there stay, and only stems of the batch get new ones.
  pub record Extends (m : List (Stem × Address)) (f g : Stem → Option Address) : Type 0 where
    pub agree : Agree m g
    pub kept : (stem : Stem) (address : Address) → f stem ≡ some address → g stem ≡ some address
    pub others : (stem : Stem) → lookup stem m ≡ none → g stem ≡ f stem

  -- If `batch_save_stem_addresses` returns, each stem of the batch has the address that the batch
  -- gives for it, also where a stem was there before or stands twice in the batch; an address that
  -- any stem had before has not changed, and a stem that is not in the batch has gained none. If it
  -- fails, each stem has the address that it had, or none.
  pub batch_save_stem_addresses-Agrees :
      (m : List (Stem × Address)) (e : Env)
      → Ensures
          (λ _ e'. Extends m (view M laws B codecs e).addresses (view M laws B codecs e').addresses)
          (λ _ e'. (view M laws B codecs e').addresses ≡ (view M laws B codecs e).addresses)
          (batch_save_stem_addresses M m e)
  batch_save_stem_addresses-Agrees m e =
      Ensures-weaken _
        (Ensures-both _ (batch-Agrees m e) (batch_save_stem_addresses-Changes M laws B codecs m e))
        (λ _ e' (h, k). record {
          agree = h;
          kept = λ stem address p.
              ap (λ c. c.addresses stem) k
              ∙ add_missing-keeps stem address m (view M laws B codecs e).addresses p;
          others = λ stem p.
              ap (λ c. c.addresses stem) k
              ∙ add_missing-others stem m (view M laws B codecs e).addresses p;
        })
        (λ _ e' h. ap (λ T. T stem_addr_db) h)

  absent-put :
      (stem : Stem) (address : Address) (db : Dbi) (t : Txn) (o : Option Bytes)
      → name_of db ≡ stem_addr_db
      → seen t stem_addr_db stem ≡ o
      → Answers
          (λ t'.
            (seen t stem_addr_db stem ≡ none)
            × (contents_of B (seen t')
                ≡ with_addresses M laws B codecs (put stem address) (contents_of B (seen t))))
          (put_absent M stem address db t o)
  unfolding put_absent
  absent-put stem address db t none p q =
      Answers-weaken _ (put-Answers M laws stem_addr_db t db stem address p)
        (λ t' r. (q, address_put M laws B codecs stem address t t' r))
  absent-put stem address db t (some existing) p q = record { answer = tt }

  -- `save_stem_address` returns only if the stem has no address, and then it has the given one and
  -- nothing else changes; if it fails, nothing changes.
  pub save_stem_address-put :
      (stem : Stem) (address : Address) (e : Env)
      → Ensures
          (λ _ e'.
            ((view M laws B codecs e).addresses stem ≡ none)
            × (view M laws B codecs e'
                ≡ with_addresses M laws B codecs (put stem address) (view M laws B codecs e)))
          (λ _ e'. view M laws B codecs e' ≡ view M laws B codecs e)
          (save_stem_address M stem address e)
  unfolding save_stem_address
  save_stem_address-put stem address e =
      Ensures-weaken _
        (write_to-Ensures M laws
          (λ T.
            (rows e stem_addr_db stem ≡ none)
            × (contents_of B T
                ≡ with_addresses M laws B codecs (put stem address) (contents_of B (rows e))))
          plain stem_addr_db _ e
          (λ t db p q. Answers-bind _ _ (get-Answers M laws stem_addr_db t db stem p) (λ o r.
            Answers-bind (put_absent M stem address db t o) _ (absent-put stem address db t o p r)
              (λ t' (new, s). record { answer = (rw q at new, rw q at s) }))))
        (λ _ e' h. h) (λ _ e' h. ap (contents_of B) h)
