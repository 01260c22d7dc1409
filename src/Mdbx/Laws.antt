-- ===== src/Mdbx/Laws.antt =====
-- What the methods of the wrapper in mdbx.rs give, by the promises of the library.
use ubt_exex.Common.{
  ℕ, ◌<◌, Option, none, some, ◌∷◌, [], ◌≡◌, ◌==◌, length, Bool-cases, inl, inr, eq_of_true, refl,
  nat_eq, list_eq,
}
use ubt_exex.Common.Bytes.{Bytes}
use ubt_exex.Common.Integers.{ℤ, int_eq}
use ubt_exex.Common.Text.{Text, contains}
use ubt_exex.Mdbx.{Ffi, Result, ok, err, check_rc, returning, found, ◌>>=◌}
use ubt_exex.Mdbx.Env.{begin_ro_txn, begin_rw_txn, c_string}
use ubt_exex.Mdbx.Txn.{c_name, open_named, open_db, create_db, get, put, del, cursor}
use ubt_exex.Mdbx.Cursor.{next}
use ubt_exex.Mdbx.Tables.{IsFfi, Lists, change, write, remove}

-- What holds of a call that succeeds.
abbrev pub Given {ℓ} : {A : Type ℓ} → (A → Type 0) → Result A → Type 0
Given Q (ok a) = Q a
Given Q (err e) = Unit {0}

pub record Gives {ℓ} {A : Type ℓ} (Q : A → Type 0) (r : Result A) : Type 0 where
  pub given : Given Q r

pub Gives-bind :
    {A B : Type 0} {P : A → Type 0} {Q : B → Type 0} (r : Result A) (f : A → Result B)
    → Gives P r
    → ((a : A) → P a → Gives Q (f a))
    → Gives Q (r >>= f)
Gives-bind (ok a) f h k = k a h.given
Gives-bind (err e) f h k = record { given = tt }

module _ (M : Ffi) {A : Type 0} where
  pub returning-Gives :
      {Q : A → Type 0} (rc : ℤ) (a : A) → (rc ≡ M.success → Q a) → Gives Q (returning M rc a)
  unfolding returning check_rc
  returning-Gives rc a h = elim (Bool-cases (rc == M.success)) [
    | inl p ↦ rw p (record { given = h (eq_of_true rc M.success p) })
    | inr p ↦ rw p (record { given = tt })
  ]

  pub found-Gives :
      {Q : Option A → Type 0} (rc : ℤ) (a : A)
      → (rc ≡ M.success → Q (some a))
      → (rc ≡ M.not_found → Q none)
      → Gives Q (found M rc a)
  unfolding found
  found-Gives rc a h k = elim (Bool-cases (rc == M.success)) [
    | inl p ↦ rw p (record { given = h (eq_of_true rc M.success p) })
    | inr p ↦ rw p (elim (Bool-cases (rc == M.not_found)) [
      | inl q ↦ rw q (record { given = k (eq_of_true rc M.not_found q) })
      | inr q ↦ rw q (record { given = tt })
    ])
  ]

pub c_name-Gives : (name : Text) → Gives (λ o. o ≡ some name) (c_name (some name))
unfolding c_name c_string
c_name-Gives name = elim (Bool-cases (contains 0 name)) [
  | inl p ↦ rw p (record { given = tt })
  | inr p ↦ rw p (record { given = refl })
]

module _ (M : Ffi) (laws : IsFfi M) where
  open M use {Env, Txn, Dbi, Cursor}
  open laws use {rows, seen, name_of, left}

  pub begin_ro_txn-Gives : (e : Env) → Gives (λ t. seen t ≡ rows e) (begin_ro_txn M e)
  unfolding begin_ro_txn
  begin_ro_txn-Gives e = returning-Gives M _ _ (laws.begin_sees e M.rdonly)

  pub begin_rw_txn-Gives : (e : Env) → Gives (λ t. seen t ≡ rows e) (begin_rw_txn M e)
  unfolding begin_rw_txn
  begin_rw_txn-Gives e = returning-Gives M _ _ (laws.begin_sees e 0)

  abbrev pub Opened : Text → Txn → Dbi × Txn → Type 0
  Opened name t (db, t') = (name_of db ≡ name) × (seen t' ≡ seen t)

  open_named-Gives :
      (t : Txn) (flags : ℕ) (name : Text) → Gives (Opened name t) (open_named M t flags (some name))
  unfolding open_named
  open_named-Gives t flags name = returning-Gives M _ _ (laws.open_names t name flags)

  pub open_db-Gives : (t : Txn) (name : Text) → Gives (Opened name t) (open_db M t (some name))
  unfolding open_db
  open_db-Gives t name =
      Gives-bind (c_name (some name)) _ (c_name-Gives name)
        (λ o p. rw p (open_named-Gives t 0 name))

  pub create_db-Gives :
      (t : Txn) (name : Text) (flags : ℕ) → Gives (Opened name t) (create_db M t (some name) flags)
  unfolding create_db
  create_db-Gives t name flags =
      Gives-bind (c_name (some name)) _ (c_name-Gives name)
        (λ o p. rw p (open_named-Gives t _ name))

  pub get-Gives :
      (t : Txn) (db : Dbi) (key : Bytes) → Gives (λ o. seen t (name_of db) key ≡ o) (get M t db key)
  unfolding get
  get-Gives t db key = found-Gives M _ _ (laws.get_found t db key) (laws.get_missing t db key)

  pub put-Gives :
      (t : Txn) (db : Dbi) (key value : Bytes)
      → Gives
          (λ t'. seen t' ≡ change (name_of db) (write key value) (seen t))
          (put M t db key value 0)
  unfolding put
  put-Gives t db key value = returning-Gives M _ _ (laws.put_writes t db key value)

  pub del-Gives :
      (t : Txn) (db : Dbi) (key : Bytes)
      → Gives (λ t'. seen t' ≡ change (name_of db) (remove key) (seen t)) (del M t db key none)
  unfolding del
  del-Gives t db key = elim (Bool-cases ((M.del t db key none).0 == M.success)) [
    | inl p ↦
        rw p (record { given = laws.del_removes t db key (eq_of_true (M.del t db key none).0 _ p) })
    | inr p ↦ rw p (elim (Bool-cases ((M.del t db key none).0 == M.not_found)) [
      | inl q ↦
          rw q
            (record { given = laws.del_missing t db key (eq_of_true (M.del t db key none).0 _ q) })
      | inr q ↦ rw q (record { given = tt })
    ])
  ]

  pub cursor-Gives :
      (t : Txn) (db : Dbi)
      → Gives
          (λ c. Lists (seen t (name_of db)) (left c) × (length (left c) < M.most_rows t db))
          (cursor M t db)
  unfolding cursor
  cursor-Gives t db = returning-Gives M _ _ (laws.cursor_lists t db)

  -- The next row is the first of those left.
  abbrev pub Stepped : Cursor → Option ((Bytes × Bytes) × Cursor) → Type 0
  Stepped c none = left c ≡ []
  Stepped c (some (row, c')) = left c ≡ row ∷ left c'

  pub next-Gives : (c : Cursor) → Gives (Stepped c) (next M c)
  unfolding next
  next-Gives c = found-Gives M _ _ (laws.next_row c) (laws.next_end c)
