-- ===== src/Persistence/Rules.antt =====
-- Rules for the transactions of persistence.rs and for its loops over the rows of a table.
use ubt_exex.Common.{
  ℕ, zero, suc, ◌<◌, List, [], ◌∷◌, some, none, Option, ◌≡◌, refl, ap, sym, ◌∙◌, ◌⊎◌, inl, inr,
  Result, ok, err, panic, ◌>>=◌, UbtError, length, arith, Foreign, done, failed, Bool-cases, ◌==◌,
  eq_of_true, ne_of_false,
}
use mathlib.Core.Path.{subst}
use ubt_exex.Common.Bytes.{Bytes}
use ubt_exex.Common.Exec.{Answers, Answers-bind, Answers-weaken, Ensures, Ensures-weaken}
use ubt_exex.Common.Text.{Text}
use ubt_exex.Common.Integers.{int_eq}
use ubt_exex.Mdbx.{Ffi, Error, check_rc}
use ubt_exex.Mdbx
use ubt_exex.Mdbx.Env.{begin_ro_txn, begin_rw_txn}
use ubt_exex.Mdbx.Txn.{open_db, get, put, del, cursor, commit}
use ubt_exex.Mdbx.Cursor.{next}
use ubt_exex.Mdbx.Tables.{IsFfi, Tables, Lists, change, write, remove}
use ubt_exex.Mdbx.Laws.{
  Gives, begin_ro_txn-Gives, begin_rw_txn-Gives, open_db-Gives, get-Gives, put-Gives, del-Gives,
  cursor-Gives, next-Gives, Stepped,
}
use ubt_exex.Persistence.{
  Codec, Wording, coded, or_fail, as_mdbx, as_transaction, read_from, finish, commit_or_drop,
  write_to, while_rows,
}

-- What is serialized can be read again.
abbrev pub IsCodec : {A : Type 0} → Codec A → Type 0
IsCodec {A} c = (a : A) (bytes : Bytes) → c.serialize a ≡ done bytes → c.deserialize bytes ≡ done a

abbrev pub option_of {ℓ} : {A : Type ℓ} → Foreign A → Option A
option_of (done a) = some a
option_of (failed e) = none

-- What a table has for a key, decoded.
abbrev pub decoded {ℓ} : {A : Type ℓ} → (Bytes → Foreign A) → Option Bytes → Option A
decoded f none = none
decoded f (some bytes) = option_of (f bytes)

module _ {A : Type 0} (c : Codec A) where
  pub coded-Answers :
      IsCodec c → (a : A) → Answers (λ bytes. c.deserialize bytes ≡ done a) (coded (c.serialize a))
  coded-Answers law a = by_result (c.serialize a) (law a)
    where
      by_result :
          (r : Foreign Bytes)
          → ((bytes : Bytes) → r ≡ done bytes → c.deserialize bytes ≡ done a)
          → Answers (λ bytes. c.deserialize bytes ≡ done a) (coded r)
      by_result (done b) h = record { answer = h b refl }
      by_result (failed e) h = record { answer = tt }

pub or_fail-Answers :
    {A : Type 0} {Q : A → Type 0} (why : Error → UbtError) (r : Mdbx.Result A)
    → Gives Q r
    → Answers Q (or_fail why r)
or_fail-Answers why (Mdbx.ok a) h = record { answer = h.given }
or_fail-Answers why (Mdbx.err e) h = record { answer = tt }

-- A stored value decodes, or the method fails.
pub decode_row-Answers :
    {A : Type 0} (f : Bytes → Foreign A) (bytes : Bytes)
    → Answers {A = Option A}
        (λ o. o ≡ decoded f (some bytes))
        (coded (f bytes) >>= λ a. ok (some a))
decode_row-Answers f bytes = by_result (f bytes)
  where
    by_result :
        {A : Type 0} (r : Foreign A)
        → Answers {A = Option A} (λ o. o ≡ option_of r) (coded r >>= λ a. ok (some a))
    by_result (done a) = record { answer = refl }
    by_result (failed e) = record { answer = tt }

-- The loop body on each row of a list.
unfoldable pub fold_rows :
    {A : Type 0} → (Bytes × Bytes → A → Result A) → List (Bytes × Bytes) → A → Result A
fold_rows body [] a = ok a
fold_rows body (row ∷ l) a = body row a >>= fold_rows body l

module _ (M : Ffi) (laws : IsFfi M) where
  open M use {Env, Txn, Dbi, Cursor}
  open laws use {rows, seen, name_of, left}

  module _ {A : Type 0} {Q : A → Type 0} where
    pub read_from-Answers :
        (name : Text) (body : Txn → Dbi → Result A) (e : Env)
        → ((t : Txn) (db : Dbi) → name_of db ≡ name → seen t ≡ rows e → Answers Q (body t db))
        → Answers Q (read_from M name body e)
    unfolding read_from
    read_from-Answers name body e h =
        Answers-bind (or_fail as_transaction (begin_ro_txn M e)) _
          (or_fail-Answers as_transaction _ (begin_ro_txn-Gives M laws e))
          (λ t p.
            Answers-bind (or_fail as_mdbx (open_db M t (some name))) _
              (or_fail-Answers as_mdbx _ (open_db-Gives M laws t name))
              (λ (db, t') (q, r). h t' db q (r ∙ p)))

  -- A method that decodes what a table has for a key.
  pub read_row-Answers :
      {A : Type 0} (name : Text) (key : Bytes) (f : Option Bytes → Result A) (g : Option Bytes → A)
      (e : Env)
      → ((o : Option Bytes) → Answers (λ a. a ≡ g o) (f o))
      → Answers
          (λ a. a ≡ g (rows e name key))
          (read_from M name (λ txn db. or_fail as_mdbx (get M txn db key) >>= f) e)
  read_row-Answers name key f g e h = read_from-Answers name _ e (λ t db p q.
      Answers-bind (or_fail as_mdbx (get M t db key)) _
        (or_fail-Answers as_mdbx _ (get-Gives M laws t db key))
        (λ o r. Answers-weaken (f o) (h o) (λ a s. s ∙ ap g (sym (rw (p, q) at r)))))

  -- A row of an open table, and a write to one.
  pub get-Answers :
      (name : Text) (t : Txn) (db : Dbi) (key : Bytes)
      → name_of db ≡ name
      → Answers (λ o. seen t name key ≡ o) (or_fail as_mdbx (get M t db key))
  get-Answers name t db key p =
      or_fail-Answers as_mdbx _
        (subst (λ n. Gives (λ o. seen t n key ≡ o) (get M t db key)) p (get-Gives M laws t db key))

  pub put-Answers :
      (name : Text) (t : Txn) (db : Dbi) (key value : Bytes)
      → name_of db ≡ name
      → Answers
          (λ t'. seen t' ≡ change name (write key value) (seen t))
          (or_fail as_mdbx (put M t db key value 0))
  put-Answers name t db key value p = or_fail-Answers as_mdbx _ (
      subst
        (λ n. Gives (λ t'. seen t' ≡ change n (write key value) (seen t)) (put M t db key value 0))
        p (put-Gives M laws t db key value))

  pub del-Answers :
      (why : Error → UbtError) (name : Text) (t : Txn) (db : Dbi) (key : Bytes)
      → name_of db ≡ name
      → Answers
          (λ t'. seen t' ≡ change name (remove key) (seen t))
          (or_fail why (del M t db key none))
  del-Answers why name t db key p = or_fail-Answers why _ (
      subst (λ n. Gives (λ t'. seen t' ≡ change n (remove key) (seen t)) (del M t db key none)) p
        (del-Gives M laws t db key))

  pub cursor-Answers :
      (why : Error → UbtError) (name : Text) (t : Txn) (db : Dbi)
      → name_of db ≡ name
      → Answers
          (λ c. Lists (seen t name) (left c) × (length (left c) < M.most_rows t db))
          (or_fail why (cursor M t db))
  cursor-Answers why name t db p = or_fail-Answers why _ (
      subst
        (λ n.
          Gives (λ c. Lists (seen t n) (left c) × (length (left c) < M.most_rows t db))
            (cursor M t db))
        p (cursor-Gives M laws t db))

  finish-Ensures :
      {A : Type 0} (w : Wording) (a : A) (t : Txn) (e : Env)
      → Ensures (λ _ e'. rows e' ≡ seen t) (λ _ e'. rows e' ≡ rows e) (finish M w a (commit M t e))
  unfolding finish commit check_rc
  finish-Ensures w a t e = elim (Bool-cases ((M.txn_commit t e).0 == M.success)) [
    | inl p ↦ rw p (record { post = laws.commit_done t e (eq_of_true _ M.success p) })
    | inr p ↦ rw p (record { post = laws.commit_failed t e (ne_of_false _ M.success p) })
  ]

  module _ (P : Tables → Type 0) {A : Type 0} where
    pub commit_or_drop-Ensures :
        (w : Wording) (r : Result (Txn × A)) (e : Env)
        → Answers (λ t. P (seen t.0)) r
        → Ensures (λ _ e'. P (rows e')) (λ _ e'. rows e' ≡ rows e) (commit_or_drop M w r e)
    unfolding commit_or_drop
    commit_or_drop-Ensures w (ok (t, a)) e h =
        Ensures-weaken _ (finish-Ensures w a t e) (λ _ _ p. subst P (sym p) h.answer) (λ _ _ p. p)
    commit_or_drop-Ensures w (err x) e h = record { post = refl }
    commit_or_drop-Ensures w (panic m) e h = elim h.answer [ ]

    -- What the transaction sees at its end is in the tables if the method returns; if it fails, the
    -- tables are as before.
    pub write_to-Ensures :
        (w : Wording) (name : Text) (body : Txn → Dbi → Result (Txn × A)) (e : Env)
        → ((t : Txn) (db : Dbi)
            → name_of db ≡ name
            → seen t ≡ rows e
            → Answers (λ t'. P (seen t'.0)) (body t db))
        → Ensures (λ _ e'. P (rows e')) (λ _ e'. rows e' ≡ rows e) (write_to M w name body e)
    unfolding write_to
    write_to-Ensures w name body e h = commit_or_drop-Ensures w _ e (
        Answers-bind (or_fail w.on_begin (begin_rw_txn M e)) _
          (or_fail-Answers w.on_begin _ (begin_rw_txn-Gives M laws e))
          (λ t p.
            Answers-bind (or_fail w.on_open (open_db M t (some name))) _
              (or_fail-Answers w.on_open _ (open_db-Gives M laws t name))
              (λ (db, t') (q, r). h t' db q (r ∙ p))))

  module _ {A : Type 0} (why : Error → UbtError) (body : Bytes × Bytes → A → Result A) where
    -- The result of the loop, or an error of the cursor.
    abbrev pub LoopsTo : Result A → Result A → Type 0
    LoopsTo expected r = (r ≡ expected) ⊎ ((e : Error) × (r ≡ err (why e)))

    -- One round, where the rest of the loop ends.
    after_body :
        (r : Result A) (l : List (Bytes × Bytes)) (rest : A → Result A)
        → ((b : A) → LoopsTo (fold_rows body l b) (rest b))
        → LoopsTo (r >>= fold_rows body l) (r >>= rest)
    after_body (ok b) l rest h = h b
    after_body (err e) l rest h = inl refl
    after_body (panic m) l rest h = inl refl

    after_next :
        (c : Cursor) (a : A) (rest : Cursor → A → Result A)
        (moved : Mdbx.Result (Option ((Bytes × Bytes) × Cursor)))
        → ((c' : Cursor) (b : A)
            → length (left c') < length (left c)
            → LoopsTo (fold_rows body (left c') b) (rest c' b))
        → Gives (Stepped M laws c) moved
        → LoopsTo (fold_rows body (left c) a) (
            or_fail why moved >>= λ o. elim o [
              | none ↦ ok a
              | some (row, c') ↦ body row a >>= rest c'
            ])
    unfolding fold_rows
    after_next c a rest (Mdbx.err e) h g = inr (e, refl)
    after_next c a rest (Mdbx.ok none) h g = rw g.given (inl refl)
    after_next c a rest (Mdbx.ok (some (row, c'))) h g =
        rw g.given
          (after_body (body row a) (left c') (rest c') (λ b. h c' b (rw g.given (omega arith))))

    -- For a fuel above the number of rows that the cursor has left, the loop over a cursor ends, by
    -- an error of the cursor or with what the loop body makes of these rows, one after the other.
    pub while_rows-folds :
        (fuel : ℕ) (c : Cursor) (a : A)
        → length (left c) < fuel
        → LoopsTo (fold_rows body (left c) a) (while_rows M why body fuel c a)
    unfolding while_rows
    while_rows-folds zero c a h = absurd (omega (arith, h))
    while_rows-folds (suc fuel) c a h =
        after_next c a (while_rows M why body fuel) (next M c)
          (λ c' b less. while_rows-folds fuel c' b (omega (arith, h, less))) (next-Gives M laws c)

    pub while_rows-Answers :
        {Q : A → Type 0} (fuel : ℕ) (c : Cursor) (a : A)
        → length (left c) < fuel
        → Answers Q (fold_rows body (left c) a)
        → Answers Q (while_rows M why body fuel c a)
    while_rows-Answers fuel c a h k = elim (while_rows-folds fuel c a h) [
      | inl p ↦ rw p k
      | inr (e, p) ↦ rw p (record { answer = tt })
    ]
