-- ===== src/Persistence/Opened.antt =====
-- `UbtDatabase::open` of persistence.rs.
use ubt_exex.Common.{Result, ok, err, panic, ◌>>=◌}
use ubt_exex.Common.Exec.{Answers, Ensures}
use ubt_exex.Common.Text.{Text}
use ubt_exex.Tree.{Ubt}
use ubt_exex.Mdbx.{Ffi}
use ubt_exex.Mdbx
use ubt_exex.Common.Integers.{int_eq}
use ubt_exex.Mdbx.Tables.{IsFfi, HasTables}
use ubt_exex.Persistence.{Bincode, stems_db, meta_db, deltas_db, stem_addr_db}

module _ {U : Ubt} (M : Ffi) (laws : IsFfi M) (B : Bincode U) where
  open M use {Env, Txn}
  open laws use {rows, seen}

  module _ (named : HasTables M) where
    open named use {made, made_in}

    -- The tables that a transaction has after one is opened.
    abbrev Makes : Text → Txn → Txn → Type 0
    Makes name t t' = made_in t' name × ((other : Text) → made_in t other → made_in t' other)

    -- The four tables of the database.
    abbrev pub AllFour : (Text → Type 0) → Type 0
    AllFour has = has stems_db × has meta_db × has deltas_db × has stem_addr_db

    opened :
        (P : Env → Type 0) {E : Env → Type 0} (r : Result (Unit {0}) × Env)
        → Ensures (λ _ e'. P e') (λ _ e'. E e') r
        → Answers P (r.0 >>= λ _. ok r.1)
    opened P (ok u, e') h = record { answer = h.post }
    opened P (err x, e') h = record { answer = tt }
    opened P (panic m, e') h = elim h.post [ ]
