-- ===== src/Persistence/Addresses.antt =====
-- The table of stem addresses in persistence.rs.
use ubt_exex.Common.{
  List, [], ◌∷◌, some, none, Option, Result, ok, ◌>>=◌, ◌==◌, nat_eq, list_eq, length,
  if◌then◌else◌, mdbx_error, just, text, number, hex,
}
use ubt_exex.Common.Bytes.{Bytes}
use ubt_exex.Common.Exec.{Exec}
use ubt_exex.Tree.{Stem, Address}
use ubt_exex.Mdbx.{Ffi}
use ubt_exex.Mdbx.Env.{default_flags}
use ubt_exex.Mdbx.Txn.{get, put}
use ubt_exex.Persistence.{stem_addr_db, or_fail, as_mdbx, plain, read_from, write_to}

-- 20 bytes, or an error.
unfoldable pub address_of : Option Bytes → Result (Option Address)
address_of none = ok none
address_of (some bytes) =
    if length bytes == 20
    then ok (some bytes)
    else mdbx_error (text "Invalid address length: expected 20, got " ∷ number (length bytes) ∷ [])

module _ (M : Ffi) where
  open M use {Env, Txn, Dbi}

  unfoldable pub put_absent : Stem → Address → Dbi → Txn → Option Bytes → Result Txn
  put_absent stem address db txn none = or_fail as_mdbx (put M txn db stem address default_flags)
  put_absent stem address db txn (some existing) =
      mdbx_error (text "Stem address already exists for " ∷ hex stem ∷ [])

  unfoldable pub save_stem_address : Stem → Address → Exec Env (Unit {0})
  unfolding put_absent
  save_stem_address stem address = write_to M plain stem_addr_db (λ txn db. do
    existing ← or_fail as_mdbx (get M txn db stem)
    txn' ← put_absent stem address db txn existing
    ok (txn', tt))

  -- One round of the loop of `batch_save_stem_addresses`, given what the table has for the stem.
  unfoldable pub put_or_compare : Stem → Address → Dbi → Txn → Option Bytes → Result Txn
  put_or_compare stem address db txn none =
      or_fail as_mdbx (put M txn db stem address default_flags)
  put_or_compare stem address db txn (some existing) =
      if existing == address then ok txn else mdbx_error (just "Stem address mismatch in MDBX")

  unfoldable pub put_addresses : Dbi → List (Stem × Address) → Txn → Result Txn
  unfolding put_or_compare
  put_addresses db [] txn = ok txn
  put_addresses db ((stem, address) ∷ mappings) txn = do
    existing ← or_fail as_mdbx (get M txn db stem)
    txn' ← put_or_compare stem address db txn existing
    put_addresses db mappings txn'

  unfoldable pub batch_save_stem_addresses : List (Stem × Address) → Exec Env (Unit {0})
  unfolding put_addresses
  batch_save_stem_addresses [] env = (ok tt, env)
  batch_save_stem_addresses (m ∷ mappings) env =
      write_to M plain stem_addr_db
        (λ txn db. put_addresses db (m ∷ mappings) txn >>= λ txn'. ok (txn', tt)) env

  unfoldable pub load_stem_address : Stem → Env → Result (Option Address)
  unfolding address_of
  load_stem_address stem =
      read_from M stem_addr_db
        (λ txn db. do bytes ← or_fail as_mdbx (get M txn db stem); address_of bytes)
