-- ===== src/Mdbx/Txn.antt =====
-- The methods of `RoTransaction` and `RwTransaction`, in mdbx.rs. Dropping a transaction that is
-- not committed aborts it: then nothing of it stays.
use ubt_exex.Common.{ℕ, Option, none, some, ◌==◌, if◌then◌else◌, ◌||◌, bit_or}
use ubt_exex.Common.Bytes.{Bytes}
use ubt_exex.Common.Integers.{int_eq}
use ubt_exex.Common.Text.{Text}
use ubt_exex.Mdbx.{Ffi, Result, ok, err, ◌>>=◌, from_code, check_rc, returning, found}
use ubt_exex.Mdbx.Env.{c_string}

unfoldable pub c_name : Option Text → Result (Option Text)
unfolding c_string
c_name none = ok none
c_name (some s) = c_string "Invalid database name: contains null byte" s >>= λ name. ok (some name)

module _ (M : Ffi) where
  open M use {Env, Txn, Dbi, Cursor}

  unfoldable pub open_named : Txn → ℕ → Option Text → Result (Dbi × Txn)
  open_named txn flags name =
      let opened = M.dbi_open txn name flags in returning M opened.0 opened.1

  unfoldable pub open_db : Txn → Option Text → Result (Dbi × Txn)
  unfolding c_name open_named
  open_db txn name = c_name name >>= open_named txn 0

  unfoldable pub create_db : Txn → Option Text → ℕ → Result (Dbi × Txn)
  unfolding c_name open_named
  create_db txn name flags = c_name name >>= open_named txn (bit_or M.create flags)

  unfoldable pub get : Txn → Dbi → Bytes → Result (Option Bytes)
  get txn db key = let got = M.get txn db key in found M got.0 got.1

  unfoldable pub put : Txn → Dbi → Bytes → Bytes → ℕ → Result Txn
  put txn db key value flags =
      let written = M.put txn db key value flags in returning M written.0 written.1

  -- A missing key is no error.
  unfoldable pub del : Txn → Dbi → Bytes → Option Bytes → Result Txn
  del txn db key value =
      let deleted = M.del txn db key value in
      if deleted.0 == M.success || deleted.0 == M.not_found
      then ok deleted.1
      else err (from_code M deleted.0)

  unfoldable pub cursor : Txn → Dbi → Result Cursor
  cursor txn db = let opened = M.cursor_open txn db in returning M opened.0 opened.1

  -- The result with what is on disk afterwards.
  unfoldable pub commit : Txn → Env → Result (Unit {0}) × Env
  commit txn env = let ended = M.txn_commit txn env in (check_rc M ended.0, ended.1)
