-- ===== src/Mdbx.antt =====
-- mdbx.rs: the return codes of the MDBX library and the errors made of them. The library is
-- written in C and is not part of the repository: what the wrapper calls of it is a parameter.
pub mod Env
pub mod Txn
pub mod Cursor
pub mod Tables
pub mod Laws
use ubt_exex.Common.{
  ℕ, Bool, Option, none, some, List, [], ◌∷◌, ◌==◌, if◌then◌else◌, String, Message, text, just,
  signed, Piece, ◌++◌,
}
use ubt_exex.Common.Bytes.{Bytes}
use ubt_exex.Common.Integers.{ℤ, pos, negsuc, int_eq}
use ubt_exex.Common.Text.{Text}

pub record Geometry : Type 0 where
  pub size_lower : ℤ
  pub size_now : ℤ
  pub size_upper : ℤ
  pub growth_step : ℤ
  pub shrink_threshold : ℤ
  pub page_size : ℤ

-- The handles stand for what is behind the pointers, and an output parameter is part of the
-- result. `Env` is what is on disk, and `Txn` is what the transaction sees.
pub record Ffi : Type 1 where
  pub Env : Type 0
  pub Txn : Type 0
  pub Dbi : Type 0
  pub Cursor : Type 0
  pub success : ℤ
  pub not_found : ℤ
  pub create : ℕ
  pub rdonly : ℕ
  -- `none` is the null pointer.
  pub strerror : ℤ → Option String
  pub env_create : ℤ × Env
  pub env_set_maxdbs : Env → ℕ → ℤ × Env
  pub env_set_geometry : Env → Geometry → ℤ × Env
  pub env_open : Env → Text → ℕ → ℕ → ℤ × Env
  pub env_sync_ex : Env → Bool → Bool → ℤ
  pub txn_begin : Env → ℕ → ℤ × Txn
  pub txn_commit : Txn → Env → ℤ × Env
  pub dbi_open : Txn → Option Text → ℕ → ℤ × (Dbi × Txn)
  pub get : Txn → Dbi → Bytes → ℤ × Bytes
  pub put : Txn → Dbi → Bytes → Bytes → ℕ → ℤ × Txn
  pub del : Txn → Dbi → Bytes → Option Bytes → ℤ × Txn
  pub cursor_open : Txn → Dbi → ℤ × Cursor
  -- `mdbx_cursor_get` with `MDBX_NEXT`
  pub cursor_next : Cursor → ℤ × ((Bytes × Bytes) × Cursor)
  -- No call of the source: a number above that of the rows of a table, which is the fuel of the loops
  -- over a cursor.
  pub most_rows : Txn → Dbi → ℕ

pub record Error : Type 0 where
  pub code : ℤ
  pub message : Message

-- `Result<T, mdbx::Error>`
pub data Result {ℓ} (A : Type ℓ) : Type ℓ where
  ok : A → Result A
  err : Error → Result A

infixl 5 ◌>>=◌
abbrev pub ◌>>=◌ {ℓ κ} : {A : Type ℓ} {B : Type κ} → Result A → (A → Result B) → Result B
ok a >>= f = f a
err e >>= f = err e

-- The `Display` of an error.
abbrev pub to_string : Error → Message
to_string e = text "MDBX error " ∷ signed e.code ∷ text ": " ∷ e.message

module _ (M : Ffi) where
  unfoldable pub message_of : ℤ → Option String → Message
  message_of code none = text "Unknown error (code " ∷ signed code ∷ text ")" ∷ []
  message_of code (some s) = just s

  unfoldable pub from_code : ℤ → Error
  unfolding message_of
  from_code code = record { code = code; message = message_of code (M.strerror code) }

  unfoldable pub is_not_found : Error → Bool
  is_not_found e = e.code == M.not_found

  unfoldable pub check_rc : ℤ → Result (Unit {0})
  check_rc rc = if rc == M.success then ok tt else err (from_code rc)

  -- `check_rc(rc)?; Ok(a)`
  unfoldable pub returning : {A : Type 0} → ℤ → A → Result A
  unfolding check_rc
  returning rc a = check_rc rc >>= λ _. ok a

  -- A call that may find nothing.
  unfoldable pub found : {A : Type 0} → ℤ → A → Result (Option A)
  found rc a =
      if rc == M.success
      then ok (some a)
      else if rc == M.not_found
      then ok none
      else err (from_code rc)
