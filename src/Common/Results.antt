-- ===== src/Common/Results.antt =====
-- error.rs: the error types, and `Result` with the `?` operator as a bind. A method that takes
-- `&mut self` is an action of `Exec`: what was written before an error stays written, so the new
-- state comes back beside the error too.
use Prim.Native.Nat.{ℕ}
use ubt_exex.Common.Integers.{ℤ}
use Prim.Native.String.{String}
use mathlib.Core.Option.{Option, none, some}
use mathlib.Core.List.{List, [], ◌∷◌}

-- A message made by `format!`, before its numbers and bytes are printed.
pub data Piece : Type 0 where
  text : String → Piece
  number : ℕ → Piece
  signed : ℤ → Piece
  hex : List ℕ → Piece

abbrev pub Message : Type 0
Message = List Piece

abbrev pub just : String → Message
just s = text s ∷ []

pub data DatabaseError : Type 0 where
  mdbx : Message → DatabaseError
  open_failed : Message → Message → DatabaseError
  transaction : Message → DatabaseError

pub data UbtError : Type 0 where
  database : DatabaseError → UbtError
  serialization : Message → UbtError
  state_extraction : Message → UbtError
  io : Message → UbtError
  root_verification_failed : Message → Message → UbtError

-- `panic` is no value of the source: it is where `expect` would abort the process.
pub data Result {ℓ} (A : Type ℓ) : Type ℓ where
  ok : A → Result A
  err : UbtError → Result A
  panic : Message → Result A

-- `UbtError::Database(DatabaseError::Mdbx(..))`, the error that most checks return.
abbrev pub mdbx_error {ℓ} : {A : Type ℓ} → Message → Result A
mdbx_error m = err (database (mdbx m))

infixl 5 ◌>>=◌ ◌>>◌
abbrev pub ◌>>=◌ {ℓ κ} : {A : Type ℓ} {B : Type κ} → Result A → (A → Result B) → Result B
ok a >>= f = f a
err e >>= f = err e
panic m >>= f = panic m

abbrev pub ◌>>◌ {ℓ} : {B : Type ℓ} → Result (Unit {0}) → Result B → Result B
m >> k = m >>= λ _. k

-- `Option::ok_or_else`.
abbrev pub ok_or {ℓ} : {A : Type ℓ} → Option A → UbtError → Result A
ok_or none e = err e
ok_or (some a) e = ok a

abbrev pub unwrap_or {ℓ} : {A : Type ℓ} → Option A → A → A
unwrap_or none d = d
unwrap_or (some a) d = a

-- What a foreign call returns: its own error type, of which the source keeps the text.
pub data Foreign {ℓ} (A : Type ℓ) : Type ℓ where
  done : A → Foreign A
  failed : String → Foreign A

-- `.map_err(|e| UbtError::Database(DatabaseError::Mdbx(e.to_string())))`
abbrev pub map_err {ℓ} : {A : Type ℓ} → Foreign A → Result A
map_err (done a) = ok a
map_err (failed e) = mdbx_error (just e)
