-- ===== src/Mdbx/Cursor.antt =====
-- `Cursor::next` of mdbx.rs.
use ubt_exex.Common.{Option}
use ubt_exex.Common.Bytes.{Bytes}
use ubt_exex.Mdbx.{Ffi, Result, found}

module _ (M : Ffi) where
  open M use {Cursor}

  unfoldable pub next : Cursor → Result (Option ((Bytes × Bytes) × Cursor))
  next c = let moved = M.cursor_next c in found M moved.0 moved.1
