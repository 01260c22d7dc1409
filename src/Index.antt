-- ===== src/Index.antt =====
-- `KeyIndex` as `UbtExEx` and the RPC see it, and the NOMT store, which is a crate outside the
-- repository: its calls are parameters, and so is what each returns.
pub mod Codec
pub mod Bits
pub mod RoundTrip
pub mod Table
pub mod Refine
pub mod Saved
pub mod Noted
pub mod Counted
pub mod Merged
pub mod Updated
pub mod Iterate
use ubt_exex.Common.{ℕ, ◌≡◌, Option, some, List, Foreign}
use ubt_exex.Common.Bytes.{Bytes}
use ubt_exex.Common.Exec.{Exec, Ensures}
use ubt_exex.Index.Codec.{pack_head}
use ubt_exex.Tree.{Stem, B256, Address}

pub record Index : Type 1 where
  pub Db : Type 0
  -- the bytes under the key of the head
  pub head_of : Db → Option Bytes
  pub apply_updates : List (Stem × ℕ × Address) → Exec Db ℕ
  pub save_head : ℕ → B256 → B256 → ℕ → Exec Db (Unit {0})

pub record IsIndex (X : Index) : Type 0 where
  -- Updating stems leaves the head alone, and never panics.
  pub apply_updates_keeps :
      (u : List (Stem × ℕ × Address)) (d : X.Db)
      → Ensures
          (λ _ d'. X.head_of d' ≡ X.head_of d)
          (λ _ d'. X.head_of d' ≡ X.head_of d)
          (X.apply_updates u d)
  pub save_head_writes :
      (n : ℕ) (h r : B256) (c : ℕ) (d : X.Db)
      → Ensures
          (λ _ d'. X.head_of d' ≡ some (pack_head n h r c))
          (λ _ d'. X.head_of d' ≡ X.head_of d)
          (X.save_head n h r c d)

pub record Nomt : Type 1 where
  pub State : Type 0
  pub Session : Type 0
  pub Finished : Type 0
  pub read : Bytes → State → Foreign (Option Bytes)
  pub begin_session : State → Session
  pub warm_up : Bytes → Session → Session
  -- `KeyReadWrite::Write(Some(v))` for each key path, in order of key paths
  pub finish : List (Bytes × Bytes) → Session → Foreign Finished
  pub commit : Finished → State → Foreign (Unit {0}) × State
  pub rollback : ℕ → State → Foreign (Unit {0}) × State
