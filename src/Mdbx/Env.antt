-- ===== src/Mdbx/Env.antt =====
-- `Geometry`, `DatabaseFlags`, `WriteFlags`, `Environment` and its builder, in mdbx.rs.
use ubt_exex.Common.{ℕ, Bool, false, Option, none, some, if◌then◌else◌, just, ◌*◌, String, nat_eq}
use ubt_exex.Common.Integers.{pos, negsuc}
use ubt_exex.Common.Text.{Text, contains}
use ubt_exex.Mdbx.{Ffi, Geometry, Result, ok, err, ◌>>=◌, check_rc, returning}

abbrev pub default_geometry : Geometry
default_geometry = record {
  size_lower = negsuc 0;
  size_now = pos (4096 * 256);
  size_upper = pos (1024 * 1024 * 1024 * 1024);
  growth_step = negsuc 0;
  shrink_threshold = negsuc 0;
  page_size = pos 4096;
}

-- `WriteFlags::DEFAULT`, and `DatabaseFlags::DEFAULT` and `default()`.
abbrev pub default_flags : ℕ
default_flags = 0

pub record EnvironmentBuilder : Type 0 where
  pub max_dbs : ℕ
  pub geometry : Geometry

abbrev pub builder : EnvironmentBuilder
builder = record { max_dbs = 10; geometry = default_geometry }

abbrev pub set_max_dbs : ℕ → EnvironmentBuilder → EnvironmentBuilder
set_max_dbs n b = record b { max_dbs = n }

abbrev pub set_geometry : Geometry → EnvironmentBuilder → EnvironmentBuilder
set_geometry g b = record b { geometry = g }

abbrev pub invalid {ℓ} : {A : Type ℓ} → String → Result A
invalid why = err (record { code = negsuc 21; message = just why })

-- `CString::new`, with the error that the wrapper makes of a null byte.
unfoldable pub c_string : String → Text → Result Text
c_string why s = if contains 0 s then invalid why else ok s

unfoldable pub path_str : Option Text → Result Text
path_str none = invalid "Invalid path: not valid UTF-8"
path_str (some s) = ok s

module _ (M : Ffi) where
  open M use {Env, Txn}

  -- A path is what `Path::to_str` makes of it.
  unfoldable pub open_env : EnvironmentBuilder → Option Text → Result Env
  unfolding path_str c_string
  open_env b path = returning M M.env_create.0 M.env_create.1 >>= λ env.
      (let made = M.env_set_maxdbs env b.max_dbs in returning M made.0 made.1) >>= λ env.
      (let made = M.env_set_geometry env b.geometry in returning M made.0 made.1) >>= λ env.
      path_str path >>= λ path_str.
      c_string "Invalid path: contains null byte" path_str >>= λ path_cstr.
      (let made = M.env_open env path_cstr 0 420 in returning M made.0 made.1)

  unfoldable pub sync_env : Env → Bool → Result (Unit {0})
  sync_env env force = check_rc M (M.env_sync_ex env force false)

  unfoldable pub begin_ro_txn : Env → Result Txn
  begin_ro_txn env = let begun = M.txn_begin env M.rdonly in returning M begun.0 begun.1

  unfoldable pub begin_rw_txn : Env → Result Txn
  begin_rw_txn env = let begun = M.txn_begin env 0 in returning M begun.0 begun.1
