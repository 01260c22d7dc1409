-- ===== src/Config.antt =====
-- The settings of src/config.rs: an argument, else an environment variable, else a default. The
-- environment is a parameter: a variable that is not set, or not text, is `none`.
pub mod Laws
pub mod Normal
use ubt_exex.Common.{
  ℕ, Bool, true, false, Option, none, some, [], ◌∷◌, ◌==◌, list_eq, nat_eq, if◌then◌else◌, not,
  ◌||◌, unwrap_or,
}
use ubt_exex.Common.Text.{Text, codes, trim, to_ascii_lowercase, parse_u64}

abbrev pub default_flush_interval : ℕ
default_flush_interval = 1

abbrev pub default_delta_retention : ℕ
default_delta_retention = 256

abbrev pub default_rpc_http_addr : Text
default_rpc_http_addr = codes "127.0.0.1:9845"

abbrev pub default_rpc_ipc_path : Text
default_rpc_ipc_path = codes "/tmp/ubt-exex.ipc"

-- A path is its text.
pub record UbtConfig : Type 0 where
  pub data_dir : Option Text
  pub flush_interval : ℕ
  pub delta_retention : ℕ
  pub disabled : Bool
  pub rpc_http_addr : Option Text
  pub rpc_ipc_path : Option Text

abbrev pub default_config : UbtConfig
default_config = record {
  data_dir = none;
  flush_interval = default_flush_interval;
  delta_retention = default_delta_retention;
  disabled = false;
  rpc_http_addr = none;
  rpc_ipc_path = none;
}

abbrev pub is_off : Text → Bool
is_off lowered =
    lowered == codes "off"
    || lowered == codes "0"
    || lowered == codes "false"
    || lowered == codes "none"

unfoldable pub normalize_optional : Text → Option Text
normalize_optional value =
    let trimmed = trim value in
    if trimmed == []
    then none
    else if is_off (to_ascii_lowercase trimmed)
    then none
    else some trimmed

module _ (var : Text → Option Text) where
  unfoldable pub get_data_dir : UbtConfig → Text
  get_data_dir c = unwrap_or c.data_dir (unwrap_or (var (codes "RETH_DATA_DIR")) (codes "."))

  -- A number from the environment, where the argument has its default.
  unfoldable pub number_from : Option Text → ℕ → ℕ
  number_from none argument = argument
  number_from (some s) argument = unwrap_or (parse_u64 s) argument

  unfoldable pub get_flush_interval : UbtConfig → ℕ
  unfolding number_from
  get_flush_interval c =
      if c.flush_interval == default_flush_interval
      then number_from (var (codes "UBT_FLUSH_INTERVAL")) c.flush_interval
      else c.flush_interval

  unfoldable pub get_delta_retention : UbtConfig → ℕ
  unfolding number_from
  get_delta_retention c =
      if c.delta_retention == default_delta_retention
      then number_from (var (codes "UBT_DELTA_RETENTION")) c.delta_retention
      else c.delta_retention

  -- An argument, else a variable, either of which can turn the server off, else the default.
  unfoldable pub address_from : Option Text → Option Text → Text → Option Text
  address_from (some argument) variable default = normalize_optional argument
  address_from none (some variable) default = normalize_optional variable
  address_from none none default = some default

  unfoldable pub get_rpc_http_addr : UbtConfig → Option Text
  unfolding address_from
  get_rpc_http_addr c =
      address_from c.rpc_http_addr (var (codes "UBT_RPC_HTTP_ADDR")) default_rpc_http_addr

  unfoldable pub get_rpc_ipc_path : UbtConfig → Option Text
  unfolding address_from
  get_rpc_ipc_path c =
      address_from c.rpc_ipc_path (var (codes "UBT_RPC_IPC_PATH")) default_rpc_ipc_path
