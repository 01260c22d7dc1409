-- ===== src/Tests/Settings.antt =====
-- Settings read from texts, and the theorems on them applied.
use ubt_exex.Common.{
  inl, inr, ◌*◌, none, some, [], ◌∷◌, ◌≡◌, refl, arith, if◌then◌else◌, leb, list_beq, ◌==◌, list_eq,
  nat_eq, Option, ◌++◌, ◌⊎◌, ◌≢◌, true, false,
}
use ubt_exex.Common.Text.{Text, codes, trim, trim_start, trim_end, is_space, u64_max}
use ubt_exex.Config.{normalize_optional, get_flush_interval, default_config, default_flush_interval}
use ubt_exex.Config.Normal.{TurnsOff, normalize_optional-Off}
use ubt_exex.Config.Laws.{get_flush_interval-digits, value_from}
use ubt_exex.Mdbx
use ubt_exex.Persistence.Size.{mdbx_max_size_from_env}
use ubt_exex.Persistence.Parsed.{size_of-digits}
use ubt_exex.Persistence.Head.{Folder}
use ubt_exex.Mdbx.Tables.{HasTables}
use ubt_exex.Tests.Disk.{memory_mdbx, DiskTables}

normalized : normalize_optional (codes " 127.0.0.1:1 ") ≡ some (codes "127.0.0.1:1")
unfolding normalize_optional trim trim_start trim_end is_space list_beq
normalized = refl

turned_off : normalize_optional (codes " Off") ≡ none
unfolding normalize_optional trim trim_start trim_end is_space list_beq
turned_off = refl

abbrev address : Text
address = codes "127.0.0.1:1"

normalize_optional-Off_example :
    ((normalize_optional (codes " " ++ (address ++ codes " ")) ≡ none)
      × ((address ≡ []) ⊎ TurnsOff address))
    ⊎ ((normalize_optional (codes " " ++ (address ++ codes " ")) ≡ some address)
        × (address ≢ [])
        × (TurnsOff address → ⊥))
unfolding is_space
normalize_optional-Off_example =
    normalize_optional-Off (codes " ") address (codes " ") (blank, tt) (blank, tt) bare bare
  where
    blank : is_space 32 ≡ true
    blank = refl

    bare : is_space 49 ≡ false
    bare = refl

-- An environment with one variable.
abbrev interval_var : Text → Option Text
interval_var name = if name == codes "UBT_FLUSH_INTERVAL" then some (codes "305") else none

interval_set : interval_var (codes "UBT_FLUSH_INTERVAL") ≡ some (codes "305")
unfolding list_beq
interval_set = refl

get_flush_interval-digits_example : get_flush_interval interval_var default_config ≡ (
    if leb (value_from 0 (3 ∷ 0 ∷ 5 ∷ [])) u64_max
    then value_from 0 (3 ∷ 0 ∷ 5 ∷ [])
    else default_flush_interval)
get_flush_interval-digits_example =
    get_flush_interval-digits interval_var default_config 3 (0 ∷ 5 ∷ []) refl interval_set
      (omega arith, (omega arith, (omega arith, tt)))

size_of-digits_example : mdbx_max_size_from_env (some (codes "64KB")) ≡ (
    if leb (value_from 0 (6 ∷ 4 ∷ []) * 1024) u64_max
    then some (value_from 0 (6 ∷ 4 ∷ []) * 1024)
    else none)
size_of-digits_example =
    size_of-digits 6 (4 ∷ []) (codes "KB") 1024 (omega arith, (omega arith, tt))
      (inr (inr (inr (inl refl))))

abbrev folder : Folder
folder = record { to_str = some (codes "/data/ubt"); display = [] }

abbrev no_tables : DiskTables
no_tables = λ _. []

-- In memory, every table is there.
abbrev memory_mdbx-HasTables : HasTables memory_mdbx
memory_mdbx-HasTables = record {
  made = λ e name. Unit {0};
  made_in = λ t name. Unit {0};
  open_makes = λ t name flags p. tt;
  open_keeps = λ t name other flags p h. tt;
  commit_keeps = λ t e name p h. tt;
}
