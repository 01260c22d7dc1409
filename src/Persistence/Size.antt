-- ===== src/Persistence/Size.antt =====
-- `mdbx_max_size_from_env` of persistence.rs: a number with an optional unit.
use ubt_exex.Common.{
  ℕ, ◌*◌, Bool, Option, none, some, [], ◌∷◌, ◌==◌, list_eq, nat_eq, if◌then◌else◌, ◌&&◌, ◌||◌, leb,
}
use ubt_exex.Common.Text.{Text, codes, trim, to_ascii_uppercase, parse_u64, u64_max}

abbrev pub is_letter : ℕ → Bool
is_letter c = (leb 65 c && leb c 90) || (leb 97 c && leb c 122)

-- `find` of the first letter with `split_at`.
unfoldable pub split_unit : Text → Text × Text
split_unit [] = ([], [])
split_unit (c ∷ s) =
    let rest = split_unit s in if is_letter c then ([], c ∷ s) else (c ∷ rest.0, rest.1)

unfoldable pub factor_of : Text → Option ℕ
factor_of unit =
    if unit == [] || unit == codes "B"
    then some 1
    else if unit == codes "K" || unit == codes "KB"
    then some 1024
    else if unit == codes "M" || unit == codes "MB"
    then some (1024 * 1024)
    else if unit == codes "G" || unit == codes "GB"
    then some (1024 * 1024 * 1024)
    else if unit == codes "T" || unit == codes "TB"
    then some (1024 * 1024 * 1024 * 1024)
    else none

-- `checked_mul`, of a number and a factor if there are both.
unfoldable pub checked_size : Option ℕ → Option ℕ → Option ℕ
checked_size none factor = none
checked_size (some number) none = none
checked_size (some number) (some factor) =
    if leb (number * factor) u64_max then some (number * factor) else none

unfoldable pub size_of : Text → Option ℕ
unfolding split_unit factor_of checked_size
size_of raw =
    let s = to_ascii_uppercase (trim raw) in
    checked_size (parse_u64 (trim (split_unit s).0)) (factor_of (trim (split_unit s).1))

-- The variable `UBT_MDBX_MAX_SIZE`, if it is set and text.
unfoldable pub mdbx_max_size_from_env : Option Text → Option ℕ
unfolding size_of
mdbx_max_size_from_env none = none
mdbx_max_size_from_env (some raw) = size_of raw
