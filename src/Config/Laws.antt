-- ===== src/Config/Laws.antt =====
-- The parsing of numbers in the settings of src/config.rs.
use ubt_exex.Common.{
  ℕ, ◌+◌, ◌*◌, ◌-◌, ◌≤◌, ◌<◌, Bool, true, false, Option, none, some, List, [], ◌∷◌, ◌≡◌, refl, ap,
  ◌∙◌, ◌==◌, list_eq, nat_eq, if◌then◌else◌, arith, leb, All, map, Bool-cases, inl, inr, unwrap_or,
}
use ubt_exex.Common.Text.{Text, codes, parse_digits, parse_u64, u64_max}
use ubt_exex.Config.{UbtConfig, get_flush_interval, number_from, default_flush_interval}

-- The number that decimal digits stand for, after `n`.
abbrev pub value_from : ℕ → List ℕ → ℕ
value_from n [] = n
value_from n (d ∷ ds) = value_from (n * 10 + d) ds

value_from-le : (n : ℕ) (ds : List ℕ) → n ≤ value_from n ds
value_from-le n [] = omega arith
value_from-le n (d ∷ ds) = omega (arith, value_from-le (n * 10 + d) ds)

parse_digits-value :
    (n : ℕ) (ds : List ℕ)
    → n ≤ u64_max
    → All (λ d. d < 10) ds
    → parse_digits n (map (λ d. d + 48) ds)
      ≡ (if leb (value_from n ds) u64_max then some (value_from n ds) else none)
unfolding parse_digits
parse_digits-value n [] h k = ground (arith, h)
parse_digits-value n (d ∷ ds) h k =
    let digit : n * 10 + (d + 48 - 48) ≡ n * 10 + d = omega arith in
    let low : leb 48 (d + 48) ≡ true = ground arith in
    let high : leb (d + 48) 57 ≡ true = ground (arith, k.0) in
    rw (digit, low, high)
      (elim (Bool-cases (leb (n * 10 + d) u64_max)) [
        | inl p ↦ rw p (parse_digits-value (n * 10 + d) ds (ground (arith, p)) k.1)
        | inr p ↦ rw p (ground (arith, p, value_from-le (n * 10 + d) ds))
      ])

-- Digits are read as the number that they stand for, if that has 64 bits.
pub parse_u64-value :
    (d : ℕ) (ds : List ℕ)
    → All (λ d. d < 10) (d ∷ ds)
    → parse_u64 (map (λ d. d + 48) (d ∷ ds))
      ≡ (if leb (value_from 0 (d ∷ ds)) u64_max then some (value_from 0 (d ∷ ds)) else none)
unfolding parse_u64
parse_u64-value d [] h = parse_digits-value 0 (d ∷ []) (omega arith) h
parse_u64-value d (e ∷ ds) h =
    let no_sign : (d + 48 == 43) ≡ false = ground arith in
    rw no_sign (parse_digits-value 0 (d ∷ e ∷ ds) (omega arith) h)

-- Where the argument has its default, and the variable is a text of decimal digits, the first of
-- which is `d`, the flush interval is the number that the digits stand for, if that has 64 bits, and
-- the default if not.
pub get_flush_interval-digits :
    (var : Text → Option Text) (c : UbtConfig) (d : ℕ) (ds : List ℕ)
    → c.flush_interval ≡ default_flush_interval
    → var (codes "UBT_FLUSH_INTERVAL") ≡ some (map (λ d. d + 48) (d ∷ ds))
    → All (λ d. d < 10) (d ∷ ds)
    → get_flush_interval var c ≡ (
        if leb (value_from 0 (d ∷ ds)) u64_max
        then value_from 0 (d ∷ ds)
        else default_flush_interval)
unfolding get_flush_interval number_from
get_flush_interval-digits var c d ds p q h =
    rw (p, q)
      (ap (λ o. unwrap_or o default_flush_interval) (parse_u64-value d ds h)
        ∙ by_test (leb (value_from 0 (d ∷ ds)) u64_max))
  where
    by_test :
        (b : Bool)
        → unwrap_or (if b then some (value_from 0 (d ∷ ds)) else none) default_flush_interval
          ≡ (if b then value_from 0 (d ∷ ds) else default_flush_interval)
    by_test true = refl
    by_test false = refl
