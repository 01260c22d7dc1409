-- ===== src/Persistence/Parsed.antt =====
-- What `mdbx_max_size_from_env` of persistence.rs reads.
use ubt_exex.Common.{
  Any, list_beq, ◌^◌, ℕ, zero, suc, ◌+◌, ◌*◌, ◌≤◌, ◌<◌, true, false, none, some, List, [], ◌∷◌,
  ◌++◌, ◌≡◌, refl, ap, ◌∙◌, list_eq, nat_eq, if◌then◌else◌, leb, All, All-append, map, arith,
  Bool-cases, inl, inr,
}
use mathlib.Core.Path.{subst}
use ubt_exex.Common.Text.{
  Text, codes, is_space, trim_start, trim_end, trim, keep_unless_blank, to_ascii_uppercase, upper,
  parse_u64, u64_max,
}
use ubt_exex.Config.Laws.{value_from, parse_u64-value}
use ubt_exex.Persistence.Size.{
  is_letter, split_unit, factor_of, checked_size, size_of, mdbx_max_size_from_env,
}

keep_solid : (c : ℕ) (t : Text) → is_space c ≡ false → keep_unless_blank c t ≡ c ∷ t
keep_solid c [] h = rw h refl
keep_solid c (d ∷ t) h = refl

trim_end-solid : (s : Text) → All (λ c. is_space c ≡ false) s → trim_end s ≡ s
unfolding trim_end
trim_end-solid [] h = refl
trim_end-solid (c ∷ s) h = rw (trim_end-solid s h.1) (keep_solid c s h.0)

trim_start-solid : (s : Text) → All (λ c. is_space c ≡ false) s → trim_start s ≡ s
unfolding trim_start
trim_start-solid [] h = refl
trim_start-solid (c ∷ s) h = rw h.0 refl

trim-solid : (s : Text) → All (λ c. is_space c ≡ false) s → trim s ≡ s
unfolding trim
trim-solid s h = ap trim_end (trim_start-solid s h) ∙ trim_end-solid s h

-- Capital letters, of which the units are made.
abbrev pub IsCapital : ℕ → Type 0
IsCapital c = (65 ≤ c) × (c ≤ 90)

abbrev digits : List ℕ → Text
digits = map (λ d. d + 48)

digits-solid : (ds : List ℕ) → All (λ d. d < 10) ds → All (λ c. is_space c ≡ false) (digits ds)
unfolding is_space
digits-solid [] h = tt
digits-solid (d ∷ ds) h = (ground (arith, h.0), digits-solid ds h.1)

capitals-solid : (u : Text) → All IsCapital u → All (λ c. is_space c ≡ false) u
unfolding is_space
capitals-solid [] h = tt
capitals-solid (c ∷ u) ((a, b), h) = (ground (arith, a, b), capitals-solid u h)

upper-digits :
    (ds : List ℕ) (u : Text)
    → All (λ d. d < 10) ds
    → All IsCapital u
    → to_ascii_uppercase (digits ds ++ u) ≡ digits ds ++ u
upper-digits [] [] h k = refl
upper-digits [] (c ∷ u) h ((a, b), k) =
    let same : upper c ≡ c = ground (arith, a, b) in rw (same, upper-digits [] u tt k) refl
upper-digits (d ∷ ds) u h k =
    let same : upper (d + 48) ≡ d + 48 = ground (arith, h.0) in
    rw (same, upper-digits ds u h.1 k) refl

split-digits :
    (ds : List ℕ) (u : Text)
    → All (λ d. d < 10) ds
    → All IsCapital u
    → split_unit (digits ds ++ u) ≡ (digits ds, u)
unfolding split_unit
split-digits [] [] h k = refl
split-digits [] (c ∷ u) h ((a, b), k) =
    let letter : is_letter c ≡ true = ground (arith, a, b) in rw letter refl
split-digits (d ∷ ds) u h k =
    let no_letter : is_letter (d + 48) ≡ false = ground (arith, h.0) in
    rw (no_letter, split-digits ds u h.1 k) refl

le-mul : (v f : ℕ) → 1 ≤ f → v ≤ v * f
le-mul v zero h = absurd (omega (arith, h))
le-mul v (suc f) h = omega arith

checked_value :
    (v : ℕ) (factor : ℕ)
    → 1 ≤ factor
    → checked_size (if leb v u64_max then some v else none) (some factor)
      ≡ (if leb (v * factor) u64_max then some (v * factor) else none)
unfolding checked_size
checked_value v factor h = elim (Bool-cases (leb v u64_max)) [
  | inl p ↦ rw p refl
  | inr p ↦ rw p (ground (arith, p, le-mul v factor h))
]

factor_of-positive : (unit : Text) (factor : ℕ) → factor_of unit ≡ some factor → 1 ≤ factor
unfolding factor_of
factor_of-positive unit factor h = ground arith

digits_sized :
    (d : ℕ) (ds : List ℕ) (unit : Text) (factor : ℕ)
    → All (λ d. d < 10) (d ∷ ds)
    → All IsCapital unit
    → factor_of unit ≡ some factor
    → mdbx_max_size_from_env (some (map (λ d. d + 48) (d ∷ ds) ++ unit)) ≡ (
        if leb (value_from 0 (d ∷ ds) * factor) u64_max
        then some (value_from 0 (d ∷ ds) * factor)
        else none)
unfolding mdbx_max_size_from_env size_of
digits_sized d ds unit factor h k f =
    let whole : trim (digits (d ∷ ds) ++ unit) ≡ digits (d ∷ ds) ++ unit =
      trim-solid (digits (d ∷ ds) ++ unit) (
        All-append (λ c. is_space c ≡ false) (digits (d ∷ ds)) unit (digits-solid (d ∷ ds) h)
          (capitals-solid unit k)) in
    ap (λ s. checked_size (parse_u64 (trim (split_unit s).0)) (factor_of (trim (split_unit s).1)))
      (ap to_ascii_uppercase whole ∙ upper-digits (d ∷ ds) unit h k)
    ∙ ap (λ p. checked_size (parse_u64 (trim p.0)) (factor_of (trim p.1)))
        (split-digits (d ∷ ds) unit h k)
    ∙ ap (λ s. checked_size (parse_u64 s) (factor_of (trim unit)))
        (trim-solid (digits (d ∷ ds)) (digits-solid (d ∷ ds) h))
    ∙ ap (λ s. checked_size (parse_u64 (digits (d ∷ ds))) (factor_of s))
        (trim-solid unit (capitals-solid unit k))
    ∙ ap (λ o. checked_size o (factor_of unit)) (parse_u64-value d ds h)
    ∙ ap
        (checked_size
          (if leb (value_from 0 (d ∷ ds)) u64_max then some (value_from 0 (d ∷ ds)) else none))
        f
    ∙ checked_value (value_from 0 (d ∷ ds)) factor (factor_of-positive unit factor f)

-- The units of a size, and their factors.
abbrev pub units : List (Text × ℕ)
units =
    ([], 1)
    ∷ (codes "B", 1)
    ∷ (codes "K", 2 ^ 10)
    ∷ (codes "KB", 2 ^ 10)
    ∷ (codes "M", 2 ^ 20)
    ∷ (codes "MB", 2 ^ 20)
    ∷ (codes "G", 2 ^ 30)
    ∷ (codes "GB", 2 ^ 30)
    ∷ (codes "T", 2 ^ 40)
    ∷ (codes "TB", 2 ^ 40)
    ∷ []

abbrev IsRead : Text × ℕ → Type 0
IsRead u = All IsCapital u.0 × (factor_of u.0 ≡ some u.1)

units-IsRead : All IsRead units
unfolding factor_of list_beq
units-IsRead =
    let b : IsCapital 66 = (omega arith, omega arith) in
    let k : IsCapital 75 = (omega arith, omega arith) in
    let m : IsCapital 77 = (omega arith, omega arith) in
    let g : IsCapital 71 = (omega arith, omega arith) in
    let t : IsCapital 84 = (omega arith, omega arith) in
    (
      (tt, refl),
      (
        ((b, tt), refl),
        (
          ((k, tt), refl),
          (
            ((k, (b, tt)), refl),
            (
              ((m, tt), refl),
              (
                ((m, (b, tt)), refl),
                (
                  ((g, tt), refl),
                  (((g, (b, tt)), refl), (((t, tt), refl), (((t, (b, tt)), refl), tt))),
                ),
              ),
            ),
          ),
        ),
      ),
    )

one_of : (u : Text × ℕ) (us : List (Text × ℕ)) → All IsRead us → Any (λ x. x ≡ u) us → IsRead u
one_of u [] h m = absurd m
one_of u (x ∷ us) h (inl p) = subst IsRead p h.0
one_of u (x ∷ us) h (inr m) = one_of u us h.1 m

-- The size for decimal digits with one of the units `B`, `K`, `KB`, `M`, `MB`, `G`, `GB`, `T`, `TB`
-- or none behind them is the number that the digits stand for times the factor of the unit in
-- `units`, if the product has 64 bits, and there is no size if not.
pub size_of-digits :
    (d : ℕ) (ds : List ℕ) (unit : Text) (factor : ℕ)
    → All (λ d. d < 10) (d ∷ ds)
    → Any (λ x. x ≡ (unit, factor)) units
    → mdbx_max_size_from_env (some (map (λ d. d + 48) (d ∷ ds) ++ unit)) ≡ (
        if leb (value_from 0 (d ∷ ds) * factor) u64_max
        then some (value_from 0 (d ∷ ds) * factor)
        else none)
size_of-digits d ds unit factor h m =
    let u : IsRead (unit, factor) = one_of (unit, factor) units units-IsRead m in
    digits_sized d ds unit factor h u.0 u.1
