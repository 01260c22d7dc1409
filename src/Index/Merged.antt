-- ===== src/Index/Merged.antt =====
-- The second loop of `apply_updates` of key_index.rs, in one transaction: the stored value of each
-- stem is merged with the bitmap collected for it.
use ubt_exex.Common.{
  ℕ, suc, ◌+◌, Bool, true, false, ◌||◌, Option, none, some, [], ◌∷◌, ◌==◌, list_eq, nat_eq, ◌≡◌,
  refl, sym, ap, ◌∙◌, arith, length, take, drop, map_err, if◌then◌else◌, Bool-cases, inl, inr,
  eq_of_true, ne_of_false, false_of_ne, eq_refl, Foreign,
}
use ubt_exex.Common.Assoc.{lookup}
use ubt_exex.Common.Bytes.{Bytes}
use ubt_exex.Common.Exec.{Answers, Answers-bind}
use ubt_exex.Tree.{Stem, Address}
use ubt_exex.Index.Codec.{has_bit, pack_value, split_value}
use ubt_exex.Index.Bits.{has_bit-merge_bitmaps, length-merge_bitmaps}
use ubt_exex.Index.RoundTrip.{take_at, drop_at}
use ubt_exex.Index.Table.{Redb, PerStem, merge_stored, write_stem}
use ubt_exex.Index.Refine.{Done, Answers-map_err}
use ubt_exex.Index.Counted.{Values, absent, new_in}
use ubt_exex.Index.Noted.{bits_in, FitsEntry}

-- A transaction sees the table it began with and its own writes; a commit that returns makes it
-- that of the database, and one that fails changes nothing.
pub record HasStems (R : Redb) : Type 1 where
  pub stems_of : R.Db → Values
  pub stems_in : R.Write → Values
  pub begin_write_stems : (d : R.Db) → Done (λ t. stems_in t ≡ stems_of d) (R.begin_write d)
  pub get_stem_stems : (k : Bytes) (t : R.Write) → Done (λ o. o ≡ stems_in t k) (R.get_stem k t)
  pub insert_stem_stems :
      (k v : Bytes) (t : R.Write)
      → Done
          (λ t'. (s : Stem) → stems_in t' s ≡ (if k == s then some v else stems_in t s))
          (R.insert_stem k v t)
  pub commit_stems :
      (t : R.Write) (d : R.Db) → Done (λ _. stems_of (R.commit t d).1 ≡ stems_in t) (R.commit t d).0
  pub commit_stems_failed :
      (t : R.Write) (d : R.Db) (e : _)
      → (R.commit t d).0 ≡ Foreign.failed e
      → stems_of (R.commit t d).1 ≡ stems_of d

abbrev pub bits_of : Option Bytes → ℕ → Bool
bits_of none j = false
bits_of (some v) j = has_bit (drop 20 v) j

module _ (owner : Stem → Address) where
  -- A stored value is the address that owns the stem and a bitmap of 32 bytes.
  abbrev pub FitsValue : Stem → Option Bytes → Type 0
  FitsValue s none = Unit {0}
  FitsValue s (some v) = (take 20 v ≡ owner s) × (length (drop 20 v) ≡ 32)

  abbrev pub FitsTable : Values → Type 0
  FitsTable f = (s : Stem) → FitsValue s (f s)

  record Merged (o : Option Bytes) (b : Bytes) (r : Bytes × Bool) : Type 0 where
    full : length r.0 ≡ 32
    bits : (j : ℕ) → has_bit r.0 j ≡ (has_bit b j || bits_of o j)
    fresh : r.1 ≡ absent o

  merge_stored-Merged :
      (s : Stem) (o : Option Bytes) (a : Address) (b : Bytes)
      → a ≡ owner s
      → length b ≡ 32
      → FitsValue s o
      → Answers (Merged o b) (merge_stored o a b)
  unfolding merge_stored split_value
  merge_stored-Merged s none a b p full h = record {
    answer = record { full = full; bits = λ j. ground arith; fresh = refl };
  }
  merge_stored-Merged s (some v) a b p full h =
      rw (h.0 ∙ sym p, eq_refl a)
        (record {
          answer = record {
            full = length-merge_bitmaps b (drop 20 v) ∙ full;
            bits = λ j. has_bit-merge_bitmaps b (drop 20 v) j (full ∙ sym h.1);
            fresh = refl;
          };
        })

  -- What writing the stems collected makes of a table.
  pub record Written (m : PerStem) (f g : Values) : Type 0 where
    pub fits : FitsTable g
    pub bits : (s : Stem) (j : ℕ) → bits_of (g s) j ≡ (bits_in (lookup s m) j || bits_of (f s) j)
    pub others : (s : Stem) → lookup s m ≡ none → g s ≡ f s

  pub Written-chain :
      (s : Stem) (x : Address × Bytes) (m : PerStem) (f g h : Values)
      → lookup s m ≡ none
      → Written ((s, x) ∷ []) f g
      → Written m g h
      → Written ((s, x) ∷ m) f h
  unfolding lookup
  Written-chain s x m f g h once first rest = record {
    fits = rest.fits;
    bits = λ y j. rest.bits y j ∙ elim (Bool-cases (s == y)) [
      | inl here ↦
          rw (sym (ap (λ z. lookup z m) (eq_of_true s y here)) ∙ once, first.bits y j, here) refl
      | inr apart ↦ rw (first.bits y j, apart) refl
    ];
    others = λ y k. elim (Bool-cases (s == y)) [
      | inl here ↦ absurd (ground (arith, here, k))
      | inr apart ↦ rest.others y (ground (arith, apart, k)) ∙ first.others y (rw apart refl)
    ];
  }

  pub kept_by_one :
      (s : Stem) (x : Address × Bytes) (f g : Values)
      → Written ((s, x) ∷ []) f g
      → (y : Stem) → (s == y) ≡ false
      → g y ≡ f y
  unfolding lookup
  kept_by_one s x f g w y apart = w.others y (rw apart refl)

  pub Written-nothing : (f : Values) → FitsTable f → Written [] f f
  unfolding lookup
  Written-nothing f fits = record { fits = fits; bits = λ s j. refl; others = λ s k. refl }

new_or_not : (x : Bool) (n : ℕ) → (if x then suc n else n) ≡ n + (if x then 1 else 0)
new_or_not true n = omega arith
new_or_not false n = omega arith

pub new_in-others :
    (m : PerStem) (s : Stem) (f g : Values)
    → lookup s m ≡ none
    → ((x : Stem) → (s == x) ≡ false → g x ≡ f x)
    → new_in m g ≡ new_in m f
unfolding new_in lookup
new_in-others [] s f g h same = refl
new_in-others ((k, x) ∷ m) s f g h same = elim (Bool-cases (k == s)) [
  | inl here ↦ absurd (ground (arith, here, h))
  | inr apart ↦
      rw
        (
          same k (false_of_ne s k (λ p. ne_of_false k s apart (sym p))),
          new_in-others m s f g (ground (arith, apart, h)) same,
        )
        refl
]

module _ (owner : Stem → Address) (sized : (s : Stem) → length (owner s) ≡ 20) where
  packed_fits :
      (s : Stem) (a : Address) (b : Bytes)
      → a ≡ owner s
      → length b ≡ 32
      → FitsValue owner s (some (pack_value a b))
  unfolding pack_value
  packed_fits s a b p full =
      rw p (take_at 20 (owner s) b (sized s), ap length (drop_at 20 (owner s) b (sized s)) ∙ full)

  packed_bits :
      (s : Stem) (a : Address) (b : Bytes) (j : ℕ)
      → a ≡ owner s
      → bits_of (some (pack_value a b)) j ≡ has_bit b j
  unfolding pack_value
  packed_bits s a b j p = rw p (ap (λ v. has_bit v j) (drop_at 20 (owner s) b (sized s)))

  abbrev PutValue : Values → Stem → Bytes → Values → Type 0
  PutValue f s v g = (x : Stem) → g x ≡ (if s == x then some v else f x)

  Written-put :
      (s : Stem) (a : Address) (b : Bytes) (f g : Values) (r : Bytes × Bool)
      → a ≡ owner s
      → FitsTable owner f
      → Merged owner (f s) b r
      → PutValue f s (pack_value a r.0) g
      → Written owner ((s, (a, b)) ∷ []) f g
  unfolding lookup
  Written-put s a b f g r p fits merged h = record {
    fits = λ x. elim (Bool-cases (s == x)) [
      | inl here ↦ rw (h x, here) (rw (← eq_of_true s x here) (packed_fits s a r.0 p merged.full))
      | inr apart ↦ rw (h x, apart) (fits x)
    ];
    bits = λ x j. elim (Bool-cases (s == x)) [
      | inl here ↦
          rw (h x, here)
            (packed_bits s a r.0 j p
              ∙ merged.bits j
              ∙ ap (λ y. has_bit b j || bits_of (f y) j) (eq_of_true s x here))
      | inr apart ↦ rw (h x, apart) refl
    ];
    others = λ x k. elim (Bool-cases (s == x)) [
      | inl here ↦ absurd (no_entry x here k)
      | inr apart ↦ rw (h x, apart) refl
    ];
  }
    where
      no_entry :
          (x : Stem)
          → (s == x) ≡ true
          → lookup {V = Address × Bytes} x ((s, (a, b)) ∷ []) ≡ none
          → ⊥
      no_entry x here k = ground (arith, here, k)

  module _ (R : Redb) (laws : HasStems R) where
    open laws use {stems_in}

    pub write_stem-Written :
        (s : Stem) (a : Address) (b : Bytes) (t : R.Write) (n : ℕ)
        → FitsEntry owner s (some (a, b))
        → FitsTable owner (stems_in t)
        → Answers
            (λ t'.
              Written owner ((s, (a, b)) ∷ []) (stems_in t) (stems_in t'.0)
              × (t'.1 ≡ n + new_in ((s, (a, b)) ∷ []) (stems_in t)))
            (write_stem R (s, (a, b)) (t, n))
    unfolding write_stem new_in
    write_stem-Written s a b t n e fits =
        Answers-bind (map_err (R.get_stem s t)) _ (Answers-map_err _ (laws.get_stem_stems s t))
          (λ o q.
            Answers-bind (merge_stored o a b) _
              (merge_stored-Merged owner s o a b e.0 e.1 (rw q (fits s)))
              (λ r k.
                Answers-bind (map_err (R.insert_stem s (pack_value a r.0) t)) _
                  (Answers-map_err _ (laws.insert_stem_stems s (pack_value a r.0) t))
                  (λ t' h. record {
                    answer = (
                      Written-put s a b (stems_in t) (stems_in t') r e.0 fits (rw q at k) h,
                      rw (k.fresh, q) (new_or_not (absent (stems_in t s)) n),
                    );
                  })))
