-- ===== src/Index/Noted.antt =====
-- The first loop of `apply_updates` of key_index.rs: which bits it collects for each stem.
use ubt_exex.Common.{
  ℕ, zero, suc, ◌<◌, ◌/◌, ◌%◌, Bool, false, ◌||◌, ◌&&◌, Option, none, some, List, [], ◌∷◌, ◌==◌,
  list_eq, nat_eq, replicate, get_or, length, length-set, ◌≡◌, refl, sym, ap, ◌∙◌, arith, All, ok,
  unwrap_or, eq_refl, eq_of_true, Bool-cases, inl, inr, ◌>>=◌,
}
use ubt_exex.Common.Assoc.{lookup, insert, lookup-insert, Distinct, insert-Distinct}
use ubt_exex.Common.Bytes.{Bytes}
use ubt_exex.Common.Bits.{digit-zero}
use ubt_exex.Tree.{Stem, Address}
use ubt_exex.Index.Codec.{set_bit, has_bit}
use ubt_exex.Index.Bits.{has_bit-set_bit, has_bit-digit}
use ubt_exex.Index.Table.{PerStem, note_update, note_updates}

abbrev pub Update : Type 0
Update = Stem × ℕ × Address

-- Whether the collected bitmap of a stem has a subindex.
abbrev pub bits_in : Option (Address × Bytes) → ℕ → Bool
bits_in none j = false
bits_in (some x) j = has_bit x.1 j

-- Whether an update names a stem and a subindex.
unfoldable pub marked : List Update → Stem → ℕ → Bool
marked [] stem j = false
marked ((s, i, _) ∷ us) stem j = (s == stem && i == j) || marked us stem j

module _ (owner : Stem → Address) where
  -- A subindex is a byte, and the address is the one that owns the stem.
  abbrev pub Fits : Update → Type 0
  Fits u = (u.1 < 256) × (u.2 ≡ owner u.0)

  abbrev pub FitsEntry : Stem → Option (Address × Bytes) → Type 0
  FitsEntry stem none = Unit {0}
  FitsEntry stem (some x) = (x.0 ≡ owner stem) × (length x.1 ≡ 32)

  abbrev pub FitsAll : PerStem → Type 0
  FitsAll m = (stem : Stem) → FitsEntry stem (lookup stem m)

  abbrev entry_of : Option (Address × Bytes) → Address → Address × Bytes
  entry_of o a = unwrap_or o (a, replicate 32 0)

  no_bits : (n j : ℕ) → (let b : ℕ = get_or (replicate n 0) j 0 in b) ≡ 0
  no_bits zero j = refl
  no_bits (suc n) zero = refl
  no_bits (suc n) (suc j) = no_bits n j

  entry_bits :
      (o : Option (Address × Bytes)) (a : Address) (j : ℕ)
      → has_bit (entry_of o a).1 j ≡ bits_in o j
  entry_bits (some x) a j = refl
  entry_bits none a j =
      has_bit-digit (replicate 32 0) j ∙ (rw (no_bits 32 (j / 8), digit-zero (j % 8)) refl)

  entry_fits :
      (stem : Stem) (o : Option (Address × Bytes)) (a : Address)
      → FitsEntry stem o
      → a ≡ owner stem
      → ((entry_of o a).0 ≡ owner stem) × (length (entry_of o a).1 ≡ 32)
  entry_fits stem none a h p = (p, refl)
  entry_fits stem (some x) a h p = h

  abbrev new_entry : Stem → ℕ → Address → PerStem → Address × Bytes
  new_entry s i a m = ((entry_of (lookup s m) a).0, set_bit (entry_of (lookup s m) a).1 i)

  note_update_lem :
      (s : Stem) (i : ℕ) (a : Address) (m : PerStem)
      → FitsAll m
      → a ≡ owner s
      → note_update (s, i, a) m ≡ ok (insert s (new_entry s i a m) m)
  unfolding note_update
  note_update_lem s i a m fits p =
      rw ((entry_fits s (lookup s m) a (fits s) p).0 ∙ sym p, eq_refl a) refl

  set_bit_fits : (b : Bytes) (i : ℕ) → length b ≡ 32 → length (set_bit b i) ≡ 32
  unfolding set_bit
  set_bit_fits b i h = length-set b (i / 8) _ ∙ h

  insert_fits :
      (s : Stem) (x : Address × Bytes) (m : PerStem)
      → FitsAll m
      → (x.0 ≡ owner s) × (length x.1 ≡ 32)
      → FitsAll (insert s x m)
  insert_fits s x m fits h stem = elim (Bool-cases (s == stem)) [
    | inl here ↦ rw (lookup-insert s stem x m, here) (h.0 ∙ ap owner (eq_of_true s stem here), h.1)
    | inr apart ↦ rw (lookup-insert s stem x m, apart) (fits stem)
  ]

  insert_bits :
      (s : Stem) (i : ℕ) (a : Address) (m : PerStem) (stem : Stem) (j : ℕ)
      → i < 256
      → length (entry_of (lookup s m) a).1 ≡ 32
      → bits_in (lookup stem (insert s (new_entry s i a m) m)) j
        ≡ ((s == stem && i == j) || bits_in (lookup stem m) j)
  insert_bits s i a m stem j small full = elim (Bool-cases (s == stem)) [
    | inl here ↦
        rw (lookup-insert s stem (new_entry s i a m) m, here)
          (has_bit-set_bit (entry_of (lookup s m) a).1 i j full small
            ∙ ap (λ b. (i == j) || b)
                (entry_bits (lookup s m) a j
                  ∙ ap (λ t. bits_in (lookup t m) j) (eq_of_true s stem here)))
    | inr apart ↦ rw (lookup-insert s stem (new_entry s i a m) m, apart) refl
  ]

  -- What a run of the loop has collected.
  pub record Noted (us : List Update) (m : PerStem) : Type 0 where
    pub last : PerStem
    pub returned : note_updates us m ≡ ok last
    pub distinct : Distinct last
    pub last_fits : FitsAll last
    pub bits :
        (stem : Stem) (j : ℕ)
        → bits_in (lookup stem last) j ≡ (bits_in (lookup stem m) j || marked us stem j)

  or_swap : (x y z : Bool) → ((x || y) || z) ≡ (y || (x || z))
  or_swap x y z = ground arith

  pub noted : (us : List Update) (m : PerStem) → All Fits us → FitsAll m → Distinct m → Noted us m
  unfolding note_updates marked
  noted [] m h fits distinct = record {
    last = m;
    returned = refl;
    distinct = distinct;
    last_fits = fits;
    bits = λ stem j. ground arith;
  }
  noted ((s, i, a) ∷ us) m h fits distinct =
      let e : ((entry_of (lookup s m) a).0 ≡ owner s) × (length (entry_of (lookup s m) a).1 ≡ 32) =
        entry_fits s (lookup s m) a (fits s) h.0.1 in
      let m' : PerStem = insert s (new_entry s i a m) m in
      let rest : Noted us m' =
        noted us m' h.1
          (insert_fits s (new_entry s i a m) m fits
            (e.0, set_bit_fits (entry_of (lookup s m) a).1 i e.1))
          (insert-Distinct s (new_entry s i a m) m distinct) in
      record {
        last = rest.last;
        returned =
            ap (λ r. r >>= note_updates us) (note_update_lem s i a m fits h.0.1) ∙ rest.returned;
        distinct = rest.distinct;
        last_fits = rest.last_fits;
        bits = λ stem j.
            rest.bits stem j
            ∙ ap (λ b. b || marked us stem j) (insert_bits s i a m stem j h.0.0 e.1)
            ∙ or_swap (s == stem && i == j) (bits_in (lookup stem m) j) (marked us stem j);
      }

-- Where each stem's updates name the one address that owns it, and subindices are bytes, the loop
-- fails on no address, and the bitmap it collects for each stem has just the subindices that an
-- update of the stem names.
pub note_updates-marked :
    (owner : Stem → Address) (us : List Update)
    → All (Fits owner) us
    → (m : PerStem) × ((note_updates us [] ≡ ok m)
        × ((stem : Stem) (j : ℕ) → bits_in (lookup stem m) j ≡ marked us stem j))
unfolding lookup
note_updates-marked owner us h =
    let r : Noted owner us [] = noted owner us [] h (λ stem. tt) tt in
    (r.last, (r.returned, r.bits))
