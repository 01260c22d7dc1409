-- ===== src/Index/Counted.antt =====
-- The stems that the first loop of `apply_updates` of key_index.rs collects, and how many of them
-- a table has no value for.
use ubt_exex.Common.{
  ℕ, suc, ◌+◌, Bool, true, false, ◌||◌, ◌&&◌, not, Option, none, some, List, [], ◌∷◌, ◌==◌, list_eq,
  nat_eq, ◌≡◌, refl, sym, ap, ◌∙◌, arith, ok, if◌then◌else◌, ◌>>=◌, Bool-cases, inl, inr,
  eq_of_true, ne_of_false, false_of_ne, eq_refl, replicate, unwrap_or,
}
use ubt_exex.Common.Assoc.{lookup, insert, lookup-insert}
use ubt_exex.Common.Bytes.{Bytes}
use ubt_exex.Tree.{Stem, Address}
use ubt_exex.Index.Codec.{set_bit}
use ubt_exex.Index.Table.{PerStem, note_update, note_updates, address_mismatch}
use ubt_exex.Index.Noted.{Update}

-- A table of values under stems.
abbrev pub Values : Type 0
Values = Stem → Option Bytes

abbrev pub absent {ℓ} : {A : Type ℓ} → Option A → Bool
absent none = true
absent (some v) = false

abbrev one_if : Bool → ℕ
one_if b = if b then 1 else 0

-- Whether an update names a stem.
unfoldable pub names : List Update → Stem → Bool
names [] s = false
names ((t, i, a) ∷ us) s = t == s || names us s

-- How many stems without a value in a table the updates name, each stem counted once.
unfoldable pub new_stems : List Update → Values → ℕ
new_stems [] f = 0
new_stems ((s, i, a) ∷ us) f =
    let rest = new_stems us f in if absent (f s) && not (names us s) then suc rest else rest

-- How many of the stems collected have no value in a table.
unfoldable pub new_in : PerStem → Values → ℕ
new_in [] f = 0
new_in ((s, x) ∷ m) f = let rest = new_in m f in if absent (f s) then suc rest else rest

-- `new_stems` without the stems that are collected already.
unfoldable fresh : List Update → PerStem → Values → ℕ
fresh [] m f = 0
fresh ((s, i, a) ∷ us) m f =
    one_if (absent (f s) && absent (lookup s m) && not (names us s)) + fresh us m f

fresh-nothing : (us : List Update) (f : Values) → fresh us [] f ≡ new_stems us f
unfolding fresh new_stems lookup
fresh-nothing [] f = refl
fresh-nothing ((s, i, a) ∷ us) f = ground (arith, fresh-nothing us f)

new_in-insert :
    (s : Stem) (x : Address × Bytes) (m : PerStem) (f : Values)
    → new_in (insert s x m) f ≡ one_if (absent (f s) && absent (lookup s m)) + new_in m f
unfolding new_in lookup insert
new_in-insert s x [] f = ground arith
new_in-insert s x ((k, y) ∷ m) f = elim (Bool-cases (k == s)) [
  | inl here ↦ ground (arith, here, ap f (eq_of_true k s here))
  | inr apart ↦ ground (arith, apart, new_in-insert s x m f)
]

fresh-insert :
    (us : List Update) (s : Stem) (x : Address × Bytes) (m : PerStem) (f : Values)
    → fresh us m f
      ≡ fresh us (insert s x m) f + one_if (absent (f s) && absent (lookup s m) && names us s)
unfolding fresh names
fresh-insert [] s x m f = ground arith
fresh-insert ((t, i, a) ∷ us) s x m f = elim (Bool-cases (s == t)) [
  | inl here ↦
      let p : s ≡ t = eq_of_true s t here in
      ground (
        arith,
        fresh-insert us s x m f,
        lookup-insert s t x m,
        here,
        p,
        ap f p,
        eq_refl s,
        ap (λ y. lookup y m) p,
      )
  | inr apart ↦ ground (
    arith,
    fresh-insert us s x m f,
    lookup-insert s t x m,
    apart,
    false_of_ne t s (λ p. ne_of_false s t apart (sym p)),
  )
]

-- What the first loop has collected, stem by stem.
record Collected (us : List Update) (m last : PerStem) : Type 0 where
  stems : (s : Stem) → absent (lookup s last) ≡ (absent (lookup s m) && not (names us s))
  count : (f : Values) → new_in last f ≡ new_in m f + fresh us m f

Collected-step :
    (s : Stem) (i : ℕ) (a : Address) (us : List Update) (x : Address × Bytes) (m last : PerStem)
    → Collected us (insert s x m) last
    → Collected ((s, i, a) ∷ us) m last
unfolding fresh names
Collected-step s i a us x m last h = record {
  stems = λ t. h.stems t ∙ ground (arith, lookup-insert s t x m);
  count = λ f. h.count f ∙ ground (arith, new_in-insert s x m f, fresh-insert us s x m f);
}

collected :
    (us : List Update) (m last : PerStem) → note_updates us m ≡ ok last → Collected us m last
unfolding note_updates note_update fresh names
collected [] m last h =
    rw (ok-inj h) (record { stems = λ s. ground arith; count = λ f. ground arith })
  where
    ok-inj : {x y : PerStem} → ok x ≡ ok y → x ≡ y
    ok-inj p = cc
collected ((s, i, a) ∷ us) m last h =
    let entry : Address × Bytes =
      unwrap_or (lookup {V = Address × Bytes} s m) (a, replicate 32 0) in
    by_test (entry.0 == a) (entry.0, set_bit entry.1 i) (λ n. collected us n last) h
  where
    by_test :
        (t : Bool) (x : Address × Bytes)
        → ((n : PerStem) → note_updates us n ≡ ok last → Collected us n last)
        → ((if t then ok (insert {V = Address × Bytes} s x m) else address_mismatch)
            >>= note_updates us)
          ≡ ok last
        → Collected ((s, i, a) ∷ us) m last
    by_test true x rest p = Collected-step s i a us x m last (rest (insert s x m) p)
    by_test false x rest p = cc

-- Each stem that the updates name is collected, and no other.
pub collected_stems :
    (us : List Update) (last : PerStem) (s : Stem)
    → note_updates us [] ≡ ok last
    → absent (lookup s last) ≡ not (names us s)
unfolding lookup
collected_stems us last s h = (collected us [] last h).stems s

pub collected_count :
    (us : List Update) (last : PerStem) (f : Values)
    → note_updates us [] ≡ ok last
    → new_in last f ≡ new_stems us f
unfolding new_in
collected_count us last f h = omega (arith, (collected us [] last h).count f, fresh-nothing us f)
