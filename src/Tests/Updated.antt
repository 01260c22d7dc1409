-- ===== src/Tests/Updated.antt =====
-- `apply_updates` on a database in memory.
use ubt_exex.Common.{
  ◌≡◌, refl, List, [], ◌∷◌, replicate, ok, some, list_eq, nat_eq, list_beq, none, ◌==◌,
  if◌then◌else◌, All, Bool-cases, inl, inr, arith,
}
use ubt_exex.Common.Assoc.{lookup, insert}
use ubt_exex.Common.Bytes.{Bytes}
use ubt_exex.Common.Exec.{Ensures}
use ubt_exex.Tree.{Stem, Address}
use ubt_exex.Index.Codec.{pack_value, split_value, set_bit}
use ubt_exex.Index.Table.{apply_updates}
use ubt_exex.Index.Noted.{Update, Fits}
use ubt_exex.Index.Counted.{Values, new_stems}
use ubt_exex.Index.Merged.{HasStems, FitsTable}
use ubt_exex.Index.Updated.{IsUpdated, apply_updates-IsUpdated}
use ubt_exex.Tests.Files.{Tables, memory_redb, done-never_failed}

insert_seen :
    (k v : Bytes) (m : List (Bytes × Bytes)) (s : Stem)
    → lookup s ((k, v) ∷ m) ≡ (if k == s then some v else lookup s m)
unfolding lookup
insert_seen k v m s = refl

abbrev memory_redb-HasStems : HasStems memory_redb
memory_redb-HasStems = record {
  stems_of = λ d s. lookup s d.0;
  stems_in = λ t s. lookup s t.0;
  begin_write_stems = λ d. refl;
  get_stem_stems = λ k t. refl;
  insert_stem_stems = λ k v t s. insert_seen k v t.0 s;
  commit_stems = λ t d. refl;
  commit_stems_failed = λ t d e p. absurd (done-never_failed e p);
}

abbrev owner : Stem → Address
owner s = replicate 20 7

abbrev old_stem : Stem
old_stem = replicate 31 1

abbrev new_stem : Stem
new_stem = replicate 31 2

-- One stem, of which subindex 3 is marked.
abbrev one_stem : Tables
one_stem = ((old_stem, pack_value (replicate 20 7) (set_bit (replicate 32 0) 3)) ∷ [], none)

abbrev three_updates : List Update
three_updates =
    (old_stem, 64, replicate 20 7)
    ∷ (new_stem, 0, replicate 20 7)
    ∷ (new_stem, 255, replicate 20 7)
    ∷ []

abbrev values_in : Tables → Values
values_in d s = lookup s d.0

three_updates_fit : All (Fits owner) three_updates
three_updates_fit = ((omega arith, refl), ((omega arith, refl), ((omega arith, refl), tt)))

one_stem_fits : FitsTable owner (values_in one_stem)
unfolding lookup pack_value set_bit
one_stem_fits s = elim (Bool-cases (old_stem == s)) [
  | inl here ↦ rw here (refl, refl)
  | inr apart ↦ rw apart tt
]

counted : (apply_updates memory_redb three_updates one_stem).0 ≡ ok 1
unfolding apply_updates lookup pack_value set_bit list_beq insert split_value
counted = refl

apply_updates-IsUpdated_example :
    Ensures
      (λ n d'.
        IsUpdated owner three_updates (values_in one_stem) (values_in d')
        × (n ≡ new_stems three_updates (values_in one_stem)))
      (λ _ d'. values_in d' ≡ values_in one_stem)
      (apply_updates memory_redb three_updates one_stem)
apply_updates-IsUpdated_example =
    apply_updates-IsUpdated memory_redb memory_redb-HasStems owner (λ s. refl) three_updates
      one_stem three_updates_fit one_stem_fits
