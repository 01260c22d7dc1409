-- ===== src/Index/Updated.antt =====
-- `apply_updates` of key_index.rs as a whole: the values it leaves under the stems, and the count
-- it returns.
use ubt_exex.Common.{
  ℕ, ◌+◌, false, ◌||◌, not, none, some, List, [], ◌∷◌, ◌==◌, list_eq, nat_eq, ◌≡◌, refl, sym, ap,
  ◌∙◌, arith, length, map_err, Result, ok, err, panic, All, Bool-cases, inl, inr, eq_of_true,
  eq_refl, Foreign, done, failed,
}
use mathlib.Core.Path.{subst}
use ubt_exex.Common.Assoc.{lookup, Distinct}
use ubt_exex.Common.Bytes.{Bytes}
use ubt_exex.Common.Exec.{Ensures, Ensures-weaken, Answers, Answers-bind, Answers-weaken}
use ubt_exex.Tree.{Stem, Address}
use ubt_exex.Index.Table.{
  Redb, PerStem, write_stem, write_stems, finish, commit_or_abort, apply_noted, noted_or_fail,
  apply_updates,
}
use ubt_exex.Index.Refine.{Done, Answers-map_err, any-Done}
use ubt_exex.Index.Noted.{Update, Fits, FitsAll, FitsEntry, Noted, noted, marked}
use ubt_exex.Index.Counted.{
  Values, absent, names, new_stems, new_in, collected_stems, collected_count,
}
use ubt_exex.Index.Merged.{
  HasStems, FitsTable, Written, bits_of, write_stem-Written, Written-chain, Written-nothing,
  new_in-others, kept_by_one,
}

-- What an update of the index makes of the values `f` under the stems.
pub record IsUpdated (owner : Stem → Address) (us : List Update) (f g : Values) : Type 0 where
  pub fits : FitsTable owner g
  pub bits : (s : Stem) (j : ℕ) → bits_of (g s) j ≡ (marked us s j || bits_of (f s) j)
  pub others : (s : Stem) → names us s ≡ false → g s ≡ f s

module _ (R : Redb) (laws : HasStems R) (owner : Stem → Address)
    (sized : (s : Stem) → length (owner s) ≡ 20) where
  open laws use {stems_in, stems_of}

  head_fits :
      (s : Stem) (x : Address × Bytes) (m : PerStem)
      → FitsAll owner ((s, x) ∷ m)
      → FitsEntry owner s (some x)
  unfolding lookup
  head_fits s x m h = rw (eq_refl s) at (h s)

  tail_fits :
      (s : Stem) (x : Address × Bytes) (m : PerStem)
      → lookup s m ≡ none
      → FitsAll owner ((s, x) ∷ m)
      → FitsAll owner m
  unfolding lookup
  tail_fits s x m once h y = elim (Bool-cases (s == y)) [
    | inl here ↦ rw (sym (ap (λ z. lookup z m) (eq_of_true s y here)) ∙ once) tt
    | inr apart ↦ rw apart at (h y)
  ]

  write_stems-Written :
      (m : PerStem) (t : R.Write) (n : ℕ)
      → Distinct m
      → FitsAll owner m
      → FitsTable owner (stems_in t)
      → Answers
          (λ t'. Written owner m (stems_in t) (stems_in t'.0) × (t'.1 ≡ n + new_in m (stems_in t)))
          (write_stems R m (t, n))
  unfolding write_stems new_in
  write_stems-Written [] t n distinct e fits = record {
    answer = (Written-nothing owner (stems_in t) fits, omega arith);
  }
  write_stems-Written ((s, x) ∷ m) t n distinct e fits =
      Answers-bind (write_stem R (s, x) (t, n)) (write_stems R m)
        (write_stem-Written owner sized R laws s x.0 x.1 t n (head_fits s x m e) fits)
        (λ t' h.
          Answers-weaken (write_stems R m t')
            (write_stems-Written m t'.0 t'.1 distinct.1 (tail_fits s x m distinct.0 e) h.0.fits)
            (λ t'' k. (
              Written-chain owner s x m (stems_in t) (stems_in t'.0) (stems_in t''.0) distinct.0 h.0
                  k.0,
              k.1
                  ∙ ground (
                    arith,
                    h.1,
                    new_in-others m s (stems_in t) (stems_in t'.0) distinct.0
                        (kept_by_one owner s x (stems_in t) (stems_in t'.0) h.0),
                  ),
            )))

  stems_committed :
      {A : Type 0} (a : A) (t : R.Write) (d : R.Db) (r : Foreign (Unit {0}) × R.Db)
      → R.commit t d ≡ r
      → Ensures
          (λ b d'. (b ≡ a) × (stems_of d' ≡ stems_in t))
          (λ _ d'. stems_of d' ≡ stems_of d)
          (finish R a r)
  unfolding finish
  stems_committed a t d (done u, d') p = record {
    post = (
      refl,
      ap (λ r. stems_of r.1) (sym p)
          ∙ subst (λ r. Done (λ _. stems_of (R.commit t d).1 ≡ stems_in t) r) (ap (λ r. r.0) p)
              (laws.commit_stems t d),
    );
  }
  stems_committed a t d (failed e, d') p = record {
    post = ap (λ r. stems_of r.1) (sym p) ∙ laws.commit_stems_failed t d e (ap (λ r. r.0) p);
  }

  -- What a transaction promises of its table, `commit_or_abort` promises of the database.
  commit_or_abort-stems :
      {A : Type 0} (Q : A → Values → Type 0) (r : Result (R.Write × A)) (d : R.Db)
      → Answers (λ t. Q t.1 (stems_in t.0)) r
      → Ensures
          (λ a d'. Q a (stems_of d'))
          (λ _ d'. stems_of d' ≡ stems_of d)
          (commit_or_abort R r d)
  unfolding commit_or_abort
  commit_or_abort-stems Q (ok (t, a)) d k =
      Ensures-weaken _ (stems_committed a t d (R.commit t d) refl)
        (λ b d' p. rw (p.0, p.1) k.answer) (λ _ _ p. p)
  commit_or_abort-stems Q (err e) d k = record { post = refl }
  commit_or_abort-stems Q (panic m) d k = elim k.answer [ ]

  zero_plus : (n : ℕ) → 0 + n ≡ n
  zero_plus n = omega arith

  apply_noted-Written :
      (m : PerStem) (d : R.Db)
      → Distinct m
      → FitsAll owner m
      → FitsTable owner (stems_of d)
      → Ensures
          (λ n d'. Written owner m (stems_of d) (stems_of d') × (n ≡ new_in m (stems_of d)))
          (λ _ d'. stems_of d' ≡ stems_of d)
          (apply_noted R m d)
  unfolding apply_noted new_in
  apply_noted-Written [] d distinct e fits = record {
    post = (Written-nothing owner (stems_of d) fits, refl);
  }
  apply_noted-Written (x ∷ m) d distinct e fits =
      commit_or_abort-stems
        (λ n g. Written owner (x ∷ m) (stems_of d) g × (n ≡ new_in (x ∷ m) (stems_of d))) _ d
        (Answers-bind (map_err (R.begin_write d)) _ (Answers-map_err _ (laws.begin_write_stems d))
          (λ t h. Answers-bind (map_err (R.open_stems t)) _ (Answers-map_err _ (any-Done _)) (λ _ _.
            Answers-weaken _ (rw h at (write_stems-Written (x ∷ m) t 0 distinct e (rw h fits)))
              (λ t' w. (w.0, w.1 ∙ zero_plus (new_in (x ∷ m) (stems_of d)))))))

  not_named :
      (us : List Update) (m : PerStem) (s : Stem)
      → absent (lookup s m) ≡ not (names us s)
      → names us s ≡ false
      → lookup s m ≡ none
  not_named us m s h k = ground (arith, h, k)

  -- Where each stem's updates name the one address that owns it, subindices are bytes, and each
  -- stored value is the owner's 20 bytes with a bitmap of 32: after `apply_updates` returned, the
  -- values still have that form, the bitmap of each stem has just the bits that it had and those
  -- that an update names, stems that no update names have kept their values, and the count
  -- returned is that of the stems named that had no value. If it fails, no value has changed, and
  -- it does not panic.
  pub apply_updates-IsUpdated :
      (us : List Update) (d : R.Db)
      → All (Fits owner) us
      → FitsTable owner (stems_of d)
      → Ensures
          (λ n d'. IsUpdated owner us (stems_of d) (stems_of d') × (n ≡ new_stems us (stems_of d)))
          (λ _ d'. stems_of d' ≡ stems_of d)
          (apply_updates R us d)
  unfolding apply_updates noted_or_fail lookup
  apply_updates-IsUpdated us d all fits =
      let r : Noted owner us [] = noted owner us [] all (λ s. tt) tt in
      rw r.returned (
        Ensures-weaken _ (apply_noted-Written r.last d r.distinct r.last_fits fits)
          (λ n d' w. (
            record {
              fits = w.0.fits;
              bits = λ s j. w.0.bits s j ∙ ap (λ b. b || bits_of (stems_of d s) j) (r.bits s j);
              others = λ s k.
                  w.0.others s (not_named us r.last s (collected_stems us r.last s r.returned) k);
            },
            w.1 ∙ collected_count us r.last (stems_of d) r.returned,
          ))
          (λ _ _ p. p))
