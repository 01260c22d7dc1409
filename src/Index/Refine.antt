-- ===== src/Index/Refine.antt =====
-- `KeyIndex` of key_index.rs over redb, against the interface that `UbtExEx` uses.
use ubt_exex.Common.{
  ℕ, Option, none, some, List, [], ◌∷◌, ◌≡◌, refl, ap, ◌∙◌, Result, ok, err, panic, Foreign, done,
  failed, map_err, ◌>>=◌, Bool, true, false, if◌then◌else◌, sym, take, drop, replicate, unwrap_or,
  list_eq, nat_eq, ◌==◌,
}
use ubt_exex.Common.Bytes.{Bytes}
use mathlib.Core.Path.{subst}
use ubt_exex.Common.Assoc.{lookup}
use ubt_exex.Common.Exec.{Ensures, Answers, Answers-weaken, Answers-bind, Ensures-weaken}
use ubt_exex.Tree.{Stem, B256, Address}
use ubt_exex.Index.{Index, IsIndex}
use ubt_exex.Index.Codec.{pack_head, pack_value, split_value, merge_bitmaps}
use ubt_exex.Index.Table.{
  Redb, PerStem, address_mismatch, note_update, note_updates, merge_stored, write_stem, write_stems,
  finish, commit_or_abort, apply_noted, noted_or_fail, apply_updates, save_head,
}

-- What holds of a call that succeeds.
abbrev pub Done {ℓ} : {A : Type ℓ} → (A → Type 0) → Foreign A → Type 0
Done Q (done a) = Q a
Done Q (failed e) = Unit {0}

-- A transaction sees the tables it began with and its own writes; a commit that returns makes
-- them those of the database, and one that fails changes nothing.
pub record IsRedb (R : Redb) : Type 1 where
  pub head_of : R.Db → Option Bytes
  pub head_in : R.Write → Option Bytes
  pub begin_write_head : (d : R.Db) → Done (λ t. head_in t ≡ head_of d) (R.begin_write d)
  pub insert_stem_head :
      (k v : Bytes) (t : R.Write) → Done (λ t'. head_in t' ≡ head_in t) (R.insert_stem k v t)
  pub insert_head_head :
      (v : Bytes) (t : R.Write) → Done (λ t'. head_in t' ≡ some v) (R.insert_head v t)
  pub commit_head :
      (t : R.Write) (d : R.Db) → Done (λ _. head_of (R.commit t d).1 ≡ head_in t) (R.commit t d).0
  pub commit_failed :
      (t : R.Write) (d : R.Db) (e : _)
      → (R.commit t d).0 ≡ failed e
      → head_of (R.commit t d).1 ≡ head_of d
  -- A read sees the head that was committed; a database with no table of metadata has none.
  pub read_head_of :
      (d : R.Db) (r : R.Read) (o : Option Bytes)
      → R.begin_read d ≡ done r
      → R.read_head r ≡ done o
      → o ≡ head_of d
  pub no_meta :
      (d : R.Db) (r : R.Read)
      → R.begin_read d ≡ done r
      → R.read_meta r ≡ done none
      → head_of d ≡ none

pub Answers-map_err :
    {A : Type 0} {P : A → Type 0} (r : Foreign A) → Done P r → Answers P (map_err r)
Answers-map_err (done a) h = record { answer = h }
Answers-map_err (failed e) h = record { answer = tt }

merge_stored-Answers :
    (o : Option Bytes) (a b : Bytes) → Answers (λ _. Unit {0}) (merge_stored o a b)
unfolding merge_stored split_value
merge_stored-Answers none a b = record { answer = tt }
merge_stored-Answers (some x) a b = by_test (take 20 x == a)
  where
    by_test :
        (t : Bool)
        → Answers {A = Bytes × Bool}
            (λ _. Unit {0})
            (if t then ok (merge_bitmaps b (drop 20 x), false) else address_mismatch)
    by_test true = record { answer = tt }
    by_test false = record { answer = tt }

pub any-Done : {A : Type 0} (r : Foreign A) → Done (λ _. Unit {0}) r
any-Done (done a) = tt
any-Done (failed e) = tt

module _ (R : Redb) (laws : IsRedb R) where
  open laws use {head_of, head_in}

  write_stem-keeps :
      (e : Stem × (Address × Bytes)) (t : R.Write × ℕ)
      → Answers (λ t'. head_in t'.0 ≡ head_in t.0) (write_stem R e t)
  unfolding write_stem
  write_stem-keeps (stem, (a, b)) (t, n) =
      Answers-bind (map_err (R.get_stem stem t)) _ (Answers-map_err _ (any-Done _)) (λ o _.
        Answers-bind (merge_stored o a b) _ (merge_stored-Answers o a b) (λ merged _.
          Answers-bind (map_err (R.insert_stem stem (pack_value a merged.0) t)) _
            (Answers-map_err _ (laws.insert_stem_head stem (pack_value a merged.0) t))
            (λ t' h. record { answer = h })))

  write_stems-keeps :
      (m : PerStem) (t : R.Write × ℕ)
      → Answers (λ t'. head_in t'.0 ≡ head_in t.0) (write_stems R m t)
  unfolding write_stems
  write_stems-keeps [] t = record { answer = refl }
  write_stems-keeps (e ∷ m) t =
      Answers-bind (write_stem R e t) (write_stems R m) (write_stem-keeps e t)
        (λ t' h. Answers-weaken (write_stems R m t') (write_stems-keeps m t') (λ t'' k. k ∙ h))

  committed :
      {A : Type 0} (a : A) (t : R.Write) (d : R.Db) (r : Foreign (Unit {0}) × R.Db)
      → R.commit t d ≡ r
      → Ensures (λ _ d'. head_of d' ≡ head_in t) (λ _ d'. head_of d' ≡ head_of d) (finish R a r)
  unfolding finish
  committed a t d (done u, d') p = record {
    post =
        ap (λ r. head_of r.1) (sym p)
        ∙ subst (λ r. Done (λ _. head_of (R.commit t d).1 ≡ head_in t) r) (ap (λ r. r.0) p)
            (laws.commit_head t d);
  }
  committed a t d (failed e, d') p = record {
    post = ap (λ r. head_of r.1) (sym p) ∙ laws.commit_failed t d e (ap (λ r. r.0) p);
  }

  commit_or_abort-head :
      {A : Type 0} (h : Option Bytes) (r : Result (R.Write × A)) (d : R.Db)
      → Answers (λ t. head_in t.0 ≡ h) r
      → Ensures (λ _ d'. head_of d' ≡ h) (λ _ d'. head_of d' ≡ head_of d) (commit_or_abort R r d)
  unfolding commit_or_abort
  commit_or_abort-head h (ok (t, a)) d k =
      Ensures-weaken _ (committed a t d (R.commit t d) refl) (λ _ _ p. p ∙ k.answer) (λ _ _ p. p)
  commit_or_abort-head h (err e) d k = record { post = refl }
  commit_or_abort-head h (panic m) d k = elim k.answer [ ]

  apply_noted-keeps :
      (m : PerStem) (d : R.Db)
      → Ensures
          (λ _ d'. head_of d' ≡ head_of d)
          (λ _ d'. head_of d' ≡ head_of d)
          (apply_noted R m d)
  unfolding apply_noted
  apply_noted-keeps [] d = record { post = refl }
  apply_noted-keeps (e ∷ m) d = commit_or_abort-head (head_of d) _ d (
      Answers-bind (map_err (R.begin_write d)) _ (Answers-map_err _ (laws.begin_write_head d))
        (λ t h.
          Answers-bind (map_err (R.open_stems t)) _ (Answers-map_err _ (any-Done _))
            (λ _ _. Answers-weaken _ (write_stems-keeps (e ∷ m) (t, 0)) (λ t' k. k ∙ h))))

  note_updates-Answers :
      (us : List (Stem × ℕ × Address)) (m : PerStem) → Answers (λ _. Unit {0}) (note_updates us m)
  unfolding note_updates note_update
  note_updates-Answers [] m = record { answer = tt }
  note_updates-Answers ((s, i, a) ∷ us) m =
      by_test ((unwrap_or (lookup {V = Address × Bytes} s m) (a, replicate 32 0)).0 == a) _
        (note_updates-Answers us)
    where
      by_test :
          (t : Bool) (m' : PerStem)
          → ((n : PerStem) → Answers (λ _. Unit {0}) (note_updates us n))
          → Answers (λ _. Unit {0}) ((if t then ok m' else address_mismatch) >>= note_updates us)
      by_test true m' h = h m'
      by_test false m' h = record { answer = tt }

  apply_updates-keeps :
      (us : List (Stem × ℕ × Address)) (d : R.Db)
      → Ensures
          (λ _ d'. head_of d' ≡ head_of d)
          (λ _ d'. head_of d' ≡ head_of d)
          (apply_updates R us d)
  unfolding apply_updates
  apply_updates-keeps us d = by_result (note_updates us []) (note_updates-Answers us [])
    where
      by_result :
          (r : Result PerStem)
          → Answers (λ _. Unit {0}) r
          → Ensures
              (λ _ d'. head_of d' ≡ head_of d)
              (λ _ d'. head_of d' ≡ head_of d)
              (noted_or_fail R r d)
      by_result (ok m) h = apply_noted-keeps m d
      by_result (err e) h = record { post = refl }
      by_result (panic m) h = elim h.answer [ ]

  pub save_head-writes :
      (n : ℕ) (hash root : B256) (c : ℕ) (d : R.Db)
      → Ensures
          (λ _ d'. head_of d' ≡ some (pack_head n hash root c))
          (λ _ d'. head_of d' ≡ head_of d)
          (save_head R n hash root c d)
  unfolding save_head
  save_head-writes n hash root c d = commit_or_abort-head (some (pack_head n hash root c)) _ d (
      Answers-bind (map_err (R.begin_write d)) _ (Answers-map_err _ (laws.begin_write_head d))
        (λ t _. Answers-bind (map_err (R.open_meta t)) _ (Answers-map_err _ (any-Done _)) (λ _ _.
          Answers-bind (map_err (R.insert_head (pack_head n hash root c) t)) _
            (Answers-map_err _ (laws.insert_head_head (pack_head n hash root c) t))
            (λ t' h. record { answer = h }))))

  abbrev pub key_index : Index
  key_index = record {
    Db = R.Db;
    head_of = head_of;
    apply_updates = apply_updates R;
    save_head = save_head R;
  }

  -- Over a redb database whose commits take effect as a whole, `KeyIndex` keeps the promises that
  -- `UbtExEx` relies on: `apply_updates` leaves the head alone, `save_head` stores the packed head
  -- if it returns and changes no head if it fails, and neither panics.
  pub key_index-IsIndex : IsIndex key_index
  key_index-IsIndex = record {
    apply_updates_keeps = apply_updates-keeps;
    save_head_writes = save_head-writes;
  }
