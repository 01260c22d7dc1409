-- ===== src/Exex/Steps.antt =====
-- What a call of `self.db`, `self.key_index` or the overlay does to the whole state.
use ubt_exex.Common.{
  Bool, true, false, ◌≡◌, refl, Result, ok, err, panic, UbtError, list_eq, nat_eq,
}
use ubt_exex.Common.Assoc.{Distinct}
use ubt_exex.Common.Exec.{Exec, Ensures, when}
use ubt_exex.Tree.{TreeKey, B256}
use ubt_exex.Store.{Contents}
use ubt_exex.Exex.{Parts, UbtExEx, Dirty, on_db, on_index, on_dirty}
use ubt_exex.Exex.Overlay.{current}

module _ (P : Parts) where
  open P use {ubt, store, index}

  -- The state that a client sees.
  abbrev pub visible : UbtExEx P → TreeKey → B256
  visible s = current P s.db s.dirty_stems

  -- No stem stands twice in the overlay. Every method keeps this, also where it fails.
  abbrev pub IsReady : UbtExEx P → Type 0
  IsReady s = Distinct s.dirty_stems

  abbrev pub StaysReady : UbtError → UbtExEx P → Type 0
  StaysReady _ s = IsReady s

  pub record DbChanged (change : Contents ubt → Contents ubt) (s s' : UbtExEx P) : Type 0 where
    pub db : store.Db
    pub state : s' ≡ record s { db = db }
    pub contents : store.contents db ≡ change (store.contents s.db)

  pub record DirtyChanged (s s' : UbtExEx P) : Type 0 where
    pub dirty : Dirty P
    pub state : s' ≡ record s { dirty_stems = dirty }

  db_step :
      {A : Type 0} (change : Contents ubt → Contents ubt) (s : UbtExEx P) (r : Result A × store.Db)
      → Ensures
          (λ _ d'. store.contents d' ≡ change (store.contents s.db))
          (λ _ d'. store.contents d' ≡ store.contents s.db)
          r
      → Ensures {S = UbtExEx P}
          (λ _ s'. DbChanged change s s')
          (λ _ s'. DbChanged (λ c. c) s s')
          (r.0, record s { db = r.1 })
  db_step change s (ok a, d) h = record {
    post = record { db = d; state = refl; contents = h.post };
  }
  db_step change s (err e, d) h = record {
    post = record { db = d; state = refl; contents = h.post };
  }
  db_step change s (panic m, d) h = elim h.post [ ]

  pub on_db-DbChanged :
      {A : Type 0} (op : Exec store.Db A) (change : Contents ubt → Contents ubt) (s : UbtExEx P)
      → Ensures
          (λ _ d'. store.contents d' ≡ change (store.contents s.db))
          (λ _ d'. store.contents d' ≡ store.contents s.db)
          (op s.db)
      → Ensures (λ _ s'. DbChanged change s s') (λ _ s'. DbChanged (λ c. c) s s') (on_db P op s)
  on_db-DbChanged op change s h = db_step change s (op s.db) h

  index_step :
      {A : Type 0} {Q : A → index.Db → Type 0} {E : UbtError → index.Db → Type 0} (s : UbtExEx P)
      (r : Result A × index.Db)
      → Ensures Q E r
      → Ensures {S = UbtExEx P}
          (λ a s'. (x : index.Db) × (s' ≡ record s { key_index = x }) × Q a x)
          (λ e s'. (x : index.Db) × (s' ≡ record s { key_index = x }) × E e x)
          (r.0, record s { key_index = r.1 })
  index_step s (ok a, x) h = record { post = (x, refl, h.post) }
  index_step s (err e, x) h = record { post = (x, refl, h.post) }
  index_step s (panic m, x) h = elim h.post [ ]

  pub on_index_step :
      {A : Type 0} {Q : A → index.Db → Type 0} {E : UbtError → index.Db → Type 0}
      (op : Exec index.Db A) (s : UbtExEx P)
      → Ensures Q E (op s.key_index)
      → Ensures
          (λ a s'. (x : index.Db) × (s' ≡ record s { key_index = x }) × Q a x)
          (λ e s'. (x : index.Db) × (s' ≡ record s { key_index = x }) × E e x)
          (on_index P op s)
  on_index_step op s h = index_step s (op s.key_index) h

  dirty_step :
      {A : Type 0} {Q : A → Dirty P → Type 0} {E : UbtError → Dirty P → Type 0} (s : UbtExEx P)
      (r : Result A × Dirty P)
      → Ensures Q E r
      → Ensures {S = UbtExEx P}
          (λ a s'. (m : Dirty P) × (s' ≡ record s { dirty_stems = m }) × Q a m)
          (λ e s'. (m : Dirty P) × (s' ≡ record s { dirty_stems = m }) × E e m)
          (r.0, record s { dirty_stems = r.1 })
  dirty_step s (ok a, m) h = record { post = (m, refl, h.post) }
  dirty_step s (err e, m) h = record { post = (m, refl, h.post) }
  dirty_step s (panic x, m) h = elim h.post [ ]

  pub on_dirty_step :
      {A : Type 0} {Q : A → Dirty P → Type 0} {E : UbtError → Dirty P → Type 0}
      (op : store.Db → Exec (Dirty P) A) (s : UbtExEx P)
      → Ensures Q E (op s.db s.dirty_stems)
      → Ensures
          (λ a s'. (m : Dirty P) × (s' ≡ record s { dirty_stems = m }) × Q a m)
          (λ e s'. (m : Dirty P) × (s' ≡ record s { dirty_stems = m }) × E e m)
          (on_dirty P op s)
  on_dirty_step op s h = dirty_step s (op s.db s.dirty_stems) h

-- A conditional statement.
pub when_step :
    {S : Type 0} {Q : Unit {0} → S → Type 0} {E : UbtError → S → Type 0} (b : Bool)
    (m : Exec S (Unit {0})) (s : S)
    → (b ≡ true → Ensures Q E (m s))
    → (b ≡ false → Q tt s)
    → Ensures Q E (when b m s)
when_step true m s f g = f refl
when_step false m s f g = record { post = g refl }
