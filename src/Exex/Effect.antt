-- ===== src/Exex/Effect.antt =====
-- What a step of a method does to the state that matters: the values that a client sees, the
-- stored deltas, and what it leaves alone. Two steps in a row have the composite effect.
use ubt_exex.Common.{ℕ, List, Option, ◌≡◌, refl, ap, ◌∙◌, fun_ext, UbtError}
use ubt_exex.Common.Exec.{Exec, Ensures, Ensures-bind, Ensures-weaken, continue}
use ubt_exex.Tree.{TreeKey, B256, Delta}
use ubt_exex.Store.{Contents, Writes}
use ubt_exex.Exex.{Parts, PendingEntry, Method, UbtExEx, on_db}
use ubt_exex.Exex.Overlay.{current_of_stems}
use ubt_exex.Exex.Steps.{visible, IsReady, on_db-DbChanged}

abbrev pub Values : Type 0
Values = TreeKey → B256

abbrev pub Stored : Type 0
Stored = ℕ → Option (List Delta)

module _ (P : Parts) where
  open P use {ubt, store, index}

  -- The pending entries, what flushing is decided by, and what it writes.
  abbrev pub policy : UbtExEx P → List PendingEntry × ℕ × B256 × B256 × ℕ × ℕ
  policy s = (
    s.pending_entries, s.last_persisted_block, s.last_persisted_hash, s.last_root, s.flush_interval,
    s.delta_retention,
  )

  pub record Effect (values : Values → Values) (deltas : Stored → Stored) (s s' : UbtExEx P)
      : Type 0 where
    pub visible_after : (key : TreeKey) → visible P s' key ≡ values (visible P s) key
    pub deltas_after : (store.contents s'.db).deltas ≡ deltas (store.contents s.db).deltas
    pub stems_after : (store.contents s'.db).stems ≡ (store.contents s.db).stems
    pub head_after : (store.contents s'.db).head ≡ (store.contents s.db).head
    pub ready : IsReady P s → IsReady P s'
    pub same_policy : policy s' ≡ policy s

  -- None of it changes.
  abbrev pub Quiet : UbtExEx P → UbtExEx P → Type 0
  Quiet s s' = Effect (λ f. f) (λ d. d) s s'

  abbrev pub KeepsReady : UbtExEx P → UbtError → UbtExEx P → Type 0
  KeepsReady s _ s' = IsReady P s → IsReady P s'

  pub Effect-refl : (s : UbtExEx P) → Quiet s s
  Effect-refl s = record {
    visible_after = λ key. refl;
    deltas_after = refl;
    stems_after = refl;
    head_after = refl;
    ready = λ d. d;
    same_policy = refl;
  }

  pub Effect-trans :
      (v w : Values → Values) (d e : Stored → Stored) (s t u : UbtExEx P)
      → Effect v d s t
      → Effect w e t u
      → Effect (λ f. w (v f)) (λ f. e (d f)) s u
  Effect-trans v w d e s t u h k = record {
    visible_after = λ key. rw (fun_ext h.visible_after) at (k.visible_after key);
    deltas_after = rw h.deltas_after at k.deltas_after;
    stems_after = k.stems_after ∙ h.stems_after;
    head_after = k.head_after ∙ h.head_after;
    ready = λ r. k.ready (h.ready r);
    same_policy = k.same_policy ∙ h.same_policy;
  }

  -- A step after which the rest of a method runs.
  pub Effect-then :
      {A B : Type 0} (m : Method P A) (f : A → Method P B) (v w : Values → Values)
      (d e : Stored → Stored) (s : UbtExEx P)
      → Ensures (λ _ t. Effect v d s t) (KeepsReady s) (m s)
      → ((a : A) (t : UbtExEx P) → Ensures (λ _ u. Effect w e t u) (KeepsReady t) (f a t))
      → Ensures
          (λ _ u. Effect (λ f. w (v f)) (λ f. e (d f)) s u)
          (KeepsReady s)
          (continue (m s).0 f (m s).1)
  Effect-then m f v w d e s h k = Ensures-bind (m s) f h (λ a t p.
      Ensures-weaken (f a t) (k a t) (λ _ u q. Effect-trans v w d e s t u p q)
        (λ _ u q r. q (p.ready r)))

  -- A write to MDBX that leaves the stems and the head alone.
  pub on_db-Effect :
      {A : Type 0} (op : Exec store.Db A) (change : Contents ubt → Contents ubt)
      (deltas : Stored → Stored) (s : UbtExEx P)
      → Writes store change op
      → ((c : Contents ubt) → (change c).stems ≡ c.stems)
      → ((c : Contents ubt) → (change c).deltas ≡ deltas c.deltas)
      → ((c : Contents ubt) → (change c).head ≡ c.head)
      → Ensures (λ _ s'. Effect (λ f. f) deltas s s') (KeepsReady s) (on_db P op s)
  on_db-Effect op change deltas s law p q r =
      Ensures-weaken (on_db P op s) (on_db-DbChanged P op change s (law s.db))
        (λ _ s' h. rw h.state (record {
          visible_after = λ key.
              current_of_stems P s.db h.db s.dirty_stems key (ap (λ c. c.stems) h.contents ∙ p _);
          deltas_after = ap (λ c. c.deltas) h.contents ∙ q _;
          stems_after = ap (λ c. c.stems) h.contents ∙ p _;
          head_after = ap (λ c. c.head) h.contents ∙ r _;
          ready = λ d. d;
          same_policy = refl;
        }))
        (λ _ s' h d. rw h.state d)
