-- ===== src/Common/Exec.antt =====
-- A method that takes `&mut self`: from a state to a result and a new state. What was written
-- before an error stays written, so the state comes back beside the error too.
use mathlib.Core.Bool.{Bool}
use mathlib.Core.Path.{◌≡◌, refl}
use ubt_exex.Common.Tests.{if◌then◌else◌}
use ubt_exex.Common.Results
use ubt_exex.Common.Results.{Result, ok, err, panic, UbtError}

abbrev pub Exec {ℓ κ} : Type ℓ → Type κ → Type (ℓ ⊔ κ)
Exec S A = S → Result A × S

module _ {ℓ} {S A : Type ℓ} where
  abbrev pub pure : A → Exec S A
  pure a s = (ok a, s)

  abbrev pub lift : Result A → Exec S A
  lift r s = (r, s)

  -- A read through `&self` that may fail.
  abbrev pub reads : (S → Result A) → Exec S A
  reads f s = (f s, s)

module _ {ℓ κ μ} {S : Type ℓ} {A : Type κ} {B : Type μ} where
  abbrev pub continue : Result A → (A → Exec S B) → Exec S B
  continue (ok a) f s = f a s
  continue (err e) f s = (err e, s)
  continue (panic m) f s = (panic m, s)

  infixl 5 ◌>>=◌
  abbrev pub ◌>>=◌ : Exec S A → (A → Exec S B) → Exec S B
  ◌>>=◌ m f s = continue (m s).0 f (m s).1

infixl 5 ◌>>◌
abbrev pub ◌>>◌ {ℓ κ μ} : {S : Type ℓ} {A : Type κ} {B : Type μ} → Exec S A → Exec S B → Exec S B
m >> k = m >>= λ _. k

abbrev pub modify {ℓ} : {S : Type ℓ} → (S → S) → Exec S (Unit {0})
modify f s = (ok tt, f s)

abbrev pub when {ℓ} : {S : Type ℓ} → Bool → Exec S (Unit {0}) → Exec S (Unit {0})
when b m s = if b then m s else (ok tt, s)

-- A run that returned satisfies `Q`, and one that failed satisfies `E`. No run panics.
abbrev pub Outcome {ℓ} :
    {S A : Type ℓ} → (A → S → Type 0) → (UbtError → S → Type 0) → Result A × S → Type 0
Outcome Q E (ok a, s) = Q a s
Outcome Q E (err e, s) = E e s
Outcome Q E (panic m, s) = ⊥

-- The same behind a name, so that a rule finds the postconditions.
pub record Ensures {ℓ} {S A : Type ℓ} (Q : A → S → Type 0) (E : UbtError → S → Type 0)
    (m : Result A × S) : Type 0 where
  pub post : Outcome Q E m

module _ {ℓ} {S A B : Type ℓ} {R : A → S → Type 0} {Q : B → S → Type 0}
    {E : UbtError → S → Type 0} where
  -- The rule for `?` and for a sequence of statements.
  pub Ensures-bind :
      (m : Result A × S) (f : A → Exec S B)
      → Ensures R E m
      → ((a : A) (s : S) → R a s → Ensures Q E (f a s))
      → Ensures Q E (continue m.0 f m.1)
  Ensures-bind (ok a, s) f h k = k a s h.post
  Ensures-bind (err e, s) f h k = record { post = h.post }
  Ensures-bind (panic m, s) f h k = elim h.post [ ]

module _ {ℓ} {S A : Type ℓ} {Q R : A → S → Type 0} {E F : UbtError → S → Type 0} where
  pub Ensures-weaken :
      (m : Result A × S)
      → Ensures R F m
      → ((a : A) (s : S) → R a s → Q a s)
      → ((e : UbtError) (s : S) → F e s → E e s)
      → Ensures Q E m
  Ensures-weaken (ok a, s) h f g = record { post = f a s h.post }
  Ensures-weaken (err e, s) h f g = record { post = g e s h.post }
  Ensures-weaken (panic m, s) h f g = elim h.post [ ]

-- A read that returned satisfies `Q`; it may fail, and does not panic.
abbrev pub Holds {ℓ} : {A : Type ℓ} → (A → Type 0) → Result A → Type 0
Holds Q (ok a) = Q a
Holds Q (err e) = Unit {0}
Holds Q (panic m) = ⊥

pub record Answers {ℓ} {A : Type ℓ} (Q : A → Type 0) (r : Result A) : Type 0 where
  pub answer : Holds Q r

pub Ensures-lift :
    {S A : Type 0} {Q : A → Type 0} (r : Result A) (s : S)
    → Answers Q r
    → Ensures (λ a s'. Q a × (s' ≡ s)) (λ _ s'. s' ≡ s) (r, s)
Ensures-lift (ok a) s h = record { post = (h.answer, refl) }
Ensures-lift (err e) s h = record { post = refl }
Ensures-lift (panic m) s h = elim h.answer [ ]

pub Answers-weaken :
    {A : Type 0} {P Q : A → Type 0} (r : Result A)
    → Answers P r
    → ((a : A) → P a → Q a)
    → Answers Q r
Answers-weaken (ok a) h f = record { answer = f a h.answer }
Answers-weaken (err e) h f = record { answer = tt }
Answers-weaken (panic m) h f = elim h.answer [ ]

module _ {A B : Type 0} {P : A → Type 0} {Q : B → Type 0} where
  -- The rule for `?` in a read.
  pub Answers-bind :
      (r : Result A) (f : A → Result B)
      → Answers P r
      → ((a : A) → P a → Answers Q (f a))
      → Answers Q (Results.◌>>=◌ r f)
  Answers-bind (ok a) f h k = k a h.answer
  Answers-bind (err e) f h k = record { answer = tt }
  Answers-bind (panic m) f h k = elim h.answer [ ]

pub Ensures-both :
    {S A : Type 0} {Q R : A → S → Type 0} {E F : UbtError → S → Type 0} (m : Result A × S)
    → Ensures Q E m
    → Ensures R F m
    → Ensures (λ a s. Q a s × R a s) E m
Ensures-both (ok a, s) h k = record { post = (h.post, k.post) }
Ensures-both (err e, s) h k = record { post = h.post }
Ensures-both (panic m, s) h k = elim h.post [ ]

-- What a run that returned a value satisfies.
pub Ensures-ok :
    {S A : Type 0} {Q : A → S → Type 0} {E : UbtError → S → Type 0} (m : Result A × S) {a : A}
    {s : S}
    → Ensures Q E m
    → m ≡ (ok a, s)
    → Q a s
Ensures-ok m h p = (rw p at h).post

pub Answers-ok : {A : Type 0} {Q : A → Type 0} (r : Result A) {a : A} → Answers Q r → r ≡ ok a → Q a
Answers-ok r h p = (rw p at h).answer

pub Answers-both :
    {A : Type 0} {P Q : A → Type 0} (r : Result A)
    → Answers P r
    → Answers Q r
    → Answers (λ a. P a × Q a) r
Answers-both (ok a) h k = record { answer = (h.answer, k.answer) }
Answers-both (err e) h k = record { answer = tt }
Answers-both (panic m) h k = elim h.answer [ ]
