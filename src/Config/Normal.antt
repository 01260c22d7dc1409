-- ===== src/Config/Normal.antt =====
-- `normalize_optional` of src/config.rs: which settings turn a server off.
use ubt_exex.Common.{
  ℕ, ◌+◌, ◌≤◌, true, false, none, some, [], ◌∷◌, ◌++◌, ◌≡◌, ◌≢◌, refl, ap, ◌∙◌, ◌==◌, eq_refl,
  false_of_ne, list_eq, nat_eq, list_beq, if◌then◌else◌, arith, All, Bool-cases, inl, inr, ◌⊎◌,
}
use ubt_exex.Common.Text.{
  Text, codes, is_space, trim_start, trim_end, trim, lower, to_ascii_lowercase,
}
use ubt_exex.Config.{normalize_optional, is_off}

abbrev pub IsBlank : ℕ → Type 0
IsBlank c = is_space c ≡ true

-- A text that begins and ends with no blank.
abbrev pub BeginsBare : Text → Type 0
BeginsBare [] = Unit {0}
BeginsBare (c ∷ s) = is_space c ≡ false

abbrev pub EndsBare : Text → Type 0
EndsBare [] = Unit {0}
EndsBare (c ∷ []) = is_space c ≡ false
EndsBare (c ∷ d ∷ s) = EndsBare (d ∷ s)

-- A letter of a word in lower case, as it stands or as a capital.
abbrev pub Letter : ℕ → ℕ → Type 0
Letter c w = (c ≡ w) ⊎ ((65 ≤ c) × (c ≤ 90) × (w ≡ c + 32))

abbrev pub Spells : Text → Text → Type 0
Spells [] [] = Unit {0}
Spells [] (w ∷ ws) = ⊥
Spells (c ∷ s) [] = ⊥
Spells (c ∷ s) (w ∷ ws) = Letter c w × Spells s ws

abbrev pub TurnsOff : Text → Type 0
TurnsOff s =
    Spells s (codes "off")
    ⊎ (Spells s (codes "0") ⊎ (Spells s (codes "false") ⊎ Spells s (codes "none")))

trim_end-blank : (s : Text) → All IsBlank s → trim_end s ≡ []
unfolding trim_end
trim_end-blank [] h = refl
trim_end-blank (c ∷ s) h = rw (trim_end-blank s h.1, h.0) refl

trim_start-blank : (s t : Text) → All IsBlank s → trim_start (s ++ t) ≡ trim_start t
unfolding trim_start
trim_start-blank [] t h = refl
trim_start-blank (c ∷ s) t h = rw h.0 (trim_start-blank s t h.1)

trim_end-bare :
    (core after : Text) → EndsBare core → All IsBlank after → trim_end (core ++ after) ≡ core
unfolding trim_end
trim_end-bare [] after e h = trim_end-blank after h
trim_end-bare (c ∷ []) after e h = rw (trim_end-blank after h, e) refl
trim_end-bare (c ∷ d ∷ s) after e h = rw (trim_end-bare (d ∷ s) after e h) refl

trim-bare :
    (before core after : Text)
    → All IsBlank before
    → All IsBlank after
    → BeginsBare core
    → EndsBare core
    → trim (before ++ (core ++ after)) ≡ core
unfolding trim trim_start trim_end
trim-bare before [] after h k b e =
    ap trim_end (trim_start-blank before after h ∙ only_blank after k)
  where
    only_blank : (s : Text) → All IsBlank s → trim_start s ≡ []
    only_blank [] p = refl
    only_blank (c ∷ s) p = rw p.0 (only_blank s p.1)
trim-bare before (c ∷ s) after h k b e =
    ap trim_end {y = c ∷ s ++ after} (trim_start-blank before (c ∷ s ++ after) h ∙ (rw b refl))
    ∙ trim_end-bare (c ∷ s) after e k

Letter-lower : (c w : ℕ) → (lower c == w) ≡ true → Letter c w
Letter-lower c w p = ground arith

-- A text in lower case is a word exactly if the text spells it.
spelled :
    (s word : Text)
    → All (λ w. lower w ≡ w) word
    → (((to_ascii_lowercase s == word) ≡ true) × Spells s word)
      ⊎ (((to_ascii_lowercase s == word) ≡ false) × (Spells s word → ⊥))
unfolding list_beq
spelled [] [] h = inl (refl, tt)
spelled [] (w ∷ ws) h = inr (refl, λ x. x)
spelled (c ∷ s) [] h = inr (refl, λ x. x)
spelled (c ∷ s) (w ∷ ws) h = elim (Bool-cases (lower c == w)) [
  | inl p ↦ elim (spelled s ws h.1) [
    | inl (q, r) ↦ inl (rw (p, q) refl, (Letter-lower c w p, r))
    | inr (q, r) ↦ inr (rw (p, q) refl, λ x. r x.1)
  ]
  | inr p ↦ inr (rw p refl, λ x. not_letter c w h.0 p x.0)
]
  where
    not_letter : (c w : ℕ) → lower w ≡ w → (lower c == w) ≡ false → Letter c w → ⊥
    not_letter c w h p x = ground arith

off_lem :
    (s : Text)
    → ((is_off (to_ascii_lowercase s) ≡ true) × TurnsOff s)
      ⊎ ((is_off (to_ascii_lowercase s) ≡ false) × (TurnsOff s → ⊥))
off_lem s = elim (spelled s (codes "off") (refl, (refl, (refl, tt)))) [
  | inl (p, h) ↦ inl (rw p refl, inl h)
  | inr (p, a) ↦ elim (spelled s (codes "0") (refl, tt)) [
    | inl (q, h) ↦ inl (rw (p, q) refl, inr (inl h))
    | inr (q, b) ↦ elim (spelled s (codes "false") (refl, (refl, (refl, (refl, (refl, tt)))))) [
      | inl (r, h) ↦ inl (rw (p, q, r) refl, inr (inr (inl h)))
      | inr (r, c) ↦ elim (spelled s (codes "none") (refl, (refl, (refl, (refl, tt))))) [
        | inl (t, h) ↦ inl (rw (p, q, r, t) refl, inr (inr (inr h)))
        | inr (t, d) ↦ inr (rw (p, q, r, t) refl, λ x. none_of s a b c d x)
      ]
    ]
  ]
]
  where
    none_of :
        (s : Text)
        → (Spells s (codes "off") → ⊥)
        → (Spells s (codes "0") → ⊥)
        → (Spells s (codes "false") → ⊥)
        → (Spells s (codes "none") → ⊥)
        → TurnsOff s
        → ⊥
    none_of s a b c d (inl x) = a x
    none_of s a b c d (inr (inl x)) = b x
    none_of s a b c d (inr (inr (inl x))) = c x
    none_of s a b c d (inr (inr (inr x))) = d x

normalized :
    (v core : Text)
    → trim v ≡ core
    → normalize_optional v
      ≡ (if core == [] then none else if is_off (to_ascii_lowercase core) then none else some core)
unfolding normalize_optional
normalized v core p = rw p refl

cons_nil : (c : ℕ) (s : Text) → c ∷ s ≢ []
cons_nil c s p = cc

-- A setting that is a text with no blank at its ends, between any blanks: if the text is empty or
-- spells `off`, `0`, `false` or `none`, in letters of either case, then there is no server; else
-- the setting is read as the text.
pub normalize_optional-Off :
    (before core after : Text)
    → All IsBlank before
    → All IsBlank after
    → BeginsBare core
    → EndsBare core
    → ((normalize_optional (before ++ (core ++ after)) ≡ none) × ((core ≡ []) ⊎ TurnsOff core))
      ⊎ ((normalize_optional (before ++ (core ++ after)) ≡ some core)
          × (core ≢ [])
          × (TurnsOff core → ⊥))
normalize_optional-Off before [] after h k b e = inl (
  normalized _ [] (trim-bare before [] after h k b e) ∙ (rw (eq_refl {A = Text} []) refl),
  inl refl,
)
normalize_optional-Off before (c ∷ s) after h k b e =
    let n = normalized _ (c ∷ s) (trim-bare before (c ∷ s) after h k b e) in
    let full : ((c ∷ s) == []) ≡ false = false_of_ne (c ∷ s) [] (λ q. cons_nil c s q) in
    elim (off_lem (c ∷ s)) [
      | inl (p, off) ↦ inl (n ∙ (rw (full, p) refl), inr off)
      | inr (p, on) ↦ inr (n ∙ (rw (full, p) refl), cons_nil c s, on)
    ]
