-- ===== src/Hasher/Normal.antt =====
-- pkg/hasher/canonicalize.go: NormalizeText gives one text for all line endings.
use mathlib.Core.Bool.{and-false}
use reelm.Base.{
  or-eq-false, ℕ, ◌≡◌, refl, sym, ap, ◌∙◌, Bool, false, [], ◌∷◌, Text, any, eqb, eqb_iff,
  trim_space, replace_all, Bool-cases, inl, inr,
}
use reelm.Base.Strings.Trimmed.{trim_space_idem, any-trim_space}
use reelm.Hasher.{normalize_text}

abbrev pub lf : ℕ
lf = 10

abbrev pub cr : ℕ
cr = 13

-- Whether a character stands in a text.
abbrev pub occurs : ℕ → Text → Bool
occurs d s = any (λ c. eqb c d) s

replace_absent : (d : ℕ) (from to s : Text) → occurs d s ≡ false → replace_all s (d ∷ from) to ≡ s
unfolding replace_all
replace_absent d from to [] h = refl
replace_absent d from to (c ∷ s) h = elim (Bool-cases (eqb c d)) [
  | inl e ↦ cc (simp e at h)
  | inr e ↦ simp e (ap (λ (t : Text). c ∷ t) (replace_absent d from to s (simp e at h)))
]

occurs-replace_cr : (s : Text) → occurs cr (replace_all s (cr ∷ []) (lf ∷ [])) ≡ false
unfolding replace_all
occurs-replace_cr [] = refl
occurs-replace_cr (c ∷ s) = elim (Bool-cases (eqb c cr)) [
  | inl e ↦ simp e (occurs-replace_cr s)
  | inr e ↦ simp e (occurs-replace_cr s)
]

-- A normal text has no carriage return.
pub occurs-normalize_text : (s : Text) → occurs cr (normalize_text s) ≡ false
unfolding normalize_text
occurs-normalize_text s =
    any-trim_space (λ c. eqb c cr)
      (replace_all (replace_all s (cr ∷ lf ∷ []) (lf ∷ [])) (cr ∷ []) (lf ∷ []))
      (occurs-replace_cr (replace_all s (cr ∷ lf ∷ []) (lf ∷ [])))

trim-normalize_text : (s : Text) → trim_space (normalize_text s) ≡ normalize_text s
unfolding normalize_text
trim-normalize_text s =
    trim_space_idem (replace_all (replace_all s (cr ∷ lf ∷ []) (lf ∷ [])) (cr ∷ []) (lf ∷ []))

without_cr : (s : Text) → occurs cr s ≡ false → normalize_text s ≡ trim_space s
unfolding normalize_text
without_cr s h =
    let e = replace_absent cr (lf ∷ []) (lf ∷ []) s h in
    let f = replace_absent cr [] (lf ∷ []) s h in
    ap (λ (t : Text). trim_space (replace_all t (cr ∷ []) (lf ∷ []))) e ∙ ap trim_space f

-- Normalizing a text twice is normalizing it once.
pub normalize_text_idem : (s : Text) → normalize_text (normalize_text s) ≡ normalize_text s
normalize_text_idem s =
    without_cr (normalize_text s) (occurs-normalize_text s) ∙ trim-normalize_text s

no_lf : (s to : Text) → occurs lf s ≡ false → replace_all s (cr ∷ lf ∷ []) to ≡ s
unfolding replace_all
no_lf [] to h = refl
no_lf (c ∷ []) to h = simp (and-false)
no_lf (c ∷ d ∷ s) to h =
    let (p, q) = or-eq-false (eqb c lf) (occurs lf (d ∷ s)) h in
    let (e, f) = or-eq-false (eqb d lf) (occurs lf s) q in
    simp (e, and-false) (ap (λ (t : Text). c ∷ t) (no_lf (d ∷ s) to q))

occurs-replace_lf : (s : Text) → occurs lf (replace_all s (lf ∷ []) (cr ∷ [])) ≡ false
unfolding replace_all
occurs-replace_lf [] = refl
occurs-replace_lf (c ∷ s) = elim (Bool-cases (eqb c lf)) [
  | inl e ↦ simp e (occurs-replace_lf s)
  | inr e ↦ simp e (occurs-replace_lf s)
]

cr_back :
    (s : Text)
    → occurs cr s ≡ false
    → replace_all (replace_all s (lf ∷ []) (cr ∷ [])) (cr ∷ []) (lf ∷ []) ≡ s
unfolding replace_all
cr_back [] h = refl
cr_back (c ∷ s) h = elim (Bool-cases (eqb c lf)) [
  | inl e ↦
      rw ((eqb_iff c lf).0 e)
        (ap (λ (t : Text). lf ∷ t) (cr_back s (or-eq-false (eqb c cr) (occurs cr s) h).1))
  | inr e ↦
      let (f, g) = or-eq-false (eqb c cr) (occurs cr s) h in
      simp (e, f) (ap (λ (t : Text). c ∷ t) (cr_back s g))
]

crlf_back :
    (s : Text)
    → occurs cr s ≡ false
    → replace_all (replace_all s (lf ∷ []) (cr ∷ lf ∷ [])) (cr ∷ lf ∷ []) (lf ∷ []) ≡ s
unfolding replace_all
crlf_back [] h = refl
crlf_back (c ∷ s) h = elim (Bool-cases (eqb c lf)) [
  | inl e ↦
      rw ((eqb_iff c lf).0 e)
        (ap (λ (t : Text). lf ∷ t) (crlf_back s (or-eq-false (eqb c cr) (occurs cr s) h).1))
  | inr e ↦ elim (Bool-cases (eqb c cr)) [
    | inl f ↦ cc (simp f at h)
    | inr f ↦ simp (e, f) (ap (λ (t : Text). c ∷ t) (crlf_back s (simp f at h)))
  ]
]

-- A text without carriage returns, and the same text with a carriage return before each line feed or in
-- place of each, have one normal form.
pub normalize_text-line_endings :
    (s : Text)
    → occurs cr s ≡ false
    → (normalize_text (replace_all s (lf ∷ []) (cr ∷ lf ∷ [])) ≡ normalize_text s)
      × (normalize_text (replace_all s (lf ∷ []) (cr ∷ [])) ≡ normalize_text s)
unfolding normalize_text
normalize_text-line_endings s h =
    let plain = sym (without_cr s h) in
    (
      ap (λ (t : Text). trim_space (replace_all t (cr ∷ []) (lf ∷ []))) (crlf_back s h)
          ∙ ap trim_space (replace_absent cr [] (lf ∷ []) s h)
          ∙ plain,
      ap (λ (t : Text). trim_space (replace_all t (cr ∷ []) (lf ∷ [])))
            (no_lf (replace_all s (lf ∷ []) (cr ∷ [])) (lf ∷ []) (occurs-replace_lf s))
          ∙ ap trim_space (cr_back s h)
          ∙ plain,
    )
