-- ===== src/Streaming/Lines.antt =====
-- What (*bufio.Reader).ReadBytes('\n') returns in turn: the lines of a body, each with its end of
-- line, and the rest after the last of them, which comes with the error.
use reelm.Base.{
  ℕ, ◌≡◌, refl, ap, List, [], ◌∷◌, ◌++◌, Text, eqb, concat, if◌then◌else◌, Bool-cases, inl, inr,
  ◌∙◌,
}

abbrev pub newline : ℕ
newline = 10

-- One more byte in front of the first line, or of the rest where there is no line.
abbrev pub into_first : ℕ → List Text × Text → List Text × Text
into_first c ([], r) = ([], c ∷ r)
into_first c (l ∷ ls, r) = ((c ∷ l) ∷ ls, r)

unfoldable pub read_lines : Text → List Text × Text
read_lines [] = ([], [])
read_lines (c ∷ s) =
    let later = read_lines s in
    if eqb c newline then ((c ∷ []) ∷ later.0, later.1) else into_first c later

concat-into_first :
    (c : ℕ) (p : List Text × Text)
    → concat (into_first c p).0 ++ (into_first c p).1 ≡ c ∷ (concat p.0 ++ p.1)
concat-into_first c ([], r) = refl
concat-into_first c (l ∷ ls, r) = refl

-- The lines and the rest are the body, in order and complete.
pub concat-read_lines : (s : Text) → concat (read_lines s).0 ++ (read_lines s).1 ≡ s
unfolding read_lines
concat-read_lines [] = refl
concat-read_lines (c ∷ s) = elim (Bool-cases (eqb c newline)) [
  | inl e ↦ rw e (ap (λ (t : Text). c ∷ t) (concat-read_lines s))
  | inr e ↦
      rw e (concat-into_first c (read_lines s) ∙ ap (λ (t : Text). c ∷ t) (concat-read_lines s))
]
