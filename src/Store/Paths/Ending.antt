-- ===== src/Store/Paths/Ending.antt =====
-- Joining and cleaning a path keep the ending of its last element, so a file that is saved with an
-- extension has that extension.
use mathlib.Core.List.{reverse, foldl, append_assoc, foldl-append, reverse-cons}
use mathlib.Core.Logic.{◌≢◌}
use mathlib.Core.Bool.{and-false}
use mathlib.Core.Path.{subst}
use reelm.Base.{
  ℕ, ◌≤◌, ◌≡◌, refl, sym, ap, ◌∙◌, Bool, true, false, List, [], ◌∷◌, ◌++◌, arith, Text, codes, ◌==◌,
  eq_iff, eqb, split, join, has_prefix, length, length-append, Bool-cases, inl, inr,
}
use reelm.Store.Paths.{slash, has_slash, is_plain, resolve, render, clean, join_path, ext}

-- The path is not empty and its last element ends in `x`.
abbrev pub EndsWith : Text → Text → Type 0
EndsWith x p = (t : Text) × (p ≡ t ++ x)

split_flat : (s : Text) → has_slash s ≡ false → split slash s ≡ s ∷ []
unfolding split
split_flat [] h = refl
split_flat (c ∷ s) h = elim (Bool-cases (eqb c slash)) [
  | inl e ↦ cc (rw e at h)
  | inr e ↦ simp (e, split_flat s (rw e at h))
]

-- Texts of different lengths differ.
ne_of_length : (s t : Text) → length s ≢ length t → (s == t) ≡ false
ne_of_length s t h = elim (Bool-cases (s == t)) [
  | inl e ↦ absurd (h (ap length ((eq_iff s t).0 e)))
  | inr e ↦ e
]

module _ (x : Text) (flat : has_slash x ≡ false) (long : 3 ≤ length x) where
  split-EndsWith :
      (s : Text) → (ps : List Text) × (l : Text) × (split slash (s ++ x) ≡ ps ++ (l ++ x) ∷ [])
  unfolding split
  split-EndsWith [] = ([], [], split_flat x flat)
  split-EndsWith (c ∷ s) =
      let (ps, l, e) = split-EndsWith s in
      elim (Bool-cases (eqb c slash)) [
        | inl h ↦ ([] ∷ ps, l, simp (h, e))
        | inr h ↦ grow c ps l h e
      ]
    where
      grow :
          (c : ℕ) (ps : List Text) (l : Text)
          → eqb c slash ≡ false
          → split slash (s ++ x) ≡ ps ++ (l ++ x) ∷ []
          → (qs : List Text) × (m : Text) × (split slash (c ∷ s ++ x) ≡ qs ++ (m ++ x) ∷ [])
      grow c [] l h e = ([], c ∷ l, simp (h, e))
      grow c (p ∷ ps) l h e = ((c ∷ p) ∷ ps, l, simp (h, e))

  is_plain-EndsWith : (l : Text) → is_plain (l ++ x) ≡ true
  unfolding is_plain
  is_plain-EndsWith l =
      let far : 3 ≤ length (l ++ x) = omega (arith, length-append l x) in
      simp (
        ne_of_length (l ++ x) [] (omega arith),
        ne_of_length (l ++ x) (codes ".") (omega arith),
        ne_of_length (l ++ x) (codes "..") (omega arith),
      )

  join-EndsWith : (ps : List Text) (l : Text) → EndsWith x (join (codes "/") (ps ++ (l ++ x) ∷ []))
  unfolding join
  join-EndsWith [] l = (l, refl)
  join-EndsWith (p ∷ []) l = (p ++ slash ∷ l, sym (append_assoc p (slash ∷ l) x))
  join-EndsWith (p ∷ q ∷ ps) l =
      let (u, e) = join-EndsWith (q ∷ ps) l in
      (p ++ slash ∷ u, ap (λ (s : Text). p ++ slash ∷ s) e ∙ sym (append_assoc p (slash ∷ u) x))

  render-EndsWith : (rooted : Bool) (s : Text) → EndsWith x s → EndsWith x (render rooted s)
  render-EndsWith true s (u, e) = (slash ∷ u, ap (λ (t : Text). slash ∷ t) e)
  render-EndsWith false [] (u, e) =
      absurd (let far = ap length e in omega (arith, length-append u x))
  render-EndsWith false (c ∷ s) h = h

  resolve-EndsWith :
      (rooted : Bool) (stack : List Text) (l : Text)
      → resolve rooted stack (l ++ x) ≡ (l ++ x) ∷ stack
  unfolding resolve
  resolve-EndsWith rooted stack l = simp (is_plain-EndsWith l)

  clean-EndsWith : (s : Text) → EndsWith x (clean (s ++ x))
  unfolding clean
  clean-EndsWith s =
      let (ps, l, e) = split-EndsWith s in
      let rooted = has_prefix (s ++ x) (codes "/") in
      let far : 3 ≤ length (s ++ x) = omega (arith, length-append s x) in
      let stack = foldl (resolve rooted) [] ps in
      let done : foldl (resolve rooted) [] (split slash (s ++ x)) ≡ (l ++ x) ∷ stack =
        ap (foldl (resolve rooted) []) e
        ∙ foldl-append (resolve rooted) [] ps ((l ++ x) ∷ [])
        ∙ resolve-EndsWith rooted stack l in
      rw (ne_of_length (s ++ x) [] (omega arith)) (
        rw done (
          rw (reverse-cons (l ++ x) stack)
            (render-EndsWith rooted _ (join-EndsWith (reverse stack) l))))

  -- The elements before the last do not matter to the ending.
  pub join_path-EndsWith :
      (es : List Text) (l : Text) → EndsWith x (join_path (es ++ (l ++ x) ∷ []))
  unfolding join_path
  join_path-EndsWith [] l =
      let far : 3 ≤ length (l ++ x) = omega (arith, length-append l x) in
      simp (ne_of_length (l ++ x) [] (omega arith)) (unfold join in clean-EndsWith l)
  join_path-EndsWith (e ∷ es) l = elim (Bool-cases (e == [])) [
    | inl h ↦ simp h (join_path-EndsWith es l)
    | inr h ↦
        let (u, f) = join-EndsWith (e ∷ es) l in
        simp h (subst (λ (p : Text). EndsWith x (clean p)) (sym f) (clean-EndsWith u))
  ]

  ext-append : (t : Text) → ext x ≡ x → ext (t ++ x) ≡ x
  unfolding ext
  ext-append [] h = h
  ext-append (c ∷ t) h = simp (ext-append t h, ne_of_length x [] (omega arith), and-false)

  -- The extension of a path that ends in one.
  pub ext-EndsWith : (p : Text) → ext x ≡ x → EndsWith x p → ext p ≡ x
  ext-EndsWith p h (t, e) = ap ext e ∙ ext-append t h

-- A file under a folder, both joined, keeps its extension.
module _ (x : Text) (flat : has_slash x ≡ false) (long : 3 ≤ length x) (own : ext x ≡ x) where
  pub ext-join_path :
      (base : Text) (es : List Text) (l : Text)
      → ext (join_path (base ∷ join_path (es ++ (l ++ x) ∷ []) ∷ [])) ≡ x
  ext-join_path base es l =
      let (u, e) = join_path-EndsWith x flat long es l in
      rw e (
        ext-EndsWith x flat long (join_path (base ∷ (u ++ x) ∷ [])) own
          (join_path-EndsWith x flat long (base ∷ []) u))
