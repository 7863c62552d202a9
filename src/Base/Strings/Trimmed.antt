-- ===== src/Base/Strings/Trimmed.antt =====
-- Laws of the functions on texts: trimming twice, replacing what is not there, ordering.
use mathlib.Core.List.{reverse, reverse-append, reverse-reverse, reverse-cons}
use Prim.Native.Nat.{ℕ}
use mathlib.Core.Path.{◌≡◌, refl, ap, ◌∙◌}
use mathlib.Core.Logic.{inl, inr}
use mathlib.Core.Bool.{Bool, false, ◌||◌}
use mathlib.Core.List.{[], ◌∷◌, ◌++◌}
use native.Mathlib.Omega.{arith}
use reelm.Base.Tests.{Bool-cases}
use reelm.Base.Lists.{any}
use reelm.Base.Strings.{Text, is_space, trim_left, trim_right, trim_space}

module _ (p : ℕ → Bool) where
  trim_left_idem : (s : Text) → trim_left p (trim_left p s) ≡ trim_left p s
  unfolding trim_left
  trim_left_idem [] = refl
  trim_left_idem (c ∷ s) = elim (Bool-cases (p c)) [
    | inl e ↦ simp e (trim_left_idem s)
    | inr e ↦ simp e
  ]

  -- A text begins with no character of the set.
  abbrev Starts : Text → Type 0
  Starts [] = Unit
  Starts (c ∷ s) = p c ≡ false

  trim_left-Starts : (s : Text) → Starts (trim_left p s)
  unfolding trim_left
  trim_left-Starts [] = tt
  trim_left-Starts (c ∷ s) = elim (Bool-cases (p c)) [
    | inl e ↦ simp e (trim_left-Starts s)
    | inr e ↦ simp e refl
  ]

  Starts-trim_left : (s : Text) → Starts s → trim_left p s ≡ s
  unfolding trim_left
  Starts-trim_left [] h = refl
  Starts-trim_left (c ∷ s) h = simp h

  trim_left-concat :
      (s : Text) (c : ℕ) → p c ≡ false → trim_left p (s ++ c ∷ []) ≡ trim_left p s ++ c ∷ []
  unfolding trim_left
  trim_left-concat [] c h = simp h
  trim_left-concat (d ∷ s) c h = elim (Bool-cases (p d)) [
    | inl e ↦ simp e (trim_left-concat s c h)
    | inr e ↦ simp e
  ]

  trim_right_idem : (s : Text) → trim_right p (trim_right p s) ≡ trim_right p s
  unfolding trim_right
  trim_right_idem s =
      ap (λ (t : Text). reverse (trim_left p t)) (reverse-reverse (trim_left p (reverse s)))
      ∙ ap reverse (trim_left_idem (reverse s))

  Starts-trim_right : (s : Text) → Starts s → Starts (trim_right p s)
  unfolding trim_right
  Starts-trim_right [] h = unfold trim_left in tt
  Starts-trim_right (c ∷ s) h =
      let e : reverse (trim_left p (reverse (c ∷ s))) ≡ c ∷ reverse (trim_left p (reverse s)) =
        ap (λ (t : Text). reverse (trim_left p t)) (reverse-cons c s)
        ∙ ap reverse (trim_left-concat (reverse s) c h)
        ∙ reverse-append (trim_left p (reverse s)) (c ∷ []) in
      rw e h

-- Trimming twice is trimming once.
pub trim_space_idem : (s : Text) → trim_space (trim_space s) ≡ trim_space s
unfolding trim_space
trim_space_idem s =
    ap (trim_right is_space)
      (Starts-trim_left is_space _ (Starts-trim_right is_space _ (trim_left-Starts is_space s)))
    ∙ trim_right_idem is_space (trim_left is_space s)

-- A set's characters that are not in a text are not in what is left of it.
any-trim_left : (p q : ℕ → Bool) (s : Text) → any q s ≡ false → any q (trim_left p s) ≡ false
unfolding trim_left
any-trim_left p q [] h = refl
any-trim_left p q (c ∷ s) h = elim (Bool-cases (p c)) [
  | inl e ↦ simp e (any-trim_left p q s (ground arith))
  | inr e ↦ simp e h
]

any-append : (q : ℕ → Bool) (s t : Text) → any q (s ++ t) ≡ (any q s || any q t)
any-append q [] t = refl
any-append q (c ∷ s) t = ground (arith, any-append q s t)

any-reverse : (q : ℕ → Bool) (s : Text) → any q (reverse s) ≡ any q s
any-reverse q [] = refl
any-reverse q (c ∷ s) =
    ap (any q) (reverse-cons c s)
    ∙ any-append q (reverse s) (c ∷ [])
    ∙ ground (arith, any-reverse q s)

pub any-trim_space : (q : ℕ → Bool) (s : Text) → any q s ≡ false → any q (trim_space s) ≡ false
unfolding trim_space trim_right
any-trim_space q s h =
    any-reverse q _
    ∙ any-trim_left is_space q (reverse (trim_left is_space s))
        (any-reverse q (trim_left is_space s) ∙ any-trim_left is_space q s h)
