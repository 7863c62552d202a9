-- ===== src/Base/Strings/Lowered.antt =====
-- Lower case and trimming, in either order.
use Prim.Native.Nat.{ℕ}
use mathlib.Core.Path.{◌≡◌, refl, sym, ap, ◌∙◌}
use mathlib.Core.Logic.{inl, inr}
use mathlib.Core.Bool.{Bool}
use mathlib.Core.List.{[], ◌∷◌, map, reverse}
use mathlib.Mathlib.Data.List.Basic.{map-reverse_aux}
use native.Mathlib.Omega.{arith}
use reelm.Base.Tests.{Bool-cases}
use reelm.Base.Strings.{Text, is_space, trim_left, trim_right, trim_space, lower_rune, to_lower}

is_space-lower_rune : (c : ℕ) → is_space (lower_rune c) ≡ is_space c
unfolding is_space lower_rune
is_space-lower_rune c = ground arith

trim_left-map :
    (p : ℕ → Bool) (f : ℕ → ℕ) (s : Text)
    → ((c : ℕ) → p (f c) ≡ p c)
    → trim_left p (map f s) ≡ map f (trim_left p s)
unfolding trim_left
trim_left-map p f [] h = refl
trim_left-map p f (c ∷ s) h = elim (Bool-cases (p c)) [
  | inl e ↦ simp (h c, e, trim_left-map p f s h)
  | inr e ↦ simp (h c, e)
]

trim_right-map :
    (p : ℕ → Bool) (f : ℕ → ℕ) (s : Text)
    → ((c : ℕ) → p (f c) ≡ p c)
    → trim_right p (map f s) ≡ map f (trim_right p s)
unfolding trim_right
trim_right-map p f s h =
    ap (λ (t : Text). reverse (trim_left p t)) (sym (map-reverse_aux f s []))
    ∙ ap reverse (trim_left-map p f (reverse s) h)
    ∙ sym (map-reverse_aux f (trim_left p (reverse s)) [])

pub trim_space-to_lower : (s : Text) → trim_space (to_lower s) ≡ to_lower (trim_space s)
unfolding trim_space to_lower
trim_space-to_lower s =
    ap (trim_right is_space) (trim_left-map is_space lower_rune s is_space-lower_rune)
    ∙ trim_right-map is_space lower_rune (trim_left is_space s) is_space-lower_rune
