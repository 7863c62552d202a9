-- ===== src/Base/Strings/Order.antt =====
-- The order of texts is a strict total order.
use mathlib.Core.Path.{◌≡◌, refl}
use mathlib.Core.Bool.{true, false}
use mathlib.Core.List.{[], ◌∷◌}
use native.Mathlib.Omega.{arith}
use reelm.Base.Strings.{Text, text_lt, ◌==◌}

pub text_lt_asymm : (s t : Text) → text_lt s t ≡ true → text_lt t s ≡ false
unfolding text_lt
text_lt_asymm [] [] h = refl
text_lt_asymm [] (d ∷ t) h = refl
text_lt_asymm (c ∷ s) [] h = cc
text_lt_asymm (c ∷ s) (d ∷ t) h = ground (arith, text_lt_asymm s t)

-- Not being below goes on along a chain.
pub text_lt_negtrans :
    (s t u : Text) → text_lt t s ≡ false → text_lt u t ≡ false → text_lt u s ≡ false
unfolding text_lt
text_lt_negtrans [] t [] h k = refl
text_lt_negtrans [] t (e ∷ u) h k = refl
text_lt_negtrans (c ∷ s) [] u h k = cc
text_lt_negtrans (c ∷ s) (d ∷ t) [] h k = cc
text_lt_negtrans (c ∷ s) (d ∷ t) (e ∷ u) h k = ground (arith, text_lt_negtrans s t u)

pub text_lt_total : (s t : Text) → text_lt s t ≡ false → text_lt t s ≡ false → (s == t) ≡ true
unfolding text_lt ◌==◌
text_lt_total [] [] h k = refl
text_lt_total [] (d ∷ t) h k = cc
text_lt_total (c ∷ s) [] h k = cc
text_lt_total (c ∷ s) (d ∷ t) h k = ground (arith, text_lt_total s t)
