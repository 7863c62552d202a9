-- ===== src/Config/Float64.antt =====
-- float64, as far as pkg/config/validate.go compares it: NaN, an infinity, or a sign, a mantissa
-- and the exponent of 2.
use reelm.Base.{ℕ, zero, suc, ◌*◌, Bool, false, not, ◌&&◌, ltb}
use reelm.Base.Int.{ℤ, pos, negsuc}

pub data Float : Type 0 where
  nan : Float
  infinite : Bool → Float
  finite : Bool → ℕ → ℤ → Float

pub pow2 : ℕ → ℕ
pow2 zero = 1
pow2 (suc n) = 2 * pow2 n

-- x < 0.0; zero has a sign too.
unfoldable pub below_zero : Float → Bool
below_zero nan = false
below_zero (infinite negative) = negative
below_zero (finite negative m e) = negative && ltb 0 m

-- x > 1.0
unfoldable pub above_one : Float → Bool
unfolding pow2
above_one nan = false
above_one (infinite negative) = not negative
above_one (finite negative m (pos e)) = not negative && ltb 1 (m * pow2 e)
above_one (finite negative m (negsuc e)) = not negative && ltb (pow2 (suc e)) m
