-- ===== src/Http/Headers.antt =====
-- http.Header: an association list from canonical keys to the values in their order.
use mathlib.Core.Path.{ap₂}
use reelm.Base.Strings.{lower_rune}
use reelm.Base.{
  ℕ, ◌+◌, ◌-◌, ◌≡◌, refl, Bool, true, false, not, ◌&&◌, ◌||◌, List, [], ◌∷◌, ◌++◌, arith, Text,
  codes, ◌==◌, eq_iff, eqb, leb, any, to_lower, Bool-cases, inl, inr, if◌then◌else◌,
}

abbrev pub Header : Type 0
Header = List (Text × List Text)

abbrev upper : ℕ → ℕ
upper c = if leb b'a' c && leb c b'z' then c - 32 else c

abbrev lower : ℕ → ℕ
lower c = if leb b'A' c && leb c b'Z' then c + 32 else c

-- The bytes that a header's name may hold.
is_token : ℕ → Bool
is_token c =
    leb b'a' c && leb c b'z'
    || leb b'A' c && leb c b'Z'
    || leb b'0' c && leb c b'9'
    || any (eqb c) (codes "!#$%&'*+-.^_`|~")

respell : Bool → Text → Text
respell start [] = []
respell start (c ∷ s) = (if start then upper c else lower c) ∷ respell (eqb c b'-') s

-- http.CanonicalHeaderKey: a name with a byte that is no token stays as it is.
unfoldable pub canonical_key : Text → Text
unfolding is_token respell
canonical_key k = if any (λ c. not (is_token c)) k then k else respell true k

unfoldable pub values_at : Text → Header → List Text
values_at k [] = []
values_at k ((j, vs) ∷ h) = if j == k then vs else values_at k h

unfoldable pub put_at : Text → List Text → Header → Header
put_at k vs [] = (k, vs) ∷ []
put_at k vs ((j, ws) ∷ h) = if j == k then (k, vs) ∷ h else (j, ws) ∷ put_at k vs h

abbrev pub first : List Text → Text
first [] = []
first (v ∷ vs) = v

-- Values
unfoldable pub values : Text → Header → List Text
unfolding canonical_key values_at ◌==◌
values k h = values_at (canonical_key k) h

-- Get
unfoldable pub get : Text → Header → Text
unfolding values
get k h = first (values k h)

-- Set
unfoldable pub set : Text → Text → Header → Header
unfolding canonical_key put_at ◌==◌
set k v h = put_at (canonical_key k) (v ∷ []) h

-- Add
unfoldable pub add : Text → Text → Header → Header
unfolding values canonical_key put_at ◌==◌
add k v h = put_at (canonical_key k) (values k h ++ v ∷ []) h

values_at-put_at :
    (k j : Text) (vs : List Text) (h : Header)
    → values_at j (put_at k vs h) ≡ (if k == j then vs else values_at j h)
unfolding values_at put_at
values_at-put_at k j vs [] = refl
values_at-put_at k j vs ((i, ws) ∷ h) =
    ground (arith, eq_iff k j, eq_iff i k, eq_iff i j, values_at-put_at k j vs h)

pub values-set :
    (k j v : Text) (h : Header)
    → values j (set k v h) ≡ (if canonical_key k == canonical_key j then v ∷ [] else values j h)
values-set k j v h =
    unfold set values in values_at-put_at (canonical_key k) (canonical_key j) (v ∷ []) h

pub get-set :
    (k j v : Text) (h : Header)
    → get j (set k v h) ≡ (if canonical_key k == canonical_key j then v else get j h)
get-set k j v h = unfold get in ground (arith, values-set k j v h)

pub values-add :
    (k j v : Text) (h : Header)
    → values j (add k v h)
      ≡ (if canonical_key k == canonical_key j then values k h ++ v ∷ [] else values j h)
values-add k j v h =
    unfold add in
    unfold values in
    values_at-put_at (canonical_key k) (canonical_key j) (values_at (canonical_key k) h ++ v ∷ []) h

unfoldable pub without_key : Text → Header → Header
without_key k [] = []
without_key k ((j, vs) ∷ h) = let rest = without_key k h in if j == k then rest else (j, vs) ∷ rest

-- Del
unfoldable pub del : Text → Header → Header
unfolding canonical_key without_key ◌==◌
del k h = without_key (canonical_key k) h

lower-upper : (c : ℕ) → lower_rune (upper c) ≡ lower_rune c
unfolding lower_rune
lower-upper c = ground arith

lower-lower : (c : ℕ) → lower_rune (lower c) ≡ lower_rune c
unfolding lower_rune
lower-lower c = ground arith

lower_respell : (start : Bool) (s : Text) → to_lower (respell start s) ≡ to_lower s
unfolding respell to_lower
lower_respell start [] = refl
lower_respell true (c ∷ s) =
    ap₂ (λ (d : ℕ) (t : Text). d ∷ t) (lower-upper c) (lower_respell (eqb c b'-') s)
lower_respell false (c ∷ s) =
    ap₂ (λ (d : ℕ) (t : Text). d ∷ t) (lower-lower c) (lower_respell (eqb c b'-') s)

-- A canonical key differs from the name in its letters' case alone.
pub to_lower-canonical_key : (k : Text) → to_lower (canonical_key k) ≡ to_lower k
unfolding canonical_key
to_lower-canonical_key k = elim (Bool-cases (any (λ c. not (is_token c)) k)) [
  | inl e ↦ simp e
  | inr e ↦ simp e (lower_respell true k)
]
