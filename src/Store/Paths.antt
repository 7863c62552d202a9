-- ===== src/Store/Paths.antt =====
-- The functions of Go's package path/filepath that the store calls, with Unix's separator.
pub mod Ending
pub mod Below
use mathlib.Core.List.{reverse, foldl}
use reelm.Base.{
  ℕ, Bool, true, false, not, ◌&&◌, ◌||◌, List, [], ◌∷◌, ◌++◌, Text, codes, ◌==◌, eqb, any, split,
  join, has_prefix, if◌then◌else◌,
}

abbrev pub slash : ℕ
slash = 47

abbrev pub has_slash : Text → Bool
has_slash s = any (λ c. eqb c slash) s

-- The elements that Clean keeps as they are.
pub is_plain : Text → Bool
is_plain part = not (part == []) && not (part == codes ".") && not (part == codes "..")

-- ".." takes the element before it away; at a root it is dropped, and above a relative start kept.
climb : Bool → List Text → List Text
climb true [] = []
climb false [] = codes ".." ∷ []
climb rooted (top ∷ stack) = if top == codes ".." then codes ".." ∷ top ∷ stack else stack

-- One element of a path; the stack has the last element at its head.
pub resolve : Bool → List Text → Text → List Text
resolve rooted stack part =
    if is_plain part then part ∷ stack else if part == codes ".." then climb rooted stack else stack

abbrev pub render : Bool → Text → Text
render true s = slash ∷ s
render false [] = codes "."
render false (c ∷ s) = c ∷ s

-- filepath.Clean
pub clean : Text → Text
clean p =
    if p == []
    then codes "."
    else let rooted = has_prefix p (codes "/") in
      render rooted (join (codes "/") (reverse (foldl (resolve rooted) [] (split slash p))))

-- filepath.Join
pub join_path : List Text → Text
join_path [] = []
join_path (e ∷ es) =
    let rest = join_path es in if e == [] then rest else clean (join (codes "/") (e ∷ es))

-- filepath.Ext
pub ext : Text → Text
ext [] = []
ext (c ∷ s) =
    let later = ext s in if eqb c b'.' && not (has_slash s) && later == [] then c ∷ s else later

-- The part of a path up to and with its last separator.
pub folder : Text → Text
folder [] = []
folder (c ∷ s) = let later = folder s in if has_slash (c ∷ s) then c ∷ later else []

-- filepath.Dir
pub dir : Text → Text
dir p = clean (folder p)

-- All that a path computes with.
unfoldable pub paths_code : Unit {0}
unfolding dir folder ext join_path clean resolve climb is_plain split join has_prefix ◌==◌
paths_code = tt
