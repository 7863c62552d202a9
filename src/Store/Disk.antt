-- ===== src/Store/Disk.antt =====
-- The file system under the store. Files are keyed by cleaned paths, in the order in which
-- filepath.WalkDir meets them: by elements, each in lexical order, which is the order of the texts
-- with the separator below every other character. `fails` says which system calls fail, and `leaves`
-- what a failed write leaves of a file.
use reelm.Base.{
  ℕ, ◌+◌, ◌≡◌, refl, Bool, true, false, not, ◌&&◌, ◌||◌, Option, none, some, List, [], ◌∷◌, ◌++◌,
  arith, Text, codes, ◌==◌, eq_iff, eqb, ltb, length, drop, has_prefix, if◌then◌else◌,
}
use reelm.Store.Paths.{slash, clean}

pub data Call : Type 0 where
  mkdir_all write_file read_file remove stat : Text → Call
  rename : Text → Text → Call

pub record Disk : Type 0 where
  pub files : List (Text × Text)
  pub fails : Call → Bool
  -- what a write of a text that fails leaves under the path; none is what was there before
  pub leaves : Text → Text → Option Text

-- A path's place in the order of a walk.
abbrev rank : ℕ → ℕ
rank c = if eqb c slash then 0 else c + 1

unfoldable pub path_lt : Text → Text → Bool
path_lt s [] = false
path_lt [] (d ∷ t) = true
path_lt (c ∷ s) (d ∷ t) = ltb (rank c) (rank d) || eqb c d && path_lt s t

unfoldable pub content : Text → List (Text × Text) → Option Text
content p [] = none
content p ((q, t) ∷ fs) = if q == p then some t else content p fs

unfoldable pub without : Text → List (Text × Text) → List (Text × Text)
without p [] = []
without p ((q, t) ∷ fs) = let rest = without p fs in if q == p then rest else (q, t) ∷ rest

unfoldable pub place : Text → Text → List (Text × Text) → List (Text × Text)
place p t [] = (p, t) ∷ []
place p t ((q, u) ∷ fs) =
    if q == p
    then (p, t) ∷ fs
    else if path_lt p q
    then (p, t) ∷ (q, u) ∷ fs
    else (q, u) ∷ place p t fs

-- os.ReadFile
unfoldable pub read : Text → Disk → Option Text
read p d = if d.fails (read_file p) then none else content p d.files

-- os.Stat without an error
unfoldable pub exists : Text → Disk → Bool
exists p d = elim (content p d.files) [ none ↦ false | some t ↦ not (d.fails (stat p)) ]

-- os.WriteFile
unfoldable pub write : Text → Text → Disk → Option Disk
write p t d = if d.fails (write_file p) then none else some (record d { files = place p t d.files })

-- The disk after a WriteFile that failed
unfoldable pub torn : Text → Text → Disk → Disk
torn p t d = elim (d.leaves p t) [ none ↦ d | some u ↦ record d { files = place p u d.files } ]

-- os.Rename
unfoldable pub move : Text → Text → Disk → Option Disk
move p q d = if d.fails (rename p q) then none else elim (content p d.files) [
  | none ↦ none
  | some t ↦ some (record d { files = place q t (without p d.files) })
]

-- os.Remove, whose error the store drops
unfoldable pub delete : Text → Disk → Disk
delete p d = if d.fails (remove p) then d else record d { files = without p d.files }

-- Whether a walk from `base` meets the cleaned path.
unfoldable pub is_within : Text → Text → Bool
is_within base p =
    let root = clean base in
    if root == codes "."
    then not (has_prefix p (codes "/")) && not (has_prefix p (codes "../"))
    else if root == codes "/"
    then has_prefix p (codes "/")
    else has_prefix p (root ++ codes "/")

-- filepath.Rel for a path that the walk from `base` meets
unfoldable pub relative : Text → Text → Text
relative base p =
    let root = clean base in
    if root == codes "."
    then p
    else if root == codes "/"
    then drop 1 p
    else drop (length root + 1) p

-- The files that filepath.WalkDir meets, in its order.
unfoldable pub walk : Text → List (Text × Text) → List Text
walk base [] = []
walk base ((p, t) ∷ fs) = let rest = walk base fs in if is_within base p then p ∷ rest else rest

pub content-without :
    (p j : Text) (fs : List (Text × Text))
    → content j (without p fs) ≡ (if p == j then none else content j fs)
unfolding content without
content-without p j [] = ground arith
content-without p j ((q, t) ∷ fs) =
    ground (arith, eq_iff q p, eq_iff q j, eq_iff p j, content-without p j fs)

pub content-place :
    (p j t : Text) (fs : List (Text × Text))
    → content j (place p t fs) ≡ (if p == j then some t else content j fs)
unfolding content place
content-place p j t [] = refl
content-place p j t ((q, u) ∷ fs) =
    ground (arith, eq_iff q p, eq_iff q j, eq_iff p j, content-place p j t fs)

pub read-content :
    (p : Text) (t : Text) (d : Disk)
    → d.fails (read_file p) ≡ false
    → content p d.files ≡ some t
    → read p d ≡ some t
unfolding read
read-content p t d e f = simp e f

pub exists-content :
    (p : Text) (t : Text) (d : Disk)
    → d.fails (stat p) ≡ false
    → content p d.files ≡ some t
    → exists p d ≡ true
unfolding exists
exists-content p t d e f = rw (f, exists) (simp e)

pub fails-torn : (p t : Text) (d : Disk) → (torn p t d).fails ≡ d.fails
unfolding torn
fails-torn p t d = ground arith
