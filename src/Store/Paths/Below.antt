-- ===== src/Store/Paths/Below.antt =====
-- Joining a path with names that Clean keeps: the result lies below the path.
use mathlib.Core.List.{reverse, foldl, append_assoc, foldl-append, reverse-cons}
use reelm.Base.{
  ℕ, ◌≡◌, refl, sym, ap, ◌∙◌, Bool, true, false, List, [], ◌∷◌, ◌++◌, Text, codes, ◌==◌, eqb, split,
  join, has_prefix, All, Bool-cases, inl, inr,
}
use reelm.Store.Paths.{slash, has_slash, is_plain, resolve, render, clean, join_path}

-- An element that Clean keeps, without a separator
pub record IsName (p : Text) : Type 0 where
  pub plain : is_plain p ≡ true
  pub flat : has_slash p ≡ false

split_cons : (s : Text) → (q : Text) × (qs : List Text) × (split slash s ≡ q ∷ qs)
unfolding split
split_cons [] = ([], [], refl)
split_cons (c ∷ s) =
    let (q, qs, f) = split_cons s in
    elim (Bool-cases (eqb c slash)) [
      | inl e ↦ ([], split slash s, simp e)
      | inr e ↦ (c ∷ q, qs, simp (e, f))
    ]

split-append : (b s : Text) → split slash (b ++ slash ∷ s) ≡ split slash b ++ split slash s
unfolding split
split-append [] s = refl
split-append (c ∷ b) s =
    let (q, qs, f) = split_cons b in
    elim (Bool-cases (eqb c slash)) [
      | inl e ↦ simp (e, split-append b s)
      | inr e ↦ simp (e, split-append b s, f)
    ]

split_name : (p : Text) → has_slash p ≡ false → split slash p ≡ p ∷ []
unfolding split
split_name [] h = refl
split_name (c ∷ s) h = elim (Bool-cases (eqb c slash)) [
  | inl e ↦ cc (rw e at h)
  | inr e ↦ simp (e, split_name s (rw e at h))
]

split-join :
    (p : Text) (ps : List Text)
    → All IsName (p ∷ ps)
    → split slash (join (codes "/") (p ∷ ps)) ≡ p ∷ ps
unfolding join
split-join p [] (k, h) = split_name p k.flat
split-join p (q ∷ ps) (k, h) =
    split-append p (join (codes "/") (q ∷ ps)) ∙ (λ i. split_name p k.flat i ++ split-join q ps h i)

resolve_name :
    (rooted : Bool) (stack : List Text) (p : Text)
    → is_plain p ≡ true
    → resolve rooted stack p ≡ p ∷ stack
unfolding resolve
resolve_name rooted stack p h = simp h

reverse-foldl :
    (rooted : Bool) (stack ps : List Text)
    → All IsName ps
    → reverse (foldl (resolve rooted) stack ps) ≡ reverse stack ++ ps
reverse-foldl rooted stack [] h = sym (mathlib.Core.List.append-nil (reverse stack))
reverse-foldl rooted stack (p ∷ ps) (k, h) =
    ap (λ (s : List Text). reverse (foldl (resolve rooted) s ps))
      (resolve_name rooted stack p k.plain)
    ∙ reverse-foldl rooted (p ∷ stack) ps h
    ∙ ap (λ (l : List Text). l ++ ps) (reverse-cons p stack)
    ∙ append_assoc (reverse stack) (p ∷ []) ps

-- The path is the other one, cleaned, followed by the names.
pub record IsBelow (b : Text) (names : List Text) (p : Text) : Type 0 where
  pub rooted : Bool
  pub above : List Text
  pub base : clean b ≡ render rooted (join (codes "/") above)
  pub path : p ≡ render rooted (join (codes "/") (above ++ names))

pub clean-IsBelow :
    (b : Text) (p : Text) (ps : List Text)
    → (b == []) ≡ false
    → All IsName (p ∷ ps)
    → IsBelow b (p ∷ ps) (clean (b ++ slash ∷ join (codes "/") (p ∷ ps)))
unfolding clean has_prefix ◌==◌
clean-IsBelow [] p ps n h = cc
clean-IsBelow (c ∷ b) p ps n h =
    let rooted = has_prefix (c ∷ b) (codes "/") in
    let stack = foldl (resolve rooted) [] (split slash (c ∷ b)) in
    record {
      rooted = rooted;
      above = reverse stack;
      base = refl;
      path =
          ap
            (λ (l : List Text).
              render rooted (join (codes "/") (reverse (foldl (resolve rooted) [] l))))
            (split-append (c ∷ b) (join (codes "/") (p ∷ ps))
              ∙ ap (λ (l : List Text). split slash (c ∷ b) ++ l) (split-join p ps h))
          ∙ ap (λ (l : List Text). render rooted (join (codes "/") (reverse l)))
              (foldl-append (resolve rooted) [] (split slash (c ∷ b)) (p ∷ ps))
          ∙ ap (λ (l : List Text). render rooted (join (codes "/") l))
              (reverse-foldl rooted stack (p ∷ ps) h);
    }

join_cons :
    (c : ℕ) (p : Text) (ps : List Text) → (s : Text) × (join (codes "/") ((c ∷ p) ∷ ps) ≡ c ∷ s)
unfolding join
join_cons c p [] = (p, refl)
join_cons c p (q ∷ ps) = (p ++ (codes "/" ++ join (codes "/") (q ∷ ps)), refl)

clean_start :
    (c : ℕ) (s : Text)
    → eqb c slash ≡ false
    → clean (c ∷ s)
      ≡ render false (join (codes "/") (reverse (foldl (resolve false) [] (split slash (c ∷ s)))))
unfolding clean has_prefix ◌==◌
clean_start c s h = simp h

is_plain-nil : is_plain [] ≡ false
unfolding is_plain ◌==◌
is_plain-nil = refl

-- A path of names is clean.
pub clean-join :
    (p : Text) (ps : List Text)
    → All IsName (p ∷ ps)
    → clean (join (codes "/") (p ∷ ps)) ≡ join (codes "/") (p ∷ ps)
clean-join [] ps (k, h) = let e = k.plain in cc is_plain-nil
clean-join (c ∷ p) ps (k, h) =
    let (s, e) = join_cons c p ps in
    let start : eqb c slash ≡ false = elim (Bool-cases (eqb c slash)) [
      | inl f ↦ cc (rw f at k.flat)
      | inr f ↦ f
    ] in
    let path : clean (c ∷ s) ≡ c ∷ s =
      clean_start c s start
      ∙ ap
          (λ (t : Text).
            render false (join (codes "/") (reverse (foldl (resolve false) [] (split slash t)))))
          (sym e)
      ∙ ap
          (λ (l : List Text).
            render false (join (codes "/") (reverse (foldl (resolve false) [] l))))
          (split-join (c ∷ p) ps (k, h))
      ∙ ap (λ (l : List Text). render false (join (codes "/") l))
          (reverse-foldl false [] ((c ∷ p) ∷ ps) (k, h))
      ∙ ap (render false) e in
    ap clean e ∙ path ∙ sym e

pub join_path-cons :
    (p : Text) (ps : List Text)
    → (p == []) ≡ false
    → join_path (p ∷ ps) ≡ clean (join (codes "/") (p ∷ ps))
unfolding join_path
join_path-cons p ps h = simp h

pub filled : (p : Text) → IsName p → (p == []) ≡ false
unfolding is_plain ◌==◌
filled [] k = let e = k.plain in cc
filled (c ∷ p) k = refl
