-- ===== src/Store/DiskStore/Layout.antt =====
-- pkg/store/store.go: where Save puts the file of a cassette.
use reelm.Base.{
  ℕ, ◌≡◌, ap, ◌∙◌, false, none, some, List, [], ◌∷◌, ◌++◌, Text, codes, ◌==◌, eq_refl, leb, length,
  take, join, All, if◌then◌else◌, Bool-cases, inl, inr,
}
use reelm.Store.Backend.{Backend}
use reelm.Store.Cassette.{Cassette}
use reelm.Store.Disk.{content}
use reelm.Store.DiskStore.{DiskStore, resolve_relative_path, save}
use reelm.Store.DiskStore.Saved.{full_path, save-Saved}
use reelm.Store.Paths.{slash, clean, join_path}
use reelm.Store.Paths.Below.{IsName, IsBelow, clean-IsBelow, clean-join, join_path-cons, filled}
use reelm.Store.Serializer.{Serializer, extension}

-- [<namespace>/]<first_2_chars_of_hash>/<hash>.<ext>, as the comment of resolveRelativePath has it
abbrev pub prefix_of : Cassette → Text
prefix_of c = if leb 2 (length c.hash) then take 2 c.hash else codes "xx"

abbrev pub names_below : Serializer → Cassette → List Text
names_below ser c = prefix_of c ∷ (c.hash ++ extension ser) ∷ []

abbrev pub names_of : Serializer → Cassette → List Text
names_of ser c = if c.namespace == [] then names_below ser c else c.namespace ∷ names_below ser c

rel_path_lem :
    (ser : Serializer) (c : Cassette)
    → All IsName (names_of ser c)
    → resolve_relative_path ser c ≡ join (codes "/") (names_of ser c)
unfolding resolve_relative_path
rel_path_lem ser c h = elim (Bool-cases (c.namespace == [])) [
  | inl e ↦ simp e (joined (prefix_of c) ((c.hash ++ extension ser) ∷ []) (simp e at h))
  | inr e ↦ simp e (joined c.namespace (names_below ser c) (simp e at h))
]
  where
    joined :
        (p : Text) (ps : List Text)
        → All IsName (p ∷ ps)
        → join_path (p ∷ ps) ≡ join (codes "/") (p ∷ ps)
    joined p ps k = join_path-cons p ps (filled p k.0) ∙ clean-join p ps k

full_path_lem :
    (base : Text) (ser : Serializer) (c : Cassette)
    → (base == []) ≡ false
    → All IsName (names_of ser c)
    → full_path base ser c ≡ clean (base ++ slash ∷ join (codes "/") (names_of ser c))
unfolding join
full_path_lem base ser c n h =
    join_path-cons base (resolve_relative_path ser c ∷ []) n
    ∙ ap (λ (r : Text). clean (base ++ slash ∷ r)) (rel_path_lem ser c h)

full_path-IsBelow :
    (base : Text) (ser : Serializer) (c : Cassette)
    → (base == []) ≡ false
    → All IsName (names_of ser c)
    → IsBelow base (names_of ser c) (full_path base ser c)
full_path-IsBelow base ser c n h =
    rw (full_path_lem base ser c n h) (elim (Bool-cases (c.namespace == [])) [
      | inl e ↦
          simp e (clean-IsBelow base (prefix_of c) ((c.hash ++ extension ser) ∷ []) n (simp e at h))
      | inr e ↦ simp e (clean-IsBelow base c.namespace (names_below ser c) n (simp e at h))
    ])

-- After a Save without an error, of a cassette whose namespace, if it has one, whose hash's first two
-- characters and whose file name are names, neither "." nor ".." and without a separator, the file
-- [namespace/]prefix/hash.ext below the base directory holds the encoded cassette.
pub save-IsBelow :
    (b : Backend) (now : ℕ) (c : Cassette) (s : DiskStore b)
    → (save b now (some c) s).0 ≡ none
    → (s.base_dir == []) ≡ false
    → All IsName (names_of s.serializer c)
    → (path : Text) × (bytes : Text) × IsBelow s.base_dir (names_of s.serializer c) path
      × (content path (save b now (some c) s).1.disk.files ≡ some bytes)
      × (b.marshal s.serializer c ≡ some bytes)
save-IsBelow b now c s h n k =
    let full = full_path s.base_dir s.serializer c in
    let m = save-Saved b now c s h in
    (
      full,
      m.bytes,
      full_path-IsBelow s.base_dir s.serializer c n k,
      m.committed.files full ∙ simp eq_refl,
      m.encoded,
    )
