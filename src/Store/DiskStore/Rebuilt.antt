-- ===== src/Store/DiskStore/Rebuilt.antt =====
-- pkg/store/store.go: after RebuildIndex the index says what the files say.
use reelm.Base.{
  some_eq, ◌≡◌, refl, sym, ap, ◌∙◌, true, not, ◌&&◌, Option, none, some, List, [], ◌∷◌, Text, ◌==◌,
  if◌then◌else◌, Bool-cases, Option-cases, inl, inr,
}
use reelm.Store.Cassette.{Cassette}
use reelm.Store.Backend.{Backend, IsLawful}
use reelm.Store.Disk.{Disk, relative, walk}
use reelm.Store.Index.{get_path}
use reelm.Store.Index.Laws.{get_path-index_put}
use reelm.Store.DiskStore.{DiskStore, scan_file, index_file, rebuild_each, rebuild_index}

module _ (b : Backend) where
  -- The path that one file's cassette gives to a hash, or else the path so far.
  abbrev pub claim : Text → Text → Text → Option Cassette → Option Text → Option Text
  claim base hash p none so_far = so_far
  claim base hash p (some c) so_far =
      if not (c.hash == []) && c.hash == hash then some (relative base p) else so_far

  -- The path of the last file of the walk whose cassette has the hash, or else the path so far.
  abbrev pub last_path : Text → Disk → Text → List Text → Option Text → Option Text
  last_path base d hash [] so_far = so_far
  last_path base d hash (p ∷ ps) so_far =
      last_path base d hash ps (claim base hash p (scan_file b d p) so_far)

  module _ (law : IsLawful b) where
    get_path-index_file :
        (base p : Text) (o : Option Cassette) (i j : b.Db) (hash : Text)
        → index_file b base p o i ≡ some j
        → get_path b j hash ≡ claim base hash p o (get_path b i hash)
    unfolding index_file
    get_path-index_file base p none i j hash h =
        ap (λ (d : b.Db). get_path b d hash) (sym (some_eq h))
    get_path-index_file base p (some c) i j hash h = elim (Bool-cases (c.hash == [])) [
      | inl e ↦ ap (λ (d : b.Db). get_path b d hash) (sym (some_eq (simp e at h))) ∙ sym (simp e)
      | inr e ↦
          get_path-index_put b law c.hash c.namespace (relative base p) i j hash (simp e at h)
          ∙ sym (simp e)
    ]

    get_path-rebuild_each :
        (base : Text) (d : Disk) (ps : List Text) (i : b.Db) (hash : Text)
        → (rebuild_each b base d ps i).0 ≡ true
        → get_path b (rebuild_each b base d ps i).1 hash
          ≡ last_path base d hash ps (get_path b i hash)
    unfolding rebuild_each
    get_path-rebuild_each base d [] i hash h = refl
    get_path-rebuild_each base d (p ∷ ps) i hash h =
        elim (Option-cases (index_file b base p (scan_file b d p) i)) [
          | inl e ↦ cc (rw (e, rebuild_each) at h)
          | inr (j, e) ↦
              rw (e, rebuild_each)
                (get_path-rebuild_each base d ps j hash (rw (e, rebuild_each) at h)
                  ∙ ap (last_path base d hash ps)
                      (get_path-index_file base p (scan_file b d p) i j hash e))
        ]

    -- After RebuildIndex without an error every hash has the path of the last file of the walk that
    -- holds a cassette with it, or else the path that it had before.
    pub get_path-rebuild_index :
        (s : DiskStore b) (hash : Text)
        → (rebuild_index b s).0 ≡ true
        → get_path b (rebuild_index b s).1.index hash
          ≡ last_path s.base_dir s.disk hash
              (walk s.base_dir s.disk.files)
              (get_path b s.index hash)
    unfolding rebuild_index
    get_path-rebuild_index s hash h =
        get_path-rebuild_each s.base_dir s.disk (walk s.base_dir s.disk.files) s.index hash h
