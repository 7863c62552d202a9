-- ===== src/Store/DiskStore/Grouped.antt =====
-- pkg/store/store.go: LoadByNamespace after a Save.
use mathlib.Core.List.{Mem, mem-cons_self, mem-cons_of_mem}
use reelm.Base.{
  ℕ, ◌≡◌, refl, ap, ◌∙◌, true, false, none, some, List, [], ◌∷◌, ◌++◌, Text, ◌==◌, eq_iff, eq_refl,
  Bool-cases, Option-cases, inl, inr,
}
use reelm.Store.Cassette.{Cassette}
use reelm.Store.Backend.{Backend, IsLawful, namespaces}
use reelm.Store.Disk.{read_file}
use reelm.Store.Index.{has_hash, stored_hashes, get_hashes_by_namespace}
use reelm.Store.Index.Laws.{with_hash, stored_hashes-index_put}
use reelm.Store.DiskStore.{
  Result, ok, err, DiskStore, save, load_by_hash, load_each, load_by_namespace,
}
use reelm.Store.DiskStore.RoundTrip.{load_by_hash-save}
use reelm.Store.DiskStore.Saved.{full_path, save-Saved}

has_hash-append : (hash : Text) (hs : List Text) → has_hash hash (hs ++ hash ∷ []) ≡ true
unfolding has_hash
has_hash-append hash [] = simp eq_refl
has_hash-append hash (h ∷ hs) = elim (Bool-cases (h == hash)) [
  | inl e ↦ simp e
  | inr e ↦ simp e (has_hash-append hash hs)
]

has_hash-with_hash :
    (hash namespace : Text) (hs : List Text)
    → (namespace == []) ≡ false
    → has_hash hash (with_hash hash namespace namespace hs) ≡ true
has_hash-with_hash hash namespace hs n = elim (Bool-cases (has_hash hash hs)) [
  | inl e ↦ simp (eq_refl, n, e)
  | inr e ↦ simp (eq_refl, n, e) (has_hash-append hash hs)
]

module _ (b : Backend) where
  -- A list that holds a hash was read and decoded.
  stored_hashes-has_hash :
      (d : b.Db) (namespace hash : Text)
      → has_hash hash (stored_hashes b d namespace) ≡ true
      → get_hashes_by_namespace b d namespace ≡ some (stored_hashes b d namespace)
  unfolding get_hashes_by_namespace stored_hashes has_hash
  stored_hashes-has_hash d namespace hash h = elim (Option-cases (b.get d namespaces namespace)) [
    | inl p ↦ cc (simp p at h)
    | inr (val, p) ↦ elim (Option-cases (b.unmarshal_hashes val)) [
      | inl q ↦ cc (simp (p, q) at h)
      | inr (hs, q) ↦ rw (p, get_hashes_by_namespace) (simp (p, q))
    ]
  ]

  load_each_loaded :
      (j : Text) (hs : List Text) (s : DiskStore b) (c : Cassette)
      → load_by_hash b j s ≡ ok c
      → load_each b (j ∷ hs) s ≡ c ∷ load_each b hs s
  unfolding load_each
  load_each_loaded j hs s c e = rw (e, load_each) refl

  Mem-later :
      (c : Cassette) (j : Text) (hs : List Text) (s : DiskStore b) (r : Result Cassette)
      → load_by_hash b j s ≡ r
      → Mem c (load_each b hs s)
      → Mem c (load_each b (j ∷ hs) s)
  unfolding load_each
  Mem-later c j hs s (ok d) e m = rw (e, load_each) (mem-cons_of_mem d m)
  Mem-later c j hs s (err f) e m = rw (e, load_each) m

  Mem-load_each :
      (hash : Text) (c : Cassette) (s : DiskStore b) (hs : List Text)
      → has_hash hash hs ≡ true
      → load_by_hash b hash s ≡ ok c
      → Mem c (load_each b hs s)
  unfolding has_hash
  Mem-load_each hash c s [] h e = cc
  Mem-load_each hash c s (j ∷ hs) h e = elim (Bool-cases (j == hash)) [
    | inl p ↦
        rw
          (load_each_loaded j hs s c
            (ap (λ (k : Text). load_by_hash b k s) ((eq_iff j hash).0 p) ∙ e))
          mem-cons_self
    | inr p ↦
        Mem-later c j hs s (load_by_hash b j s) refl (Mem-load_each hash c s hs (simp p at h) e)
  ]

  -- After a Save without an error of a cassette that has a namespace, LoadByNamespace of that
  -- namespace succeeds, and the cassette is among its results, unless reading its file fails.
  pub load_by_namespace-save :
      (law : IsLawful b) (now : ℕ) (c : Cassette) (s : DiskStore b)
      → (save b now (some c) s).0 ≡ none
      → s.disk.fails (read_file (full_path s.base_dir s.serializer c)) ≡ false
      → (c.namespace == []) ≡ false
      → (cs : List Cassette) × (load_by_namespace b c.namespace (save b now (some c) s).1 ≡ ok cs)
        × Mem c cs
  unfolding load_by_namespace
  load_by_namespace-save law now c s h readable named =
      let t = (save b now (some c) s).1 in
      let k = save-Saved b now c s h in
      let held : has_hash c.hash (stored_hashes b t.index c.namespace) ≡ true =
        ap (has_hash c.hash)
          (stored_hashes-index_put b law c.hash c.namespace _ s.index t.index c.namespace k.indexed)
        ∙ has_hash-with_hash c.hash c.namespace _ named in
      (
        load_each b (stored_hashes b t.index c.namespace) t,
        rw (stored_hashes-has_hash t.index c.namespace c.hash held, load_by_namespace) refl,
        Mem-load_each c.hash c t _ held (load_by_hash-save b law now c s h readable),
      )
