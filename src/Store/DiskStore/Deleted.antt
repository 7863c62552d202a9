-- ===== src/Store/DiskStore/Deleted.antt =====
-- pkg/store/store.go: what Delete and Prune do to the index and to the files.
use reelm.Base.{
  sym, ◌≡◌, refl, ap, ◌∙◌, false, none, some, [], ◌∷◌, arith, Text, ◌==◌, Bool-cases, Option-cases,
  inl, inr,
}
use reelm.Store.Paths.{join_path}
use reelm.Store.Backend.{Backend, IsLawful}
use reelm.Store.Disk.{Disk, remove, content, delete, content-without}
use reelm.Store.Index.{get_path, index_delete}
use reelm.Store.Index.Distinct.{get_path-index_delete}
use reelm.Store.DiskStore.{StoreError, DiskStore, delete_hash}

content-delete :
    (p j : Text) (d : Disk) → (p == j) ≡ false → content j (delete p d).files ≡ content j d.files
unfolding delete
content-delete p j d h = elim (Bool-cases (d.fails (remove p))) [
  | inl e ↦ simp e
  | inr e ↦ simp e (content-without p j d.files ∙ simp h)
]

fails-delete : (p : Text) (d : Disk) → (delete p d).fails ≡ d.fails
unfolding delete
fails-delete p d = ground arith

pub record Deleted (b : Backend) (hash : Text) (s t : DiskStore b) : Type 0 where
  pub rel : Text
  pub path : get_path b s.index hash ≡ some rel
  pub index : index_delete b hash [] s.index ≡ some t.index
  pub base_dir : t.base_dir ≡ s.base_dir
  pub serializer : t.serializer ≡ s.serializer
  pub fails : t.disk.fails ≡ s.disk.fails
  pub files :
      (j : Text)
      → (join_path (s.base_dir ∷ rel ∷ []) == j) ≡ false
      → content j t.disk.files ≡ content j s.disk.files

module _ (b : Backend) where
  pub delete_hash-Deleted :
      (hash : Text) (s : DiskStore b)
      → (delete_hash b hash s).0 ≡ none
      → Deleted b hash s (delete_hash b hash s).1
  unfolding delete_hash
  delete_hash-Deleted hash s h = elim (Option-cases (get_path b s.index hash)) [
    | inl p ↦ cc (rw (p, delete_hash) at h)
    | inr (rel, p) ↦ elim (Option-cases (index_delete b hash [] s.index)) [
      | inl q ↦ cc (rw (q, delete_hash) at (rw (p, delete_hash) at h))
      | inr (i, q) ↦
          let full = join_path (s.base_dir ∷ rel ∷ []) in
          rw (p, delete_hash)
            (rw (q, delete_hash)
              (record {
                rel = rel;
                path = p;
                index = q;
                base_dir = refl;
                serializer = refl;
                fails = fails-delete full s.disk;
                files = λ j e. content-delete full j s.disk e;
              }))
    ]
  ]

  -- A Delete with an error leaves the index as it is.
  index-delete_hash_failed :
      (hash : Text) (s : DiskStore b) (e : StoreError)
      → (delete_hash b hash s).0 ≡ some e
      → (delete_hash b hash s).1.index ≡ s.index
  unfolding delete_hash
  index-delete_hash_failed hash s e h = elim (Option-cases (get_path b s.index hash)) [
    | inl p ↦ rw (p, delete_hash)
    | inr (rel, p) ↦ elim (Option-cases (index_delete b hash [] s.index)) [
      | inl q ↦ rw (p, delete_hash) (rw (q, delete_hash))
      | inr (i, q) ↦ cc (rw (q, delete_hash) at (rw (p, delete_hash) at h))
    ]
  ]

  -- What a Delete leaves of the disk, with an error or without
  pub record Spares (hash : Text) (s t : DiskStore b) : Type 0 where
    pub base_dir : t.base_dir ≡ s.base_dir
    pub fails : t.disk.fails ≡ s.disk.fails
    pub files :
        (j : Text)
        → ((rel : Text)
            → get_path b s.index hash ≡ some rel
            → (join_path (s.base_dir ∷ rel ∷ []) == j) ≡ false)
        → content j t.disk.files ≡ content j s.disk.files

  pub delete_hash-Spares : (hash : Text) (s : DiskStore b) → Spares hash s (delete_hash b hash s).1
  unfolding delete_hash
  delete_hash-Spares hash s = elim (Option-cases (get_path b s.index hash)) [
    | inl p ↦ rw (p, delete_hash) (record { base_dir = refl; fails = refl; files = λ j h. refl })
    | inr (rel, p) ↦
        let full = join_path (s.base_dir ∷ rel ∷ []) in
        elim (Option-cases (index_delete b hash [] s.index)) [
          | inl q ↦
              rw (p, delete_hash)
                (rw (q, delete_hash)
                  (record {
                    base_dir = refl;
                    fails = fails-delete full s.disk;
                    files = λ j h. content-delete full j s.disk (h rel p);
                  }))
          | inr (i, q) ↦
              rw (p, delete_hash)
                (rw (q, delete_hash)
                  (record {
                    base_dir = refl;
                    fails = fails-delete full s.disk;
                    files = λ j h. content-delete full j s.disk (h rel p);
                  }))
        ]
  ]

  module _ (law : IsLawful b) where
    pub get_path-delete_hash :
        (hash : Text) (s : DiskStore b) (j : Text)
        → (hash == j) ≡ false
        → get_path b (delete_hash b hash s).1.index j ≡ get_path b s.index j
    get_path-delete_hash hash s j h = elim (Option-cases (delete_hash b hash s).0) [
      | inl p ↦
          let k = delete_hash-Deleted hash s p in
          get_path-index_delete b law hash [] s.index _ j k.index ∙ simp h
      | inr (e, p) ↦ ap (λ (d : b.Db). get_path b d j) (index-delete_hash_failed hash s e p)
    ]

    -- A Delete gives no hash another path.
    pub get_path-before_delete_hash :
        (hash : Text) (s : DiskStore b) (j rel : Text)
        → get_path b (delete_hash b hash s).1.index j ≡ some rel
        → get_path b s.index j ≡ some rel
    get_path-before_delete_hash hash s j rel e = elim (Bool-cases (hash == j)) [
      | inr h ↦ sym (get_path-delete_hash hash s j h) ∙ e
      | inl h ↦ elim (Option-cases (delete_hash b hash s).0) [
        | inl p ↦
            let k = delete_hash-Deleted hash s p in
            let gone : get_path b (delete_hash b hash s).1.index j ≡ none =
              get_path-index_delete b law hash [] s.index _ j k.index ∙ simp h in
            cc
        | inr (x, p) ↦
            ap (λ (d : b.Db). get_path b d j) (sym (index-delete_hash_failed hash s x p)) ∙ e
      ]
    ]
