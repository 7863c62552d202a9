-- ===== src/Store/DiskStore/Pruned.antt =====
-- pkg/store/store.go: what Prune does to the index, and to what LoadByHash returns.
use reelm.Base.{
  arith, or-eq-false, ℕ, ◌≡◌, refl, ◌∙◌, Bool, true, false, ◌&&◌, none, some, List, [], ◌∷◌, Text,
  ◌==◌, eq_iff, eq_refl, ltb, any, Bool-cases, Option-cases, inl, inr,
}
use reelm.Store.Cassette.{CassetteMeta}
use reelm.Store.Backend.{Backend, IsLawful, cassettes}
use reelm.Store.Index.{get_path, index_delete, delete_namespace}
use reelm.Store.Index.Distinct.{get_path-index_delete}
use reelm.Store.DiskStore.{DiskStore, delete_hash, prune_one, prune_each, prune, list, load_by_hash}
use reelm.Store.Paths.{join_path}
use reelm.Store.DiskStore.RoundTrip.{read-eq, load_by_hash-eq}
use reelm.Store.DiskStore.Deleted.{
  delete_hash-Spares, get_path-delete_hash, get_path-before_delete_hash,
}

-- Whether one of the listed cassettes is too old and has the hash.
abbrev pub is_stale : ℕ → Text → List CassetteMeta → Bool
is_stale older_than hash ms = any (λ m. ltb m.recorded_at older_than && m.hash == hash) ms

module _ (b : Backend) (law : IsLawful b) where
  get_path-prune_one :
      (older_than : ℕ) (m : CassetteMeta) (s : DiskStore b) (j : Text)
      → (ltb m.recorded_at older_than && m.hash == j) ≡ false
      → get_path b (prune_one b older_than m s).1.index j ≡ get_path b s.index j
  unfolding prune_one
  get_path-prune_one older_than m s j h = elim (Bool-cases (ltb m.recorded_at older_than)) [
    | inl p ↦ simp p (get_path-delete_hash b law m.hash s j (simp p at h))
    | inr p ↦ simp p
  ]

  get_path-prune_each :
      (older_than : ℕ) (ms : List CassetteMeta) (s : DiskStore b) (j : Text)
      → is_stale older_than j ms ≡ false
      → get_path b (prune_each b older_than ms s).1.index j ≡ get_path b s.index j
  unfolding prune_each
  get_path-prune_each older_than [] s j h = refl
  get_path-prune_each older_than (m ∷ ms) s j h =
      let (p, q) = or-eq-false (ltb m.recorded_at older_than && m.hash == j) _ h in
      get_path-prune_each older_than ms (prune_one b older_than m s).1 j q
      ∙ get_path-prune_one older_than m s j p

  load_by_hash-prune_one :
      (older_than : ℕ) (m : CassetteMeta) (s : DiskStore b) (j : Text)
      → (ltb m.recorded_at older_than && m.hash == j) ≡ false
      → ((rel r : Text)
          → ltb m.recorded_at older_than ≡ true
          → get_path b s.index m.hash ≡ some rel
          → get_path b s.index j ≡ some r
          → (join_path (s.base_dir ∷ rel ∷ []) == join_path (s.base_dir ∷ r ∷ [])) ≡ false)
      → load_by_hash b j (prune_one b older_than m s).1 ≡ load_by_hash b j s
  unfolding prune_one
  load_by_hash-prune_one older_than m s j h apart =
      elim (Bool-cases (ltb m.recorded_at older_than)) [
        | inl p ↦
            let t = (delete_hash b m.hash s).1 in
            let k = delete_hash-Spares b m.hash s in
            simp p (
              load_by_hash-eq b j s t k.base_dir
                (get_path-delete_hash b law m.hash s j (simp p at h))
                (λ r q.
                  let full = join_path (s.base_dir ∷ r ∷ []) in
                  read-eq b full s.disk t.disk k.fails (k.files full (λ rel e. apart rel r p e q))))
        | inr p ↦ simp p
      ]

  -- What a round of Prune leaves: the base directory, and no path that was not there
  record Shrinks (s t : DiskStore b) : Type 0 where
    base_dir : t.base_dir ≡ s.base_dir
    before : (j rel : Text) → get_path b t.index j ≡ some rel → get_path b s.index j ≡ some rel

  prune_one-Shrinks :
      (older_than : ℕ) (m : CassetteMeta) (s : DiskStore b)
      → Shrinks s (prune_one b older_than m s).1
  unfolding prune_one
  prune_one-Shrinks older_than m s = elim (Bool-cases (ltb m.recorded_at older_than)) [
    | inl p ↦ simp p (record {
      base_dir = (delete_hash-Spares b m.hash s).base_dir;
      before = λ j rel e. get_path-before_delete_hash b law m.hash s j rel e;
    })
    | inr p ↦ simp p (record { base_dir = refl; before = λ j rel e. e })
  ]

  -- No hash with a cassette that is too old has its path where the other hash has it.
  abbrev pub IsApart : ℕ → List CassetteMeta → DiskStore b → Text → Type 0
  IsApart older_than ms s j =
      (k rel r : Text)
      → is_stale older_than k ms ≡ true
      → get_path b s.index k ≡ some rel
      → get_path b s.index j ≡ some r
      → (join_path (s.base_dir ∷ rel ∷ []) == join_path (s.base_dir ∷ r ∷ [])) ≡ false

  load_by_hash-prune_each :
      (older_than : ℕ) (ms : List CassetteMeta) (s : DiskStore b) (j : Text)
      → is_stale older_than j ms ≡ false
      → IsApart older_than ms s j
      → load_by_hash b j (prune_each b older_than ms s).1 ≡ load_by_hash b j s
  unfolding prune_each
  load_by_hash-prune_each older_than [] s j h apart = refl
  load_by_hash-prune_each older_than (m ∷ ms) s j h apart =
      let (p, q) = or-eq-false (ltb m.recorded_at older_than && m.hash == j) _ h in
      let t = (prune_one b older_than m s).1 in
      let k = prune_one-Shrinks older_than m s in
      load_by_hash-prune_each older_than ms t j q (λ i rel r e f g.
        rw k.base_dir (apart i rel r (ground (arith, e)) (k.before i rel f) (k.before j r g)))
      ∙ load_by_hash-prune_one older_than m s j p
          (λ rel r old f g. apart m.hash rel r (simp (old, eq_refl)) f g)

  -- Prune leaves alone every hash of which no listed cassette is too old: it keeps its path, and
  -- LoadByHash returns what it did before, if no hash that is pruned has its path in the same file.
  pub load_by_hash-prune :
      (older_than : ℕ) (s : DiskStore b) (j : Text)
      → is_stale older_than j (list b s) ≡ false
      → IsApart older_than (list b s) s j
      → (get_path b (prune b older_than s).1.index j ≡ get_path b s.index j)
        × (load_by_hash b j (prune b older_than s).1 ≡ load_by_hash b j s)
  unfolding prune
  load_by_hash-prune older_than s j h apart = (
    get_path-prune_each older_than (list b s) s j h,
    load_by_hash-prune_each older_than (list b s) s j h apart,
  )

  module _ (deletes : (d : b.Db) (k : Text) → (e : b.Db) × (b.delete d cassettes k ≡ some e))
      (commits : (d : b.Db) → (e : b.Db) × (b.commit d ≡ some e)) where
    index_delete-total : (hash : Text) (d : b.Db) → (e : b.Db) × (index_delete b hash [] d ≡ some e)
    unfolding index_delete delete_namespace
    index_delete-total hash d =
        let (x, p) = deletes d hash in let (y, q) = commits x in (y, simp (p, eq_refl) q)

    delete_hash-gone :
        (hash : Text) (s : DiskStore b) → get_path b (delete_hash b hash s).1.index hash ≡ none
    delete_hash-gone hash s = elim (Option-cases (get_path b s.index hash)) [
      | inl p ↦ unfold delete_hash in rw (p, delete_hash) p
      | inr (rel, p) ↦
          let (i, q) = index_delete-total hash s.index in
          unfold delete_hash in
          rw (p, delete_hash)
            (rw (q, delete_hash)
              (get_path-index_delete b law hash [] s.index i hash q ∙ simp eq_refl))
    ]

    -- What is gone stays gone.
    delete_hash-keeps_none :
        (hash : Text) (s : DiskStore b) (j : Text)
        → get_path b s.index j ≡ none
        → get_path b (delete_hash b hash s).1.index j ≡ none
    delete_hash-keeps_none hash s j p = elim (Bool-cases (hash == j)) [
      | inl e ↦ rw (← (eq_iff hash j).0 e) (delete_hash-gone hash s)
      | inr e ↦ get_path-delete_hash b law hash s j e ∙ p
    ]

    prune_each-keeps_none :
        (older_than : ℕ) (ms : List CassetteMeta) (s : DiskStore b) (j : Text)
        → get_path b s.index j ≡ none
        → get_path b (prune_each b older_than ms s).1.index j ≡ none
    unfolding prune_each prune_one
    prune_each-keeps_none older_than [] s j p = p
    prune_each-keeps_none older_than (m ∷ ms) s j p =
        elim (Bool-cases (ltb m.recorded_at older_than)) [
          | inl e ↦ simp e (
              prune_each-keeps_none older_than ms (delete_hash b m.hash s).1 j
                (delete_hash-keeps_none m.hash s j p))
          | inr e ↦ simp e (prune_each-keeps_none older_than ms s j p)
        ]

    prune_each-gone :
        (older_than : ℕ) (ms : List CassetteMeta) (s : DiskStore b) (j : Text)
        → is_stale older_than j ms ≡ true
        → get_path b (prune_each b older_than ms s).1.index j ≡ none
    unfolding prune_each prune_one
    prune_each-gone older_than [] s j h = cc
    prune_each-gone older_than (m ∷ ms) s j h = elim (Bool-cases (ltb m.recorded_at older_than)) [
      | inl e ↦ elim (Bool-cases (m.hash == j)) [
        | inl f ↦ simp e (
            prune_each-keeps_none older_than ms (delete_hash b m.hash s).1 j
              (rw (← (eq_iff m.hash j).0 f) (delete_hash-gone m.hash s)))
        | inr f ↦
            simp e (prune_each-gone older_than ms (delete_hash b m.hash s).1 j (simp (e, f) at h))
      ]
      | inr e ↦ simp e (prune_each-gone older_than ms s j (simp e at h))
    ]

    -- If the database lets every key be deleted and every update be committed, then after Prune a
    -- hash of which a listed cassette is too old has no path in the index.
    pub prune-gone :
        (older_than : ℕ) (s : DiskStore b) (j : Text)
        → is_stale older_than j (list b s) ≡ true
        → get_path b (prune b older_than s).1.index j ≡ none
    unfolding prune
    prune-gone older_than s j h = prune_each-gone older_than (list b s) s j h
