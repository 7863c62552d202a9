-- ===== src/Store/DiskStore/Replayed.antt =====
-- pkg/store/store.go: any run of Save and Delete, against a map from hashes to cassettes.
use reelm.Base.{
  ℕ, ◌≡◌, refl, sym, ap, ◌∙◌, Bool, false, Option, none, some, List, [], ◌∷◌, Text, ◌==◌, All,
  eq_iff, some_eq, if◌then◌else◌, Bool-cases, inl, inr,
}
use reelm.Store.Cassette.{Cassette}
use reelm.Store.Paths.{join_path}
use reelm.Store.Serializer.{Serializer}
use reelm.Store.Backend.{Backend, IsLawful}
use reelm.Store.Disk.{Call, read_file}
use reelm.Store.Index.{get_path}
use reelm.Store.Index.Laws.{get_path-index_put}
use reelm.Store.Index.Distinct.{get_path-index_delete}
use reelm.Store.DiskStore.{
  StoreError, DiskStore, resolve_relative_path, tmp_file, save, load_by_hash, delete_hash,
}
use reelm.Store.DiskStore.Deleted.{delete_hash-Deleted}
use reelm.Store.DiskStore.Implements.{loaded}
use reelm.Store.DiskStore.RoundTrip.{
  load_by_hash-save, load_by_hash-save_ne, load_by_hash-delete_hash, load_by_hash-delete_hash_ne,
}
use reelm.Store.DiskStore.Saved.{save-Saved}

pub data Op : Type 0 where
  store : ℕ → Cassette → Op
  remove : Text → Op

-- The hash that a call is about.
abbrev pub target : Op → Text
target (store now c) = c.hash
target (remove hash) = hash

abbrev pub update : Text → Option Cassette → (Text → Option Cassette) → Text → Option Cassette
update hash c f j = if hash == j then c else f j

-- The calls on a map
unfoldable pub replay : List Op → (Text → Option Cassette) → Text → Option Cassette
replay [] f = f
replay (store now c ∷ ops) f = replay ops (update c.hash (some c) f)
replay (remove hash ∷ ops) f = replay ops (update hash none f)

-- What the calls leave of a hash depends on what the map had for it.
replay-eq :
    (ops : List Op) (f g : Text → Option Cassette) (j : Text)
    → f j ≡ g j
    → replay ops f j ≡ replay ops g j
unfolding replay
replay-eq [] f g j e = e
replay-eq (store now c ∷ ops) f g j e =
    replay-eq ops _ _ j (ap (λ (x : Option Cassette). if c.hash == j then some c else x) e)
replay-eq (remove hash ∷ ops) f g j e =
    replay-eq ops _ _ j (ap (λ (x : Option Cassette). if hash == j then none else x) e)

module _ (b : Backend) where
  abbrev pub step : Op → DiskStore b → Option StoreError × DiskStore b
  step (store now c) s = save b now (some c) s
  step (remove hash) s = delete_hash b hash s

  -- The calls on the store, and whether all returned without an error.
  unfoldable pub run : List Op → DiskStore b → DiskStore b
  run [] s = s
  run (op ∷ ops) s = run ops (step op s).1

  unfoldable pub Succeeds : List Op → DiskStore b → Type 0
  Succeeds [] s = Unit
  Succeeds (op ∷ ops) s = ((step op s).0 ≡ none) × Succeeds ops (step op s).1

  -- What LoadByHash answers, as a map.
  abbrev pub view : DiskStore b → Text → Option Cassette
  view s j = loaded (load_by_hash b j s)

-- Each hash of a set has one path under the folder, and neither these files nor the temporary
-- files for them meet.
pub record Homes (IsHash : Text → Type 0) (base : Text) (home : Text → Text) : Type 0 where
  pub apart :
      (h j : Text)
      → IsHash h
      → IsHash j
      → (h == j) ≡ false
      → (join_path (base ∷ home h ∷ []) == join_path (base ∷ home j ∷ [])) ≡ false
  pub aside :
      (h j : Text) (now : ℕ)
      → IsHash h
      → IsHash j
      → (tmp_file (join_path (base ∷ home h ∷ [])) now == join_path (base ∷ home j ∷ [])) ≡ false

-- A call is about one of the hashes, and what it stores belongs in the place of its hash.
abbrev pub IsAtHome : (Text → Type 0) → Serializer → (Text → Text) → Op → Type 0
IsAtHome IsHash ser home (store now c) = IsHash c.hash × (resolve_relative_path ser c ≡ home c.hash)
IsAtHome IsHash ser home (remove hash) = IsHash hash

module _ (b : Backend) (law : IsLawful b) (IsHash : Text → Type 0) (base : Text) (ser : Serializer)
    (home : Text → Text) (homes : Homes IsHash base home) where
  -- The store keeps its hashes in their places, and its files can be read.
  pub record IsHomely (s : DiskStore b) : Type 0 where
    pub base_dir : s.base_dir ≡ base
    pub serializer : s.serializer ≡ ser
    pub path : (j rel : Text) → IsHash j → get_path b s.index j ≡ some rel → rel ≡ home j
    pub readable : (p : Text) → s.disk.fails (read_file p) ≡ false

  step-IsHomely :
      (op : Op) (s : DiskStore b)
      → IsAtHome IsHash ser home op
      → (step b op s).0 ≡ none
      → IsHomely s
      → IsHomely (step b op s).1
  step-IsHomely (store now c) s (own, at) h k =
      let t = (save b now (some c) s).1 in
      let d = save-Saved b now c s h in
      record {
        base_dir = d.base_dir ∙ k.base_dir;
        serializer = d.serializer ∙ k.serializer;
        path = λ j rel o e.
            let p = get_path-index_put b law c.hash c.namespace _ s.index t.index j d.indexed in
            elim (Bool-cases (c.hash == j)) [
              | inl f ↦
                  sym (some_eq (sym (simp f at p) ∙ e))
                  ∙ ap (λ (x : Serializer). resolve_relative_path x c) k.serializer
                  ∙ at
                  ∙ ap home ((eq_iff c.hash j).0 f)
              | inr f ↦ k.path j rel o (sym (simp f at p) ∙ e)
            ];
        readable = λ p. ap (λ (f : Call → Bool). f (read_file p)) d.committed.fails ∙ k.readable p;
      }
  step-IsHomely (remove hash) s own h k =
      let t = (delete_hash b hash s).1 in
      let d = delete_hash-Deleted b hash s h in
      record {
        base_dir = d.base_dir ∙ k.base_dir;
        serializer = d.serializer ∙ k.serializer;
        path = λ j rel o e.
            let p = get_path-index_delete b law hash [] s.index t.index j d.index in
            elim (Bool-cases (hash == j)) [
              | inl f ↦ cc (sym (simp f at p) ∙ e)
              | inr f ↦ k.path j rel o (sym (simp f at p) ∙ e)
            ];
        readable = λ p. ap (λ (f : Call → Bool). f (read_file p)) d.fails ∙ k.readable p;
      }

  step-view :
      (op : Op) (s : DiskStore b) (j : Text)
      → IsAtHome IsHash ser home op
      → (step b op s).0 ≡ none
      → IsHomely s
      → IsHash j
      → view b (step b op s).1 j ≡ replay (op ∷ []) (view b s) j
  unfolding replay
  step-view (store now c) s j (own, at) h k o = elim (Bool-cases (c.hash == j)) [
    | inl e ↦
        let same : c.hash ≡ j = (eq_iff c.hash j).0 e in
        simp e (rw (← same) (ap loaded (load_by_hash-save b law now c s h (k.readable _))))
    | inr e ↦ simp e (
        ap loaded (
          load_by_hash-save_ne b law now c s j h e (λ rel p.
            rw (k.base_dir, k.serializer, at, k.path j rel o p)
              (homes.apart c.hash j own o e, homes.aside c.hash j now own o))))
  ]
  step-view (remove hash) s j own h k o = elim (Bool-cases (hash == j)) [
    | inl e ↦
        let same : hash ≡ j = (eq_iff hash j).0 e in
        simp e (rw (← same) (ap loaded (load_by_hash-delete_hash b law hash s h)))
    | inr e ↦ simp e (
        ap loaded (
          load_by_hash-delete_hash_ne b law hash s j h e (λ rel r p q.
            rw (k.base_dir, k.path hash rel own p, k.path j r o q) (homes.apart hash j own o e))))
  ]

  -- A run of Save and Delete in which no call fails answers as a map does that is changed by the
  -- same calls: LoadByHash finds the last cassette that was saved under a hash, nothing once it is
  -- deleted, and for the other hashes what the store had before. Each hash is to have its own
  -- place, which the store and the calls keep to, and the files are to be readable.
  pub load_by_hash-run :
      (ops : List Op) (s : DiskStore b) (j : Text)
      → All (IsAtHome IsHash ser home) ops
      → Succeeds b ops s
      → IsHomely s
      → IsHash j
      → view b (run b ops s) j ≡ replay ops (view b s) j
  unfolding run replay Succeeds
  load_by_hash-run [] s j at h k o = refl
  load_by_hash-run (store now c ∷ ops) s j (a, at) (h, hs) k o =
      load_by_hash-run ops _ j at hs (step-IsHomely (store now c) s a h k) o
      ∙ replay-eq ops _ _ j (step-view (store now c) s j a h k o)
  load_by_hash-run (remove hash ∷ ops) s j (a, at) (h, hs) k o =
      load_by_hash-run ops _ j at hs (step-IsHomely (remove hash) s a h k) o
      ∙ replay-eq ops _ _ j (step-view (remove hash) s j a h k o)
