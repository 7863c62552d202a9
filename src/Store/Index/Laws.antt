-- ===== src/Store/Index/Laws.antt =====
-- pkg/store/index.go: what the index holds after an update, over a lawful database.
use mathlib.Core.Bool.{and-false}
use reelm.Base.{
  >>=-eq-some, some_eq, ◌≡◌, refl, sym, ap, ◌∙◌, true, false, not, ◌&&◌, Option, some, ◌⊎◌, List,
  [], ◌∷◌, ◌++◌, Text, ◌==◌, eq_iff, eq_refl, ◌>>=◌, if◌then◌else◌, Bool-cases, inl, inr,
}
use reelm.Store.Backend.{Backend, IsLawful, cassettes, namespaces}
use reelm.Store.Disk.{Disk, mkdir_all}
use reelm.Store.Index.{
  init_buckets, open_index, has_hash, or_else, stored_hashes, put_namespace, index_put, get_path,
}

-- The list of a namespace after Put.
abbrev pub with_hash : Text → Text → Text → List Text → List Text
with_hash hash namespace m hashes =
    if namespace == m && not (namespace == []) && not (has_hash hash hashes)
    then hashes ++ hash ∷ []
    else hashes

module _ (b : Backend) (law : IsLawful b) where
  -- Put for a namespace either changes nothing or stores one longer list under its namespace.
  data NamespacePut (hash namespace : Text) (d e : b.Db) : Type 0 where
    same :
        (namespace ≡ []) ⊎ (has_hash hash (stored_hashes b d namespace) ≡ true)
        → e ≡ d
        → NamespacePut hash namespace d e
    grown :
        (text : Text)
        → (namespace == []) ≡ false
        → has_hash hash (stored_hashes b d namespace) ≡ false
        → b.marshal_hashes (stored_hashes b d namespace ++ hash ∷ []) ≡ some text
        → b.put d namespaces namespace text ≡ some e
        → NamespacePut hash namespace d e

  put_namespace-cases :
      (hash namespace : Text) (d e : b.Db)
      → put_namespace b hash namespace d ≡ some e
      → NamespacePut hash namespace d e
  unfolding put_namespace
  put_namespace-cases hash namespace d e h = elim (Bool-cases (namespace == [])) [
    | inl p ↦ same (inl ((eq_iff namespace []).0 p)) (sym (some_eq (simp p at h)))
    | inr p ↦ elim (Bool-cases (has_hash hash (stored_hashes b d namespace))) [
      | inl q ↦ same (inr q) (sym (some_eq (simp (p, q) at h)))
      | inr q ↦
          let (text, m, k) =
            >>=-eq-some (b.marshal_hashes (stored_hashes b d namespace ++ hash ∷ [])) _
              (simp (p, q) at h) in
          grown text p q m k
    ]
  ]

  get-put_namespace :
      (hash namespace : Text) (d e : b.Db) (j : Text)
      → NamespacePut hash namespace d e
      → b.get e cassettes j ≡ b.get d cassettes j
  get-put_namespace hash namespace d e j (same p q) = ap (λ (x : b.Db). b.get x cassettes j) q
  get-put_namespace hash namespace d e j (grown text p q m k) =
      law.get-put namespaces cassettes namespace j text k

  -- After a Put that succeeds the hash has the path that was given, and every other hash has the one it had.
  -- Opening an index changes no path.
  pub get_path-open_index :
      (base_dir : Text) (db : b.Db) (d : Disk) (i : b.Db) (j : Text)
      → open_index b base_dir (some db) d ≡ some i
      → get_path b i j ≡ get_path b db j
  unfolding open_index init_buckets get_path
  get_path-open_index base_dir db d i j h = elim (Bool-cases (d.fails (mkdir_all base_dir))) [
    | inl e ↦ cc (simp e at h)
    | inr e ↦
        let (x, p, q) = >>=-eq-some (b.create_bucket db cassettes) _ (simp e at h) in
        let (y, r, s) = >>=-eq-some (b.create_bucket x namespaces) _ q in
        law.get-commit cassettes j s
        ∙ law.get-create_bucket namespaces cassettes j r
        ∙ law.get-create_bucket cassettes cassettes j p
  ]

  pub get_path-index_put :
      (hash namespace rel_path : Text) (d e : b.Db) (j : Text)
      → index_put b hash namespace rel_path d ≡ some e
      → get_path b e j ≡ (if hash == j then some rel_path else get_path b d j)
  unfolding index_put get_path
  get_path-index_put hash namespace rel_path d e j h =
      let (x, p, q) = >>=-eq-some (b.put d cassettes hash rel_path) _ h in
      let (y, r, s) = >>=-eq-some (put_namespace b hash namespace x) _ q in
      law.get-commit cassettes j s
      ∙ get-put_namespace hash namespace x y j (put_namespace-cases hash namespace x y r)
      ∙ law.get-put cassettes cassettes hash j rel_path p

  -- The lists of hashes depend only on what the namespaces' bucket holds.
  decoded : Option Text → List Text
  decoded o = or_else (o >>= b.unmarshal_hashes) []

  stored_hashes-decoded :
      (d : b.Db) (m : Text) → stored_hashes b d m ≡ decoded (b.get d namespaces m)
  unfolding stored_hashes decoded
  stored_hashes-decoded d m = refl

  pub stored_hashes-eq :
      (d e : b.Db) (m : Text)
      → b.get e namespaces m ≡ b.get d namespaces m
      → stored_hashes b e m ≡ stored_hashes b d m
  stored_hashes-eq d e m p =
      stored_hashes-decoded e m ∙ ap decoded p ∙ sym (stored_hashes-decoded d m)

  stored_hashes-put_namespace :
      (hash namespace : Text) (d e : b.Db) (m : Text)
      → NamespacePut hash namespace d e
      → stored_hashes b e m ≡ with_hash hash namespace m (stored_hashes b d m)
  stored_hashes-put_namespace hash namespace d e m (same p q) =
      let z = ap (λ (x : b.Db). stored_hashes b x m) q in
      elim (Bool-cases (namespace == m)) [
        | inl f ↦
            z ∙ sym (rw (← (eq_iff namespace m).0 f) (unchanged (stored_hashes b d namespace) p))
        | inr f ↦ z ∙ sym (simp f)
      ]
    where
      unchanged :
          (hashes : List Text)
          → (namespace ≡ []) ⊎ (has_hash hash hashes ≡ true)
          → with_hash hash namespace namespace hashes ≡ hashes
      unchanged hashes (inl n) = simp (n, eq_refl)
      unchanged hashes (inr g) = simp (g, and-false)
  stored_hashes-put_namespace hash namespace d e m (grown text p q u k) =
      elim (Bool-cases (namespace == m)) [
        | inl f ↦
            let o : b.get e namespaces namespace ≡ some text =
              law.get-put namespaces namespaces namespace namespace text k ∙ simp eq_refl in
            rw (← (eq_iff namespace m).0 f) (
              stored_hashes-decoded e namespace
              ∙ ap decoded o
              ∙ unfold decoded in simp (law.unmarshal_hashes-marshal_hashes _ u, p, q, eq_refl))
        | inr f ↦
            stored_hashes-eq d e m (law.get-put namespaces namespaces namespace m text k ∙ simp f)
            ∙ sym (simp f)
      ]

  -- After a Put that succeeds, the hash stands at the end of its namespace's list, unless the
  -- namespace is empty or lists it already; every other list is as it was.
  pub stored_hashes-index_put :
      (hash namespace rel_path : Text) (d e : b.Db) (m : Text)
      → index_put b hash namespace rel_path d ≡ some e
      → stored_hashes b e m ≡ with_hash hash namespace m (stored_hashes b d m)
  unfolding index_put
  stored_hashes-index_put hash namespace rel_path d e m h =
      let (x, p, q) = >>=-eq-some (b.put d cassettes hash rel_path) _ h in
      let (y, r, s) = >>=-eq-some (put_namespace b hash namespace x) _ q in
      stored_hashes-eq y e m (law.get-commit namespaces m s)
      ∙ stored_hashes-put_namespace hash namespace x y m (put_namespace-cases hash namespace x y r)
      ∙ ap (with_hash hash namespace m)
          (stored_hashes-eq d x m (law.get-put cassettes namespaces hash m rel_path p))
