-- ===== src/Store/Index/Distinct.antt =====
-- pkg/store/index.go: a namespace never lists a hash twice, and what Delete leaves.
use mathlib.Core.Bool.{or-false}
use reelm.Base.{
  >>=-eq-some, or-eq-false, ◌≡◌, refl, sym, ◌∙◌, Bool, true, false, not, ◌&&◌, ◌||◌, Option, none,
  some, List, [], ◌∷◌, ◌++◌, Text, ◌==◌, eq_comm, eq_refl, if◌then◌else◌, Bool-cases, Option-cases,
  inl, inr,
}
use reelm.Store.Backend.{Backend, IsLawful, cassettes, namespaces}
use reelm.Store.Index.{
  has_hash, without_hash, or_else, stored_hashes, index_put, get_path, delete_namespace,
  store_hashes, index_delete,
}
use reelm.Store.Index.Laws.{with_hash, stored_hashes-index_put, stored_hashes-eq}

abbrev pub IsDistinct : List Text → Type 0
IsDistinct [] = Unit
IsDistinct (h ∷ hs) = (has_hash h hs ≡ false) × IsDistinct hs

has_hash-append :
    (x h : Text) (hs : List Text) → has_hash x (hs ++ h ∷ []) ≡ (has_hash x hs || h == x)
unfolding has_hash
has_hash-append x h [] = or-false (h == x)
has_hash-append x h (y ∷ hs) = elim (Bool-cases (y == x)) [
  | inl e ↦ simp e
  | inr e ↦ simp (e, has_hash-append x h hs)
]

has_hash-cons : (x h : Text) (hs : List Text) → has_hash x (h ∷ hs) ≡ (h == x || has_hash x hs)
unfolding has_hash
has_hash-cons x h hs = refl

IsDistinct-append :
    (h : Text) (hs : List Text) → IsDistinct hs → has_hash h hs ≡ false → IsDistinct (hs ++ h ∷ [])
IsDistinct-append h [] d p = (unfold has_hash in refl, tt)
IsDistinct-append h (x ∷ hs) (fresh, d) p =
    let (q, r) = or-eq-false (x == h) (has_hash h hs) (sym (has_hash-cons h x hs) ∙ p) in
    (has_hash-append x h hs ∙ simp (fresh, eq_comm h x, q), IsDistinct-append h hs d r)

module _ (b : Backend) (law : IsLawful b) where
  -- If no namespace lists a hash twice, none does after a Put that succeeds.
  pub index_put-IsDistinct :
      (hash namespace rel_path : Text) (d e : b.Db)
      → index_put b hash namespace rel_path d ≡ some e
      → ((m : Text) → IsDistinct (stored_hashes b d m))
      → (m : Text) → IsDistinct (stored_hashes b e m)
  index_put-IsDistinct hash namespace rel_path d e h k m =
      rw (stored_hashes-index_put b law hash namespace rel_path d e m h)
        (kept (namespace == m && not (namespace == [])) (stored_hashes b d m) (k m))
    where
      kept :
          (c : Bool) (hs : List Text)
          → IsDistinct hs
          → IsDistinct (if c && not (has_hash hash hs) then hs ++ hash ∷ [] else hs)
      kept false hs d = d
      kept true hs d = elim (Bool-cases (has_hash hash hs)) [
        | inl p ↦ simp p d
        | inr p ↦ simp p (IsDistinct-append hash hs d p)
      ]

  -- The hash is listed under its namespace after a Put that succeeds.
  pub has_hash-index_put :
      (hash namespace rel_path : Text) (d e : b.Db)
      → index_put b hash namespace rel_path d ≡ some e
      → (namespace == []) ≡ false
      → has_hash hash (stored_hashes b e namespace) ≡ true
  has_hash-index_put hash namespace rel_path d e h n =
      rw (stored_hashes-index_put b law hash namespace rel_path d e namespace h)
        (listed (stored_hashes b d namespace))
    where
      listed : (hs : List Text) → has_hash hash (with_hash hash namespace namespace hs) ≡ true
      listed hs = elim (Bool-cases (has_hash hash hs)) [
        | inl p ↦ simp (eq_refl, n, p)
        | inr p ↦ simp (eq_refl, n, p, has_hash-append)
      ]

  or_else-get :
      (o : Option b.Db) (d : b.Db) (j : Text)
      → ((e : b.Db) → o ≡ some e → b.get e cassettes j ≡ b.get d cassettes j)
      → b.get (or_else o d) cassettes j ≡ b.get d cassettes j
  or_else-get none d j h = refl
  or_else-get (some e) d j h = h e refl

  get-store_hashes :
      (namespace : Text) (hs : List Text) (d : b.Db) (j : Text)
      → b.get (store_hashes b namespace hs d) cassettes j ≡ b.get d cassettes j
  unfolding store_hashes
  get-store_hashes namespace [] d j =
      or_else-get (b.delete d namespaces namespace) d j
        (λ e p. law.get-delete namespaces cassettes namespace j p)
  get-store_hashes namespace (h ∷ hs) d j =
      or_else-get (b.put d namespaces namespace (or_else (b.marshal_hashes (h ∷ hs)) [])) d j
        (λ e p. law.get-put namespaces cassettes namespace j _ p)

  get-delete_namespace :
      (hash namespace : Text) (d : b.Db) (j : Text)
      → b.get (delete_namespace b hash namespace d) cassettes j ≡ b.get d cassettes j
  unfolding delete_namespace
  get-delete_namespace hash namespace d j = elim (Bool-cases (namespace == [])) [
    | inl p ↦ simp p
    | inr p ↦ elim (Option-cases (b.get d namespaces namespace)) [
      | inl q ↦ simp (p, q)
      | inr (val, q) ↦
          simp (p, q)
            (get-store_hashes namespace (without_hash hash (or_else (b.unmarshal_hashes val) [])) d
              j)
    ]
  ]

  -- After Delete the hash has no path, and every other hash has the path that it had.
  pub get_path-index_delete :
      (hash namespace : Text) (d e : b.Db) (j : Text)
      → index_delete b hash namespace d ≡ some e
      → get_path b e j ≡ (if hash == j then none else get_path b d j)
  unfolding index_delete get_path
  get_path-index_delete hash namespace d e j h =
      let (x, p, q) = >>=-eq-some (b.delete d cassettes hash) _ h in
      law.get-commit cassettes j q
      ∙ get-delete_namespace hash namespace x j
      ∙ law.get-delete cassettes cassettes hash j p

  -- A Delete that succeeds with the empty namespace leaves the list of every namespace as it is.
  pub stored_hashes-index_delete :
      (hash : Text) (d e : b.Db) (m : Text)
      → index_delete b hash [] d ≡ some e
      → stored_hashes b e m ≡ stored_hashes b d m
  unfolding index_delete delete_namespace
  stored_hashes-index_delete hash d e m h =
      let (x, p, q) = >>=-eq-some (b.delete d cassettes hash) _ h in
      stored_hashes-eq b law x e m (law.get-commit namespaces m (simp eq_refl at q))
      ∙ stored_hashes-eq b law d x m (law.get-delete cassettes namespaces hash m p)
