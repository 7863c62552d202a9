-- ===== src/Store/Index.antt =====
-- pkg/store/index.go: from a hash to a file's path, and from a namespace to its hashes. An update
-- that returns none is an error, and the database is then rolled back to what it was.
pub mod Laws
pub mod Distinct
use reelm.Base.{
  ℕ, Bool, not, Option, none, some, List, [], ◌∷◌, ◌++◌, Text, ◌==◌, any, ◌>>=◌, if◌then◌else◌,
}
use reelm.Store.Backend.{Backend, cassettes, namespaces}
use reelm.Store.Disk.{Disk, mkdir_all}

-- The loop "Avoid duplicates" of Put.
unfoldable pub has_hash : Text → List Text → Bool
has_hash hash hashes = any (λ h. h == hash) hashes

-- The loop over the hashes in Delete.
unfoldable pub without_hash : Text → List Text → List Text
without_hash hash [] = []
without_hash hash (h ∷ hashes) =
    let rest = without_hash hash hashes in if not (h == hash) then h ∷ rest else rest

abbrev pub or_else {ℓ} : {A : Type ℓ} → Option A → A → A
or_else none a = a
or_else (some x) a = x

module _ (b : Backend) where
  -- The transaction of OpenIndex
  unfoldable pub init_buckets : b.Db → Option b.Db
  init_buckets d = do x ← b.create_bucket d cassettes; y ← b.create_bucket x namespaces; b.commit y

  -- OpenIndex; `opened` is what bbolt.Open returns, none where it fails. The database's own file is
  -- not among the files of the disk.
  unfoldable pub open_index : Text → Option b.Db → Disk → Option b.Db
  open_index base_dir opened d =
      if d.fails (mkdir_all base_dir) then none else opened >>= init_buckets

  -- The hashes under a namespace; what is absent or not decoded counts as none of them.
  unfoldable pub stored_hashes : b.Db → Text → List Text
  stored_hashes d namespace =
      or_else (do val ← b.get d namespaces namespace; b.unmarshal_hashes val) []

  -- The part of Put for a namespace.
  unfoldable pub put_namespace : Text → Text → b.Db → Option b.Db
  put_namespace hash namespace d =
      if namespace == []
      then some d
      else let hashes = stored_hashes d namespace in
        if has_hash hash hashes
        then some d
        else do text ← b.marshal_hashes (hashes ++ hash ∷ []); b.put d namespaces namespace text

  -- Put
  unfoldable pub index_put : Text → Text → Text → b.Db → Option b.Db
  index_put hash namespace rel_path d = do
    e ← b.put d cassettes hash rel_path
    f ← put_namespace hash namespace e
    b.commit f

  -- GetPath; none is the error that the hash is not in the index.
  unfoldable pub get_path : b.Db → Text → Option Text
  get_path d hash = b.get d cassettes hash

  -- GetHashesByNamespace; none is a value that is not decoded.
  unfoldable pub get_hashes_by_namespace : b.Db → Text → Option (List Text)
  get_hashes_by_namespace d namespace = elim (b.get d namespaces namespace) [
    | none ↦ some []
    | some val ↦ b.unmarshal_hashes val
  ]

  -- The list that Delete leaves is stored, or its key deleted. A list that does not encode is
  -- stored as no bytes, and an error of the database is dropped.
  unfoldable pub store_hashes : Text → List Text → b.Db → b.Db
  store_hashes namespace [] d = or_else (b.delete d namespaces namespace) d
  store_hashes namespace (h ∷ hs) d =
      or_else (b.put d namespaces namespace (or_else (b.marshal_hashes (h ∷ hs)) [])) d

  -- The part of Delete for a namespace
  unfoldable pub delete_namespace : Text → Text → b.Db → b.Db
  delete_namespace hash namespace d =
      if namespace == [] then d else elim (b.get d namespaces namespace) [
        | none ↦ d
        | some val ↦
            store_hashes namespace (without_hash hash (or_else (b.unmarshal_hashes val) [])) d
      ]

  -- Delete
  unfoldable pub index_delete : Text → Text → b.Db → Option b.Db
  index_delete hash namespace d = do
    e ← b.delete d cassettes hash
    b.commit (delete_namespace hash namespace e)
