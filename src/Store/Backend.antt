-- ===== src/Store/Backend.antt =====
-- What the store takes from elsewhere: the bolt database, and the encodings of cassettes (yaml.v3,
-- encoding/json) and of the lists of hashes that the index stores (encoding/json).
use reelm.Base.{◌≡◌, Bool, true, false, ◌&&◌, Option, none, some, List, Text, ◌==◌, if◌then◌else◌}
use reelm.Store.Cassette.{Cassette}
use reelm.Store.Serializer.{Serializer}

-- The two buckets of the index, bucketCassettes and bucketNamespaces.
pub data Bucket : Type 0 where
  cassettes namespaces : Bucket

abbrev pub same_bucket : Bucket → Bucket → Bool
same_bucket cassettes cassettes = true
same_bucket cassettes namespaces = false
same_bucket namespaces cassettes = false
same_bucket namespaces namespaces = true

pub record Backend : Type 1 where
  pub Db : Type 0
  -- bucket.Get, bucket.Put, bucket.Delete within a transaction; none is an error
  pub get : Db → Bucket → Text → Option Text
  pub put : Db → Bucket → Text → Text → Option Db
  pub delete : Db → Bucket → Text → Option Db
  -- CreateBucketIfNotExists
  pub create_bucket : Db → Bucket → Option Db
  -- the commit at the end of db.Update
  pub commit : Db → Option Db
  pub marshal : Serializer → Cassette → Option Text
  pub unmarshal : Serializer → Text → Option Cassette
  pub marshal_hashes : List Text → Option Text
  pub unmarshal_hashes : Text → Option (List Text)

-- What the packages document: a key holds what was put there last, a deletion takes one key away,
-- making sure of a bucket changes no entry, a commit shows the transaction's state, and an encoded
-- value decodes to itself.
pub record IsLawful (b : Backend) : Type 0 where
  pub get-put :
      {d e : b.Db} (c a : Bucket) (k j v : Text)
      → b.put d c k v ≡ some e
      → b.get e a j ≡ (if same_bucket c a && k == j then some v else b.get d a j)
  pub get-delete :
      {d e : b.Db} (c a : Bucket) (k j : Text)
      → b.delete d c k ≡ some e
      → b.get e a j ≡ (if same_bucket c a && k == j then none else b.get d a j)
  pub get-create_bucket :
      {d e : b.Db} (c a : Bucket) (j : Text)
      → b.create_bucket d c ≡ some e
      → b.get e a j ≡ b.get d a j
  pub get-commit :
      {d e : b.Db} (a : Bucket) (j : Text) → b.commit d ≡ some e → b.get e a j ≡ b.get d a j
  pub unmarshal-marshal :
      (s : Serializer) (c : Cassette) {t : Text} → b.marshal s c ≡ some t → b.unmarshal s t ≡ some c
  pub unmarshal_hashes-marshal_hashes :
      (hs : List Text) {t : Text} → b.marshal_hashes hs ≡ some t → b.unmarshal_hashes t ≡ some hs
