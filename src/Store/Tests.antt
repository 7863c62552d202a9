-- ===== src/Store/Tests.antt =====
-- Runs of the store of pkg/store/store.go, over the database and the encodings of `Codec`.
pub mod Codec
pub mod Runs
use reelm.Base.{
  sym, ap, ◌∙◌, eq_iff, Bool-cases, inl, inr, ℕ, ◌≡◌, refl, Bool, true, false, some_eq, not, ◌&&◌,
  Option, none, some, List, [], ◌∷◌, ◌++◌, Text, codes, ◌==◌, if◌then◌else◌,
}
use reelm.Base.Int.{pos}
use reelm.Store.Cassette.{Cassette}
use reelm.Store.Paths.{ext, join_path, paths_code}
use reelm.Store.Serializer.{Serializer, yaml, json, extension}
use reelm.Store.Backend.{cassettes, namespaces}
use reelm.Store.Disk.{Disk, walk}
use reelm.Store.Index.{has_hash, stored_hashes, index_put, index_delete, get_path}
use reelm.Store.Index.Laws.{with_hash, stored_hashes-index_put, get_path-index_put}
use reelm.Store.Index.Distinct.{IsDistinct, index_put-IsDistinct, stored_hashes-index_delete}
use reelm.Store.DiskStore.{
  ok, err, not_in_index, DiskStore, load_by_namespace, resolve_relative_path, tmp_file, save,
  load_by_hash, delete_hash, prune, list, rebuild_index, store_code,
}
use reelm.Store.DiskStore.Saved.{full_path, ext-full_path}
use reelm.Store.DiskStore.RoundTrip.{
  load_by_hash-save, load_by_hash-save_ne, load_by_hash-delete_hash, load_by_hash-delete_hash_ne,
}
use reelm.Store.DiskStore.Grouped.{load_by_namespace-save}
use mathlib.Core.List.{Mem}
use reelm.Store.DiskStore.Layout.{names_of, save-IsBelow}
use reelm.Store.Disk.{content}
use reelm.Store.Paths.Below.{IsBelow}
use reelm.Store.DiskStore.Pruned.{is_stale, IsApart, load_by_hash-prune, prune-gone}
use reelm.Store.DiskStore.Rebuilt.{last_path, get_path-rebuild_index}
use reelm.Store.Tests.Codec.{table, table-IsLawful}

abbrev pub sample : Text → ℕ → Cassette
sample hash recorded_at = record {
  version = 1;
  hash = hash;
  namespace = codes "n";
  provider = codes "p";
  endpoint = codes "/e";
  recorded_at = recorded_at;
  expires_at = none;
  request = record { method = codes "M"; path = codes "/e"; headers = []; body = [] };
  response = record {
    status_code = 200;
    headers = [];
    body = codes "b";
    chunks = [];
    latency = pos 1;
    is_stream = false;
  };
  metadata = [];
}

abbrev pub empty_db : table.Db
empty_db = λ a k. none

abbrev pub empty_disk : Disk
empty_disk = record { files = []; fails = λ c. false; leaves = λ p t. none }

abbrev pub empty_store : DiskStore table
empty_store = record {
  base_dir = codes "d";
  serializer = yaml;
  index = empty_db;
  disk = empty_disk;
}

-- The store with one cassette, and with two.
abbrev one : DiskStore table
one = (save table 3 (some (sample (codes "abc") 10)) empty_store).1

abbrev two : DiskStore table
two = (save table 4 (some (sample (codes "xyz") 20)) one).1

load_by_hash-save_example : load_by_hash table (codes "abc") one ≡ ok (sample (codes "abc") 10)
unfolding store_code
load_by_hash-save_example =
    load_by_hash-save table table-IsLawful 3 (sample (codes "abc") 10) empty_store refl refl

get_path-rebuild_index_example :
    get_path table (rebuild_index table two).1.index (codes "xyz")
    ≡ last_path table
        (codes "d")
        two.disk
        (codes "xyz")
        (walk (codes "d") two.disk.files)
        (get_path table two.index (codes "xyz"))
unfolding store_code
get_path-rebuild_index_example = get_path-rebuild_index table table-IsLawful two (codes "xyz") refl

abbrev abc_path : Text
abc_path = codes "n/ab/abc.yaml"

abbrev xyz_path : Text
xyz_path = codes "n/xy/xyz.yaml"

stale_hash : (k : Text) → is_stale 15 k (list table two) ≡ true → (codes "abc" == k) ≡ true
unfolding store_code
stale_hash k h = elim (Bool-cases (codes "abc" == k)) [ inl e ↦ e | inr e ↦ cc (simp e at h) ]

abc_lem : get_path table two.index (codes "abc") ≡ some abc_path
unfolding store_code
abc_lem = refl

xyz_lem : get_path table two.index (codes "xyz") ≡ some xyz_path
unfolding store_code
xyz_lem = refl

paths_apart :
    (join_path (codes "d" ∷ abc_path ∷ []) == join_path (codes "d" ∷ xyz_path ∷ [])) ≡ false
unfolding store_code
paths_apart = refl

base_lem : two.base_dir ≡ codes "d"
unfolding store_code
base_lem = refl

two-IsApart : IsApart table table-IsLawful 15 (list table two) two (codes "xyz")
two-IsApart k rel r h p q =
    let same = (eq_iff (codes "abc") k).0 (stale_hash k h) in
    let first : rel ≡ abc_path =
      some_eq (sym p ∙ ap (get_path table two.index) (sym same) ∙ abc_lem) in
    let second : r ≡ xyz_path = some_eq (sym q ∙ xyz_lem) in
    rw base_lem (rw first (rw second paths_apart))

load_by_hash-prune_example :
    (get_path table (prune table 15 two).1.index (codes "xyz")
      ≡ get_path table two.index (codes "xyz"))
    × (load_by_hash table (codes "xyz") (prune table 15 two).1
        ≡ load_by_hash table (codes "xyz") two)
unfolding store_code
load_by_hash-prune_example =
    load_by_hash-prune table table-IsLawful 15 two (codes "xyz") refl two-IsApart

prune-gone_example : get_path table (prune table 15 two).1.index (codes "abc") ≡ none
unfolding store_code
prune-gone_example =
    prune-gone table table-IsLawful (λ d k. (_, refl)) (λ d. (d, refl)) 15 two (codes "abc") refl

load_by_namespace-save_example :
    (cs : List Cassette) × (load_by_namespace table (codes "n") two ≡ ok cs)
    × Mem (sample (codes "xyz") 20) cs
unfolding store_code
load_by_namespace-save_example =
    load_by_namespace-save table table-IsLawful 4 (sample (codes "xyz") 20) one refl refl refl

save-IsBelow_example :
    (path : Text) × (bytes : Text) × IsBelow
      (codes "d")
      (names_of yaml (sample (codes "abc") 10))
      path
    × (content path one.disk.files ≡ some bytes)
    × (table.marshal yaml (sample (codes "abc") 10) ≡ some bytes)
unfolding store_code
save-IsBelow_example = save-IsBelow table 3 (sample (codes "abc") 10) empty_store refl refl (
  record { plain = refl; flat = refl },
  (record { plain = refl; flat = refl }, (record { plain = refl; flat = refl }, tt)),
)
