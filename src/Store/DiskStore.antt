-- ===== src/Store/DiskStore.antt =====
-- pkg/store/store.go. A call returns its error and the store after it; locks are left out, for the
-- calls of one store run one after another.
pub mod Saved
pub mod Deleted
pub mod Pruned
pub mod Rebuilt
pub mod RoundTrip
pub mod Implements
pub mod Opened
pub mod Replayed
pub mod Grouped
pub mod Layout
use reelm.Base.{
  ℕ, suc, ◌+◌, Bool, true, false, not, ◌&&◌, ◌||◌, Option, none, some, List, [], ◌∷◌, ◌++◌, Text,
  codes, ◌==◌, ltb, leb, length, take, to_lower, trim_space, decimal, if◌then◌else◌,
}
use reelm.Store.Cassette.{Cassette, CassetteMeta}
use reelm.Store.Paths.{join_path, clean, ext, dir, paths_code}
use reelm.Store.Serializer.{Serializer, extension, serializer_of, get_serializer}
use reelm.Store.Backend.{Backend}
use reelm.Store.Disk.{
  Disk, Call, mkdir_all, read, write, torn, move, delete, relative, walk, content, without, place,
  path_lt, is_within,
}
use reelm.Store.Index.{
  init_buckets, open_index, index_put, get_path, get_hashes_by_namespace, index_delete,
  put_namespace, stored_hashes, has_hash, delete_namespace, store_hashes, without_hash,
}

pub data StoreError : Type 0 where
  nil_cassette empty_hash mkdir_failed marshal_failed write_failed rename_failed index_failed :
      StoreError
  not_in_index read_failed unmarshal_failed bad_format open_failed : StoreError

pub data Result {ℓ} (A : Type ℓ) : Type ℓ where
  ok : A → Result A
  err : StoreError → Result A

pub record DiskStore (b : Backend) : Type 0 where
  pub base_dir : Text
  pub serializer : Serializer
  pub index : b.Db
  pub disk : Disk

-- resolveRelativePath
pub resolve_relative_path : Serializer → Cassette → Text
resolve_relative_path ser c =
    let prefix = if leb 2 (length c.hash) then take 2 c.hash else codes "xx" in
    let file_name = c.hash ++ extension ser in
    if not (c.namespace == [])
    then join_path (c.namespace ∷ prefix ∷ file_name ∷ [])
    else join_path (prefix ∷ file_name ∷ [])

-- fmt.Sprintf("%s.tmp-%d", fullPath, now)
pub tmp_file : Text → ℕ → Text
tmp_file full_path now = full_path ++ (codes ".tmp-" ++ decimal now)

-- The writing of Save: the bytes go to a temporary file, which is renamed.
pub commit_file : Text → Text → ℕ → Disk → Option StoreError × Disk
commit_file full_path bytes now d =
    let tmp = tmp_file full_path now in
    elim (write tmp bytes d) [
      | none ↦ (some write_failed, torn tmp bytes d)
      | some e ↦ elim (move tmp full_path e) [
        | none ↦ (some rename_failed, delete tmp e)
        | some f ↦ (none, f)
      ]
    ]

-- The tests of List and RebuildIndex on a file's extension.
pub is_cassette_file : Text → Bool
is_cassette_file path =
    let e = to_lower (ext path) in e == codes ".yaml" || e == codes ".yml" || e == codes ".json"

module _ (b : Backend) where
  -- The end of Save, after the file is committed.
  pub save_index :
      Text → Cassette → DiskStore b → Option StoreError × Disk → Option StoreError × DiskStore b
  save_index rel_path c s (some e, d) = (some e, record s { disk = d })
  save_index rel_path c s (none, d) = elim (index_put b c.hash c.namespace rel_path s.index) [
    | none ↦ (some index_failed, record s { disk = d })
    | some i ↦ (none, record s { disk = d; index = i })
  ]

  -- Save, of a cassette that is not nil and at the clock's reading `now`
  pub save_cassette : ℕ → Cassette → DiskStore b → Option StoreError × DiskStore b
  save_cassette now c s =
      let rel_path = resolve_relative_path s.serializer c in
      let full_path = join_path (s.base_dir ∷ rel_path ∷ []) in
      if c.hash == []
      then (some empty_hash, s)
      else if s.disk.fails (mkdir_all (dir full_path))
      then (some mkdir_failed, s)
      else elim (b.marshal s.serializer c) [
        | none ↦ (some marshal_failed, s)
        | some bytes ↦ save_index rel_path c s (commit_file full_path bytes now s.disk)
      ]

  -- Save
  pub save : ℕ → Option Cassette → DiskStore b → Option StoreError × DiskStore b
  save now none s = (some nil_cassette, s)
  save now (some c) s = save_cassette now c s

  -- The end of LoadByHash, from what os.ReadFile returned.
  pub decode_file : Text → Option Text → Result Cassette
  decode_file full_path none = err read_failed
  decode_file full_path (some bytes) =
      elim (b.unmarshal (serializer_of (to_lower (ext full_path))) bytes) [
        | none ↦ err unmarshal_failed
        | some c ↦ ok c
      ]

  -- LoadByHash
  pub load_by_hash : Text → DiskStore b → Result Cassette
  load_by_hash hash s = elim (get_path b s.index hash) [
    | none ↦ err not_in_index
    | some rel_path ↦
        let full_path = join_path (s.base_dir ∷ rel_path ∷ []) in
        decode_file full_path (read full_path s.disk)
  ]

  -- The loop of LoadByNamespace, which leaves out what does not load.
  pub load_each : List Text → DiskStore b → List Cassette
  load_each [] s = []
  load_each (h ∷ hs) s =
      let rest = load_each hs s in elim (load_by_hash h s) [ ok c ↦ c ∷ rest | err e ↦ rest ]

  -- LoadByNamespace
  pub load_by_namespace : Text → DiskStore b → Result (List Cassette)
  load_by_namespace namespace s = elim (get_hashes_by_namespace b s.index namespace) [
    | none ↦ err unmarshal_failed
    | some hashes ↦ ok (load_each hashes s)
  ]

  -- Delete
  pub delete_hash : Text → DiskStore b → Option StoreError × DiskStore b
  delete_hash hash s = elim (get_path b s.index hash) [
    | none ↦ (some not_in_index, s)
    | some rel_path ↦
        let d = delete (join_path (s.base_dir ∷ rel_path ∷ [])) s.disk in
        elim (index_delete b hash [] s.index) [
          | none ↦ (some index_failed, record s { disk = d })
          | some i ↦ (none, record s { disk = d; index = i })
        ]
  ]

  -- What List and RebuildIndex read from one file of the walk; none is a file that they skip.
  pub scan_file : Disk → Text → Option Cassette
  scan_file d path = if not (is_cassette_file path) then none else elim (read path d) [
    | none ↦ none
    | some bytes ↦ b.unmarshal (serializer_of (to_lower (ext path))) bytes
  ]

  abbrev pub meta_of : Text → Cassette → CassetteMeta
  meta_of path c = record {
    hash = c.hash;
    namespace = c.namespace;
    provider = c.provider;
    endpoint = c.endpoint;
    recorded_at = c.recorded_at;
    file_path = path;
  }

  pub list_files : Disk → List Text → List CassetteMeta
  list_files d [] = []
  list_files d (p ∷ ps) =
      let rest = list_files d ps in
      elim (scan_file d p) [ none ↦ rest | some c ↦ meta_of p c ∷ rest ]

  -- List
  pub list : DiskStore b → List CassetteMeta
  list s = list_files s.disk (walk s.base_dir s.disk.files)

  abbrev pub succeeded : Option StoreError → Bool
  succeeded none = true
  succeeded (some e) = false

  -- One round of Prune, with whether it counts.
  pub prune_one : ℕ → CassetteMeta → DiskStore b → Bool × DiskStore b
  prune_one older_than m s =
      if ltb m.recorded_at older_than
      then (succeeded (delete_hash m.hash s).0, (delete_hash m.hash s).1)
      else (false, s)

  -- The loop of Prune
  pub prune_each : ℕ → List CassetteMeta → DiskStore b → ℕ × DiskStore b
  prune_each older_than [] s = (0, s)
  prune_each older_than (m ∷ ms) s =
      let r = prune_one older_than m s in
      let more = prune_each older_than ms r.1 in ((if r.0 then more.0 + 1 else more.0), more.1)

  -- Prune
  pub prune : ℕ → DiskStore b → ℕ × DiskStore b
  prune older_than s = prune_each older_than (list s) s

  -- What RebuildIndex does with one file of the walk; none is an error of the index.
  pub index_file : Text → Text → Option Cassette → b.Db → Option b.Db
  index_file base p none i = some i
  index_file base p (some c) i =
      if c.hash == [] then some i else index_put b c.hash c.namespace (relative base p) i

  -- The walk of RebuildIndex, with whether it went through; an error of the index ends it.
  pub rebuild_each : Text → Disk → List Text → b.Db → Bool × b.Db
  rebuild_each base d [] i = (true, i)
  rebuild_each base d (p ∷ ps) i = elim (index_file base p (scan_file d p) i) [
    | none ↦ (false, i)
    | some j ↦ rebuild_each base d ps j
  ]

  -- RebuildIndex
  pub rebuild_index : DiskStore b → Bool × DiskStore b
  rebuild_index s =
      let r = rebuild_each s.base_dir s.disk (walk s.base_dir s.disk.files) s.index in
      (r.0, record s { index = r.1 })

  -- NewDiskStore; `opened` is what bbolt.Open returns in OpenIndex.
  pub new_disk_store : Text → Text → Option b.Db → Disk → Result (DiskStore b)
  new_disk_store base_dir format opened d =
      if d.fails (mkdir_all base_dir) then err mkdir_failed else elim (get_serializer format) [
        | none ↦ err bad_format
        | some ser ↦ elim (open_index b base_dir opened d) [
          | none ↦ err open_failed
          | some i ↦
              let r =
                rebuild_index
                  (record { base_dir = base_dir; serializer = ser; index = i; disk = d }) in
              if r.0 then ok r.1 else err index_failed
        ]
      ]

  -- All that the store computes with.
  unfoldable pub store_code : Unit {0}
  unfolding new_disk_store open_index init_buckets rebuild_index rebuild_each index_file prune
      prune_each prune_one list list_files scan_file delete_hash load_by_namespace load_each
      load_by_hash decode_file save save_cassette save_index commit_file tmp_file is_cassette_file
      resolve_relative_path decimal read write torn move delete relative walk content without place
      path_lt is_within serializer_of get_serializer index_put put_namespace stored_hashes has_hash
      get_path get_hashes_by_namespace index_delete delete_namespace store_hashes without_hash
      paths_code to_lower trim_space
  store_code = tt
