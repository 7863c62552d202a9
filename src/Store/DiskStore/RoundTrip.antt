-- ===== src/Store/DiskStore/RoundTrip.antt =====
-- pkg/store/store.go: what LoadByHash returns after a Save and after a Delete.
use reelm.Base.{
  ℕ, ◌≡◌, refl, ap, ◌∙◌, Bool, false, none, some, [], ◌∷◌, Text, ◌==◌, eq_refl, to_lower,
  if◌then◌else◌, Option-cases, inl, inr,
}
use reelm.Store.Cassette.{Cassette}
use reelm.Store.Paths.{join_path, ext}
use reelm.Store.Serializer.{Serializer, yaml, json, extension, serializer_of}
use reelm.Store.Backend.{Backend, IsLawful}
use reelm.Store.Disk.{read-content, Disk, Call, read_file, content, read}
use reelm.Store.Index.{get_path}
use reelm.Store.Index.Laws.{get_path-index_put}
use reelm.Store.Index.Distinct.{get_path-index_delete}
use reelm.Store.DiskStore.{
  ok, err, not_in_index, DiskStore, resolve_relative_path, tmp_file, save, decode_file,
  load_by_hash, delete_hash,
}
use reelm.Store.DiskStore.Deleted.{delete_hash-Deleted}
use reelm.Store.DiskStore.Saved.{full_path, ext-full_path, save-Saved}

serializer_of-extension : (ser : Serializer) → serializer_of (to_lower (extension ser)) ≡ ser
unfolding serializer_of to_lower ◌==◌
serializer_of-extension yaml = refl
serializer_of-extension json = refl

module _ (b : Backend) where
  -- A hash loads where the index, the file and the decoding all go through.
  load_by_hash_lem :
      (hash rel bytes : Text) (c : Cassette) (s : DiskStore b)
      → get_path b s.index hash ≡ some rel
      → read (join_path (s.base_dir ∷ rel ∷ [])) s.disk ≡ some bytes
      → b.unmarshal (serializer_of (to_lower (ext (join_path (s.base_dir ∷ rel ∷ []))))) bytes
        ≡ some c
      → load_by_hash b hash s ≡ ok c
  unfolding load_by_hash decode_file
  load_by_hash_lem hash rel bytes c s p q r = rw (p, load_by_hash) (rw q (rw (r, decode_file)))

  pub read-eq :
      (p : Text) (d e : Disk)
      → e.fails ≡ d.fails
      → content p e.files ≡ content p d.files
      → read p e ≡ read p d
  unfolding read
  read-eq p d e f g = λ i. if f i (read_file p) then none else g i

  -- Two stores with one folder agree on a hash with one path in both and one file there.
  pub load_by_hash-eq :
      (hash : Text) (s t : DiskStore b)
      → t.base_dir ≡ s.base_dir
      → get_path b t.index hash ≡ get_path b s.index hash
      → ((rel : Text)
          → get_path b s.index hash ≡ some rel
          → read (join_path (s.base_dir ∷ rel ∷ [])) t.disk
            ≡ read (join_path (s.base_dir ∷ rel ∷ [])) s.disk)
      → load_by_hash b hash t ≡ load_by_hash b hash s
  unfolding load_by_hash
  load_by_hash-eq hash s t base path file = elim (Option-cases (get_path b s.index hash)) [
    | inl p ↦ rw (path, load_by_hash) (rw (p, load_by_hash))
    | inr (rel, p) ↦
        rw (path, load_by_hash) (rw (p, load_by_hash) (rw base (ap (decode_file b _) (file rel p))))
  ]

  module _ (law : IsLawful b) where
    -- After a Save without an error, a cassette's hash loads that cassette, unless reading its file
    -- fails.
    pub load_by_hash-save :
        (now : ℕ) (c : Cassette) (s : DiskStore b)
        → (save b now (some c) s).0 ≡ none
        → s.disk.fails (read_file (full_path s.base_dir s.serializer c)) ≡ false
        → load_by_hash b c.hash (save b now (some c) s).1 ≡ ok c
    load_by_hash-save now c s h readable =
        let t = (save b now (some c) s).1 in
        let full = full_path s.base_dir s.serializer c in
        let rel = resolve_relative_path s.serializer c in
        let k = save-Saved b now c s h in
        let same : join_path (t.base_dir ∷ rel ∷ []) ≡ full =
          ap (λ (d : Text). join_path (d ∷ rel ∷ [])) k.base_dir in
        let file : content full t.disk.files ≡ some k.bytes =
          k.committed.files full ∙ simp eq_refl in
        let ser : serializer_of (to_lower (ext full)) ≡ s.serializer =
          ap (λ (e : Text). serializer_of (to_lower e)) (ext-full_path s.base_dir s.serializer c)
          ∙ serializer_of-extension s.serializer in
        load_by_hash_lem c.hash rel k.bytes c t
          (get_path-index_put b law c.hash c.namespace rel s.index t.index c.hash k.indexed
            ∙ simp eq_refl)
          (rw same (
            read-content full k.bytes t.disk
              (ap (λ (f : Call → Bool). f (read_file full)) k.committed.fails ∙ readable) file))
          (rw same (rw ser (law.unmarshal-marshal s.serializer c k.encoded)))

    -- A Save without an error leaves what another hash loads as it is, if that hash is kept in
    -- another file than the cassette's and its temporary one.
    pub load_by_hash-save_ne :
        (now : ℕ) (c : Cassette) (s : DiskStore b) (hash : Text)
        → (save b now (some c) s).0 ≡ none
        → (c.hash == hash) ≡ false
        → ((rel : Text)
            → get_path b s.index hash ≡ some rel
            → ((full_path s.base_dir s.serializer c == join_path (s.base_dir ∷ rel ∷ [])) ≡ false)
              × ((tmp_file (full_path s.base_dir s.serializer c) now
                    == join_path (s.base_dir ∷ rel ∷ []))
                  ≡ false))
        → load_by_hash b hash (save b now (some c) s).1 ≡ load_by_hash b hash s
    load_by_hash-save_ne now c s hash h other apart =
        let t = (save b now (some c) s).1 in
        let k = save-Saved b now c s h in
        load_by_hash-eq hash s t k.base_dir
          (get_path-index_put b law c.hash c.namespace _ s.index t.index hash k.indexed
            ∙ simp other)
          (λ rel p.
            let (x, y) = apart rel p in
            read-eq (join_path (s.base_dir ∷ rel ∷ [])) s.disk t.disk k.committed.fails
              (k.committed.files (join_path (s.base_dir ∷ rel ∷ [])) ∙ simp (x, y)))

    -- After a Delete without an error the hash is not in the index, and loading it fails with that
    -- error.
    pub load_by_hash-delete_hash :
        (hash : Text) (s : DiskStore b)
        → (delete_hash b hash s).0 ≡ none
        → load_by_hash b hash (delete_hash b hash s).1 ≡ err not_in_index
    load_by_hash-delete_hash hash s h =
        let t = (delete_hash b hash s).1 in
        let gone : get_path b t.index hash ≡ none =
          get_path-index_delete b law hash [] s.index t.index hash
            (delete_hash-Deleted b hash s h).index
          ∙ simp eq_refl in
        unfold load_by_hash in rw (gone, load_by_hash)

    -- A Delete without an error leaves what another hash loads as it is, if that hash is kept in
    -- another file.
    pub load_by_hash-delete_hash_ne :
        (hash : Text) (s : DiskStore b) (j : Text)
        → (delete_hash b hash s).0 ≡ none
        → (hash == j) ≡ false
        → ((rel r : Text)
            → get_path b s.index hash ≡ some rel
            → get_path b s.index j ≡ some r
            → (join_path (s.base_dir ∷ rel ∷ []) == join_path (s.base_dir ∷ r ∷ [])) ≡ false)
        → load_by_hash b j (delete_hash b hash s).1 ≡ load_by_hash b j s
    load_by_hash-delete_hash_ne hash s j h other apart =
        let t = (delete_hash b hash s).1 in
        let k = delete_hash-Deleted b hash s h in
        load_by_hash-eq j s t k.base_dir
          (get_path-index_delete b law hash [] s.index t.index j k.index ∙ simp other)
          (λ r p.
            let full = join_path (s.base_dir ∷ r ∷ []) in
            read-eq full s.disk t.disk k.fails (k.files full (apart k.rel r k.path p)))
