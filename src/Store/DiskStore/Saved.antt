-- ===== src/Store/DiskStore/Saved.antt =====
-- pkg/store/store.go: what a Save that succeeds has done to the files and to the index.
use reelm.Base.{
  ℕ, ◌≡◌, refl, sym, ap, ◌∙◌, false, Option, none, some, List, [], ◌∷◌, ◌++◌, arith, Text, codes,
  ◌==◌, eq_refl, length, take, leb, if◌then◌else◌, Bool-cases, Option-cases, inl, inr,
}
use reelm.Store.Cassette.{Cassette}
use reelm.Store.Paths.{join_path, ext, dir, paths_code}
use reelm.Store.Paths.Ending.{ext-join_path}
use reelm.Store.Serializer.{Serializer, yaml, json, extension}
use reelm.Store.Backend.{Backend}
use reelm.Store.Disk.{
  Disk, mkdir_all, write_file, rename, content, without, place, write, move, content-place,
  content-without,
}
use reelm.Store.Index.{index_put}
use reelm.Store.DiskStore.{
  StoreError, DiskStore, resolve_relative_path, tmp_file, commit_file, save_index, save_cassette,
  save,
}

-- The path of the file that Save writes.
abbrev pub full_path : Text → Serializer → Cassette → Text
full_path base ser c = join_path (base ∷ resolve_relative_path ser c ∷ [])

ext_of :
    (ser : Serializer) (base : Text) (es : List Text) (hash : Text)
    → ext (join_path (base ∷ join_path (es ++ (hash ++ extension ser) ∷ []) ∷ [])) ≡ extension ser
unfolding paths_code
ext_of yaml base es hash = ext-join_path (codes ".yaml") refl (omega arith) refl base es hash
ext_of json base es hash = ext-join_path (codes ".json") refl (omega arith) refl base es hash

-- Whatever the hash and the namespace are, the file has the extension of the serializer.
pub ext-full_path :
    (base : Text) (ser : Serializer) (c : Cassette) → ext (full_path base ser c) ≡ extension ser
unfolding resolve_relative_path
ext-full_path base ser c =
    let prefix = if leb 2 (length c.hash) then take 2 c.hash else codes "xx" in
    elim (Bool-cases (c.namespace == [])) [
      | inl e ↦ simp e (ext_of ser base (prefix ∷ []) c.hash)
      | inr e ↦ simp e (ext_of ser base (c.namespace ∷ prefix ∷ []) c.hash)
    ]

-- The files after a commit: the path holds the bytes, and the temporary file is gone.
pub record Committed (full bytes : Text) (now : ℕ) (d e : Disk) : Type 0 where
  pub files :
      (j : Text)
      → content j e.files ≡ (
          if full == j
          then some bytes
          else if tmp_file full now == j
          then none
          else content j d.files)
  pub fails : e.fails ≡ d.fails

commit_file-Committed :
    (full bytes : Text) (now : ℕ) (d e : Disk)
    → commit_file full bytes now d ≡ (none, e)
    → Committed full bytes now d e
unfolding commit_file write move
commit_file-Committed full bytes now d e h =
    let tmp = tmp_file full now in
    let placed = place tmp bytes d.files in
    let found : content tmp placed ≡ some bytes =
      content-place tmp tmp bytes d.files ∙ simp eq_refl in
    elim (Bool-cases (d.fails (write_file tmp))) [
      | inl p ↦ cc (rw (p, commit_file) at h)
      | inr p ↦ elim (Bool-cases (d.fails (rename tmp full))) [
        | inl q ↦ cc (rw (q, commit_file) at (rw (p, commit_file) at h))
        | inr q ↦
            let k : record d { files = place full bytes (without tmp placed) } ≡ e =
              ap (λ (r : Option StoreError × Disk). r.1)
                (rw (found, commit_file) at (rw (q, commit_file) at (rw (p, commit_file) at h))) in
            record {
              files = λ j.
                  ap (λ (x : Disk). content j x.files) (sym k)
                  ∙ ground (
                    arith,
                    content-place full j bytes (without tmp placed),
                    content-without tmp j placed,
                    content-place tmp j bytes d.files,
                  );
              fails = ap (λ (x : Disk). x.fails) (sym k);
            }
      ]
    ]

-- The end of Save: without an error, the commit and the index went through.
save_index-Saved :
    (b : Backend) (rel : Text) (c : Cassette) (s : DiskStore b) (r : Option StoreError × Disk)
    → (save_index b rel c s r).0 ≡ none
    → (r.0 ≡ none)
      × (index_put b c.hash c.namespace rel s.index ≡ some (save_index b rel c s r).1.index)
      × ((save_index b rel c s r).1.disk ≡ r.1)
      × ((save_index b rel c s r).1.base_dir ≡ s.base_dir)
      × ((save_index b rel c s r).1.serializer ≡ s.serializer)
unfolding save_index
save_index-Saved b rel c s (some e, d) h = cc
save_index-Saved b rel c s (none, d) h =
    elim (Option-cases (index_put b c.hash c.namespace rel s.index)) [
      | inl p ↦ cc (rw (p, save_index) at h)
      | inr (i, p) ↦ rw (p, save_index) (refl, refl, refl, refl, refl)
    ]

pub record Saved (b : Backend) (now : ℕ) (c : Cassette) (s t : DiskStore b) : Type 0 where
  pub bytes : Text
  pub named : (c.hash == []) ≡ false
  pub encoded : b.marshal s.serializer c ≡ some bytes
  pub committed : Committed (full_path s.base_dir s.serializer c) bytes now s.disk t.disk
  pub indexed :
      index_put b c.hash c.namespace (resolve_relative_path s.serializer c) s.index ≡ some t.index
  pub base_dir : t.base_dir ≡ s.base_dir
  pub serializer : t.serializer ≡ s.serializer

pub save-Saved :
    (b : Backend) (now : ℕ) (c : Cassette) (s : DiskStore b)
    → (save b now (some c) s).0 ≡ none
    → Saved b now c s (save b now (some c) s).1
unfolding save save_cassette
save-Saved b now c s h =
    let rel = resolve_relative_path s.serializer c in
    let full = full_path s.base_dir s.serializer c in
    elim (Bool-cases (c.hash == [])) [
      | inl p ↦ cc (simp p at h)
      | inr p ↦ elim (Bool-cases (s.disk.fails (mkdir_all (dir full)))) [
        | inl q ↦ cc (simp (p, q) at h)
        | inr q ↦ elim (Option-cases (b.marshal s.serializer c)) [
          | inl m ↦ cc (rw (m, save_cassette) at (simp (p, q) at h))
          | inr (bytes, m) ↦
              let r = commit_file full bytes now s.disk in
              let (done, put, disk, base, ser) =
                save_index-Saved b rel c s r (rw (m, save_cassette) at (simp (p, q) at h)) in
              simp (p, q)
                (rw (m, save_cassette)
                  (record {
                    bytes = bytes;
                    named = p;
                    encoded = m;
                    committed =
                        commit_file-Committed full bytes now s.disk _ (λ i. (done i, sym disk i));
                    indexed = put;
                    base_dir = base;
                    serializer = ser;
                  }))
        ]
      ]
    ]
