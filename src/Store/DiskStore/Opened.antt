-- ===== src/Store/DiskStore/Opened.antt =====
-- pkg/store/store.go: which store NewDiskStore returns.
use reelm.Base.{◌≡◌, ◌≢◌, refl, Option, some, Text, Bool-cases, Option-cases, inl, inr}
use reelm.Store.Backend.{Backend}
use reelm.Store.Disk.{Disk, mkdir_all}
use reelm.Store.DiskStore.{
  Result, ok, err, StoreError, bad_format, DiskStore, rebuild_index, new_disk_store,
}
use reelm.Store.Index.{open_index}
use reelm.Store.Serializer.{Serializer, get_serializer}

module _ (b : Backend) where
  -- The base directory and the serializer that the caller asked for
  pub record IsFor (dir f : Text) (s : DiskStore b) : Type 0 where
    pub base_dir : s.base_dir ≡ dir
    pub serializer : get_serializer f ≡ some s.serializer

  -- What NewDiskStore returns for a format that has a serializer
  pub data Opened (dir f : Text) : Result (DiskStore b) → Type 0 where
    opened : (s : DiskStore b) → IsFor dir f s → Opened dir f (ok s)
    not_opened : (e : StoreError) → e ≢ bad_format → Opened dir f (err e)

  pub new_disk_store-Opened :
      (dir f : Text) (opened : Option b.Db) (d : Disk) (ser : Serializer)
      → get_serializer f ≡ some ser
      → Opened dir f (new_disk_store b dir f opened d)
  unfolding new_disk_store rebuild_index
  new_disk_store-Opened dir f db d ser h = elim (Bool-cases (d.fails (mkdir_all dir))) [
    | inl e ↦ simp e (not_opened _ (λ q. cc))
    | inr e ↦ elim (Option-cases (open_index b dir db d)) [
      | inl p ↦ simp e (rw (h, new_disk_store) (rw (p, new_disk_store) (not_opened _ (λ q. cc))))
      | inr (i, p) ↦
          let s : DiskStore b = record { base_dir = dir; serializer = ser; index = i; disk = d } in
          elim (Bool-cases (rebuild_index b s).0) [
            | inl g ↦ simp e (
                rw (h, new_disk_store)
                  (rw (p, new_disk_store)
                    (simp g
                      (opened (rebuild_index b s).1 (record { base_dir = refl; serializer = h })))))
            | inr g ↦
                simp e (
                  rw (h, new_disk_store) (rw (p, new_disk_store) (simp g (not_opened _ (λ q. cc)))))
          ]
    ]
  ]
