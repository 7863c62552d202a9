-- ===== src/Store/DiskStore/Implements.antt =====
-- pkg/store/store.go: DiskStore as the Store that the proxy takes.
use reelm.Base.{◌≡◌, refl, ap, true, false, Option, none, some}
use reelm.Store.Cassette.{Cassette}
use reelm.Store.Backend.{Backend, IsLawful}
use reelm.Store.Disk.{read_file}
use reelm.Store.Interface.{CassetteStore}
use reelm.Store.DiskStore.{StoreError, Result, ok, err, DiskStore, save, load_by_hash, succeeded}
use reelm.Store.DiskStore.Saved.{full_path}
use reelm.Store.DiskStore.RoundTrip.{load_by_hash-save}

-- A cassette, where there is no error.
abbrev pub loaded : Result Cassette → Option Cassette
loaded (ok c) = some c
loaded (err e) = none

pub succeeded_lem : (b : Backend) (o : Option StoreError) → succeeded b o ≡ true → o ≡ none
succeeded_lem b none h = refl
succeeded_lem b (some e) h = cc

abbrev pub disk_cassette_store : (b : Backend) → IsLawful b → CassetteStore
disk_cassette_store b law = record {
  State = DiskStore b;
  load = λ hash s. loaded (load_by_hash b hash s);
  save = λ now c s. (succeeded b (save b now (some c) s).0, (save b now (some c) s).1);
  IsReadable = λ c s. s.disk.fails (read_file (full_path s.base_dir s.serializer c)) ≡ false;
  load-save = λ now c s h readable.
      ap loaded
        (load_by_hash-save b law now c s (succeeded_lem b (save b now (some c) s).0 h) readable);
}
