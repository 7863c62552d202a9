-- ===== src/Store/Tests/Runs.antt =====
-- A run of pkg/store/store.go with two hashes.
use reelm.Base.{ℕ, ◌≡◌, refl, false, List, [], ◌∷◌, Text, codes, ◌==◌, if◌then◌else◌}
use reelm.Store.Index.{get_path}
use reelm.Store.Paths.{join_path}
use reelm.Store.Serializer.{yaml}
use reelm.Store.DiskStore.{store_code, tmp_file}
use reelm.Store.DiskStore.Replayed.{
  Op, store, remove, replay, run, Succeeds, view, Homes, IsHomely, load_by_hash-run,
}
use reelm.Store.Tests.{sample, empty_store}
use reelm.Store.Tests.Codec.{table, table-IsLawful}

data IsKnown : Text → Type 0 where
  known_abc : IsKnown (codes "abc")
  known_xyz : IsKnown (codes "xyz")

abbrev home : Text → Text
home h = if h == codes "abc" then codes "n/ab/abc.yaml" else codes "n/xy/xyz.yaml"

abbrev ops : List Op
ops =
    store 3 (sample (codes "abc") 10)
    ∷ store 4 (sample (codes "xyz") 20)
    ∷ store 5 (sample (codes "abc") 30)
    ∷ remove (codes "xyz")
    ∷ []

apart :
    (h j : Text)
    → IsKnown h
    → IsKnown j
    → (h == j) ≡ false
    → (join_path (codes "d" ∷ home h ∷ []) == join_path (codes "d" ∷ home j ∷ [])) ≡ false
unfolding store_code ◌==◌
apart _ _ known_abc known_abc e = cc
apart _ _ known_abc known_xyz e = refl
apart _ _ known_xyz known_abc e = refl
apart _ _ known_xyz known_xyz e = cc

aside :
    (h j : Text) (now : ℕ)
    → IsKnown h
    → IsKnown j
    → (tmp_file (join_path (codes "d" ∷ home h ∷ [])) now == join_path (codes "d" ∷ home j ∷ []))
      ≡ false
unfolding store_code ◌==◌
aside _ _ now known_abc known_abc = refl
aside _ _ now known_abc known_xyz = refl
aside _ _ now known_xyz known_abc = refl
aside _ _ now known_xyz known_xyz = refl

homes : Homes IsKnown (codes "d") home
homes = record { apart = apart; aside = aside }

empty_store-IsHomely : IsHomely table table-IsLawful IsKnown (codes "d") yaml home homes empty_store
unfolding get_path
empty_store-IsHomely = record {
  base_dir = refl;
  serializer = refl;
  path = λ j rel o e. cc;
  readable = λ p. refl;
}

load_by_hash-run_example :
    view table (run table ops empty_store) (codes "abc")
    ≡ replay ops (view table empty_store) (codes "abc")
unfolding store_code ◌==◌ run Succeeds
load_by_hash-run_example =
    load_by_hash-run table table-IsLawful IsKnown (codes "d") yaml home homes ops empty_store
      (codes "abc") ((known_abc, refl), ((known_xyz, refl), ((known_abc, refl), (known_xyz, tt))))
      (refl, (refl, (refl, (refl, tt)))) empty_store-IsHomely known_abc
