-- ===== src/Store/Interface.antt =====
-- pkg/store/store.go: the interface Store, as far as the proxy calls it, with what a client may
-- rely on: a cassette that was saved without an error is the one that its hash loads, as long as
-- its file can be read.
use reelm.Base.{ℕ, ◌≡◌, Bool, true, Option, some, Text}
use reelm.Store.Cassette.{Cassette}

pub record CassetteStore : Type 1 where
  pub State : Type 0
  -- LoadByHash; none is an error or a nil cassette
  pub load : Text → State → Option Cassette
  -- Save at the clock's reading, with whether it returned no error
  pub save : ℕ → Cassette → State → Bool × State
  pub IsReadable : Cassette → State → Type 0
  pub load-save :
      (now : ℕ) (c : Cassette) (s : State)
      → (save now c s).0 ≡ true
      → IsReadable c s
      → load c.hash (save now c s).1 ≡ some c
