-- ===== src/Store/Cassette.antt =====
-- pkg/store/cassette.go: the recorded interaction. A time is a number of nanoseconds; a duration
-- is a signed number of them.
use reelm.Base.{ℕ, Bool, Option, List, Text}
use reelm.Base.Int.{ℤ}

-- CurrentCassetteVersion
abbrev pub current_cassette_version : ℕ
current_cassette_version = 1

pub record CassetteRequest : Type 0 where
  pub method : Text
  pub path : Text
  pub headers : List (Text × Text)
  pub body : Text

-- The field `Data` is `event`, for `data` is a word of the language.
pub record StreamChunk : Type 0 where
  pub event : Text
  pub delay : ℤ

pub record CassetteResponse : Type 0 where
  pub status_code : ℕ
  pub headers : List (Text × Text)
  pub body : Text
  pub chunks : List StreamChunk
  pub latency : ℤ
  pub is_stream : Bool

pub record Cassette : Type 0 where
  pub version : ℕ
  pub hash : Text
  pub namespace : Text
  pub provider : Text
  pub endpoint : Text
  pub recorded_at : ℕ
  pub expires_at : Option ℕ
  pub request : CassetteRequest
  pub response : CassetteResponse
  pub metadata : List (Text × Text)

pub record CassetteMeta : Type 0 where
  pub hash : Text
  pub namespace : Text
  pub provider : Text
  pub endpoint : Text
  pub recorded_at : ℕ
  pub file_path : Text
