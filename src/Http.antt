-- ===== src/Http.antt =====
-- What the proxy uses of net/http: headers, requests, response writers.
pub mod Headers
pub mod Writer
pub mod Sent
use reelm.Base.{ℕ, Option, Text}
use reelm.Http.Headers.{Header}

-- *http.Request. `body` is none where reading it fails.
pub record Request : Type 0 where
  pub method : Text
  pub path : Text
  pub raw_query : Text
  pub host : Text
  pub header : Header
  pub body : Option Text
