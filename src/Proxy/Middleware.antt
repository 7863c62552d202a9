-- ===== src/Proxy/Middleware.antt =====
-- pkg/proxy/middleware.go. A handler that runs under RecoveryMiddleware returns whether it panicked,
-- with the client's writer as it then is; `fresh` is a new UUID.
pub mod Laws
use reelm.Base.{Bool, true, false, [], Text, codes, ◌==◌, if◌then◌else◌}
use reelm.Http.{Request}
use reelm.Http.Headers.{get, set}
use reelm.Http.Writer.{ResponseWriter, set_header, write_header, write_text}

abbrev pub request_id_header : Text
request_id_header = codes "X-Reelm-Request-Id"

abbrev pub request_id : Text → Request → Text
request_id fresh r =
    let req_id = get request_id_header r.header in if req_id == [] then fresh else req_id

-- RequestIDMiddleware
unfoldable pub request_id_middleware {ℓ} :
    {A : Type ℓ} → Text → (Request → ResponseWriter → A) → Request → ResponseWriter → A
request_id_middleware fresh next r w =
    let req_id = request_id fresh r in
    next (record r { header = set request_id_header req_id r.header })
      (set_header request_id_header req_id w)

abbrev pub panic_text : Text
panic_text = codes "{\"error\":{\"message\":\"internal proxy error\",\"type\":\"proxy_error\"}}"

-- The deferred function of RecoveryMiddleware
unfoldable pub recovered : Bool → ResponseWriter → ResponseWriter
recovered false w = w
recovered true w =
    (write_text panic_text
      (write_header 502 (set_header (codes "Content-Type") (codes "application/json") w))).1

-- RecoveryMiddleware
unfoldable pub recovery_middleware :
    (Request → ResponseWriter → Bool × ResponseWriter) → Request → ResponseWriter → ResponseWriter
recovery_middleware next r w = let (panicked, v) = next r w in recovered panicked v
