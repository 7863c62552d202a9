-- ===== src/Proxy/Tests/Once.antt =====
-- A run of pkg/proxy/handler.go in auto mode: a request, and another with its hash.
use reelm.Base.{◌≡◌, refl, [], ◌∷◌, codes, ok}
use reelm.Http.{Request}
use reelm.Http.Writer.{body}
use reelm.Providers.Registry.{registry_code}
use reelm.Proxy.Handler.{World, new_cassette}
use reelm.Proxy.Handler.Once.{IsRouted, Records, serve_http-again}
use reelm.Proxy.Handler.RoundTrip.{next_client}
use reelm.Proxy.Handler.Serve.{serve_http}
use reelm.Proxy.Tests.{store, request, handler_in, outside, answer, canonic, client, start}
use reelm.Proxy.Upstream.{upstream_code}
use reelm.Store.DiskStore.{store_code}

-- The second request has a header more.
abbrev second : Request
second = record request { header = (codes "Accept", codes "*" ∷ []) ∷ [] }

routed : IsRouted store (handler_in (codes "Auto")) outside request (codes "{}") (codes "abcd")
unfolding upstream_code registry_code
routed = record {
  provider = codes "openai";
  canonicalizer = λ r t. ok canonic;
  canonic = canonic;
  method = refl;
  path = refl;
  detects = refl;
  reads = refl;
  canonicalizes = refl;
  hashes = refl;
}

routed_again : IsRouted store (handler_in (codes "Auto")) outside second (codes "{}") (codes "abcd")
unfolding upstream_code registry_code
routed_again = record {
  provider = codes "openai";
  canonicalizer = λ r t. ok canonic;
  canonic = canonic;
  method = refl;
  path = refl;
  detects = refl;
  reads = refl;
  canonicalizes = refl;
  hashes = refl;
}

records :
    Records store
      (handler_in (codes "Auto"))
      outside
      request
      (codes "{}")
      (codes "abcd")
      (codes "http://u/v1/x")
      (codes "instant")
      routed
      answer
      start
unfolding routed upstream_code registry_code store_code new_cassette
records = record {
  missing = refl;
  resolves = refl;
  builds = refl;
  sends = refl;
  whole = refl;
  steady = λ n. refl;
  saved = refl;
  readable = refl;
}

-- The world after the first request
abbrev first : World store
first = serve_http store (handler_in (codes "Auto")) outside (λ r w. w) request start

abbrev then_second : World store
then_second =
    serve_http store (handler_in (codes "Auto")) outside (λ r w. w) second
      (next_client store (handler_in (codes "Auto")) outside first client)

serve_http-again_example :
    (then_second.sent ≡ first.sent)
    × (then_second.store ≡ first.store)
    × (body then_second.writer ≡ codes "data: a\n\ndata: b\n\n")
unfolding upstream_code registry_code
serve_http-again_example =
    serve_http-again store (handler_in (codes "Auto")) outside request (codes "{}") (codes "abcd")
      (codes "http://u/v1/x") (codes "instant") routed answer start (λ r w. w) outside second
      (codes "{}") client routed_again refl refl records refl (λ n. refl)
