-- ===== src/Testutil/Tests.antt =====
-- Runs of internal/testutil/mock_upstream.go.
use reelm.Base.{
  ◌≡◌, refl, true, false, Option, none, some, List, [], ◌∷◌, Text, codes, ◌==◌, map, ok,
  if◌then◌else◌,
}
use reelm.Hasher.{bool, str, end, field}
use reelm.Http.{Request}
use reelm.Proxy.Handler.Serve.{forward}
use reelm.Proxy.Tests.{store, canonic, request, handler_in, start}
use reelm.Providers.Shared.{field_of}
use reelm.Store.Cassette.{Cassette}
use reelm.Streaming.Recorder.Events.{texts}
use reelm.Testutil.{MockUpstream, Endpoint, chat, Outside, chat_chunks, serve}
use reelm.Testutil.Recorded.{fresh, answer, sent_text, forward-serve}

-- A mux that knows its patterns as whole paths
abbrev find : List (Text × Endpoint) → Text → Option Endpoint
find [] p = none
find ((k, e) ∷ l) p = if k == p then some e else find l p

-- A body that asks for a stream
abbrev streaming : Outside
streaming = record {
  clock = λ n. 1700000000000000000;
  decode = λ t. field (codes "model") (str (codes "m")) (field (codes "stream") (bool true) end);
  encode = λ v. some (codes "{}");
  find = find;
  not_found = λ w. w;
}

abbrev completion : Request
completion = record request { path = codes "/v1/chat/completions" }

abbrev mock : MockUpstream
mock = record { url = codes "http://u"; call_count = 0 }

abbrev mocked : reelm.Proxy.Handler.Outside
mocked = record reelm.Proxy.Tests.outside {
  send = λ u. ok (answer (serve streaming completion mock (fresh true (λ n. false))).1);
}

forward-serve_example :
    (c : Cassette) × ((forward store
        (handler_in (codes "record"))
        mocked
        completion
        (codes "openai")
        (codes "h")
        canonic
        (codes "{}")
        (ok (codes "http://u"))
        start).store
      ≡ (store.save 9 c start.store).1)
    × (c.response.is_stream ≡ true)
    × (texts c.response.chunks ≡ map sent_text chat_chunks)
unfolding ◌==◌ field_of
forward-serve_example =
    forward-serve store (handler_in (codes "record")) mocked completion (codes "openai") (codes "h")
      canonic (codes "{}") (codes "http://u") start streaming completion mock chat true (λ n. false)
      refl refl (λ n. refl) refl refl (λ n. refl)
