-- ===== src/Proxy/Tests.antt =====
-- Runs of pkg/proxy/handler.go, over the store of pkg/store/store.go.
pub mod Once
use reelm.Base.{
  if◌then◌else◌, Bool, ◌++◌, ◌+◌, ◌≡◌, refl, true, false, none, some, [], ◌∷◌, Text, codes, ok,
}
use reelm.Base.Int.{pos}
use reelm.Hasher.{CanonicRequest}
use reelm.Http.{Request}
use reelm.Http.Headers.{set, Header, values}
use reelm.Http.Writer.{write_text, ResponseWriter, body}
use reelm.Store.Interface.{CassetteStore}
use reelm.Store.DiskStore.{store_code}
use reelm.Store.DiskStore.Implements.{disk_cassette_store}
use reelm.Store.Tests.{empty_store}
use reelm.Store.Tests.Codec.{table, table-IsLawful}
use reelm.Streaming.Recorder.{eof}
use reelm.Streaming.Replayer.{new_stream_replayer}
use reelm.Proxy.Forward.{copy_headers, is_hop_by_hop_header}
use reelm.Proxy.Forward.Laws.{is_one_hop, collected, values-copy_headers}
use reelm.Proxy.Middleware.{panic_text, recovery_middleware}
use reelm.Proxy.Middleware.Laws.{status_after, recovery_middleware-panic}
use reelm.Proxy.Upstream.{upstream_code}
use reelm.Proxy.Handler.{UpstreamResponse, Handler, Outside, World, new_cassette}
use reelm.Proxy.Handler.Serve.{handle_record, handle_replay, serve_http}
use reelm.Proxy.Handler.Quiet.{AtMostOne, serve_http-AtMostOne, serve_http-replay}
use reelm.Proxy.Handler.Answered.{IsAnswered, serve_http-IsAnswered}
use reelm.Proxy.Handler.RoundTrip.{next_client, handle_replay-handle_record}

abbrev pub store : CassetteStore
store = disk_cassette_store table table-IsLawful

abbrev pub canonic : CanonicRequest
canonic = record {
  namespace = codes "n";
  provider = codes "openai";
  endpoint = codes "/v1/x";
  method = codes "POST";
  model = codes "m";
  messages = [];
  parameters = [];
  tools = [];
  extra_fields = [];
}

abbrev pub request : Request
request = record {
  method = codes "POST";
  path = codes "/v1/x";
  raw_query = [];
  host = [];
  header = [];
  body = some (codes "{}");
}

abbrev pub handler_in : Text → Handler
handler_in mode = record {
  mode = mode;
  providers =
      record {
        name = codes "OpenAI";
        base_url = codes "http://u/";
        path_prefix = [];
        headers = [];
        strip_auth = false;
        extra_config = [];
      }
      ∷ [];
  registry = (codes "openai", λ r t. ok canonic) ∷ [];
  hash = λ c. some (codes "abcd");
  stream_replayer = new_stream_replayer (codes "instant");
}

abbrev pub answer : UpstreamResponse
answer = record {
  status_code = 200;
  header = (codes "Content-Type", codes "text/event-stream" ∷ []) ∷ [];
  body = codes "data: a\n\ndata: b\n\n";
  ending = eof;
}

abbrev pub outside : Outside
outside = record {
  quote = λ t. t;
  builds = λ m u. true;
  send = λ r. ok answer;
  clock = record {
    recorded_at = 1;
    latency = pos 2;
    started = 3;
    chunk = λ n. 4 + n;
    saved_at = 9;
  };
}

abbrev pub client : ResponseWriter
client = record { header = []; sent = none; trace = []; flusher = true; fails = λ n. false }

abbrev pub start : World store
start = record { store = empty_store; sent = []; writer = client }

handle_replay-handle_record_example :
    body
      (handle_replay store (handler_in (codes "auto")) outside (codes "abcd") (
        next_client store
          (handler_in (codes "auto"))
          outside
          (handle_record store
            (handler_in (codes "auto"))
            outside
            request
            (codes "openai")
            (codes "abcd")
            canonic
            (codes "{}")
            start)
          client)).writer
    ≡ codes "data: a\n\ndata: b\n\n"
unfolding store_code upstream_code new_cassette
handle_replay-handle_record_example =
    handle_replay-handle_record store (handler_in (codes "auto")) outside request (codes "openai")
      (codes "abcd") canonic (codes "{}") (codes "http://u/v1/x") (codes "instant") answer start
      client refl refl refl refl (λ n. refl) refl refl refl refl (λ n. refl)

serve_http-replay_example :
    ((serve_http store (handler_in (codes "Replay")) outside (λ r w. w) request start).sent ≡ [])
    × ((serve_http store (handler_in (codes "Replay")) outside (λ r w. w) request start).store
        ≡ empty_store)
unfolding upstream_code
serve_http-replay_example =
    serve_http-replay store (handler_in (codes "Replay")) outside (λ r w. w) request start refl refl

serve_http-AtMostOne_example :
    AtMostOne request start
      (serve_http store (handler_in (codes "auto")) outside (λ r w. w) request start)
unfolding upstream_code
serve_http-AtMostOne_example =
    serve_http-AtMostOne store (handler_in (codes "auto")) outside (λ r w. w) request start refl

abbrev two_headers : Header
two_headers =
    (codes "Keep-Alive", codes "5" ∷ []) ∷ (codes "Accept", codes "*" ∷ codes "+" ∷ []) ∷ []

values-copy_headers_example : values (codes "accept") (copy_headers two_headers []) ≡ (
    if is_one_hop (codes "accept")
    then values (codes "accept") []
    else values (codes "accept") [] ++ collected (codes "accept") two_headers)
values-copy_headers_example = values-copy_headers (codes "accept") two_headers []

-- A handler that panics after its first write.
abbrev panics : Request → ResponseWriter → Bool × ResponseWriter
panics r w = (true, (write_text (codes "x") w).1)

recovery_middleware-panic_example :
    ((recovery_middleware panics request client).sent
      ≡ status_after (some (200, [])) (set (codes "Content-Type") (codes "application/json") []))
    × (body (recovery_middleware panics request client) ≡ codes "x" ++ panic_text)
unfolding write_text
recovery_middleware-panic_example = recovery_middleware-panic panics request client refl (λ n. refl)

serve_http-IsAnswered_example :
    IsAnswered store
      (handler_in (codes "record"))
      outside
      (serve_http store (handler_in (codes "record")) outside (λ r w. w) request start)
unfolding upstream_code
serve_http-IsAnswered_example =
    serve_http-IsAnswered store (handler_in (codes "record")) outside (λ r w. w) request start refl
