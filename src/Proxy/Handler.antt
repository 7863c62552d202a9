-- ===== src/Proxy/Handler.antt =====
-- pkg/proxy/handler.go. The logger is left out. What a call needs from outside stands in `Outside`;
-- a call changes the store, the list of the requests that went upstream and the client's writer.
pub mod Serve
pub mod Quiet
pub mod Answered
pub mod Once
pub mod RoundTrip
use reelm.Base.{
  ℕ, Bool, true, false, not, ◌||◌, ◌&&◌, Option, none, some, List, [], ◌∷◌, ◌++◌, Text, codes, ◌==◌,
  eqb, contains, Fallible, ok, failed, if◌then◌else◌,
}
use reelm.Base.Int.{ℤ}
use reelm.Config.{Provider}
use reelm.Hasher.{CanonicRequest}
use reelm.Http.{Request}
use reelm.Http.Headers.{Header, get, set, del}
use reelm.Http.Writer.{ResponseWriter, set_header, write_header, write_text}
use reelm.Providers.Registry.{Registry}
use reelm.Proxy.Forward.{copy_headers, first_values, is_hop_by_hop_header}
use reelm.Proxy.Upstream.{resolve_upstream_url}
use reelm.Store.Cassette.{
  Cassette, CassetteRequest, CassetteResponse, StreamChunk, current_cassette_version,
}
use reelm.Store.Interface.{CassetteStore}
use reelm.Streaming.Recorder.{Ending, eof, broken, Pipe, new_stream_recorder, pipe_and_record}
use reelm.Streaming.Replayer.{StreamReplayer, replay}

abbrev pub Canonicalizer : Type 0
Canonicalizer = Request → Text → Fallible CanonicRequest

pub record UpstreamRequest : Type 0 where
  pub method : Text
  pub url : Text
  pub header : Header
  pub body : Text

pub record UpstreamResponse : Type 0 where
  pub status_code : ℕ
  pub header : Header
  pub body : Text
  pub ending : Ending

-- Handler, with the settings that it reads and the hasher's function
pub record Handler : Type 0 where
  pub mode : Text
  pub providers : List Provider
  pub registry : Registry Canonicalizer
  pub hash : CanonicRequest → Option Text
  pub stream_replayer : StreamReplayer

-- The readings of the clock in one request.
pub record Clock : Type 0 where
  pub recorded_at : ℕ
  pub latency : ℤ
  pub started : ℕ
  pub chunk : ℕ → ℕ
  pub saved_at : ℕ

-- fmt's %q, http.NewRequest's judgement of a method and a URL, and httpClient.Do, which follows
-- redirects: `send` is what it returns in the end.
pub record Outside : Type 0 where
  pub quote : Text → Text
  pub builds : Text → Text → Bool
  pub send : UpstreamRequest → Fallible UpstreamResponse
  pub clock : Clock

pub record World (s : CassetteStore) : Type 0 where
  pub store : s.State
  -- the requests with which httpClient.Do was called
  pub sent : List UpstreamRequest
  pub writer : ResponseWriter

-- http.Error
unfoldable pub http_error : Text → ℕ → ResponseWriter → ResponseWriter
http_error message code w =
    let v = record w { header = del (codes "Content-Length") w.header } in
    let u =
      set_header (codes "X-Content-Type-Options") (codes "nosniff")
        (set_header (codes "Content-Type") (codes "text/plain; charset=utf-8") v) in
    (write_text (message ++ 10 ∷ []) (write_header code u)).1

-- A JSON text `{"error":"..."}`
abbrev pub error_text : Text → Text
error_text e = codes "{\"error\":\"" ++ (e ++ codes "\"}")

unfoldable pub set_replay_headers : List (Text × Text) → ResponseWriter → ResponseWriter
set_replay_headers [] w = w
set_replay_headers ((k, v) ∷ hs) w =
    set_replay_headers hs (if not (is_hop_by_hop_header k) then set_header k v w else w)

abbrev pub status_or_ok : ℕ → ℕ
status_or_ok code = if eqb code 0 then 200 else code

-- len(chunks) > 0
abbrev pub has_chunks : List StreamChunk → Bool
has_chunks [] = false
has_chunks (c ∷ cs) = true

-- The two ways of serveCassette to answer, once the headers are set.
unfoldable pub send_cassette : StreamReplayer → CassetteResponse → ResponseWriter → ResponseWriter
send_cassette sr resp w =
    let v = write_header (status_or_ok resp.status_code) w in
    if resp.is_stream && has_chunks resp.chunks
    then (replay sr resp.chunks v).1
    else (write_text resp.body v).1

-- serveCassette
unfoldable pub serve_cassette : StreamReplayer → Cassette → Text → ResponseWriter → ResponseWriter
serve_cassette sr c cache_status w = send_cassette sr c.response (
    set_replay_headers c.response.headers (
      set_header (codes "X-Reelm-Hash") c.hash (set_header (codes "X-Reelm-Cache") cache_status w)))

-- The answer of handleReplay to a miss
unfoldable pub serve_miss : Text → ResponseWriter → ResponseWriter
serve_miss hash w =
    let v =
      set_header (codes "Content-Type") (codes "application/json")
        (set_header (codes "X-Reelm-Cache") (codes "MISS") w) in
    let message =
      codes "{\"error\":{\"message\":\"Cassette not found in replay mode for hash "
      ++ (hash
          ++ (codes "\",\"type\":\"reelm_cache_miss\",\"hash\":\"" ++ (hash ++ codes "\"}}"))) in
    (write_text message (write_header 404 v)).1

-- The cassette that handleRecord builds
unfoldable pub new_cassette :
    Clock → Request → Text → Text → CanonicRequest → Text → CassetteResponse → Cassette
new_cassette clock r provider hash canonic body resp = record {
  version = current_cassette_version;
  hash = hash;
  namespace = canonic.namespace;
  provider = provider;
  endpoint = r.path;
  recorded_at = clock.recorded_at;
  expires_at = none;
  request = record { method = r.method; path = r.path; headers = []; body = body };
  response = resp;
  metadata = [];
}

abbrev pub is_event_stream : UpstreamResponse → Bool
is_event_stream resp = contains (get (codes "Content-Type") resp.header) (codes "text/event-stream")

-- The response part of a streaming cassette
unfoldable pub stream_response : Clock → UpstreamResponse → Pipe → CassetteResponse
stream_response clock resp p = record {
  status_code = resp.status_code;
  headers = first_values resp.header;
  body = p.recorder.full_body;
  chunks = p.recorder.chunks;
  latency = clock.latency;
  is_stream = true;
}

-- The response part of any other cassette
unfoldable pub plain_response : Clock → UpstreamResponse → CassetteResponse
plain_response clock resp = record {
  status_code = resp.status_code;
  headers = first_values resp.header;
  body = resp.body;
  chunks = [];
  latency = clock.latency;
  is_stream = false;
}
