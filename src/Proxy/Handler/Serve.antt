-- ===== src/Proxy/Handler/Serve.antt =====
-- pkg/proxy/handler.go: handleReplay, handleRecord and ServeHTTP.
use reelm.Base.{
  not, ◌||◌, Option, none, some, [], ◌∷◌, ◌++◌, Text, codes, ◌==◌, Fallible, ok, failed, to_lower,
  if◌then◌else◌,
}
use reelm.Config.{mode_record, mode_replay, mode_auto}
use reelm.Hasher.{CanonicRequest}
use reelm.Http.{Request}
use reelm.Http.Writer.{ResponseWriter, set_header, write_header, write_text}
use reelm.Providers.Registry.{detect_provider}
use reelm.Proxy.Forward.{copy_headers}
use reelm.Proxy.Upstream.{resolve_upstream_url}
use reelm.Store.Cassette.{Cassette}
use reelm.Store.Interface.{CassetteStore}
use reelm.Streaming.Recorder.{Ending, eof, broken, new_stream_recorder, pipe_and_record}
use reelm.Proxy.Handler.{
  Canonicalizer, UpstreamRequest, UpstreamResponse, Handler, Outside, World, http_error, error_text,
  serve_cassette, serve_miss, new_cassette, is_event_stream, stream_response, plain_response,
}

module _ (s : CassetteStore) (h : Handler) (o : Outside) where
  abbrev pub on_writer : (ResponseWriter → ResponseWriter) → World s → World s
  on_writer f w = record w { writer = f w.writer }

  -- The end of handleReplay, from what LoadByHash returned
  unfoldable pub replay_loaded : Text → Option Cassette → World s → World s
  replay_loaded hash none w = on_writer (serve_miss hash) w
  replay_loaded hash (some c) w = on_writer (serve_cassette h.stream_replayer c (codes "HIT")) w

  -- handleReplay
  unfoldable pub handle_replay : Text → World s → World s
  handle_replay hash w = replay_loaded hash (s.load hash w.store) w

  -- store.Save, whose error is only logged
  unfoldable pub save_cassette : Cassette → World s → World s
  save_cassette c w = record w { store = (s.save o.clock.saved_at c w.store).1 }

  -- handleRecord for an event stream, from the headers on
  unfoldable pub relay_stream :
      Request → Text → Text → CanonicRequest → Text → UpstreamResponse → World s → World s
  relay_stream r provider hash canonic body resp w =
      let v = write_header resp.status_code w.writer in
      let p =
        (pipe_and_record o.clock.chunk resp.body resp.ending (new_stream_recorder o.clock.started)
          v).1 in
      save_cassette
        (new_cassette o.clock r provider hash canonic body (stream_response o.clock resp p))
        (record w { writer = p.writer })

  -- handleRecord for any other response, from the reading of its body on
  unfoldable pub relay_plain :
      Request → Text → Text → CanonicRequest → Text → UpstreamResponse → Ending → World s → World s
  relay_plain r provider hash canonic body resp broken w =
      on_writer (http_error (error_text (codes "failed to read upstream response body")) 502) w
  relay_plain r provider hash canonic body resp eof w =
      on_writer (λ v. (write_text resp.body (write_header resp.status_code v)).1)
        (save_cassette
          (new_cassette o.clock r provider hash canonic body (plain_response o.clock resp)) w)

  abbrev pub recorded_headers : UpstreamResponse → ResponseWriter → ResponseWriter
  recorded_headers resp v =
      let u = set_header (codes "X-Reelm-Cache") (codes "RECORDED") v in
      record u { header = copy_headers resp.header u.header }

  -- handleRecord, from what the client's call returned
  unfoldable pub relay :
      Request → Text → Text → CanonicRequest → Text → Fallible UpstreamResponse → World s → World s
  relay r provider hash canonic body (failed e) w =
      on_writer (http_error (error_text (codes "upstream request failed: " ++ e)) 502) w
  relay r provider hash canonic body (ok resp) w =
      let v = on_writer (recorded_headers resp) w in
      if is_event_stream resp
      then relay_stream r provider hash canonic body resp v
      else relay_plain r provider hash canonic body resp resp.ending v

  abbrev pub upstream_request : Request → Text → Text → UpstreamRequest
  upstream_request r url body = record {
    method = r.method;
    url = url;
    header = copy_headers r.header [];
    body = body;
  }

  -- handleRecord, from the URL on
  unfoldable pub forward :
      Request → Text → Text → CanonicRequest → Text → Fallible Text → World s → World s
  forward r provider hash canonic body (failed e) w =
      on_writer (http_error (error_text (codes "upstream resolution failed: " ++ e)) 502) w
  forward r provider hash canonic body (ok url) w =
      if not (o.builds r.method url)
      then on_writer (http_error (error_text (codes "failed to build upstream request")) 500) w
      else let up = upstream_request r url body in
        relay r provider hash canonic body (o.send up) (record w { sent = w.sent ++ up ∷ [] })

  -- handleRecord
  unfoldable pub handle_record : Request → Text → Text → CanonicRequest → Text → World s → World s
  handle_record r provider hash canonic body w =
      forward r provider hash canonic body
        (resolve_upstream_url o.quote h.providers provider r.path r.raw_query) w

  -- The auto mode, from what LoadByHash returned
  unfoldable pub auto_loaded :
      Request → Text → Text → CanonicRequest → Text → Option Cassette → World s → World s
  auto_loaded r provider hash canonic body (some c) w =
      on_writer (serve_cassette h.stream_replayer c (codes "HIT")) w
  auto_loaded r provider hash canonic body none w = handle_record r provider hash canonic body w

  -- Step 6 of ServeHTTP
  unfoldable pub by_mode : Request → Text → Text → CanonicRequest → Text → World s → World s
  by_mode r provider hash canonic body w =
      let mode = to_lower h.mode in
      if mode == mode_replay
      then handle_replay hash w
      else if mode == mode_record
      then handle_record r provider hash canonic body w
      else if mode == mode_auto
      then auto_loaded r provider hash canonic body (s.load hash w.store) w
      else on_writer (http_error (error_text (codes "invalid proxy operating mode")) 500) w

  -- Step 5: the hash, and the header that shows it
  unfoldable pub hashed : Request → Text → CanonicRequest → Text → Option Text → World s → World s
  hashed r provider canonic body none w =
      on_writer (http_error (error_text (codes "failed to compute request hash")) 500) w
  hashed r provider canonic body (some hash) w =
      by_mode r provider hash canonic body (on_writer (set_header (codes "X-Reelm-Hash") hash) w)

  unfoldable pub canonicalized : Request → Text → Text → Fallible CanonicRequest → World s → World s
  canonicalized r provider body (failed e) w =
      on_writer (http_error (error_text (codes "canonicalization failed: " ++ e)) 400) w
  canonicalized r provider body (ok canonic) w = hashed r provider canonic body (h.hash canonic) w

  -- Step 4: the request's body
  unfoldable pub buffered : Request → Text → Canonicalizer → Option Text → World s → World s
  buffered r provider canonicalizer none w =
      on_writer (http_error (error_text (codes "failed to read request body")) 400) w
  buffered r provider canonicalizer (some body) w =
      canonicalized r provider body (canonicalizer r body) w

  -- Step 3: the provider
  unfoldable pub detected : Request → Fallible (Text × Canonicalizer) → World s → World s
  detected r (failed e) w =
      on_writer (http_error (error_text (codes "unknown provider: " ++ e)) 400) w
  detected r (ok (provider, canonicalizer)) w = buffered r provider canonicalizer r.body w

  -- Step 2: the health checks
  unfoldable pub serve_health : ResponseWriter → ResponseWriter
  serve_health v =
      (write_text (codes "{\"status\":\"ok\"}")
        (write_header 200 (set_header (codes "Content-Type") (codes "application/json") v))).1

  -- ServeHTTP; `connect` is HandleConnect.
  unfoldable pub serve_http : (Request → World s → World s) → Request → World s → World s
  serve_http connect r w =
      if r.method == codes "CONNECT"
      then connect r w
      else if r.path == codes "/healthz" || r.path == codes "/readyz"
      then on_writer serve_health w
      else detected r (detect_provider o.quote (some r) h.registry) w
