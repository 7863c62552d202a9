-- ===== src/Proxy/Handler/RoundTrip.antt =====
-- pkg/proxy/handler.go: what was recorded is what a replay answers.
use reelm.Base.{
  ℕ, ◌≡◌, refl, ap, ◌∙◌, Bool, true, false, ◌&&◌, some, List, [], ◌∷◌, ◌++◌, Text, codes, Fallible,
  ok, if◌then◌else◌, Bool-cases, inl, inr, ◌⊎◌,
}
use reelm.Hasher.{CanonicRequest}
use reelm.Http.{Request}
use reelm.Http.Writer.{
  ResponseWriter, Event, body, written, write_header, write_text, set_header, body-write_text,
  write_text_done, write_header_keeps, trace-write_header,
}
use reelm.Proxy.Upstream.{resolve_upstream_url}
use reelm.Store.Cassette.{Cassette, CassetteResponse}
use reelm.Store.Interface.{CassetteStore}
use reelm.Streaming.Recorder.{eof, new_stream_recorder, pipe_and_record}
use reelm.Streaming.Recorder.Transparent.{events}
use reelm.Streaming.Recorder.Complete.{pipe_and_record-IsComplete, events-pipe_and_record}
use reelm.Streaming.Replayer.{new_stream_replayer}
use reelm.Streaming.Replayer.Faithful.{body-replay}
use reelm.Proxy.Forward.{is_hop_by_hop_header}
use reelm.Proxy.Handler.{
  UpstreamResponse, Handler, Outside, World, set_replay_headers, status_or_ok, has_chunks,
  send_cassette, serve_cassette, new_cassette, is_event_stream, stream_response, plain_response,
}
use reelm.Proxy.Handler.Serve.{
  replay_loaded, handle_replay, save_cassette, relay_stream, relay_plain, recorded_headers, relay,
  upstream_request, forward, handle_record,
}

-- Everything of a writer but its headers.
record SameWire (v w : ResponseWriter) : Type 0 where
  trace : w.trace ≡ v.trace
  fails : w.fails ≡ v.fails
  flusher : w.flusher ≡ v.flusher

set_replay_headers-SameWire :
    (hs : List (Text × Text)) (w : ResponseWriter) → SameWire w (set_replay_headers hs w)
unfolding set_replay_headers set_header
set_replay_headers-SameWire [] w = record { trace = refl; fails = refl; flusher = refl }
set_replay_headers-SameWire ((k, v) ∷ hs) w = elim (Bool-cases (is_hop_by_hop_header k)) [
  | inl e ↦ simp e (set_replay_headers-SameWire hs w)
  | inr e ↦ simp e (
      let x = set_replay_headers-SameWire hs (set_header k v w) in
      record { trace = x.trace; fails = x.fails; flusher = x.flusher })
]

-- A response whose body, and whose chunks if it is a stream, hold the text.
pub record Holds (t : Text) (resp : CassetteResponse) : Type 0 where
  plain : resp.body ≡ t
  stream : (resp.is_stream ≡ false) ⊎ (events resp.chunks ≡ t)

body-write :
    (t : Text) (w : ResponseWriter)
    → ((n : ℕ) → w.fails n ≡ false)
    → body (write_text t w).1 ≡ body w ++ t
body-write t w h = body-write_text t w ∙ simp (write_text_done t w h)

body-send_cassette :
    (mode t : Text) (resp : CassetteResponse) (w : ResponseWriter)
    → Holds t resp
    → w.flusher ≡ true
    → ((n : ℕ) → w.fails n ≡ false)
    → body (send_cassette (new_stream_replayer mode) resp w) ≡ body w ++ t
unfolding send_cassette
body-send_cassette mode t resp w k fl h =
    let code = status_or_ok resp.status_code in
    let v = write_header code w in
    let keep = write_header_keeps code w in
    let same : body v ≡ body w = ap written (trace-write_header code w) in
    let steady : (n : ℕ) → v.fails n ≡ false = λ n. ap (λ (f : ℕ → Bool). f n) keep.0 ∙ h n in
    let whole : body (write_text resp.body v).1 ≡ body w ++ t =
      body-write resp.body v steady ∙ (λ i. same i ++ k.plain i) in
    elim k.stream [
      | inl e ↦ simp e whole
      | inr e ↦ elim (Bool-cases (resp.is_stream && has_chunks resp.chunks)) [
        | inl f ↦
            simp f (body-replay mode resp.chunks v (keep.1 ∙ fl) steady ∙ (λ i. same i ++ e i))
        | inr f ↦ simp f whole
      ]
    ]

pub body-serve_cassette :
    (mode t status : Text) (c : Cassette) (w : ResponseWriter)
    → Holds t c.response
    → w.flusher ≡ true
    → ((n : ℕ) → w.fails n ≡ false)
    → body (serve_cassette (new_stream_replayer mode) c status w) ≡ body w ++ t
unfolding serve_cassette set_header
body-serve_cassette mode t status c w k fl h =
    let x =
      set_replay_headers-SameWire c.response.headers
        (set_header (codes "X-Reelm-Hash") c.hash (set_header (codes "X-Reelm-Cache") status w)) in
    body-send_cassette mode t c.response _ k (x.flusher ∙ fl)
      (λ n. ap (λ (f : ℕ → Bool). f n) x.fails ∙ h n)
    ∙ ap (λ (es : List Event). written es ++ t) x.trace

module _ (s : CassetteStore) (h : Handler) (o : Outside) where
  -- The response that handleRecord puts in the cassette.
  abbrev pub recorded_response : UpstreamResponse → ResponseWriter → CassetteResponse
  recorded_response resp v =
      if is_event_stream resp
      then stream_response o.clock resp
          (pipe_and_record o.clock.chunk resp.body resp.ending (new_stream_recorder o.clock.started)
            (write_header resp.status_code (recorded_headers s h o resp v))).1
      else plain_response o.clock resp

  abbrev pub recorded :
      Request → Text → Text → CanonicRequest → Text → UpstreamResponse → ResponseWriter → Cassette
  recorded r provider hash canonic body resp v =
      new_cassette o.clock r provider hash canonic body (recorded_response resp v)

  relay-store :
      (r : Request) (provider hash : Text) (canonic : CanonicRequest) (body : Text)
      (resp : UpstreamResponse) (w : World s)
      → resp.ending ≡ eof
      → (relay s h o r provider hash canonic body (ok resp) w).store
        ≡ (s.save o.clock.saved_at (recorded r provider hash canonic body resp w.writer) w.store).1
  unfolding relay relay_stream relay_plain save_cassette
  relay-store r provider hash canonic body resp w e = elim (Bool-cases (is_event_stream resp)) [
    | inl f ↦ simp f
    | inr f ↦ simp f (rw e refl)
  ]

  pub recorded_response-Holds :
      (resp : UpstreamResponse) (v : ResponseWriter)
      → resp.ending ≡ eof
      → ((n : ℕ) → v.fails n ≡ false)
      → Holds resp.body (recorded_response resp v)
  unfolding stream_response plain_response set_header
  recorded_response-Holds resp v e k = elim (Bool-cases (is_event_stream resp)) [
    | inl f ↦
        let u = write_header resp.status_code (recorded_headers s h o resp v) in
        let keep = write_header_keeps resp.status_code (recorded_headers s h o resp v) in
        let steady : (n : ℕ) → u.fails n ≡ false = λ n. ap (λ (g : ℕ → Bool). g n) keep.0 ∙ k n in
        simp (f, e)
          (record {
            plain =
                (pipe_and_record-IsComplete o.clock.chunk resp.body eof o.clock.started u steady).2;
            stream = inr (events-pipe_and_record o.clock.chunk resp.body o.clock.started u steady);
          })
    | inr f ↦ simp f (record { plain = refl; stream = inl refl })
  ]

  -- The store after a recording, with another client.
  abbrev pub next_client : World s → ResponseWriter → World s
  next_client w v = record w { writer = v }

  pub forward-store :
      (r : Request) (provider hash : Text) (canonic : CanonicRequest) (body url : Text)
      (resp : UpstreamResponse) (w : World s)
      → o.builds r.method url ≡ true
      → o.send (upstream_request s h o r url body) ≡ ok resp
      → resp.ending ≡ eof
      → (forward s h o r provider hash canonic body (ok url) w).store
        ≡ (s.save o.clock.saved_at (recorded r provider hash canonic body resp w.writer) w.store).1
  unfolding forward
  forward-store r provider hash canonic body url resp w builds sends e =
      simp (builds, sends) (relay-store r provider hash canonic body resp _ e)

  -- A hash whose cassette the store loads is replayed with that cassette's bytes.
  body-handle_replay :
      (hash mode t : Text) (c : Cassette) (w : World s)
      → h.stream_replayer ≡ new_stream_replayer mode
      → s.load hash w.store ≡ some c
      → Holds t c.response
      → w.writer.flusher ≡ true
      → ((n : ℕ) → w.writer.fails n ≡ false)
      → body (handle_replay s h o hash w).writer ≡ body w.writer ++ t
  unfolding handle_replay replay_loaded
  body-handle_replay hash mode t c w sr found k fl steady =
      simp (found, sr) (body-serve_cassette mode t (codes "HIT") c w.writer k fl steady)

  -- An answer of the upstream that arrives whole, is recorded for a client whose writes succeed and
  -- is saved without an error, in a file that can be read, is what the replay of its hash sends:
  -- the next client, if it can flush and its writes succeed, gets the upstream's bytes, be the
  -- answer an event stream or not.
  pub handle_replay-handle_record :
      (r : Request) (provider hash : Text) (canonic : CanonicRequest) (request_body url mode : Text)
      (resp : UpstreamResponse) (w : World s) (v : ResponseWriter)
      → resolve_upstream_url o.quote h.providers provider r.path r.raw_query ≡ ok url
      → o.builds r.method url ≡ true
      → o.send (upstream_request s h o r url request_body) ≡ ok resp
      → resp.ending ≡ eof
      → ((n : ℕ) → w.writer.fails n ≡ false)
      → (s.save o.clock.saved_at
          (recorded r provider hash canonic request_body resp w.writer)
          w.store).0
        ≡ true
      → s.IsReadable (recorded r provider hash canonic request_body resp w.writer) w.store
      → h.stream_replayer ≡ new_stream_replayer mode
      → v.flusher ≡ true
      → ((n : ℕ) → v.fails n ≡ false)
      → body
          (handle_replay s h o hash
            (next_client (handle_record s h o r provider hash canonic request_body w) v)).writer
        ≡ body v ++ resp.body
  unfolding handle_record new_cassette
  handle_replay-handle_record r provider hash canonic request_body url mode resp w v resolves builds
        sends e k saved readable sr fl steady =
      let c = recorded r provider hash canonic request_body resp w.writer in
      let store =
        ap (λ (q : Fallible Text). (forward s h o r provider hash canonic request_body q w).store)
          resolves
        ∙ forward-store r provider hash canonic request_body url resp w builds sends e in
      body-handle_replay hash mode resp.body c _ sr
        (ap (s.load hash) store ∙ s.load-save o.clock.saved_at c w.store saved readable)
        (recorded_response-Holds resp w.writer e k) fl steady
