-- ===== src/Testutil/Recorded.antt =====
-- internal/testutil/mock_upstream.go under the recorder of the proxy.
use mathlib.Core.List.{append_assoc, append-nil}
use reelm.Base.{
  ℕ, ◌≡◌, refl, sym, ap, ◌∙◌, Bool, true, false, Option, none, some, List, [], ◌∷◌, ◌++◌, Text,
  codes, ◌==◌, concat, contains, map, All, ok, has_prefix,
}
use reelm.Http.{Request}
use reelm.Http.Headers.{Header, get, values, canonical_key, values_at, put_at}
use reelm.Http.Writer.{
  ResponseWriter, body, sleep, log, write_header, write_text, set_header, written-append,
  body-write_text, write_text_done, write_text_keeps, write_header_keeps,
}
use reelm.Hasher.{CanonicRequest}
use reelm.Proxy.Handler.{
  UpstreamResponse, Handler, World, is_event_stream, new_cassette, stream_response,
}
use reelm.Proxy.Handler.RoundTrip.{recorded, recorded_response, forward-store}
use reelm.Proxy.Handler.Serve.{recorded_headers, forward, upstream_request}
use reelm.Providers.Shared.{field_of}
use reelm.Store.Cassette.{Cassette, CassetteResponse}
use reelm.Store.Interface.{CassetteStore}
use reelm.Streaming.Recorder.{eof, flush_client, is_blank, recorder_code}
use reelm.Streaming.Recorder.Events.{
  Event, is_line, IsEvent, event_text, stream_of, texts, chunks-pipe_and_record,
}
use reelm.Streaming.Recorder.Sent.{sent-flush_client}
use reelm.Http.Sent.{sent-write_text}
use reelm.Streaming.Recorder.Transparent.{flush_client_keeps}
use reelm.Testutil.{
  MockUpstream, Endpoint, chat, messages, models, Outside, routes, bool_or_false, send_chunks,
  chat_chunks, gemini_chunks, serve_chat, serve_models, serve,
}

-- A chunk as the mock sends it: its line, and the blank line after it.
abbrev pub event_of : Text → Event
event_of c = record { lines = (c ++ 10 ∷ []) ∷ []; end = 10 ∷ [] }

abbrev pub sent_text : Text → Text
sent_text c = c ++ codes "\n\n"

-- One round of send_chunks
abbrev round : Text → ResponseWriter → ResponseWriter
round c w = log (sleep 2000000) (flush_client (write_text (sent_text c) w).1)

record Sends (t : Text) (w v : ResponseWriter) : Type 0 where
  body : body v ≡ body w ++ t
  fails : v.fails ≡ w.fails

steady_from : {f g : ℕ → Bool} → f ≡ g → ((n : ℕ) → g n ≡ false) → (n : ℕ) → f n ≡ false
steady_from e h n = ap (λ (k : ℕ → Bool). k n) e ∙ h n

round-Sends :
    (c : Text) (w : ResponseWriter)
    → ((n : ℕ) → w.fails n ≡ false)
    → Sends (sent_text c) w (round c w)
round-Sends c w h =
    let v = (write_text (sent_text c) w).1 in
    record {
      body =
          written-append (flush_client v).trace (sleep 2000000 ∷ [])
          ∙ append-nil (body (flush_client v))
          ∙ (flush_client_keeps v).0
          ∙ body-write_text (sent_text c) w
          ∙ simp (write_text_done (sent_text c) w h);
      fails = (flush_client_keeps v).1 ∙ (write_text_keeps (sent_text c) w).0;
    }

send_chunks-Sends :
    (cs : List Text) (w : ResponseWriter)
    → ((n : ℕ) → w.fails n ≡ false)
    → Sends (concat (map sent_text cs)) w (send_chunks cs w)
unfolding send_chunks
send_chunks-Sends [] w h = record { body = sym (append-nil (body w)); fails = refl }
send_chunks-Sends (c ∷ cs) w h =
    let k = round-Sends c w h in
    let ih = send_chunks-Sends cs (round c w) (steady_from k.fails h) in
    record {
      body =
          ih.body
          ∙ ap (λ (t : Text). t ++ concat (map sent_text cs)) k.body
          ∙ append_assoc (body w) (sent_text c) (concat (map sent_text cs));
      fails = ih.fails ∙ k.fails;
    }

sent-send_chunks :
    (cs : List Text) (w : ResponseWriter) (x : ℕ × Header)
    → w.sent ≡ some x
    → (send_chunks cs w).sent ≡ some x
unfolding send_chunks
sent-send_chunks [] w x h = h
sent-send_chunks (c ∷ cs) w x h =
    sent-send_chunks cs (round c w) x (sent-flush_client _ x (sent-write_text (sent_text c) w x h))

event_text-event_of : (c : Text) → event_text (event_of c) ≡ sent_text c
event_text-event_of c =
    ap (λ (t : Text). t ++ 10 ∷ []) (append-nil (c ++ 10 ∷ [])) ∙ append_assoc c (10 ∷ []) (10 ∷ [])

map-event_of : (cs : List Text) → map event_text (map event_of cs) ≡ map sent_text cs
map-event_of [] = refl
map-event_of (c ∷ cs) = λ i. event_text-event_of c i ∷ map-event_of cs i

-- The chunks of a streaming endpoint
abbrev pub chunks_of : Endpoint → List Text
chunks_of chat = chat_chunks
chunks_of messages = []
chunks_of models = gemini_chunks

-- The request asks the endpoint for a stream.
abbrev pub AsksStream : Outside → Endpoint → Request → Type 0
AsksStream o chat r = bool_or_false (field_of (codes "stream") (o.decode r.body)) ≡ true
AsksStream o messages r = ⊥
AsksStream o models r = contains r.path (codes ":streamGenerateContent") ≡ true

-- One line, not blank
abbrev IsOneLine : Text → Type 0
IsOneLine c = (is_line (c ++ 10 ∷ []) ≡ true) × (is_blank (c ++ 10 ∷ []) ≡ false)

map-event_of-IsEvent : (cs : List Text) → All IsOneLine cs → All IsEvent (map event_of cs)
unfolding recorder_code
map-event_of-IsEvent [] h = tt
map-event_of-IsEvent (c ∷ cs) (h, hs) = (
  record { plain = (record { line = h.0; filled = h.1 }, tt); line = refl; blank = refl },
  map-event_of-IsEvent cs hs,
)

-- Each chunk of the mock is one event of its stream.
chunks_of-IsEvent : (e : Endpoint) → All IsEvent (map event_of (chunks_of e))
unfolding recorder_code
chunks_of-IsEvent chat =
    map-event_of-IsEvent chat_chunks
      ((refl, refl), ((refl, refl), ((refl, refl), ((refl, refl), tt))))
chunks_of-IsEvent messages = tt
chunks_of-IsEvent models = map-event_of-IsEvent gemini_chunks ((refl, refl), ((refl, refl), tt))

-- A writer as net/http hands it to a handler
abbrev pub fresh : Bool → (ℕ → Bool) → ResponseWriter
fresh flusher fails = record {
  header = [];
  sent = none;
  trace = [];
  flusher = flusher;
  fails = fails;
}

-- What an HTTP client receives of what a handler wrote: its status and header, or those that
-- net/http sends by default, and its body.
abbrev pub head_of : Option (ℕ × Header) → ℕ × Header
head_of none = (200, [])
head_of (some x) = x

abbrev pub answer : ResponseWriter → UpstreamResponse
answer w = record {
  status_code = (head_of w.sent).0;
  header = (head_of w.sent).1;
  body = body w;
  ending = eof;
}

record Streams (e : Endpoint) (a : UpstreamResponse) : Type 0 where
  status : a.status_code ≡ 200
  streams : is_event_stream a ≡ true
  body : a.body ≡ stream_of (map event_of (chunks_of e))

sent-Streams :
    (e : Endpoint) (w : ResponseWriter) (h : Header)
    → w.sent ≡ some (200, h)
    → contains (get (codes "Content-Type") h) (codes "text/event-stream") ≡ true
    → body w ≡ []
    → ((n : ℕ) → w.fails n ≡ false)
    → Streams e (answer (send_chunks (chunks_of e) w))
sent-Streams e w h s c b k =
    let sent = ap head_of (sent-send_chunks (chunks_of e) w (200, h) s) in
    record {
      status = ap (λ (x : ℕ × Header). x.0) sent;
      streams =
          ap
            (λ (x : ℕ × Header).
              contains (get (codes "Content-Type") x.1) (codes "text/event-stream"))
            sent
          ∙ c;
      body =
          (send_chunks-Sends (chunks_of e) w k).body
          ∙ ap (λ (t : Text). t ++ concat (map sent_text (chunks_of e))) b
          ∙ sym (ap concat (map-event_of (chunks_of e)));
    }

serve-Streams :
    (o : Outside) (r : Request) (m : MockUpstream) (e : Endpoint) (flusher : Bool)
    (fails : ℕ → Bool)
    → o.find routes r.path ≡ some e
    → AsksStream o e r
    → ((n : ℕ) → fails n ≡ false)
    → Streams e (answer (serve o r m (fresh flusher fails)).1)
unfolding serve serve_chat serve_models write_header set_header get values reelm.Http.Headers.set
    canonical_key values_at put_at contains has_prefix ◌==◌
serve-Streams o r m chat flusher fails f a k = simp (f, a) (sent-Streams chat _ _ refl refl refl k)
serve-Streams o r m messages flusher fails f a k = elim a [ ]
serve-Streams o r m models flusher fails f a k =
    simp (f, a) (sent-Streams models _ _ refl refl refl k)

module _ (s : CassetteStore) (h : Handler) (o : reelm.Proxy.Handler.Outside) where
  -- A response that was recorded as a stream, in these chunks
  record IsCut (resp : CassetteResponse) (cut : List Text) : Type 0 where
    stream : resp.is_stream ≡ true
    chunks : texts resp.chunks ≡ cut

  -- The proxy records a stream of events in one chunk for each.
  recorded_response-IsCut :
      (resp : UpstreamResponse) (es : List Event) (v : ResponseWriter)
      → is_event_stream resp ≡ true
      → resp.body ≡ stream_of es
      → resp.ending ≡ eof
      → All IsEvent es
      → ((n : ℕ) → v.fails n ≡ false)
      → IsCut (recorded_response s h o resp v) (map event_text es)
  unfolding stream_response set_header
  recorded_response-IsCut resp es v f b e all steady =
      let head = recorded_headers s h o resp v in
      let cut =
        chunks-pipe_and_record o.clock.chunk es o.clock.started (write_header resp.status_code head)
          all (steady_from (write_header_keeps resp.status_code head).0 steady) in
      simp (f, b, e) (record { stream = refl; chunks = cut.1 })

  -- A streaming answer of the mock upstream, to a request for a chat completion or for Gemini's
  -- streamGenerateContent, reaches the store as a stream in one chunk for each event that the mock
  -- sends, if all writes of the mock and of the proxy succeed: handleRecord passes a cassette with
  -- these chunks to Save.
  pub forward-serve :
      (r : Request) (provider hash : Text) (canonic : CanonicRequest) (t url : Text) (w : World s)
      (mock : Outside) (q : Request) (m : MockUpstream) (e : Endpoint) (flusher : Bool)
      (fails : ℕ → Bool)
      → mock.find routes q.path ≡ some e
      → AsksStream mock e q
      → ((n : ℕ) → fails n ≡ false)
      → o.builds r.method url ≡ true
      → o.send (upstream_request s h o r url t)
        ≡ ok (answer (serve mock q m (fresh flusher fails)).1)
      → ((n : ℕ) → w.writer.fails n ≡ false)
      → (c : Cassette) × ((forward s h o r provider hash canonic t (ok url) w).store
          ≡ (s.save o.clock.saved_at c w.store).1)
        × (c.response.is_stream ≡ true)
        × (texts c.response.chunks ≡ map sent_text (chunks_of e))
  unfolding new_cassette
  forward-serve r provider hash canonic t url w mock q m e flusher fails f a k builds sends steady =
      let g = serve-Streams mock q m e flusher fails f a k in
      let resp = answer (serve mock q m (fresh flusher fails)).1 in
      let c =
        recorded_response-IsCut resp (map event_of (chunks_of e)) w.writer g.streams g.body refl
          (chunks_of-IsEvent e) steady in
      (
        recorded s h o r provider hash canonic t resp w.writer,
        forward-store s h o r provider hash canonic t url resp w builds sends refl,
        c.stream,
        c.chunks ∙ map-event_of (chunks_of e),
      )
