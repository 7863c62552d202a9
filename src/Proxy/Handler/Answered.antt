-- ===== src/Proxy/Handler/Answered.antt =====
-- pkg/proxy/handler.go: every request gets an answer.
use reelm.Base.{
  ℕ, ◌≡◌, true, false, ◌||◌, ◌&&◌, Option, none, some, Text, codes, ◌==◌, Fallible, ok, failed,
  to_lower, Bool-cases, inl, inr,
}
use reelm.Config.{mode_record, mode_replay, mode_auto}
use reelm.Hasher.{CanonicRequest}
use reelm.Http.{Request}
use reelm.Http.Sent.{is_sent, head_sent, text_sent}
use reelm.Http.Writer.{ResponseWriter, write_header}
use reelm.Providers.Registry.{detect_provider}
use reelm.Store.Cassette.{Cassette, CassetteResponse}
use reelm.Store.Interface.{CassetteStore}
use reelm.Streaming.Recorder.{Ending, eof, broken, new_stream_recorder}
use reelm.Streaming.Recorder.Sent.{pipe_and_record-sent}
use reelm.Streaming.Replayer.{StreamReplayer}
use reelm.Streaming.Replayer.Sent.{replay-sent}
use reelm.Proxy.Handler.{
  Canonicalizer, UpstreamResponse, Handler, Outside, World, is_event_stream, has_chunks,
  status_or_ok, http_error, send_cassette, serve_cassette, serve_miss,
}
use reelm.Proxy.Handler.Serve.{
  replay_loaded, handle_replay, save_cassette, relay_stream, relay_plain, relay, forward,
  handle_record, auto_loaded, by_mode, hashed, canonicalized, buffered, detected, serve_http,
  serve_health,
}

pub http_error-sent :
    (message : Text) (code : ℕ) (w : ResponseWriter)
    → is_sent (http_error message code w).sent ≡ true
unfolding http_error
http_error-sent message code w = text_sent _ _

send_cassette-sent :
    (sr : StreamReplayer) (resp : CassetteResponse) (w : ResponseWriter)
    → is_sent (send_cassette sr resp w).sent ≡ true
unfolding send_cassette
send_cassette-sent sr resp w = elim (Bool-cases (resp.is_stream && has_chunks resp.chunks)) [
  | inl e ↦ simp e (
      replay-sent sr resp.chunks (write_header (status_or_ok resp.status_code) w)
        (head_sent (status_or_ok resp.status_code) w))
  | inr e ↦ simp e (text_sent resp.body (write_header (status_or_ok resp.status_code) w))
]

module _ (s : CassetteStore) (h : Handler) (o : Outside) where
  -- The client got a status and a header.
  abbrev pub IsAnswered : World s → Type 0
  IsAnswered w = is_sent w.writer.sent ≡ true

  serve_cassette-sent :
      (c : Cassette) (status : Text) (w : ResponseWriter)
      → is_sent (serve_cassette h.stream_replayer c status w).sent ≡ true
  unfolding serve_cassette
  serve_cassette-sent c status w = send_cassette-sent h.stream_replayer c.response _

  handle_replay-IsAnswered : (hash : Text) (w : World s) → IsAnswered (handle_replay s h o hash w)
  unfolding handle_replay
  handle_replay-IsAnswered hash w = loaded (s.load hash w.store)
    where
      loaded : (q : Option Cassette) → IsAnswered (replay_loaded s h o hash q w)
      loaded none = unfold replay_loaded in unfold serve_miss in text_sent _ _
      loaded (some c) = unfold replay_loaded in serve_cassette-sent c (codes "HIT") w.writer

  relay-IsAnswered :
      (r : Request) (provider hash : Text) (canonic : CanonicRequest) (body : Text)
      (q : Fallible UpstreamResponse) (w : World s)
      → IsAnswered (relay s h o r provider hash canonic body q w)
  unfolding relay relay_stream relay_plain save_cassette
  relay-IsAnswered r provider hash canonic body (failed e) w = http_error-sent _ 502 w.writer
  relay-IsAnswered r provider hash canonic body (ok resp) w =
      elim (Bool-cases (is_event_stream resp)) [
        | inl e ↦ simp e (
            pipe_and_record-sent o.clock.chunk resp.body resp.ending
              (new_stream_recorder o.clock.started) _ (head_sent resp.status_code _))
        | inr e ↦ simp e (plain resp.ending _)
      ]
    where
      plain :
          (ending : Ending) (v : World s)
          → IsAnswered (relay_plain s h o r provider hash canonic body resp ending v)
      plain eof v = text_sent resp.body _
      plain broken v = http_error-sent _ 502 v.writer

  forward-IsAnswered :
      (r : Request) (provider hash : Text) (canonic : CanonicRequest) (body : Text)
      (q : Fallible Text) (w : World s)
      → IsAnswered (forward s h o r provider hash canonic body q w)
  unfolding forward
  forward-IsAnswered r provider hash canonic body (failed e) w = http_error-sent _ 502 w.writer
  forward-IsAnswered r provider hash canonic body (ok url) w =
      elim (Bool-cases (o.builds r.method url)) [
        | inl e ↦ simp e (relay-IsAnswered r provider hash canonic body _ _)
        | inr e ↦ simp e (http_error-sent _ 500 w.writer)
      ]

  auto_loaded-IsAnswered :
      (r : Request) (provider hash : Text) (canonic : CanonicRequest) (body : Text)
      (q : Option Cassette) (w : World s)
      → IsAnswered (auto_loaded s h o r provider hash canonic body q w)
  unfolding auto_loaded handle_record
  auto_loaded-IsAnswered r provider hash canonic body (some c) w =
      serve_cassette-sent c (codes "HIT") w.writer
  auto_loaded-IsAnswered r provider hash canonic body none w =
      forward-IsAnswered r provider hash canonic body _ w

  by_mode-IsAnswered :
      (r : Request) (provider hash : Text) (canonic : CanonicRequest) (body : Text) (w : World s)
      → IsAnswered (by_mode s h o r provider hash canonic body w)
  unfolding by_mode handle_record
  by_mode-IsAnswered r provider hash canonic body w =
      elim (Bool-cases (to_lower h.mode == mode_replay)) [
        | inl e ↦ simp e (handle_replay-IsAnswered hash w)
        | inr e ↦ elim (Bool-cases (to_lower h.mode == mode_record)) [
          | inl f ↦ simp (e, f) (forward-IsAnswered r provider hash canonic body _ w)
          | inr f ↦ elim (Bool-cases (to_lower h.mode == mode_auto)) [
            | inl g ↦
                simp (e, f, g)
                  (auto_loaded-IsAnswered r provider hash canonic body (s.load hash w.store) w)
            | inr g ↦ simp (e, f, g) (http_error-sent _ 500 w.writer)
          ]
        ]
      ]

  hashed-IsAnswered :
      (r : Request) (provider : Text) (canonic : CanonicRequest) (body : Text) (q : Option Text)
      (w : World s)
      → IsAnswered (hashed s h o r provider canonic body q w)
  unfolding hashed
  hashed-IsAnswered r provider canonic body none w = http_error-sent _ 500 w.writer
  hashed-IsAnswered r provider canonic body (some hash) w =
      by_mode-IsAnswered r provider hash canonic body _

  canonicalized-IsAnswered :
      (r : Request) (provider body : Text) (q : Fallible CanonicRequest) (w : World s)
      → IsAnswered (canonicalized s h o r provider body q w)
  unfolding canonicalized
  canonicalized-IsAnswered r provider body (failed e) w = http_error-sent _ 400 w.writer
  canonicalized-IsAnswered r provider body (ok c) w =
      hashed-IsAnswered r provider c body (h.hash c) w

  buffered-IsAnswered :
      (r : Request) (provider : Text) (c : Canonicalizer) (q : Option Text) (w : World s)
      → IsAnswered (buffered s h o r provider c q w)
  unfolding buffered
  buffered-IsAnswered r provider c none w = http_error-sent _ 400 w.writer
  buffered-IsAnswered r provider c (some body) w =
      canonicalized-IsAnswered r provider body (c r body) w

  detected-IsAnswered :
      (r : Request) (q : Fallible (Text × Canonicalizer)) (w : World s)
      → IsAnswered (detected s h o r q w)
  unfolding detected
  detected-IsAnswered r (failed e) w = http_error-sent _ 400 w.writer
  detected-IsAnswered r (ok (provider, c)) w = buffered-IsAnswered r provider c r.body w

  -- When ServeHTTP returns, in any mode and whatever fails on the way, every request but a CONNECT
  -- was answered: a status and a header were sent.
  pub serve_http-IsAnswered :
      (connect : Request → World s → World s) (r : Request) (w : World s)
      → (r.method == codes "CONNECT") ≡ false
      → IsAnswered (serve_http s h o connect r w)
  unfolding serve_http serve_health
  serve_http-IsAnswered connect r w e =
      elim (Bool-cases (r.path == codes "/healthz" || r.path == codes "/readyz")) [
        | inl f ↦ simp (e, f) (text_sent _ _)
        | inr f ↦
            simp (e, f) (detected-IsAnswered r (detect_provider o.quote (some r) h.registry) w)
      ]
