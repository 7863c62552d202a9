-- ===== src/Streaming/Replayer/Sent.antt =====
-- pkg/streaming/replayer.go: a replay does not take back the header.
use reelm.Base.{◌≡◌, refl, true, List, [], ◌∷◌, Bool-cases, inl, inr}
use reelm.Http.Sent.{is_sent, text_sent, flush_sent}
use reelm.Http.Writer.{ResponseWriter, write_text, flush_writer, set_header}
use reelm.Store.Cassette.{StreamChunk}
use reelm.Streaming.Replayer.{StreamReplayer, pause, replay_chunks, stream_headers, replay}

replay_chunks-sent :
    (sr : StreamReplayer) (cs : List StreamChunk) (w : ResponseWriter)
    → is_sent w.sent ≡ true
    → is_sent (replay_chunks sr cs w).1.sent ≡ true
unfolding replay_chunks
replay_chunks-sent sr [] w h = h
replay_chunks-sent sr (c ∷ cs) w h =
    let r = write_text c.event (pause sr c w) in
    elim (Bool-cases r.0) [
      | inl e ↦ simp e (replay_chunks-sent sr cs (flush_writer r.1) (flush_sent r.1))
      | inr e ↦ simp e (text_sent c.event (pause sr c w))
    ]

sent-stream_headers : (w : ResponseWriter) → (stream_headers w).sent ≡ w.sent
unfolding stream_headers set_header
sent-stream_headers w = refl

pub replay-sent :
    (sr : StreamReplayer) (cs : List StreamChunk) (w : ResponseWriter)
    → is_sent w.sent ≡ true
    → is_sent (replay sr cs w).1.sent ≡ true
unfolding replay
replay-sent sr cs w h = elim (Bool-cases w.flusher) [
  | inl e ↦ simp e (replay_chunks-sent sr cs (stream_headers w) (rw (sent-stream_headers w) h))
  | inr e ↦ simp e h
]
