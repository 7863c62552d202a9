-- ===== src/Streaming/RoundTrip.antt =====
-- Recording and replaying together: a client that replays gets the upstream's bytes.
use reelm.Base.{ℕ, ◌≡◌, ap, ◌∙◌, true, false, Text, ◌++◌}
use reelm.Http.Writer.{ResponseWriter, body}
use reelm.Streaming.Recorder.{eof, new_stream_recorder, pipe_and_record}
use reelm.Streaming.Recorder.Complete.{events-pipe_and_record}
use reelm.Streaming.Replayer.{new_stream_replayer, replay}
use reelm.Streaming.Replayer.Faithful.{body-replay}

-- A stream that was recorded to its end with a steady client, and is replayed in any mode to a
-- steady client that can flush, arrives there byte for byte.
pub replay-pipe_and_record :
    (now : ℕ → ℕ) (s : Text) (started : ℕ) (w : ResponseWriter) (mode : Text) (v : ResponseWriter)
    → ((n : ℕ) → w.fails n ≡ false)
    → v.flusher ≡ true
    → ((n : ℕ) → v.fails n ≡ false)
    → body
        (replay
          (new_stream_replayer mode)
          (pipe_and_record now s eof (new_stream_recorder started) w).1.recorder.chunks
          v).1
      ≡ body v ++ s
replay-pipe_and_record now s started w mode v h fl k =
    body-replay mode _ v fl k
    ∙ ap (λ (t : Text). body v ++ t) (events-pipe_and_record now s started w h)
