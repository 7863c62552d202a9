-- ===== src/Streaming/Tests.antt =====
-- Runs of pkg/streaming.
use reelm.Base.{
  All, map, ℕ, ◌+◌, ◌*◌, ◌≤◌, ◌≡◌, refl, true, false, none, some, List, [], ◌∷◌, Text, codes, ◌==◌,
  arith,
}
use reelm.Base.Int.{pos}
use reelm.Http.Writer.{ResponseWriter, body}
use reelm.Store.Cassette.{StreamChunk}
use reelm.Streaming.Recorder.{
  recorder_code, eof, broken, read_failed, new_stream_recorder, pipe_and_record,
}
use reelm.Streaming.Recorder.Loop.{pipe_rounds, pipe_rounds-pipe_and_record}
use reelm.Streaming.Recorder.Events.{
  Event, IsEvent, event_text, stream_of, texts, chunks-pipe_and_record,
}
use reelm.Streaming.Recorder.Complete.{pipe_and_record-IsComplete}
use reelm.Streaming.Replayer.{new_stream_replayer, replay, replay_mode_timed, delay_cap}
use reelm.Streaming.Replayer.Faithful.{script, trace-replay, slept, slept-replay}
use reelm.Streaming.RoundTrip.{replay-pipe_and_record}

abbrev steady : ResponseWriter
steady = record { header = []; sent = none; trace = []; flusher = true; fails = λ n. false }

abbrev failing : ResponseWriter
failing = record { header = []; sent = none; trace = []; flusher = true; fails = λ n. true }

abbrev clock : ℕ → ℕ
clock n = 7 * n

abbrev stream : Text
stream = codes "data: a\n\ndata: b\n\nend"

abbrev chunks : List StreamChunk
chunks =
    record { event = codes "a"; delay = pos 900000000 }
    ∷ record { event = codes "b"; delay = pos 5 }
    ∷ []

replay-pipe_and_record_example :
    body
      (replay
        (new_stream_replayer (codes "timed"))
        (pipe_and_record clock stream eof (new_stream_recorder 0) steady).1.recorder.chunks
        steady).1
    ≡ stream
replay-pipe_and_record_example =
    replay-pipe_and_record clock stream 0 steady (codes "timed") steady (λ n. refl) refl (λ n. refl)

pipe_and_record-IsComplete_example :
    ((pipe_and_record clock stream broken (new_stream_recorder 0) steady).0 ≡ some read_failed)
    × (body (pipe_and_record clock stream broken (new_stream_recorder 0) steady).1.writer ≡ stream)
    × ((pipe_and_record clock stream broken (new_stream_recorder 0) steady).1.recorder.full_body
        ≡ stream)
pipe_and_record-IsComplete_example =
    pipe_and_record-IsComplete clock stream broken 0 steady (λ n. refl)

trace-replay_example :
    ((replay (new_stream_replayer (codes "timed")) chunks steady).0 ≡ none)
    × ((replay (new_stream_replayer (codes "timed")) chunks steady).1.trace
        ≡ script (codes "timed" == replay_mode_timed) delay_cap chunks)
trace-replay_example = trace-replay (codes "timed") chunks steady refl (λ n. refl)

slept-replay_example :
    slept (replay (new_stream_replayer (codes "timed")) chunks steady).1.trace ≤ 0 + delay_cap * 2
slept-replay_example = slept-replay (codes "timed") chunks steady refl (λ n. refl)

pipe_rounds-pipe_and_record_example :
    pipe_rounds clock eof 40 stream
      (record { recorder = new_stream_recorder 0; current_event = []; writer = steady })
    ≡ some (pipe_and_record clock stream eof (new_stream_recorder 0) steady)
pipe_rounds-pipe_and_record_example =
    pipe_rounds-pipe_and_record clock stream eof (new_stream_recorder 0) steady 40 (omega arith)

-- An event of two lines, and one that is a blank line only.
abbrev two_events : List Event
two_events =
    record { lines = codes "event: x\n" ∷ codes "data: a\r\n" ∷ []; end = codes "\r\n" }
    ∷ record { lines = []; end = codes "\n" }
    ∷ []

two_events-IsEvent : All IsEvent two_events
unfolding recorder_code
two_events-IsEvent = (
  record {
    plain = (record { line = refl; filled = refl }, (record { line = refl; filled = refl }, tt));
    line = refl;
    blank = refl;
  },
  (record { plain = tt; line = refl; blank = refl }, tt),
)

chunks-pipe_and_record_example :
    ((pipe_and_record clock (stream_of two_events) eof (new_stream_recorder 0) steady).0 ≡ none)
    × (texts
          (pipe_and_record clock
            (stream_of two_events)
            eof
            (new_stream_recorder 0)
            steady).1.recorder.chunks
        ≡ map event_text two_events)
chunks-pipe_and_record_example =
    chunks-pipe_and_record clock two_events 0 steady two_events-IsEvent (λ n. refl)
