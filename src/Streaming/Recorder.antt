-- ===== src/Streaming/Recorder.antt =====
-- pkg/streaming/recorder.go. The loop of PipeAndRecord runs over what the buffered reader returns.
pub mod Transparent
pub mod Complete
pub mod Sent
pub mod Loop
pub mod Events
use reelm.Base.{
  ℕ, suc, ◌+◌, ◌≡◌, refl, Bool, true, false, not, ◌&&◌, ◌||◌, Option, none, some, List, [], ◌∷◌,
  ◌++◌, arith, Text, ◌==◌, eqb, length, trim_right, if◌then◌else◌,
}
use reelm.Base.Int.{sub_ℕ}
use reelm.Http.Writer.{ResponseWriter, write_text, flush_writer}
use reelm.Store.Cassette.{StreamChunk}
use reelm.Streaming.Lines.{read_lines}

-- StreamRecorder, with the clock's readings in nanoseconds
pub record StreamRecorder : Type 0 where
  pub chunks : List StreamChunk
  pub full_body : Text
  pub started : ℕ
  pub last_time : ℕ

-- How the upstream's body ends: at its end, or by an error of a read.
pub data Ending : Type 0 where
  eof broken : Ending

pub data PipeError : Type 0 where
  write_failed read_failed : PipeError

-- The recorder, the event that is being collected, and the client's writer.
pub record Pipe : Type 0 where
  pub recorder : StreamRecorder
  pub current_event : Text
  pub writer : ResponseWriter

-- NewStreamRecorder, at the clock's reading
pub new_stream_recorder : ℕ → StreamRecorder
new_stream_recorder now = record { chunks = []; full_body = []; started = now; last_time = now }

-- bytes.TrimRight(line, "\r\n") leaves nothing.
pub is_blank : Text → Bool
is_blank line = trim_right (λ c. eqb c 13 || eqb c 10) line == []

pub flush_client : ResponseWriter → ResponseWriter
flush_client w = if w.flusher then flush_writer w else w

-- The chunk that the collected event becomes at the clock's reading `now`.
abbrev pub chunk_at : ℕ → Pipe → StreamChunk
chunk_at now p = record { event = p.current_event; delay = sub_ℕ now p.recorder.last_time }

-- The body of `if len(trimmed) == 0 && currentEvent.Len() > 0`.
pub end_event : ℕ → Pipe → Pipe
end_event now p = record {
  recorder = record p.recorder {
    chunks = p.recorder.chunks ++ chunk_at now p ∷ [];
    last_time = now;
  };
  current_event = [];
  writer = flush_client p.writer;
}

-- The line is with the client: it joins the event and the full body.
abbrev pub collect : Text → ResponseWriter → Pipe → Pipe
collect line w p = record {
  recorder = record p.recorder { full_body = p.recorder.full_body ++ line };
  current_event = p.current_event ++ line;
  writer = w;
}

-- After the write: its error ends the loop, and a blank line ends the event.
pub after_write : ℕ → Text → Pipe → Bool × ResponseWriter → Bool × Pipe
after_write now line p (false, w) = (false, record p { writer = w })
after_write now line p (true, w) =
    let q = collect line w p in
    (true, if is_blank line && not (q.current_event == []) then end_event now q else q)

-- The clock is read once for each chunk: `now n` is the reading for the n-th of them.
abbrev pub reading : (ℕ → ℕ) → Pipe → ℕ
reading now p = now (suc (length p.recorder.chunks))

-- The body of `if len(line) > 0`, with whether the write succeeded.
pub pipe_line : (ℕ → ℕ) → Text → Pipe → Bool × Pipe
pipe_line now line p =
    if line == [] then (true, p) else after_write (reading now p) line p (write_text line p.writer)

-- At io.EOF: what is left of an event becomes a chunk.
pub finish : ℕ → Pipe → Pipe
finish now p = if p.current_event == [] then p else record p {
  recorder = record p.recorder { chunks = p.recorder.chunks ++ chunk_at now p ∷ [] };
  writer = flush_client p.writer;
}

-- The tests on `err`, after the line that came with it.
pub after_error : (ℕ → ℕ) → Ending → Bool × Pipe → Option PipeError × Pipe
after_error now ending (false, p) = (some write_failed, p)
after_error now eof (true, p) = (none, finish (reading now p) p)
after_error now broken (true, p) = (some read_failed, p)

-- The loop over the lines; the last read returns the rest of the body together with the error.
pub pipe_loop : (ℕ → ℕ) → List Text → Text → Ending → Pipe → Option PipeError × Pipe
pipe_loop now [] rest ending p = after_error now ending (pipe_line now rest p)
pipe_loop now (line ∷ lines) rest ending p =
    let q = pipe_line now line p in
    let more = pipe_loop now lines rest ending q.1 in if q.0 then more else (some write_failed, q.1)

-- PipeAndRecord
pub pipe_and_record :
    (ℕ → ℕ) → Text → Ending → StreamRecorder → ResponseWriter → Option PipeError × Pipe
pipe_and_record now upstream_body ending r w =
    let lines = read_lines upstream_body in
    pipe_loop now lines.0 lines.1 ending (record { recorder = r; current_event = []; writer = w })

-- All that a run of the recorder computes with.
unfoldable pub recorder_code : Unit {0}
unfolding pipe_and_record pipe_loop after_error finish pipe_line after_write end_event flush_client
    is_blank new_stream_recorder read_lines write_text flush_writer trim_right ◌==◌
recorder_code = tt
