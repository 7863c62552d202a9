-- ===== src/Streaming/Recorder/Sent.antt =====
-- pkg/streaming/recorder.go: recording does not take back the header.
use reelm.Base.{
  some, ℕ, ◌≡◌, Bool, true, false, not, ◌&&◌, List, [], ◌∷◌, Text, ◌==◌, Bool-cases, inl, inr,
}
use reelm.Http.Headers.{Header}
use reelm.Http.Sent.{is_sent, text_sent, flush_sent, sent-flush_writer}
use reelm.Http.Writer.{ResponseWriter, write_text}
use reelm.Streaming.Lines.{read_lines}
use reelm.Streaming.Recorder.{
  StreamRecorder, Ending, eof, broken, Pipe, is_blank, flush_client, end_event, collect,
  after_write, reading, pipe_line, finish, after_error, pipe_loop, pipe_and_record,
}

abbrev IsSent : Pipe → Type 0
IsSent p = is_sent p.writer.sent ≡ true

flush_client-sent :
    (w : ResponseWriter) → is_sent w.sent ≡ true → is_sent (flush_client w).sent ≡ true
unfolding flush_client
flush_client-sent w h = elim (Bool-cases w.flusher) [
  | inl e ↦ simp e (flush_sent w)
  | inr e ↦ simp e h
]

after_write-IsSent :
    (now : ℕ) (line : Text) (p : Pipe) (r : Bool × ResponseWriter)
    → is_sent r.1.sent ≡ true
    → IsSent (after_write now line p r).1
unfolding after_write end_event
after_write-IsSent now line p (false, w) h = h
after_write-IsSent now line p (true, w) h =
    elim (Bool-cases (is_blank line && not ((collect line w p).current_event == []))) [
      | inl e ↦ simp e (flush_client-sent w h)
      | inr e ↦ simp e h
    ]

pipe_line-IsSent :
    (now : ℕ → ℕ) (line : Text) (p : Pipe) → IsSent p → IsSent (pipe_line now line p).1
unfolding pipe_line
pipe_line-IsSent now line p h = elim (Bool-cases (line == [])) [
  | inl e ↦ simp e h
  | inr e ↦ simp e (
      after_write-IsSent (reading now p) line p (write_text line p.writer)
        (text_sent line p.writer))
]

after_error-IsSent :
    (now : ℕ → ℕ) (ending : Ending) (r : Bool × Pipe)
    → IsSent r.1
    → IsSent (after_error now ending r).1
unfolding after_error finish
after_error-IsSent now ending (false, p) h = h
after_error-IsSent now broken (true, p) h = h
after_error-IsSent now eof (true, p) h = elim (Bool-cases (p.current_event == [])) [
  | inl e ↦ simp e h
  | inr e ↦ simp e (flush_client-sent p.writer h)
]

pipe_loop-IsSent :
    (now : ℕ → ℕ) (lines : List Text) (rest : Text) (ending : Ending) (p : Pipe)
    → IsSent p
    → IsSent (pipe_loop now lines rest ending p).1
unfolding pipe_loop
pipe_loop-IsSent now [] rest ending p h =
    after_error-IsSent now ending (pipe_line now rest p) (pipe_line-IsSent now rest p h)
pipe_loop-IsSent now (line ∷ lines) rest ending p h =
    let q = pipe_line now line p in
    elim (Bool-cases q.0) [
      | inl e ↦ simp e (pipe_loop-IsSent now lines rest ending q.1 (pipe_line-IsSent now line p h))
      | inr e ↦ simp e (pipe_line-IsSent now line p h)
    ]

pub pipe_and_record-sent :
    (now : ℕ → ℕ) (body : Text) (ending : Ending) (r : StreamRecorder) (w : ResponseWriter)
    → is_sent w.sent ≡ true
    → is_sent (pipe_and_record now body ending r w).1.writer.sent ≡ true
unfolding pipe_and_record
pipe_and_record-sent now body ending r w h =
    pipe_loop-IsSent now (read_lines body).0 (read_lines body).1 ending
      (record { recorder = r; current_event = []; writer = w }) h

pub sent-flush_client :
    (w : ResponseWriter) (x : ℕ × Header) → w.sent ≡ some x → (flush_client w).sent ≡ some x
unfolding flush_client
sent-flush_client w x h = elim (Bool-cases w.flusher) [
  | inl e ↦ simp e (sent-flush_writer w x h)
  | inr e ↦ simp e h
]
