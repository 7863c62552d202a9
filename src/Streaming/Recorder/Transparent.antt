-- ===== src/Streaming/Recorder/Transparent.antt =====
-- pkg/streaming/recorder.go: the client, the full body and the chunks hold the same bytes.
use mathlib.Core.List.{append_assoc, append-nil}
use reelm.Base.{
  ℕ, ◌≡◌, refl, sym, ap, ◌∙◌, Bool, true, false, not, List, [], ◌∷◌, ◌++◌, ◌&&◌, if◌then◌else◌,
  Text, ◌==◌, eq_iff, Bool-cases, inl, inr,
}
use reelm.Http.Writer.{
  ResponseWriter, body, body-flush_writer, flush_writer_keeps, body-write_text, write_text_keeps,
}
use reelm.Store.Cassette.{StreamChunk}
use reelm.Streaming.Lines.{read_lines}
use reelm.Streaming.Recorder.{
  Ending, eof, broken, Pipe, new_stream_recorder, is_blank, flush_client, end_event, collect,
  after_write, after_error, pipe_line, finish, pipe_loop, pipe_and_record,
}

-- The bytes of the chunks, in order.
abbrev pub events : List StreamChunk → Text
events [] = []
events (c ∷ cs) = c.event ++ events cs

pub events-append : (xs ys : List StreamChunk) → events (xs ++ ys) ≡ events xs ++ events ys
events-append [] ys = refl
events-append (c ∷ xs) ys = simp (events-append xs ys, append_assoc)

pub events-concat :
    (xs : List StreamChunk) (c : StreamChunk) → events (xs ++ c ∷ []) ≡ events xs ++ c.event
events-concat xs c = simp (events-append, append-nil)

pub flush_client_keeps :
    (w : ResponseWriter) → (body (flush_client w) ≡ body w) × ((flush_client w).fails ≡ w.fails)
unfolding flush_client
flush_client_keeps w = elim (Bool-cases w.flusher) [
  | inl e ↦ simp e (body-flush_writer w, (flush_writer_keeps w).0)
  | inr e ↦ simp e (refl, refl)
]

-- What the client got since `before` is the full body, and the full body is the chunks and the
-- event that is being collected.
pub record Tracks (before : Text) (p : Pipe) : Type 0 where
  pub seen : body p.writer ≡ before ++ p.recorder.full_body
  pub parts : p.recorder.full_body ≡ events p.recorder.chunks ++ p.current_event

-- One line in: it reached the client and joined the full body, or nothing was recorded.
pub record Takes (line : Text) (p : Pipe) (r : Bool × Pipe) : Type 0 where
  pub full :
      r.1.recorder.full_body ≡ (if r.0 then p.recorder.full_body ++ line else p.recorder.full_body)
  pub fails : r.1.writer.fails ≡ p.writer.fails

collect-Tracks :
    (before line : Text) (p : Pipe) (w : ResponseWriter)
    → Tracks before p
    → body w ≡ body p.writer ++ line
    → Tracks before (collect line w p)
collect-Tracks before line p w t e = record {
  seen = e ∙ ap (λ (s : Text). s ++ line) t.seen ∙ append_assoc before p.recorder.full_body line;
  parts =
      ap (λ (s : Text). s ++ line) t.parts
      ∙ append_assoc (events p.recorder.chunks) p.current_event line;
}

end_event-Tracks :
    (before : Text) (now : ℕ) (p : Pipe) → Tracks before p → Tracks before (end_event now p)
unfolding end_event
end_event-Tracks before now p t = record {
  seen = (flush_client_keeps p.writer).0 ∙ t.seen;
  parts = t.parts ∙ simp (events-concat, append-nil);
}

after_write-Tracks :
    (before : Text) (now : ℕ) (line : Text) (p : Pipe) (r : Bool × ResponseWriter)
    → Tracks before p
    → body r.1 ≡ (if r.0 then body p.writer ++ line else body p.writer)
    → Tracks before (after_write now line p r).1
unfolding after_write
after_write-Tracks before now line p (false, w) t e = record { seen = e ∙ t.seen; parts = t.parts }
after_write-Tracks before now line p (true, w) t e =
    let c = collect-Tracks before line p w t e in
    elim (Bool-cases (is_blank line && not (p.current_event ++ line == []))) [
      | inl h ↦ simp h (end_event-Tracks before now (collect line w p) c)
      | inr h ↦ simp h c
    ]

after_write-Takes :
    (now : ℕ) (line : Text) (p : Pipe) (r : Bool × ResponseWriter)
    → r.1.fails ≡ p.writer.fails
    → Takes line p (after_write now line p r)
unfolding after_write
after_write-Takes now line p (false, w) e = record { full = refl; fails = e }
after_write-Takes now line p (true, w) e =
    elim (Bool-cases (is_blank line && not (p.current_event ++ line == []))) [
      | inl h ↦ simp h (record {
        full = unfold end_event in refl;
        fails = unfold end_event in (flush_client_keeps w).1 ∙ e;
      })
      | inr h ↦ simp h (record { full = refl; fails = e })
    ]

module _ (now : ℕ → ℕ) where
  pub pipe_line-Tracks :
      (before line : Text) (p : Pipe) → Tracks before p → Tracks before (pipe_line now line p).1
  unfolding pipe_line
  pipe_line-Tracks before line p t = elim (Bool-cases (line == [])) [
    | inl h ↦ simp h t
    | inr h ↦ simp h (after_write-Tracks before _ line p _ t (body-write_text line p.writer))
  ]

  pub pipe_line-Takes : (line : Text) (p : Pipe) → Takes line p (pipe_line now line p)
  unfolding pipe_line
  pipe_line-Takes line p = elim (Bool-cases (line == [])) [
    | inl h ↦
        simp h (record { full = rw ((eq_iff line []).0 h) (sym (append-nil _)); fails = refl })
    | inr h ↦ simp h (after_write-Takes _ line p _ (write_text_keeps line p.writer).0)
  ]

  after_error-Tracks :
      (before : Text) (ending : Ending) (r : Bool × Pipe)
      → Tracks before r.1
      → body (after_error now ending r).1.writer
        ≡ before ++ (after_error now ending r).1.recorder.full_body
  unfolding after_error finish
  after_error-Tracks before ending (false, p) t = t.seen
  after_error-Tracks before broken (true, p) t = t.seen
  after_error-Tracks before eof (true, p) t = elim (Bool-cases (p.current_event == [])) [
    | inl h ↦ simp h t.seen
    | inr h ↦ simp h ((flush_client_keeps p.writer).0 ∙ t.seen)
  ]

  pipe_loop-Tracks :
      (before : Text) (lines : List Text) (rest : Text) (ending : Ending) (p : Pipe)
      → Tracks before p
      → body (pipe_loop now lines rest ending p).1.writer
        ≡ before ++ (pipe_loop now lines rest ending p).1.recorder.full_body
  unfolding pipe_loop
  pipe_loop-Tracks before [] rest ending p t =
      after_error-Tracks before ending (pipe_line now rest p) (pipe_line-Tracks before rest p t)
  pipe_loop-Tracks before (line ∷ lines) rest ending p t =
      let u = pipe_line-Tracks before line p t in
      let ih = pipe_loop-Tracks before lines rest ending (pipe_line now line p).1 u in
      elim (Bool-cases (pipe_line now line p).0) [ inl h ↦ simp h ih | inr h ↦ simp h u.seen ]

  -- Whatever write or read fails, what the client received from PipeAndRecord is what the full body
  -- holds.
  pub body-pipe_and_record :
      (s : Text) (ending : Ending) (started : ℕ) (w : ResponseWriter)
      → body (pipe_and_record now s ending (new_stream_recorder started) w).1.writer
        ≡ body w
          ++ (pipe_and_record now s ending (new_stream_recorder started) w).1.recorder.full_body
  unfolding pipe_and_record new_stream_recorder
  body-pipe_and_record s ending started w =
      pipe_loop-Tracks (body w) (read_lines s).0 (read_lines s).1 ending _
        (record { seen = sym (append-nil (body w)); parts = refl })
