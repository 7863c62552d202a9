-- ===== src/Streaming/Recorder/Complete.antt =====
-- pkg/streaming/recorder.go: how far the recording goes, and that a steady client gets all of it.
use mathlib.Core.List.{append_assoc, append-nil}
use reelm.Base.{
  ℕ, ◌≡◌, refl, sym, ap, ◌∙◌, Bool, true, false, Option, none, some, List, [], ◌∷◌, ◌++◌, Text,
  ◌==◌, eq_iff, concat, Bool-cases, inl, inr,
}
use reelm.Http.Writer.{ResponseWriter, body, write_text_done}
use reelm.Streaming.Lines.{read_lines, concat-read_lines}
use reelm.Streaming.Recorder.{
  Ending, eof, broken, PipeError, read_failed, Pipe, new_stream_recorder, chunk_at, after_write,
  after_error, reading, pipe_line, finish, pipe_loop, pipe_and_record,
}
use reelm.Streaming.Recorder.Transparent.{
  events, events-concat, Tracks, pipe_line-Tracks, pipe_line-Takes, body-pipe_and_record,
}

after_write-done :
    (now : ℕ) (line : Text) (p : Pipe) (r : Bool × ResponseWriter)
    → r.0 ≡ true
    → (after_write now line p r).0 ≡ true
unfolding after_write
after_write-done now line p (false, w) h = h
after_write-done now line p (true, w) h = refl

module _ (now : ℕ → ℕ) where
  after_error-full_body :
      (ending : Ending) (r : Bool × Pipe)
      → (after_error now ending r).1.recorder.full_body ≡ r.1.recorder.full_body
  unfolding after_error finish
  after_error-full_body ending (false, p) = refl
  after_error-full_body broken (true, p) = refl
  after_error-full_body eof (true, p) = elim (Bool-cases (p.current_event == [])) [
    | inl h ↦ simp h
    | inr h ↦ simp h
  ]

  -- The full body has grown by a beginning of `s`.
  abbrev Grows : Text → Pipe → Pipe → Type 0
  Grows s p q =
      (u : Text) × (v : Text) × (q.recorder.full_body ≡ p.recorder.full_body ++ u) × (u ++ v ≡ s)

  pipe_line-Grows : (line : Text) (p : Pipe) → Grows line p (pipe_line now line p).1
  pipe_line-Grows line p =
      let k = pipe_line-Takes now line p in
      elim (Bool-cases (pipe_line now line p).0) [
        | inl h ↦ (line, [], rw h at k.full, append-nil line)
        | inr h ↦ ([], line, (rw h at k.full) ∙ sym (append-nil p.recorder.full_body), refl)
      ]

  pipe_loop-Grows :
      (lines : List Text) (rest : Text) (ending : Ending) (p : Pipe)
      → Grows (concat lines ++ rest) p (pipe_loop now lines rest ending p).1
  unfolding pipe_loop
  pipe_loop-Grows [] rest ending p =
      let (u, v, e, f) = pipe_line-Grows rest p in
      (u, v, after_error-full_body ending (pipe_line now rest p) ∙ e, f)
  pipe_loop-Grows (line ∷ lines) rest ending p =
      let (u, v, e, f) = pipe_line-Grows line p in
      let k = pipe_line-Takes now line p in
      let (a, b, g, h) = pipe_loop-Grows lines rest ending (pipe_line now line p).1 in
      elim (Bool-cases (pipe_line now line p).0) [
        | inl d ↦ (
          line ++ a,
          b,
          simp d (
              g
              ∙ ap (λ (t : Text). t ++ a) (rw d at k.full)
              ∙ append_assoc p.recorder.full_body line a),
          append_assoc line a b
              ∙ ap (λ (t : Text). line ++ t) h
              ∙ sym (append_assoc line (concat lines) rest),
        )
        | inr d ↦ (
          u,
          v ++ (concat lines ++ rest),
          simp d e,
          sym (append_assoc u v (concat lines ++ rest))
              ∙ ap (λ (t : Text). t ++ (concat lines ++ rest)) f
              ∙ sym (append_assoc line (concat lines) rest),
        )
      ]

  -- The full body is a beginning of the upstream's body, whatever write or read fails.
  pub full_body-prefix :
      (s : Text) (ending : Ending) (started : ℕ) (w : ResponseWriter)
      → (v : Text) × ((pipe_and_record now s ending
              (new_stream_recorder started)
              w).1.recorder.full_body
            ++ v
          ≡ s)
  unfolding pipe_and_record new_stream_recorder
  full_body-prefix s ending started w =
      let (u, v, e, f) =
        pipe_loop-Grows (read_lines s).0 (read_lines s).1 ending
          (record { recorder = new_stream_recorder started; current_event = []; writer = w }) in
      (v, ap (λ (t : Text). t ++ v) e ∙ f ∙ concat-read_lines s)

  -- The outcome of the loop where every write succeeds.
  abbrev pub outcome : Ending → Option PipeError
  outcome eof = none
  outcome broken = some read_failed

  pipe_line-done :
      (line : Text) (p : Pipe)
      → ((n : ℕ) → p.writer.fails n ≡ false)
      → (pipe_line now line p).0 ≡ true
  unfolding pipe_line
  pipe_line-done line p h = elim (Bool-cases (line == [])) [
    | inl e ↦ simp e
    | inr e ↦ simp e (after_write-done (reading now p) line p _ (write_text_done line p.writer h))
  ]

  after_error-outcome :
      (ending : Ending) (r : Bool × Pipe)
      → r.0 ≡ true
      → (after_error now ending r).0 ≡ outcome ending
  unfolding after_error
  after_error-outcome ending (false, p) h = cc
  after_error-outcome eof (true, p) h = refl
  after_error-outcome broken (true, p) h = refl

  after_error-events :
      (before : Text) (r : Bool × Pipe)
      → r.0 ≡ true
      → Tracks before r.1
      → events (after_error now eof r).1.recorder.chunks
        ≡ (after_error now eof r).1.recorder.full_body
  unfolding after_error finish
  after_error-events before (false, p) h t = cc
  after_error-events before (true, p) h t = elim (Bool-cases (p.current_event == [])) [
    | inl e ↦ simp e (
        sym (append-nil _)
        ∙ ap (λ (c : Text). events p.recorder.chunks ++ c) (sym ((eq_iff p.current_event []).0 e))
        ∙ sym t.parts)
    | inr e ↦ simp e (events-concat p.recorder.chunks (chunk_at (reading now p) p) ∙ sym t.parts)
  ]

  -- The state after a loop in which every write succeeds.
  record IsComplete (s : Text) (p : Pipe) (ending : Ending) (r : Option PipeError × Pipe)
      : Type 0 where
    outcome : r.0 ≡ outcome ending
    full : r.1.recorder.full_body ≡ p.recorder.full_body ++ s
    chunks : ending ≡ eof → events r.1.recorder.chunks ≡ r.1.recorder.full_body

  pipe_loop-IsComplete :
      (before : Text) (lines : List Text) (rest : Text) (ending : Ending) (p : Pipe)
      → ((n : ℕ) → p.writer.fails n ≡ false)
      → Tracks before p
      → IsComplete (concat lines ++ rest) p ending (pipe_loop now lines rest ending p)
  unfolding pipe_loop
  pipe_loop-IsComplete before [] rest ending p h t =
      let d = pipe_line-done rest p h in
      let q = pipe_line now rest p in
      record {
        outcome = after_error-outcome ending q d;
        full = after_error-full_body ending q ∙ (rw d at (pipe_line-Takes now rest p).full);
        chunks = λ e. rw e (after_error-events before q d (pipe_line-Tracks now before rest p t));
      }
  pipe_loop-IsComplete before (line ∷ lines) rest ending p h t =
      let d = pipe_line-done line p h in
      let k = pipe_line-Takes now line p in
      let q = (pipe_line now line p).1 in
      let ih =
        pipe_loop-IsComplete before lines rest ending q
          (λ n. ap (λ (f : ℕ → Bool). f n) k.fails ∙ h n) (pipe_line-Tracks now before line p t) in
      record {
        outcome = simp d ih.outcome;
        full = simp d (
            ih.full
            ∙ ap (λ (u : Text). u ++ (concat lines ++ rest)) (rw d at k.full)
            ∙ append_assoc p.recorder.full_body line (concat lines ++ rest)
            ∙ ap (λ (u : Text). p.recorder.full_body ++ u)
                (sym (append_assoc line (concat lines) rest)));
        chunks = λ e. simp d (ih.chunks e);
      }

  pipe_and_record_lem :
      (s : Text) (ending : Ending) (started : ℕ) (w : ResponseWriter)
      → ((n : ℕ) → w.fails n ≡ false)
      → IsComplete s
          (record { recorder = new_stream_recorder started; current_event = []; writer = w })
          ending
          (pipe_and_record now s ending (new_stream_recorder started) w)
  unfolding pipe_and_record new_stream_recorder
  pipe_and_record_lem s ending started w h =
      let c =
        pipe_loop-IsComplete (body w) (read_lines s).0 (read_lines s).1 ending _ h
          (record { seen = sym (append-nil (body w)); parts = refl }) in
      record { outcome = c.outcome; full = c.full ∙ concat-read_lines s; chunks = c.chunks }

  -- Where every write to the client succeeds, PipeAndRecord returns the error of the upstream or,
  -- at the upstream's end, none; the client and the full body hold the upstream's bytes.
  pub pipe_and_record-IsComplete :
      (s : Text) (ending : Ending) (started : ℕ) (w : ResponseWriter)
      → ((n : ℕ) → w.fails n ≡ false)
      → ((pipe_and_record now s ending (new_stream_recorder started) w).0 ≡ outcome ending)
        × (body (pipe_and_record now s ending (new_stream_recorder started) w).1.writer
            ≡ body w ++ s)
        × ((pipe_and_record now s ending (new_stream_recorder started) w).1.recorder.full_body ≡ s)
  unfolding new_stream_recorder
  pipe_and_record-IsComplete s ending started w h =
      let c = pipe_and_record_lem s ending started w h in
      (
        c.outcome,
        body-pipe_and_record now s ending started w ∙ ap (λ (u : Text). body w ++ u) c.full,
        c.full,
      )

  -- Where every write to the client succeeds and the upstream ends without an error, the recorded
  -- chunks put together are the upstream's bytes.
  pub events-pipe_and_record :
      (s : Text) (started : ℕ) (w : ResponseWriter)
      → ((n : ℕ) → w.fails n ≡ false)
      → events (pipe_and_record now s eof (new_stream_recorder started) w).1.recorder.chunks ≡ s
  unfolding new_stream_recorder
  events-pipe_and_record s started w h =
      let c = pipe_and_record_lem s eof started w h in c.chunks refl ∙ c.full
