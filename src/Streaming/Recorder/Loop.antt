-- ===== src/Streaming/Recorder/Loop.antt =====
-- pkg/streaming/recorder.go: the loop of PipeAndRecord as it is written, one ReadBytes a round, with
-- fuel, and that it ends.
use reelm.Base.{
  ℕ, zero, suc, ◌<◌, ◌≡◌, refl, ap, Bool, true, false, Option, none, some, [], ◌∷◌, arith, Text,
  eqb, length, if◌then◌else◌, Bool-cases, inl, inr,
}
use reelm.Http.Writer.{ResponseWriter}
use reelm.Streaming.Lines.{newline, into_first, read_lines}
use reelm.Streaming.Recorder.{
  StreamRecorder, Ending, PipeError, write_failed, Pipe, after_error, pipe_line, pipe_loop,
  pipe_and_record,
}

-- ReadBytes('\n'): the bytes up to the newline, what is left, and whether the reader ended first.
pub record Read : Type 0 where
  pub line : Text
  pub rest : Text
  pub ended : Bool

unfoldable pub read_bytes : Text → Read
read_bytes [] = record { line = []; rest = []; ended = true }
read_bytes (c ∷ s) =
    let later = read_bytes s in
    if eqb c newline
    then record { line = c ∷ []; rest = s; ended = false }
    else record later { line = c ∷ later.line }

-- `for { ... }` in PipeAndRecord; none is that the fuel ran out.
unfoldable pub pipe_rounds : (ℕ → ℕ) → Ending → ℕ → Text → Pipe → Option (Option PipeError × Pipe)
pipe_rounds now ending zero src p = none
pipe_rounds now ending (suc fuel) src p =
    let read = read_bytes src in
    let q = pipe_line now read.line p in
    let more = pipe_rounds now ending fuel read.rest q.1 in
    if q.0
    then if read.ended then some (after_error now ending q) else more
    else some (some write_failed, q.1)

rest-read_bytes : (s : Text) → (read_bytes s).ended ≡ false → length (read_bytes s).rest < length s
unfolding read_bytes
rest-read_bytes [] h = cc
rest-read_bytes (c ∷ s) h = elim (Bool-cases (eqb c newline)) [
  | inl e ↦ simp e (omega arith)
  | inr e ↦ simp e (omega (arith, rest-read_bytes s (simp e at h)))
]

-- The lines of a text that ends, and of one that has a line.
read_lines-ended :
    (s : Text) → (read_bytes s).ended ≡ true → read_lines s ≡ ([], (read_bytes s).line)
unfolding read_bytes read_lines
read_lines-ended [] h = refl
read_lines-ended (c ∷ s) h = elim (Bool-cases (eqb c newline)) [
  | inl e ↦ cc (simp e at h)
  | inr e ↦ simp e (ap (into_first c) (read_lines-ended s (simp e at h)))
]

read_lines-line :
    (s : Text)
    → (read_bytes s).ended ≡ false
    → read_lines s ≡ (
      (read_bytes s).line ∷ (read_lines (read_bytes s).rest).0,
      (read_lines (read_bytes s).rest).1,
    )
unfolding read_bytes read_lines
read_lines-line [] h = cc
read_lines-line (c ∷ s) h = elim (Bool-cases (eqb c newline)) [
  | inl e ↦ simp e
  | inr e ↦ simp e (ap (into_first c) (read_lines-line s (simp e at h)))
]

after_error-failed :
    (now : ℕ → ℕ) (ending : Ending) (q : Bool × Pipe)
    → q.0 ≡ false
    → after_error now ending q ≡ (some write_failed, q.1)
unfolding after_error
after_error-failed now ending (true, p) h = cc
after_error-failed now ending (false, p) h = refl

pipe_rounds-pipe_loop :
    (now : ℕ → ℕ) (ending : Ending) (fuel : ℕ) (src : Text) (p : Pipe)
    → length src < fuel
    → pipe_rounds now ending fuel src p
      ≡ some (pipe_loop now (read_lines src).0 (read_lines src).1 ending p)
unfolding pipe_rounds pipe_loop
pipe_rounds-pipe_loop now ending zero src p h = absurd (omega arith)
pipe_rounds-pipe_loop now ending (suc fuel) src p h =
    let read = read_bytes src in
    let q = pipe_line now read.line p in
    elim (Bool-cases read.ended) [
      | inl e ↦ elim (Bool-cases q.0) [
        | inl f ↦ rw (read_lines-ended src e) (simp (e, f))
        | inr f ↦ rw (read_lines-ended src e) (simp (e, f, after_error-failed now ending q f))
      ]
      | inr e ↦ elim (Bool-cases q.0) [
        | inl f ↦ rw (read_lines-line src e) (
            simp (e, f)
              (pipe_rounds-pipe_loop now ending fuel read.rest q.1
                (omega (arith, rest-read_bytes src e))))
        | inr f ↦ rw (read_lines-line src e) (simp (e, f))
      ]
    ]

-- The loop of PipeAndRecord ends, whatever the upstream sends, however it ends and whatever fails:
-- one round more than the body has bytes is enough, and it leaves what pipe_and_record does, which
-- recurs on the lines of the body.
pub pipe_rounds-pipe_and_record :
    (now : ℕ → ℕ) (body : Text) (ending : Ending) (r : StreamRecorder) (w : ResponseWriter)
    (fuel : ℕ)
    → length body < fuel
    → pipe_rounds now ending fuel body (record { recorder = r; current_event = []; writer = w })
      ≡ some (pipe_and_record now body ending r w)
unfolding pipe_and_record
pipe_rounds-pipe_and_record now body ending r w fuel h =
    pipe_rounds-pipe_loop now ending fuel body
      (record { recorder = r; current_event = []; writer = w }) h
