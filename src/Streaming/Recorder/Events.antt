-- ===== src/Streaming/Recorder/Events.antt =====
-- pkg/streaming/recorder.go: where PipeAndRecord cuts a stream of events that each end with a blank
-- line.
use mathlib.Core.List.{append_assoc, append-nil}
use reelm.Base.{
  ℕ, ◌≡◌, refl, sym, ap, ◌∙◌, Bool, true, false, Option, none, List, [], ◌∷◌, ◌++◌, Text, ◌==◌, eqb,
  eq_iff, concat, map, All, if◌then◌else◌, Bool-cases, inl, inr,
}
use reelm.Http.Writer.{ResponseWriter, write_text, write_text_done, write_text_keeps}
use reelm.Store.Cassette.{StreamChunk}
use reelm.Streaming.Lines.{newline, into_first, read_lines}
use reelm.Streaming.Recorder.{
  eof, PipeError, Pipe, new_stream_recorder, chunk_at, is_blank, end_event, collect, after_write,
  after_error, reading, pipe_line, finish, pipe_loop, pipe_and_record,
}
use reelm.Streaming.Recorder.Transparent.{flush_client_keeps}

-- A text with a newline at its end and nowhere else.
abbrev pub is_line : Text → Bool
is_line [] = false
is_line (c ∷ l) = if eqb c newline then l == [] else is_line l

-- An event of a stream: its lines, of which none is blank, and the blank line that ends it.
pub record Event : Type 0 where
  pub lines : List Text
  pub end : Text

abbrev pub event_text : Event → Text
event_text e = concat e.lines ++ e.end

pub record IsPlain (l : Text) : Type 0 where
  pub line : is_line l ≡ true
  pub filled : is_blank l ≡ false

pub record IsEvent (e : Event) : Type 0 where
  pub plain : All IsPlain e.lines
  pub line : is_line e.end ≡ true
  pub blank : is_blank e.end ≡ true

abbrev pub stream_of : List Event → Text
stream_of es = concat (map event_text es)

read_lines-line :
    (l s : Text) → is_line l ≡ true → read_lines (l ++ s) ≡ (l ∷ (read_lines s).0, (read_lines s).1)
unfolding read_lines
read_lines-line [] s h = cc
read_lines-line (c ∷ l) s h = elim (Bool-cases (eqb c newline)) [
  | inl e ↦ let n : l ≡ [] = (eq_iff l []).0 (simp e at h) in rw n (simp e)
  | inr e ↦ simp e (ap (into_first c) (read_lines-line l s (simp e at h)))
]

abbrev and_then : List Text → Text → List Text × Text
and_then ls s = (ls ++ (read_lines s).0, (read_lines s).1)

read_lines-lines :
    (ls : List Text) (s : Text) → All IsPlain ls → read_lines (concat ls ++ s) ≡ and_then ls s
read_lines-lines [] s h = refl
read_lines-lines (l ∷ ls) s (k, h) =
    ap read_lines (append_assoc l (concat ls) s)
    ∙ read_lines-line l (concat ls ++ s) k.line
    ∙ ap (λ (p : List Text × Text). (l ∷ p.0, p.1)) (read_lines-lines ls s h)

abbrev all_lines : List Event → List Text
all_lines [] = []
all_lines (e ∷ es) = e.lines ++ e.end ∷ all_lines es

read_lines-stream_of :
    (es : List Event) → All IsEvent es → read_lines (stream_of es) ≡ (all_lines es, [])
read_lines-stream_of [] h = unfold read_lines in refl
read_lines-stream_of (e ∷ es) (k, h) =
    ap read_lines (append_assoc (concat e.lines) e.end (stream_of es))
    ∙ read_lines-lines e.lines (e.end ++ stream_of es) k.plain
    ∙ ap (λ (p : List Text × Text). (e.lines ++ p.0, p.1))
        (read_lines-line e.end (stream_of es) k.line
          ∙ ap (λ (p : List Text × Text). (e.end ∷ p.0, p.1)) (read_lines-stream_of es h))

abbrev pub texts : List StreamChunk → List Text
texts cs = map (λ c. c.event) cs

texts-append :
    (cs : List StreamChunk) (c : StreamChunk) → texts (cs ++ c ∷ []) ≡ texts cs ++ c.event ∷ []
texts-append [] c = refl
texts-append (d ∷ cs) c = ap (λ (l : List Text). d.event ∷ l) (texts-append cs c)

-- Where a pipe whose writes succeed stands: the texts of its chunks, and the open event.
record Stands (p : Pipe) (done : List Text) (open_event : Text) : Type 0 where
  cut : texts p.recorder.chunks ≡ done
  opened : p.current_event ≡ open_event
  steady : (n : ℕ) → p.writer.fails n ≡ false

module _ (now : ℕ → ℕ) where
  record Goes (r : Bool × Pipe) (cut : List Text) (open_event : Text) : Type 0 where
    done : r.0 ≡ true
    stands : Stands r.1 cut open_event

  after_write-plain :
      (n : ℕ) (l : Text) (p : Pipe) (r : Bool × ResponseWriter) (cut : List Text) (current : Text)
      → is_blank l ≡ false
      → Stands p cut current
      → r.0 ≡ true
      → ((n : ℕ) → r.1.fails n ≡ false)
      → Goes (after_write n l p r) cut (current ++ l)
  unfolding after_write
  after_write-plain n l p (false, w) cut current b k e f = cc
  after_write-plain n l p (true, w) cut current b k e f = simp b (record {
    done = refl;
    stands = record { cut = k.cut; opened = ap (λ (t : Text). t ++ l) k.opened; steady = f };
  })

  filled : (s l : Text) → is_line l ≡ true → (s ++ l == []) ≡ false
  unfolding ◌==◌
  filled [] [] h = cc
  filled [] (c ∷ l) h = refl
  filled (c ∷ s) l h = refl

  end_event-Stands :
      (n : ℕ) (p : Pipe) (cut : List Text) (current : Text)
      → Stands p cut current
      → Stands (end_event n p) (cut ++ current ∷ []) []
  unfolding end_event
  end_event-Stands n p cut current k = record {
    cut =
        texts-append p.recorder.chunks (chunk_at n p)
        ∙ ap (λ (l : List Text). l ++ p.current_event ∷ []) k.cut
        ∙ ap (λ (t : Text). cut ++ t ∷ []) k.opened;
    opened = refl;
    steady = λ m. ap (λ (f : ℕ → Bool). f m) (flush_client_keeps p.writer).1 ∙ k.steady m;
  }

  after_write-blank :
      (n : ℕ) (l : Text) (p : Pipe) (r : Bool × ResponseWriter) (cut : List Text) (current : Text)
      → is_line l ≡ true
      → is_blank l ≡ true
      → Stands p cut current
      → r.0 ≡ true
      → ((n : ℕ) → r.1.fails n ≡ false)
      → Goes (after_write n l p r) (cut ++ (current ++ l) ∷ []) []
  unfolding after_write
  after_write-blank n l p (false, w) cut current h b k e f = cc
  after_write-blank n l p (true, w) cut current h b k e f =
      simp (b, filled p.current_event l h)
        (record {
          done = refl;
          stands =
              end_event-Stands n (collect l w p) cut (current ++ l)
                (record { cut = k.cut; opened = ap (λ (t : Text). t ++ l) k.opened; steady = f });
        })

  steady-write_text :
      (l : Text) (w : ResponseWriter)
      → ((n : ℕ) → w.fails n ≡ false)
      → (n : ℕ) → (write_text l w).1.fails n ≡ false
  steady-write_text l w h n = ap (λ (f : ℕ → Bool). f n) (write_text_keeps l w).0 ∙ h n

  unempty : (l : Text) → is_line l ≡ true → (l == []) ≡ false
  unempty l h = filled [] l h

  pipe_line-plain :
      (l : Text) (p : Pipe) (cut : List Text) (current : Text)
      → IsPlain l
      → Stands p cut current
      → Goes (pipe_line now l p) cut (current ++ l)
  unfolding pipe_line
  pipe_line-plain l p cut current h k = simp (unempty l h.line) (
      after_write-plain (reading now p) l p (write_text l p.writer) cut current h.filled k
        (write_text_done l p.writer k.steady) (steady-write_text l p.writer k.steady))

  pipe_line-blank :
      (l : Text) (p : Pipe) (cut : List Text) (current : Text)
      → is_line l ≡ true
      → is_blank l ≡ true
      → Stands p cut current
      → Goes (pipe_line now l p) (cut ++ (current ++ l) ∷ []) []
  unfolding pipe_line
  pipe_line-blank l p cut current h b k = simp (unempty l h) (
      after_write-blank (reading now p) l p (write_text l p.writer) cut current h b k
        (write_text_done l p.writer k.steady) (steady-write_text l p.writer k.steady))

  -- The loop has run over some lines and stands at `q`.
  record Runs (lines more : List Text) (p : Pipe) (cut : List Text) (open_event : Text)
      : Type 0 where
    last : Pipe
    runs : pipe_loop now (lines ++ more) [] eof p ≡ pipe_loop now more [] eof last
    stands : Stands last cut open_event

  pipe_loop-lines :
      (ls more : List Text) (p : Pipe) (cut : List Text) (current : Text)
      → All IsPlain ls
      → Stands p cut current
      → Runs ls more p cut (current ++ concat ls)
  unfolding pipe_loop
  pipe_loop-lines [] more p cut current h k = record {
    last = p;
    runs = refl;
    stands = rw append-nil k;
  }
  pipe_loop-lines (l ∷ ls) more p cut current (h, hs) k =
      let g = pipe_line-plain l p cut current h k in
      let r = pipe_loop-lines ls more (pipe_line now l p).1 cut (current ++ l) hs g.stands in
      record {
        last = r.last;
        runs = simp g.done r.runs;
        stands = rw (sym (append_assoc current l (concat ls))) r.stands;
      }

  record Cuts (r : Option PipeError × Pipe) (done : List Text) : Type 0 where
    result : r.0 ≡ none
    cut : texts r.1.recorder.chunks ≡ done

  pipe_loop-end :
      (p : Pipe) (cut : List Text) → Stands p cut [] → Cuts (pipe_loop now [] [] eof p) cut
  unfolding pipe_loop pipe_line after_error finish ◌==◌
  pipe_loop-end p cut k = simp k.opened (record { result = refl; cut = k.cut })

  pipe_loop-events :
      (es : List Event) (p : Pipe) (cut : List Text)
      → All IsEvent es
      → Stands p cut []
      → Cuts (pipe_loop now (all_lines es) [] eof p) (cut ++ map event_text es)
  pipe_loop-events [] p cut h k = rw append-nil (pipe_loop-end p cut k)
  pipe_loop-events (e ∷ es) p cut (h, hs) k =
      let r = pipe_loop-lines e.lines (e.end ∷ all_lines es) p cut [] h.plain k in
      let g = pipe_line-blank e.end r.last cut (concat e.lines) h.line h.blank r.stands in
      let ih =
        pipe_loop-events es (pipe_line now e.end r.last).1 (cut ++ event_text e ∷ []) hs g.stands in
      let step : pipe_loop now (e.end ∷ all_lines es) [] eof r.last
          ≡ pipe_loop now (all_lines es) [] eof (pipe_line now e.end r.last).1 =
        unfold pipe_loop in simp g.done in
      rw (r.runs ∙ step) (rw (sym (append_assoc cut (event_text e ∷ []) (map event_text es))) ih)

  -- PipeAndRecord cuts a stream at its events: of a stream that consists of events, each some lines
  -- that are not blank and one blank line, ended by "\n" or "\r\n", and that ends without an error,
  -- it records one chunk for each event, which holds the event's bytes, and returns no error, if
  -- every write to the client succeeds.
  pub chunks-pipe_and_record :
      (es : List Event) (started : ℕ) (w : ResponseWriter)
      → All IsEvent es
      → ((n : ℕ) → w.fails n ≡ false)
      → ((pipe_and_record now (stream_of es) eof (new_stream_recorder started) w).0 ≡ none)
        × (texts
              (pipe_and_record now
                (stream_of es)
                eof
                (new_stream_recorder started)
                w).1.recorder.chunks
            ≡ map event_text es)
  unfolding pipe_and_record new_stream_recorder
  chunks-pipe_and_record es started w h steady =
      let p : Pipe = record {
        recorder = new_stream_recorder started;
        current_event = [];
        writer = w;
      } in
      let k = pipe_loop-events es p [] h (record { cut = refl; opened = refl; steady = steady }) in
      rw (read_lines-stream_of es h) (k.result, k.cut)
