-- ===== src/Streaming/Replayer/Faithful.antt =====
-- pkg/streaming/replayer.go: what a replay puts on the wire, and when.
use mathlib.Core.List.{append_assoc, append-nil}
use reelm.Base.{
  ℕ, ◌+◌, ◌*◌, ◌≤◌, ◌≡◌, refl, sym, ap, ◌∙◌, Bool, true, false, none, List, [], ◌∷◌, ◌++◌, arith,
  Text, ◌==◌, length, ltb, if◌then◌else◌, Bool-cases, inl, inr,
}
use reelm.Base.Int.{pos_part, is_positive}
use reelm.Http.Writer.{
  ResponseWriter, Event, write, flush, sleep, write_text, flush_writer, set_header, written, body,
  trace-write_text, trace-flush_writer, write_text_done, write_text_keeps, flush_writer_keeps,
  written-append,
}
use reelm.Store.Cassette.{StreamChunk}
use reelm.Streaming.Replayer.{
  StreamReplayer, replay_mode_timed, new_stream_replayer, delay_cap, capped, pause, replay_chunks,
  stream_headers, replay,
}
use reelm.Streaming.Recorder.Transparent.{events}

-- The pause that belongs in front of a chunk in the timed mode: its delay, at most the cap.
abbrev pub pause_of : ℕ → StreamChunk → List Event
pause_of cap c =
    if is_positive c.delay
    then sleep (if ltb cap (pos_part c.delay) then cap else pos_part c.delay) ∷ []
    else []

-- The events that a replay is to make: each chunk is written whole and flushed, and in the timed
-- mode the pause stands in front of it.
abbrev pub script : Bool → ℕ → List StreamChunk → List Event
script timed cap [] = []
script timed cap (c ∷ cs) =
    (if timed then pause_of cap c else []) ++ (write c.event ∷ flush ∷ script timed cap cs)

pause_lem :
    (sr : StreamReplayer) (c : StreamChunk) (w : ResponseWriter)
    → pause sr c w ≡ record w {
      trace = w.trace ++ (if sr.mode == replay_mode_timed then pause_of sr.max_delay c else []);
    }
unfolding pause capped
pause_lem sr c w = elim (Bool-cases (sr.mode == replay_mode_timed)) [
  | inl e ↦ elim (Bool-cases (is_positive c.delay)) [
    | inl f ↦ simp (e, f)
    | inr f ↦ simp (e, f, append-nil)
  ]
  | inr e ↦ simp (e, append-nil)
]

-- One chunk: pause, write, flush.
abbrev step : StreamReplayer → StreamChunk → ResponseWriter → ResponseWriter
step sr c w = flush_writer (write_text c.event (pause sr c w)).1

module _ (sr : StreamReplayer) where
  abbrev timed : Bool
  timed = sr.mode == replay_mode_timed

  fails-step : (c : StreamChunk) (w : ResponseWriter) → (step sr c w).fails ≡ w.fails
  fails-step c w =
      (flush_writer_keeps (write_text c.event (pause sr c w)).1).0
      ∙ (write_text_keeps c.event (pause sr c w)).0
      ∙ ap (λ (v : ResponseWriter). v.fails) (pause_lem sr c w)

  pause-steady :
      (c : StreamChunk) (w : ResponseWriter) (n : ℕ)
      → ((n : ℕ) → w.fails n ≡ false)
      → (pause sr c w).fails n ≡ false
  pause-steady c w n h = ap (λ (v : ResponseWriter). v.fails n) (pause_lem sr c w) ∙ h n

  trace-step :
      (c : StreamChunk) (w : ResponseWriter)
      → ((n : ℕ) → w.fails n ≡ false)
      → (step sr c w).trace
        ≡ w.trace
          ++ ((if timed then pause_of sr.max_delay c else []) ++ (write c.event ∷ flush ∷ []))
  trace-step c w h =
      let a = trace-flush_writer (write_text c.event (pause sr c w)).1 in
      let b = trace-write_text c.event (pause sr c w) (pause-steady c w _ h) in
      let d = ap (λ (v : ResponseWriter). v.trace) (pause_lem sr c w) in
      a
      ∙ ap (λ (t : List Event). t ++ flush ∷ [])
          (b ∙ ap (λ (t : List Event). t ++ write c.event ∷ []) d)
      ∙ simp append_assoc

  -- With a client whose writes succeed a replay ends without an error, and adds its script.
  pub trace-replay_chunks :
      (cs : List StreamChunk) (w : ResponseWriter)
      → ((n : ℕ) → w.fails n ≡ false)
      → ((replay_chunks sr cs w).0 ≡ none)
        × ((replay_chunks sr cs w).1.trace ≡ w.trace ++ script timed sr.max_delay cs)
  unfolding replay_chunks
  trace-replay_chunks [] w h = (refl, sym (append-nil w.trace))
  trace-replay_chunks (c ∷ cs) w h =
      let d = write_text_done c.event (pause sr c w) (λ n. pause-steady c w n h) in
      let (done, trace) =
        trace-replay_chunks cs (step sr c w)
          (λ n. ap (λ (f : ℕ → Bool). f n) (fails-step c w) ∙ h n) in
      (
        simp d done,
        simp d (
            trace
            ∙ ap (λ (t : List Event). t ++ script timed sr.max_delay cs) (trace-step c w h)
            ∙ simp append_assoc),
      )

-- The time that the events of a trace sleep.
abbrev pub slept : List Event → ℕ
slept [] = 0
slept (sleep n ∷ es) = n + slept es
slept (write t ∷ es) = slept es
slept (flush ∷ es) = slept es

slept-append : (es fs : List Event) → slept (es ++ fs) ≡ slept es + slept fs
slept-append [] fs = omega arith
slept-append (sleep n ∷ es) fs = omega (arith, slept-append es fs)
slept-append (write t ∷ es) fs = slept-append es fs
slept-append (flush ∷ es) fs = slept-append es fs

written-script :
    (b : Bool) (cap : ℕ) (cs : List StreamChunk) → written (script b cap cs) ≡ events cs
written-script b cap [] = refl
written-script false cap (c ∷ cs) = ap (λ (t : Text). c.event ++ t) (written-script false cap cs)
written-script true cap (c ∷ cs) = elim (Bool-cases (is_positive c.delay)) [
  | inl e ↦ simp e (ap (λ (t : Text). c.event ++ t) (written-script true cap cs))
  | inr e ↦ simp e (ap (λ (t : Text). c.event ++ t) (written-script true cap cs))
]

slept-instant : (cap : ℕ) (cs : List StreamChunk) → slept (script false cap cs) ≡ 0
slept-instant cap [] = refl
slept-instant cap (c ∷ cs) = slept-instant cap cs

slept-pause_of : (cap : ℕ) (c : StreamChunk) → slept (pause_of cap c) ≤ cap
slept-pause_of cap c = ground arith

slept-timed : (cap : ℕ) (cs : List StreamChunk) → slept (script true cap cs) ≤ cap * length cs
slept-timed cap [] = omega arith
slept-timed cap (c ∷ cs) = grind (
  arith,
  slept-append (pause_of cap c) (write c.event ∷ flush ∷ script true cap cs),
  slept-pause_of cap c,
  slept-timed cap cs,
)

mode-new_stream_replayer :
    (mode : Text)
    → ((new_stream_replayer mode).mode == replay_mode_timed) ≡ (mode == replay_mode_timed)
unfolding new_stream_replayer ◌==◌
mode-new_stream_replayer [] = refl
mode-new_stream_replayer (c ∷ mode) = refl

stream_headers_keeps :
    (w : ResponseWriter)
    → ((stream_headers w).fails ≡ w.fails) × ((stream_headers w).trace ≡ w.trace)
unfolding stream_headers set_header
stream_headers_keeps w = (refl, refl)

-- A client that can flush and whose writes succeed gets, after what it has, each chunk whole and
-- flushed, in order, with the pause of the timed mode in front; no error is returned.
pub trace-replay :
    (mode : Text) (cs : List StreamChunk) (w : ResponseWriter)
    → w.flusher ≡ true
    → ((n : ℕ) → w.fails n ≡ false)
    → ((replay (new_stream_replayer mode) cs w).0 ≡ none)
      × ((replay (new_stream_replayer mode) cs w).1.trace
          ≡ w.trace ++ script (mode == replay_mode_timed) delay_cap cs)
unfolding replay
trace-replay mode cs w fl h =
    let sr = new_stream_replayer mode in
    let k = stream_headers_keeps w in
    let (done, trace) =
      trace-replay_chunks sr cs (stream_headers w) (λ n. ap (λ (f : ℕ → Bool). f n) k.0 ∙ h n) in
    (
      simp fl done,
      simp fl (
          trace
          ∙ ap (λ (t : List Event). t ++ script (sr.mode == replay_mode_timed) sr.max_delay cs) k.1
          ∙ ap (λ (b : Bool). w.trace ++ script b sr.max_delay cs) (mode-new_stream_replayer mode)
          ∙ unfold new_stream_replayer in refl),
    )

pub body-replay :
    (mode : Text) (cs : List StreamChunk) (w : ResponseWriter)
    → w.flusher ≡ true
    → ((n : ℕ) → w.fails n ≡ false)
    → body (replay (new_stream_replayer mode) cs w).1 ≡ body w ++ events cs
body-replay mode cs w fl h =
    ap written (trace-replay mode cs w fl h).1
    ∙ written-append w.trace (script (mode == replay_mode_timed) delay_cap cs)
    ∙ ap (λ (t : Text). body w ++ t) (written-script (mode == replay_mode_timed) delay_cap cs)

slept-replay_lem :
    (mode : Text) (cs : List StreamChunk) (w : ResponseWriter)
    → w.flusher ≡ true
    → ((n : ℕ) → w.fails n ≡ false)
    → slept (replay (new_stream_replayer mode) cs w).1.trace
      ≡ slept w.trace + slept (script (mode == replay_mode_timed) delay_cap cs)
slept-replay_lem mode cs w fl h =
    ap slept (trace-replay mode cs w fl h).1
    ∙ slept-append w.trace (script (mode == replay_mode_timed) delay_cap cs)

-- With a client that can flush and whose writes succeed, a replay sleeps at most half a second for
-- each chunk.
pub slept-replay :
    (mode : Text) (cs : List StreamChunk) (w : ResponseWriter)
    → w.flusher ≡ true
    → ((n : ℕ) → w.fails n ≡ false)
    → slept (replay (new_stream_replayer mode) cs w).1.trace ≤ slept w.trace + delay_cap * length cs
slept-replay mode cs w fl h = elim (Bool-cases (mode == replay_mode_timed)) [
  | inl t ↦ rw (slept-replay_lem mode cs w fl h) (rw t (omega (arith, slept-timed delay_cap cs)))
  | inr f ↦ rw (slept-replay_lem mode cs w fl h) (rw f (omega (arith, slept-instant delay_cap cs)))
]

-- With such a client a replay in another mode than the timed one does not sleep.
pub slept-replay_untimed :
    (mode : Text) (cs : List StreamChunk) (w : ResponseWriter)
    → w.flusher ≡ true
    → ((n : ℕ) → w.fails n ≡ false)
    → (mode == replay_mode_timed) ≡ false
    → slept (replay (new_stream_replayer mode) cs w).1.trace ≡ slept w.trace
slept-replay_untimed mode cs w fl h f =
    rw (slept-replay_lem mode cs w fl h) (rw f (omega (arith, slept-instant delay_cap cs)))
