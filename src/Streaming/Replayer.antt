-- ===== src/Streaming/Replayer.antt =====
-- pkg/streaming/replayer.go
pub mod Faithful
pub mod Sent
use reelm.Base.{
  ℕ, ◌*◌, ◌≡◌, refl, Bool, true, false, ◌&&◌, Option, none, some, List, [], ◌∷◌, ◌++◌, arith, Text,
  codes, ◌==◌, ltb, if◌then◌else◌,
}
use reelm.Base.Int.{pos_part, is_positive}
use reelm.Http.Writer.{ResponseWriter, sleep, log, write_text, flush_writer, set_header}
use reelm.Store.Cassette.{StreamChunk}

-- ReplayMode is a text; these two are named.
abbrev pub replay_mode_instant : Text
replay_mode_instant = codes "instant"

abbrev pub replay_mode_timed : Text
replay_mode_timed = codes "timed"

pub record StreamReplayer : Type 0 where
  pub mode : Text
  pub max_delay : ℕ

-- 500 * time.Millisecond
abbrev pub delay_cap : ℕ
delay_cap = 500000000

pub new_stream_replayer : Text → StreamReplayer
new_stream_replayer mode = record {
  mode = if mode == [] then replay_mode_instant else mode;
  max_delay = delay_cap;
}

pub data ReplayError : Type 0 where
  no_flusher write_failed : ReplayError

-- `if sleepDur > sr.maxDelay { sleepDur = sr.maxDelay }`
pub capped : ℕ → ℕ → ℕ
capped max_delay sleep_dur = if ltb max_delay sleep_dur then max_delay else sleep_dur

-- The sleep before a chunk, and none in another mode than the timed one.
pub pause : StreamReplayer → StreamChunk → ResponseWriter → ResponseWriter
pause sr chunk w =
    if sr.mode == replay_mode_timed && is_positive chunk.delay
    then log (sleep (capped sr.max_delay (pos_part chunk.delay))) w
    else w

pub replay_chunks :
    StreamReplayer → List StreamChunk → ResponseWriter → Option ReplayError × ResponseWriter
replay_chunks sr [] w = (none, w)
replay_chunks sr (chunk ∷ chunks) w =
    let (done, v) = write_text chunk.event (pause sr chunk w) in
    let more = replay_chunks sr chunks (flush_writer v) in
    if done then more else (some write_failed, v)

pub stream_headers : ResponseWriter → ResponseWriter
stream_headers w = set_header (codes "Connection") (codes "keep-alive") (
    set_header (codes "Cache-Control") (codes "no-cache")
      (set_header (codes "Content-Type") (codes "text/event-stream") w))

-- Replay
pub replay :
    StreamReplayer → List StreamChunk → ResponseWriter → Option ReplayError × ResponseWriter
replay sr chunks w =
    if w.flusher then replay_chunks sr chunks (stream_headers w) else (some no_flusher, w)

-- All that a replay computes with.
unfoldable pub replayer_code : Unit {0}
unfolding replay replay_chunks stream_headers pause capped new_stream_replayer write_text
    flush_writer set_header ◌==◌
replayer_code = tt
