-- ===== src/Http/Writer.antt =====
-- http.ResponseWriter. What the client sees is a trace of events, sleeps of the handler included.
-- `fails n` says whether the write after n writes fails; a failed write leaves no bytes.
use reelm.Http.Headers.{Header}
use reelm.Base.{
  ℕ, suc, ◌≡◌, refl, Bool, true, false, Option, none, some, List, [], ◌∷◌, ◌++◌, arith, Text,
  if◌then◌else◌, Bool-cases, inl, inr, ap, ◌∙◌,
}

pub data Event : Type 0 where
  write : Text → Event
  flush : Event
  sleep : ℕ → Event

pub record ResponseWriter : Type 0 where
  pub header : Header
  -- the status and the header that were sent, once they are
  pub sent : Option (ℕ × Header)
  pub trace : List Event
  -- whether the writer is an http.Flusher
  pub flusher : Bool
  pub fails : ℕ → Bool

abbrev pub written : List Event → Text
written [] = []
written (write t ∷ es) = t ++ written es
written (flush ∷ es) = written es
written (sleep n ∷ es) = written es

abbrev pub writes : List Event → ℕ
writes [] = 0
writes (write t ∷ es) = suc (writes es)
writes (flush ∷ es) = writes es
writes (sleep n ∷ es) = writes es

abbrev pub body : ResponseWriter → Text
body w = written w.trace

abbrev pub log : Event → ResponseWriter → ResponseWriter
log e w = record w { trace = w.trace ++ e ∷ [] }

-- w.WriteHeader(code): only the first call counts.
unfoldable pub write_header : ℕ → ResponseWriter → ResponseWriter
write_header code w = elim w.sent [ none ↦ record w { sent = some (code, w.header) } | some s ↦ w ]

-- w.Write(p), with whether it succeeded; it sends the header first, with status 200.
unfoldable pub write_text : Text → ResponseWriter → Bool × ResponseWriter
unfolding write_header
write_text p w =
    let v = write_header 200 w in
    if w.fails (writes w.trace) then (false, v) else (true, log (write p) v)

-- flusher.Flush() sends the header too.
unfoldable pub flush_writer : ResponseWriter → ResponseWriter
unfolding write_header
flush_writer w = log flush (write_header 200 w)

unfoldable pub set_header : Text → Text → ResponseWriter → ResponseWriter
set_header k v w = record w { header = reelm.Http.Headers.set k v w.header }

pub written-append : (es fs : List Event) → written (es ++ fs) ≡ written es ++ written fs
written-append [] fs = refl
written-append (write t ∷ es) fs = simp (written-append es fs, mathlib.Core.List.append_assoc)
written-append (flush ∷ es) fs = written-append es fs
written-append (sleep n ∷ es) fs = written-append es fs

pub trace-write_header : (n : ℕ) (w : ResponseWriter) → (write_header n w).trace ≡ w.trace
unfolding write_header
trace-write_header n w = ground arith

pub write_header_keeps :
    (n : ℕ) (w : ResponseWriter)
    → ((write_header n w).fails ≡ w.fails)
      × ((write_header n w).flusher ≡ w.flusher)
      × ((write_header n w).header ≡ w.header)
unfolding write_header
write_header_keeps n w = ground arith

pub body-flush_writer : (w : ResponseWriter) → body (flush_writer w) ≡ body w
body-flush_writer w =
    unfold flush_writer in
    written-append (write_header 200 w).trace (flush ∷ [])
    ∙ mathlib.Core.List.append-nil (body (write_header 200 w))
    ∙ ap written (trace-write_header 200 w)

pub flush_writer_keeps :
    (w : ResponseWriter)
    → ((flush_writer w).fails ≡ w.fails) × ((flush_writer w).flusher ≡ w.flusher)
unfolding flush_writer
flush_writer_keeps w = let k = write_header_keeps 200 w in (k.0, k.1)

-- A write either adds its bytes to the body or leaves the body as it is.
pub body-write_text :
    (p : Text) (w : ResponseWriter)
    → body (write_text p w).1 ≡ (if (write_text p w).0 then body w ++ p else body w)
unfolding write_text
body-write_text p w = elim (Bool-cases (w.fails (writes w.trace))) [
  | inl e ↦ simp e (ap written (trace-write_header 200 w))
  | inr e ↦ simp e (
      written-append (write_header 200 w).trace (write p ∷ [])
      ∙ ap (λ (t : Text). t ++ (p ++ [])) (ap written (trace-write_header 200 w))
      ∙ ap (λ (t : Text). body w ++ t) (mathlib.Core.List.append-nil p))
]

pub write_text_keeps :
    (p : Text) (w : ResponseWriter)
    → ((write_text p w).1.fails ≡ w.fails) × ((write_text p w).1.flusher ≡ w.flusher)
unfolding write_text
write_text_keeps p w = elim (Bool-cases (w.fails (writes w.trace))) [
  | inl e ↦ simp e (let k = write_header_keeps 200 w in (k.0, k.1))
  | inr e ↦ simp e (let k = write_header_keeps 200 w in (k.0, k.1))
]

-- A writer that never fails does not fail on any text.
pub write_text_done :
    (p : Text) (w : ResponseWriter) → ((n : ℕ) → w.fails n ≡ false) → (write_text p w).0 ≡ true
unfolding write_text
write_text_done p w h = simp (h (writes w.trace))

pub trace-write_text :
    (p : Text) (w : ResponseWriter)
    → w.fails (writes w.trace) ≡ false
    → (write_text p w).1.trace ≡ w.trace ++ write p ∷ []
unfolding write_text
trace-write_text p w h =
    simp h (ap (λ (t : List Event). t ++ write p ∷ []) (trace-write_header 200 w))

pub trace-flush_writer : (w : ResponseWriter) → (flush_writer w).trace ≡ w.trace ++ flush ∷ []
trace-flush_writer w =
    unfold flush_writer in ap (λ (t : List Event). t ++ flush ∷ []) (trace-write_header 200 w)
