-- ===== src/Http/Sent.antt =====
-- http.ResponseWriter: whether the header was sent.
use reelm.Base.{ℕ, ◌≡◌, Bool, true, false, Option, none, some, arith, Text, Bool-cases, inl, inr}
use reelm.Http.Headers.{Header}
use reelm.Http.Writer.{ResponseWriter, writes, write_header, write_text, flush_writer}

abbrev pub is_sent : Option (ℕ × Header) → Bool
is_sent none = false
is_sent (some s) = true

pub head_sent : (code : ℕ) (w : ResponseWriter) → is_sent (write_header code w).sent ≡ true
unfolding write_header
head_sent code w = ground arith

pub text_sent : (p : Text) (w : ResponseWriter) → is_sent (write_text p w).1.sent ≡ true
unfolding write_text
text_sent p w = elim (Bool-cases (w.fails (writes w.trace))) [
  | inl e ↦ simp e (head_sent 200 w)
  | inr e ↦ simp e (head_sent 200 w)
]

pub flush_sent : (w : ResponseWriter) → is_sent (flush_writer w).sent ≡ true
unfolding flush_writer
flush_sent w = head_sent 200 w

-- What was sent stays.
pub sent-write_header :
    (code : ℕ) (w : ResponseWriter) (x : ℕ × Header)
    → w.sent ≡ some x
    → (write_header code w).sent ≡ some x
unfolding write_header
sent-write_header code w x h = ground arith

pub sent-write_text :
    (p : Text) (w : ResponseWriter) (x : ℕ × Header)
    → w.sent ≡ some x
    → (write_text p w).1.sent ≡ some x
unfolding write_text
sent-write_text p w x h = elim (Bool-cases (w.fails (writes w.trace))) [
  | inl e ↦ simp e (sent-write_header 200 w x h)
  | inr e ↦ simp e (sent-write_header 200 w x h)
]

pub sent-flush_writer :
    (w : ResponseWriter) (x : ℕ × Header) → w.sent ≡ some x → (flush_writer w).sent ≡ some x
unfolding flush_writer
sent-flush_writer w x h = sent-write_header 200 w x h
