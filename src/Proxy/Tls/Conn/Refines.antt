-- ===== src/Proxy/Tls/Conn/Refines.antt =====
-- pkg/proxy/tls.go: connResponseWriter keeps the promise of an http.ResponseWriter: what the
-- handler does to a ResponseWriter is, on the connection, the head that was sent and then the body.
use mathlib.Core.List.{append_assoc, append-nil}
use reelm.Base.{
  ℕ, suc, ◌≡◌, refl, sym, ap, ◌∙◌, Bool, true, false, Option, none, some, List, [], ◌∷◌, ◌++◌,
  arith, Text, codes, if◌then◌else◌, ◌&&◌, Bool-cases, Option-cases, inl, inr,
}
use reelm.Http.Headers.{Header}
use reelm.Http.Sent.{is_sent, head_sent, text_sent, flush_sent}
use reelm.Http.Writer.{
  ResponseWriter, write, flush, writes, body, log, write_header, write_text, flush_writer,
  written-append,
}
use reelm.Proxy.Tls.Conn.{
  Connection, conn_write, ConnWriter, new_conn_writer, status_line, conn_write_header,
  conn_write_text, conn_flush,
}

-- What a handler does to its writer: it changes the header, or calls WriteHeader, Write or Flush.
pub data Op : Type 0 where
  change : (Header → Header) → Op
  head : ℕ → Op
  text : Text → Op
  push : Op

-- The calls on the writer that the handler is modelled with.
unfoldable pub run_op : Op → ResponseWriter → ResponseWriter
run_op (change f) w = record w { header = f w.header }
run_op (head code) w = write_header code w
run_op (text p) w = (write_text p w).1
run_op push w = flush_writer w

unfoldable pub run : List Op → ResponseWriter → ResponseWriter
run [] w = w
run (op ∷ ops) w = run ops (run_op op w)

abbrev pub fresh_writer : ResponseWriter
fresh_writer = record { header = []; sent = none; trace = []; flusher = true; fails = λ n. false }

-- The handler calls Flush only once WriteHeader or Write was called.
unfoldable pub pushes_late : Bool → List Op → Bool
pushes_late sent [] = true
pushes_late sent (change f ∷ ops) = pushes_late sent ops
pushes_late sent (head code ∷ ops) = pushes_late true ops
pushes_late sent (text p ∷ ops) = pushes_late true ops
pushes_late sent (push ∷ ops) = sent && pushes_late sent ops

write_header_unsent :
    (code : ℕ) (w : ResponseWriter)
    → w.sent ≡ none
    → write_header code w ≡ record w { sent = some (code, w.header) }
unfolding write_header
write_header_unsent code w e = ground arith

write_header_sent :
    (code : ℕ) (w : ResponseWriter) (p : ℕ × Header) → w.sent ≡ some p → write_header code w ≡ w
unfolding write_header
write_header_sent code w p e = ground arith

conn_write_steady :
    (p : Text) (c : Connection)
    → ((n : ℕ) → c.fails n ≡ false)
    → conn_write p c ≡ (true, record c { out = c.out ++ p; writes = suc c.writes })
unfolding conn_write
conn_write_steady p c h = simp (h c.writes)

module _ (status_text : ℕ → Text) (header_lines : Header → Text) where
  -- The same calls on the connection; Flush does nothing there.
  unfoldable pub run_conn_op : Op → ConnWriter → ConnWriter
  run_conn_op (change f) w = record w { header = f w.header }
  run_conn_op (head code) w = conn_write_header status_text header_lines code w
  run_conn_op (text p) w = (conn_write_text status_text header_lines p w).1
  run_conn_op push w = w

  unfoldable pub run_conn : List Op → ConnWriter → ConnWriter
  run_conn [] w = w
  run_conn (op ∷ ops) w = run_conn ops (run_conn_op op w)

  abbrev pub head_text : ℕ → Header → Text
  head_text code h = status_line status_text header_lines code ++ (header_lines h ++ codes "\r\n")

  abbrev pub sent_text : Option (ℕ × Header) → Text
  sent_text none = []
  sent_text (some (code, h)) = head_text code h

  -- The bytes of an answer.
  abbrev pub wire : ResponseWriter → Text
  wire w = sent_text w.sent ++ body w

  record Refines (before : Text) (w : ResponseWriter) (c : ConnWriter) : Type 0 where
    header : c.header ≡ w.header
    head : c.wrote_head ≡ is_sent w.sent
    out : c.conn.out ≡ before ++ wire w
    unsent : w.sent ≡ none → body w ≡ []
    steady : (n : ℕ) → c.conn.fails n ≡ false
    willing : (n : ℕ) → w.fails n ≡ false

  later_head :
      (code : ℕ) (c : ConnWriter)
      → c.wrote_head ≡ true
      → conn_write_header status_text header_lines code c ≡ c
  unfolding conn_write_header
  later_head code c e = simp e

  -- The head that Write and flush make sure of
  once :
      (c : ConnWriter)
      → (if c.wrote_head then c else conn_write_header status_text header_lines 200 c)
        ≡ conn_write_header status_text header_lines 200 c
  unfolding conn_write_header
  once c = ground arith

  -- The first WriteHeader of a writer over a connection that does not fail.
  first_head :
      (code : ℕ) (c : ConnWriter)
      → c.wrote_head ≡ false
      → ((n : ℕ) → c.conn.fails n ≡ false)
      → conn_write_header status_text header_lines code c ≡ record c {
        status_code = code;
        wrote_head = true;
        conn = record c.conn {
          out = c.conn.out ++ head_text code c.header;
          writes = suc (suc (suc c.conn.writes));
        };
      }
  unfolding conn_write_header conn_write
  first_head code c e h =
      simp (e, h c.conn.writes, h (suc c.conn.writes), h (suc (suc c.conn.writes)), append_assoc)

  write_header-Refines :
      (before : Text) (code : ℕ) (w : ResponseWriter) (c : ConnWriter)
      → Refines before w c
      → Refines before (write_header code w) (conn_write_header status_text header_lines code c)
  write_header-Refines before code w c r = elim (Option-cases w.sent) [
    | inl e ↦
        rw (first_head code c (r.head ∙ ap is_sent e) r.steady, write_header_unsent code w e)
          (record {
            header = r.header;
            head = refl;
            out = out e;
            unsent = λ q. ground arith;
            steady = r.steady;
            willing = r.willing;
          })
    | inr (p, e) ↦ rw (later_head code c (r.head ∙ ap is_sent e), write_header_sent code w p e) r
  ]
    where
      out :
          w.sent ≡ none
          → c.conn.out ++ head_text code c.header
            ≡ before ++ wire (record w { sent = some (code, w.header) })
      out e =
          let empty : c.conn.out ≡ before =
            r.out
            ∙ ap (λ (q : Option (ℕ × Header)). before ++ (sent_text q ++ body w)) e
            ∙ ap (λ (t : Text). before ++ t) (r.unsent e)
            ∙ append-nil before in
          rw (empty, r.header, r.unsent e, append-nil (head_text code w.header)) refl

  -- Once the head is sent, a Write adds its bytes.
  write-Refines :
      (before p : Text) (w : ResponseWriter) (c : ConnWriter)
      → is_sent w.sent ≡ true
      → Refines before w c
      → Refines before (log (write p) w) (record c { conn = (conn_write p c.conn).1 })
  write-Refines before p w c e r = rw (conn_write_steady p c.conn r.steady) (record {
    header = r.header;
    head = r.head;
    out = simp (r.out, written-append w.trace (write p ∷ []), append_assoc, append-nil p);
    unsent = λ q. ground arith;
    steady = r.steady;
    willing = r.willing;
  })

  write_text-Refines :
      (before p : Text) (w : ResponseWriter) (c : ConnWriter)
      → Refines before w c
      → Refines before (write_text p w).1 (conn_write_text status_text header_lines p c).1
  unfolding write_text conn_write_text
  write_text-Refines before p w c r =
      let s =
        write-Refines before p (write_header 200 w)
          (conn_write_header status_text header_lines 200 c) (head_sent 200 w)
          (write_header-Refines before 200 w c r) in
      simp (r.willing (writes w.trace), once c) s

  -- Flush sends nothing on the connection, so it is to come after the head.
  flush-Refines :
      (before : Text) (w : ResponseWriter) (c : ConnWriter)
      → is_sent w.sent ≡ true
      → Refines before w c
      → Refines before (flush_writer w) c
  flush-Refines before w c e r = elim (Option-cases w.sent) [
    | inl q ↦ ground arith
    | inr (p, q) ↦
        unfold flush_writer in
        rw (write_header_sent 200 w p q) (record {
          header = r.header;
          head = r.head;
          out = simp (r.out, written-append w.trace (flush ∷ []), append-nil);
          unsent = λ n. ground arith;
          steady = r.steady;
          willing = r.willing;
        })
  ]

  run-Refines :
      (before : Text) (ops : List Op) (w : ResponseWriter) (c : ConnWriter)
      → pushes_late (is_sent w.sent) ops ≡ true
      → Refines before w c
      → Refines before (run ops w) (run_conn ops c)
  unfolding run run_conn run_op run_conn_op pushes_late
  run-Refines before [] w c e r = r
  run-Refines before (change f ∷ ops) w c e r =
      run-Refines before ops (record w { header = f w.header }) (record c { header = f c.header }) e
        (record {
          header = ap f r.header;
          head = r.head;
          out = r.out;
          unsent = r.unsent;
          steady = r.steady;
          willing = r.willing;
        })
  run-Refines before (head code ∷ ops) w c e r =
      run-Refines before ops _ _ (rw (head_sent code w) e) (write_header-Refines before code w c r)
  run-Refines before (text p ∷ ops) w c e r =
      run-Refines before ops _ _ (rw (text_sent p w) e) (write_text-Refines before p w c r)
  run-Refines before (push ∷ ops) w c e r = elim (Bool-cases (is_sent w.sent)) [
    | inl q ↦
        run-Refines before ops (flush_writer w) c (rw (flush_sent w) (simp q at e))
          (flush-Refines before w c q r)
    | inr q ↦ ground arith
  ]

  -- Over a connection that does not fail, whatever calls a handler makes of the writer, Flush only
  -- once WriteHeader or Write was called, the connection has got, after flush, one answer: the
  -- status line, the lines of the header as they were at the first WriteHeader (status 200 if
  -- there was none), an empty line, and the body as an http.ResponseWriter would have sent it.
  pub conn_flush-run_conn :
      (ops : List Op) (conn : Connection)
      → pushes_late false ops ≡ true
      → ((n : ℕ) → conn.fails n ≡ false)
      → (conn_flush status_text header_lines (run_conn ops (new_conn_writer conn))).conn.out
        ≡ conn.out ++ wire (write_header 200 (run ops fresh_writer))
  unfolding conn_flush new_conn_writer
  conn_flush-run_conn ops conn e h =
      let start : Refines conn.out fresh_writer (new_conn_writer conn) = record {
        header = refl;
        head = refl;
        out = sym (append-nil conn.out);
        unsent = λ q. refl;
        steady = h;
        willing = λ n. refl;
      } in
      let c = run_conn ops (new_conn_writer conn) in
      let r : Refines conn.out (run ops fresh_writer) c =
        run-Refines conn.out ops fresh_writer (new_conn_writer conn) e start in
      rw (once c) (write_header-Refines conn.out 200 (run ops fresh_writer) c r).out
