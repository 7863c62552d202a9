-- ===== src/Proxy/Middleware/Laws.antt =====
-- pkg/proxy/middleware.go: the request's id on both sides, and the answer to a panic.
use reelm.Base.{
  ℕ, ◌≡◌, ap, ◌∙◌, Bool, true, false, Option, none, some, ◌++◌, arith, Text, codes, ◌==◌, eq_refl,
}
use reelm.Http.{Request}
use reelm.Http.Headers.{Header, canonical_key, get, set, values, get-set, values-set}
use reelm.Http.Writer.{
  ResponseWriter, body, written, set_header, write_header, write_text, body-write_text,
  write_text_done, trace-write_header, write_header_keeps,
}
use reelm.Proxy.Middleware.{
  request_id_header, request_id, request_id_middleware, panic_text, recovered, recovery_middleware,
}

-- What the next handler gets.
abbrev pub passed : Text → Request → ResponseWriter → Request × ResponseWriter
passed fresh r w = request_id_middleware fresh (λ q v. (q, v)) r w

-- The next handler sees one id in the request and in the answer's header: the client's, or a fresh
-- one where the client sent none. Every other header of the request is as the client sent it.
pub request_id_middleware-get :
    (fresh : Text) (r : Request) (w : ResponseWriter) (name : Text)
    → (canonical_key request_id_header == canonical_key name) ≡ false
    → (get request_id_header (passed fresh r w).0.header ≡ request_id fresh r)
      × (get request_id_header (passed fresh r w).1.header ≡ request_id fresh r)
      × (values name (passed fresh r w).0.header ≡ values name r.header)
unfolding request_id_middleware set_header
request_id_middleware-get fresh r w name other = (
  get-set request_id_header request_id_header (request_id fresh r) r.header ∙ simp eq_refl,
  get-set request_id_header request_id_header (request_id fresh r) w.header ∙ simp eq_refl,
  values-set request_id_header name (request_id fresh r) r.header ∙ simp other,
)

-- The status that is sent after a write, from what was sent before.
abbrev pub status_after : Option (ℕ × Header) → Header → Option (ℕ × Header)
status_after none h = some (502, h)
status_after (some s) h = some s

sent-write_header :
    (w : ResponseWriter)
    → ((write_header 502 w).sent ≡ status_after w.sent w.header)
      × ((write_header 200 (write_header 502 w)).sent ≡ (write_header 502 w).sent)
unfolding write_header
sent-write_header w = ground arith

sent-write_text :
    (p : Text) (w : ResponseWriter) → (write_text p w).1.sent ≡ (write_header 200 w).sent
unfolding write_text
sent-write_text p w = ground arith

recovered_lem :
    (w : ResponseWriter)
    → ((n : ℕ) → w.fails n ≡ false)
    → ((recovered true w).sent
        ≡ status_after w.sent (set (codes "Content-Type") (codes "application/json") w.header))
      × (body (recovered true w) ≡ body w ++ panic_text)
unfolding recovered set_header
recovered_lem w h =
    let u = set_header (codes "Content-Type") (codes "application/json") w in
    let v = write_header 502 u in
    let k = sent-write_header u in
    let steady : (n : ℕ) → v.fails n ≡ false =
      λ n. ap (λ (f : ℕ → Bool). f n) (write_header_keeps 502 u).0 ∙ h n in
    (
      sent-write_text panic_text v ∙ k.1 ∙ k.0,
      body-write_text panic_text v
          ∙ simp (write_text_done panic_text v steady)
              (ap (λ es. written es ++ panic_text) (trace-write_header 502 u)),
    )

-- After a panic the client of a handler that had sent no header yet gets the status 502, and one
-- that had got a header keeps its status; the text of the error follows what was written before, if
-- the writes succeed.
pub recovery_middleware-panic :
    (next : Request → ResponseWriter → Bool × ResponseWriter) (r : Request) (w : ResponseWriter)
    → (next r w).0 ≡ true
    → ((n : ℕ) → (next r w).1.fails n ≡ false)
    → ((recovery_middleware next r w).sent
        ≡ status_after
            (next r w).1.sent
            (set (codes "Content-Type") (codes "application/json") (next r w).1.header))
      × (body (recovery_middleware next r w) ≡ body (next r w).1 ++ panic_text)
unfolding recovery_middleware
recovery_middleware-panic next r w p h = rw p (recovered_lem (next r w).1 h)
