-- ===== src/Proxy/Tls/Connect/Answers.antt =====
-- pkg/proxy/tls.go: what the client gets through a tunnel, and with which certificate.
use mathlib.Core.List.{append_assoc, append-nil}
use reelm.Base.{
  ℕ, ◌≡◌, refl, sym, ◌∙◌, true, Option, none, some, List, [], ◌∷◌, ◌++◌, Text, ◌==◌, if◌then◌else◌,
}
use reelm.Http.{Request}
use reelm.Http.Headers.{Header}
use reelm.Http.Sent.{is_sent}
use reelm.Proxy.Handler.Answered.{http_error-sent, serve_http-IsAnswered}
use reelm.Proxy.Tls.Connect.Requests.{serve_inner_all}
use reelm.Http.Writer.{ResponseWriter, write_header, body}
use reelm.Proxy.Handler.{Handler, Outside, World}
use reelm.Proxy.Tls.Ca.{Crypto, TlsCertificate, CaManager, host_of}
use reelm.Proxy.Tls.Ca.Cache.{
  IsIssued, IsSound, get_host_certificate-IsSound, get_host_certificate_keeps,
}
use reelm.Proxy.Tls.Conn.Refines.{fresh_writer, head_text, wire}
use reelm.Proxy.Tls.Connect.{
  Client, get_certificate, connection_established, connect_unhijacked, inner_request, serve_inner,
  serve_requests, intercept, handle_connect,
}
use reelm.Store.Interface.{CassetteStore}

module _ (status_text : ℕ → Text) (header_lines : Header → Text) (s : CassetteStore)
    (h : Handler) where
  -- The answers to the requests that were read from a tunnel, from a world on: to each in its turn, the
  -- status and the header that the handler sent for this request, and the body that it wrote.
  pub data Answers (host : Text) : List (Request × Outside) → World s → Text → Type 0 where
    no_more : (w : World s) → Answers host [] w []
    answer :
        (r : Request) (o : Outside) (rs : List (Request × Outside)) (w : World s) (code : ℕ)
        (header : Header) (rest : Text)
        → (serve_inner s h host r o w).writer.sent ≡ some (code, header)
        → Answers host rs (serve_inner s h host r o w) rest
        → Answers host ((r, o) ∷ rs) w (
            head_text status_text header_lines code header
            ++ (body (serve_inner s h host r o w).writer ++ rest))

sent-cases :
    (q : Option (ℕ × Header))
    → is_sent q ≡ true
    → (code : ℕ) × (header : Header) × (q ≡ some (code, header))
sent-cases none e = cc
sent-cases (some (code, header)) e = (code, header, refl)

regroup :
    (out a head body t : Text) → a ≡ head ++ body → (out ++ a) ++ t ≡ out ++ (head ++ (body ++ t))
regroup out a head body t e = simp (e, append_assoc)

module _ (x : Crypto) where
  get_certificate_keeps :
      (client : Client x) (host : Text) (m : CaManager x) (hello : Option Text)
      → IsSound x m
      → IsSound x (get_certificate x client host m hello).1
  unfolding get_certificate
  get_certificate_keeps client host m none s = s
  get_certificate_keeps client host m (some name) s =
      get_host_certificate_keeps x client.now client.draw _ m s

  -- The certificate that a client gets was made for the host that it names in its hello, or, when
  -- it names none, for the host of its CONNECT, if every certificate of the cache was made for its
  -- host.
  pub get_certificate-IsIssued :
      (client : Client x) (host name : Text) (m : CaManager x) (c : TlsCertificate x)
      → IsSound x m
      → (get_certificate x client host m (some name)).0 ≡ some c
      → IsIssued x m (host_of x (if name == [] then host else name)) c
  unfolding get_certificate
  get_certificate-IsIssued client host name m c s h =
      (get_host_certificate-IsSound x client.now client.draw _ m c s h).0

-- A CONNECT within the tunnel is answered too, with its refusal.
serve_inner-sent :
    (s : CassetteStore) (h : Handler) (host : Text) (r : Request) (o : Outside) (w : World s)
    → is_sent (serve_inner s h host r o w).writer.sent ≡ true
unfolding connect_unhijacked
serve_inner-sent s h host r o w =
    serve_inner_all s h (λ w v. is_sent v.writer.sent ≡ true) host r o w (http_error-sent _ 500 _)
      (λ e.
        unfold serve_inner in
        serve_http-IsAnswered s h o (connect_unhijacked s h o) (inner_request host r)
          (record w { writer = fresh_writer }) e)

module _ (status_text : ℕ → Text) (header_lines : Header → Text) (s : CassetteStore)
    (h : Handler) where
  wire-sent :
      (w : ResponseWriter) (code : ℕ) (header : Header)
      → w.sent ≡ some (code, header)
      → wire status_text header_lines (write_header 200 w)
        ≡ head_text status_text header_lines code header ++ body w
  unfolding write_header
  wire-sent w code header e = rw (e, write_header) (rw e refl)

  serve_requests-Answers :
      (host : Text) (rs : List (Request × Outside)) (w : World s) (out : Text)
      → (t : Text) × ((serve_requests status_text header_lines s h host rs w out).1 ≡ out ++ t)
        × Answers status_text header_lines s h host rs w t
  unfolding serve_requests
  serve_requests-Answers host [] w out = ([], sym (append-nil out), no_more w)
  serve_requests-Answers host ((r, o) ∷ rs) w out =
      let v = serve_inner s h host r o w in
      let (code, header, f) = sent-cases v.writer.sent (serve_inner-sent s h host r o w) in
      let e = wire-sent v.writer code header f in
      let (t, p, q) = serve_requests-Answers host rs v _ in
      (
        head_text status_text header_lines code header ++ (body v.writer ++ t),
        p ∙ regroup out _ (head_text status_text header_lines code header) (body v.writer) t e,
        answer r o rs w code header t f q,
      )

  -- If the connection is taken over and the handshake succeeds with the certificate that the client
  -- gets, the client is told in clear that the connection is established, and then gets through
  -- TLS, for each request that is read from the tunnel and in their order, the status and the header
  -- that the handler sends for that request, in the state that the requests before it left, and the
  -- body that it writes. The handler sends them for every request, in each mode.
  pub handle_connect-Answers :
      (x : Crypto) (client : Client x) (m : CaManager x) (o : Outside) (r : Request) (w : World s)
      → client.hijacker ≡ true
      → client.hijacked ≡ true
      → client.handshake (get_certificate x client r.host m client.hello).0 ≡ true
      → ((handle_connect x status_text header_lines s h client (some m) o r w).clear
          ≡ connection_established)
        × Answers status_text header_lines s h r.host client.requests w
            (handle_connect x status_text header_lines s h client (some m) o r w).secure
  unfolding handle_connect intercept
  handle_connect-Answers x client m o r w a b c =
      let (t, p, q) = serve_requests-Answers r.host client.requests w [] in
      simp (a, b, c, p) (refl, q)
