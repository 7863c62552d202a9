-- ===== src/Proxy/Tls/Connect.antt =====
-- pkg/proxy/tls.go: HandleConnect. The handler writes to an http.ResponseWriter, and Conn.Refines
-- has what the calls that it makes put on the connection, which here takes every write. The client
-- is a parameter: whether the connection is taken over, its TLS hello, whether the handshake
-- succeeds with the certificate it got, and the requests that are then read from the connection.
pub mod Requests
pub mod Answers
use reelm.Base.{ℕ, Bool, Option, none, some, List, [], ◌∷◌, ◌++◌, Text, codes, ◌==◌, if◌then◌else◌}
use reelm.Http.{Request}
use reelm.Http.Headers.{Header}
use reelm.Http.Writer.{ResponseWriter, write_header}
use reelm.Proxy.Handler.{Handler, Outside, World, http_error}
use reelm.Proxy.Handler.Serve.{on_writer, serve_http}
use reelm.Proxy.Tls.Ca.{Crypto, TlsCertificate, CaManager, get_host_certificate}
use reelm.Proxy.Tls.Conn.Refines.{fresh_writer, wire}
use reelm.Store.Interface.{CassetteStore}

module _ (x : Crypto) where
  -- The clock, the randomness and the client of one CONNECT.
  pub record Client : Type 0 where
    pub now : ℕ
    pub draw : ℕ
    -- whether the writer is an http.Hijacker, and whether Hijack succeeds
    pub hijacker : Bool
    pub hijacked : Bool
    -- the server name of the ClientHello, if one comes
    pub hello : Option Text
    pub handshake : Option (TlsCertificate x) → Bool
    -- what http.ReadRequest returns in turn until its first error, each with what its call needs from
    -- outside; where a handler leaves bytes of a body unread, ReadRequest goes on with these, so that
    -- the requests need not be those that the client means to send
    pub requests : List (Request × Outside)

  -- What HandleConnect leaves: what the client got in clear and what it got through TLS.
  pub record Tunnel (s : CassetteStore) : Type 0 where
    pub world : World s
    pub manager : Option (CaManager x)
    pub clear : Text
    pub secure : Text

  -- The callback GetCertificate
  unfoldable pub get_certificate :
      Client → Text → CaManager x → Option Text → Option (TlsCertificate x) × CaManager x
  get_certificate client host m none = (none, m)
  get_certificate client host m (some server_name) =
      get_host_certificate x client.now client.draw
        (if server_name == [] then host else server_name) m

abbrev pub connection_established : Text
connection_established = codes "HTTP/1.1 200 Connection Established\r\n\r\n"

abbrev pub inner_request : Text → Request → Request
inner_request host r = record r { host = host }

module _ (s : CassetteStore) (h : Handler) where
  -- HandleConnect for a writer that is no http.Hijacker, as connResponseWriter is not
  unfoldable pub connect_unhijacked : Outside → Request → World s → World s
  connect_unhijacked o r w = on_writer s h o (http_error (codes "hijacking not supported") 500) w

  -- One inner request, with a writer of its own
  unfoldable pub serve_inner : Text → Request → Outside → World s → World s
  serve_inner host r o w =
      serve_http s h o (connect_unhijacked o) (inner_request host r)
        (record w { writer = fresh_writer })

module _ (status_text : ℕ → Text) (header_lines : Header → Text) (s : CassetteStore)
    (h : Handler) where
  -- The loop over the inner requests, with what was sent so far
  unfoldable pub serve_requests : Text → List (Request × Outside) → World s → Text → World s × Text
  serve_requests host [] w out = (w, out)
  serve_requests host ((r, o) ∷ rs) w out =
      let v = serve_inner s h host r o w in
      serve_requests host rs v (out ++ wire status_text header_lines (write_header 200 v.writer))

module _ (x : Crypto) (status_text : ℕ → Text) (header_lines : Header → Text) (s : CassetteStore)
    (h : Handler) where
  -- HandleConnect once the connection is acknowledged
  unfoldable pub intercept : Client x → Text → CaManager x → World s → Tunnel x s
  intercept client host m w =
      let (cert, n) = get_certificate x client host m client.hello in
      if client.handshake cert
      then (let r = serve_requests status_text header_lines s h host client.requests w [] in
          record {
            world = record r.0 { writer = w.writer };
            manager = some n;
            clear = connection_established;
            secure = r.1;
          })
      else record { world = w; manager = some n; clear = connection_established; secure = [] }

  -- HandleConnect; h.caManager and the client are arguments.
  unfoldable pub handle_connect :
      Client x → Option (CaManager x) → Outside → Request → World s → Tunnel x s
  handle_connect client none o r w = record {
    world = on_writer s h o (http_error (codes "TLS MITM not enabled") 502) w;
    manager = none;
    clear = [];
    secure = [];
  }
  handle_connect client (some m) o r w =
      if client.hijacker
      then if client.hijacked
        then intercept client r.host m w
        else record { world = w; manager = some m; clear = []; secure = [] }
      else record {
        world = connect_unhijacked s h o r w;
        manager = some m;
        clear = [];
        secure = [];
      }
