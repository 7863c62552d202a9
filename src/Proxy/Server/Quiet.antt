-- ===== src/Proxy/Server/Quiet.antt =====
-- pkg/proxy/server.go: what the root handler of a server in replay mode leaves alone.
use reelm.Base.{ℕ, ◌≡◌, Option, Text, codes, ◌==◌, to_lower, Bool-cases, inl, inr}
use reelm.Config.{mode_replay}
use reelm.Http.{Request}
use reelm.Http.Headers.{Header}
use reelm.Proxy.Handler.{Handler, Outside, World}
use reelm.Proxy.Handler.Quiet.{Untouched, serve_http-replay}
use reelm.Proxy.Handler.Serve.{serve_http}
use reelm.Proxy.Middleware.{request_id_middleware}
use reelm.Proxy.Server.{serve_all, identified, root_handler}
use reelm.Proxy.Tls.Ca.{Crypto, CaManager}
use reelm.Proxy.Tls.Connect.{Client}
use reelm.Proxy.Tls.Connect.Requests.{handle_connect-replay}
use reelm.Store.Interface.{CassetteStore}

module _ (x : Crypto) (status_text : ℕ → Text) (header_lines : Header → Text) (s : CassetteStore)
    (h : Handler) where
  serve_all-replay :
      (client : Client x) (m : Option (CaManager x)) (o : Outside) (r : Request) (w : World s)
      → to_lower h.mode ≡ mode_replay
      → Untouched w (serve_all x status_text header_lines s h client m o r w)
  unfolding serve_all
  serve_all-replay client m o r w mode = elim (Bool-cases (r.method == codes "CONNECT")) [
    | inl e ↦
        unfold serve_http in
        simp e (handle_connect-replay x status_text header_lines s h client m o r w mode)
    | inr e ↦ serve_http-replay s h o _ r w mode e
  ]

  -- In replay mode no request that the server takes, whatever its method, headers and body, and
  -- whatever a client sends through a tunnel, reaches the upstream or changes the store.
  pub root_handler-replay :
      (fresh : Text) (client : Client x) (m : Option (CaManager x)) (o : Outside) (r : Request)
      (w : World s)
      → to_lower h.mode ≡ mode_replay
      → Untouched w (root_handler x status_text header_lines s h fresh client m o r w)
  unfolding root_handler identified request_id_middleware
  root_handler-replay fresh client m o r w mode = serve_all-replay client m o _ _ mode
