-- ===== src/Proxy/Server.antt =====
-- pkg/proxy/server.go: NewServer, with NewHandler of handler.go, and what Start and Shutdown make of the
-- results of net/http, whose the listening and the timeouts are.
pub mod Quiet
use reelm.Base.{
  ℕ, Bool, true, false, Option, none, some, [], ◌++◌, Text, codes, ◌==◌, if◌then◌else◌,
}
use reelm.Config.{Config}
use reelm.Hasher.{CanonicRequest}
use reelm.Http.{Request}
use reelm.Http.Headers.{Header}
use reelm.Http.Writer.{ResponseWriter}
use reelm.Providers.Anthropic.{anthropic_canonicalize}
use reelm.Providers.Azure.{azure_canonicalize}
use reelm.Providers.Gemini.{gemini_canonicalize}
use reelm.Providers.OpenAi.{canonicalize}
use reelm.Providers.Registry.{Registry, new_registry}
use reelm.Providers.Shared.{JsonCode}
use reelm.Proxy.Handler.{Canonicalizer, Handler, Outside, World}
use reelm.Proxy.Handler.Serve.{serve_http}
use reelm.Proxy.Middleware.{request_id_middleware, recovery_middleware}
use reelm.Proxy.Tls.Ca.{Crypto, CaManager, new_ca_manager}
use reelm.Proxy.Tls.Connect.{Client, handle_connect}
use reelm.Store.Disk.{Disk}
use reelm.Store.Interface.{CassetteStore}
use reelm.Streaming.Replayer.{replay_mode_instant, new_stream_replayer}

-- encoding/json for the requests of the three formats
pub record Codecs : Type 0 where
  pub openai : JsonCode reelm.Providers.OpenAi.RequestSchema
  pub anthropic : JsonCode reelm.Providers.Anthropic.RequestSchema
  pub gemini : JsonCode reelm.Providers.Gemini.RequestSchema

-- DefaultRegistry
abbrev pub default_registry : Codecs → Registry Canonicalizer
default_registry j =
    new_registry (λ r body. canonicalize j.openai (some r) body)
      (λ r body. anthropic_canonicalize j.anthropic (some r) body)
      (λ r body. gemini_canonicalize j.gemini (some r) body)
      (λ r body. azure_canonicalize j.openai (some r) body)

-- A component that the caller gives, or the default one.
abbrev pub or_else {ℓ} : {A : Type ℓ} → Option A → A → A
or_else none a = a
or_else (some b) a = b

module _ (x : Crypto) (j : Codecs) (default_hash : CanonicRequest → Option Text) where
  -- NewHandler without its CA manager; the HTTP client is part of what a call needs from outside.
  unfoldable pub new_handler :
      Config → Option (CanonicRequest → Option Text) → Option (Registry Canonicalizer) → Handler
  new_handler cfg hash registry = record {
    mode = cfg.mode;
    providers = cfg.providers;
    registry = or_else registry (default_registry j);
    hash = or_else hash default_hash;
    stream_replayer = new_stream_replayer (
        if cfg.streaming_replay_mode == [] then replay_mode_instant else cfg.streaming_replay_mode);
  }

  -- The CA manager of NewHandler, which drops the error of NewCAManager; with the clock, the next
  -- draw of randomness, the home directory and the disk.
  unfoldable pub handler_ca : ℕ → ℕ → Option Text → Config → Disk → Option (CaManager x) × Disk
  handler_ca now n home cfg d =
      if cfg.tls.enabled then new_ca_manager x now n home cfg.tls.ca_dir d else (none, d)

module _ (x : Crypto) (status_text : ℕ → Text) (header_lines : Header → Text) (s : CassetteStore)
    (h : Handler) where
  -- ServeHTTP with HandleConnect, for the client of a CONNECT
  unfoldable pub serve_all : Client x → Option (CaManager x) → Outside → Request → World s → World s
  serve_all client m o =
      serve_http s h o (λ r w. (handle_connect x status_text header_lines s h client m o r w).world)

  -- The handler under RequestIDMiddleware
  unfoldable pub identified :
      Text
      → Client x
      → Option (CaManager x)
      → Outside
      → World s
      → Request
      → ResponseWriter
      → World s
  identified fresh client m o w =
      request_id_middleware fresh (λ r v. serve_all client m o r (record w { writer = v }))

  -- The root handler of NewServer: RecoveryMiddleware over that. No call of the model panics.
  unfoldable pub root_handler :
      Text → Client x → Option (CaManager x) → Outside → Request → World s → World s
  root_handler fresh client m o r w = record (identified fresh client m o w r w.writer) {
    writer =
        recovery_middleware (λ q v. (false, (identified fresh client m o w q v).writer)) r w.writer;
  }

-- What http.Server.ListenAndServe returns, which is always an error
pub data ListenError : Type 0 where
  server_closed : ListenError
  listen_failed : Text → ListenError

-- Start
unfoldable pub start : ListenError → Option Text
start server_closed = none
start (listen_failed e) = some (codes "proxy server failed: " ++ e)

-- Shutdown, from what http.Server.Shutdown returned
unfoldable pub shutdown : Option Text → Option Text
shutdown none = none
shutdown (some e) = some (codes "proxy server shutdown error: " ++ e)
