-- ===== src/Proxy/Handler/Quiet.antt =====
-- pkg/proxy/handler.go: what reaches the upstream, in each mode.
use reelm.Base.{
  ◌≡◌, refl, true, false, ◌||◌, Option, none, some, [], ◌∷◌, ◌++◌, Text, codes, ◌==◌, eq_iff,
  Fallible, ok, failed, to_lower, Bool-cases, inl, inr,
}
use reelm.Config.{mode_record, mode_replay, mode_auto}
use reelm.Hasher.{CanonicRequest}
use reelm.Http.{Request}
use reelm.Http.Writer.{ResponseWriter, set_header}
use reelm.Providers.Registry.{detect_provider}
use reelm.Store.Cassette.{Cassette}
use reelm.Store.Interface.{CassetteStore}
use reelm.Streaming.Recorder.{Ending, eof, broken}
use reelm.Proxy.Handler.{
  Canonicalizer, UpstreamRequest, UpstreamResponse, Handler, Outside, World, is_event_stream,
  http_error, error_text,
}
use reelm.Proxy.Handler.Serve.{
  on_writer, replay_loaded, handle_replay, save_cassette, relay_stream, relay_plain, relay,
  upstream_request, forward, handle_record, auto_loaded, by_mode, hashed, canonicalized, buffered,
  detected, serve_http, serve_health,
}

-- Nothing went upstream and nothing was stored.
abbrev pub Untouched : {s : CassetteStore} → World s → World s → Type 0
Untouched w v = (v.sent ≡ w.sent) × (v.store ≡ w.store)

-- httpClient.Do was called at most once, with the client's method and body.
pub data AtMostOne {s : CassetteStore} (r : Request) (w v : World s) : Type 0 where
  quiet : v.sent ≡ w.sent → AtMostOne r w v
  one :
      (up : UpstreamRequest)
      → up.method ≡ r.method
      → r.body ≡ some up.body
      → v.sent ≡ w.sent ++ up ∷ []
      → AtMostOne r w v

module _ (s : CassetteStore) (h : Handler) (o : Outside) where
  -- In one mode whatever holds of step 6 holds of the whole of ServeHTTP, if it holds where only
  -- the writer changes.
  module _ (P : World s → World s → Type 0)
      (writer_only : (f : ResponseWriter → ResponseWriter) (w : World s)
        → P w (on_writer s h o f w))
      (after_header : (f : ResponseWriter → ResponseWriter) (w v : World s)
        → P (on_writer s h o f w) v
        → P w v)
      (r : Request)
      (step : (body provider hash : Text) (canonic : CanonicRequest) (w : World s)
        → r.body ≡ some body
        → P w (by_mode s h o r provider hash canonic body w)) where
    hashed_all :
        (provider : Text) (canonic : CanonicRequest) (body : Text) (q : Option Text) (w : World s)
        → r.body ≡ some body
        → P w (hashed s h o r provider canonic body q w)
    unfolding hashed
    hashed_all provider canonic body none w e =
        writer_only (http_error (error_text (codes "failed to compute request hash")) 500) w
    hashed_all provider canonic body (some hash) w e =
        after_header (set_header (codes "X-Reelm-Hash") hash) w _
          (step body provider hash canonic _ e)

    canonicalized_all :
        (provider body : Text) (q : Fallible CanonicRequest) (w : World s)
        → r.body ≡ some body
        → P w (canonicalized s h o r provider body q w)
    unfolding canonicalized
    canonicalized_all provider body (failed t) w e =
        writer_only (http_error (error_text (codes "canonicalization failed: " ++ t)) 400) w
    canonicalized_all provider body (ok canonic) w e =
        hashed_all provider canonic body (h.hash canonic) w e

    buffered_all :
        (provider : Text) (c : Canonicalizer) (q : Option Text) (w : World s)
        → r.body ≡ q
        → P w (buffered s h o r provider c q w)
    unfolding buffered
    buffered_all provider c none w e =
        writer_only (http_error (error_text (codes "failed to read request body")) 400) w
    buffered_all provider c (some body) w e = canonicalized_all provider body (c r body) w e

    detected_all : (q : Fallible (Text × Canonicalizer)) (w : World s) → P w (detected s h o r q w)
    unfolding detected
    detected_all (failed t) w =
        writer_only (http_error (error_text (codes "unknown provider: " ++ t)) 400) w
    detected_all (ok (provider, c)) w = buffered_all provider c r.body w refl

    serve_http_all :
        (connect : Request → World s → World s) (w : World s)
        → (r.method == codes "CONNECT") ≡ false
        → P w (serve_http s h o connect r w)
    unfolding serve_http
    serve_http_all connect w e =
        elim (Bool-cases (r.path == codes "/healthz" || r.path == codes "/readyz")) [
          | inl f ↦ simp (e, f) (writer_only (serve_health s h o) w)
          | inr f ↦ simp (e, f) (detected_all (detect_provider o.quote (some r) h.registry) w)
        ]

  replay_loaded-Untouched :
      (hash : Text) (q : Option Cassette) (w : World s) → Untouched w (replay_loaded s h o hash q w)
  unfolding replay_loaded
  replay_loaded-Untouched hash none w = (refl, refl)
  replay_loaded-Untouched hash (some c) w = (refl, refl)

  handle_replay-Untouched : (hash : Text) (w : World s) → Untouched w (handle_replay s h o hash w)
  unfolding handle_replay
  handle_replay-Untouched hash w = replay_loaded-Untouched hash (s.load hash w.store) w

  by_mode-replay :
      (provider hash : Text) (canonic : CanonicRequest) (body : Text) (r : Request) (w : World s)
      → to_lower h.mode ≡ mode_replay
      → Untouched w (by_mode s h o r provider hash canonic body w)
  unfolding by_mode
  by_mode-replay provider hash canonic body r w m =
      let e : (to_lower h.mode == mode_replay) ≡ true =
        (eq_iff (to_lower h.mode) mode_replay).1 m in
      simp e (handle_replay-Untouched hash w)

  -- In replay mode no request but a CONNECT, whatever its headers, its body and the registry say,
  -- reaches the upstream or changes the store.
  pub serve_http-replay :
      (connect : Request → World s → World s) (r : Request) (w : World s)
      → to_lower h.mode ≡ mode_replay
      → (r.method == codes "CONNECT") ≡ false
      → Untouched w (serve_http s h o connect r w)
  serve_http-replay connect r w m e =
      serve_http_all Untouched (λ f w. (refl, refl)) (λ f w v p. p) r
        (λ body provider hash canonic w q. by_mode-replay provider hash canonic body r w m) connect
        w e

  relay-sent :
      (r : Request) (provider hash : Text) (canonic : CanonicRequest) (body : Text)
      (q : Fallible UpstreamResponse) (w : World s)
      → (relay s h o r provider hash canonic body q w).sent ≡ w.sent
  unfolding relay relay_stream save_cassette
  relay-sent r provider hash canonic body (failed e) w = refl
  relay-sent r provider hash canonic body (ok resp) w = elim (Bool-cases (is_event_stream resp)) [
    | inl e ↦ simp e
    | inr e ↦ simp e (plain resp.ending _)
  ]
    where
      plain :
          (ending : Ending) (v : World s)
          → (relay_plain s h o r provider hash canonic body resp ending v).sent ≡ v.sent
      plain eof v = unfold relay_plain in refl
      plain broken v = unfold relay_plain in refl

  forward-AtMostOne :
      (r : Request) (provider hash : Text) (canonic : CanonicRequest) (body : Text)
      (q : Fallible Text) (w : World s)
      → r.body ≡ some body
      → AtMostOne r w (forward s h o r provider hash canonic body q w)
  unfolding forward
  forward-AtMostOne r provider hash canonic body (failed e) w b = quiet refl
  forward-AtMostOne r provider hash canonic body (ok url) w b =
      elim (Bool-cases (o.builds r.method url)) [
        | inl e ↦ simp e (
            one (upstream_request s h o r url body) refl b
              (relay-sent r provider hash canonic body _ _))
        | inr e ↦ simp e (quiet refl)
      ]

  auto_loaded-AtMostOne :
      (r : Request) (provider hash : Text) (canonic : CanonicRequest) (body : Text)
      (q : Option Cassette) (w : World s)
      → r.body ≡ some body
      → AtMostOne r w (auto_loaded s h o r provider hash canonic body q w)
  unfolding auto_loaded handle_record
  auto_loaded-AtMostOne r provider hash canonic body (some c) w b = quiet refl
  auto_loaded-AtMostOne r provider hash canonic body none w b =
      forward-AtMostOne r provider hash canonic body _ w b

  by_mode-AtMostOne :
      (r : Request) (provider hash : Text) (canonic : CanonicRequest) (body : Text) (w : World s)
      → r.body ≡ some body
      → AtMostOne r w (by_mode s h o r provider hash canonic body w)
  unfolding by_mode handle_record
  by_mode-AtMostOne r provider hash canonic body w b =
      elim (Bool-cases (to_lower h.mode == mode_replay)) [
        | inl e ↦ simp e (quiet (handle_replay-Untouched hash w).0)
        | inr e ↦ elim (Bool-cases (to_lower h.mode == mode_record)) [
          | inl f ↦ simp (e, f) (forward-AtMostOne r provider hash canonic body _ w b)
          | inr f ↦ elim (Bool-cases (to_lower h.mode == mode_auto)) [
            | inl g ↦
                simp (e, f, g)
                  (auto_loaded-AtMostOne r provider hash canonic body (s.load hash w.store) w b)
            | inr g ↦ simp (e, f, g) (quiet refl)
          ]
        ]
      ]

  -- In every mode ServeHTTP calls httpClient.Do at most once for a request but a CONNECT, with the
  -- client's method and body: it makes no second try. What the HTTP client then sends of itself, to
  -- follow a redirect or to try again, is not counted.
  pub serve_http-AtMostOne :
      (connect : Request → World s → World s) (r : Request) (w : World s)
      → (r.method == codes "CONNECT") ≡ false
      → AtMostOne r w (serve_http s h o connect r w)
  serve_http-AtMostOne connect r w e =
      serve_http_all (AtMostOne r) (λ f v. quiet refl) writer r
        (λ body provider hash canonic v b. by_mode-AtMostOne r provider hash canonic body v b)
        connect w e
    where
      writer :
          (f : ResponseWriter → ResponseWriter) (v u : World s)
          → AtMostOne r (on_writer s h o f v) u
          → AtMostOne r v u
      writer f v u (quiet p) = quiet p
      writer f v u (one up p q t) = one up p q t
