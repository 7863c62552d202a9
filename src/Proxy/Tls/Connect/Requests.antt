-- ===== src/Proxy/Tls/Connect/Requests.antt =====
-- pkg/proxy/tls.go: what reaches the HTTP client and the store through a tunnel.
use mathlib.Core.List.{append_assoc, append-nil}
use reelm.Base.{
  ℕ, ◌≡◌, refl, sym, ap, ◌∙◌, false, Option, none, some, List, [], ◌∷◌, ◌++◌, Text, codes, ◌==◌,
  to_lower, Bool-cases, inl, inr,
}
use reelm.Config.{mode_replay}
use reelm.Http.{Request}
use reelm.Http.Headers.{Header}
use reelm.Proxy.Handler.{UpstreamRequest, Handler, Outside, World}
use reelm.Proxy.Handler.Serve.{serve_http}
use reelm.Proxy.Handler.Quiet.{
  Untouched, AtMostOne, quiet, one, serve_http-replay, serve_http-AtMostOne,
}
use reelm.Proxy.Tls.Ca.{Crypto, CaManager}
use reelm.Proxy.Tls.Conn.Refines.{fresh_writer}
use reelm.Proxy.Tls.Connect.{
  Client, get_certificate, connect_unhijacked, inner_request, serve_inner, serve_requests,
  intercept, handle_connect,
}
use reelm.Store.Interface.{CassetteStore}

-- The calls of httpClient.Do belong to some of the requests that were read, at most one to each, in
-- their order, with their methods and bodies.
pub data Relayed : List (Request × Outside) → List UpstreamRequest → Type 0 where
  nothing : Relayed [] []
  kept :
      (r : Request × Outside) (rs : List (Request × Outside)) (us : List UpstreamRequest)
      → Relayed rs us
      → Relayed (r ∷ rs) us
  relayed :
      (r : Request × Outside) (u : UpstreamRequest) (rs : List (Request × Outside))
      (us : List UpstreamRequest)
      → u.method ≡ r.0.method
      → r.0.body ≡ some u.body
      → Relayed rs us
      → Relayed (r ∷ rs) (u ∷ us)

none_of : (rs : List (Request × Outside)) → Relayed rs []
none_of [] = nothing
none_of (r ∷ rs) = kept r rs [] (none_of rs)

module _ {s : CassetteStore} where
  -- The requests that a loop handed to httpClient.Do
  pub record Sends (rs : List (Request × Outside)) (w v : World s) : Type 0 where
    pub ups : List UpstreamRequest
    pub sent : v.sent ≡ w.sent ++ ups
    pub each : Relayed rs ups

  upstream_unused : (rs : List (Request × Outside)) (w v : World s) → v.sent ≡ w.sent → Sends rs w v
  upstream_unused rs w v e = record {
    ups = [];
    sent = e ∙ sym (append-nil w.sent);
    each = none_of rs;
  }

  with_first :
      (r : Request × Outside) (rs : List (Request × Outside)) (w v u : World s)
      → AtMostOne r.0 w v
      → Sends rs v u
      → Sends (r ∷ rs) w u
  with_first r rs w v u (quiet p) t = record {
    ups = t.ups;
    sent = t.sent ∙ ap (λ (l : List UpstreamRequest). l ++ t.ups) p;
    each = kept r rs t.ups t.each;
  }
  with_first r rs w v u (one up p q e) t = record {
    ups = up ∷ t.ups;
    sent =
        t.sent
        ∙ ap (λ (l : List UpstreamRequest). l ++ t.ups) e
        ∙ append_assoc w.sent (up ∷ []) t.ups;
    each = relayed r up rs t.ups p q t.each;
  }

module _ (s : CassetteStore) (h : Handler) where
  -- What holds of every inner request, whether the handler refuses it as a CONNECT or serves it
  pub serve_inner_all :
      (P : World s → World s → Type 0) (host : Text) (r : Request) (o : Outside) (w : World s)
      → P w (connect_unhijacked s h o (inner_request host r) (record w { writer = fresh_writer }))
      → ((r.method == codes "CONNECT") ≡ false → P w (serve_inner s h host r o w))
      → P w (serve_inner s h host r o w)
  unfolding serve_inner serve_http
  serve_inner_all P host r o w a b = elim (Bool-cases (r.method == codes "CONNECT")) [
    | inl e ↦ simp e a
    | inr e ↦ b e
  ]

  serve_inner-replay :
      (host : Text) (r : Request) (o : Outside) (w : World s)
      → to_lower h.mode ≡ mode_replay
      → Untouched w (serve_inner s h host r o w)
  unfolding connect_unhijacked
  serve_inner-replay host r o w m =
      serve_inner_all Untouched host r o w (refl, refl)
        (λ e.
          unfold serve_inner in
          serve_http-replay s h o (connect_unhijacked s h o) _ (record w { writer = fresh_writer })
            m e)

  serve_inner-AtMostOne :
      (host : Text) (r : Request) (o : Outside) (w : World s)
      → AtMostOne r w (serve_inner s h host r o w)
  unfolding connect_unhijacked
  serve_inner-AtMostOne host r o w = serve_inner_all (AtMostOne r) host r o w (quiet refl) (λ e.
      unfold serve_inner in
      again (
        serve_http-AtMostOne s h o (connect_unhijacked s h o) (inner_request host r)
          (record w { writer = fresh_writer }) e))
    where
      -- The host and the writer make no difference.
      again :
          {v : World s}
          → AtMostOne (inner_request host r) (record w { writer = fresh_writer }) v
          → AtMostOne r w v
      again (quiet p) = quiet p
      again (one u p q t) = one u p q t

module _ (status_text : ℕ → Text) (header_lines : Header → Text) (s : CassetteStore)
    (h : Handler) where
  serve_requests-replay :
      (host : Text) (rs : List (Request × Outside)) (w : World s) (out : Text)
      → to_lower h.mode ≡ mode_replay
      → Untouched w (serve_requests status_text header_lines s h host rs w out).0
  unfolding serve_requests
  serve_requests-replay host [] w out m = (refl, refl)
  serve_requests-replay host ((r, o) ∷ rs) w out m =
      let (a, b) = serve_inner-replay s h host r o w m in
      let (c, d) = serve_requests-replay host rs (serve_inner s h host r o w) _ m in (c ∙ a, d ∙ b)

  serve_requests-Sends :
      (host : Text) (rs : List (Request × Outside)) (w : World s) (out : Text)
      → Sends rs w (serve_requests status_text header_lines s h host rs w out).0
  unfolding serve_requests
  serve_requests-Sends host [] w out = upstream_unused [] w w refl
  serve_requests-Sends host ((r, o) ∷ rs) w out =
      let v = serve_inner s h host r o w in
      with_first (r, o) rs w v _ (serve_inner-AtMostOne s h host r o w)
        (serve_requests-Sends host rs v _)

module _ (x : Crypto) (status_text : ℕ → Text) (header_lines : Header → Text) (s : CassetteStore)
    (h : Handler) where
  intercept-replay :
      (client : Client x) (host : Text) (m : CaManager x) (w : World s)
      → to_lower h.mode ≡ mode_replay
      → Untouched w (intercept x status_text header_lines s h client host m w).world
  unfolding intercept
  intercept-replay client host m w mode =
      let cert = (get_certificate x client host m client.hello).0 in
      elim (Bool-cases (client.handshake cert)) [
        | inl e ↦
            simp e
              (serve_requests-replay status_text header_lines s h host client.requests w [] mode)
        | inr e ↦ simp e (refl, refl)
      ]

  -- In replay mode a CONNECT, whatever the client then sends through the tunnel, reaches neither
  -- the upstream nor the store.
  pub handle_connect-replay :
      (client : Client x) (m : Option (CaManager x)) (o : Outside) (r : Request) (w : World s)
      → to_lower h.mode ≡ mode_replay
      → Untouched w (handle_connect x status_text header_lines s h client m o r w).world
  unfolding handle_connect connect_unhijacked
  handle_connect-replay client none o r w mode = (refl, refl)
  handle_connect-replay client (some m) o r w mode = elim (Bool-cases client.hijacker) [
    | inl e ↦ elim (Bool-cases client.hijacked) [
      | inl f ↦ simp (e, f) (intercept-replay client r.host m w mode)
      | inr f ↦ simp (e, f) (refl, refl)
    ]
    | inr e ↦ simp e (refl, refl)
  ]

  intercept-Sends :
      (client : Client x) (host : Text) (m : CaManager x) (w : World s)
      → Sends client.requests w (intercept x status_text header_lines s h client host m w).world
  unfolding intercept
  intercept-Sends client host m w =
      let cert = (get_certificate x client host m client.hello).0 in
      elim (Bool-cases (client.handshake cert)) [
        | inl e ↦
            let t = serve_requests-Sends status_text header_lines s h host client.requests w [] in
            simp e (record { ups = t.ups; sent = t.sent; each = t.each })
        | inr e ↦ simp e (upstream_unused client.requests w w refl)
      ]

  handle_connect-Sends :
      (client : Client x) (m : Option (CaManager x)) (o : Outside) (r : Request) (w : World s)
      → Sends client.requests w (handle_connect x status_text header_lines s h client m o r w).world
  unfolding handle_connect connect_unhijacked
  handle_connect-Sends client none o r w = upstream_unused client.requests w _ refl
  handle_connect-Sends client (some m) o r w = elim (Bool-cases client.hijacker) [
    | inl e ↦ elim (Bool-cases client.hijacked) [
      | inl f ↦ simp (e, f) (intercept-Sends client r.host m w)
      | inr f ↦ simp (e, f) (upstream_unused client.requests w w refl)
    ]
    | inr e ↦ simp e (upstream_unused client.requests w _ refl)
  ]

  -- A CONNECT calls httpClient.Do for some of the requests that http.ReadRequest returns from the
  -- tunnel, at most once for each and in their order, with their methods and bodies. What the HTTP
  -- client then sends of itself, to follow a redirect or to try again, is not counted.
  pub handle_connect-Relayed :
      (client : Client x) (m : Option (CaManager x)) (o : Outside) (r : Request) (w : World s)
      → (ups : List UpstreamRequest) × ((handle_connect x status_text header_lines s h client m o r
            w).world.sent
          ≡ w.sent ++ ups)
        × Relayed client.requests ups
  handle_connect-Relayed client m o r w =
      let t = handle_connect-Sends client m o r w in (t.ups, t.sent, t.each)
