-- ===== src/Proxy/Handler/Once.antt =====
-- pkg/proxy/handler.go: in auto mode a request goes upstream once.
use reelm.Base.{
  ℕ, ◌≡◌, ap, ◌∙◌, true, false, ◌||◌, Option, none, some, ◌++◌, Text, codes, ◌==◌, Fallible, ok,
  to_lower,
}
use reelm.Config.{mode_auto}
use reelm.Hasher.{CanonicRequest}
use reelm.Http.{Request}
use reelm.Http.Writer.{ResponseWriter, body, set_header}
use reelm.Providers.Registry.{detect_provider}
use reelm.Proxy.Upstream.{resolve_upstream_url}
use reelm.Store.Cassette.{Cassette}
use reelm.Store.Interface.{CassetteStore}
use reelm.Streaming.Recorder.{eof}
use reelm.Streaming.Replayer.{StreamReplayer, new_stream_replayer}
use reelm.Proxy.Handler.{
  Canonicalizer, UpstreamResponse, Handler, Outside, World, serve_cassette, new_cassette,
}
use reelm.Proxy.Handler.RoundTrip.{
  Holds, body-serve_cassette, recorded, recorded_response-Holds, forward-store, next_client,
}
use reelm.Proxy.Handler.Serve.{
  on_writer, upstream_request, forward, handle_record, auto_loaded, by_mode, hashed, canonicalized,
  buffered, detected, serve_http,
}

module _ (s : CassetteStore) (h : Handler) where
  -- The request is for a provider, its body is read, and its canonical form has the hash.
  pub record IsRouted (o : Outside) (r : Request) (body hash : Text) : Type 0 where
    pub provider : Text
    pub canonicalizer : Canonicalizer
    pub canonic : CanonicRequest
    pub method : (r.method == codes "CONNECT") ≡ false
    pub path : (r.path == codes "/healthz" || r.path == codes "/readyz") ≡ false
    pub detects : detect_provider o.quote (some r) h.registry ≡ ok (provider, canonicalizer)
    pub reads : r.body ≡ some body
    pub canonicalizes : canonicalizer r body ≡ ok canonic
    pub hashes : h.hash canonic ≡ some hash

  abbrev pub with_hash : Text → ResponseWriter → ResponseWriter
  with_hash hash w = set_header (codes "X-Reelm-Hash") hash w

  serve_http-IsRouted :
      (o : Outside) (connect : Request → World s → World s) (r : Request) (t hash : Text)
      (w : World s) (k : IsRouted o r t hash)
      → serve_http s h o connect r w
        ≡ by_mode s h o r k.provider hash k.canonic t (on_writer s h o (with_hash hash) w)
  unfolding serve_http detected buffered canonicalized hashed
  serve_http-IsRouted o connect r t hash w k =
      simp (k.method, k.path, k.detects, k.reads, k.canonicalizes, k.hashes)

  by_mode-auto :
      (o : Outside) (r : Request) (provider hash : Text) (canonic : CanonicRequest) (t : Text)
      (q : Option Cassette) (w : World s)
      → to_lower h.mode ≡ mode_auto
      → s.load hash w.store ≡ q
      → by_mode s h o r provider hash canonic t w ≡ auto_loaded s h o r provider hash canonic t q w
  unfolding by_mode ◌==◌
  by_mode-auto o r provider hash canonic t q w m e = simp (m, e)

  module _ (o : Outside) (r : Request) (t hash url mode : Text) (k : IsRouted o r t hash)
      (resp : UpstreamResponse) (w : World s) where
    -- The cassette of the first request
    abbrev pub first_cassette : Cassette
    first_cassette = recorded s h o r k.provider hash k.canonic t resp (with_hash hash w.writer)

    -- The upstream answers the first request whole, its client takes every write, and the cassette
    -- is saved and can be read.
    pub record Records : Type 0 where
      pub missing : s.load hash w.store ≡ none
      pub resolves : resolve_upstream_url o.quote h.providers k.provider r.path r.raw_query ≡ ok url
      pub builds : o.builds r.method url ≡ true
      pub sends : o.send (upstream_request s h o r url t) ≡ ok resp
      pub whole : resp.ending ≡ eof
      pub steady : (n : ℕ) → w.writer.fails n ≡ false
      pub saved : (s.save o.clock.saved_at first_cassette w.store).0 ≡ true
      pub readable : s.IsReadable first_cassette w.store

    load-serve_http :
        (connect : Request → World s → World s)
        → to_lower h.mode ≡ mode_auto
        → Records
        → s.load hash (serve_http s h o connect r w).store ≡ some first_cassette
    unfolding auto_loaded handle_record set_header new_cassette
    load-serve_http connect m a =
        let v = on_writer s h o (with_hash hash) w in
        let path =
          serve_http-IsRouted o connect r t hash w k
          ∙ by_mode-auto o r k.provider hash k.canonic t none v m a.missing in
        let store =
          ap (λ (x : World s). x.store) path
          ∙ ap (λ (q : Fallible Text). (forward s h o r k.provider hash k.canonic t q v).store)
              a.resolves
          ∙ forward-store s h o r k.provider hash k.canonic t url resp v a.builds a.sends a.whole in
        ap (s.load hash) store
        ∙ s.load-save o.clock.saved_at first_cassette w.store a.saved a.readable

    first_cassette-Holds : Records → Holds resp.body first_cassette.response
    unfolding set_header new_cassette
    first_cassette-Holds a =
        recorded_response-Holds s h o resp (with_hash hash w.writer) a.whole a.steady

    -- In auto mode a request whose answer was recorded, by a client and through an upstream that
    -- did not fail, and whose cassette can be read, goes upstream once: the next request with the
    -- same hash, whatever else it holds and from whichever client, sends nothing upstream, changes
    -- nothing in the store, and is answered with the upstream's bytes, if its client can flush and
    -- its writes succeed.
    pub serve_http-again :
        (connect : Request → World s → World s) (later : Outside) (q : Request) (u : Text)
        (v : ResponseWriter)
        → IsRouted later q u hash
        → to_lower h.mode ≡ mode_auto
        → h.stream_replayer ≡ new_stream_replayer mode
        → Records
        → v.flusher ≡ true
        → ((n : ℕ) → v.fails n ≡ false)
        → ((serve_http s h later connect q
              (next_client s h o (serve_http s h o connect r w) v)).sent
            ≡ (serve_http s h o connect r w).sent)
          × ((serve_http s h later connect q
                (next_client s h o (serve_http s h o connect r w) v)).store
              ≡ (serve_http s h o connect r w).store)
          × (body
                (serve_http s h later connect q
                  (next_client s h o (serve_http s h o connect r w) v)).writer
              ≡ body v ++ resp.body)
    unfolding auto_loaded set_header
    serve_http-again connect later q u v l m sr a flusher steady =
        let x = next_client s h o (serve_http s h o connect r w) v in
        let y = on_writer s h later (with_hash hash) x in
        let path =
          serve_http-IsRouted later connect q u hash x l
          ∙ by_mode-auto later q l.provider hash l.canonic u (some first_cassette) y m
              (load-serve_http connect m a) in
        (
          ap (λ (z : World s). z.sent) path,
          ap (λ (z : World s). z.store) path,
          ap (λ (z : World s). body z.writer) path
              ∙ ap
                  (λ (z : StreamReplayer).
                    body (serve_cassette z first_cassette (codes "HIT") y.writer))
                  sr
              ∙ body-serve_cassette mode resp.body (codes "HIT") first_cassette y.writer
                  (first_cassette-Holds a) flusher steady,
        )
