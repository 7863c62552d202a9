-- ===== src/Proxy/Tls/Ca/Threads.antt =====
-- pkg/proxy/tls.go: GetHostCertificate under concurrent handshakes. Its accesses of certCache, a
-- sync.Map, are steps of their own, so the calls of several connections interleave between them.
use mathlib.Core.Path.{subst}
use reelm.Base.{
  ℕ, ◌≡◌, refl, Option, none, some, ◌∷◌, arith, Text, eqb, if◌then◌else◌, Bool-cases, inl, inr,
}
use reelm.Proxy.Tls.Ca.{
  Crypto, TlsCertificate, CaManager, host_of, cached, issue, store_certificate,
  get_host_certificate,
}
use reelm.Proxy.Tls.Ca.Cache.{IsIssued, IsSound, issue-IsIssued, cached-IsIssued, kept}

-- The i-th connection calls GetHostCertificate with the i-th of the names.
module _ (x : Crypto) (names : ℕ → Text) where
  -- Where a connection's call stands; the host is without its port.
  pub data Call : Type 0 where
    idle : Call
    loading : (host : Text) → Call  -- before certCache.Load
    issuing : (host : Text) → Call  -- the cache had nothing
    storing : (host : Text) → TlsCertificate x → Call  -- before certCache.Store
    returned : (host : Text) → Option (TlsCertificate x) → Call

  pub record System : Type 0 where
    pub manager : CaManager x
    pub calls : ℕ → Call

  abbrev pub at : (ℕ → Call) → ℕ → Call → ℕ → Call
  at calls i c j = if eqb i j then c else calls j

  abbrev pub moved : System → ℕ → Call → System
  moved s i c = record s { calls = at s.calls i c }

  -- A step of the i-th connection, at any clock and draw of randomness.
  pub data Step (s : System) : System → Type 0 where
    call : (i : ℕ) → s.calls i ≡ idle → Step s (moved s i (loading (host_of x (names i))))
    hit :
        (i : ℕ) (host : Text) (c : TlsCertificate x)
        → s.calls i ≡ loading host
        → cached x host s.manager.cert_cache ≡ some c
        → Step s (moved s i (returned host (some c)))
    miss :
        (i : ℕ) (host : Text)
        → s.calls i ≡ loading host
        → cached x host s.manager.cert_cache ≡ none
        → Step s (moved s i (issuing host))
    fail :
        (i now n : ℕ) (host : Text)
        → s.calls i ≡ issuing host
        → issue x now n host s.manager ≡ none
        → Step s (moved s i (returned host none))
    made :
        (i now n : ℕ) (host : Text) (c : TlsCertificate x)
        → s.calls i ≡ issuing host
        → issue x now n host s.manager ≡ some c
        → Step s (moved s i (storing host c))
    store :
        (i : ℕ) (host : Text) (c : TlsCertificate x)
        → s.calls i ≡ storing host c
        → Step s (record {
          manager = record s.manager { cert_cache = (host, c) ∷ s.manager.cert_cache };
          calls = at s.calls i (returned host (some c));
        })

  pub data Reach (s : System) : System → Type 0 where
    here : Reach s s
    next : {t u : System} → Reach s t → Step t u → Reach s u

  -- The host of a call is the one of the name that its connection asked for, and a certificate that
  -- it holds was made for that host.
  abbrev pub Holds : CaManager x → Text → Call → Type 0
  Holds m name idle = Unit
  Holds m name (loading host) = host ≡ host_of x name
  Holds m name (issuing host) = host ≡ host_of x name
  Holds m name (storing host c) = (host ≡ host_of x name) × IsIssued x m host c
  Holds m name (returned host none) = host ≡ host_of x name
  Holds m name (returned host (some c)) = (host ≡ host_of x name) × IsIssued x m host c

  pub record IsSafe (s : System) : Type 0 where
    pub cache : IsSound x s.manager
    pub held : (i : ℕ) → Holds s.manager (names i) (s.calls i)

  at-Holds :
      (m : CaManager x) (calls : ℕ → Call) (i : ℕ) (c : Call)
      → ((j : ℕ) → Holds m (names j) (calls j))
      → Holds m (names i) c
      → (j : ℕ) → Holds m (names j) (at calls i c j)
  at-Holds m calls i c h k j = elim (Bool-cases (eqb i j)) [
    | inl e ↦ let same : i ≡ j = ground arith in simp e (subst (λ n. Holds m (names n) c) same k)
    | inr e ↦ simp e (h j)
  ]

  abbrev grown : CaManager x → Text → TlsCertificate x → CaManager x
  grown m host c = record m { cert_cache = (host, c) ∷ m.cert_cache }

  -- What was made with the CA stays so when the cache grows.
  IsIssued-grown :
      (m : CaManager x) (host name : Text) (c d : TlsCertificate x)
      → IsIssued x m name d
      → IsIssued x (grown m host c) name d
  IsIssued-grown m host name c d k = record {
    now = k.now;
    serial = k.serial;
    der = k.der;
    signed = k.signed;
    chain = k.chain;
  }

  Holds-grown :
      (m : CaManager x) (host : Text) (c : TlsCertificate x) (name : Text) (k : Call)
      → Holds m name k
      → Holds (grown m host c) name k
  Holds-grown m host c name idle h = tt
  Holds-grown m host c name (loading other) h = h
  Holds-grown m host c name (issuing other) h = h
  Holds-grown m host c name (storing other d) (e, h) = (e, IsIssued-grown m host other c d h)
  Holds-grown m host c name (returned other none) h = h
  Holds-grown m host c name (returned other (some d)) (e, h) =
      (e, IsIssued-grown m host other c d h)

  moved-IsSafe :
      (s : System) (i : ℕ) (c : Call)
      → IsSafe s
      → Holds s.manager (names i) c
      → IsSafe (moved s i c)
  moved-IsSafe s i c k h = record {
    cache = k.cache;
    held = at-Holds s.manager s.calls i c k.held h;
  }

  calls-Holds :
      (s : System) (i : ℕ) (c : Call) → s.calls i ≡ c → IsSafe s → Holds s.manager (names i) c
  calls-Holds s i c e k = subst (Holds s.manager (names i)) e (k.held i)

  pub Step-IsSafe : {s t : System} → Step s t → IsSafe s → IsSafe t
  Step-IsSafe {s} (call i e) k = moved-IsSafe s i (loading (host_of x (names i))) k refl
  Step-IsSafe {s} (hit i host c e f) k = moved-IsSafe s i (returned host (some c)) k (
    calls-Holds s i (loading host) e k,
    cached-IsIssued x s.manager host s.manager.cert_cache c k.cache f,
  )
  Step-IsSafe {s} (miss i host e f) k =
      moved-IsSafe s i (issuing host) k (calls-Holds s i (loading host) e k)
  Step-IsSafe {s} (fail i now n host e f) k =
      moved-IsSafe s i (returned host none) k (calls-Holds s i (issuing host) e k)
  Step-IsSafe {s} (made i now n host c e f) k =
      moved-IsSafe s i (storing host c) k
        (calls-Holds s i (issuing host) e k, issue-IsIssued x now n host s.manager c f)
  Step-IsSafe {s} (store i host c e) k =
      let (mine, issued) = calls-Holds s i (storing host c) e k in
      let new = IsIssued-grown s.manager host host c c issued in
      record {
        cache = (new, kept x s.manager host c s.manager.cert_cache k.cache);
        held =
            at-Holds (grown s.manager host c) s.calls i (returned host (some c))
              (λ j. Holds-grown s.manager host c (names j) (s.calls j) (k.held j)) (mine, new);
      }

  Reach-IsSafe : {s t : System} → IsSafe s → Reach s t → IsSafe t
  Reach-IsSafe k here = k
  Reach-IsSafe k (next r st) = Step-IsSafe st (Reach-IsSafe k r)

  -- No call runs.
  abbrev pub at_rest : CaManager x → System
  at_rest m = record { manager = m; calls = λ i. idle }

  -- However the calls of any number of connections interleave, each certificate that GetHostCertificate
  -- returns to a connection was made for the host of the name that this connection asked for, without
  -- its port, and every certificate of the cache for the host under which it is, if the cache was so
  -- when no call ran.
  pub Reach-IsIssued :
      (m : CaManager x) (t : System)
      → IsSound x m
      → Reach (at_rest m) t
      → IsSound x t.manager
        × ((i : ℕ) (host : Text) (c : TlsCertificate x)
            → t.calls i ≡ returned host (some c)
            → IsIssued x t.manager (host_of x (names i)) c)
  Reach-IsIssued m t s r =
      let k = Reach-IsSafe (record { cache = s; held = λ i. tt }) r in
      (
        k.cache,
        λ i host c e.
            let (same, issued) = calls-Holds t i (returned host (some c)) e k in
            subst (λ h. IsIssued x t.manager h c) same issued,
      )

  at_self : (calls : ℕ → Call) (i : ℕ) (c : Call) → at calls i c i ≡ c
  at_self calls i c = ground arith

  -- What one call does, alone: the state in which it ends.
  record Ends (s : System) (i : ℕ) (host : Text) (r : Option (TlsCertificate x) × CaManager x)
      : Type 0 where
    last : System
    reach : Reach s last
    manager : last.manager ≡ r.1
    result : last.calls i ≡ returned host r.0

  issued-Ends :
      (s u : System) (i now n : ℕ) (host : Text) (o : Option (TlsCertificate x))
      → Reach s u
      → u.calls i ≡ issuing host
      → issue x now n host u.manager ≡ o
      → Ends s i host (store_certificate x host u.manager o)
  issued-Ends s u i now n host none r e f = record {
    last = moved u i (returned host none);
    reach = next r (fail i now n host e f);
    manager = refl;
    result = at_self u.calls i (returned host none);
  }
  issued-Ends s u i now n host (some c) r e f = record {
    last = _;
    reach =
        next (next r (made i now n host c e f))
          (store i host c (at_self u.calls i (storing host c)));
    manager = refl;
    result = at_self (moved u i (storing host c)).calls i (returned host (some c));
  }

  loaded-Ends :
      (s u : System) (i now n : ℕ) (host : Text) (o : Option (TlsCertificate x))
      → Reach s u
      → u.calls i ≡ loading host
      → cached x host u.manager.cert_cache ≡ o
      → Ends s i host (elim o as (λ q. Option (TlsCertificate x) × CaManager x) [
        | none ↦ store_certificate x host u.manager (issue x now n host u.manager)
        | some c ↦ (some c, u.manager)
      ])
  loaded-Ends s u i now n host (some c) r e f = record {
    last = _;
    reach = next r (hit i host c e f);
    manager = refl;
    result = at_self u.calls i (returned host (some c));
  }
  loaded-Ends s u i now n host none r e f =
      issued-Ends s (moved u i (issuing host)) i now n host _ (next r (miss i host e f))
        (at_self u.calls i (issuing host)) refl

  -- A call that no other one interrupts does what get_host_certificate says.
  pub Reach-get_host_certificate :
      (s : System) (i now n : ℕ)
      → s.calls i ≡ idle
      → (t : System) × Reach s t
        × (t.manager ≡ (get_host_certificate x now n (names i) s.manager).1)
        × (t.calls i
            ≡ returned (host_of x (names i)) (get_host_certificate x now n (names i) s.manager).0)
  unfolding get_host_certificate
  Reach-get_host_certificate s i now n e =
      let host = host_of x (names i) in
      let k =
        loaded-Ends s (moved s i (loading host)) i now n host _ (next here (call i e))
          (at_self s.calls i (loading host)) refl in
      (k.last, k.reach, k.manager, k.result)
