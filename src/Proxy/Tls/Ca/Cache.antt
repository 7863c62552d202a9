-- ===== src/Proxy/Tls/Ca/Cache.antt =====
-- pkg/proxy/tls.go: what GetHostCertificate returns, and what its cache holds.
use reelm.Base.{
  >>=-eq-some, ℕ, suc, ◌≡◌, refl, ap, ◌∙◌, Option, none, some, List, [], ◌∷◌, Text, ◌==◌, eq_iff,
  eq_refl, some_eq, All, Bool-cases, Option-cases, inl, inr,
}
use reelm.Proxy.Tls.Ca.{
  Crypto, TlsCertificate, CaManager, host_of, host_template, cached, issue, store_certificate,
  get_host_certificate,
}

module _ (x : Crypto) where
  -- The certificate was made for the host: a key of its own, a template that names the host, the
  -- CA's signature, and the CA's certificate behind it.
  pub record IsIssued (m : CaManager x) (host : Text) (c : TlsCertificate x) : Type 0 where
    pub now : ℕ
    pub serial : ℕ
    pub der : Text
    pub signed :
        x.create (host_template x now serial host) (some m.ca_cert) c.private_key m.ca_key
        ≡ some der
    pub chain : c.chain ≡ der ∷ x.raw m.ca_cert ∷ []

  -- Every certificate of the cache was made for the host under which it stands.
  abbrev pub IsSound : CaManager x → Type 0
  IsSound m = All (λ e. IsIssued m e.0 e.1) m.cert_cache

  pub issue-IsIssued :
      (now n : ℕ) (host : Text) (m : CaManager x) (c : TlsCertificate x)
      → issue x now n host m ≡ some c
      → IsIssued m host c
  unfolding issue
  issue-IsIssued now n host m c h =
      let (key, p, q) = >>=-eq-some (x.generate_key n) _ h in
      let (serial, r, s) = >>=-eq-some (x.random_serial (suc n)) _ q in
      let (der, t, u) =
        >>=-eq-some (x.create (host_template x now serial host) (some m.ca_cert) key m.ca_key) _
          s in
      let same = some_eq u in
      rw (← same) (record { now = now; serial = serial; der = der; signed = t; chain = refl })

  pub cached-IsIssued :
      (m : CaManager x) (host : Text) (cs : List (Text × TlsCertificate x)) (c : TlsCertificate x)
      → All (λ e. IsIssued m e.0 e.1) cs
      → cached x host cs ≡ some c
      → IsIssued m host c
  unfolding cached
  cached-IsIssued m host [] c s h = cc
  cached-IsIssued m host ((k, d) ∷ cs) c (s, t) h = elim (Bool-cases (k == host)) [
    | inl e ↦
        let same : d ≡ c = some_eq (simp e at h) in
        let name : k ≡ host = (eq_iff k host).0 e in rw (← same) (rw (← name) s)
    | inr e ↦ cached-IsIssued m host cs c t (simp e at h)
  ]

  -- Adding to the cache leaves the CA, and so what was made with it.
  pub kept :
      (m : CaManager x) (host : Text) (c : TlsCertificate x) (cs : List (Text × TlsCertificate x))
      → All (λ e. IsIssued m e.0 e.1) cs
      → All (λ e. IsIssued (record m { cert_cache = (host, c) ∷ m.cert_cache }) e.0 e.1) cs
  kept m host c [] h = tt
  kept m host c (e ∷ cs) (k, h) = (
    record { now = k.now; serial = k.serial; der = k.der; signed = k.signed; chain = k.chain },
    kept m host c cs h,
  )

  store_certificate-IsSound :
      (host : Text) (m : CaManager x) (o : Option (TlsCertificate x)) (c : TlsCertificate x)
      → IsSound m
      → (o ≡ some c → IsIssued m host c)
      → (store_certificate x host m o).0 ≡ some c
      → IsIssued m host c × IsSound (store_certificate x host m o).1
  store_certificate-IsSound host m none c s k h = cc
  store_certificate-IsSound host m (some d) c s k h =
      let same : d ≡ c = some_eq h in
      let made : IsIssued m host d = rw same (k h) in
      (
        k h,
        (
          record {
            now = made.now;
            serial = made.serial;
            der = made.der;
            signed = made.signed;
            chain = made.chain;
          },
          kept m host d m.cert_cache s,
        ),
      )

  -- If every certificate of the cache was made for its host, a certificate that GetHostCertificate
  -- returns was made for the host that was asked for, without its port, and every certificate of the
  -- cache is so afterwards.
  pub get_host_certificate-IsSound :
      (now n : ℕ) (host : Text) (m : CaManager x) (c : TlsCertificate x)
      → IsSound m
      → (get_host_certificate x now n host m).0 ≡ some c
      → IsIssued m (host_of x host) c × IsSound (get_host_certificate x now n host m).1
  unfolding get_host_certificate
  get_host_certificate-IsSound now n host m c s h =
      elim (Option-cases (cached x (host_of x host) m.cert_cache)) [
        | inl p ↦
            rw (p, get_host_certificate)
              (store_certificate-IsSound (host_of x host) m (issue x now n (host_of x host) m) c s
                (issue-IsIssued now n (host_of x host) m c) (rw (p, get_host_certificate) at h))
        | inr (d, p) ↦
            rw (p, get_host_certificate)
              (
                cached-IsIssued m (host_of x host) m.cert_cache c s
                    (p ∙ (rw (p, get_host_certificate) at h)),
                s,
              )
      ]

  store_certificate-none :
      (host : Text) (m : CaManager x) (o : Option (TlsCertificate x))
      → (store_certificate x host m o).0 ≡ none
      → (store_certificate x host m o).1 ≡ m
  store_certificate-none host m none h = refl
  store_certificate-none host m (some c) h = cc

  get_host_certificate-none :
      (now n : ℕ) (host : Text) (m : CaManager x)
      → (get_host_certificate x now n host m).0 ≡ none
      → (get_host_certificate x now n host m).1 ≡ m
  unfolding get_host_certificate
  get_host_certificate-none now n host m h =
      elim (Option-cases (cached x (host_of x host) m.cert_cache)) [
        | inl p ↦
            rw (p, get_host_certificate)
              (store_certificate-none (host_of x host) m _ (rw (p, get_host_certificate) at h))
        | inr (d, p) ↦ cc (rw (p, get_host_certificate) at h)
      ]

  pub get_host_certificate_keeps :
      (now n : ℕ) (host : Text) (m : CaManager x)
      → IsSound m
      → IsSound (get_host_certificate x now n host m).1
  get_host_certificate_keeps now n host m s =
      elim (Option-cases (get_host_certificate x now n host m).0) [
        | inl e ↦ rw (get_host_certificate-none now n host m e) s
        | inr (c, e) ↦ (get_host_certificate-IsSound now n host m c s e).1
      ]

  cached-store_certificate :
      (host : Text) (m : CaManager x) (o : Option (TlsCertificate x)) (c : TlsCertificate x)
      → (store_certificate x host m o).0 ≡ some c
      → cached x host (store_certificate x host m o).1.cert_cache ≡ some c
  unfolding cached
  cached-store_certificate host m none c h = cc
  cached-store_certificate host m (some d) c h = simp eq_refl h

  cached-get_host_certificate :
      (now n : ℕ) (host : Text) (m : CaManager x) (c : TlsCertificate x)
      → (get_host_certificate x now n host m).0 ≡ some c
      → cached x (host_of x host) (get_host_certificate x now n host m).1.cert_cache ≡ some c
  unfolding get_host_certificate
  cached-get_host_certificate now n host m c h =
      elim (Option-cases (cached x (host_of x host) m.cert_cache)) [
        | inl p ↦
            rw (p, get_host_certificate)
              (cached-store_certificate (host_of x host) m _ c (rw (p, get_host_certificate) at h))
        | inr (d, p) ↦ rw (p, get_host_certificate) (p ∙ (rw (p, get_host_certificate) at h))
      ]

  -- Once GetHostCertificate has returned a certificate for a host, it returns the same one for that
  -- host with any port, whatever the clock and the randomness then are, and changes nothing.
  pub get_host_certificate-again :
      (now n later k : ℕ) (host name : Text) (m : CaManager x) (c : TlsCertificate x)
      → (get_host_certificate x now n host m).0 ≡ some c
      → host_of x name ≡ host_of x host
      → get_host_certificate x later k name (get_host_certificate x now n host m).1
        ≡ (some c, (get_host_certificate x now n host m).1)
  get_host_certificate-again now n later k host name m c h same =
      let found =
        ap (λ (t : Text). cached x t (get_host_certificate x now n host m).1.cert_cache) same
        ∙ cached-get_host_certificate now n host m c h in
      unfold get_host_certificate in rw (found, get_host_certificate) refl
