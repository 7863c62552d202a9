-- ===== src/Proxy/Tls/Ca/Reload.antt =====
-- pkg/proxy/tls.go: a second start finds the CA of the first.
use reelm.Base.{
  ℕ, suc, ◌≡◌, refl, sym, ap, ◌∙◌, Bool, true, false, Option, none, some, [], ◌∷◌, arith, Text,
  codes, ◌==◌, eq_comm, eq_iff, eq_refl, Bool-cases, Option-cases, inl, inr,
}
use reelm.Store.Disk.{
  Disk, Call, stat, read_file, write_file, mkdir_all, content, place, write, fails-torn,
  content-place, read-content, exists-content,
}
use reelm.Store.Paths.{ext, paths_code}
use reelm.Store.Paths.Ending.{join_path-EndsWith, ext-EndsWith}
use reelm.Proxy.Tls.Ca.{
  Crypto, CaManager, ca_template, cert_file, key_file, write_pair, when_written, generate_ca,
  load_ca, existing_ca, manager_of, new_manager_in,
}

-- What the packages document: an encoded PEM block decodes to its bytes, and a marshalled key
-- parses to itself.
pub record IsFaithful (x : Crypto) : Type 0 where
  pub pem_decode-pem_encode : (t b : Text) → x.pem_decode (x.pem_encode t b) ≡ some b
  pub parse_key-marshal_key : (k : x.Key) → x.parse_key (x.marshal_key k) ≡ some k

-- Two files are on the disk and can be read.
record Holds (p q s t : Text) (d : Disk) : Type 0 where
  pub first : content p d.files ≡ some s
  second : content q d.files ≡ some t
  readable : (u : Text) → (d.fails (stat u) ≡ false) × (d.fails (read_file u) ≡ false)

write_pair-Holds :
    (x : Crypto) (p q s t : Text) (d : Disk)
    → (p == q) ≡ false
    → ((u : Text) → (d.fails (stat u) ≡ false) × (d.fails (read_file u) ≡ false))
    → (write_pair x p q s t d).0 ≡ true
    → Holds p q s t (write_pair x p q s t d).1
unfolding write_pair write
write_pair-Holds x p q s t d ne r h = elim (Bool-cases (d.fails (write_file p))) [
  | inl e ↦ cc (rw (e, write_pair) at h)
  | inr e ↦ elim (Bool-cases (d.fails (write_file q))) [
    | inl f ↦ cc (rw (f, write_pair) at (rw (e, write_pair) at h))
    | inr f ↦
        let other : (q == p) ≡ false = eq_comm q p ∙ ne in
        rw (e, write_pair)
          (rw (f, write_pair)
            (record {
              first =
                  content-place q p t (place p s d.files)
                  ∙ simp (other, content-place p p s d.files, eq_refl);
              second = content-place q q t (place p s d.files) ∙ simp eq_refl;
              readable = r;
            }))
  ]
]

-- The calls of the first start leave what fails as it is.
fails-write_pair :
    (x : Crypto) (p q s t : Text) (d : Disk) → (write_pair x p q s t d).1.fails ≡ d.fails
unfolding write_pair write
fails-write_pair x p q s t d = elim (Bool-cases (d.fails (write_file p))) [
  | inl e ↦ rw (e, write_pair) (fails-torn p s d)
  | inr e ↦ elim (Bool-cases (d.fails (write_file q))) [
    | inl f ↦ rw (e, write_pair) (rw (f, write_pair) (fails-torn q t _))
    | inr f ↦ rw (e, write_pair) (rw (f, write_pair) refl)
  ]
]

-- Paths with different extensions differ.
ne_of_ext : (p q a b : Text) → ext p ≡ a → ext q ≡ b → (a == b) ≡ false → (p == q) ≡ false
ne_of_ext p q a b h k ne = elim (Bool-cases (p == q)) [
  | inl e ↦ cc ((eq_iff a b).1 (sym h ∙ ap ext ((eq_iff p q).0 e) ∙ k))
  | inr e ↦ e
]

-- The two files are never one.
cert_file-key_file : (x : Crypto) (dir : Text) → (cert_file x dir == key_file x dir) ≡ false
unfolding paths_code
cert_file-key_file x dir =
    let c = join_path-EndsWith (codes ".crt") refl (omega arith) (dir ∷ []) (codes "reelm-ca") in
    let k = join_path-EndsWith (codes ".key") refl (omega arith) (dir ∷ []) (codes "reelm-ca") in
    ne_of_ext (cert_file x dir) (key_file x dir) (codes ".crt") (codes ".key")
      (ext-EndsWith (codes ".crt") refl (omega arith) (cert_file x dir) refl c)
      (ext-EndsWith (codes ".key") refl (omega arith) (key_file x dir) refl k) refl

module _ (x : Crypto) (law : IsFaithful x) where
  existing_ca-Holds :
      (dir der : Text) (cert : x.Cert) (key : x.Key) (t u : Text) (d : Disk)
      → Holds
          (cert_file x dir)
          (key_file x dir)
          (x.pem_encode t der)
          (x.pem_encode u (x.marshal_key key))
          d
      → x.parse_cert der ≡ some cert
      → existing_ca x dir d ≡ some (cert, key)
  unfolding existing_ca load_ca
  existing_ca-Holds dir der cert key t u d h parse =
      let (a, b) = h.readable (cert_file x dir) in
      let (e, f) = h.readable (key_file x dir) in
      simp (
        exists-content (cert_file x dir) _ d a h.first,
        exists-content (key_file x dir) _ d e h.second,
        read-content (cert_file x dir) _ d b h.first,
        read-content (key_file x dir) _ d f h.second,
        law.pem_decode-pem_encode t der,
        law.pem_decode-pem_encode u (x.marshal_key key),
        parse,
        law.parse_key-marshal_key key,
      )

  existing_ca-when_written :
      (dir der t u : Text) (key : x.Key) (w : Bool × Disk) (ca : x.Cert × x.Key)
      → (w.0 ≡ true
          → Holds
              (cert_file x dir)
              (key_file x dir)
              (x.pem_encode t der)
              (x.pem_encode u (x.marshal_key key))
              w.1)
      → (when_written x der key w).0 ≡ some ca
      → existing_ca x dir (when_written x der key w).1 ≡ some ca
  existing_ca-when_written dir der t u key (false, e) ca k h = cc
  existing_ca-when_written dir der t u key (true, e) ca k h =
      elim (Option-cases (x.parse_cert der)) [
        | inl p ↦ cc (rw (p, when_written) at h)
        | inr (cert, p) ↦
            rw (p, when_written)
              (existing_ca-Holds dir der cert key t u e (k refl) p ∙ (rw (p, when_written) at h))
      ]

  -- A CA that generateCA made is the one that is found.
  generate_ca-existing :
      (now n : ℕ) (dir : Text) (d : Disk) (ca : x.Cert × x.Key)
      → ((u : Text) → (d.fails (stat u) ≡ false) × (d.fails (read_file u) ≡ false))
      → (generate_ca x now n (cert_file x dir) (key_file x dir) d).0 ≡ some ca
      → existing_ca x dir (generate_ca x now n (cert_file x dir) (key_file x dir) d).1 ≡ some ca
  unfolding generate_ca
  generate_ca-existing now n dir d ca r h = elim (Option-cases (x.generate_key n)) [
    | inl p ↦ cc (rw (p, generate_ca) at h)
    | inr (key, p) ↦ elim (Option-cases (x.random_serial (suc n))) [
      | inl q ↦ cc (rw (q, generate_ca) at (rw (p, generate_ca) at h))
      | inr (serial, q) ↦ elim (Option-cases (x.create (ca_template x now serial) none key key)) [
        | inl s ↦ cc (rw (s, generate_ca) at (rw (q, generate_ca) at (rw (p, generate_ca) at h)))
        | inr (der, s) ↦
            rw (p, generate_ca)
              (rw (q, generate_ca)
                (rw (s, generate_ca)
                  (existing_ca-when_written dir der (codes "CERTIFICATE") (codes "RSA PRIVATE KEY")
                    key _ ca
                    (write_pair-Holds x (cert_file x dir) (key_file x dir) _ _ d
                      (cert_file-key_file x dir) r)
                    (rw (s, generate_ca) at (rw (q, generate_ca) at (rw (p, generate_ca) at h))))))
      ]
    ]
  ]

  manager_of-some :
      (o : Option (x.Cert × x.Key)) (m : CaManager x)
      → manager_of x o ≡ some m
      → (ca : x.Cert × x.Key) × (o ≡ some ca) × (manager_of x (some ca) ≡ some m)
  manager_of-some none m h = cc
  manager_of-some (some ca) m h = (ca, refl, h)

  fails-when_written :
      (der : Text) (key : x.Key) (w : Bool × Disk) → (when_written x der key w).1 ≡ w.1
  fails-when_written der key (false, e) = refl
  fails-when_written der key (true, e) = elim (Option-cases (x.parse_cert der)) [
    | inl p ↦ rw (p, when_written) refl
    | inr (cert, p) ↦ rw (p, when_written) refl
  ]

  fails-generate_ca :
      (now n : ℕ) (p q : Text) (d : Disk) → (generate_ca x now n p q d).1.fails ≡ d.fails
  unfolding generate_ca
  fails-generate_ca now n p q d = elim (Option-cases (x.generate_key n)) [
    | inl a ↦ rw (a, generate_ca) refl
    | inr (key, a) ↦ elim (Option-cases (x.random_serial (suc n))) [
      | inl b ↦ rw (a, generate_ca) (rw (b, generate_ca) refl)
      | inr (serial, b) ↦ elim (Option-cases (x.create (ca_template x now serial) none key key)) [
        | inl c ↦ rw (a, generate_ca) (rw (b, generate_ca) (rw (c, generate_ca) refl))
        | inr (der, c) ↦
            rw (a, generate_ca)
              (rw (b, generate_ca)
                (rw (c, generate_ca)
                  (ap (λ (e : Disk). e.fails) (fails-when_written der key _)
                    ∙ fails-write_pair x p q _ _ d)))
      ]
    ]
  ]

  found :
      (later k : ℕ) (dir : Text) (e : Disk) (ca : x.Cert × x.Key)
      → e.fails (mkdir_all dir) ≡ false
      → existing_ca x dir e ≡ some ca
      → new_manager_in x later k dir e ≡ (manager_of x (some ca), e)
  unfolding new_manager_in
  found later k dir e ca h f = simp h (rw (f, new_manager_in) refl)

  -- What the first start leaves.
  record IsReady (dir : Text) (m : CaManager x) (e : Disk) : Type 0 where
    ca : x.Cert × x.Key
    existing : existing_ca x dir e ≡ some ca
    made : manager_of x (some ca) ≡ some m
    opens : e.fails (mkdir_all dir) ≡ false

  new_manager_in-IsReady :
      (now n : ℕ) (dir : Text) (d : Disk) (m : CaManager x)
      → ((u : Text) → (d.fails (stat u) ≡ false) × (d.fails (read_file u) ≡ false))
      → (new_manager_in x now n dir d).0 ≡ some m
      → IsReady dir m (new_manager_in x now n dir d).1
  unfolding new_manager_in
  new_manager_in-IsReady now n dir d m r h = elim (Bool-cases (d.fails (mkdir_all dir))) [
    | inl e ↦ cc (simp e at h)
    | inr e ↦ elim (Option-cases (existing_ca x dir d)) [
      | inr (ca, f) ↦ simp e (
          rw (f, new_manager_in)
            (record {
              ca = ca;
              existing = f;
              made = rw (f, new_manager_in) at (simp e at h);
              opens = e;
            }))
      | inl f ↦
          let (ca, g, made) = manager_of-some _ m (rw (f, new_manager_in) at (simp e at h)) in
          simp e (
            rw (f, new_manager_in)
              (record {
                ca = ca;
                existing = generate_ca-existing now n dir d ca r g;
                made = made;
                opens =
                    ap (λ (q : Call → Bool). q (mkdir_all dir))
                      (fails-generate_ca now n (cert_file x dir) (key_file x dir) d)
                    ∙ e;
              }))
    ]
  ]

  -- Once NewCAManager has returned a manager for a directory, it returns the same CA with an empty
  -- cache at every later start, whatever the clock and the randomness then are, and writes nothing,
  -- if the files of the directory can be read.
  pub new_manager_in-again :
      (now n later k : ℕ) (dir : Text) (d : Disk) (m : CaManager x)
      → ((u : Text) → (d.fails (stat u) ≡ false) × (d.fails (read_file u) ≡ false))
      → (new_manager_in x now n dir d).0 ≡ some m
      → new_manager_in x later k dir (new_manager_in x now n dir d).1
        ≡ (some m, (new_manager_in x now n dir d).1)
  new_manager_in-again now n later k dir d m r h =
      let e = (new_manager_in x now n dir d).1 in
      let ready = new_manager_in-IsReady now n dir d m r h in
      found later k dir e ready.ca ready.opens ready.existing
      ∙ ap (λ (o : Option (CaManager x)). (o, e)) ready.made
