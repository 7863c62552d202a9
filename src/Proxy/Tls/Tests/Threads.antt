-- ===== src/Proxy/Tls/Tests/Threads.antt =====
-- A race of two connections in GetHostCertificate of pkg/proxy/tls.go.
use reelm.Base.{ℕ, eqb, if◌then◌else◌, ◌≡◌, refl, some, ◌∷◌, Text, codes, ◌==◌, contains}
use reelm.Proxy.Tls.Ca.{TlsCertificate, host_of, cached, issue}
use reelm.Proxy.Tls.Ca.Cache.{IsIssued, IsSound}
use reelm.Proxy.Tls.Ca.Threads.{
  loading, issuing, storing, returned, System, call, miss, made, store, Reach, here, next, at,
  moved, at_rest, Reach-IsIssued,
}
use reelm.Proxy.Tls.Tests.{toy, manager, leaf}

abbrev asked : ℕ → Text
asked i = if eqb i 0 then codes "h:443" else codes "h"

abbrev second_leaf : TlsCertificate toy
second_leaf = record leaf { private_key = 8 }

-- Two connections to one host: the second looks into the cache before the first has stored.
abbrev loaded : System toy asked
loaded =
    moved toy asked
      (moved toy asked (at_rest toy asked manager) 0 (loading (host_of toy (codes "h:443")))) 1
      (loading (host_of toy (codes "h")))

abbrev made_both : System toy asked
made_both =
    moved toy asked
      (moved toy asked
        (moved toy asked (moved toy asked loaded 0 (issuing (codes "h"))) 1 (issuing (codes "h"))) 0
        (storing (codes "h") leaf))
      1 (storing (codes "h") second_leaf)

abbrev stored : System toy asked → ℕ → TlsCertificate toy → System toy asked
stored s i c = record {
  manager = record s.manager { cert_cache = (codes "h", c) ∷ s.manager.cert_cache };
  calls = at toy asked s.calls i (returned (codes "h") (some c));
}

abbrev raced : System toy asked
raced = stored (stored made_both 1 second_leaf) 0 leaf

race : Reach toy asked (at_rest toy asked manager) raced
unfolding cached issue host_of contains ◌==◌
race =
    let a = next (next here (call 0 refl)) (call 1 refl) in
    let b = next (next a (miss 0 (codes "h") refl refl)) (miss 1 (codes "h") refl refl) in
    let c =
      next (next b (made 0 5 7 (codes "h") leaf refl refl))
        (made 1 6 8 (codes "h") second_leaf refl refl) in
    next (next c (store 1 (codes "h") second_leaf refl)) (store 0 (codes "h") leaf refl)

Reach-IsIssued_example :
    IsSound toy raced.manager
    × ((i : ℕ) (host : Text) (c : TlsCertificate toy)
        → raced.calls i ≡ returned host (some c)
        → IsIssued toy raced.manager (host_of toy (asked i)) c)
Reach-IsIssued_example = Reach-IsIssued toy asked manager raced tt race
