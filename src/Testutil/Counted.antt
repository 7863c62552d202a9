-- ===== src/Testutil/Counted.antt =====
-- internal/testutil/mock_upstream.go: what CallCount says after some requests. Each request adds to
-- the counter in one atomic step, so requests at the same time stand here in the order of that step.
use reelm.Base.{ℕ, ◌+◌, ◌<◌, ◌≡◌, Option, none, some, List, [], ◌∷◌, Text, arith}
use reelm.Base.Int.{pos}
use reelm.Http.{Request}
use reelm.Http.Writer.{ResponseWriter}
use reelm.Testutil.{
  MockUpstream, Endpoint, Outside, routes, count_call, call_count, dispatched, serve,
}

-- A request, with what its handler needs
pub record Visit : Type 0 where
  pub outside : Outside
  pub request : Request
  pub writer : ResponseWriter

abbrev pub served : List Visit → MockUpstream → MockUpstream
served [] m = m
served (v ∷ vs) m = served vs (serve v.outside v.request m v.writer).0

-- The requests for which the mux has a handler
abbrev pub is_routed : Option Endpoint → ℕ
is_routed none = 0
is_routed (some e) = 1

abbrev pub routed : List Visit → ℕ
routed [] = 0
routed (v ∷ vs) = is_routed (v.outside.find routes v.request.path) + routed vs

dispatched-counts :
    (o : Outside) (r : Request) (q : Option Endpoint) (m : MockUpstream) (w : ResponseWriter)
    → m.call_count + is_routed q < 9223372036854775808
    → (dispatched o r q m w).0.call_count ≡ m.call_count + is_routed q
unfolding count_call
dispatched-counts o r none m w h = omega arith
dispatched-counts o r (some e) m w h = omega arith

served-counts :
    (vs : List Visit) (m : MockUpstream)
    → m.call_count + routed vs < 9223372036854775808
    → (served vs m).call_count ≡ m.call_count + routed vs
unfolding serve
served-counts [] m h = omega arith
served-counts (v ∷ vs) m h =
    let q = v.outside.find routes v.request.path in
    let d = dispatched-counts v.outside v.request q m v.writer (omega arith) in
    let ih = served-counts vs (dispatched v.outside v.request q m v.writer).0 (omega (arith, d)) in
    omega (arith, d, ih)

-- CallCount of a new mock upstream is the number of the requests that it got for its three
-- endpoints, up to 2 ^ 63 - 1 of them, whatever they were and however they were answered; a request
-- that the mux sends nowhere does not count.
pub call_count-served :
    (url : Text) (vs : List Visit)
    → routed vs < 9223372036854775808
    → call_count (served vs (record { url = url; call_count = 0 })) ≡ pos (routed vs)
unfolding call_count
call_count-served url vs h =
    let m : MockUpstream = record { url = url; call_count = 0 } in
    let e = served-counts vs m (omega arith) in
    let n : (served vs m).call_count ≡ routed vs = omega (arith, e) in rw n (ground arith)
