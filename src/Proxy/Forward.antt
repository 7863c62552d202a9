-- ===== src/Proxy/Forward.antt =====
-- pkg/proxy/handler.go: copying headers, and the headers of one hop that are not copied.
pub mod Laws
use reelm.Base.{Bool, List, [], ◌∷◌, Text, codes, ◌==◌, any, to_lower, if◌then◌else◌}
use reelm.Http.Headers.{Header, add}

abbrev pub hop_by_hop : List Text
hop_by_hop =
    codes "connection"
    ∷ codes "keep-alive"
    ∷ codes "proxy-authenticate"
    ∷ codes "proxy-authorization"
    ∷ codes "te"
    ∷ codes "trailers"
    ∷ codes "transfer-encoding"
    ∷ codes "upgrade"
    ∷ []

-- isHopByHopHeader
unfoldable pub is_hop_by_hop_header : Text → Bool
is_hop_by_hop_header name = any (λ h. h == to_lower name) hop_by_hop

pub add_all : Text → List Text → Header → Header
add_all k [] dst = dst
add_all k (v ∷ vs) dst = add_all k vs (add k v dst)

-- copyHeaders, with the destination last
pub copy_headers : Header → Header → Header
copy_headers [] dst = dst
copy_headers ((k, vv) ∷ src) dst =
    copy_headers src (if is_hop_by_hop_header k then dst else add_all k vv dst)

-- The headers that handleRecord keeps for the cassette: the first value of each.
pub first_values : Header → List (Text × Text)
first_values [] = []
first_values ((k, []) ∷ h) = first_values h
first_values ((k, v ∷ vs) ∷ h) = (k, v) ∷ first_values h
