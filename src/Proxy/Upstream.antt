-- ===== src/Proxy/Upstream.antt =====
-- pkg/proxy/handler.go: resolveUpstreamURL. `quote` is the %q of package fmt.
use reelm.Base.{
  Bool, not, List, [], ◌∷◌, ◌++◌, Text, codes, ◌==◌, eqb, ◌≡◌, refl, false, Fallible, ok, failed,
  equal_fold, to_lower, trim_right, if◌then◌else◌, any, or-eq-false,
}
use reelm.Config.{Provider}

-- `full`, for a provider of the configuration
pub configured_url : Text → Text → Text → Text
configured_url base_url path query =
    let full = trim_right (λ c. eqb c b'/') base_url ++ path in
    if not (query == []) then full ++ (codes "?" ++ query) else full

-- The defaults after the loop
pub default_url : (Text → Text) → Text → Text → Fallible Text
default_url quote name path =
    let lower = to_lower name in
    if lower == codes "openai"
    then ok (codes "https://api.openai.com" ++ path)
    else if lower == codes "anthropic"
    then ok (codes "https://api.anthropic.com" ++ path)
    else if lower == codes "gemini"
    then ok (codes "https://generativelanguage.googleapis.com" ++ path)
    else failed (codes "no upstream configuration configured for provider " ++ quote name)

-- resolveUpstreamURL
pub resolve_upstream_url : (Text → Text) → List Provider → Text → Text → Text → Fallible Text
resolve_upstream_url quote [] name path query = default_url quote name path
resolve_upstream_url quote (p ∷ ps) name path query =
    let later = resolve_upstream_url quote ps name path query in
    if equal_fold p.name name then ok (configured_url p.base_url path query) else later

-- Whether the configuration has the provider.
abbrev pub is_configured : Text → List Provider → Bool
is_configured name ps = any (λ p. equal_fold p.name name) ps

-- A provider that is not configured gets its default address, and the request's query is not part
-- of the URL: two requests that differ in the query alone go to one URL.
pub resolve_upstream_url-default :
    (quote : Text → Text) (ps : List Provider) (name path query : Text)
    → is_configured name ps ≡ false
    → resolve_upstream_url quote ps name path query ≡ default_url quote name path
unfolding resolve_upstream_url
resolve_upstream_url-default quote [] name path query h = refl
resolve_upstream_url-default quote (p ∷ ps) name path query h =
    let (e, f) = or-eq-false (equal_fold p.name name) (is_configured name ps) h in
    simp e (resolve_upstream_url-default quote ps name path query f)

-- All that an upstream's URL computes with.
unfoldable pub upstream_code : Unit {0}
unfolding resolve_upstream_url default_url configured_url equal_fold to_lower trim_right ◌==◌
upstream_code = tt
