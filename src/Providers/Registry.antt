-- ===== src/Providers/Registry.antt =====
-- pkg/hasher/providers/registry.go, for canonicalizers of any type. The registry's lock is left
-- out. `quote` is the %q of package fmt, in the text of the error.
pub mod Laws
use reelm.Base.{
  Bool, not, ◌||◌, Option, none, some, List, [], ◌∷◌, ◌++◌, Text, codes, ◌==◌, Fallible, ok, failed,
  contains, has_prefix, to_lower, if◌then◌else◌,
}
use reelm.Http.{Request}
use reelm.Http.Headers.{get as header_get}

-- Registry: the map from lower-case names to canonicalizers
abbrev pub Registry : Type 0 → Type 0
Registry C = List (Text × C)

pub entry : {C : Type 0} → Text → Registry C → Option C
entry p [] = none
entry p ((q, c) ∷ r) = if q == p then some c else entry p r

pub set_entry : {C : Type 0} → Text → C → Registry C → Registry C
set_entry p c [] = (p, c) ∷ []
set_entry p c ((q, d) ∷ r) = if q == p then (p, c) ∷ r else (q, d) ∷ set_entry p c r

-- The tests on the request, 2 to 5, in their order.
pub is_azure : Request → Bool
is_azure req =
    contains req.path (codes "/openai/deployments") || contains req.host (codes ".openai.azure.com")

pub is_anthropic : Request → Bool
is_anthropic req =
    contains req.path (codes "/v1/messages")
    || contains req.path (codes "/v1/complete")
    || contains req.host (codes "anthropic.com")
    || not (header_get (codes "anthropic-version") req.header == [])
    || not (header_get (codes "x-api-key") req.header == [])

pub is_gemini : Request → Bool
is_gemini req =
    contains req.path (codes ":generateContent")
    || contains req.path (codes ":streamGenerateContent")
    || contains req.path (codes "/v1beta/models")
    || contains req.host (codes "generativelanguage.googleapis.com")

pub is_openai : Request → Bool
is_openai req =
    contains req.path (codes "/chat/completions")
    || contains req.path (codes "/v1/models")
    || contains req.host (codes "api.openai.com")
    || has_prefix req.path (codes "/v1/")

module _ {C : Type 0} where
  -- Register
  pub register : Text → C → Registry C → Registry C
  register provider c r = set_entry (to_lower provider) c r

  -- Get
  pub get : Text → Registry C → Option C
  get provider r = entry (to_lower provider) r

  -- NewRegistry, with the four canonicalizers
  pub new_registry : C → C → C → C → Registry C
  new_registry openai anthropic gemini azure = register (codes "azure") azure (
      register (codes "gemini") gemini
        (register (codes "anthropic") anthropic (register (codes "openai") openai [])))

  -- A provider that the registry has under the name, or else what the later tests find.
  abbrev pub choose : Text → Option C → Fallible (Text × C) → Fallible (Text × C)
  choose name (some c) later = ok (name, c)
  choose name none later = later

  -- One numbered step of DetectProvider: if the test passes and the name is registered, it is that.
  abbrev pub try : Bool → Text → Registry C → Fallible (Text × C) → Fallible (Text × C)
  try test name r later = if test then choose name (get name r) later else later

  -- Steps 2 to 6 of DetectProvider
  pub detect_by_request : (Text → Text) → Request → Registry C → Fallible (Text × C)
  detect_by_request quote req r = try (is_azure req) (codes "azure") r (
      try (is_anthropic req) (codes "anthropic") r (
        try (is_gemini req) (codes "gemini") r (
          try (is_openai req) (codes "openai") r (
            choose (codes "openai") (get (codes "openai") r)
              (failed (codes "could not detect provider for request path " ++ quote req.path))))))

  -- DetectProvider
  pub detect_provider : (Text → Text) → Option Request → Registry C → Fallible (Text × C)
  detect_provider quote none r = failed (codes "request cannot be nil")
  detect_provider quote (some req) r =
      let p = header_get (codes "X-Reelm-Provider") req.header in
      let later = detect_by_request quote req r in
      if not (p == []) then choose (to_lower p) (get p r) later else later

-- All that the detection of a provider computes with.
unfoldable pub registry_code : Unit {0}
unfolding detect_provider detect_by_request get entry is_azure is_anthropic is_gemini is_openai
    header_get contains has_prefix to_lower ◌==◌
registry_code = tt
