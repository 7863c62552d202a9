-- ===== src/Providers/Azure.antt =====
-- pkg/hasher/providers/azure.go.
pub mod Deployment
use reelm.Base.{
  not, Option, none, some, List, [], ◌∷◌, ◌++◌, Text, codes, ◌==◌, contains, split, Fallible, ok,
  failed, if◌then◌else◌,
}
use reelm.Hasher.{CanonicRequest}
use reelm.Http.{Request}
use reelm.Providers.Shared.{JsonCode}
use reelm.Providers.OpenAi.{RequestSchema, openai_code, canonicalize as canonicalize_openai}

-- The loop over the parts of the path: what follows the first "deployments", or else the model.
unfoldable pub deployment : Text → List Text → Text
deployment model [] = model
deployment model (p ∷ []) = model
deployment model (p ∷ q ∷ parts) =
    let later = deployment model (q ∷ parts) in if p == codes "deployments" then q else later

unfoldable pub model_of : Option Request → Text → Text
model_of none model = model
model_of (some r) model =
    if contains r.path (codes "/deployments/") then deployment model (split 47 r.path) else model

unfoldable pub for_azure : Option Request → Fallible CanonicRequest → Fallible CanonicRequest
for_azure req (failed e) = failed e
for_azure req (ok c) = ok (record c { provider = codes "azure"; model = model_of req c.model })

-- Canonicalize
unfoldable pub azure_canonicalize :
    JsonCode RequestSchema → Option Request → Text → Fallible CanonicRequest
azure_canonicalize j req [] = failed (codes "empty request body")
azure_canonicalize j req (c ∷ body) = for_azure req (canonicalize_openai j req (c ∷ body))

-- All that the canonicalizer computes with.
unfoldable pub azure_code : Unit {0}
unfolding azure_canonicalize for_azure model_of deployment contains split openai_code
azure_code = tt
