-- ===== src/Providers/Blind.antt =====
-- pkg/hasher/providers: what of a request the canonical form does not depend on.
use reelm.Base.{◌≡◌, refl, ap, ◌∙◌, some, [], ◌∷◌, Text, codes, Fallible, ok, failed}
use reelm.Hasher.{CanonicRequest}
use reelm.Http.{Request}
use reelm.Http.Headers.{get}
use reelm.Providers.Shared.{JsonCode, or_text}
use reelm.Providers.OpenAi
use reelm.Providers.Anthropic
use reelm.Providers.Gemini
use reelm.Providers.OpenAi.{canonicalize, parsed, canonic_request}
use reelm.Providers.Azure.{azure_canonicalize, for_azure, model_of}
use reelm.Providers.Anthropic.{anthropic_canonicalize, anthropic_parsed, anthropic_canonic}
use reelm.Providers.Gemini.{model_in_path, gemini_canonicalize, gemini_parsed, gemini_canonic}

-- Two requests that agree in what the canonicalizers read beside the body.
pub record SeemAlike (q r : Request) : Type 0 where
  pub method : q.method ≡ r.method
  pub path : q.path ≡ r.path
  pub namespace :
      get (codes "X-Reelm-Namespace") q.header ≡ get (codes "X-Reelm-Namespace") r.header

module _ (q r : Request) (alike : SeemAlike q r) where
  parsed-alike :
      (j : JsonCode OpenAi.RequestSchema) (o : Fallible OpenAi.RequestSchema)
      → parsed j (some q) o ≡ parsed j (some r) o
  unfolding parsed canonic_request
  parsed-alike j (failed e) = refl
  parsed-alike j (ok p) = λ i. ok (record (canonic_request j (some q) p) {
    namespace = alike.namespace i;
    endpoint = or_text (alike.path i) (codes "/v1/chat/completions");
    method = or_text (alike.method i) (codes "POST");
  })

  canonicalize-alike :
      (j : JsonCode OpenAi.RequestSchema) (body : Text)
      → canonicalize j (some q) body ≡ canonicalize j (some r) body
  unfolding canonicalize
  canonicalize-alike j [] = refl
  canonicalize-alike j (c ∷ body) = parsed-alike j (j.parse (c ∷ body))

  for_azure-alike : (o : Fallible CanonicRequest) → for_azure (some q) o ≡ for_azure (some r) o
  unfolding for_azure model_of
  for_azure-alike (failed e) = refl
  for_azure-alike (ok c) = λ i. ok (record c {
    provider = codes "azure";
    model = model_of (some (record q { path = alike.path i })) c.model;
  })

  azure_canonicalize-alike :
      (j : JsonCode OpenAi.RequestSchema) (body : Text)
      → azure_canonicalize j (some q) body ≡ azure_canonicalize j (some r) body
  unfolding azure_canonicalize
  azure_canonicalize-alike j [] = refl
  azure_canonicalize-alike j (c ∷ body) =
      ap (for_azure (some q)) (canonicalize-alike j (c ∷ body))
      ∙ for_azure-alike (canonicalize j (some r) (c ∷ body))

  anthropic_parsed-alike :
      (j : JsonCode Anthropic.RequestSchema) (o : Fallible Anthropic.RequestSchema)
      → anthropic_parsed j (some q) o ≡ anthropic_parsed j (some r) o
  unfolding anthropic_parsed anthropic_canonic
  anthropic_parsed-alike j (failed e) = refl
  anthropic_parsed-alike j (ok p) = λ i. ok (record (anthropic_canonic j (some q) p) {
    namespace = alike.namespace i;
    endpoint = or_text (alike.path i) (codes "/v1/messages");
    method = or_text (alike.method i) (codes "POST");
  })

  anthropic_canonicalize-alike :
      (j : JsonCode Anthropic.RequestSchema) (body : Text)
      → anthropic_canonicalize j (some q) body ≡ anthropic_canonicalize j (some r) body
  unfolding anthropic_canonicalize
  anthropic_canonicalize-alike j [] = refl
  anthropic_canonicalize-alike j (c ∷ body) = anthropic_parsed-alike j (j.parse (c ∷ body))

  gemini_parsed-alike :
      (j : JsonCode Gemini.RequestSchema) (o : Fallible Gemini.RequestSchema)
      → gemini_parsed j (some q) o ≡ gemini_parsed j (some r) o
  unfolding gemini_parsed gemini_canonic
  gemini_parsed-alike j (failed e) = refl
  gemini_parsed-alike j (ok p) = λ i. ok (record (gemini_canonic j (some q) p) {
    namespace = alike.namespace i;
    endpoint = or_text (alike.path i) (codes "/v1beta/models/gemini-pro:generateContent");
    method = or_text (alike.method i) (codes "POST");
    model = model_in_path (alike.path i);
  })

  gemini_canonicalize-alike :
      (j : JsonCode Gemini.RequestSchema) (body : Text)
      → gemini_canonicalize j (some q) body ≡ gemini_canonicalize j (some r) body
  unfolding gemini_canonicalize
  gemini_canonicalize-alike j [] = refl
  gemini_canonicalize-alike j (c ∷ body) = gemini_parsed-alike j (j.parse (c ∷ body))

-- Two requests with one method, one path and one namespace have one canonical request for one body,
-- by each of the four canonicalizers: the other headers, keys and credentials among them, the query
-- and the host make no difference.
pub canonicalize-SeemAlike :
    (o : JsonCode OpenAi.RequestSchema) (a : JsonCode Anthropic.RequestSchema)
    (g : JsonCode Gemini.RequestSchema) (q r : Request) (body : Text)
    → SeemAlike q r
    → (canonicalize o (some q) body ≡ canonicalize o (some r) body)
      × (azure_canonicalize o (some q) body ≡ azure_canonicalize o (some r) body)
      × (anthropic_canonicalize a (some q) body ≡ anthropic_canonicalize a (some r) body)
      × (gemini_canonicalize g (some q) body ≡ gemini_canonicalize g (some r) body)
canonicalize-SeemAlike o a g q r body alike = (
  canonicalize-alike q r alike o body,
  azure_canonicalize-alike q r alike o body,
  anthropic_canonicalize-alike q r alike a body,
  gemini_canonicalize-alike q r alike g body,
)
