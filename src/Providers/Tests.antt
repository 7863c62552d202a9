-- ===== src/Providers/Tests.antt =====
-- Runs of pkg/hasher/providers; the registry has texts as canonicalizers.
pub mod Messages
use reelm.Base.{
  ◌≡◌, refl, none, some, List, [], ◌∷◌, Text, codes, ◌==◌, ok, to_lower, if◌then◌else◌,
}
use reelm.Http.{Request}
use reelm.Hasher.Order.{Reordered}
use reelm.Hasher.{Json, null, str, Tool, CanonicRequest, hasher_code}
use reelm.Providers.Shared.{JsonCode}
use reelm.Providers.OpenAi.{RequestSchema, canonicalize}
use reelm.Providers.OpenAi.Respelled.{tools_reordered, canonicalize-Respelled}
use reelm.Providers.Azure.{azure_code}
use reelm.Providers.Azure.Deployment.{azure_canonicalize-model}
use reelm.Providers.Registry.{Registry, register, get, new_registry, detect_provider}
use reelm.Providers.Registry.Laws.{get-register, IsRegistered, detect_provider-IsRegistered}

abbrev registry : Registry Text
registry = new_registry (codes "o") (codes "a") (codes "g") (codes "z")

abbrev pub gemini_request : Request
gemini_request = record {
  method = codes "POST";
  path = codes "/v1/models/x:generateContent";
  raw_query = [];
  host = [];
  header = [];
  body = none;
}

detect_provider-IsRegistered_example :
    IsRegistered registry (detect_provider (λ t. t) (some gemini_request) registry)
detect_provider-IsRegistered_example = detect_provider-IsRegistered (λ t. t) gemini_request registry

abbrev pub tool : Text → Tool
tool name = record { type = codes "function"; function = (codes "name", str name) ∷ [] }

abbrev schema : List Tool → RequestSchema
schema tools = record {
  model = codes "gpt";
  messages =
      record {
        role = codes " User";
        content = str (codes "hi\n");
        name = [];
        tool_call_id = [];
        tool_calls = [];
      }
      ∷ [];
  temperature = some (codes "1");
  top_p = none;
  max_tokens = none;
  max_completion_tokens = none;
  presence_penalty = none;
  frequency_penalty = none;
  response_format = null;
  tools = tools;
  tool_choice = null;
  stop = null;
}

abbrev pub ab : List Tool
ab = tool (codes "a") ∷ tool (codes "b") ∷ []

abbrev pub ba : List Tool
ba = tool (codes "b") ∷ tool (codes "a") ∷ []

abbrev pub json_code : JsonCode RequestSchema
json_code = record {
  parse = λ t. ok (schema (if t == codes "1" then ab else ba));
  decode = λ t. none;
  marshal = λ v. none;
  encode = λ v. none;
}

canonicalize-Respelled_example :
    canonicalize json_code (some gemini_request) (codes "1")
    ≡ canonicalize json_code (some gemini_request) (codes "2")
unfolding hasher_code
canonicalize-Respelled_example =
    canonicalize-Respelled json_code (some gemini_request) 49 50 [] [] (schema ab) (schema ba) refl
      refl
      (tools_reordered (schema []) ab ba (Reordered.swap (tool (codes "a")) (tool (codes "b")) [])
        ((refl, tt), (tt, tt)) refl refl)
