-- ===== src/Providers/OpenAi.antt =====
-- pkg/hasher/providers/openai.go. The decoding of a body into the schema, and the encodings of JSON
-- values, are those of encoding/json, and parameters; a number is the text that Go prints for it.
pub mod Respelled
use reelm.Base.{
  not, Option, none, some, List, [], ◌∷◌, ◌++◌, map, Text, codes, ◌==◌, Fallible, ok, failed,
  to_lower, trim_space, if◌then◌else◌,
}
use reelm.Hasher.{
  Json, null, num, str, arr, Dict, ToolCall, Message, Tool, CanonicRequest, normalize_text,
  canonicalize_tools, canonicalize_json, hasher_code,
}
use reelm.Http.{Request}
use reelm.Http.Headers.{get}
use reelm.Providers.Shared.{
  JsonCode, bytes_of, canonical_text, number_param, json_param, namespace_of, path_or, method_of,
}

-- openAIMessageSchema
pub record MessageSchema : Type 0 where
  pub role : Text
  pub content : Json
  pub name : Text
  pub tool_call_id : Text
  pub tool_calls : List ToolCall

-- openAIRequestSchema; an absent pointer is none, an absent interface{} is null.
pub record RequestSchema : Type 0 where
  pub model : Text
  pub messages : List MessageSchema
  pub temperature : Option Text
  pub top_p : Option Text
  pub max_tokens : Option Text
  pub max_completion_tokens : Option Text
  pub presence_penalty : Option Text
  pub frequency_penalty : Option Text
  pub response_format : Json
  pub tools : List Tool
  pub tool_choice : Json
  pub stop : Json

unfoldable pub parameters_of : RequestSchema → Dict
parameters_of p =
    number_param (codes "temperature") p.temperature
    ++ (number_param (codes "top_p") p.top_p
        ++ (number_param (codes "max_tokens") p.max_tokens
            ++ (number_param (codes "max_completion_tokens") p.max_completion_tokens
                ++ (number_param (codes "presence_penalty") p.presence_penalty
                    ++ (number_param (codes "frequency_penalty") p.frequency_penalty
                        ++ (json_param (codes "response_format") p.response_format
                            ++ (json_param (codes "tool_choice") p.tool_choice
                                ++ json_param (codes "stop") p.stop)))))))

abbrev pub endpoint_of : Option Request → Text
endpoint_of req = path_or req (codes "/v1/chat/completions")

module _ (j : JsonCode RequestSchema) where
  -- The switch on a content's type
  unfoldable pub content_text : Json → Text
  content_text (str s) = normalize_text s
  content_text (arr items) = canonical_text j (arr items)
  content_text null = []
  content_text v = bytes_of (j.marshal v)

  -- The arguments in their canonical form, or as they are where they are no JSON.
  unfoldable pub arguments_text : Text → Text
  arguments_text arguments =
      let (valid, text) = canonicalize_json j.decode j.encode arguments in
      if valid then text else arguments

  unfoldable pub canonicalize_call : ToolCall → ToolCall
  canonicalize_call tc = record tc { arguments = arguments_text tc.arguments }

  unfoldable pub canonicalize_message : MessageSchema → Message
  canonicalize_message m = record {
    role = to_lower (trim_space m.role);
    content = content_text m.content;
    name = m.name;
    tool_call_id = m.tool_call_id;
    tool_calls = map canonicalize_call m.tool_calls;
  }

  -- Canonicalize, from the decoded body on
  unfoldable pub canonic_request : Option Request → RequestSchema → CanonicRequest
  canonic_request req p = record {
    namespace = namespace_of req;
    provider = codes "openai";
    endpoint = endpoint_of req;
    method = method_of req;
    model = p.model;
    messages = map canonicalize_message p.messages;
    parameters = parameters_of p;
    tools = canonicalize_tools p.tools;
    extra_fields = [];
  }

  unfoldable pub parsed : Option Request → Fallible RequestSchema → Fallible CanonicRequest
  parsed req (failed e) = failed (codes "failed to parse OpenAI request body: " ++ e)
  parsed req (ok p) = ok (canonic_request req p)

  -- Canonicalize
  unfoldable pub canonicalize : Option Request → Text → Fallible CanonicRequest
  canonicalize req [] = failed (codes "empty request body")
  canonicalize req (c ∷ body) = parsed req (j.parse (c ∷ body))

-- All that the canonicalizer computes with.
unfoldable pub openai_code : Unit {0}
unfolding canonicalize parsed canonic_request canonicalize_message canonicalize_call arguments_text
    content_text parameters_of hasher_code to_lower get
openai_code = tt
