-- ===== src/Providers/Anthropic.antt =====
-- pkg/hasher/providers/anthropic.go.
pub mod Tools
use reelm.Base.{
  Option, none, some, List, [], ◌∷◌, ◌++◌, map, Text, codes, ◌==◌, join, Fallible, ok, failed,
  to_lower, trim_space, if◌then◌else◌,
}
use reelm.Hasher.{
  Json, null, str, arr, obj, Items, nil, cons, Fields, Dict, ToolCall, Message, Tool,
  CanonicRequest, normalize_text, canonicalize_tools, hasher_code,
}
use reelm.Http.{Request}
use reelm.Http.Headers.{get}
use reelm.Providers.Shared.{
  JsonCode, bytes_of, canonical_text, number_param, json_param, namespace_of, path_or, method_of,
  values_of, field_of, text_or_empty,
}

-- anthropicMessageSchema
pub record MessageSchema : Type 0 where
  pub role : Text
  pub content : Json

-- anthropicToolSchema; an absent input schema is null.
pub record ToolSchema : Type 0 where
  pub name : Text
  pub description : Text
  pub input_schema : Json

-- anthropicRequestSchema; an absent pointer is none, an absent interface{} is null.
pub record RequestSchema : Type 0 where
  pub model : Text
  pub messages : List MessageSchema
  pub system : Json
  pub max_tokens : Option Text
  pub temperature : Option Text
  pub top_p : Option Text
  pub top_k : Option Text
  pub stop_sequences : List Text
  pub tools : List ToolSchema
  pub tool_choice : Json

-- The texts and the tool calls that the parts of one content leave.
pub record Parts : Type 0 where
  pub texts : List Text
  pub calls : List ToolCall

abbrev pub no_parts : Parts
no_parts = record { texts = []; calls = [] }

abbrev pub with_text : Text → Parts → Parts
with_text t ps = record ps { texts = t ∷ ps.texts }

abbrev pub with_call : ToolCall → Parts → Parts
with_call tc ps = record ps { calls = tc ∷ ps.calls }

-- `if txt, ok := partMap["text"].(string); ok`
abbrev pub with_plain : Json → Parts → Parts
with_plain (str s) ps = with_text (normalize_text s) ps
with_plain _ ps = ps

abbrev pub text_items : List Text → Items
text_items [] = nil
text_items (t ∷ ts) = cons (str t) (text_items ts)

-- `if len(parsed.StopSequences) > 0 { ... }`
abbrev pub stop_param : List Text → Dict
stop_param [] = []
stop_param (t ∷ ts) = (codes "stop_sequences", arr (text_items (t ∷ ts))) ∷ []

unfoldable pub anthropic_parameters : RequestSchema → Dict
anthropic_parameters p =
    number_param (codes "max_tokens") p.max_tokens
    ++ (number_param (codes "temperature") p.temperature
        ++ (number_param (codes "top_p") p.top_p
            ++ (number_param (codes "top_k") p.top_k
                ++ (stop_param p.stop_sequences
                    ++ json_param (codes "tool_choice") p.tool_choice))))

unfoldable pub tool_of : ToolSchema → Tool
tool_of t = record {
  type = codes "function";
  function =
      (codes "name", str t.name)
      ∷ (codes "description", str t.description)
      ∷ (codes "parameters", t.input_schema)
      ∷ [];
}

module _ (j : JsonCode RequestSchema) where
  -- The text of the system prompt; another value than a text or an array has none.
  unfoldable pub system_text : Json → Text
  system_text (str s) = normalize_text s
  system_text (arr items) = canonical_text j (arr items)
  system_text _ = []

  unfoldable pub system_messages : Json → List Message
  system_messages v =
      if system_text v == []
      then []
      else record {
        role = codes "system";
        content = system_text v;
        name = [];
        tool_call_id = [];
        tool_calls = [];
      }
        ∷ []

  -- One part of a content, before what the later parts leave.
  unfoldable pub with_part : Fields → Parts → Parts
  with_part part ps =
      let type = text_or_empty (field_of (codes "type") part) in
      if type == codes "text"
      then with_plain (field_of (codes "text") part) ps
      else if type == codes "tool_use"
      then with_call
          (record {
            id = text_or_empty (field_of (codes "id") part);
            type = codes "function";
            name = text_or_empty (field_of (codes "name") part);
            arguments = canonical_text j (field_of (codes "input") part);
          })
          ps
      else if type == codes "tool_result"
      then with_text (canonical_text j (obj part)) ps
      else with_text (bytes_of (j.marshal (obj part))) ps

  -- The loop over the parts, which passes over what is no map.
  unfoldable pub parts_of : List Json → Parts
  parts_of [] = no_parts
  parts_of (obj part ∷ vs) = with_part part (parts_of vs)
  parts_of (v ∷ vs) = parts_of vs

  -- The switch on a content's type
  unfoldable pub content_parts : Json → Parts
  content_parts (str s) = record { texts = normalize_text s ∷ []; calls = [] }
  content_parts (arr items) = parts_of (values_of items)
  content_parts _ = no_parts

  unfoldable pub anthropic_message : MessageSchema → Message
  anthropic_message m = record {
    role = to_lower (trim_space m.role);
    content = join (codes "\n") (content_parts m.content).texts;
    name = [];
    tool_call_id = [];
    tool_calls = (content_parts m.content).calls;
  }

  -- Canonicalize, from the decoded body on
  unfoldable pub anthropic_canonic : Option Request → RequestSchema → CanonicRequest
  anthropic_canonic req p = record {
    namespace = namespace_of req;
    provider = codes "anthropic";
    endpoint = path_or req (codes "/v1/messages");
    method = method_of req;
    model = p.model;
    messages = system_messages p.system ++ map anthropic_message p.messages;
    parameters = anthropic_parameters p;
    tools = canonicalize_tools (map tool_of p.tools);
    extra_fields = [];
  }

  unfoldable pub anthropic_parsed :
      Option Request → Fallible RequestSchema → Fallible CanonicRequest
  anthropic_parsed req (failed e) = failed (codes "failed to parse Anthropic request body: " ++ e)
  anthropic_parsed req (ok p) = ok (anthropic_canonic req p)

  -- Canonicalize
  unfoldable pub anthropic_canonicalize : Option Request → Text → Fallible CanonicRequest
  anthropic_canonicalize req [] = failed (codes "empty request body")
  anthropic_canonicalize req (c ∷ body) = anthropic_parsed req (j.parse (c ∷ body))

-- All that the canonicalizer computes with.
unfoldable pub anthropic_code : Unit {0}
unfolding anthropic_canonicalize anthropic_parsed anthropic_canonic anthropic_message content_parts
    parts_of with_part system_messages system_text tool_of anthropic_parameters canonical_text
    field_of hasher_code to_lower join get
anthropic_code = tt
