-- ===== src/Providers/Gemini.antt =====
-- pkg/hasher/providers/gemini.go.
pub mod Model
use reelm.Base.{
  ℕ, Bool, true, false, not, ◌||◌, Option, none, some, List, [], ◌∷◌, ◌++◌, map, concat, length,
  drop, Text, codes, ◌==◌, eqb, has_prefix, join, Fallible, ok, failed, if◌then◌else◌,
}
use reelm.Hasher.{
  Json, null, str, arr, obj, Items, Fields, Dict, ToolCall, Message, Tool, CanonicRequest,
  normalize_text, canonicalize_tools, hasher_code,
}
use reelm.Http.{Request}
use reelm.Http.Headers.{get}
use reelm.Providers.Shared.{
  JsonCode, bytes_of, canonical_text, namespace_of, path_or, method_of, field_of, text_or_empty,
  array_or_empty, fields_or_empty,
}

-- geminiPartSchema; an absent interface{} is null.
pub record PartSchema : Type 0 where
  pub text : Text
  pub inline_data : Json
  pub function_call : Json
  pub function_response : Json

-- geminiContentSchema
pub record ContentSchema : Type 0 where
  pub role : Text
  pub parts : List PartSchema

-- geminiRequestSchema; a nil map has no entries, as an empty one.
pub record RequestSchema : Type 0 where
  pub contents : List ContentSchema
  pub system_instruction : Option ContentSchema
  pub generation_config : Dict
  pub safety_settings : Json
  pub tools : List Json
  pub tool_config : Json

-- What follows the first occurrence of `pattern`, if there is one.
unfoldable pub after : Text → Text → Option Text
after pattern [] = if pattern == [] then some [] else none
after pattern (c ∷ s) =
    if has_prefix (c ∷ s) pattern then some (drop (length pattern) (c ∷ s)) else after pattern s

-- What stands before the first occurrence of `c`, or else all.
unfoldable pub until : ℕ → Text → Text
until c [] = []
until c (d ∷ s) = let rest = until c s in if eqb d c then [] else d ∷ rest

abbrev pub model_after : Option Text → Text
model_after none = codes "gemini-pro"
model_after (some rest) = until b':' rest

-- The model that the path names; `model_in_path []` is the default.
unfoldable pub model_in_path : Text → Text
model_in_path path = model_after (after (codes "models/") path)

abbrev pub model_for : Option Request → Text
model_for none = codes "gemini-pro"
model_for (some r) = model_in_path r.path

unfoldable pub role_of : Text → Text
role_of role =
    if role == [] || role == codes "user"
    then codes "user"
    else if role == codes "model"
    then codes "assistant"
    else role

-- The texts of the parts that have one.
unfoldable pub plain_texts : List PartSchema → List Text
plain_texts [] = []
plain_texts (p ∷ ps) =
    let rest = plain_texts ps in if not (p.text == []) then normalize_text p.text ∷ rest else rest

abbrev pub system_message : List Text → List Message
system_message [] = []
system_message (t ∷ ts) =
    record {
      role = codes "system";
      content = join (codes "\n") (t ∷ ts);
      name = [];
      tool_call_id = [];
      tool_calls = [];
    }
    ∷ []

abbrev pub system_instruction_messages : Option ContentSchema → List Message
system_instruction_messages none = []
system_instruction_messages (some c) = system_message (plain_texts c.parts)

-- `params[key] = v`
unfoldable pub put_param : Text → Json → Dict → Dict
put_param key v [] = (key, v) ∷ []
put_param key v ((k, w) ∷ ps) = if k == key then (key, v) ∷ ps else (k, w) ∷ put_param key v ps

abbrev pub with_safety : Json → Dict → Dict
with_safety null ps = ps
with_safety v ps = put_param (codes "safetySettings") v ps

unfoldable pub declared_tool : Json → List Tool
declared_tool (obj fd) =
    record {
      type = codes "function";
      function =
          (codes "name", str (text_or_empty (field_of (codes "name") fd)))
          ∷ (codes "description", field_of (codes "description") fd)
          ∷ (codes "parameters", field_of (codes "parameters") fd)
          ∷ [];
    }
    ∷ []
declared_tool _ = []

abbrev pub declarations : Json → List Json
declarations v = array_or_empty (field_of (codes "functionDeclarations") (fields_or_empty v))

-- The three loops that collect the declared functions
unfoldable pub declared_tools : List Json → List Tool
declared_tools vs = concat (map declared_tool (concat (map declarations vs)))

abbrev pub unless_null : Json → List Text → List Text
unless_null null ts = []
unless_null v ts = ts

module _ (j : JsonCode RequestSchema) where
  -- json.Unmarshal into a map whose error is dropped: what is no object leaves the map nil.
  abbrev pub decoded_fields : Option Json → Fields
  decoded_fields none = Fields.end
  decoded_fields (some v) = fields_or_empty v

  unfoldable pub call_of : Json → ToolCall
  call_of v =
      let fields = decoded_fields (j.decode (canonical_text j v)) in
      record {
        id = [];
        type = codes "function";
        name = text_or_empty (field_of (codes "name") fields);
        arguments = canonical_text j (field_of (codes "args") fields);
      }

  unfoldable pub calls_of : List PartSchema → List ToolCall
  calls_of [] = []
  calls_of (p ∷ ps) = elim p.function_call [ null ↦ calls_of ps | v ↦ call_of v ∷ calls_of ps ]

  -- The texts that one part leaves: its own, a function's response, and inline data.
  unfoldable pub part_texts : PartSchema → List Text
  part_texts p =
      (if not (p.text == []) then normalize_text p.text ∷ [] else [])
      ++ (unless_null p.function_response (canonical_text j p.function_response ∷ [])
          ++ unless_null p.inline_data (canonical_text j p.inline_data ∷ []))

  unfoldable pub gemini_message : ContentSchema → Message
  gemini_message c = record {
    role = role_of c.role;
    content = join (codes "\n") (concat (map part_texts c.parts));
    name = [];
    tool_call_id = [];
    tool_calls = calls_of c.parts;
  }

  -- Canonicalize, from the decoded body on
  unfoldable pub gemini_canonic : Option Request → RequestSchema → CanonicRequest
  gemini_canonic req p = record {
    namespace = namespace_of req;
    provider = codes "gemini";
    endpoint = path_or req (codes "/v1beta/models/gemini-pro:generateContent");
    method = method_of req;
    model = model_for req;
    messages = system_instruction_messages p.system_instruction ++ map gemini_message p.contents;
    parameters = with_safety p.safety_settings p.generation_config;
    tools = canonicalize_tools (declared_tools p.tools);
    extra_fields = [];
  }

  unfoldable pub gemini_parsed : Option Request → Fallible RequestSchema → Fallible CanonicRequest
  gemini_parsed req (failed e) = failed (codes "failed to parse Gemini request body: " ++ e)
  gemini_parsed req (ok p) = ok (gemini_canonic req p)

  -- Canonicalize
  unfoldable pub gemini_canonicalize : Option Request → Text → Fallible CanonicRequest
  gemini_canonicalize req [] = failed (codes "empty request body")
  gemini_canonicalize req (c ∷ body) = gemini_parsed req (j.parse (c ∷ body))

-- All that the canonicalizer computes with.
unfoldable pub gemini_code : Unit {0}
unfolding gemini_canonicalize gemini_parsed gemini_canonic gemini_message part_texts calls_of
    call_of declared_tools declared_tool put_param plain_texts role_of model_in_path until after
    canonical_text field_of hasher_code join has_prefix get
gemini_code = tt
