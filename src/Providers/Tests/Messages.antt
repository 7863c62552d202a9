-- ===== src/Providers/Tests/Messages.antt =====
-- Runs of pkg/hasher/providers/anthropic.go and gemini.go.
use reelm.Base.{◌≡◌, refl, none, some, List, [], ◌∷◌, codes, ◌==◌, ok, if◌then◌else◌}
use reelm.Http.{Request}
use reelm.Hasher.{null, str}
use reelm.Hasher.Order.{Reordered}
use reelm.Providers.Shared.{JsonCode}
use reelm.Providers.OpenAi.{canonicalize, openai_code}
use reelm.Providers.Azure.{azure_canonicalize}
use reelm.Providers.Anthropic
use reelm.Providers.Anthropic.{ToolSchema, anthropic_canonicalize, anthropic_code}
use reelm.Providers.Anthropic.Tools.{anthropic_canonicalize-Reordered}
use reelm.Providers.Gemini
use reelm.Providers.Gemini.{gemini_canonicalize, gemini_code}
use reelm.Providers.Blind.{canonicalize-SeemAlike}
use reelm.Providers.Tests.{gemini_request, json_code}

abbrev weather : ToolSchema
weather = record { name = codes "weather"; description = codes "d"; input_schema = null }

abbrev clock : ToolSchema
clock = record { name = codes "clock"; description = codes "d"; input_schema = null }

abbrev claude : List ToolSchema → Anthropic.RequestSchema
claude tools = record {
  model = codes "claude";
  messages = record { role = codes "User"; content = str (codes "hi") } ∷ [];
  system = str (codes " be brief ");
  max_tokens = some (codes "9");
  temperature = none;
  top_p = none;
  top_k = none;
  stop_sequences = codes "END" ∷ [];
  tools = tools;
  tool_choice = null;
}

abbrev pub claude_code : JsonCode Anthropic.RequestSchema
claude_code = record {
  parse = λ t. ok (claude (if t == codes "1" then weather ∷ clock ∷ [] else clock ∷ weather ∷ []));
  decode = λ t. none;
  marshal = λ v. none;
  encode = λ v. none;
}

anthropic_canonicalize-Reordered_example :
    anthropic_canonicalize claude_code none (codes "1")
    ≡ anthropic_canonicalize claude_code none (codes "2")
unfolding anthropic_code
anthropic_canonicalize-Reordered_example =
    anthropic_canonicalize-Reordered claude_code none b'1' b'2' [] []
      (claude (weather ∷ clock ∷ [])) (clock ∷ weather ∷ []) refl refl (Reordered.swap _ _ [])
      ((refl, tt), (tt, tt))

abbrev hello : Gemini.RequestSchema
hello = record {
  contents =
      record {
        role = codes "model";
        parts =
            record {
              text = codes "hi ";
              inline_data = null;
              function_call = null;
              function_response = str (codes "r");
            }
            ∷ [];
      }
      ∷ [];
  system_instruction = none;
  generation_config = [];
  safety_settings = null;
  tools = [];
  tool_config = null;
}

abbrev pub hello_code : JsonCode Gemini.RequestSchema
hello_code = record {
  parse = λ t. ok hello;
  decode = λ t. some (str t);
  marshal = λ v. some (codes "{}");
  encode = λ v. some (codes "{}\n");
}

abbrev flash : Request
flash = record gemini_request { path = codes "/v1beta/models/flash:generateContent" }

abbrev with_key : Request
with_key = record flash {
  raw_query = codes "key=k";
  header = (codes "Authorization", codes "Bearer k" ∷ []) ∷ [];
}

canonicalize-SeemAlike_example :
    (canonicalize json_code (some flash) (codes "1")
      ≡ canonicalize json_code (some with_key) (codes "1"))
    × (azure_canonicalize json_code (some flash) (codes "1")
        ≡ azure_canonicalize json_code (some with_key) (codes "1"))
    × (anthropic_canonicalize claude_code (some flash) (codes "1")
        ≡ anthropic_canonicalize claude_code (some with_key) (codes "1"))
    × (gemini_canonicalize hello_code (some flash) (codes "1")
        ≡ gemini_canonicalize hello_code (some with_key) (codes "1"))
unfolding openai_code
canonicalize-SeemAlike_example =
    canonicalize-SeemAlike json_code claude_code hello_code flash with_key (codes "1")
      (record { method = refl; path = refl; namespace = refl })
