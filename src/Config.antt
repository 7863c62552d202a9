-- ===== src/Config.antt =====
-- pkg/config/config.go: the configuration and its defaults. A duration is in nanoseconds.
pub mod Float64
pub mod Validate
pub mod Load
pub mod Tests
use reelm.Base.{ℕ, Bool, true, false, List, [], ◌∷◌, Text, codes}
use reelm.Base.Int.{negsuc}
use reelm.Config.Float64.{Float, finite}

-- Provider
pub record Provider : Type 0 where
  pub name : Text
  pub base_url : Text
  pub path_prefix : Text
  pub headers : List Text
  pub strip_auth : Bool
  pub extra_config : List (Text × Text)

abbrev pub mode_record : Text
mode_record = codes "record"

abbrev pub mode_replay : Text
mode_replay = codes "replay"

abbrev pub mode_auto : Text
mode_auto = codes "auto"

abbrev pub format_yaml : Text
format_yaml = codes "yaml"

abbrev pub format_json : Text
format_json = codes "json"

pub record MatchConfig : Type 0 where
  pub fuzzy_enabled : Bool
  pub similarity_threshold : Float
  pub max_candidates : ℕ
  pub stop_words : List Text

pub record TlsConfig : Type 0 where
  pub enabled : Bool
  pub ca_dir : Text

pub record LogConfig : Type 0 where
  pub level : Text
  pub format : Text

-- Config; of StreamingConfig the one field stands here.
pub record Config : Type 0 where
  pub mode : Text
  pub listen_addr : Text
  pub admin_addr : Text
  pub cassette_dir : Text
  pub cassette_format : Text
  pub default_timeout : ℕ
  pub providers : List Provider
  pub matching : MatchConfig
  pub streaming_replay_mode : Text
  pub tls : TlsConfig
  pub log : LogConfig

abbrev openai : Provider
openai = record {
  name = codes "openai";
  base_url = codes "https://api.openai.com";
  path_prefix = codes "/v1";
  headers = codes "Authorization" ∷ codes "OpenAI-Organization" ∷ codes "OpenAI-Project" ∷ [];
  strip_auth = true;
  extra_config = [];
}

abbrev anthropic : Provider
anthropic = record {
  name = codes "anthropic";
  base_url = codes "https://api.anthropic.com";
  path_prefix = codes "/v1/messages";
  headers = codes "x-api-key" ∷ codes "anthropic-version" ∷ codes "anthropic-beta" ∷ [];
  strip_auth = true;
  extra_config = [];
}

abbrev gemini : Provider
gemini = record {
  name = codes "gemini";
  base_url = codes "https://generativelanguage.googleapis.com";
  path_prefix = codes "/v1beta";
  headers = codes "x-goog-api-key" ∷ [];
  strip_auth = true;
  extra_config = [];
}

-- DefaultConfig; the threshold 0.92 is the 64-bit number next to it.
abbrev pub default_config : Config
default_config = record {
  mode = mode_auto;
  listen_addr = codes ":8080";
  admin_addr = codes ":8081";
  cassette_dir = codes "./cassettes";
  cassette_format = format_yaml;
  default_timeout = 120000000000;
  providers = openai ∷ anthropic ∷ gemini ∷ [];
  matching = record {
    fuzzy_enabled = false;
    similarity_threshold = finite false 8286623314361713 (negsuc 52);
    max_candidates = 100;
    stop_words = [];
  };
  streaming_replay_mode = codes "instant";
  tls = record { enabled = true; ca_dir = [] };
  log = record { level = codes "info"; format = codes "console" };
}
