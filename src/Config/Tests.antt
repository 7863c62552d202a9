-- ===== src/Config/Tests.antt =====
-- Runs of pkg/config.
use reelm.Base.{
  ℕ, zero, suc, Bool, false, List, ◌∷◌, ◌≡◌, ◌↔◌, refl, Option, none, some, [], Text, codes, ok,
}
use reelm.Config.Float64.{Float}
use reelm.Config.{Config, default_config}
use reelm.Config.Load.{
  Setting, text, flag, number, float, default_settings, Viper, HasDefaults, broken,
}
use reelm.Config.Load.Defaults.{ParsesDefaults}
use reelm.Config.Validate.{validate, config_code}
use reelm.Config.Validate.Accepts.{IsValid, validate-IsValid}

abbrev pub quote : Text → Text
quote t = t

abbrev pub show : Float → Text
show x = []

abbrev pub parse_url : Text → Option (Text × Text)
parse_url t = some (codes "https", codes "h")

abbrev bare : Config
bare = record default_config { providers = []; cassette_format = [] }

validate-IsValid_example :
    ((validate quote show parse_url bare).0 ≡ none) ↔ IsValid quote show parse_url bare
validate-IsValid_example = validate-IsValid quote show parse_url bare

-- A reader of one value of a kind, from a list of settings
abbrev text_at : ℕ → List (Text × Setting) → Text
text_at zero ((k, text t) ∷ l) = t
text_at (suc n) (s ∷ l) = text_at n l
text_at n l = []

abbrev flag_at : ℕ → List (Text × Setting) → Bool
flag_at zero ((k, flag b) ∷ l) = b
flag_at (suc n) (s ∷ l) = flag_at n l
flag_at n l = false

abbrev number_at : ℕ → List (Text × Setting) → ℕ
number_at zero ((k, number m) ∷ l) = m
number_at (suc n) (s ∷ l) = number_at n l
number_at n l = 0

abbrev float_at : ℕ → List (Text × Setting) → Float
float_at zero ((k, float x) ∷ l) = x
float_at (suc n) (s ∷ l) = float_at n l
float_at n l = default_config.matching.similarity_threshold

-- A decoder that looks at the defaults and at nothing else, and a reader that finds a file which it cannot parse
abbrev pub unparsable : Viper
unparsable = record {
  Contents = Text;
  read = λ l. broken (codes "yaml");
  decode = λ p r l e c. ok (record {
    mode = text_at 0 l;
    listen_addr = text_at 1 l;
    admin_addr = text_at 2 l;
    cassette_dir = text_at 3 l;
    cassette_format = text_at 4 l;
    default_timeout = number_at 5 l;
    providers = [];
    matching = record {
      fuzzy_enabled = flag_at 6 l;
      similarity_threshold = float_at 7 l;
      max_candidates = number_at 8 l;
      stop_words = [];
    };
    streaming_replay_mode = text_at 9 l;
    tls = record { enabled = flag_at 10 l; ca_dir = text_at 11 l };
    log = record { level = text_at 12 l; format = text_at 13 l };
  });
}

pub unparsable-HasDefaults : HasDefaults unparsable
unfolding default_settings
unparsable-HasDefaults = record { decode-none = λ p r c e u. refl }

pub parses : ParsesDefaults quote show parse_url
unfolding config_code
parses = record { openai = refl; anthropic = refl; gemini = refl }
