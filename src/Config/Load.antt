-- ===== src/Config/Load.antt =====
-- pkg/config/config.go: Load. What viper finds in a file, and what it makes of it, of the
-- environment and of the defaults, are parameters.
pub mod Defaults
use reelm.Base.{
  All, has_prefix, false, ℕ, ◌≡◌, refl, sym, ap, ◌∙◌, Bool, true, Option, none, some, List, [], ◌∷◌,
  ◌++◌, Text, codes, ◌==◌, Fallible, ok, failed, if◌then◌else◌,
}
use reelm.Config.{Config, TlsConfig, LogConfig, MatchConfig, default_config}
use reelm.Config.Float64.{Float}
use reelm.Config.Validate.{load}

-- A value that SetDefault gives a key
pub data Setting : Type 0 where
  text : Text → Setting
  flag : Bool → Setting
  number : ℕ → Setting
  float : Float → Setting

-- The calls of SetDefault
unfoldable pub default_settings : Config → List (Text × Setting)
default_settings cfg =
    (codes "mode", text cfg.mode)
    ∷ (codes "listen_addr", text cfg.listen_addr)
    ∷ (codes "admin_addr", text cfg.admin_addr)
    ∷ (codes "cassette_dir", text cfg.cassette_dir)
    ∷ (codes "cassette_format", text cfg.cassette_format)
    ∷ (codes "default_timeout", number cfg.default_timeout)
    ∷ (codes "matching.fuzzy_enabled", flag cfg.matching.fuzzy_enabled)
    ∷ (codes "matching.similarity_threshold", float cfg.matching.similarity_threshold)
    ∷ (codes "matching.max_candidates", number cfg.matching.max_candidates)
    ∷ (codes "streaming.replay_mode", text cfg.streaming_replay_mode)
    ∷ (codes "tls.enabled", flag cfg.tls.enabled)
    ∷ (codes "tls.ca_dir", text cfg.tls.ca_dir)
    ∷ (codes "log.level", text cfg.log.level)
    ∷ (codes "log.format", text cfg.log.format)
    ∷ []

-- Where viper is to look: the file of SetConfigFile, or a name and a type in some folders.
pub data Lookup : Type 0 where
  in_file : Text → Lookup
  by_name : List Text → Text → Text → Lookup

unfoldable pub lookup_for : Text → Lookup
lookup_for cfg_file =
    if cfg_file == []
    then by_name (codes "." ∷ codes "./configs" ∷ []) (codes "default") (codes "yaml")
    else in_file cfg_file

-- What ReadInConfig returns; not_found is viper's ConfigFileNotFoundError.
pub data Found (Contents : Type 0) : Type 0 where
  found : Contents → Found Contents
  not_found : Found Contents
  broken : Text → Found Contents

-- The environment: its variables with their values
abbrev pub Environment : Type 0
Environment = List (Text × Text)

-- No variable has the prefix, under which AutomaticEnv looks each key up.
abbrev pub IsUnset : Text → Environment → Type 0
IsUnset prefix env = All (λ v. has_prefix v.0 (prefix ++ codes "_") ≡ false) env

-- viper, with the prefix of SetEnvPrefix and what SetEnvKeyReplacer replaces by what; `decode` is
-- Unmarshal after AutomaticEnv, with the environment and with what was read, if anything was. A
-- variable goes before what was read, and that before a default.
pub record Viper : Type 1 where
  pub Contents : Type 0
  pub read : Lookup → Found Contents
  pub decode :
      Text → Text × Text → List (Text × Setting) → Environment → Option Contents → Fallible Config

module _ (quote : Text → Text) (show : Float → Text) (parse_url : Text → Option (Text × Text))
    (v : Viper) (env : Environment) where
  abbrev pub unmarshalled : Fallible Config → Fallible Config
  unmarshalled (ok c) = ok c
  unmarshalled (failed e) = failed (codes "failed to unmarshal configuration: " ++ e)

  unfoldable pub decoded : Option v.Contents → Fallible Config
  decoded q =
      unmarshalled
        (v.decode (codes "REELM") (codes ".", codes "_") (default_settings default_config) env q)

  -- From ReadInConfig on: only a file that was named has to be readable.
  unfoldable pub after_read : Text → Found v.Contents → Fallible Config
  after_read cfg_file (found c) = decoded (some c)
  after_read cfg_file not_found = decoded none
  after_read cfg_file (broken e) =
      if cfg_file == []
      then decoded none
      else failed (codes "failed to read config file " ++ (quote cfg_file ++ (codes ": " ++ e)))

  unfoldable pub read_config : Text → Fallible Config
  read_config cfg_file = after_read cfg_file (v.read (lookup_for cfg_file))

  -- Load
  unfoldable pub load_config : Text → Fallible Config
  load_config cfg_file = load quote show parse_url (read_config cfg_file)

-- What viper documents: without a file, and with no variable of the prefix, each key that has
-- a default decodes to it, and each other to an empty value.
pub record HasDefaults (v : Viper) : Type 1 where
  pub decode-none :
      (prefix : Text) (replaced : Text × Text) (c : Config) (env : Environment)
      → IsUnset prefix env
      → v.decode prefix replaced (default_settings c) env none
        ≡ ok (record c { providers = []; matching = record c.matching { stop_words = [] } })
