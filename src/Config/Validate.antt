-- ===== src/Config/Validate.antt =====
-- pkg/config/validate.go, and the end of Load. Package fmt's %q and %f and url.Parse, which gives a
-- scheme and a host, are parameters.
pub mod Accepts
use reelm.Base.{
  ℕ, suc, Bool, true, false, not, ◌&&◌, ◌||◌, Option, none, some, List, [], ◌∷◌, ◌++◌, Text, codes,
  ◌==◌, to_lower, trim_space, join, decimal, Fallible, ok, failed, if◌then◌else◌,
}
use reelm.Config.Float64.{Float, below_zero, above_one}
use reelm.Config.{
  Config, Provider, MatchConfig, mode_record, mode_replay, mode_auto, format_yaml, format_json,
  default_config,
}

-- An error where the test fails.
abbrev pub demand : Bool → Text → List Text
demand true e = []
demand false e = e ∷ []

abbrev pub is_blank : Text → Bool
is_blank s = trim_space s == []

abbrev pub is_mode : Text → Bool
is_mode m = m == mode_record || m == mode_replay || m == mode_auto

abbrev pub is_format : Text → Bool
is_format m = m == format_yaml || m == format_json

module _ (quote : Text → Text) (show : Float → Text) (parse_url : Text → Option (Text × Text)) where
  pub mode_errors : Text → List Text
  mode_errors mode =
      if is_mode (to_lower mode)
      then []
      else if to_lower mode == []
      then codes "mode cannot be empty" ∷ []
      else (codes "invalid mode "
          ++ (quote mode ++ codes ": must be 'record', 'replay', or 'auto'"))
        ∷ []

  -- The errors of the cassette format, and the format after them.
  pub check_format : Text → List Text × Text
  check_format format =
      if is_format (to_lower format)
      then ([], format)
      else if to_lower format == []
      then ([], format_yaml)
      else (
        (codes "invalid cassette_format " ++ (quote format ++ codes ": must be 'yaml' or 'json'"))
            ∷ [],
        format,
      )

  abbrev pub is_absolute : Option (Text × Text) → Bool
  is_absolute none = false
  is_absolute (some (scheme, host)) = not (scheme == []) && not (host == [])

  pub url_errors : Provider → List Text
  url_errors p =
      if is_blank p.base_url
      then (codes "providers[" ++ (p.name ++ codes "].base_url cannot be empty")) ∷ []
      else demand (is_absolute (parse_url p.base_url)) (
          codes "providers["
          ++ (p.name
              ++ (codes "].base_url "
                  ++ (quote p.base_url ++ codes " is not a valid absolute URL"))))

  -- The loop over the providers, from index i.
  pub provider_errors : ℕ → List Provider → List Text
  provider_errors i [] = []
  provider_errors i (p ∷ ps) =
      demand (not (is_blank p.name))
        (codes "providers[" ++ (decimal i ++ codes "].name cannot be empty"))
      ++ (url_errors p ++ provider_errors (suc i) ps)

  abbrev pub has_provider : List Provider → Bool
  has_provider [] = false
  has_provider (p ∷ ps) = true

  -- All errors, in the order in which they are found.
  pub config_errors : Config → List Text
  config_errors c =
      mode_errors c.mode
      ++ ((check_format c.cassette_format).0
          ++ (demand (not (is_blank c.listen_addr)) (codes "listen_addr cannot be empty")
              ++ (demand (not (is_blank c.cassette_dir)) (codes "cassette_dir cannot be empty")
                  ++ (demand (has_provider c.providers)
                        (codes "at least one provider must be defined")
                      ++ (provider_errors 0 c.providers
                          ++ demand
                              (not (
                                below_zero c.matching.similarity_threshold
                                || above_one c.matching.similarity_threshold))
                              (codes
                                  "matching.similarity_threshold must be between 0.0 and 1.0, got "
                                ++ show c.matching.similarity_threshold))))))

  abbrev pub joined : List Text → Option Text
  joined [] = none
  joined (e ∷ es) = some (join (codes "; ") (e ∷ es))

  -- Validate: its error, and the configuration after it.
  pub validate : Config → Option Text × Config
  validate c =
      (joined (config_errors c), record c { cassette_format = (check_format c.cassette_format).1 })

  abbrev pub or_default : List Provider → List Provider
  or_default [] = default_config.providers
  or_default (p ∷ ps) = p ∷ ps

  abbrev pub accepted : Option Text × Config → Fallible Config
  accepted (none, c) = ok c
  accepted (some e, c) = failed (codes "invalid configuration: " ++ e)

  -- Load, from what viper reads and decodes.
  pub load : Fallible Config → Fallible Config
  load (failed e) = failed e
  load (ok c) = accepted (validate (record c { providers = or_default c.providers }))

  -- All that the checks compute with.
  unfoldable pub config_code : Unit {0}
  unfolding load validate config_errors provider_errors url_errors check_format mode_errors
      below_zero above_one to_lower trim_space ◌==◌
  config_code = tt
