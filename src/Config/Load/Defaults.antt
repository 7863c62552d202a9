-- ===== src/Config/Load/Defaults.antt =====
-- pkg/config/config.go: Load without a file.
use reelm.Base.{◌==◌, ◌≡◌, refl, true, Option, none, [], Text, codes, ok}
use reelm.Config.{default_config}
use reelm.Config.Float64.{Float}
use reelm.Config.Validate.{validate, is_absolute, load, config_code}
use reelm.Config.Load.{
  Environment, IsUnset, lookup_for, Found, found, not_found, broken, Viper, HasDefaults, decoded,
  after_read, read_config, load_config,
}

module _ (quote : Text → Text) (show : Float → Text) (parse_url : Text → Option (Text × Text)) where
  -- url.Parse finds a scheme and a host in the addresses of the default providers.
  pub record ParsesDefaults : Type 0 where
    pub openai :
        is_absolute quote show parse_url (parse_url (codes "https://api.openai.com")) ≡ true
    pub anthropic :
        is_absolute quote show parse_url (parse_url (codes "https://api.anthropic.com")) ≡ true
    pub gemini :
        is_absolute quote show parse_url
          (parse_url (codes "https://generativelanguage.googleapis.com"))
        ≡ true

  pub validate-default :
      ParsesDefaults → validate quote show parse_url default_config ≡ (none, default_config)
  unfolding config_code
  validate-default h = simp (h.openai, h.anthropic, h.gemini)

  load-default :
      ParsesDefaults
      → load quote show parse_url (ok (record default_config { providers = [] }))
        ≡ ok default_config
  unfolding config_code
  load-default h = simp (h.openai, h.anthropic, h.gemini)

  -- Load goes on without a file: viper found none, or none was named and the one it found cannot be
  -- read.
  abbrev pub IsMissed : {C : Type 0} → Text → Found C → Type 0
  IsMissed cfg_file (found c) = ⊥
  IsMissed cfg_file not_found = Unit
  IsMissed cfg_file (broken e) = cfg_file ≡ []

  after_read-missed :
      (v : Viper) (env : Environment) (cfg_file : Text) (f : Found v.Contents)
      → IsMissed cfg_file f
      → after_read quote show parse_url v env cfg_file f ≡ decoded quote show parse_url v env none
  unfolding after_read ◌==◌
  after_read-missed v env cfg_file (found c) h = elim h [ ]
  after_read-missed v env cfg_file not_found h = refl
  after_read-missed v env cfg_file (broken e) h = simp h

  -- Where the environment has no variable REELM_..., and viper finds no file, or where none is named and the default.yaml that it finds cannot be
  -- read or parsed, Load returns DefaultConfig: the keys of SetDefault, the providers that are filled
  -- in and Validate together lose and change nothing.
  pub load_config-default :
      (v : Viper) (env : Environment) (cfg_file : Text)
      → HasDefaults v
      → IsUnset (codes "REELM") env
      → ParsesDefaults
      → IsMissed cfg_file (v.read (lookup_for cfg_file))
      → load_config quote show parse_url v env cfg_file ≡ ok default_config
  unfolding load_config read_config decoded
  load_config-default v env cfg_file law u h m =
      simp
        (
          after_read-missed v env cfg_file (v.read (lookup_for cfg_file)) m,
          law.decode-none (codes "REELM") (codes ".", codes "_") default_config env u,
        )
        (load-default h)
