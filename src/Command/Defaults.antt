-- ===== src/Command/Defaults.antt =====
-- cmd/reelm/main.go with pkg/config/config.go: runServe without a file and without flags.
use reelm.Base.{ℕ, ◌≡◌, refl, Option, [], Text, codes, ◌==◌}
use reelm.Config.{default_config}
use reelm.Config.Float64.{Float}
use reelm.Config.Load.{Environment, IsUnset, Viper, HasDefaults, lookup_for, load_config}
use reelm.Config.Load.Defaults.{ParsesDefaults, IsMissed, load_config-default, validate-default}
use reelm.Hasher.{CanonicRequest}
use reelm.Proxy.Server.{Codecs}
use reelm.Proxy.Tls.Ca.{Crypto}
use reelm.Store.Backend.{Backend}
use reelm.Store.Disk.{Disk}
use reelm.Store.DiskStore.{new_disk_store}
use reelm.Command.{
  Flags, with_store, validated, with_config, run_serve, run_serve_file, apply_flags,
}

-- A command line without flags
abbrev pub no_flags : Flags
no_flags = record { mode = []; port = []; dir = []; fmt = []; level = [] }

module _ (quote : Text → Text) (show : Float → Text) (parse_url : Text → Option (Text × Text))
    (b : Backend) (x : Crypto) (j : Codecs) (hash : CanonicRequest → Option Text) where
  -- Without flags, without a variable of the environment whose name starts with REELM_, and where
  -- viper finds no file, or none is named and the default.yaml that it finds cannot be read or
  -- parsed, runServe serves with DefaultConfig, over the store in ./cassettes with the format yaml,
  -- or ends with the error of opening that store.
  pub run_serve_file-default :
      (v : Viper) (env : Environment) (cfg_file : Text) (now n : ℕ) (home : Option Text)
      (opened : Option b.Db) (d : Disk)
      → HasDefaults v
      → IsUnset (codes "REELM") env
      → ParsesDefaults quote show parse_url
      → IsMissed quote show parse_url cfg_file (v.read (lookup_for cfg_file))
      → run_serve_file quote show parse_url b x j hash v env cfg_file now n home opened d no_flags
        ≡ with_store quote show parse_url b x j hash now n home default_config
            (new_disk_store b (codes "./cassettes") (codes "yaml") opened d)
  unfolding run_serve_file run_serve with_config load_config apply_flags ◌==◌
  run_serve_file-default v env cfg_file now n home opened d law u h m =
      rw (load_config-default quote show parse_url v env cfg_file law u h m)
        (rw (validate-default quote show parse_url h) (unfold validated in refl))
