-- ===== src/Command.antt =====
-- cmd/reelm/main.go: runServe, from what the flags are and what viper, bbolt and the system give.
-- The rest of it is Lifecycle; the commands and flags of cobra, the logs and the version are left out.
pub mod Starts
pub mod Lifecycle
pub mod Defaults
pub mod Tests
use reelm.Base.{
  ℕ, Bool, true, false, not, Option, none, some, [], ◌∷◌, ◌++◌, Text, codes, ◌==◌, eqb, Fallible,
  ok, failed, if◌then◌else◌,
}
use reelm.Config.{Config, LogConfig}
use reelm.Config.Float64.{Float}
use reelm.Config.Load.{Environment, Viper, read_config}
use reelm.Config.Validate.{validate, load}
use reelm.Hasher.{CanonicRequest}
use reelm.Proxy.Handler.{Handler}
use reelm.Proxy.Server.{Codecs, new_handler, handler_ca}
use reelm.Proxy.Tls.Ca.{Crypto, CaManager}
use reelm.Store.Backend.{Backend}
use reelm.Store.Disk.{Disk}
use reelm.Store.DiskStore.{Result, err, StoreError, DiskStore, new_disk_store}
use reelm.Telemetry.{Logger, init_logger}

-- The flags of the command serve, and log-level
pub record Flags : Type 0 where
  pub mode : Text
  pub port : Text
  pub dir : Text
  pub fmt : Text
  pub level : Text

-- A flag that is not empty replaces the setting.
abbrev pub override : Text → Text → Text
override flag old = if flag == [] then old else flag

-- `:` before a port that has none
abbrev pub with_colon : Text → Text
with_colon [] = []
with_colon (c ∷ t) = if not (eqb c 58) then 58 ∷ c ∷ t else c ∷ t

-- Step 2 of runServe
unfoldable pub apply_flags : Flags → Config → Config
apply_flags f c = record c {
  mode = override f.mode c.mode;
  listen_addr = override (with_colon f.port) c.listen_addr;
  cassette_dir = override f.dir c.cassette_dir;
  cassette_format = override f.fmt c.cassette_format;
  log = record c.log { level = override f.level c.log.level };
}

-- The errors with which runServe returns before it serves
pub data StartError : Type 0 where
  bad_config : Text → StartError
  bad_flags : Text → StartError
  no_store : StoreError → StartError

-- What runServe serves with
pub record Running (b : Backend) (x : Crypto) : Type 0 where
  pub config : Config
  pub logger : Logger
  pub store : DiskStore b
  pub handler : Handler
  pub ca : Option (CaManager x)

pub data Start (b : Backend) (x : Crypto) : Type 0 where
  refused : StartError → Start b x
  running : Running b x → Start b x

module _ (quote : Text → Text) (show : Float → Text) (parse_url : Text → Option (Text × Text))
    (b : Backend) (x : Crypto) (j : Codecs) (hash : CanonicRequest → Option Text) where
  -- Steps 5 and 6
  unfoldable pub start_server : ℕ → ℕ → Option Text → Config → DiskStore b → Running b x
  start_server now n home c s =
      let (ca, d) = handler_ca x j hash now n home c s.disk in
      record {
        config = c;
        logger = init_logger c.log;
        store = record s { disk = d };
        handler = new_handler x j hash c none none;
        ca = ca;
      }

  unfoldable pub with_store : ℕ → ℕ → Option Text → Config → Result (DiskStore b) → Start b x
  with_store now n home c (err e) = refused (no_store e)
  with_store now n home c (Result.ok s) = running (start_server now n home c s)

  -- Steps 3 to 6, from what Validate returned; `opened` is what bbolt.Open returns in NewDiskStore.
  unfoldable pub validated :
      ℕ → ℕ → Option Text → Option b.Db → Disk → Option Text × Config → Start b x
  validated now n home opened d (some e, c) = refused (bad_flags e)
  validated now n home opened d (none, c) =
      with_store now n home c (new_disk_store b c.cassette_dir c.cassette_format opened d)

  unfoldable pub with_config :
      ℕ → ℕ → Option Text → Option b.Db → Disk → Flags → Fallible Config → Start b x
  with_config now n home opened d f (failed e) = refused (bad_config e)
  with_config now n home opened d f (ok c) =
      validated now n home opened d (validate quote show parse_url (apply_flags f c))

  -- runServe, up to the start of the server; `read` is what viper reads and decodes.
  unfoldable pub run_serve :
      ℕ → ℕ → Option Text → Option b.Db → Disk → Flags → Fallible Config → Start b x
  run_serve now n home opened d f read =
      with_config now n home opened d f (load quote show parse_url read)

  -- runServe, up to the start of the server, with the file of the flag --config
  unfoldable pub run_serve_file :
      Viper → Environment → Text → ℕ → ℕ → Option Text → Option b.Db → Disk → Flags → Start b x
  run_serve_file v env cfg_file now n home opened d f =
      run_serve now n home opened d f (read_config quote show parse_url v env cfg_file)
