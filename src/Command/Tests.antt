-- ===== src/Command/Tests.antt =====
-- Runs of cmd/reelm/main.go.
use reelm.Base.{
  has_prefix, ◌≤◌, ◌∷◌, ◌≡◌, ◌≢◌, refl, false, Option, none, some, [], Text, codes, ok,
}
use reelm.Config.{Config, default_config}
use reelm.Config.Tests.{quote, show, parse_url, unparsable, unparsable-HasDefaults, parses}
use reelm.Config.Load.{Environment}
use reelm.Config.Validate.{config_code}
use reelm.Hasher.{CanonicRequest}
use reelm.Providers.Tests.{json_code}
use reelm.Providers.Tests.Messages.{claude_code, hello_code}
use reelm.Proxy.Server.{Codecs}
use reelm.Proxy.Tls.Tests.{toy}
use reelm.Store.DiskStore.{bad_format, store_code}
use reelm.Store.Tests.{empty_db, empty_disk, empty_store}
use reelm.Store.Tests.Codec.{table}
use reelm.Command.{
  Flags, no_store, Running, refused, start_server, run_serve, run_serve_file, apply_flags,
  with_config, validated, with_store,
}
use reelm.Proxy.Server.{listen_failed, start, shutdown}
use reelm.Command.Lifecycle.{
  Process, finished, returned, cancel, close_store, serving, begin_shutdown, end_shutdown,
  run_deferred, server_ends, signal_comes, take_signal, shuts_down, defers, leaves, Reach, here,
  next, IsTidy, Reach-IsTidy, steps, GoesOn, Reach-GoesOn,
}
use reelm.Store.DiskStore.{new_disk_store}
use reelm.Command.Defaults.{no_flags, run_serve_file-default}
use reelm.Command.Starts.{Serves, run_serve-Serves, run_serve-bad_format}

abbrev codecs : Codecs
codecs = record { openai = json_code; anthropic = claude_code; gemini = hello_code }

abbrev hash : CanonicRequest → Option Text
hash c = some (codes "abcd")

abbrev flags : Flags
flags = record {
  mode = codes "REPLAY";
  port = codes "9000";
  dir = codes "d";
  fmt = codes "YAML";
  level = [];
}

-- The default configuration without TLS
abbrev plain : Config
plain = record default_config { tls = record { enabled = false; ca_dir = [] } }

abbrev chosen : Config
chosen = record plain {
  mode = codes "REPLAY";
  listen_addr = codes ":9000";
  cassette_dir = codes "d";
  cassette_format = codes "YAML";
}

abbrev replaying : Running table toy
replaying = start_server quote show parse_url table toy codecs hash 1 2 none chosen empty_store

run_serve-Serves_example : Serves quote show parse_url table toy codecs hash flags replaying
unfolding run_serve with_config validated with_store start_server apply_flags config_code store_code
run_serve-Serves_example =
    run_serve-Serves quote show parse_url table toy codecs hash 1 2 none (some empty_db) empty_disk
      flags (ok plain) replaying refl

run_serve-bad_format_example :
    run_serve quote show parse_url table toy codecs hash 1 2 none
      (some empty_db)
      empty_disk
      flags
      (ok plain)
    ≢ refused (no_store bad_format)
run_serve-bad_format_example =
    run_serve-bad_format quote show parse_url table toy codecs hash 1 2 none (some empty_db)
      empty_disk flags (ok plain)

-- A signal is taken, the server fails, and Shutdown and the deferred calls run.
abbrev stopped : Process
stopped = record serving {
  goroutine = finished (start (listen_failed (codes "in use")));
  phase = returned (shutdown none);
  shut = some none;
  deferred = [];
  closes = 1;
}

stops : Reach serving stopped
unfolding begin_shutdown end_shutdown run_deferred
stops =
    let a = next (next here (signal_comes refl)) (take_signal refl refl) in
    let b =
      next (next a (server_ends (listen_failed (codes "in use")) refl)) (shuts_down none refl) in
    let c =
      next (next b (defers (shutdown none) cancel (close_store ∷ []) refl refl))
        (defers (shutdown none) close_store [] refl refl) in
    next c (leaves (shutdown none) refl refl)

Reach-IsTidy_example : IsTidy stopped
Reach-IsTidy_example = Reach-IsTidy stops

Reach-GoesOn_example : (steps stops ≤ 8) × GoesOn stopped
Reach-GoesOn_example = Reach-GoesOn stops

abbrev environment : Environment
environment = (codes "HOME", codes "/h") ∷ []

run_serve_file-default_example :
    run_serve_file quote show parse_url table toy codecs hash unparsable environment [] 1 2 none
      (some empty_db)
      empty_disk
      no_flags
    ≡ with_store quote show parse_url table toy codecs hash 1 2 none default_config
        (new_disk_store table (codes "./cassettes") (codes "yaml") (some empty_db) empty_disk)
unfolding has_prefix
run_serve_file-default_example =
    run_serve_file-default quote show parse_url table toy codecs hash unparsable environment [] 1 2
      none (some empty_db) empty_disk unparsable-HasDefaults (refl, tt) parses refl
