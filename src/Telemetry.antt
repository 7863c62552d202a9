-- ===== src/Telemetry.antt =====
-- pkg/telemetry/logging.go: InitLogger, as far as the settings choose. The writing of logs, and the
-- fields that RequestLogger adds, are zerolog's.
use reelm.Base.{Bool, ◌||◌, Text, codes, ◌==◌, to_lower, if◌then◌else◌}
use reelm.Config.{LogConfig}

pub data Level : Type 0 where
  debug_level info_level warn_level error_level : Level

-- The root logger: its global level, and whether it writes for a console.
pub record Logger : Type 0 where
  pub level : Level
  pub console : Bool

unfoldable pub level_of : Text → Level
level_of name =
    if name == codes "debug"
    then debug_level
    else if name == codes "info"
    then info_level
    else if name == codes "warn" || name == codes "warning"
    then warn_level
    else if name == codes "error"
    then error_level
    else info_level

-- InitLogger
unfoldable pub init_logger : LogConfig → Logger
init_logger c = record {
  level = level_of (to_lower c.level);
  console = to_lower c.format == codes "console";
}
