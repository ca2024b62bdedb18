-- ===== src/Cmd/Logging.antt =====
-- cmd/cmdutil/cmdutil.go: the levels of the log. `log.Fatalf` and a panic are `none`.
use agents_go.Prelude.{◌≡◌, refl, Option, none, some, Text, codes, text_eq, to_upper, if◌then◌else◌}

-- The levels of slog that are used.
pub data Level : Type 0 where
  debug info warn error : Level

-- `logging.Level` of the interceptors.
pub data CallLevel : Type 0 where
  level_debug level_info level_warn level_error level_unknown : CallLevel

unfoldable pub slog_level_from_string : Text → Option Level
slog_level_from_string lvl =
    let name = to_upper lvl in
    if text_eq name (codes "DEBUG")
    then some debug
    else if text_eq name (codes "INFO")
    then some info
    else if text_eq name (codes "WARN")
    then some warn
    else if text_eq name (codes "ERROR")
    then some error
    else none

-- The level at which `InterceptorLogger` logs a message of the level `lvl`.
unfoldable pub interceptor_level : CallLevel → Option Level
interceptor_level level_debug = some debug
interceptor_level level_info = some info
interceptor_level level_warn = some warn
interceptor_level level_error = some debug
interceptor_level level_unknown = none

lower_case : slog_level_from_string (codes "Warn") ≡ some warn
unfolding slog_level_from_string
lower_case = refl
