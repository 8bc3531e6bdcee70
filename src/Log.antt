-- ===== src/Log.antt =====
-- src/log/log.c and internal/gt_internal/log/log.h: the levels of the log, and which of them the
-- build keeps.
use green_threads.Base.{ℕ, Bool, ◌&&◌, leb}
use Prim.Native.String.{String}

-- `gt_log_level_t`
pub data LogLevel : Type 0 where
  trace debug info warn error : LogLevel

abbrev pub level_code : LogLevel → ℕ
level_code trace = 0
level_code debug = 1
level_code info = 2
level_code warn = 3
level_code error = 4

-- `gt_log_level_string` of a declared level.
abbrev pub log_level_string : LogLevel → String
log_level_string trace = "TRACE"
log_level_string debug = "DEBUG"
log_level_string info = "INFO "
log_level_string warn = "WARN "
log_level_string error = "ERROR"

-- GT_LOG_LEVEL, unless the build sets it.
abbrev pub default_level : LogLevel
default_level = debug

-- Whether GT_LOG_TRACE to GT_LOG_ERROR stand for a call of `gt_log`: GT_LOG_ENABLED is `enabled` and
-- GT_LOG_LEVEL is `least`.
abbrev pub is_logged : (enabled : Bool) → (least level : LogLevel) → Bool
is_logged enabled least level = enabled && leb (level_code least) (level_code level)
