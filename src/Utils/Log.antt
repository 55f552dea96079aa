-- ===== src/Utils/Log.antt =====
-- src/utils/log.h and src/utils/log.cpp: the logger. A message is its characters' codes.
use sys.Base.{ℕ, List, ◌++◌}
use Prim.Native.String.{String}
use sys.Base.Text.{codes}

pub data LogLevel : Type 0 where
  info warning error debug trace : LogLevel

-- `out` is what was put into `m_os`, oldest first.
pub record Logger : Type 0 where
  pub out : List ℕ
  pub default_log_level : LogLevel

-- `Logger(os)`, over a stream that has this content.
abbrev new_logger : List ℕ → Logger
new_logger out = record { out = out; default_log_level = LogLevel.info }

abbrev new_logger_with : List ℕ → LogLevel → Logger
new_logger_with out level = record { out = out; default_log_level = level }

abbrev prefix : LogLevel → String
prefix LogLevel.info = "[INFO] "
prefix LogLevel.warning = "[WARN] "
prefix LogLevel.error = "[ERRO] "
prefix LogLevel.debug = "[DBUG] "
prefix LogLevel.trace = "[TRAC] "

-- `log(level, message)`.
unfoldable log_at : LogLevel → List ℕ → Logger → Logger
log_at level message l = record l {
  out = ((l.out ++ codes (prefix level)) ++ message) ++ codes "\n";
}

unfoldable log : List ℕ → Logger → Logger
unfolding log_at
log message l = log_at l.default_log_level message l

unfoldable set_default_log_level : LogLevel → Logger → Logger
set_default_log_level level l = record l { default_log_level = level }

-- `info`, `warn`, `error`, `debug` and `trace`.
abbrev log_info : List ℕ → Logger → Logger
log_info = log_at LogLevel.info

abbrev log_warn : List ℕ → Logger → Logger
log_warn = log_at LogLevel.warning

abbrev log_error : List ℕ → Logger → Logger
log_error = log_at LogLevel.error

abbrev log_debug : List ℕ → Logger → Logger
log_debug = log_at LogLevel.debug

abbrev log_trace : List ℕ → Logger → Logger
log_trace = log_at LogLevel.trace
