-- ===== src/Tests/Logger.antt =====
-- The logger of logger/simple_logger.go and logger/logger.go with the levels of zap, and the stack
-- traces of utils/debug_util.go.
pub mod Printing
pub mod Output
use Prim.Native.String.{String}
use text.Mathlib.Text.{◌==◌ as str_eq}
use vlgo.Shared.{
  ◌<◌, ◌≡◌, ◌⊎◌, inl, inr, refl, true, false, List, [], ◌∷◌, ◌++◌, none, some, if◌then◌else◌, ℤ,
  pos, negsuc, le_ℤ, Text, bytes, split, join, take, length,
}
use vlgo.Logger.{
  Zap, InitParam, Writer, rotated, stdout, SimpleLogger, init_zap_logger, init_simple_log,
  reload_log_lv, debug, log_call, called, skipped,
}
use vlgo.Logger.Init.{cores, Inits, init_zap_logger-Inits, SimpleInits, init_simple_log-SimpleInits}
use vlgo.Logger.Routing.{reached, reached_lem, destinations, reload_log_lv-reached}
use vlgo.DebugUtil.{stack, stack_lem}

-- The levels "debug" and "info", and files that can all be made.
abbrev pub zap : Zap String
zap = record {
  debug_level = negsuc 0;
  info_level = pos 0;
  error_level = pos 2;
  set_level = λ s.
      if str_eq s "debug"
      then inr (negsuc 0)
      else if str_eq s "info"
      then inr (pos 0)
      else inl "level";
  rotate_error = λ s. none;
  atom_enabled = le_ℤ;
}

abbrev param : InitParam
param = record { log_level = "debug" }

init_zap_logger-Inits_example :
    Inits zap "logs" "bot" param (init_zap_logger zap "logs" "bot" param)
init_zap_logger-Inits_example = init_zap_logger-Inits zap "logs" "bot" param

init_simple_log-SimpleInits_example : SimpleInits zap param (init_simple_log zap "bot" param)
init_simple_log-SimpleInits_example = init_simple_log-SimpleInits zap "bot" param

abbrev bot : SimpleLogger
bot = record { dir = "logs"; logger = some (cores zap "logs" "bot" false); atom_log_level = pos 0 }

abbrev trace : Text
trace = bytes "1\n2\n3\n4\n5\n6\n7\nmain\n"

short : stack trace ≡ bytes "main\n"
unfolding stack
short = refl

stack_lem_example :
    ((length (split b'\n' trace) < 7) × (stack trace ≡ trace))
    ⊎ ((length (split b'\n' trace) ≡ 7) × (stack trace ≡ []))
    ⊎ ((7 < length (split b'\n' trace))
        × (trace ≡ join b'\n' (take 7 (split b'\n' trace)) ++ b'\n' ∷ stack trace))
stack_lem_example = stack_lem trace
