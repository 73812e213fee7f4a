-- ===== src/Logger/Examples.antt =====
-- The theorems on common/src/logger.c at concrete messages.
use iu7_pvs_cp.Base.{[], ◌∷◌, ◌++◌, ◌≡◌, refl, Bytes, codes, true, arith}
use iu7_pvs_cp.Logger.{
  debug_log, warning_log, message_line, Logger, started, parent, logger_init, below_level, written,
  logger_log, Round,
}
use iu7_pvs_cp.Logger.Messages.{logger_log-fits}

abbrev noon : Bytes
noon = codes "2024-02-29 12:00:00\t"

-- INFO_LOG
abbrev info_logger : Logger
info_logger = record { logger_pid = 12; level = 2 }

info_logger_init : logger_init true (parent 12) true 2 ≡ started info_logger
unfolding logger_init
info_logger_init = refl

debug-filtered : logger_log noon true info_logger debug_log (codes "no") ≡ below_level
unfolding logger_log
debug-filtered = refl

logger_log-fits_example :
    logger_log noon true info_logger warning_log (codes "late")
    ≡ written (noon ++ message_line warning_log (codes "late") ++ 0 ∷ [])
logger_log-fits_example =
    logger_log-fits noon info_logger warning_log (codes "late") refl (omega arith)

abbrev round_of : Bytes → Round
round_of bytes = record {
  received = bytes;
  filename = codes "2024-02-29.log";
  opened = true;
  taken = 128;
}
