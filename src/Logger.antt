-- ===== src/Logger.antt =====
-- logger/logger.go. The package `zap` is an argument; a call of it can end the process.
use go_api_boot.Base.{
  Str, codes, List, Option, none, some, Result, ok, err, ◌==◌, str_eq, str_beq, nat_eq,
  if◌then◌else◌,
}
use go_api_boot.Auth.{getenv}
use go_api_boot.Dotenv.{Env}

-- getLogger; none is the panic.
pub data Mode : Type 0 where
  production development : Mode

unfoldable pub run_mode : Env → Mode
unfolding getenv str_beq
run_mode env = if getenv env (codes "ENV") == codes "prod" then production else development

abbrev logger_or_panic : {L : Type 0} → Result Str L → Option L
logger_or_panic (ok log) = some log
logger_or_panic (err _) = none

unfoldable pub get_logger : {L : Type 0} → (Mode → Result Str L) → Env → Option L
unfolding run_mode
get_logger new_logger env = logger_or_panic (new_logger (run_mode env))

-- How a call ends: os.Exit runs no deferred function.
pub data Outcome : Type 0 where
  returned panicked exited : Outcome

abbrev pub Call : Type 0 → Type 0
Call S = S → Outcome × S

-- The methods of a *zap.Logger `L`, with fields `F`.
pub record Zap (L F W : Type 0) : Type 0 where
  pub info : L → Str → List F → Call W
  pub fatal : L → Str → List F → Call W
  pub error : L → Str → List F → Call W
  pub debug : L → Str → List F → Call W

-- The functions that the variables of the package hold at first; `log` is the variable Log.
module _ {L F W : Type 0} (zap : Zap L F W) (log : L) where
  -- Get
  abbrev pub get : L
  get = log

  -- Info
  unfoldable pub info : Str → List F → Call W
  info msg fields = zap.info log msg fields

  -- Fatal
  unfoldable pub fatal : Str → List F → Call W
  fatal msg fields = zap.fatal log msg fields

  -- Error
  unfoldable pub error : Str → List F → Call W
  error msg fields = zap.error log msg fields

  -- Debug
  unfoldable pub debug : Str → List F → Call W
  debug msg fields = zap.debug log msg fields
