-- ===== src/Tests/TestutilRuns.antt =====
-- WithEnv of testutil around a function that calls logger.Fatal.
use go_api_boot.Base.{ℕ, codes, [], ◌∷◌, true, some, ◌≡◌, ◌≢◌, refl, str_eq, str_beq}
use go_api_boot.Base.Dict.{lookup, insert}
use go_api_boot.Auth.{getenv}
use go_api_boot.Dotenv.{setenv, has_char}
use go_api_boot.Logger.{Zap, returned, exited, Call}
use go_api_boot.Testutil.{
  Process, standard, call_fatal, mock_fatal, prepare, restore, with_env, with_env-restores,
}

-- The fatal method of this logger ends the process.
abbrev zap : Zap ℕ ℕ ℕ
zap = record {
  info = λ l msg fields w. (returned, w);
  fatal = λ l msg fields w. (exited, w);
  error = λ l msg fields w. (returned, w);
  debug = λ l msg fields w. (returned, w);
}

abbrev failing : ℕ → Call (Process ℕ ℕ)
failing n = call_fatal zap (codes "boom") []

abbrev process : Process ℕ ℕ
process = record {
  env = (codes "ENV", codes "prod") ∷ [];
  log = 0;
  fatal = standard;
  mocks = [];
  world = 7;
}

-- The call is recorded by the mock, and does not end the process.
run_with_env : with_env (codes "ENV") (codes "dev") failing process ≡ (
  returned,
  record process { mocks = record { is_fatal_called = true; fatal_msg = codes "boom" } ∷ [] },
)
unfolding with_env prepare restore call_fatal mock_fatal setenv getenv has_char insert lookup
    str_beq
run_with_env = refl

returned_not_exited : returned ≢ exited
returned_not_exited e = cc e

-- A variable that was not set is set afterwards.
with_env-restores_example :
    ((with_env (codes "NEW") (codes "1") failing process).1.fatal ≡ standard)
    × (lookup (codes "NEW") (with_env (codes "NEW") (codes "1") failing process).1.env
        ≡ some (codes ""))
unfolding with_env prepare restore call_fatal setenv getenv has_char lookup insert str_beq
with_env-restores_example =
    with_env-restores (codes "NEW") (codes "1") failing process refl returned_not_exited
