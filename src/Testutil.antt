-- ===== src/Testutil.antt =====
-- testutil/test_helpers.go: WithEnv and the MockLogger. The functions under test are arguments.
use go_api_boot.Base.{
  ℕ, zero, suc, Str, codes, List, [], ◌∷◌, ◌++◌, Bool, true, false, some, ◌||◌, length, ◌≡◌, ◌≢◌,
  refl, ◌==◌, str_eq, nat_eq,
}
use go_api_boot.Base.Dict.{lookup, lookup-insert_self}
use go_api_boot.Auth.{getenv}
use go_api_boot.Dotenv.{Env, setenv, has_char}
use go_api_boot.Logger.{Zap, Outcome, returned, panicked, exited, Call}
use go_api_boot.Logger

-- MockLogger
pub record MockLogger : Type 0 where
  pub is_fatal_called : Bool
  pub fatal_msg : Str

-- What the variable logger.Fatal holds: its first value, or the method of a mock.
pub data Hook : Type 0 where
  standard : Hook
  mock : ℕ → Hook

-- The process: its environment, the variables of the package `logger`, and the mocks made so far,
-- by their numbers.
pub record Process (L W : Type 0) : Type 0 where
  pub env : Env
  pub log : L
  pub fatal : Hook
  pub mocks : List MockLogger
  pub world : W

-- MockLogger.Fatal on the mock with this number
unfoldable pub mock_fatal : ℕ → Str → List MockLogger → List MockLogger
mock_fatal n msg [] = []
mock_fatal zero msg (m ∷ ms) = record { is_fatal_called = true; fatal_msg = msg } ∷ ms
mock_fatal (suc n) msg (m ∷ ms) = m ∷ mock_fatal n msg ms

module _ {L F W : Type 0} (zap : Zap L F W) where
  abbrev in_world : Process L W → Outcome × W → Outcome × Process L W
  in_world p (o, w) = (o, record p { world = w })

  abbrev call_hook : Hook → Str → List F → Call (Process L W)
  call_hook standard msg fields p = in_world p (Logger.fatal zap p.log msg fields p.world)
  call_hook (mock n) msg fields p = (returned, record p { mocks = mock_fatal n msg p.mocks })

  -- A call of logger.Fatal
  unfoldable pub call_fatal : Str → List F → Call (Process L W)
  unfolding mock_fatal Logger.fatal
  call_fatal msg fields p = call_hook p.fatal msg fields p

-- os.Setenv refuses this key or this value.
abbrev pub is_refused : Str → Str → Bool
is_refused key value = key == [] || has_char b'=' key || has_char 0 key || has_char 0 value

module _ {L W : Type 0} where
  -- The two deferred functions, last first.
  unfoldable pub restore : Str → Str → Hook → Process L W → Process L W
  unfolding setenv
  restore key original_env original_logger p = record p {
    fatal = original_logger;
    env = setenv key original_env p.env;
  }

  abbrev deferred : (Process L W → Process L W) → Outcome × Process L W → Outcome × Process L W
  deferred f (returned, p) = (returned, f p)
  deferred f (panicked, p) = (panicked, f p)
  deferred f (exited, p) = (exited, p)

  -- The process in which `fn` runs.
  unfoldable pub prepare : Str → Str → Process L W → Process L W
  unfolding setenv
  prepare key value p = record p {
    env = setenv key value p.env;
    mocks = p.mocks ++ record { is_fatal_called = false; fatal_msg = codes "" } ∷ [];
    fatal = mock (length p.mocks);
  }

  -- WithEnv; `fn` gets the number of its mock.
  unfoldable pub with_env : Str → Str → (ℕ → Call (Process L W)) → Call (Process L W)
  unfolding getenv prepare restore
  with_env key value fn p =
      deferred (restore key (getenv p.env key) p.fatal) (fn (length p.mocks) (prepare key value p))

  restore-env :
      (key old : Str) (hook : Hook) (p : Process L W)
      → is_refused key old ≡ false
      → ((restore key old hook p).fatal ≡ hook)
        × (lookup key (restore key old hook p).env ≡ some old)
  unfolding restore setenv
  restore-env key old hook p h = (refl, rw h (lookup-insert_self key old p.env))

  deferred-restores :
      (key old : Str) (hook : Hook) (r : Outcome × Process L W)
      → is_refused key old ≡ false
      → (deferred (restore key old hook) r).0 ≢ exited
      → ((deferred (restore key old hook) r).1.fatal ≡ hook)
        × (lookup key (deferred (restore key old hook) r).1.env ≡ some old)
  deferred-restores key old hook (returned, p) h n = restore-env key old hook p h
  deferred-restores key old hook (panicked, p) h n = restore-env key old hook p h
  deferred-restores key old hook (exited, p) h n = absurd (n refl)

  -- Whatever the function does, if it returns or panics, WithEnv leaves logger.Fatal as it was, and
  -- the variable with the value that os.Getenv gave before, if os.Setenv takes that: a variable that
  -- was not set is set to the empty text.
  pub with_env-restores :
      (key value : Str) (fn : ℕ → Call (Process L W)) (p : Process L W)
      → is_refused key (getenv p.env key) ≡ false
      → (with_env key value fn p).0 ≢ exited
      → ((with_env key value fn p).1.fatal ≡ p.fatal)
        × (lookup key (with_env key value fn p).1.env ≡ some (getenv p.env key))
  unfolding with_env
  with_env-restores key value fn p h n =
      deferred-restores key (getenv p.env key) p.fatal (fn (length p.mocks) (prepare key value p)) h
        n
