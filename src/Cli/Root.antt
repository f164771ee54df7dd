-- ===== src/Cli/Root.antt =====
-- cmd/go-api-boot/main.go: the table of commands, and main. The package `cobra` is an argument.
use go_api_boot.Base.{
  ℕ, zero, suc, Str, codes, List, [], ◌∷◌, Result, ok, err, length, ◌≡◌, ◌≢◌, arith, All,
}
use go_api_boot.Base.Exec.{Exec, continue}
use go_api_boot.Cli.{CliTools, bootstrap, add_repository, add_service}

-- How RunE ends otherwise: with the error of the function, or with the panic of an index.
pub data RunFault : Type 0 where
  failed : Str → RunFault
  out_of_range : RunFault

-- cobra.Command, with the number of cobra.ExactArgs
pub record CobraCommand (W : Type 0) : Type 0 where
  pub usage : Str
  pub short : Str
  pub exact_args : ℕ
  pub run_e : List Str → Exec W RunFault (Unit {0})

pub record RootCommand (W : Type 0) : Type 0 where
  pub usage : Str
  pub short : Str
  pub commands : List (CobraCommand W)

-- args[n]
unfoldable pub arg : ℕ → List Str → Result RunFault Str
arg n [] = err out_of_range
arg zero (s ∷ args) = ok s
arg (suc n) (s ∷ args) = arg n args

abbrev pub map_failed : {A W : Type 0} → Result Str A × W → Result RunFault A × W
map_failed (ok a, w) = (ok a, w)
map_failed (err e, w) = (err (failed e), w)

abbrev pub lift : {A W : Type 0} → Exec W Str A → Exec W RunFault A
lift m w = map_failed (m w)

module _ {W T F : Type 0} (os : CliTools W T F) where
  unfoldable pub run_bootstrap : List Str → Exec W RunFault (Unit {0})
  unfolding arg
  run_bootstrap args =
      continue (arg 0 args) λ name. continue (arg 1 args) λ path. lift (bootstrap os name path)

  unfoldable pub run_repository : List Str → Exec W RunFault (Unit {0})
  unfolding arg
  run_repository args = continue (arg 0 args) λ name. lift (add_repository os name)

  unfoldable pub run_service : List Str → Exec W RunFault (Unit {0})
  unfolding arg
  run_service args = continue (arg 0 args) λ name. lift (add_service os name)

  -- NewRoot
  unfoldable pub new_root : RootCommand W
  new_root = record {
    usage = codes "go-api-boot";
    short = codes "A CLI to bootstrap go-api-boot gRPC microservice project";
    commands =
        record {
          usage = codes "bootstrap [project name] [proto path]";
          short = codes "Bootstrap a new go-api-boot gRPC microservice project";
          exact_args = 2;
          run_e = run_bootstrap;
        }
        ∷ record {
          usage = codes "repository [dbModelName]";
          short = codes "Add DB repository";
          exact_args = 1;
          run_e = run_repository;
        }
        ∷ record {
          usage = codes "service [serviceName]";
          short = codes "Add service API";
          exact_args = 1;
          run_e = run_service;
        }
        ∷ [];
  }

  -- The exit code of the process: fmt.Println(err) and os.Exit(1) behind an error.
  unfoldable pub exit_code : (Str → W → W) → Result Str (Unit {0}) → W → ℕ × W
  exit_code println (ok _) w = (0, w)
  exit_code println (err e) w = (1, println e w)

  -- main; Execute of cobra runs the command that the process was called with.
  unfoldable pub main : (RootCommand W → Exec W Str (Unit {0})) → (Str → W → W) → W → ℕ × W
  unfolding new_root exit_code
  main execute println w = let (r, w') = execute new_root w in exit_code println r w'

  -- The command returns, or fails with the error of its function: no index is out of range.
  abbrev pub IsSafe : CobraCommand W → Type 0
  IsSafe c =
      (args : List Str) (w : W) → length args ≡ c.exact_args → (c.run_e args w).0 ≢ err out_of_range

  lift-safe : {A : Type 0} (r : Result Str A × W) → (map_failed r).0 ≢ err out_of_range
  lift-safe (ok a, w) e = cc e
  lift-safe (err x, w) e = cc e

  run_bootstrap-safe :
      (args : List Str) (w : W) → length args ≡ 2 → (run_bootstrap args w).0 ≢ err out_of_range
  unfolding run_bootstrap
  run_bootstrap-safe [] w h = absurd (omega (arith, h))
  run_bootstrap-safe (a ∷ []) w h = absurd (omega (arith, h))
  run_bootstrap-safe (a ∷ b ∷ args) w h = lift-safe (bootstrap os a b w)

  run_repository-safe :
      (args : List Str) (w : W) → length args ≡ 1 → (run_repository args w).0 ≢ err out_of_range
  unfolding run_repository
  run_repository-safe [] w h = absurd (omega (arith, h))
  run_repository-safe (a ∷ args) w h = lift-safe (add_repository os a w)

  run_service-safe :
      (args : List Str) (w : W) → length args ≡ 1 → (run_service args w).0 ≢ err out_of_range
  unfolding run_service
  run_service-safe [] w h = absurd (omega (arith, h))
  run_service-safe (a ∷ args) w h = lift-safe (add_service os a w)

  -- No command of the program indexes its arguments out of range, when it is run with as many as
  -- its cobra.ExactArgs demands: it returns, or fails with the error of its function.
  pub commands-IsSafe : All IsSafe (new_root).commands
  unfolding new_root
  commands-IsSafe = (run_bootstrap-safe, (run_repository-safe, (run_service-safe, tt)))
