-- ===== src/Tests/ServingRuns.antt =====
-- server/builder.go and server/server.go together, and BootServer.Shutdown.
use go_api_boot.Base.{
  ℕ, List, [], ◌∷◌, true, false, none, some, ok, ◌≡◌, refl, nat_eq, str_eq, str_beq,
}
use go_api_boot.Base.Dict.{lookup, insert}
use go_api_boot.Container
use go_api_boot.Container.{
  resolve, invoke_factory, invoke, resolve_args, resolve_miss, call, memoise, new_container,
}
use go_api_boot.Builder.{Builder, new}
use go_api_boot.Builder.Build.{
  Site, BootServer, build, build_from, check_ports, attempt, append_server_opts, effect,
  register_services, inject, configure_ssl, handle, handle_routes, handle_static,
  register_controllers, temporal, wire_http,
}
use go_api_boot.Builder.Serving.{serving, built_returns, built_holds}
use go_api_boot.Server.{
  running, securing, ended, waiting, joining, Serving, Event, outside_stop, outside_shutdown,
  cancel, grpc_start, grpc_return, http_start, http_return, worker_start, main_proceed, is_done,
  proceed, step, start, run,
}
use go_api_boot.Server.Invariant.{is_returned}
use go_api_boot.Server.Ending.{Progresses}
use go_api_boot.Server.Shutdown.{shutdown_unblocks}
use go_api_boot.Server.Secured.{secured_waits}
use go_api_boot.Tests.BuilderRuns.{World, lib, wired, site, served, run_build}
use go_api_boot.Tests.ServerRuns.{
  opening, closing_down, opened, over, run_opening, run_closing_down,
}

-- The builder of BuilderRuns, without Temporal.
abbrev plain : Builder ℕ World ℕ
plain = record wired { temporal_client_opts = none }

abbrev plain_site : Site ℕ World ℕ
plain_site = record { builder = plain; world = []; mux = [] }

abbrev plain_server : BootServer World ℕ
plain_server = record served { temporal_worker = none; temporal_client = none }

run_plain : (build lib 5 plain_site).0 ≡ ok plain_server
unfolding build build_from check_ports str_beq attempt append_server_opts effect register_services
    inject invoke_factory invoke resolve_args resolve resolve_miss lookup new
    go_api_boot.Container.provide insert configure_ssl handle handle_routes handle_static
    register_controllers temporal wire_http call memoise new_container
run_plain = refl

built_returns_example : Progresses closing_down opened over
built_returns_example =
    built_returns lib 5 plain_site plain_server false opening closing_down opened over run_plain
      refl run_opening refl (refl, (refl, (refl, (refl, (refl, (refl, (refl, tt)))))))
      run_closing_down

-- The worker runs; everything else has ended, and Serve waits for it.
abbrev held_moves : List Event
held_moves =
    worker_start ∷ grpc_start ∷ http_start ∷ cancel ∷ main_proceed ∷ main_proceed ∷ main_proceed
    ∷ main_proceed ∷ grpc_return ∷ http_return ∷ []

abbrev held : Serving
held = record over { worker = running; place = joining }

run_held : run held_moves (serving false served) ≡ some held
unfolding run step proceed start
run_held = refl

built_holds_example : is_returned held.place ≡ false
built_holds_example =
    built_holds lib 5 site served 3 false held_moves held run_build refl
      (refl, (refl, (refl, (refl, (refl, (refl, (refl, (refl, (refl, (refl, tt)))))))))) run_held

-- Shutdown is called; the context is not cancelled.
abbrev stopping_moves : List Event
stopping_moves = grpc_start ∷ http_start ∷ outside_stop ∷ outside_shutdown ∷ []

abbrev told : Serving
told = record opened { is_cancelled = false; is_grpc_stopped = true; is_http_shut = true }

run_stopping : run stopping_moves (start false false false) ≡ some told
unfolding run step start
run_stopping = refl

abbrev unblocked_moves : List Event
unblocked_moves =
    grpc_return ∷ http_return ∷ main_proceed ∷ main_proceed ∷ main_proceed ∷ main_proceed
    ∷ main_proceed ∷ []

abbrev unblocked : Serving
unblocked = record over { is_cancelled = false }

run_unblocked : run unblocked_moves told ≡ some unblocked
unfolding run step proceed
run_unblocked = refl

abbrev serving_waits : Serving
serving_waits = record opened { is_cancelled = false }

-- Nothing is due, and nothing of Serve's own but a failure is possible, without Shutdown.
waits_without_shutdown :
    (step serving_waits main_proceed ≡ none)
    × (step serving_waits grpc_return ≡ none)
    × (step serving_waits http_return ≡ none)
unfolding step proceed
waits_without_shutdown = (refl, refl, refl)

shutdown_unblocks_example : Progresses unblocked_moves told unblocked
shutdown_unblocks_example =
    shutdown_unblocks false false (grpc_start ∷ http_start ∷ []) [] [] unblocked_moves told
      unblocked run_stopping refl (refl, (refl, (refl, (refl, (refl, (refl, (refl, tt)))))))
      run_unblocked

-- The provider waits for the context while both servers are told to stop.
abbrev secured : Serving
secured = record opened { is_ssl = true; is_blocking = true; is_cancelled = false; http = securing }

abbrev secured_told : Serving
secured_told = record secured { is_grpc_stopped = true; is_http_shut = true; grpc = ended }

run_secured : run (grpc_start ∷ http_start ∷ []) (start false true true) ≡ some secured
unfolding run step start
run_secured = refl

run_secured_told :
    run (outside_stop ∷ outside_shutdown ∷ grpc_return ∷ []) secured ≡ some secured_told
unfolding run step
run_secured_told = refl

secured_waits_example : (secured_told.place ≡ waiting) × (is_done secured_told ≡ false)
secured_waits_example =
    secured_waits false (grpc_start ∷ http_start ∷ [])
      (outside_stop ∷ outside_shutdown ∷ grpc_return ∷ []) secured secured_told run_secured refl
      refl (refl, (refl, (refl, tt))) run_secured_told
