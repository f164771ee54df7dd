-- ===== src/Tests/ServerRuns.antt =====
-- server/server.go: a run of Serve from its start to its end, and runs that stop before it.
use go_api_boot.Base.{List, [], ◌∷◌, true, false, none, some, ◌≡◌, refl}
use go_api_boot.Server.{
  server_closed, ready, running, ended, waiting, joining, returned, Serving, Event, cancel,
  grpc_start, grpc_return, http_start, http_return, ssl_return, worker_start, main_proceed, is_done,
  proceed, step, start, run,
}
use go_api_boot.Server.Invariant.{IsOver, is_returned, serve_result, https_late}
use go_api_boot.Server.Ending.{Progresses, serve_returns}
use go_api_boot.Server.Worker.{worker_holds}

abbrev pub opening : List Event
opening = grpc_start ∷ http_start ∷ cancel ∷ []

abbrev pub closing_down : List Event
closing_down =
    main_proceed ∷ main_proceed ∷ main_proceed ∷ main_proceed ∷ grpc_return ∷ http_return
    ∷ main_proceed ∷ []

-- The servers run, and the context is done.
abbrev pub opened : Serving
opened = record {
  is_ssl = false;
  is_blocking = false;
  is_cancelled = true;
  is_interrupted = false;
  group = none;
  is_grpc_stopped = false;
  is_http_shut = false;
  grpc = running;
  http = running;
  worker = ended;
  place = waiting;
}

abbrev pub over : Serving
over = record opened {
  group = some server_closed;
  is_grpc_stopped = true;
  is_http_shut = true;
  grpc = ended;
  http = ended;
  place = returned (some server_closed);
}

pub run_opening : run opening (start false false false) ≡ some opened
unfolding run step start
run_opening = refl

pub run_closing_down : run closing_down opened ≡ some over
unfolding run step proceed
run_closing_down = refl

pub run_all :
    run (grpc_start ∷ http_start ∷ cancel ∷ closing_down) (start false false false) ≡ some over
unfolding run step proceed start
run_all = refl

serve_result_example : IsOver over (some server_closed)
serve_result_example =
    serve_result false false false (grpc_start ∷ http_start ∷ cancel ∷ closing_down) over
      (some server_closed) run_all refl

serve_returns_example : Progresses closing_down opened over
serve_returns_example =
    serve_returns false false false opening closing_down opened over run_opening
      (record { context = refl; free = refl })
      (refl, (refl, (refl, (refl, (refl, (refl, (refl, tt))))))) run_closing_down

-- The provider returns because the context is done, and the server begins to serve TLS.
abbrev late : Serving
late = record opened { is_ssl = true; is_blocking = true; grpc = ready }

run_late : run (http_start ∷ cancel ∷ ssl_return ∷ []) (start false true true) ≡ some late
unfolding run step start
run_late = refl

https_late_example : is_done late ≡ true
https_late_example = https_late false (http_start ∷ cancel ∷ ssl_return ∷ []) late run_late refl

-- All but the worker has ended.
abbrev held : Serving
held = record over { worker = running; place = joining }

abbrev holding : List Event
holding =
    worker_start ∷ grpc_start ∷ http_start ∷ cancel ∷ main_proceed ∷ main_proceed ∷ main_proceed
    ∷ main_proceed ∷ grpc_return ∷ http_return ∷ []

run_holding : run holding (start true false false) ≡ some held
unfolding run step proceed start
run_holding = refl

held_stays : step held main_proceed ≡ none
unfolding step proceed
held_stays = refl

worker_holds_example : is_returned held.place ≡ false
worker_holds_example =
    worker_holds false false holding held
      (refl, (refl, (refl, (refl, (refl, (refl, (refl, (refl, (refl, (refl, tt)))))))))) run_holding
