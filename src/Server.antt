-- ===== src/Server.antt =====
-- server/server.go: BootServer.Serve, with its goroutines as the moves of one state. The servers, the
-- worker, the SSL provider and the caller decide when their calls return: each such moment is an
-- event. The packages are taken at their word: http.Server.Serve never returns nil, and returns
-- behind Shutdown; grpc.Server.Serve returns nil only behind GracefulStop; the worker's Run returns
-- nil only behind an interrupt. GracefulStop and Shutdown return, so a call that never ends is not
-- modelled.
pub mod Moves
pub mod Invariant
pub mod Measure
pub mod Ending
pub mod Worker
pub mod Shutdown
pub mod Secured
use go_api_boot.Base.{
  Str, List, [], ◌∷◌, Bool, true, false, not, ◌&&◌, ◌||◌, Option, none, some, if◌then◌else◌,
}

pub data Fault : Type 0 where
  -- http.ErrServerClosed, grpc.ErrServerStopped, and any other error
  server_closed server_stopped : Fault
  failure : Str → Fault

-- A goroutine of the group.
pub data Routine : Type 0 where
  ready : Routine
  -- s.sslProvider.Run(ctx) of the second goroutine
  securing : Routine
  running : Routine
  ended : Routine

-- Where Serve is: at <-ctx.Done(), at GracefulStop, at http.Shutdown, at Close of the client, at
-- grp.Wait(), or returned.
pub data Place : Type 0 where
  waiting stopping shutting closing joining : Place
  returned : Option Fault → Place

pub record Serving : Type 0 where
  -- s.sslProvider is set, and its Run returns nil only when its context is done.
  pub is_ssl : Bool
  pub is_blocking : Bool
  -- The caller's context is done; the process was interrupted.
  pub is_cancelled : Bool
  pub is_interrupted : Bool
  -- The error that the group keeps: its first.
  pub group : Option Fault
  pub is_grpc_stopped : Bool
  pub is_http_shut : Bool
  pub grpc : Routine
  pub http : Routine
  pub worker : Routine
  pub place : Place

pub data Event : Type 0 where
  cancel interrupt : Event
  -- BootServer.Shutdown, called from elsewhere: its two calls
  outside_stop outside_shutdown : Event
  grpc_start grpc_return : Event
  grpc_fail : Fault → Event
  http_start http_return : Event
  http_fail : Fault → Event
  -- s.sslProvider.Run(ctx) returns.
  ssl_return : Event
  ssl_fail : Fault → Event
  worker_start worker_return : Event
  worker_fail : Fault → Event
  main_proceed : Event

abbrev pub is_none : Option Fault → Bool
is_none none = true
is_none (some _) = false

-- The context of the group is done.
abbrev pub is_done : Serving → Bool
is_done s = s.is_cancelled || not (is_none s.group)

abbrev pub first : Option Fault → Fault → Option Fault
first none e = some e
first (some e) _ = some e

abbrev pub is_ready : Routine → Bool
is_ready ready = true
is_ready _ = false

abbrev pub is_running : Routine → Bool
is_running running = true
is_running _ = false

abbrev pub is_securing : Routine → Bool
is_securing securing = true
is_securing _ = false

abbrev pub is_ended : Routine → Bool
is_ended ended = true
is_ended _ = false

abbrev pub allow : Bool → Serving → Option Serving
allow true s = some s
allow false s = none

-- `return s.grpc.Serve(s.lnGrpc)`: a server that was stopped refuses to serve.
abbrev pub start_grpc : Serving → Serving
start_grpc s =
    if s.is_grpc_stopped
    then record s { grpc = ended; group = first s.group server_stopped }
    else record s { grpc = running }

-- The second goroutine: the provider first, if there is one.
abbrev pub start_http : Serving → Serving
start_http s = record s { http = if s.is_ssl then securing else running }

-- An error of the provider is returned if the context is not done; else the server serves.
abbrev pub end_ssl : Fault → Serving → Serving
end_ssl e s =
    if is_done s
    then record s { http = running }
    else record s { http = ended; group = first s.group e }

-- The rest of Serve, behind the start of the three goroutines, from where it is.
abbrev pub proceed_from : Place → Serving → Option Serving
proceed_from waiting s = allow (is_done s) (record s { place = stopping })
proceed_from stopping s = some (record s { is_grpc_stopped = true; place = shutting })
proceed_from shutting s = some (record s { is_http_shut = true; place = closing })
proceed_from closing s = some (record s { place = joining })
proceed_from joining s =
    allow (is_ended s.grpc && is_ended s.http && is_ended s.worker)
      (record s { place = returned s.group })
proceed_from (returned r) s = none

unfoldable pub proceed : Serving → Option Serving
proceed s = proceed_from s.place s

-- One move; none if the event cannot happen.
unfoldable pub step : Serving → Event → Option Serving
unfolding proceed
step s cancel = some (record s { is_cancelled = true })
step s interrupt = some (record s { is_interrupted = true })
step s outside_stop = some (record s { is_grpc_stopped = true })
step s outside_shutdown = some (record s { is_http_shut = true })
step s grpc_start = allow (is_ready s.grpc) (start_grpc s)
step s grpc_return = allow (is_running s.grpc && s.is_grpc_stopped) (record s { grpc = ended })
step s (grpc_fail e) =
    allow (is_running s.grpc) (record s { grpc = ended; group = first s.group e })
step s http_start = allow (is_ready s.http) (start_http s)
step s http_return =
    allow (is_running s.http && s.is_http_shut)
      (record s { http = ended; group = first s.group server_closed })
step s (http_fail e) =
    allow (is_running s.http) (record s { http = ended; group = first s.group e })
step s ssl_return =
    allow (is_securing s.http && (is_done s || not s.is_blocking)) (record s { http = running })
step s (ssl_fail e) = allow (is_securing s.http) (end_ssl e s)
step s worker_start = allow (is_ready s.worker) (record s { worker = running })
step s worker_return = allow (is_running s.worker && s.is_interrupted) (record s { worker = ended })
step s (worker_fail e) =
    allow (is_running s.worker) (record s { worker = ended; group = first s.group e })
step s main_proceed = proceed s

-- Serve is called: with a worker or without, with a provider or without.
unfoldable pub start : Bool → Bool → Bool → Serving
start has_worker is_ssl is_blocking = record {
  is_ssl = is_ssl;
  is_blocking = is_blocking;
  is_cancelled = false;
  is_interrupted = false;
  group = none;
  is_grpc_stopped = false;
  is_http_shut = false;
  grpc = ready;
  http = ready;
  worker = if has_worker then ready else ended;
  place = waiting;
}

-- Some moves, in order.
unfoldable pub run : List Event → Serving → Option Serving
run [] s = some s
run (e ∷ es) s = elim (step s e) [ none ↦ none | some t ↦ run es t ]
