-- ===== src/Builder/Build.antt =====
-- `Build` of server/builder.go: the servers and the worker are made from what was wired. The
-- libraries that it calls are the section's argument.
use go_api_boot.Base.{
  ℕ, Str, codes, not, List, [], ◌∷◌, ◌++◌, Bool, false, ◌||◌, Option, none, some, Result, ok, err,
  nat_eq, str_eq, ◌==◌, if◌then◌else◌,
}
use go_api_boot.Base.Exec.{Exec, pure, raise, ◌>>=◌, ◌>>◌}
use go_api_boot.Http.{write_header}
use go_api_boot.Rest.{HandlerFunc, Route, method_filter_handler}
use go_api_boot.Retry.{RateLimiter, RetryError, retry_with_exponential_backoff}
use go_api_boot.Container.{Factory, Fault, Inject, new_container, invoke_factory}
use go_api_boot.Builder.{Builder, Registration, SslProvider}

pub record Libraries (V W X : Type 0) : Type 1 where
  -- net.Listen("tcp", port)
  pub listen : Str → Exec W Str X
  -- grpc.StreamInterceptor of grpc_middleware.ChainStreamServer, and so for unary calls
  pub chain_stream : List X → X
  pub chain_unary : List X → X
  -- grpc.NewServer
  pub new_server : List X → W → X × W
  -- GetWebProxy(grpcSrv) as a handler
  pub web_proxy : X → HandlerFunc W
  -- promhttp.Handler()
  pub metrics : HandlerFunc W
  -- http.FileServer(http.Dir(dir)), http.StripPrefix
  pub file_server : Str → HandlerFunc W
  pub strip_prefix : Str → HandlerFunc W → HandlerFunc W
  -- What a http.ServeMux can parse as a pattern: registering anything else panics.
  pub is_pattern : Str → Bool
  -- The patterns of a http.ServeMux conflict: registering the second panics.
  pub is_conflict : Str → Str → Bool
  -- ctrl.Routes() of the user's controller
  pub routes : V → W → List (Route W) × W
  pub rate : RateLimiter W Str
  -- client.Dial(options)
  pub dial : X → Exec W Str X
  -- worker.New(tc, taskQueue, worker.Options{}) and the registrations of the worker
  pub new_worker : X → Str → W → X × W
  pub register_activity : X → V → W → W
  pub register_workflow : X → V → W → W

-- What Build works on: the builder, whose maps the container shares, the world, and the patterns
-- of the multiplexer with their handlers.
pub record Site (V W X : Type 0) : Type 0 where
  pub builder : Builder V W X
  pub world : W
  pub mux : List (Str × HandlerFunc W)

pub data BuildError : Type 0 where
  ports_not_set : BuildError
  listen_failed : Str → BuildError
  service_failed : Fault → BuildError
  rest_controller_failed : Fault → BuildError
  ssl_failed : Str → BuildError
  temporal_client_failed : RetryError Str → BuildError
  activity_failed : Fault → BuildError
  -- mux.Handle panics.
  invalid_pattern : Str → BuildError
  pattern_conflict : Str → BuildError

-- BootServer: the multiplexer is the handler of its HTTP server.
pub record BootServer (W X : Type 0) : Type 0 where
  pub grpc : X
  pub ln_grpc : X
  pub ln_http : X
  pub ssl_provider : Option (SslProvider W X)
  pub temporal_worker : Option X
  pub temporal_client : Option X

abbrev pub Building : Type 0 → Type 0 → Type 0 → Type 0 → Type 0
Building V W X A = Exec (Site V W X) BuildError A

abbrev pub map_err : {E A : Type 0} → (E → BuildError) → Result E A → Result BuildError A
map_err h (ok a) = ok a
map_err h (err e) = err (h e)

abbrev pub any_conflict :
    {W : Type 0} → (Str → Str → Bool) → Str → List (Str × HandlerFunc W) → Bool
any_conflict is_conflict p [] = false
any_conflict is_conflict p ((q, _) ∷ mux) = is_conflict q p || any_conflict is_conflict p mux

module _ {V W X : Type 0} where
  -- A call that can only change the world.
  unfoldable pub effect : {A : Type 0} → (W → A × W) → Building V W X A
  effect f s = let (a, w) = f s.world in (ok a, record s { world = w })

  unfoldable pub attempt : {E A : Type 0} → (E → BuildError) → Exec W E A → Building V W X A
  attempt h f s = let (r, w) = f s.world in (map_err h r, record s { world = w })

  -- An action of the container, on the builder's maps: newContainer does not copy them.
  unfoldable pub inject : {A : Type 0} → (Fault → BuildError) → Inject V W A → Building V W X A
  unfolding new_container
  inject h m s =
      let (r, c) = m (new_container s.builder.singletons s.builder.providers s.world) in
      (
        map_err h r,
        record s {
          builder = record s.builder { singletons = c.singletons; providers = c.providers };
          world = c.world;
        },
      )

  module _ (lib : Libraries V W X) where
    -- mux.Handle(pattern, handler)
    unfoldable pub handle : Str → HandlerFunc W → Building V W X (Unit {0})
    handle pattern h s =
        if not (lib.is_pattern pattern)
        then (err (invalid_pattern pattern), s)
        else if any_conflict lib.is_conflict pattern s.mux
        then (err (pattern_conflict pattern), s)
        else (ok tt, record s { mux = s.mux ++ (pattern, h) ∷ [] })

    unfoldable pub register_services : ℕ → X → List (Registration V W X) → Building V W X (Unit {0})
    register_services fuel srv [] = pure tt
    register_services fuel srv (r ∷ reg) = do
      svc ← inject service_failed (invoke_factory fuel r.factory)
      effect λ w. (tt, r.register srv svc w)
      register_services fuel srv reg

    unfoldable pub handle_routes :
        (HandlerFunc W → HandlerFunc W) → List (Route W) → Building V W X (Unit {0})
    handle_routes cors [] = pure tt
    handle_routes cors (route ∷ routes) = do
      handle route.pattern (cors (method_filter_handler route.method route.handler))
      handle_routes cors routes

    unfoldable pub register_controllers :
        ℕ → (HandlerFunc W → HandlerFunc W) → List (Factory V W) → Building V W X (Unit {0})
    register_controllers fuel cors [] = pure tt
    register_controllers fuel cors (factory ∷ regs) = do
      ctrl ← inject rest_controller_failed (invoke_factory fuel factory)
      routes ← effect (lib.routes ctrl)
      handle_routes cors routes
      register_controllers fuel cors regs

    -- w.WriteHeader(http.StatusOK)
    unfoldable pub health : HandlerFunc W
    health r (w, world) = (write_header 200 w, world)

    unfoldable pub handle_static : Str → Building V W X (Unit {0})
    handle_static dir =
        if dir == codes ""
        then pure tt
        else handle (codes "/static/") (lib.strip_prefix (codes "/static/") (lib.file_server dir))

    unfoldable pub configure_ssl : Option (SslProvider W X) → Building V W X (Unit {0})
    configure_ssl none = pure tt
    configure_ssl (some p) = attempt ssl_failed p.configure

    -- The package `rate`, beside the variable `tc` that the retried function sets.
    unfoldable pub lifted : RateLimiter (W × Option X) Str
    lifted = record {
      Limiter = lib.rate.Limiter;
      new_limiter = lib.rate.new_limiter;
      wait = λ l (w, tc). let (r, w') = lib.rate.wait l w in (r, (w', tc));
      set_limit = lib.rate.set_limit;
    }

    abbrev dialled : Result Str X × W → Result Str (Unit {0}) × (W × Option X)
    dialled (ok tc, w) = (ok tt, (w, some tc))
    dialled (err e, w) = (err e, (w, none))

    -- tc, tcErr = client.Dial(*b.temporalClientOpts)
    unfoldable pub dial_once : X → Exec (W × Option X) Str (Unit {0})
    dial_once opts (w, _) = dialled (lib.dial opts w)

    abbrev connected :
        Result (RetryError Str) (Unit {0}) × (W × Option X) → Result (RetryError Str) (Option X) × W
    connected (ok _, (w, tc)) = (ok tc, w)
    connected (err e, (w, _)) = (err e, w)

    -- Five attempts, with a base delay of ten seconds.
    unfoldable pub connect : X → Exec W (RetryError Str) (Option X)
    connect opts w =
        connected (retry_with_exponential_backoff lifted 10000000000 (dial_once opts) 5 (w, none))

    unfoldable pub register_activities : ℕ → X → List (Factory V W) → Building V W X (Unit {0})
    register_activities fuel tw [] = pure tt
    register_activities fuel tw (f ∷ fs) = do
      receiver ← inject activity_failed (invoke_factory fuel f)
      effect λ w. (tt, lib.register_activity tw receiver w)
      register_activities fuel tw fs

    unfoldable pub register_workflows : X → List V → Building V W X (Unit {0})
    register_workflows tw [] = pure tt
    register_workflows tw (wf ∷ wfs) = do
      effect λ w. (tt, lib.register_workflow tw wf w)
      register_workflows tw wfs

    -- The worker, behind a client that was dialled.
    unfoldable pub start_worker :
        ℕ → Builder V W X → Option X → Building V W X (Option X × Option X)
    start_worker fuel b none = pure (none, none)
    start_worker fuel b (some tc) = do
      tw ← effect (lib.new_worker tc b.task_queue)
      register_activities fuel tw b.activity_regs
      register_workflows tw b.workflow_regs
      pure (some tw, some tc)

    unfoldable pub temporal : ℕ → Builder V W X → Option X → Building V W X (Option X × Option X)
    temporal fuel b none = pure (none, none)
    temporal fuel b (some opts) = do
      tc ← attempt temporal_client_failed (connect opts)
      start_worker fuel b tc

    -- b.serverOpts = append(b.serverOpts, ...)
    unfoldable pub append_server_opts : Building V W X (List X)
    append_server_opts s =
        let b = s.builder in
        let opts =
          b.server_opts
          ++ lib.chain_stream b.stream_interceptors ∷ lib.chain_unary b.unary_interceptors ∷ [] in
        (ok opts, record s { builder = record b { server_opts = opts } })

    unfoldable pub check_ports : Builder V W X → Building V W X (Unit {0})
    check_ports b =
        if b.grpc_port == codes "" || b.http_port == codes "" then raise ports_not_set else pure tt

    unfoldable pub wire_http : ℕ → Builder V W X → X → Building V W X (Unit {0})
    wire_http fuel b srv = do
      handle (codes "/api") (b.cors_handler (lib.web_proxy srv))
      handle (codes "/metrics") lib.metrics
      handle (codes "/health") health
      register_controllers fuel b.cors_handler b.rest_controller_regs
      handle_static b.static_dir
      configure_ssl b.ssl_provider

    unfoldable pub build_from : ℕ → Builder V W X → Building V W X (BootServer W X)
    build_from fuel b = do
      check_ports b
      ln_grpc ← attempt listen_failed (lib.listen b.grpc_port)
      ln_http ← attempt listen_failed (lib.listen b.http_port)
      opts ← append_server_opts
      srv ← effect (lib.new_server opts)
      register_services fuel srv b.reg
      wire_http fuel b srv
      (tw, tc) ← temporal fuel b b.temporal_client_opts
      pure (record {
        grpc = srv;
        ln_grpc = ln_grpc;
        ln_http = ln_http;
        ssl_provider = b.ssl_provider;
        temporal_worker = tw;
        temporal_client = tc;
      })

    -- Build, whose multiplexer starts empty
    unfoldable pub build : ℕ → Building V W X (BootServer W X)
    build fuel s = build_from fuel s.builder (record s { mux = [] })
