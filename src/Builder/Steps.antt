-- ===== src/Builder/Steps.antt =====
-- Every step of `Build` only extends the site.
use go_api_boot.Base.{
  ℕ, Str, codes, List, [], ◌∷◌, Option, none, some, refl, Bool-cases, inl, inr, ◌==◌, str_eq,
  nat_eq, ◌||◌,
}
use go_api_boot.Base.Exec.{continue, pure}
use go_api_boot.Rest.{HandlerFunc, Route, method_filter_handler}
use go_api_boot.Container.{Factory, Fault, invoke, invoke_factory, resolve}
use go_api_boot.Container.Growth.{invoke-Grows, resolve-Grows}
use go_api_boot.Builder.{Builder, Registration, SslProvider}
use go_api_boot.Builder.Build.{
  Libraries, BuildError, Building, effect, attempt, inject, handle, service_failed,
  rest_controller_failed, activity_failed, ssl_failed, listen_failed, temporal_client_failed,
  register_services, handle_routes, register_controllers, handle_static, configure_ssl,
  register_activities, register_workflows, start_worker, temporal, append_server_opts, check_ports,
  wire_http, build_from, connect, health,
}
use go_api_boot.Builder.Growth.{
  OnlyExtends, Extends-refl, bind-Extends, effect-Extends, attempt-Extends, inject-Extends,
  handle-Extends, quiet,
}

module _ {V W X : Type 0} (lib : Libraries V W X) where
  pure-Extends : {A : Type 0} (a : A) → OnlyExtends {X = X} lib (pure a)
  pure-Extends a s = Extends-refl lib s

  made :
      (h : Fault → BuildError) (fuel : ℕ) (p : Factory V W)
      → OnlyExtends lib (inject h (invoke_factory fuel p))
  unfolding invoke_factory
  made h fuel p =
      inject-Extends lib h (invoke (resolve fuel) p)
        (invoke-Grows (resolve fuel) p (resolve-Grows fuel))

  pub register_services-Extends :
      (fuel : ℕ) (srv : X) (reg : List (Registration V W X))
      → OnlyExtends lib (register_services lib fuel srv reg)
  unfolding register_services
  register_services-Extends fuel srv [] = pure-Extends tt
  register_services-Extends fuel srv (r ∷ reg) =
      bind-Extends lib (inject service_failed (invoke_factory fuel r.factory)) _
        (made service_failed fuel r.factory)
        λ svc.
          bind-Extends lib (effect λ w. (tt, r.register srv svc w)) _ (effect-Extends lib _)
            λ _. register_services-Extends fuel srv reg

  handle_routes-Extends :
      (cors : HandlerFunc W → HandlerFunc W) (routes : List (Route W))
      → OnlyExtends lib (handle_routes lib cors routes)
  unfolding handle_routes
  handle_routes-Extends cors [] = pure-Extends tt
  handle_routes-Extends cors (r ∷ routes) =
      bind-Extends lib (handle lib r.pattern (cors (method_filter_handler r.method r.handler))) _
        (handle-Extends lib r.pattern _) λ _. handle_routes-Extends cors routes

  pub register_controllers-Extends :
      (fuel : ℕ) (cors : HandlerFunc W → HandlerFunc W) (regs : List (Factory V W))
      → OnlyExtends lib (register_controllers lib fuel cors regs)
  unfolding register_controllers
  register_controllers-Extends fuel cors [] = pure-Extends tt
  register_controllers-Extends fuel cors (p ∷ regs) =
      bind-Extends lib (inject rest_controller_failed (invoke_factory fuel p)) _
        (made rest_controller_failed fuel p)
        λ ctrl. bind-Extends lib (effect (lib.routes ctrl)) _ (effect-Extends lib _) λ routes.
          bind-Extends lib (handle_routes lib cors routes) _ (handle_routes-Extends cors routes)
            λ _. register_controllers-Extends fuel cors regs

  pub handle_static-Extends : (dir : Str) → OnlyExtends lib (handle_static lib dir)
  unfolding handle_static
  handle_static-Extends dir s = elim (Bool-cases (dir == codes "")) [
    | inl e ↦ rw e (Extends-refl lib s)
    | inr e ↦ rw e (handle-Extends lib (codes "/static/") _ s)
  ]

  pub configure_ssl-Extends : (p : Option (SslProvider W X)) → OnlyExtends lib (configure_ssl lib p)
  unfolding configure_ssl
  configure_ssl-Extends none = pure-Extends tt
  configure_ssl-Extends (some p) = attempt-Extends lib ssl_failed p.configure

  register_activities-Extends :
      (fuel : ℕ) (tw : X) (fs : List (Factory V W))
      → OnlyExtends lib (register_activities lib fuel tw fs)
  unfolding register_activities
  register_activities-Extends fuel tw [] = pure-Extends tt
  register_activities-Extends fuel tw (f ∷ fs) =
      bind-Extends lib (inject activity_failed (invoke_factory fuel f)) _
        (made activity_failed fuel f)
        λ receiver.
          bind-Extends lib (effect λ w. (tt, lib.register_activity tw receiver w)) _
            (effect-Extends lib _) λ _. register_activities-Extends fuel tw fs

  register_workflows-Extends :
      (tw : X) (wfs : List V) → OnlyExtends lib (register_workflows lib tw wfs)
  unfolding register_workflows
  register_workflows-Extends tw [] = pure-Extends tt
  register_workflows-Extends tw (wf ∷ wfs) =
      bind-Extends lib (effect λ w. (tt, lib.register_workflow tw wf w)) _ (effect-Extends lib _)
        λ _. register_workflows-Extends tw wfs

  start_worker-Extends :
      (fuel : ℕ) (b : Builder V W X) (tc : Option X) → OnlyExtends lib (start_worker lib fuel b tc)
  unfolding start_worker
  start_worker-Extends fuel b none = λ s. Extends-refl lib s
  start_worker-Extends fuel b (some tc) =
      bind-Extends lib (effect (lib.new_worker tc b.task_queue)) _ (effect-Extends lib _) λ tw.
        bind-Extends lib (register_activities lib fuel tw b.activity_regs) _
          (register_activities-Extends fuel tw b.activity_regs)
          λ _.
            bind-Extends lib (register_workflows lib tw b.workflow_regs) _
              (register_workflows-Extends tw b.workflow_regs) λ _ s. Extends-refl lib s

  pub temporal-Extends :
      (fuel : ℕ) (b : Builder V W X) (opts : Option X) → OnlyExtends lib (temporal lib fuel b opts)
  unfolding temporal
  temporal-Extends fuel b none = λ s. Extends-refl lib s
  temporal-Extends fuel b (some opts) =
      bind-Extends lib (attempt temporal_client_failed (connect lib opts)) _
        (attempt-Extends lib temporal_client_failed (connect lib opts))
        λ tc. start_worker-Extends fuel b tc

  pub append_server_opts-Extends : OnlyExtends lib (append_server_opts lib)
  unfolding append_server_opts
  append_server_opts-Extends s =
      quiet lib s (append_server_opts lib s).1
        (record { same_rest = refl; more = _; appended = refl }) refl refl refl

  pub check_ports-Extends : (b : Builder V W X) → OnlyExtends lib (check_ports lib b)
  unfolding check_ports
  check_ports-Extends b s = elim (Bool-cases (b.grpc_port == codes "" || b.http_port == codes "")) [
    | inl e ↦ rw e (Extends-refl lib s)
    | inr e ↦ rw e (Extends-refl lib s)
  ]

  -- What follows the three fixed patterns.
  unfoldable pub wire_rest : ℕ → Builder V W X → Building V W X (Unit {0})
  wire_rest fuel b s =
      let m = register_controllers lib fuel b.cors_handler b.rest_controller_regs s in
      continue m.0
        (λ _ s1.
          let m1 = handle_static lib b.static_dir s1 in
          continue m1.0 (λ _ s2. configure_ssl lib b.ssl_provider s2) m1.1)
        m.1

  pub wire_rest-Extends : (fuel : ℕ) (b : Builder V W X) → OnlyExtends lib (wire_rest fuel b)
  unfolding wire_rest
  wire_rest-Extends fuel b =
      bind-Extends lib (register_controllers lib fuel b.cors_handler b.rest_controller_regs) _
        (register_controllers-Extends fuel b.cors_handler b.rest_controller_regs)
        λ _.
          bind-Extends lib (handle_static lib b.static_dir) _ (handle_static-Extends b.static_dir)
            λ _. configure_ssl-Extends b.ssl_provider

  pub wire_http-Extends :
      (fuel : ℕ) (b : Builder V W X) (srv : X) → OnlyExtends lib (wire_http lib fuel b srv)
  unfolding wire_http wire_rest
  wire_http-Extends fuel b srv =
      bind-Extends lib (handle lib (codes "/api") (b.cors_handler (lib.web_proxy srv))) _
        (handle-Extends lib (codes "/api") _)
        λ _.
          bind-Extends lib (handle lib (codes "/metrics") lib.metrics) _
            (handle-Extends lib (codes "/metrics") _)
            λ _.
              bind-Extends lib (handle lib (codes "/health") (health lib)) _
                (handle-Extends lib (codes "/health") _) λ _. wire_rest-Extends fuel b

  pub build_from-Extends : (fuel : ℕ) (b : Builder V W X) → OnlyExtends lib (build_from lib fuel b)
  unfolding build_from
  build_from-Extends fuel b = bind-Extends lib (check_ports lib b) _ (check_ports-Extends b) λ _.
      bind-Extends lib (attempt listen_failed (lib.listen b.grpc_port)) _
        (attempt-Extends lib listen_failed (lib.listen b.grpc_port))
        λ ln_grpc.
          bind-Extends lib (attempt listen_failed (lib.listen b.http_port)) _
            (attempt-Extends lib listen_failed (lib.listen b.http_port))
            λ ln_http.
              bind-Extends lib (append_server_opts lib) _ append_server_opts-Extends λ opts.
                bind-Extends lib (effect (lib.new_server opts)) _ (effect-Extends lib _) λ srv.
                  bind-Extends lib (register_services lib fuel srv b.reg) _
                    (register_services-Extends fuel srv b.reg)
                    λ _.
                      bind-Extends lib (wire_http lib fuel b srv) _ (wire_http-Extends fuel b srv)
                        λ _.
                          bind-Extends lib (temporal lib fuel b b.temporal_client_opts) _
                            (temporal-Extends fuel b b.temporal_client_opts)
                            λ _ s. Extends-refl lib s
