-- ===== src/Builder/Serving.antt =====
-- The server that `Build` of server/builder.go makes, served by server/server.go.
use go_api_boot.Base.{
  ℕ, List, Bool, true, false, Option, none, some, ok, Result-cases, [], ◌||◌, ◌∙◌, ap, subst, ◌≡◌,
  inl, inr, refl, All,
}
use go_api_boot.Base.Exec.{Ensures, bind-Ensures, pure-Ensures, chain-Ensures}
use go_api_boot.Retry.{retry_with_exponential_backoff}
use go_api_boot.Retry.Success.{retry-ok}
use go_api_boot.Builder.{Builder}
use go_api_boot.Builder.Build.{
  Libraries, Site, BootServer, attempt, effect, dial_once, lifted, connect, start_worker, temporal,
  listen_failed, register_activities, register_workflows, register_services, wire_http,
  append_server_opts, check_ports, temporal_client_failed, build_from, build,
}
use go_api_boot.Server.{Serving, Event, start, is_done, is_ended}
use go_api_boot.Server.Invariant.{is_returned}
use go_api_boot.Server.Measure.{is_own}
use go_api_boot.Server.Ending.{Progresses, serve_returns, run_free, start_free}
use go_api_boot.Server.Worker.{spares_worker, worker_holds}
use go_api_boot.Server

abbrev pub is_some : {A : Type 0} → Option A → Bool
is_some none = false
is_some (some _) = true

abbrev the_none : (A : Type 0) → Option A
the_none A = none

-- Serve of this server is called; the flag is that its provider's Run waits for its context.
abbrev pub serving : {W X : Type 0} → Bool → BootServer W X → Serving
serving is_blocking server =
    start (is_some server.temporal_worker) (is_some server.ssl_provider) is_blocking

free_of :
    (before : List Event) (a b c : Bool) (s : Serving)
    → a ≡ false
    → Server.run before (start a b c) ≡ some s
    → (is_ended s.worker || s.is_interrupted) ≡ true
free_of before a b c s h x = run_free before (start a b c) x (rw h (start_free b c))

module _ {V W X : Type 0} (lib : Libraries V W X) where
  dial_once-ok :
      (opts : X) (s : W × Option X) (u : Unit {0})
      → (dial_once lib opts s).0 ≡ ok u
      → is_some (dial_once lib opts s).1.1 ≡ true
  unfolding dial_once
  dial_once-ok opts (w, tc) u x = elim (Result-cases (lib.dial opts w).0) [
    | inl (c, e) ↦ rw e refl
    | inr (v, e) ↦ cc (rw e at x)
  ]

  connect-ok :
      (opts : X) (w : W) (tc : Option X) → (connect lib opts w).0 ≡ ok tc → is_some tc ≡ true
  unfolding connect
  connect-ok opts w tc x =
      let dials = retry_with_exponential_backoff (lifted lib) 10000000000 (dial_once lib opts) 5 in
      elim (Result-cases (dials (w, none)).0) [
        | inl (u, e) ↦
            let there : is_some (dials (w, none)).1.1 ≡ true =
              retry-ok (lifted lib) 10000000000 (dial_once lib opts) (λ s. is_some s.1 ≡ true)
                (dial_once-ok opts) 5 (w, none) e in
            let same = rw e at x in cc
        | inr (v, e) ↦ cc (rw e at x)
      ]

  -- What Serve reads of the server: the worker is there if there were options for its client.
  pub record IsServed (b : Builder V W X) (server : BootServer W X) : Type 0 where
    pub worker : is_some server.temporal_worker ≡ is_some b.temporal_client_opts
    pub provider : server.ssl_provider ≡ b.ssl_provider

  connect-Ensures :
      (opts : X)
      → Ensures
          (λ tc. is_some tc ≡ true)
          (attempt {V = V} {X = X} temporal_client_failed (connect lib opts))
  unfolding attempt
  connect-Ensures opts s tc x = elim (Result-cases (connect lib opts s.world).0) [
    | inl (u, e) ↦ let same = rw e at x in let there = connect-ok opts s.world u e in cc
    | inr (v, e) ↦ cc (rw e at x)
  ]

  start_worker-is_some :
      (fuel : ℕ) (b : Builder V W X) (tc : Option X)
      → is_some tc ≡ true
      → Ensures (λ r. is_some r.0 ≡ true) (start_worker lib fuel b tc)
  unfolding start_worker
  start_worker-is_some fuel b none h = cc h
  start_worker-is_some fuel b (some tc) h =
      bind-Ensures (effect (lib.new_worker tc b.task_queue)) _ λ tw.
        bind-Ensures (register_activities lib fuel tw b.activity_regs) _ λ _.
          bind-Ensures (register_workflows lib tw b.workflow_regs) _
            λ _. pure-Ensures (λ r. is_some r.0 ≡ true) (some tw, some tc) refl

  temporal-is_some :
      (fuel : ℕ) (b : Builder V W X) (opts : Option X)
      → Ensures (λ r. is_some r.0 ≡ is_some opts) (temporal lib fuel b opts)
  unfolding temporal
  temporal-is_some fuel b none =
      pure-Ensures (λ r. is_some r.0 ≡ is_some (the_none X)) (none, none) refl
  temporal-is_some fuel b (some opts) =
      chain-Ensures (λ tc. is_some tc ≡ true) (attempt temporal_client_failed (connect lib opts)) _
        (connect-Ensures opts) (start_worker-is_some fuel b)

  build_from-IsServed :
      (fuel : ℕ) (b : Builder V W X) → Ensures (IsServed b) (build_from lib fuel b)
  unfolding build_from
  build_from-IsServed fuel b = bind-Ensures (check_ports lib b) _ λ _.
      bind-Ensures (attempt listen_failed (lib.listen b.grpc_port)) _ λ ln_grpc.
        bind-Ensures (attempt listen_failed (lib.listen b.http_port)) _ λ ln_http.
          bind-Ensures (append_server_opts lib) _ λ opts.
            bind-Ensures (effect (lib.new_server opts)) _ λ srv.
              bind-Ensures (register_services lib fuel srv b.reg) _ λ _.
                bind-Ensures (wire_http lib fuel b srv) _ λ _.
                  chain-Ensures (λ r. is_some r.0 ≡ is_some b.temporal_client_opts)
                    (temporal lib fuel b b.temporal_client_opts) _
                    (temporal-is_some fuel b b.temporal_client_opts)
                    λ r h. pure-Ensures (IsServed b) _ (record { worker = h; provider = refl })

  build-IsServed :
      (fuel : ℕ) (s : Site V W X) (server : BootServer W X)
      → (build lib fuel s).0 ≡ ok server
      → IsServed s.builder server
  unfolding build
  build-IsServed fuel s server x =
      build_from-IsServed fuel s.builder (record s { mux = [] }) server x

  -- A server that Build made of a builder without options for Temporal has no worker, and Serve of
  -- it returns: from every state in which its context is done, each run of moves of Serve's own is
  -- at most 14 moves, and Serve has either returned at the end, or a move is possible that is due
  -- and no failure, without an interrupt of the process.
  pub built_returns :
      (fuel : ℕ) (site : Site V W X) (server : BootServer W X) (is_blocking : Bool)
      (before es : List Event) (s t : Serving)
      → (build lib fuel site).0 ≡ ok server
      → site.builder.temporal_client_opts ≡ none
      → Server.run before (serving is_blocking server) ≡ some s
      → is_done s ≡ true
      → All (λ e. is_own e ≡ true) es
      → Server.run es s ≡ some t
      → Progresses es s t
  built_returns fuel site server c before es s t built plain x d o y =
      let none_there : is_some server.temporal_worker ≡ false =
        (build-IsServed fuel site server built).worker ∙ ap is_some plain in
      serve_returns (is_some server.temporal_worker) (is_some server.ssl_provider) c before es s t x
        (record {
          context = d;
          free = free_of before (is_some server.temporal_worker) _ c s none_there x;
        })
        o y

  -- A server that Build made of a builder with options for Temporal has a worker: Serve of it does
  -- not return as long as the process is not interrupted and the worker does not fail, whatever else
  -- happens, and whatever the builder's SSL provider is.
  pub built_holds :
      (fuel : ℕ) (site : Site V W X) (server : BootServer W X) (opts : X) (is_blocking : Bool)
      (es : List Event) (t : Serving)
      → (build lib fuel site).0 ≡ ok server
      → site.builder.temporal_client_opts ≡ some opts
      → All (λ e. spares_worker e ≡ true) es
      → Server.run es (serving is_blocking server) ≡ some t
      → is_returned t.place ≡ false
  built_holds fuel site server opts c es t built there o x =
      let worker : is_some server.temporal_worker ≡ true =
        (build-IsServed fuel site server built).worker ∙ ap is_some there in
      worker_holds (is_some server.ssl_provider) c es t o
        (subst (λ b. Server.run es (start b (is_some server.ssl_provider) c) ≡ some t) worker x)
