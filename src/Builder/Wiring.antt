-- ===== src/Builder/Wiring.antt =====
-- What `Build` promises: the fixed patterns are served, and nothing that was wired is lost.
use go_api_boot.Base.{
  ℕ, Str, codes, List, [], ◌∷◌, ◌++◌, Result, ok, ◌≡◌, ◌≢◌, sym, subst, Bool-cases, inl, inr, ◌==◌,
  ==_iff, str_eq, nat_eq,
}
use go_api_boot.Base.Exec.{continue, continue-ok}
use go_api_boot.Rest.{HandlerFunc}
use go_api_boot.Container.Growth.{Grows}
use go_api_boot.Builder.{Builder}
use go_api_boot.Builder.Build.{
  Libraries, Site, BuildError, BootServer, Building, effect, attempt, handle, listen_failed,
  register_services, temporal, append_server_opts, check_ports, wire_http, build_from, build,
  health, any_conflict,
}
use go_api_boot.Builder.Growth.{KeepsWiring, handle-Extends, Apart, empty, container_of, Extends}
use go_api_boot.Builder.Steps.{wire_rest, wire_rest-Extends, build_from-Extends, temporal-Extends}

-- The handler is registered under the pattern.
pub data Handles {W : Type 0} (p : Str) (h : HandlerFunc W)
    : List (Str × HandlerFunc W) → Type 0 where
  here : {mux : List (Str × HandlerFunc W)} → Handles p h ((p, h) ∷ mux)
  there :
      {e : Str × HandlerFunc W} {mux : List (Str × HandlerFunc W)}
      → Handles p h mux
      → Handles p h (e ∷ mux)

module _ {W : Type 0} {p : Str} {h : HandlerFunc W} where
  Handles-left :
      {xs : List (Str × HandlerFunc W)} (ys : List (Str × HandlerFunc W))
      → Handles p h xs
      → Handles p h (xs ++ ys)
  Handles-left ys here = here
  Handles-left ys (there m) = there (Handles-left ys m)

  Handles-right :
      (xs : List (Str × HandlerFunc W)) {ys : List (Str × HandlerFunc W)}
      → Handles p h ys
      → Handles p h (xs ++ ys)
  Handles-right [] m = m
  Handles-right (x ∷ xs) m = there (Handles-right xs m)

module _ {V W X : Type 0} (lib : Libraries V W X) where
  -- Handlers stay registered when the site is extended.
  Extends-Handles :
      {s t : Site V W X} {p : Str} {h : HandlerFunc W}
      → Extends lib s t
      → Handles p h s.mux
      → Handles p h t.mux
  Extends-Handles {p} {h} e m = subst (Handles p h) (sym e.same) (Handles-left e.added m)

  handle-Handles :
      (p : Str) (h : HandlerFunc W) (s : Site V W X) {u : Unit {0}}
      → (handle lib p h s).0 ≡ ok u
      → Handles p h (handle lib p h s).1.mux
  unfolding handle
  handle-Handles p h s x = elim (Bool-cases (lib.is_pattern p)) [
    | inl v ↦ elim (Bool-cases (any_conflict lib.is_conflict p s.mux)) [
      | inl e ↦ cc (rw (v, e) at x)
      | inr e ↦ rw (v, e) (Handles-right s.mux here)
    ]
    | inr v ↦ cc x
  ]

  -- What the multiplexer serves when `Build` returns.
  pub record Serves (b : Builder V W X) (srv : X) (t : Site V W X) : Type 0 where
    pub api : Handles (codes "/api") (b.cors_handler (lib.web_proxy srv)) t.mux
    pub metrics_page : Handles (codes "/metrics") lib.metrics t.mux
    pub health_page : Handles (codes "/health") (health lib) t.mux

  Extends-Serves :
      (b : Builder V W X) (srv : X) {s t : Site V W X}
      → Extends lib s t
      → Serves b srv s
      → Serves b srv t
  Extends-Serves b srv e g = record {
    api = Extends-Handles e g.api;
    metrics_page = Extends-Handles e g.metrics_page;
    health_page = Extends-Handles e g.health_page;
  }

  -- A block that returned: what holds behind its second part holds behind the block.
  behind :
      {A B : Type 0} (Q : Site V W X → Type 0) (m : Building V W X A) (f : A → Building V W X B)
      (s : Site V W X) {b : B}
      → (continue (m s).0 f (m s).1).0 ≡ ok b
      → ((a : A) → (m s).0 ≡ ok a → (f a (m s).1).0 ≡ ok b → Q (f a (m s).1).1)
      → Q (continue (m s).0 f (m s).1).1
  behind Q m f s x h =
      let (a, e, y) = continue-ok (m s).0 f (m s).1 x in
      subst (λ r. Q (continue r f (m s).1).1) (sym e) (h a e y)

  wire_http-Serves :
      (fuel : ℕ) (b : Builder V W X) (srv : X) (s : Site V W X) {u : Unit {0}}
      → (wire_http lib fuel b srv s).0 ≡ ok u
      → Serves b srv (wire_http lib fuel b srv s).1
  unfolding wire_http wire_rest
  wire_http-Serves fuel b srv s x =
      let api = handle lib (codes "/api") (b.cors_handler (lib.web_proxy srv)) in
      let metrics = handle lib (codes "/metrics") lib.metrics in
      let health_ = handle lib (codes "/health") (health lib) in
      behind (Serves b srv) api _ s x λ _ e1 x1.
        behind (Serves b srv) metrics _ (api s).1 x1 λ _ e2 x2.
          behind (Serves b srv) health_ _ (metrics (api s).1).1 x2 λ _ e3 x3.
            Extends-Serves b srv (wire_rest-Extends lib fuel b (health_ (metrics (api s).1).1).1)
              (record {
                api =
                    Extends-Handles
                      (handle-Extends lib (codes "/health") (health lib) (metrics (api s).1).1)
                      (Extends-Handles (handle-Extends lib (codes "/metrics") lib.metrics (api s).1)
                        (handle-Handles (codes "/api") _ s e1));
                metrics_page =
                    Extends-Handles
                      (handle-Extends lib (codes "/health") (health lib) (metrics (api s).1).1)
                      (handle-Handles (codes "/metrics") _ (api s).1 e2);
                health_page = handle-Handles (codes "/health") _ (metrics (api s).1).1 e3;
              })

  check_ports-ok :
      (b : Builder V W X) (s : Site V W X) {u : Unit {0}}
      → (check_ports lib b s).0 ≡ ok u
      → (b.grpc_port ≢ codes "") × (b.http_port ≢ codes "")
  unfolding check_ports
  check_ports-ok b s x = elim (Bool-cases (b.grpc_port == codes "")) [
    | inl e ↦ cc (rw e at x)
    | inr e ↦ elim (Bool-cases (b.http_port == codes "")) [
      | inl f ↦ cc (rw (e, f) at x)
      | inr f ↦ (
        (λ same. cc (e, (==_iff b.grpc_port (codes "")).1 same)),
        (λ same. cc (f, (==_iff b.http_port (codes "")).1 same)),
      )
    ]
  ]

  abbrev the_ok : BootServer W X → Result BuildError (BootServer W X)
  the_ok server = ok server

  grpc_of :
      {server server' : BootServer W X} → the_ok server ≡ ok server' → server.grpc ≡ server'.grpc
  grpc_of x = cc x

  build_from-Serves :
      (fuel : ℕ) (b : Builder V W X) (s : Site V W X) {server : BootServer W X}
      → (build_from lib fuel b s).0 ≡ ok server
      → Serves b server.grpc (build_from lib fuel b s).1
        × (b.grpc_port ≢ codes "")
        × (b.http_port ≢ codes "")
  unfolding build_from
  build_from-Serves fuel b s {server} x0 =
      let Q : Site V W X → Type 0 =
        λ t. Serves b server.grpc t × (b.grpc_port ≢ codes "") × (b.http_port ≢ codes "") in
      let m1 = check_ports lib b in
      let m2 = attempt listen_failed (lib.listen b.grpc_port) in
      let m3 = attempt listen_failed (lib.listen b.http_port) in
      let m4 = append_server_opts lib in
      let s1 = (m1 s).1 in
      let s2 = (m2 s1).1 in
      let s3 = (m3 s2).1 in
      let s4 = (m4 s3).1 in
      behind Q m1 _ s x0 λ _ e1 x1. behind Q m2 _ s1 x1 λ _ _ x2. behind Q m3 _ s2 x2 λ _ _ x3.
        behind Q m4 _ s3 x3 λ opts _ x4. behind Q (effect (lib.new_server opts)) _ s4 x4 λ srv _ x5.
          let s5 = (effect (lib.new_server opts) s4).1 in
          let m6 = register_services lib fuel srv b.reg in
          behind Q m6 _ s5 x5 λ _ _ x6.
            let s6 = (m6 s5).1 in
            let m7 = wire_http lib fuel b srv in
            behind Q m7 _ s6 x6 λ _ e7 x7.
              let s7 = (m7 s6).1 in
              let m8 = temporal lib fuel b b.temporal_client_opts in
              behind Q m8 _ s7 x7 λ _ _ x8. (
                subst (λ g. Serves b g (m8 s7).1) (grpc_of x8)
                    (Extends-Serves b srv (temporal-Extends lib fuel b b.temporal_client_opts s7)
                      (wire_http-Serves fuel b srv s6 e7)),
                (check_ports-ok b s e1).0,
                (check_ports-ok b s e1).1,
              )

  -- When `Build` returns, both ports were set, and the multiplexer hands `/api` to the gRPC-Web
  -- proxy of the gRPC server behind the CORS handler, `/metrics` to the handler for metrics and
  -- `/health` to the health check.
  pub build-Serves :
      (fuel : ℕ) (s : Site V W X) {server : BootServer W X}
      → (build lib fuel s).0 ≡ ok server
      → Serves s.builder server.grpc (build lib fuel s).1
        × (s.builder.grpc_port ≢ codes "")
        × (s.builder.http_port ≢ codes "")
  unfolding build
  build-Serves fuel s x = build_from-Serves fuel s.builder (record s { mux = [] }) x

  -- Whether `Build` returns or fails, at whichever step: the builder has every port, directory,
  -- interceptor, registration, controller, activity, workflow and option that was wired, and its
  -- server options are those it had with more behind them; every provider is kept, so is the value of
  -- each type that was provided or memoised, and no two registered patterns conflict.
  pub build-keeps :
      (fuel : ℕ) (s : Site V W X)
      → KeepsWiring s.builder (build lib fuel s).1.builder
        × Grows (container_of s) (container_of (build lib fuel s).1)
        × Apart lib.is_conflict (build lib fuel s).1.mux
  unfolding build container_of
  build-keeps fuel s =
      let e = build_from-Extends lib fuel s.builder (record s { mux = [] }) in
      (e.wiring, e.grows, e.apart empty)
