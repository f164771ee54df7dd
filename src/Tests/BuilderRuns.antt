-- ===== src/Tests/BuilderRuns.antt =====
-- server/builder.go at a service, a REST controller and a Temporal activity.
use go_api_boot.Base.{
  ℕ, Str, codes, List, [], ◌∷◌, none, some, ok, err, ◌≡◌, ◌≢◌, refl, not, nat_eq, str_eq, ◌==◌,
  str_beq,
}
use go_api_boot.Retry.{
  RateLimiter, attempts, after_wait, after_attempt, retry_with_exponential_backoff,
}
use go_api_boot.Rest.{HandlerFunc, Route}
use go_api_boot.Base.Dict.{lookup, insert}
use go_api_boot.Container
use go_api_boot.Container.{
  Factory, resolve, invoke_factory, invoke, resolve_args, resolve_miss, call, memoise,
  new_container,
}
use go_api_boot.Container.Growth.{Grows}
use go_api_boot.Builder.{Builder, new}
use go_api_boot.Builder.Build.{
  Libraries, Site, BootServer, ports_not_set, build, build_from, check_ports, attempt,
  append_server_opts, effect, register_services, inject, configure_ssl, connect, dial_once, handle,
  handle_routes, handle_static, lifted, register_activities, register_controllers,
  register_workflows, start_worker, temporal, wire_http,
}
use go_api_boot.Builder.Growth.{KeepsWiring, Apart, container_of}
use go_api_boot.Builder.Wiring.{Serves, build-Serves, build-keeps}

-- A world that counts steps.
abbrev pub World : Type 0
World = List ℕ

abbrev answer : ℕ → HandlerFunc World
answer n r (w, world) = (w, n ∷ world)

abbrev rate : RateLimiter World Str
rate = record {
  Limiter = ℕ;
  new_limiter = λ d b. d;
  wait = λ l w. (ok l, l ∷ w);
  set_limit = λ l d. d;
}

abbrev users : Route World
users = record { pattern = codes "/users"; method = codes "GET"; handler = answer 7 }

abbrev pub lib : Libraries ℕ World ℕ
lib = record {
  listen = λ p w. (ok 80, w);
  chain_stream = λ is'. 1;
  chain_unary = λ is'. 2;
  new_server = λ opts w. (9, w);
  web_proxy = λ srv. answer srv;
  metrics = answer 5;
  file_server = λ dir. answer 6;
  strip_prefix = λ p h. h;
  is_pattern = λ p. not (p == codes "");
  is_conflict = λ p q. p == q;
  routes = λ v w. (users ∷ [], w);
  rate = rate;
  dial = λ opts w. (ok opts, w);
  new_worker = λ tc queue w. (tc, w);
  register_activity = λ tw v w. v ∷ w;
  register_workflow = λ tw v w. v ∷ w;
}

abbrev making : List ℕ → ℕ → Factory ℕ World
making ins v = record { ins = ins; run = λ args w. (v, w) }

abbrev bare : Builder ℕ World ℕ
bare = new [] [] (λ h. h)

abbrev pub wired : Builder ℕ World ℕ
wired = record bare {
  grpc_port = codes ":50051";
  http_port = codes ":8081";
  static_dir = codes "static";
  providers = (1, making [] 10) ∷ [];
  reg = record { register = λ srv svc w. svc ∷ w; factory = making (1 ∷ []) 20 } ∷ [];
  rest_controller_regs = making (1 ∷ []) 30 ∷ [];
  activity_regs = making [] 40 ∷ [];
  temporal_client_opts = some 3;
}

abbrev pub site : Site ℕ World ℕ
site = record { builder = wired; world = []; mux = [] }

abbrev pub served : BootServer World ℕ
served = record {
  grpc = 9;
  ln_grpc = 80;
  ln_http = 80;
  ssl_provider = none;
  temporal_worker = some 3;
  temporal_client = some 3;
}

pub run_build : (build lib 5 site).0 ≡ ok served
unfolding build build_from check_ports str_beq attempt append_server_opts effect register_services
    inject invoke_factory invoke resolve_args resolve resolve_miss lookup new
    go_api_boot.Container.provide insert configure_ssl connect dial_once handle handle_routes
    handle_static lifted register_activities register_controllers register_workflows start_worker
    temporal wire_http call memoise new_container attempts after_wait after_attempt
    retry_with_exponential_backoff
run_build = refl

run_no_ports : (build lib 5 (record site { builder = bare })).0 ≡ err ports_not_set
unfolding build build_from check_ports str_beq new
run_no_ports = refl

build-Serves_example :
    Serves lib wired 9 (build lib 5 site).1
    × (codes ":50051" ≢ codes "")
    × (codes ":8081" ≢ codes "")
build-Serves_example = build-Serves lib 5 site run_build

build-keeps_example :
    KeepsWiring wired (build lib 5 site).1.builder
    × Grows (container_of site) (container_of (build lib 5 site).1)
    × Apart (λ p q. p == q) (build lib 5 site).1.mux
build-keeps_example = build-keeps lib 5 site
