-- ===== src/Builder.antt =====
-- The `Builder` of server/builder.go: what is wired by its methods. `V` are the values of `reflect`,
-- `W` is the world, and `X` are values of libraries: interceptors, options, servers, listeners.
pub mod Build
pub mod Wiring
pub mod Serving
pub mod Provided
pub mod Growth
pub mod Steps
use go_api_boot.Base.{
  ℕ, zero, suc, Str, codes, List, [], ◌∷◌, ◌++◌, Bool, true, false, not, Option, none, some, Result,
  ok, err, nat_eq, if◌then◌else◌,
}
use go_api_boot.Base.Dict.{Dict, insert}
use go_api_boot.Base.Exec.{Exec}
use go_api_boot.Container.{Factory}
use go_api_boot.Rest.{HandlerFunc}

-- An argument of type `any`: a function, with the types of its results, or another value.
pub data Any (V W : Type 0) : Type 0 where
  func : List ℕ → Factory V W → Any V W
  value : V → Any V W

-- register adds a service to the gRPC server, by generated code.
pub record Registration (V W X : Type 0) : Type 0 where
  pub register : X → V → W → W
  pub factory : Factory V W

pub record SslProvider (W X : Type 0) : Type 0 where
  pub configure : Exec W Str (Unit {0})
  pub run : X

pub record Builder (V W X : Type 0) : Type 0 where
  pub grpc_port : Str
  pub http_port : Str
  pub static_dir : Str
  pub ssl_provider : Option (SslProvider W X)
  pub unary_interceptors : List X
  pub stream_interceptors : List X
  pub cors_handler : HandlerFunc W → HandlerFunc W
  pub singletons : Dict ℕ V
  pub providers : Dict ℕ (Factory V W)
  pub reg : List (Registration V W X)
  pub rest_controller_regs : List (Factory V W)
  pub server_opts : List X
  pub task_queue : Str
  pub activity_regs : List (Factory V W)
  pub workflow_regs : List V
  pub temporal_client_opts : Option X

-- The end of a wiring method that does not return.
pub data WiringFault : Type 0 where
  -- logger.Fatal ends the process.
  fatal : Str → WiringFault
  -- A panic of `reflect`.
  panic : WiringFault

-- What `reflect` says of types.
pub record Reflect (V W : Type 0) : Type 0 where
  pub type_of : Any V W → ℕ
  pub value_of : Any V W → V
  pub is_implementing : ℕ → ℕ → Bool
  -- reflect.TypeOf((*RestController)(nil)).Elem()
  pub rest_controller : ℕ

module _ {V W X : Type 0} where
  -- New(), with the interceptors for tags, logs and authentication, and cors.AllowAll()
  unfoldable pub new : List X → List X → (HandlerFunc W → HandlerFunc W) → Builder V W X
  new unary_interceptors stream_interceptors allow_all = record {
    grpc_port = [];
    http_port = [];
    static_dir = [];
    ssl_provider = none;
    unary_interceptors = unary_interceptors;
    stream_interceptors = stream_interceptors;
    cors_handler = allow_all;
    singletons = [];
    providers = [];
    reg = [];
    rest_controller_regs = [];
    server_opts = [];
    task_queue = [];
    activity_regs = [];
    workflow_regs = [];
    temporal_client_opts = none;
  }

  -- GRPCPort
  unfoldable pub with_grpc_port : Str → Builder V W X → Builder V W X
  with_grpc_port a b = record b { grpc_port = a }

  -- HTTPPort
  unfoldable pub with_http_port : Str → Builder V W X → Builder V W X
  with_http_port a b = record b { http_port = a }

  -- StaticDir
  unfoldable pub with_static_dir : Str → Builder V W X → Builder V W X
  with_static_dir a b = record b { static_dir = a }

  -- EnableSSL
  unfoldable pub enable_ssl : SslProvider W X → Builder V W X → Builder V W X
  enable_ssl p b = record b { ssl_provider = some p }

  -- Unary
  unfoldable pub unary : List X → Builder V W X → Builder V W X
  unary i b = record b { unary_interceptors = b.unary_interceptors ++ i }

  -- Stream
  unfoldable pub stream : List X → Builder V W X → Builder V W X
  stream i b = record b { stream_interceptors = b.stream_interceptors ++ i }

  -- CORS
  unfoldable pub cors : (HandlerFunc W → HandlerFunc W) → Builder V W X → Builder V W X
  cors c b = record b { cors_handler = c }

  -- ApplySettings
  unfoldable pub apply_settings : List X → Builder V W X → Builder V W X
  apply_settings opts b = record b { server_opts = b.server_opts ++ opts }

  -- WithTemporal: the options may be nil.
  unfoldable pub with_temporal : Str → Option X → Builder V W X → Builder V W X
  with_temporal task_queue opts b = record b {
    task_queue = task_queue;
    temporal_client_opts = opts;
  }

  abbrev controllers :
      Reflect V W → List ℕ → Factory V W → Builder V W X → Result WiringFault (Builder V W X)
  controllers types [] f b = err panic
  controllers types (out ∷ _) f b =
      if types.is_implementing out types.rest_controller
      then ok (record b { rest_controller_regs = b.rest_controller_regs ++ f ∷ [] })
      else err (fatal (codes "factory must return a type implementing RestController"))

  -- AddRestController
  unfoldable pub add_rest_controller :
      Reflect V W → Any V W → Builder V W X → Result WiringFault (Builder V W X)
  add_rest_controller types (value _) b =
      err (fatal (codes "AddRestController expects a factory function"))
  add_rest_controller types (func outs f) b = controllers types outs f b

  -- RegisterTemporalWorkflow
  unfoldable pub register_temporal_workflow :
      Option V → Builder V W X → Result WiringFault (Builder V W X)
  register_temporal_workflow none b =
      err (fatal (codes "temporal workflow factory must not be nil"))
  register_temporal_workflow (some w) b =
      ok (record b { workflow_regs = b.workflow_regs ++ w ∷ [] })

  -- RegisterTemporalActivity
  unfoldable pub register_temporal_activity :
      Any V W → Builder V W X → Result WiringFault (Builder V W X)
  register_temporal_activity (value _) b =
      err (fatal (codes "activity receiver factory must be a func"))
  register_temporal_activity (func _ f) b =
      ok (record b { activity_regs = b.activity_regs ++ f ∷ [] })

  -- Provide
  unfoldable pub provide : Reflect V W → Any V W → Builder V W X → Builder V W X
  provide types a b = record b {
    singletons = insert (types.type_of a) (types.value_of a) b.singletons;
  }

  -- ProvideAs, with the interface that ifacePtr points to, if it is a pointer
  unfoldable pub provide_as :
      Reflect V W → Any V W → Option ℕ → Builder V W X → Result WiringFault (Builder V W X)
  provide_as types a none b = err panic
  provide_as types a (some iface) b =
      if not (types.is_implementing (types.type_of a) iface)
      then err (fatal (codes "Provided value does not implement the given interface"))
      else ok (record b { singletons = insert iface (types.value_of a) b.singletons })

  -- ProvideFunc: the first result is the type that the function makes.
  unfoldable pub provide_func : Any V W → Builder V W X → Result WiringFault (Builder V W X)
  provide_func (value _) b = err (fatal (codes "ProvideFunc expects a function"))
  provide_func (func [] f) b = err panic
  provide_func (func (out ∷ _) f) b = ok (record b { providers = insert out f b.providers })

  -- RegisterService
  unfoldable pub register_service :
      (X → V → W → W) → Any V W → Builder V W X → Result WiringFault (Builder V W X)
  register_service register (value _) b = err (fatal (codes "factory must be a function"))
  register_service register (func _ f) b =
      ok (record b { reg = b.reg ++ record { register = register; factory = f } ∷ [] })
