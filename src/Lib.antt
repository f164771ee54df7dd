-- ===== src/Lib.antt =====
-- go-api-boot is a framework for Go services: a builder wires services by dependency injection
-- and makes a gRPC server and an HTTP server of them, the HTTP server translates gRPC-Web, and
-- smaller packages serve authentication, environment files, uploads, retries and documents in
-- MongoDB.
--
-- The files, and the code that each is about:
--
--   Base, Strings, Http   Shared: Boolean tests, lists, Go maps, actions with errors, and the parts
--                         of Go's packages strings and net/http that the code calls.
--   Container             server/container.go and invokeFactory: `resolve` and its helpers.
--   Builder               server/builder.go: the methods of Builder; Builder.Build is Build.
--   Rest                  server/rest_controller.go: methodFilterHandler.
--   WebProxy              server/web_proxy.go, web_proxy_request.go, web_proxy_response.go.
--   Headers               server/headers.go: copyHeader and its options.
--   Retry, Upload         server/util.go: RetryWithExponentialBackoff, BufferGrpcStream.
--   Auth                  auth/auth.go: GetToken, decryptToken and the two middlewares.
--   Dotenv                dotenv/load_env.go: LoadEnv, LoadEnvFromString.
--   Cloud                 cloud/azure.go: the clients (Cloud.Lazy), blobs and secrets; Cloud.Gcp is
--                         cloud/gcp.go, and Cloud.GcpFiles makes it the cloud that Ssl uses.
--   Ssl                   server/ssl_cloud_cache.go; Ssl.Manager is ssl_manager.go and
--                         ssl_provider.go.
--   Server                server/server.go: Serve and Shutdown as moves of one state.
--   Embed                 embed: the options, and the clients in Embed.Clients.
--   Cli                   cmd/go-api-boot: bootstrap.go, templates.go, util.go; Cli.Root is main.go.
--   Config, Logger        config/boot_config.go; logger/logger.go.
--   Testutil              testutil/test_helpers.go: WithEnv and MockLogger.
--   Odm                   odm/db_model.go, index_spec.go, odm_collection.go, ensure_index.go,
--                         client.go. Odm.Abstract specifies the operations on single documents,
--                         Odm.Reliable is what they need of MongoDB, and Odm.Race is two Saves at
--                         once.
--   Tests                 Runs at concrete inputs.
--
-- How the code corresponds to the definitions: a function has the name of the Go function in
-- snake case. A Go map is an association list whose order is an order of iteration. Text is the
-- list of its code units. Code that changes state and may fail is an `Exec S E A`: the state that
-- was changed before an error is kept. `W` is the world: what user code and libraries change.
-- Libraries are arguments: the MongoDB driver, the SDKs of Azure and GCP, autocert, the embedding
-- services, the file system of the generator, jwt-go, the package rate, gRPC, Temporal, reflect;
-- so are the user's factories, handlers and models. Numbers are natural numbers; where an int64
-- can wrap, as in the delay of a retry, the remainder is written out.
--
-- How the parts interact: Build resolves the factories of services, controllers and activities in
-- the container, which works on the builder's own maps; it retries the connection to Temporal by
-- the function of Retry, and serves routes behind the filter of Rest. The web proxy copies
-- headers by the options of Headers. Auth reads its secret from the environment that Dotenv
-- fills; the clients of Embed and of MongoDB read theirs there too, and Cloud puts the secrets of
-- a vault there. Ssl.Manager retries by the function of Retry, and Server runs such a provider
-- before it serves TLS. Builder.Serving is the server that Build made, under Serve.
--
-- Bounds: `resolve` has a number of nested calls as fuel, the size of the stack; it is enough if
-- it is above the rank of the type in an order without cycles, and running out of it stands for
-- the exhausted stack of the process. `attempts` recurses on the rounds that are left, and the
-- loop of the upload on the rounds of the stream. A line of a go.mod file that is read ends at 64
-- KB, as bufio has it.
--
-- Serve is a state with moves: each goroutine of its group, Serve itself, the worker, the SSL
-- provider, the caller and an interrupt make moves in any order, so a run is a list of events.
-- The runs have no fuel: a measure bounds the moves that Serve and its goroutines can make.
--
-- Not modelled: the texts of the templates of cmd/go-api-boot. The type assertion of Adapt and
-- NewModelFrom are calls of libraries alone. Panics of user code, data races on memory and time
-- are not modelled, except that clocks and limiters are arguments, that Odm.Race interleaves the
-- calls of two Saves, and that a function under the test helper of Testutil may panic. A
-- negative limit of an upload is left out. GracefulStop and the HTTP server's Shutdown return within
-- one move: a call in progress that never ends, and the time limit of the shutdown, are left out.
pub mod Base
pub mod Strings
pub mod Http
pub mod Dotenv
pub mod Auth
pub mod Retry
pub mod Upload
pub mod Headers
pub mod WebProxy
pub mod Container
mod Tests
pub mod Rest
pub mod Builder
pub mod Odm
pub mod Cloud
pub mod Ssl
pub mod Server
pub mod Embed
pub mod Cli
pub mod Config
pub mod Logger
pub mod Testutil
