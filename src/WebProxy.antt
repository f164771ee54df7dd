-- ===== src/WebProxy.antt =====
-- server/web_proxy.go: gRPC-Web requests are handed to the gRPC server as gRPC, and its responses
-- are sent as gRPC-Web. The gRPC server is a function from the request to the calls that it makes
-- on its response writer.
pub mod Base64
pub mod Trailers
pub mod Request
pub mod Writer
pub mod Body
pub mod Kind
use go_api_boot.Base.{ℕ, Str, List, [], ◌∷◌, ◌++◌, map, codes}
use go_api_boot.Base.Dict.{Dict}
use go_api_boot.Http.{Header, Response}
use Request.{intercept_grpc_request}
use Writer
use Writer.{WebProxyResponse, get_web_proxy_response, finish_request}

-- A call on the response writer.
pub data Call : Type 0 where
  -- w.Header() is changed.
  change_header : (Header → Header) → Call
  write : Str → Call
  write_header : ℕ → Call
  flush : Call

unfoldable pub perform : Call → WebProxyResponse → WebProxyResponse
unfolding Writer.write Writer.write_header Writer.flush
perform (change_header f) w = record w { headers = f w.headers }
perform (write bytes) w = Writer.write bytes w
perform (write_header code) w = Writer.write_header code w
perform flush w = Writer.flush w

unfoldable pub perform_all : List Call → WebProxyResponse → WebProxyResponse
unfolding perform
perform_all [] w = w
perform_all (c ∷ cs) w = perform_all cs (perform c w)

-- WebProxy.ServeHTTP
unfoldable pub serve_http :
    (Request.Request → List Call) → Response → Request.Request → WebProxyResponse
serve_http handler resp req =
    let (grpc_req, is_text) = intercept_grpc_request req in
    finish_request (perform_all (handler grpc_req) (get_web_proxy_response resp is_text))

abbrev resources_of : Str × List Str → List Str
resources_of (service, methods) = map (λ m. codes "/" ++ (service ++ (codes "/" ++ m))) methods

-- listGRPCResources, from the methods of each service of server.GetServiceInfo()
unfoldable pub list_grpc_resources : Dict Str (List Str) → List Str
list_grpc_resources [] = []
list_grpc_resources (info ∷ infos) = resources_of info ++ list_grpc_resources infos
