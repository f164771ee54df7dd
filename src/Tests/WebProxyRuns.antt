-- ===== src/Tests/WebProxyRuns.antt =====
-- The gRPC-Web proxy with a gRPC server that writes two pieces and a trailer.
use go_api_boot.Base.{
  Str, codes, List, [], ◌∷◌, ◌++◌, map, true, false, some, ◌≡◌, refl, arith, str_eq, concat,
}
use go_api_boot.Strings.{has_prefix}
use go_api_boot.Http.{get_header, canonical_header_key, fresh}
use go_api_boot.WebProxy.{Call, change_header, write, flush, serve_http}
use go_api_boot.WebProxy.Base64.{encode}
use go_api_boot.WebProxy.Trailers.{trailer_header}
use go_api_boot.WebProxy.Trailers.Frame.{read_frame, read_frame-trailer_header}
use go_api_boot.WebProxy.Request.{
  Request, raw, decoded, IsGrpc, content_type_of, grpc_content_type, intercept_grpc_request,
  intercept_cases,
}
use go_api_boot.WebProxy.Writer.{underlying}
use go_api_boot.WebProxy.Kind.{message, serve_http-plain, serve_http-text}

abbrev request : Str → Request
request content_type = record {
  proto_major = 1;
  proto_minor = 1;
  header =
      (codes "Content-Type", content_type ∷ []) ∷ (codes "Content-Length", codes "7" ∷ []) ∷ [];
  body = raw (codes "AAAA");
  path = codes "/s/m";
}

abbrev binary : Request
binary = request (codes "application/grpc-web+proto")

abbrev text : Request
text = request (codes "application/grpc-web-text")

abbrev handler : Request → List Call
handler r =
    change_header (λ h. (codes "Trailer:Grpc-Status", codes "0" ∷ []) ∷ h)
    ∷ write (codes "he")
    ∷ flush
    ∷ write (codes "llo")
    ∷ []

encoded : encode (codes "hello") ≡ codes "aGVsbG8="
unfolding encode
encoded = refl

request_type : (s : Str) → content_type_of (request s) ≡ s
unfolding get_header canonical_header_key
request_type s = refl

binary-is_binary : (intercept_grpc_request binary).1 ≡ false
unfolding intercept_grpc_request get_header canonical_header_key has_prefix
binary-is_binary = refl

text-is_text : (intercept_grpc_request text).1 ≡ true
unfolding intercept_grpc_request get_header canonical_header_key has_prefix
text-is_text = refl

serve_http-plain_example :
    (underlying (serve_http handler fresh binary).wrapped).body ≡ message handler fresh binary
serve_http-plain_example = serve_http-plain handler fresh binary binary-is_binary

serve_http-text_example :
    (parts : List Str) × ((underlying (serve_http handler fresh text).wrapped).body
      ≡ concat (map encode parts))
    × (concat parts ≡ message handler fresh text)
serve_http-text_example = serve_http-text handler fresh text text-is_text

read_frame-trailer_header_example :
    read_frame (trailer_header (codes "grpc-status: 0") ++ (codes "grpc-status: 0" ++ []))
    ≡ some (128, codes "grpc-status: 0", [])
read_frame-trailer_header_example =
    read_frame-trailer_header (codes "grpc-status: 0") [] (omega arith)

intercept_cases_example :
    (IsGrpc (intercept_grpc_request text).0 (grpc_content_type ++ [])
      × ((intercept_grpc_request text).1 ≡ true)
      × ((intercept_grpc_request text).0.body ≡ decoded (codes "AAAA")))
    × (IsGrpc (intercept_grpc_request binary).0 (grpc_content_type ++ codes "+proto")
        × ((intercept_grpc_request binary).1 ≡ false)
        × ((intercept_grpc_request binary).0.body ≡ binary.body))
unfolding has_prefix
intercept_cases_example =
    intercept_cases text binary (codes "AAAA") [] (codes "+proto")
      (request_type (codes "application/grpc-web-text")) refl
      (request_type (codes "application/grpc-web+proto")) refl
