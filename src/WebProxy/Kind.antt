-- ===== src/WebProxy/Kind.antt =====
-- The proxy's writer encodes from the first call to the last, or never; so the body that the client
-- receives has one form.
use go_api_boot.Base.{
  ℕ, Str, List, [], ◌∷◌, ◌++◌, map, Bool, true, false, Bool-cases, inl, inr, concat, ◌≡◌, refl, sym,
  subst, ◌∙◌, append-nil,
}
use go_api_boot.Http
use go_api_boot.Http.{Response, get_header}
use go_api_boot.WebProxy.{
  Call, change_header, write, write_header, flush, perform, perform_all, serve_http,
}
use go_api_boot.WebProxy.Base64.{encode, full_groups}
use go_api_boot.WebProxy.Request.{Request, intercept_grpc_request}
use go_api_boot.WebProxy.Writer
use go_api_boot.WebProxy.Writer.{
  Wrapped, plain, base64, underlying, put_header, wrapped_write, wrapped_write_header, flush_writer,
  WebProxyResponse, prepare_headers, new_base64_response_writer, copy_trailers_to_payload,
  finish_request, get_web_proxy_response,
}
use go_api_boot.WebProxy.Body.{
  Carries, Flushed, is_encoding, started, any_starts, written, trailer_frame, Carries-perform_all,
  started-perform_all, finish_request-Flushed,
}

is_encoding-put_header :
    (w : Wrapped) (h : Http.Header) → is_encoding (put_header h w) ≡ is_encoding w
unfolding put_header
is_encoding-put_header (plain r) h = refl
is_encoding-put_header (base64 kept r) h = refl

is_encoding-wrapped_write :
    (w : Wrapped) (b : Str) → is_encoding (wrapped_write b w) ≡ is_encoding w
unfolding wrapped_write
is_encoding-wrapped_write (plain r) b = refl
is_encoding-wrapped_write (base64 kept r) b = refl

is_encoding-wrapped_write_header :
    (w : Wrapped) (code : ℕ) → is_encoding (wrapped_write_header code w) ≡ is_encoding w
unfolding wrapped_write_header
is_encoding-wrapped_write_header (plain r) code = refl
is_encoding-wrapped_write_header (base64 kept r) code = refl

is_encoding-flush_writer : (w : Wrapped) → is_encoding (flush_writer w) ≡ is_encoding w
unfolding flush_writer
is_encoding-flush_writer (plain r) = refl
is_encoding-flush_writer (base64 kept r) = refl

is_encoding-prepare_headers :
    (w : WebProxyResponse) → is_encoding (prepare_headers w).wrapped ≡ is_encoding w.wrapped
unfolding prepare_headers
is_encoding-prepare_headers w = is_encoding-put_header w.wrapped _

is_encoding-Writer-write_header :
    (code : ℕ) (w : WebProxyResponse)
    → is_encoding (Writer.write_header code w).wrapped ≡ is_encoding w.wrapped
unfolding Writer.write_header
is_encoding-Writer-write_header code w =
    is_encoding-wrapped_write_header (prepare_headers w).wrapped code
    ∙ is_encoding-prepare_headers w

is_encoding-perform :
    (c : Call) (w : WebProxyResponse) → is_encoding (perform c w).wrapped ≡ is_encoding w.wrapped
unfolding perform Writer.write Writer.flush
is_encoding-perform (change_header f) w = refl
is_encoding-perform (write b) w = elim (Bool-cases w.wrote_headers) [
  | inl e ↦ rw e (is_encoding-wrapped_write w.wrapped b)
  | inr e ↦
      rw e (is_encoding-wrapped_write (prepare_headers w).wrapped b ∙ is_encoding-prepare_headers w)
]
is_encoding-perform (write_header code) w = is_encoding-Writer-write_header code w
is_encoding-perform flush w = elim (Bool-cases (started w)) [
  | inl e ↦ rw e (is_encoding-flush_writer w.wrapped)
  | inr e ↦ rw e
]

is_encoding-perform_all :
    (cs : List Call) (w : WebProxyResponse)
    → is_encoding (perform_all cs w).wrapped ≡ is_encoding w.wrapped
unfolding perform_all
is_encoding-perform_all [] w = refl
is_encoding-perform_all (c ∷ cs) w =
    is_encoding-perform_all cs (perform c w) ∙ is_encoding-perform c w

is_encoding-finish_request :
    (w : WebProxyResponse) → is_encoding (finish_request w).wrapped ≡ is_encoding w.wrapped
unfolding finish_request copy_trailers_to_payload
is_encoding-finish_request w = elim (Bool-cases (started w)) [
  | inl e ↦ rw e (
      is_encoding-flush_writer _
      ∙ is_encoding-wrapped_write _ _
      ∙ is_encoding-wrapped_write w.wrapped _)
  | inr e ↦ rw e (is_encoding-flush_writer _ ∙ is_encoding-Writer-write_header 200 w)
]

get_web_proxy_response-Carries :
    (resp : Response) (b : Bool) → Carries resp.body (get_web_proxy_response resp b).wrapped []
unfolding get_web_proxy_response new_base64_response_writer full_groups
get_web_proxy_response-Carries resp true = record {
  parts = [];
  current = [];
  body = sym (append-nil resp.body);
  pending = refl;
  spelled = refl;
}
get_web_proxy_response-Carries resp false = sym (append-nil resp.body)

is_encoding-get_web_proxy_response :
    (resp : Response) (b : Bool) → is_encoding (get_web_proxy_response resp b).wrapped ≡ b
unfolding get_web_proxy_response new_base64_response_writer
is_encoding-get_web_proxy_response resp true = refl
is_encoding-get_web_proxy_response resp false = refl

started-get_web_proxy_response :
    (resp : Response) (b : Bool) → started (get_web_proxy_response resp b) ≡ false
unfolding get_web_proxy_response
started-get_web_proxy_response resp b = refl

Flushed-plain :
    (base : Str) (w : Wrapped) (bytes : Str)
    → is_encoding w ≡ false
    → Flushed base w bytes
    → (underlying w).body ≡ base ++ bytes
unfolding Flushed
Flushed-plain base (plain r) bytes e h = h
Flushed-plain base (base64 kept r) bytes e h = cc e

Flushed-base64 :
    (base : Str) (w : Wrapped) (bytes : Str)
    → is_encoding w ≡ true
    → Flushed base w bytes
    → (parts : List Str) × ((underlying w).body ≡ base ++ concat (map encode parts))
      × (concat parts ≡ bytes)
unfolding Flushed
Flushed-base64 base (plain r) bytes e h = cc e
Flushed-base64 base (base64 kept r) bytes e (parts, k, b, s) = (parts, b, sym s)

module _ (handler : Request → List Call) (resp : Response) (req : Request) where
  -- The request is gRPC-Web text.
  abbrev pub is_text : Bool
  is_text = (intercept_grpc_request req).1

  abbrev pub calls : List Call
  calls = handler (intercept_grpc_request req).0

  -- The proxy's writer when the gRPC server has returned.
  abbrev pub served : WebProxyResponse
  served = perform_all calls (get_web_proxy_response resp is_text)

  -- What the gRPC server wrote, and the trailer frame if it wrote or sent a header.
  abbrev pub message : Str
  message = written calls ++ trailer_frame (any_starts calls) served

  started-served : started served ≡ any_starts calls
  started-served =
      started-perform_all calls (get_web_proxy_response resp is_text)
      ∙ rw (started-get_web_proxy_response resp is_text)

  serve_http-Flushed : Flushed resp.body (serve_http handler resp req).wrapped message
  unfolding serve_http
  serve_http-Flushed =
      subst
        (λ b.
          Flushed resp.body (finish_request served).wrapped
            (written calls ++ trailer_frame b served))
        started-served
        (finish_request-Flushed resp.body served (written calls) (
          Carries-perform_all resp.body calls (get_web_proxy_response resp is_text) []
            (get_web_proxy_response-Carries resp is_text)))

  is_encoding-serve_http : is_encoding (serve_http handler resp req).wrapped ≡ is_text
  unfolding serve_http
  is_encoding-serve_http =
      is_encoding-finish_request served
      ∙ is_encoding-perform_all calls (get_web_proxy_response resp is_text)
      ∙ is_encoding-get_web_proxy_response resp is_text

  -- The answer to a binary gRPC-Web request is, behind what was there before, all that the gRPC
  -- server wrote and, if it wrote or sent a header, the trailer frame.
  pub serve_http-plain :
      is_text ≡ false
      → (underlying (serve_http handler resp req).wrapped).body ≡ resp.body ++ message
  serve_http-plain e =
      Flushed-plain resp.body _ message (is_encoding-serve_http ∙ e) serve_http-Flushed

  -- The answer to a gRPC-Web text request is, behind what was there before, all that the gRPC
  -- server wrote and, if it wrote or sent a header, the trailer frame, cut into parts that are
  -- base64 encoded one by one.
  pub serve_http-text :
      is_text ≡ true
      → (parts : List Str) × ((underlying (serve_http handler resp req).wrapped).body
          ≡ resp.body ++ concat (map encode parts))
        × (concat parts ≡ message)
  serve_http-text e =
      Flushed-base64 resp.body _ message (is_encoding-serve_http ∙ e) serve_http-Flushed
