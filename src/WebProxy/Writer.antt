-- ===== src/WebProxy/Writer.antt =====
-- The two response writers of server/web_proxy_response.go.
use go_api_boot.Base.{ℕ, Str, codes, [], ◌∷◌, ◌++◌, Bool, true, false, ◌||◌, if◌then◌else◌}
use go_api_boot.Strings.{join}
use go_api_boot.Http
use go_api_boot.Http.{Header, set_header, canonical_header_key, Response}
use go_api_boot.Headers.{
  copy_header, header_keys, skip_keys, replace_in_keys, replace_in_vals, key_case,
}
use go_api_boot.WebProxy.Base64.{encoder_write, encoder_close}
use go_api_boot.WebProxy.Trailers.{
  trailer_prefix, extract_trailing_headers, trailer_header, write_headers,
}
use go_api_boot.WebProxy.Request.{
  grpc_content_type, grpc_web_content_type, grpc_web_text_content_type,
}

-- The writer under the proxy's: the server's own, or a base64ResponseWriter around it, with the
-- bytes that its encoder keeps.
pub data Wrapped : Type 0 where
  plain : Response → Wrapped
  base64 : Str → Response → Wrapped

-- newBase64ResponseWriter
unfoldable pub new_base64_response_writer : Response → Wrapped
new_base64_response_writer r = base64 [] r

abbrev pub underlying : Wrapped → Response
underlying (plain r) = r
underlying (base64 _ r) = r

-- w.Header(), which callers change in place
unfoldable pub wrapped_header : Wrapped → Header
wrapped_header w = (underlying w).header

unfoldable pub put_header : Header → Wrapped → Wrapped
put_header h (plain r) = plain (record r { header = h })
put_header h (base64 kept r) = base64 kept (record r { header = h })

-- An encoder writes only when it has characters to write.
unfoldable pub emit : Str → Response → Response
unfolding Http.write
emit [] r = r
emit (c ∷ s) r = Http.write (c ∷ s) r

-- wrapped.Write(bytes)
unfoldable pub wrapped_write : Str → Wrapped → Wrapped
unfolding emit encoder_write Http.write
wrapped_write bytes (plain r) = plain (Http.write bytes r)
wrapped_write bytes (base64 kept r) =
    let (out, kept') = encoder_write kept bytes in base64 kept' (emit out r)

-- wrapped.WriteHeader(code)
unfoldable pub wrapped_write_header : ℕ → Wrapped → Wrapped
unfolding Http.write_header
wrapped_write_header code (plain r) = plain (Http.write_header code r)
wrapped_write_header code (base64 kept r) = base64 kept (Http.write_header code r)

-- flushWriter(wrapped): the server's writer sends its header; the other one closes its encoder,
-- starts a new one and flushes the server's.
unfoldable pub flush_writer : Wrapped → Wrapped
unfolding emit encoder_close Http.write_header
flush_writer (plain r) = plain (Http.write_header 200 r)
flush_writer (base64 kept r) = base64 [] (Http.write_header 200 (emit (encoder_close kept) r))

pub record WebProxyResponse : Type 0 where
  pub wrote_headers : Bool
  pub wrote_body : Bool
  pub headers : Header
  pub wrapped : Wrapped
  pub content_type : Str

unfoldable pub get_web_proxy_response : Response → Bool → WebProxyResponse
unfolding new_base64_response_writer
get_web_proxy_response resp is_text = record {
  wrote_headers = false;
  wrote_body = false;
  headers = [];
  wrapped = if is_text then new_base64_response_writer resp else plain resp;
  content_type = if is_text then grpc_web_text_content_type else grpc_web_content_type;
}

-- The header of the wrapped writer, from what it was and the header of the gRPC response.
unfoldable pub prepared : Header → Header → Str → Header
unfolding copy_header skip_keys replace_in_keys replace_in_vals key_case set_header header_keys join
prepared wh headers content_type =
    let h = copy_header wh headers (
      skip_keys (codes "trailer" ∷ [])
      ∷ replace_in_keys trailer_prefix []
      ∷ replace_in_vals (codes "content-type") grpc_content_type content_type
      ∷ key_case canonical_header_key
      ∷ []) in
    let ks = header_keys h ++ codes "grpc-status" ∷ codes "grpc-message" ∷ [] in
    set_header h (codes "access-control-expose-headers") (join ks (codes ", "))

unfoldable pub prepare_headers : WebProxyResponse → WebProxyResponse
unfolding prepared put_header wrapped_header
prepare_headers w = record w {
  wrapped = put_header (prepared (wrapped_header w.wrapped) w.headers w.content_type) w.wrapped;
}

unfoldable pub write : Str → WebProxyResponse → WebProxyResponse
unfolding prepare_headers wrapped_write
write bytes w =
    let w' = if w.wrote_headers then w else prepare_headers w in
    record w' { wrote_headers = true; wrote_body = true; wrapped = wrapped_write bytes w'.wrapped }

unfoldable pub write_header : ℕ → WebProxyResponse → WebProxyResponse
unfolding prepare_headers wrapped_write_header
write_header code w =
    let w' = prepare_headers w in
    record w' { wrote_headers = true; wrapped = wrapped_write_header code w'.wrapped }

unfoldable pub flush : WebProxyResponse → WebProxyResponse
unfolding flush_writer
flush w =
    if w.wrote_headers || w.wrote_body then record w { wrapped = flush_writer w.wrapped } else w

-- The payload of the trailer frame.
unfoldable pub trailer_payload : WebProxyResponse → Str
unfolding extract_trailing_headers write_headers wrapped_header
trailer_payload w = write_headers (extract_trailing_headers w.headers (wrapped_header w.wrapped))

unfoldable pub copy_trailers_to_payload : WebProxyResponse → WebProxyResponse
unfolding trailer_payload trailer_header wrapped_write flush_writer
copy_trailers_to_payload w =
    let payload = trailer_payload w in
    let framed = wrapped_write payload (wrapped_write (trailer_header payload) w.wrapped) in
    record w { wrapped = flush_writer framed }

unfoldable pub finish_request : WebProxyResponse → WebProxyResponse
unfolding copy_trailers_to_payload write_header flush_writer
finish_request w =
    if w.wrote_headers || w.wrote_body
    then copy_trailers_to_payload w
    else let w' = write_header 200 w in record w' { wrapped = flush_writer w'.wrapped }
