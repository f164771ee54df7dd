-- ===== src/WebProxy/Request.antt =====
-- interceptGrpcRequest of server/web_proxy_request.go.
use go_api_boot.Base.{
  ℕ, Str, codes, [], ◌∷◌, ◌++◌, Bool, true, false, if◌then◌else◌, ◌==◌, str_eq, str_beq,
  str_beq_iff, ◌≡◌, refl, subst, ◌∙◌, arith,
}
use go_api_boot.Base.Dict.{lookup-erase, lookup-insert_self}
use go_api_boot.Strings.{has_prefix, replace}
use go_api_boot.Strings.Search.{has_prefix-append, replace-append}
use go_api_boot.Http.{Header, canonical_header_key, get_header, set_header, del_header}

abbrev pub grpc_content_type : Str
grpc_content_type = codes "application/grpc"

abbrev pub grpc_web_content_type : Str
grpc_web_content_type = codes "application/grpc-web"

abbrev pub grpc_web_text_content_type : Str
grpc_web_text_content_type = codes "application/grpc-web-text"

-- A request's body: as it arrives, or read through a base64 decoder.
pub data Body : Type 0 where
  raw : Str → Body
  decoded : Str → Body

pub record Request : Type 0 where
  pub proto_major : ℕ
  pub proto_minor : ℕ
  pub header : Header
  pub body : Body
  pub path : Str

abbrev encoded : Body → Str
encoded (raw b) = b
encoded (decoded b) = b

-- The request that the gRPC server sees, and whether the body is text.
unfoldable pub intercept_grpc_request : Request → Request × Bool
intercept_grpc_request r =
    let content_type = get_header r.header (codes "content-type") in
    let is_text = has_prefix content_type grpc_web_text_content_type in
    let incoming = if is_text then grpc_web_text_content_type else grpc_web_content_type in
    let h =
      set_header r.header (codes "content-type")
        (replace content_type incoming grpc_content_type) in
    (
      record r {
        proto_major = 2;
        proto_minor = 0;
        header = del_header h (codes "content-length");
        body = if is_text then decoded (encoded r.body) else r.body;
      },
      is_text,
    )

abbrev pub content_type_of : Request → Str
content_type_of r = get_header r.header (codes "content-type")

get-set_header : (h : Header) (k v : Str) → get_header (set_header h k v) k ≡ v
unfolding get_header set_header
get-set_header h k v = rw (lookup-insert_self (canonical_header_key k) (v ∷ []) h)

get-del_header_ne :
    (h : Header) (k j : Str)
    → (canonical_header_key k == canonical_header_key j) ≡ false
    → get_header (del_header h k) j ≡ get_header h j
unfolding get_header del_header
get-del_header_ne h k j e = rw (lookup-erase (canonical_header_key k) (canonical_header_key j) h, e)

get-del_header_self : (h : Header) (k : Str) → get_header (del_header h k) k ≡ []
unfolding get_header del_header
get-del_header_self h k =
    rw (lookup-erase (canonical_header_key k) (canonical_header_key k) h)
      (ground (arith, str_beq_iff (canonical_header_key k) (canonical_header_key k)))

content_type_kept :
    (h : Header) (v : Str)
    → get_header
        (del_header (set_header h (codes "content-type") v) (codes "content-length"))
        (codes "content-type")
      ≡ v
unfolding canonical_header_key
content_type_kept h v =
    get-del_header_ne (set_header h (codes "content-type") v) (codes "content-length")
      (codes "content-type") (unfold str_beq in refl)
    ∙ get-set_header h (codes "content-type") v

-- What the gRPC server sees: HTTP/2, no content length, and this content type.
pub record IsGrpc (r : Request) (content_type : Str) : Type 0 where
  pub major : r.proto_major ≡ 2
  pub minor : r.proto_minor ≡ 0
  pub length_gone : get_header r.header (codes "content-length") ≡ []
  pub typed : content_type_of r ≡ content_type

intercept-IsGrpc :
    (r : Request)
    → IsGrpc (intercept_grpc_request r).0 (
        replace
          (content_type_of r)
          (if has_prefix (content_type_of r) grpc_web_text_content_type
            then grpc_web_text_content_type
            else grpc_web_content_type)
          grpc_content_type)
unfolding intercept_grpc_request
intercept-IsGrpc r = record {
  major = refl;
  minor = refl;
  length_gone = get-del_header_self _ (codes "content-length");
  typed = content_type_kept r.header _;
}

-- A request whose content type begins with `application/grpc-web-text` is text: its body is read
-- through a base64 decoder, and its content type becomes `application/grpc` with the same suffix.
intercept_text :
    (r : Request) (b suffix : Str)
    → content_type_of r ≡ grpc_web_text_content_type ++ suffix
    → r.body ≡ raw b
    → IsGrpc (intercept_grpc_request r).0 (grpc_content_type ++ suffix)
      × ((intercept_grpc_request r).1 ≡ true)
      × ((intercept_grpc_request r).0.body ≡ decoded b)
intercept_text r b suffix e f =
    let p : has_prefix (content_type_of r) grpc_web_text_content_type ≡ true =
      rw e (has_prefix-append grpc_web_text_content_type suffix) in
    (
      subst (IsGrpc (intercept_grpc_request r).0)
          (rw p (rw e (replace-append grpc_web_text_content_type grpc_content_type suffix)))
          (intercept-IsGrpc r),
      unfold intercept_grpc_request in p,
      unfold intercept_grpc_request in rw (p, f),
    )

-- A request with any other content type that begins with `application/grpc-web` keeps its body, and
-- its content type becomes `application/grpc` with the same suffix.
intercept_binary :
    (r : Request) (suffix : Str)
    → content_type_of r ≡ grpc_web_content_type ++ suffix
    → has_prefix suffix (codes "-text") ≡ false
    → IsGrpc (intercept_grpc_request r).0 (grpc_content_type ++ suffix)
      × ((intercept_grpc_request r).1 ≡ false)
      × ((intercept_grpc_request r).0.body ≡ r.body)
intercept_binary r suffix e n =
    let p : has_prefix (content_type_of r) grpc_web_text_content_type ≡ false =
      rw e (unfold has_prefix in n) in
    (
      subst (IsGrpc (intercept_grpc_request r).0)
          (rw p (rw e (replace-append grpc_web_content_type grpc_content_type suffix)))
          (intercept-IsGrpc r),
      unfold intercept_grpc_request in p,
      unfold intercept_grpc_request in rw p,
    )

-- A request whose content type begins with `application/grpc-web` comes to the gRPC server as
-- HTTP/2 without a length, of the type `application/grpc` with the same suffix: with its body behind
-- a base64 decoder, and known as text, if the type goes on with `-text`, and with its own body if
-- not.
pub intercept_cases :
    (r q : Request) (b suffix other : Str)
    → content_type_of r ≡ grpc_web_text_content_type ++ suffix
    → r.body ≡ raw b
    → content_type_of q ≡ grpc_web_content_type ++ other
    → has_prefix other (codes "-text") ≡ false
    → (IsGrpc (intercept_grpc_request r).0 (grpc_content_type ++ suffix)
        × ((intercept_grpc_request r).1 ≡ true)
        × ((intercept_grpc_request r).0.body ≡ decoded b))
      × (IsGrpc (intercept_grpc_request q).0 (grpc_content_type ++ other)
          × ((intercept_grpc_request q).1 ≡ false)
          × ((intercept_grpc_request q).0.body ≡ q.body))
intercept_cases r q b suffix other e f g n =
    (intercept_text r b suffix e f, intercept_binary q other g n)
