-- ===== src/Auth.antt =====
-- auth/auth.go: tokens, the HTTP and gRPC middleware, and the claims in a request's context.
pub mod Token
pub mod Middleware
pub mod Grpc
use go_api_boot.Base.{
  ℕ, Str, codes, List, [], ◌∷◌, Bool, true, false, ◌&&◌, ◌||◌, not, Option, none, some, Result, ok,
  err, ◌==◌, nat_eq, str_eq, str_beq, if◌then◌else◌,
}
use go_api_boot.Base.Dict.{lookup}
use go_api_boot.Strings.{cut, equal_fold}
use go_api_boot.Http.{Header, get_header, Response, http_error}
use go_api_boot.Dotenv.{Env}

-- jwt.StandardClaims
pub record StandardClaims : Type 0 where
  pub audience : Str
  pub expires_at : ℕ
  pub id : Str
  pub issued_at : ℕ
  pub issuer : Str
  pub not_before : ℕ
  pub subject : Str

-- What the program reads of a *jwt.Token: the claims, if they have the type that it asked for.
pub record ParsedToken : Type 0 where
  pub claims : Option StandardClaims
  pub valid : Bool

-- The package `jwt-go`: signing with HS256 under a secret, and parsing a token under one.
pub record Jwt : Type 0 where
  pub signed_string : StandardClaims → Str → Result Str Str
  pub parse_with_claims : Str → Str → Result Str ParsedToken

pub data AuthError : Type 0 where
  secret_not_set : AuthError
  failed_reading_claims : AuthError
  jwt_error : Str → AuthError

-- userId, tenant, userType
pub record Identity : Type 0 where
  pub user_id : Str
  pub tenant : Str
  pub user_type : Str

-- os.Getenv(key)
unfoldable pub getenv : Env → Str → Str
unfolding lookup str_beq
getenv env key = elim (lookup key env) [ none ↦ [] | some v ↦ v ]

unfoldable pub access_secret : Env → Str
unfolding getenv
access_secret env = getenv env (codes "ACCESS-SECRET")

sign_result : Result Str Str → Result AuthError Str
sign_result (ok token) = ok token
sign_result (err e) = err (jwt_error e)

-- GetToken
unfoldable pub get_token : Jwt → Env → Str → Str → Str → Result AuthError Str
unfolding access_secret sign_result str_beq
get_token jwt env tenant user_id user_type =
    let claims : StandardClaims = record {
      audience = tenant;
      expires_at = 0;
      id = user_id;
      issued_at = 0;
      issuer = [];
      not_before = 0;
      subject = user_type;
    } in
    if access_secret env == []
    then err secret_not_set
    else sign_result (jwt.signed_string claims (access_secret env))

abbrev read_claims : Option StandardClaims → Bool → Result AuthError Identity
read_claims none valid = err failed_reading_claims
read_claims (some c) false = err failed_reading_claims
read_claims (some c) true =
    ok (record { user_id = c.id; tenant = c.audience; user_type = c.subject })

parse_result : Result Str ParsedToken → Result AuthError Identity
parse_result (err e) = err (jwt_error e)
parse_result (ok t) = read_claims t.claims t.valid

-- decryptToken
unfoldable pub decrypt_token : Jwt → Env → Str → Result AuthError Identity
unfolding access_secret parse_result str_beq
decrypt_token jwt env token =
    if access_secret env == []
    then err secret_not_set
    else parse_result (jwt.parse_with_claims token (access_secret env))

-- The keys of a context: the three of type `Claims`, and those of other packages.
pub data Key : Type 0 where
  user_id_claim tenant_claim user_type_claim : Key
  foreign : ℕ → Key

-- A value in a context: a string, or one of another type.
pub data Value : Type 0 where
  string : Str → Value
  other : ℕ → Value

-- A context.Context as the values put into it, the last one first.
abbrev pub Context : Type 0
Context = List (Key × Value)

unfoldable pub same_key : Key → Key → Bool
same_key user_id_claim user_id_claim = true
same_key tenant_claim tenant_claim = true
same_key user_type_claim user_type_claim = true
same_key (foreign a) (foreign b) = a == b
same_key _ _ = false

-- context.WithValue(ctx, key, value)
unfoldable pub with_value : Context → Key → Value → Context
with_value ctx key value = (key, value) ∷ ctx

-- ctx.Value(key)
unfoldable pub value_of : Context → Key → Option Value
unfolding same_key
value_of [] key = none
value_of ((k, v) ∷ ctx) key = if same_key k key then some v else value_of ctx key

-- s, ok := v.(string), with the empty string if not ok
unfoldable pub as_string : Option Value → Str
as_string (some (string s)) = s
as_string _ = []

-- GetUserIdAndTenant
unfoldable pub get_user_id_and_tenant : Context → Str × Str
unfolding value_of as_string
get_user_id_and_tenant ctx =
    (as_string (value_of ctx user_id_claim), as_string (value_of ctx tenant_claim))

-- GetUserType
unfoldable pub get_user_type : Context → Str
unfolding value_of as_string
get_user_type ctx = as_string (value_of ctx user_type_claim)

-- The three values that both middlewares put into the context.
unfoldable pub with_identity : Context → Identity → Context
unfolding with_value
with_identity ctx i =
    let c1 = with_value ctx user_id_claim (string i.user_id) in
    let c2 = with_value c1 tenant_claim (string i.tenant) in
    with_value c2 user_type_claim (string i.user_type)

-- status.Error(codes.Unauthenticated, message)
pub data Unauthenticated : Type 0 where
  missing_or_malformed_token invalid_token : Unauthenticated

grpc_identity : Context → Result AuthError Identity → Result Unauthenticated Context
grpc_identity ctx (err e) = err invalid_token
grpc_identity ctx (ok i) = ok (with_identity ctx i)

-- VerifyTokenGrpcMiddleware; `auth_from_md` is grpc_auth.AuthFromMD(ctx, "bearer").
unfoldable pub verify_token_grpc :
    Jwt → Env → (Context → Option Str) → Context → Result Unauthenticated Context
unfolding grpc_identity
verify_token_grpc jwt env auth_from_md ctx = elim (auth_from_md ctx) [
  | none ↦ err missing_or_malformed_token
  | some token ↦ grpc_identity ctx (decrypt_token jwt env token)
]

-- A request, as far as the middleware sees it.
pub record Request : Type 0 where
  pub header : Header
  pub context : Context

abbrev pub Handler : Type 0
Handler = Response → Request → Response

abbrev pub unauthorized : Str → Response → Response
unauthorized message w = http_error message 401 w

http_identity : Handler → Response → Request → Result AuthError Identity → Response
http_identity next w r (err e) = unauthorized (codes "invalid token") w
http_identity next w r (ok i) = next w (record r { context = with_identity r.context i })

-- The parts of strings.SplitN(authHeader, " ", 2), if there are two.
http_splits : Jwt → Env → Handler → Response → Request → Option (Str × Str) → Response
http_splits jwt env next w r none = unauthorized (codes "missing or malformed token") w
http_splits jwt env next w r (some (scheme, token)) =
    if equal_fold scheme (codes "bearer")
    then http_identity next w r (decrypt_token jwt env token)
    else unauthorized (codes "missing or malformed token") w

-- VerifyTokenHttpMiddleware
unfoldable pub verify_token_http : Jwt → Env → Handler → Handler
unfolding http_identity http_splits
verify_token_http jwt env next w r =
    let auth_header = get_header r.header (codes "Authorization") in
    if auth_header == []
    then unauthorized (codes "missing or malformed token") w
    else http_splits jwt env next w r (cut auth_header (codes " "))
