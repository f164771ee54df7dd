-- ===== src/Tests/AuthRuns.antt =====
-- auth/auth.go with a signature that is the claims' text and the secret, one after the other.
use go_api_boot.Base.{
  Str, codes, [], ◌∷◌, ◌++◌, true, none, some, Result, ok, err, ◌≡◌, ◌⊎◌, refl, ◌∙◌, arith, str_eq,
  ◌==◌, ==_refl, if◌then◌else◌, length, take, drop, take-append_length, drop-append_length,
}
use go_api_boot.Strings.{equal_fold, cut}
use go_api_boot.Http.{get_header, canonical_header_key, fresh, http_error}
use go_api_boot.Dotenv.{Env}
use go_api_boot.Auth.{
  StandardClaims, ParsedToken, Jwt, Context, Request, Handler, get_token, verify_token_http,
  verify_token_grpc, get_user_id_and_tenant, get_user_type, missing_or_malformed_token,
  invalid_token,
}
use go_api_boot.Auth.Token.{ParsesSigned}
use go_api_boot.Auth.Middleware.{PassesOn, Rejects, verify_token_http_cases, issued_token_passes}
use go_api_boot.Auth.Grpc.{IsValidToken, Reads, verify_token_grpc_cases}

-- A text behind its length.
abbrev framed : Str → Str → Str
framed s rest = length s ∷ (s ++ rest)

abbrev sign : StandardClaims → Str → Result Str Str
sign c secret = ok (framed c.audience (framed c.id (framed c.issuer (framed c.subject secret))))

abbrev unframe : Str → Str × Str
unframe [] = ([], [])
unframe (n ∷ s) = (take n s, drop n s)

abbrev claims_of : Str → Str → Str → Str → StandardClaims
claims_of audience id issuer subject = record {
  audience = audience;
  expires_at = 0;
  id = id;
  issued_at = 0;
  issuer = issuer;
  not_before = 0;
  subject = subject;
}

parse : Str → Str → Result Str ParsedToken
parse token secret =
    let (audience, t1) = unframe token in
    let (id, t2) = unframe t1 in
    let (issuer, t3) = unframe t2 in
    let (subject, signature) = unframe t3 in
    if signature == secret
    then ok (record { claims = some (claims_of audience id issuer subject); valid = true })
    else err (codes "signature is invalid")

abbrev jwt : Jwt
jwt = record { signed_string = sign; parse_with_claims = parse }

parse-sign :
    (a i s j secret : Str)
    → parse (framed a (framed i (framed s (framed j secret)))) secret
      ≡ ok (record { claims = some (claims_of a i s j); valid = true })
unfolding parse
parse-sign a i s j secret = rw (
  drop-append_length a (framed i (framed s (framed j secret))),
  drop-append_length i (framed s (framed j secret)),
  drop-append_length s (framed j secret),
  drop-append_length j secret,
  ==_refl secret,
  take-append_length a (framed i (framed s (framed j secret))),
  take-append_length i (framed s (framed j secret)),
  take-append_length s (framed j secret),
  take-append_length j secret,
)

claims-eq :
    (c : StandardClaims)
    → c.expires_at ≡ 0
    → c.issued_at ≡ 0
    → c.not_before ≡ 0
    → claims_of c.audience c.id c.issuer c.subject ≡ c
claims-eq c e i n = ground arith

jwt-ParsesSigned : ParsesSigned jwt
jwt-ParsesSigned c secret token e i n signed =
    let same : framed c.audience (framed c.id (framed c.issuer (framed c.subject secret))) ≡ token =
      cc signed in
    rw (← same) (parse-sign c.audience c.id c.issuer c.subject secret ∙ rw (claims-eq c e i n))

abbrev env : Env
env = (codes "ACCESS-SECRET", codes "k") ∷ []

abbrev token : Str
token = framed (codes "t1") (framed (codes "u1") (framed [] (framed (codes "admin") (codes "k"))))

issued : get_token jwt env (codes "t1") (codes "u1") (codes "admin") ≡ ok token
unfolding get_token
issued = refl

abbrev request : Str → Request
request authorization = record {
  header = (codes "Authorization", authorization ∷ []) ∷ [];
  context = [];
}

-- A handler that answers with the user and the tenant that it reads.
echo : Handler
echo w r =
    let (user, tenant) = get_user_id_and_tenant r.context in record w { body = user ++ tenant }

request_header : (s : Str) → get_header (request s).header (codes "Authorization") ≡ s
unfolding get_header canonical_header_key
request_header s = refl

issued_token_passes_example :
    (ctx : Context) × (verify_token_http jwt env echo fresh (request (codes "BEARER" ++ 32 ∷ token))
      ≡ echo fresh
          (record { header = (request (codes "BEARER" ++ 32 ∷ token)).header; context = ctx }))
    × (get_user_id_and_tenant ctx ≡ (codes "u1", codes "t1"))
    × (get_user_type ctx ≡ codes "admin")
unfolding equal_fold
issued_token_passes_example =
    issued_token_passes jwt env (codes "t1") (codes "u1") (codes "admin") (codes "BEARER") token
      echo fresh (request (codes "BEARER" ++ 32 ∷ token)) jwt-ParsesSigned issued refl
      (request_header (codes "BEARER" ++ 32 ∷ token))

verify_token_http_cases_example :
    PassesOn jwt env fresh (request (codes "Basic x"))
    ⊎ Rejects jwt env fresh (request (codes "Basic x"))
verify_token_http_cases_example = verify_token_http_cases jwt env fresh (request (codes "Basic x"))

basic_rejected :
    (verify_token_http jwt env echo fresh (request (codes "Basic x"))).body
    ≡ codes "missing or malformed token\n"
unfolding verify_token_http get_header canonical_header_key equal_fold cut http_error
basic_rejected = refl

verify_token_grpc_cases_example :
    ((t : Str) × (c : StandardClaims) × (new : Context) × (some token ≡ some t)
      × IsValidToken jwt env t c
      × (verify_token_grpc jwt env (λ ctx. some token) [] ≡ ok new)
      × Reads [] new c)
    ⊎ ((some token ≡ none)
        × (verify_token_grpc jwt env (λ ctx. some token) [] ≡ err missing_or_malformed_token))
    ⊎ ((t : Str) × (some token ≡ some t)
        × ((c : StandardClaims) → ¬ IsValidToken jwt env t c)
        × (verify_token_grpc jwt env (λ ctx. some token) [] ≡ err invalid_token))
verify_token_grpc_cases_example = verify_token_grpc_cases jwt env (λ ctx. some token) []
