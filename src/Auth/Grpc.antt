-- ===== src/Auth/Grpc.antt =====
-- VerifyTokenGrpcMiddleware of auth/auth.go: which calls it lets through, in terms of the package
-- `jwt-go`, and what a handler then reads.
use go_api_boot.Base.{
  ℕ, Str, [], Bool, true, false, Option, none, some, Option-cases, Result-cases, ok, err, ◌≡◌, ◌≢◌,
  ◌⊎◌, inl, inr, refl, nat_eq, str_eq, str_beq, str_beq_iff, Bool-cases,
}
use go_api_boot.Dotenv.{Env}
use go_api_boot.Auth.{
  StandardClaims, ParsedToken, Jwt, AuthError, Identity, access_secret, secret_not_set, jwt_error,
  failed_reading_claims, decrypt_token, parse_result, Context, foreign, value_of,
  get_user_id_and_tenant, get_user_type, with_identity, missing_or_malformed_token, invalid_token,
  grpc_identity, verify_token_grpc,
}

-- A secret is set, the JWT package parses the token under it to these claims, and says that the
-- token is valid.
pub record IsValidToken (jwt : Jwt) (env : Env) (token : Str) (c : StandardClaims) : Type 0 where
  pub secret : access_secret env ≢ []
  pub parsed : ParsedToken
  pub parses : jwt.parse_with_claims token (access_secret env) ≡ ok parsed
  pub claims : parsed.claims ≡ some c
  pub valid : parsed.valid ≡ true

-- What is read of the context: the claims, and what was there under the keys of other packages.
pub record Reads (ctx new : Context) (c : StandardClaims) : Type 0 where
  pub user_and_tenant : get_user_id_and_tenant new ≡ (c.id, c.audience)
  pub user_type : get_user_type new ≡ c.subject
  pub others : (n : ℕ) → value_of new (foreign n) ≡ value_of ctx (foreign n)

abbrev identity : StandardClaims → Identity
identity c = record { user_id = c.id; tenant = c.audience; user_type = c.subject }

with_identity-Reads :
    (ctx : Context) (c : StandardClaims) → Reads ctx (with_identity ctx (identity c)) c
unfolding get_user_id_and_tenant get_user_type with_identity value_of
with_identity-Reads ctx c = record { user_and_tenant = refl; user_type = refl; others = λ n. refl }

module _ (jwt : Jwt) (env : Env) (token : Str) where
  -- A token decrypts exactly if it is valid.
  abbrev Decrypts : Type 0
  Decrypts =
      ((c : StandardClaims) × IsValidToken jwt env token c
        × (decrypt_token jwt env token ≡ ok (identity c)))
      ⊎ ((e : AuthError) × (decrypt_token jwt env token ≡ err e)
          × ((c : StandardClaims) → IsValidToken jwt env token c → ⊥))

  parsed-Decrypts :
      (t : ParsedToken) (o : Option StandardClaims) (valid : Bool)
      → str_beq (access_secret env) [] ≡ false
      → jwt.parse_with_claims token (access_secret env) ≡ ok t
      → t.claims ≡ o
      → t.valid ≡ valid
      → Decrypts
  unfolding decrypt_token parse_result
  parsed-Decrypts t none valid s p hc hv =
      inr (failed_reading_claims, rw (s, p, hc) refl, λ c h. cc (p, h.parses, hc, h.claims))
  parsed-Decrypts t (some c) false s p hc hv =
      inr (failed_reading_claims, rw (s, p, hc, hv) refl, λ d h. cc (p, h.parses, hv, h.valid))
  parsed-Decrypts t (some c) true s p hc hv = inl (
    c,
    record {
      secret = λ e. cc (s, (str_beq_iff (access_secret env) []).1 e);
      parsed = t;
      parses = p;
      claims = hc;
      valid = hv;
    },
    rw (s, p, hc, hv) refl,
  )

  decrypt_token-Decrypts : Decrypts
  unfolding decrypt_token parse_result
  decrypt_token-Decrypts = elim (Bool-cases (str_beq (access_secret env) [])) [
    | inl s ↦
        inr (secret_not_set, rw s refl, λ c h. h.secret ((str_beq_iff (access_secret env) []).0 s))
    | inr s ↦ elim (Result-cases (jwt.parse_with_claims token (access_secret env))) [
      | inl (t, p) ↦ parsed-Decrypts t t.claims t.valid s p refl refl
      | inr (e, p) ↦ inr (jwt_error e, rw (s, p) refl, λ c h. cc (p, h.parses))
    ]
  ]

-- The gRPC middleware lets a call through if the metadata has a token that the JWT package takes for
-- valid under the environment's secret, and then a handler reads the claims of the token as the user,
-- the tenant and the user's type, and what other packages put into the context as before; every other
-- call is refused, with one error if there is no token, and with the other if it is not valid.
pub verify_token_grpc_cases :
    (jwt : Jwt) (env : Env) (auth_from_md : Context → Option Str) (ctx : Context)
    → ((token : Str) × (c : StandardClaims) × (new : Context) × (auth_from_md ctx ≡ some token)
        × IsValidToken jwt env token c
        × (verify_token_grpc jwt env auth_from_md ctx ≡ ok new)
        × Reads ctx new c)
      ⊎ ((auth_from_md ctx ≡ none)
          × (verify_token_grpc jwt env auth_from_md ctx ≡ err missing_or_malformed_token))
      ⊎ ((token : Str) × (auth_from_md ctx ≡ some token)
          × ((c : StandardClaims) → ¬ IsValidToken jwt env token c)
          × (verify_token_grpc jwt env auth_from_md ctx ≡ err invalid_token))
unfolding verify_token_grpc grpc_identity
verify_token_grpc_cases jwt env auth_from_md ctx = elim (Option-cases (auth_from_md ctx)) [
  | inl e ↦ inr (inl (e, rw (e, verify_token_grpc)))
  | inr (token, e) ↦ elim (decrypt_token-Decrypts jwt env token) [
    | inl (c, valid, d) ↦ inl (
      token,
      c,
      with_identity ctx (identity c),
      e,
      valid,
      rw (e, verify_token_grpc) (rw (d, grpc_identity)),
      with_identity-Reads ctx c,
    )
    | inr (x, d, n) ↦ inr (inr (token, e, n, rw (e, verify_token_grpc) (rw (d, grpc_identity))))
  ]
]
