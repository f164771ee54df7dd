-- ===== src/Auth/Token.antt =====
-- Tokens carry an identity through the package `jwt-go`.
use go_api_boot.Base.{
  Str, [], true, some, Result, ok, err, ◌≡◌, inl, inr, refl, str_eq, str_beq, Bool-cases,
}
use go_api_boot.Dotenv.{Env}
use go_api_boot.Auth.{
  StandardClaims, Jwt, secret_not_set, access_secret, get_token, sign_result, decrypt_token,
}

-- A token that was signed under a secret, with no times in its claims, parses under it to those
-- claims, and is valid.
abbrev pub ParsesSigned : Jwt → Type 0
ParsesSigned jwt =
    (c : StandardClaims) (secret token : Str)
    → c.expires_at ≡ 0
    → c.issued_at ≡ 0
    → c.not_before ≡ 0
    → jwt.signed_string c secret ≡ ok token
    → jwt.parse_with_claims token secret ≡ ok (record { claims = some c; valid = true })

sign_result-ok : (r : Result Str Str) {token : Str} → sign_result r ≡ ok token → r ≡ ok token
unfolding sign_result
sign_result-ok (ok t) h = cc h
sign_result-ok (err e) h = cc h

-- For a JWT package that parses what it signed under the same secret: a token that `get_token`
-- issued is decrypted, under the same environment, to the identity that it was issued for.
pub decrypt_token-get_token :
    (jwt : Jwt) (env : Env) (tenant user_id user_type : Str) {token : Str}
    → ParsesSigned jwt
    → get_token jwt env tenant user_id user_type ≡ ok token
    → decrypt_token jwt env token
      ≡ ok (record { user_id = user_id; tenant = tenant; user_type = user_type })
unfolding get_token decrypt_token
decrypt_token-get_token jwt env tenant user_id user_type {token} law h =
    elim (Bool-cases (str_beq (access_secret env) [])) [
      | inl e ↦ cc (rw e at h)
      | inr e ↦
          rw (e, law _ (access_secret env) token refl refl refl (sign_result-ok _ (rw e at h)))
    ]

-- Without the secret, tokens are neither issued nor accepted.
pub no_secret :
    (jwt : Jwt) (env : Env) (tenant user_id user_type token : Str)
    → access_secret env ≡ []
    → (get_token jwt env tenant user_id user_type ≡ err secret_not_set)
      × (decrypt_token jwt env token ≡ err secret_not_set)
unfolding get_token decrypt_token
no_secret jwt env tenant user_id user_type token h = (rw h, rw h)
