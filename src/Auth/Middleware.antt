-- ===== src/Auth/Middleware.antt =====
-- Which requests the middleware lets through, and what the handler then reads of the context.
use go_api_boot.Base.{
  ℕ, Str, codes, [], ◌∷◌, ◌++◌, true, false, Option, none, some, Result-cases, ok, ◌≡◌, ◌≢◌, ◌⊎◌,
  inl, inr, refl, arith, nat_eq, str_eq, str_beq, str_beq_iff, Bool-cases, All,
}
use go_api_boot.Strings.{cut, equal_fold, lower, to_lower}
use go_api_boot.Strings.Search.{cut_spells, cut-Lacks}
use go_api_boot.Http.{get_header, Response}
use go_api_boot.Dotenv.{Env}
use go_api_boot.Auth.{
  Jwt, Identity, decrypt_token, get_token, Context, get_user_id_and_tenant, get_user_type,
  with_identity, Request, Handler, unauthorized, http_identity, http_splits, verify_token_http,
}
use go_api_boot.Auth.Token.{ParsesSigned, decrypt_token-get_token}

-- A handler behind the middleware reads back the identity of the token.
pub get-with_identity :
    (ctx : Context) (i : Identity)
    → (get_user_id_and_tenant (with_identity ctx i) ≡ (i.user_id, i.tenant))
      × (get_user_type (with_identity ctx i) ≡ i.user_type)
unfolding get_user_id_and_tenant get_user_type with_identity
get-with_identity ctx i = (refl, refl)

-- The header is the scheme `bearer`, in any case, a space and the token.
pub record Bearer (auth_header token : Str) : Type 0 where
  pub scheme : Str
  pub spelled : auth_header ≡ scheme ++ codes " " ++ token
  pub is_bearer : equal_fold scheme (codes "bearer") ≡ true

-- The middleware passes the request on, with the identity of a valid bearer token.
pub record PassesOn (jwt : Jwt) (env : Env) (w : Response) (r : Request) : Type 0 where
  pub token : Str
  pub identity : Identity
  pub bearer : Bearer (get_header r.header (codes "Authorization")) token
  pub decrypted : decrypt_token jwt env token ≡ ok identity
  pub passes :
      (next : Handler)
      → verify_token_http jwt env next w r
        ≡ next w (record r { context = with_identity r.context identity })

-- The middleware answers itself, and the handler is not called.
pub record Rejects (jwt : Jwt) (env : Env) (w : Response) (r : Request) : Type 0 where
  pub message : Str
  pub rejects : (next : Handler) → verify_token_http jwt env next w r ≡ unauthorized message w

module _ (jwt : Jwt) (env : Env) (w : Response) (r : Request) where
  abbrev auth_header : Str
  auth_header = get_header r.header (codes "Authorization")

  http_identity_cases :
      (scheme token : Str)
      → auth_header ≡ scheme ++ codes " " ++ token
      → equal_fold scheme (codes "bearer") ≡ true
      → ((next : Handler)
          → verify_token_http jwt env next w r
            ≡ http_identity next w r (decrypt_token jwt env token))
      → PassesOn jwt env w r ⊎ Rejects jwt env w r
  unfolding http_identity
  http_identity_cases scheme token spelled is_bearer step =
      elim (Result-cases (decrypt_token jwt env token)) [
        | inl (i, e) ↦ inl (record {
          token = token;
          identity = i;
          bearer = record { scheme = scheme; spelled = spelled; is_bearer = is_bearer };
          decrypted = e;
          passes = λ next. rw (step next) (rw (e, http_identity));
        })
        | inr (x, e) ↦ inr (record {
          message = codes "invalid token";
          rejects = λ next. rw (step next) (rw (e, http_identity));
        })
      ]

  http_splits_cases :
      (o : Option (Str × Str))
      → cut auth_header (codes " ") ≡ o
      → ((next : Handler) → verify_token_http jwt env next w r ≡ http_splits jwt env next w r o)
      → PassesOn jwt env w r ⊎ Rejects jwt env w r
  unfolding http_splits
  http_splits_cases none found step =
      inr (record { message = codes "missing or malformed token"; rejects = step })
  http_splits_cases (some (scheme, token)) found step =
      elim (Bool-cases (equal_fold scheme (codes "bearer"))) [
        | inl e ↦
            http_identity_cases scheme token (cut_spells auth_header (codes " ") found) e
              λ next. rw (step next) (rw e)
        | inr e ↦ inr (record {
          message = codes "missing or malformed token";
          rejects = λ next. rw (step next) (rw e);
        })
      ]

  -- The HTTP middleware passes a request on only with a bearer token that decrypts, and then with
  -- the identity of the token in the context; any other request is answered with the status 401,
  -- and the handler is not called.
  pub verify_token_http_cases : PassesOn jwt env w r ⊎ Rejects jwt env w r
  unfolding verify_token_http
  verify_token_http_cases = elim (Bool-cases (str_beq auth_header [])) [
    | inl e ↦ inr (record { message = codes "missing or malformed token"; rejects = λ next. rw e })
    | inr e ↦ http_splits_cases (cut auth_header (codes " ")) refl λ next. rw e
  ]

lower-eq_space : (c : ℕ) → lower c ≢ 32 → c ≢ 32
unfolding lower
lower-eq_space c h e = h (rw e)

Lacks-to_lower : (s : Str) → All (λ c. c ≢ 32) (to_lower s) → All (λ c. c ≢ 32) s
unfolding to_lower
Lacks-to_lower [] h = tt
Lacks-to_lower (c ∷ s) (hc, h) = (lower-eq_space c hc, Lacks-to_lower s h)

bearer-Lacks : (scheme : Str) → equal_fold scheme (codes "bearer") ≡ true → All (λ c. c ≢ 32) scheme
unfolding equal_fold
bearer-Lacks scheme h = Lacks-to_lower scheme (
    rw ((str_beq_iff (to_lower scheme) (to_lower (codes "bearer"))).0 h)
      (unfold to_lower in omega arith))

append-ne-nil : (s : Str) (c : ℕ) (t : Str) → str_beq (s ++ c ∷ t) [] ≡ false
unfolding str_beq
append-ne-nil [] c t = refl
append-ne-nil (d ∷ s) c t = refl

-- For a JWT package that parses what it signed under the same secret: a token that was issued under
-- the environment's secret opens the HTTP middleware, in an Authorization header with the scheme
-- `bearer` in any case: the handler is called, and reads the identity of the token.
pub issued_token_passes :
    (jwt : Jwt) (env : Env) (tenant user_id user_type scheme token : Str) (next : Handler)
    (w : Response) (r : Request)
    → ParsesSigned jwt
    → get_token jwt env tenant user_id user_type ≡ ok token
    → equal_fold scheme (codes "bearer") ≡ true
    → get_header r.header (codes "Authorization") ≡ scheme ++ 32 ∷ token
    → (ctx : Context) × (verify_token_http jwt env next w r ≡ next w (record r { context = ctx }))
      × (get_user_id_and_tenant ctx ≡ (user_id, tenant))
      × (get_user_type ctx ≡ user_type)
unfolding verify_token_http http_splits http_identity
issued_token_passes jwt env tenant user_id user_type scheme token next w r law issued bearer
      header =
    let i : Identity = record { user_id = user_id; tenant = tenant; user_type = user_type } in
    (
      with_identity r.context i,
      rw (
        header,
        append-ne-nil scheme 32 token,
        cut-Lacks 32 scheme token (bearer-Lacks scheme bearer),
        bearer,
        decrypt_token-get_token jwt env tenant user_id user_type law issued,
      ),
      (get-with_identity r.context i).0,
      (get-with_identity r.context i).1,
    )
