-- ===== src/Cloud/GcpSecrets.antt =====
-- LoadSecretsIntoEnv of cloud/gcp.go: under which names the secrets are found.
use go_api_boot.Base.{
  Str, codes, List, [], ◌∷◌, ◌++◌, map, false, some, Result, ok, err, ◌≡◌, ◌≢◌, refl, arith, All,
  nat_eq, str_eq, str_beq, str_beq_iff,
}
use go_api_boot.Base.Dict.{lookup, insert, lookup-insert, lookup-insert_self}
use go_api_boot.Strings.{after_last}
use go_api_boot.Strings.Split.{Lacks}
use go_api_boot.Strings.Last.{after_last-append}
use go_api_boot.Dotenv.{Env, setenv}
use go_api_boot.Dotenv.Lines.{has_char-Lacks}
use go_api_boot.Cloud.Gcp.{
  Gcp, GcpSdk, load_names, load_secret, load_all, set_secret, ensure_secrets, load_project,
  load_secrets_into_env, on_client,
}

-- A name that an environment variable and the last part of a secret's name can have.
pub record IsVariable (key : Str) : Type 0 where
  pub nonempty : key ≢ []
  pub no_slash : Lacks b'/' key
  pub no_equals : Lacks b'=' key
  pub no_nul : Lacks 0 key

setenv-IsVariable :
    (key value : Str) (env : Env)
    → IsVariable key
    → Lacks 0 value
    → setenv key value env ≡ insert key value env
unfolding setenv
setenv-IsVariable key value env k v = ground (
  arith,
  str_beq_iff key [],
  k.nonempty,
  has_char-Lacks b'=' key k.no_equals,
  has_char-Lacks 0 key k.no_nul,
  has_char-Lacks 0 value v,
)

-- Setting a variable leaves the others.
setenv_other :
    (key other value : Str) (env : Env)
    → other ≢ key
    → lookup key (setenv other value env) ≡ lookup key env
unfolding setenv
setenv_other key other value env h =
    ground (arith, lookup-insert other key value env, str_beq_iff other key)

str_beq-differs : (s t : Str) → s ≢ t → str_beq s t ≡ false
str_beq-differs s t h = ground (arith, str_beq_iff s t)

module _ {W S B D R : Type 0} (sdk : GcpSdk W S B D R) (s : S) where
  -- The names, each listed without an error.
  abbrev pub all_listed : List Str → List (Result Str Str)
  all_listed = map ok

  load_names-append :
      (xs ys : List Str) (e : Env × W)
      → load_names sdk s (all_listed (xs ++ ys)) e
        ≡ load_names sdk s (all_listed ys) (load_names sdk s (all_listed xs) e).1
  unfolding load_names
  load_names-append [] ys e = refl
  load_names-append (x ∷ xs) ys e = load_names-append xs ys (load_secret sdk s x e)

  set_secret_other :
      (key name : Str) (r : Result Str Str) (env : Env)
      → after_last b'/' name ≢ key
      → lookup key (set_secret sdk name r env) ≡ lookup key env
  unfolding set_secret
  set_secret_other key name (ok v) env h = setenv_other key (after_last b'/' name) v env h
  set_secret_other key name (err x) env h = refl

  load_names_other :
      (key : Str) (names : List Str) (e : Env × W)
      → All (λ n. after_last b'/' n ≢ key) names
      → ((load_names sdk s (all_listed names) e).0 ≡ ok tt)
        × (lookup key (load_names sdk s (all_listed names) e).1.0 ≡ lookup key e.0)
  unfolding load_names load_secret
  load_names_other key [] e h = (refl, refl)
  load_names_other key (n ∷ names) (env, w) (hn, h) =
      let (done, found) = load_names_other key names (load_secret sdk s n (env, w)) h in
      (done, rw found (set_secret_other key n _ env hn))

  -- Reading one more secret, and then secrets of other names.
  load_names_found :
      (key value dir : Str) (after : List Str) (e : Env × W)
      → IsVariable key
      → Lacks 0 value
      → All (λ n. after_last b'/' n ≢ key) after
      → (sdk.access_secret_version s ((dir ++ b'/' ∷ key) ++ codes "/versions/latest") e.1).0
        ≡ ok value
      → ((load_names sdk s (all_listed ((dir ++ b'/' ∷ key) ∷ after)) e).0 ≡ ok tt)
        × (lookup key (load_names sdk s (all_listed ((dir ++ b'/' ∷ key) ∷ after)) e).1.0
            ≡ some value)
  unfolding load_names load_secret set_secret
  load_names_found key value dir after (env, w) k v h x =
      let (done, found) =
        load_names_other key after (load_secret sdk s (dir ++ b'/' ∷ key) (env, w)) h in
      (
        done,
        rw
            (
              found,
              x,
              after_last-append b'/' dir key k.no_slash,
              setenv-IsVariable key value env k v,
            )
            (lookup-insert_self key value env),
      )

  load_all-lookup :
      (g : Gcp W S B) (key value dir : Str) (before after : List Str) (w : W)
      → IsVariable key
      → Lacks 0 value
      → All (λ n. after_last b'/' n ≢ key) after
      → sdk.list_secrets s (codes "projects/" ++ g.gcp_project_id) g.world
        ≡ (all_listed (before ++ (dir ++ b'/' ∷ key) ∷ after), w)
      → (sdk.access_secret_version s
          ((dir ++ b'/' ∷ key) ++ codes "/versions/latest")
          (load_names sdk s (all_listed before) (g.env, w)).1.1).0
        ≡ ok value
      → ((load_all sdk s g).0 ≡ ok tt) × (lookup key (load_all sdk s g).1.env ≡ some value)
  unfolding load_all
  load_all-lookup g key value dir before after w k v h listing x =
      let e = (load_names sdk s (all_listed before) (g.env, w)).1 in
      let (done, found) = load_names_found key value dir after e k v h x in
      rw (listing, load_names-append before ((dir ++ b'/' ∷ key) ∷ after) (g.env, w), done)
        (refl, found)

  -- LoadSecretsIntoEnv, with a project and a client `s` behind ensure_secrets: the secret `dir/KEY`
  -- of the listing that is read without an error is found in the environment under `KEY` once the
  -- secrets are loaded, whatever secrets come before it, readable or not, if no later one of the
  -- listing has the same last part; and the loading succeeds. `KEY` is a name that a variable can
  -- have, without a slash, and the value holds no NUL.
  pub load_secrets_into_env-lookup :
      (g0 g : Gcp W S B) (key value dir : Str) (before after : List Str) (w : W)
      → ensure_secrets sdk g0 ≡ (ok tt, g)
      → g.secrets.client ≡ some s
      → g.gcp_project_id ≢ []
      → IsVariable key
      → Lacks 0 value
      → All (λ n. after_last b'/' n ≢ key) after
      → sdk.list_secrets s (codes "projects/" ++ g.gcp_project_id) g.world
        ≡ (all_listed (before ++ (dir ++ b'/' ∷ key) ∷ after), w)
      → (sdk.access_secret_version s
          ((dir ++ b'/' ∷ key) ++ codes "/versions/latest")
          (load_names sdk s (all_listed before) (g.env, w)).1.1).0
        ≡ ok value
      → ((load_secrets_into_env sdk g0).0 ≡ ok tt)
        × (lookup key (load_secrets_into_env sdk g0).1.env ≡ some value)
  unfolding load_secrets_into_env load_project on_client load_all
  load_secrets_into_env-lookup g0 g key value dir before after w made client project k v h listing
        x =
      rw (made, client, str_beq-differs g.gcp_project_id [] project)
        (load_all-lookup g key value dir before after w k v h listing x)
