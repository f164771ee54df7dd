-- ===== src/Cloud/Gcp.antt =====
-- cloud/gcp.go: the clients, secrets and objects of GCP. The packages of Google and the file system
-- are arguments, and may change the world `W`.
use go_api_boot.Base.{
  ℕ, Str, codes, List, [], ◌∷◌, ◌++◌, Option, none, some, Result, ok, err, ◌==◌, nat_eq, str_eq,
  str_beq, if◌then◌else◌,
}
use go_api_boot.Base.Exec.{Exec, pure, raise, ◌>>=◌, ◌>>◌}
use go_api_boot.Strings.{path_base, after_last, contains}
use go_api_boot.Dotenv.{Env, setenv}
use go_api_boot.Cloud.Lazy.{Once, do_once}

pub data GcpError : Type 0 where
  failed : Str → GcpError
  -- A method of a nil client is called.
  no_client : GcpError

pub record GcpSdk (W S B D R : Type 0) : Type 0 where
  pub new_secrets : Exec W Str S
  pub new_storage : Exec W Str B
  -- What the calls of it.Next() give for the parent, in order, until it is done.
  pub list_secrets : S → Str → W → List (Result Str Str) × W
  pub access_secret_version : S → Str → Exec W Str Str
  -- An object's writer: obj.NewWriter, io.Copy to it, Close
  pub new_writer : B → Str → Str → W → D × W
  pub copy_to : D → Str → Exec W Str (Unit {0})
  pub close_writer : D → Exec W Str (Unit {0})
  -- An object's reader: obj.NewReader, io.Copy to a file
  pub new_reader : B → Str → Str → Exec W Str R
  pub temp_file : Str → Str
  pub create : Str → Exec W Str (Unit {0})
  pub copy_from : R → Str → Exec W Str (Unit {0})
  pub close_reader : R → W → W
  pub close_file : Str → W → W
  -- bucket.SignedURL(path, opts) of the options with a content type and an expiry
  pub signed_url : B → Str → Str → Str → ℕ → Exec W Str Str
  pub attrs : B → Str → Exec W Str (Unit {0})
  pub create_bucket : B → Str → Str → Exec W Str (Unit {0})

pub record Gcp (W S B : Type 0) : Type 0 where
  pub gcp_project_id : Str
  pub secrets : Once S
  pub storage : Once B
  pub env : Env
  pub world : W

module _ {W S B D R : Type 0} (sdk : GcpSdk W S B D R) where
  abbrev pub gcp_failing : {A : Type 0} → (Str → Str) → Result Str A → Result GcpError A
  gcp_failing h (ok a) = ok a
  gcp_failing h (err e) = err (failed (h e))

  abbrev pub same : Str → Str
  same e = e

  -- EnsureSecrets
  unfoldable pub ensure_secrets : Exec (Gcp W S B) GcpError (Unit {0})
  ensure_secrets g =
      let (r, o) = do_once sdk.new_secrets (g.secrets, g.world) in
      (gcp_failing same r, record g { secrets = o.0; world = o.1 })

  -- EnsureStorage
  unfoldable pub ensure_storage : Exec (Gcp W S B) GcpError (Unit {0})
  ensure_storage g =
      let (r, o) = do_once sdk.new_storage (g.storage, g.world) in
      (gcp_failing same r, record g { storage = o.0; world = o.1 })

  -- A call of the SDK, with the text in front of its error.
  unfoldable pub act : {A : Type 0} → (Str → Str) → Exec W Str A → Exec (Gcp W S B) GcpError A
  act h f g = let (r, w) = f g.world in (gcp_failing h r, record g { world = w })

  unfoldable pub on_client :
      {A C : Type 0} → Option C → (C → Exec (Gcp W S B) GcpError A) → Exec (Gcp W S B) GcpError A
  on_client none f = raise no_client
  on_client (some c) f = f c

  -- secret.Name behind its last slash, and os.Setenv
  unfoldable pub set_secret : Str → Result Str Str → Env → Env
  unfolding after_last
  set_secret name (ok value) env = setenv (after_last b'/' name) value env
  set_secret name (err e) env = env

  -- A secret that cannot be read is logged and passed over.
  unfoldable pub load_secret : S → Str → Env × W → Env × W
  load_secret s name (env, w) =
      let (r, w') = sdk.access_secret_version s (name ++ codes "/versions/latest") w in
      (set_secret name r env, w')

  -- The loop over the iterator stops at its first error.
  unfoldable pub load_names : S → List (Result Str Str) → Exec (Env × W) Str (Unit {0})
  load_names s [] e = (ok tt, e)
  load_names s (ok name ∷ names) e = load_names s names (load_secret s name e)
  load_names s (err x ∷ names) e = (err x, e)

  unfoldable pub load_all : S → Exec (Gcp W S B) GcpError (Unit {0})
  load_all s g =
      let (names, w) = sdk.list_secrets s (codes "projects/" ++ g.gcp_project_id) g.world in
      let (r, e) = load_names s names (g.env, w) in
      (gcp_failing same r, record g { env = e.0; world = e.1 })

  unfoldable pub load_project : Exec (Gcp W S B) GcpError (Unit {0})
  unfolding str_beq
  load_project g =
      if g.gcp_project_id == codes ""
      then (err (failed (codes "gcp_project_id config is not set")), g)
      else on_client g.secrets.client load_all g

  -- LoadSecretsIntoEnv
  unfoldable pub load_secrets_into_env : Exec (Gcp W S B) GcpError (Unit {0})
  load_secrets_into_env = do ensure_secrets; load_project

  unfoldable pub on_storage :
      {A : Type 0} → (B → Exec (Gcp W S B) GcpError A) → Exec (Gcp W S B) GcpError A
  on_storage f g = on_client g.storage.client f g

  -- Behind io.Copy: the writer is closed in both cases, and only the first error counts.
  unfoldable pub close_after : D → Result Str (Unit {0}) → Exec W Str (Unit {0})
  close_after wc (ok _) w = sdk.close_writer wc w
  close_after wc (err e) w = (err e, (sdk.close_writer wc w).1)

  unfoldable pub write_object : B → Str → Str → Str → Exec W Str (Unit {0})
  write_object b bucket path bytes w =
      let (wc, w1) = sdk.new_writer b bucket path w in
      let (r, w2) = sdk.copy_to wc bytes w1 in close_after wc r w2

  unfoldable pub object_url : Str → Str → Str
  object_url bucket path =
      codes "https://storage.googleapis.com/" ++ (bucket ++ (codes "/" ++ path))

  -- UploadBuffer
  unfoldable pub upload_buffer : Str → Str → Str → Exec (Gcp W S B) GcpError Str
  upload_buffer bucket path bytes = do
    ensure_storage
    on_storage λ b. act same (write_object b bucket path bytes)
    pure (object_url bucket path)

  -- A deferred Close.
  unfoldable pub then_close :
      {A : Type 0} → (W → W) → Exec (Gcp W S B) GcpError A → Exec (Gcp W S B) GcpError A
  then_close close m g = let (r, g') = m g in (r, record g' { world = close g'.world })

  -- What DownloadFile does with the reader.
  unfoldable pub save_object : Str → R → Exec (Gcp W S B) GcpError Str
  save_object file r = do
    act (λ e. codes "os.Create: " ++ e) (sdk.create file)
    then_close (sdk.close_file file) (act (λ e. codes "io.Copy: " ++ e) (sdk.copy_from r file))
    pure file

  -- DownloadFile
  unfoldable pub download_file : Str → Str → Exec (Gcp W S B) GcpError Str
  unfolding path_base
  download_file bucket path = do
    ensure_storage
    r ← on_storage λ b. act (λ e. codes "obj.NewReader: " ++ e) (sdk.new_reader b bucket path)
    then_close (sdk.close_reader r) (save_object (sdk.temp_file (path_base path)) r)

  abbrev urls : Str → Str → Result GcpError Str → Str × Str
  urls bucket path (ok url) = (url, object_url bucket path)
  urls bucket path (err e) = ([], [])

  -- GetPresignedUrl: two empty strings stand for an error.
  unfoldable pub get_presigned_url : Str → Str → Str → ℕ → Gcp W S B → (Str × Str) × Gcp W S B
  get_presigned_url bucket path content_type expiry g =
      let sign : Exec (Gcp W S B) GcpError Str = do
        ensure_storage
        on_storage λ b. act same (sdk.signed_url b bucket path content_type expiry)
      in let (r, g') = sign g in (urls bucket path r, g')

  -- Behind bucket.Attrs: a bucket that is not found is created.
  unfoldable pub create_missing : B → Str → Str → Result Str (Unit {0}) → Exec W Str (Unit {0})
  unfolding contains
  create_missing b project name (ok _) w = (ok tt, w)
  create_missing b project name (err e) w =
      if contains e (codes "not found") then sdk.create_bucket b name project w else (err e, w)

  unfoldable pub check_bucket : B → Str → Str → Exec W Str (Unit {0})
  check_bucket b project name w =
      let (r, w') = sdk.attrs b name w in create_missing b project name r w'

  -- EnsureBucket
  unfoldable pub ensure_bucket : Str → Exec (Gcp W S B) GcpError (Unit {0})
  ensure_bucket name = do
    ensure_storage
    on_storage λ b g. act same (check_bucket b g.gcp_project_id name) g
