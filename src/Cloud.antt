-- ===== src/Cloud.antt =====
-- cloud/azure.go: clients that are made once, secrets, and blobs. The Azure packages and the file
-- system are arguments, and may change the world `W`.
pub mod Lazy
pub mod Clients
pub mod Gcp
pub mod GcpSecrets
pub mod GcpFiles
pub mod Secrets
use go_api_boot.Base.{
  ℕ, Str, codes, List, [], ◌∷◌, ◌++◌, Bool, true, false, Option, none, some, Result, ok, err, ◌==◌,
  str_eq, str_beq, nat_eq, if◌then◌else◌,
}
use go_api_boot.Base.Exec.{Exec, pure, raise, continue, ◌>>=◌, ◌>>◌}
use go_api_boot.Strings.{path_base}
use go_api_boot.Dotenv.{Env, setenv}
use Lazy.{Once, ensure_client}

pub data CloudError : Type 0 where
  failed : Str → CloudError
  -- A method of a nil client is called: a panic.
  nil_client : CloudError

-- An error of the blob service, and whether its code is ContainerAlreadyExists.
pub record BlobError : Type 0 where
  pub message : Str
  pub already_exists : Bool

-- The name and the version of a secret.
pub record SecretId : Type 0 where
  pub name : Str
  pub version : Str

pub record Sdk (W K B X : Type 0) : Type 0 where
  pub new_default_cred : Exec W Str X
  pub new_kv_client : Str → X → Exec W Str K
  pub new_blob_client : Str → X → Exec W Str B
  -- What the calls of NextPage give, in order, until there are no more pages.
  pub pages : K → W → List (Result Str (List SecretId)) × W
  pub get_secret : K → SecretId → Exec W Str Str
  pub upload_buffer : B → Str → Str → Str → Exec W Str (Unit {0})
  -- path.Join(os.TempDir(), name), os.Create
  pub temp_file : Str → Str
  pub create : Str → Exec W Str (Unit {0})
  pub download_file : B → Str → Str → Str → Exec W Str (Unit {0})
  pub close_file : Str → W → W
  pub create_container : B → Str → Exec W BlobError (Unit {0})

pub record Azure (W K B : Type 0) : Type 0 where
  pub azure_storage_account : Str
  pub azure_key_vault_name : Str
  pub kv : Once K
  pub blob : Once B
  pub env : Env
  pub world : W

module _ {W K B X : Type 0} (sdk : Sdk W K B X) where
  -- getKeyvaultClient
  unfoldable pub get_keyvault_client : Str → Exec W Str K
  unfolding str_beq
  get_keyvault_client name =
      if name == codes "" then raise (codes "azure_key_vault_name config not set") else do
        cred ← sdk.new_default_cred
        sdk.new_kv_client (codes "https://" ++ (name ++ codes ".vault.azure.net/")) cred

  -- getServiceClientTokenCredential
  unfoldable pub get_service_client_token_credential : Str → Exec W Str B
  get_service_client_token_credential name = do
    cred ← sdk.new_default_cred
    sdk.new_blob_client (codes "https://" ++ (name ++ codes ".blob.core.windows.net/")) cred

  -- What blobOnce does.
  unfoldable pub make_blob_client : Str → Exec W Str B
  unfolding str_beq
  make_blob_client account =
      if account == codes ""
      then raise (codes "AzureStorageAccount config not set")
      else get_service_client_token_credential account

  abbrev failing : {A : Type 0} → Result Str A → Result CloudError A
  failing (ok a) = ok a
  failing (err e) = err (failed e)

  -- EnsureKV
  unfoldable pub ensure_kv : Exec (Azure W K B) CloudError (Unit {0})
  ensure_kv a =
      let (r, o) = ensure_client (get_keyvault_client a.azure_key_vault_name) (a.kv, a.world) in
      (failing r, record a { kv = o.0; world = o.1 })

  -- EnsureBlob
  unfoldable pub ensure_blob : Exec (Azure W K B) CloudError (Unit {0})
  ensure_blob a =
      let (r, o) = ensure_client (make_blob_client a.azure_storage_account) (a.blob, a.world) in
      (failing r, record a { blob = o.0; world = o.1 })

  -- A call of the SDK.
  unfoldable pub act : {A : Type 0} → Exec W Str A → Exec (Azure W K B) CloudError A
  act f a = let (r, w) = f a.world in (failing r, record a { world = w })

  -- A call on the blob client, which may be nil.
  unfoldable pub on_client :
      {A C : Type 0} → Option C → (C → Exec W Str A) → Exec (Azure W K B) CloudError A
  on_client none f = raise nil_client
  on_client (some c) f = act (f c)

  unfoldable pub on_blob : {A : Type 0} → (B → Exec W Str A) → Exec (Azure W K B) CloudError A
  on_blob f a = on_client a.blob.client f a

  unfoldable pub blob_url : Str → Str → Str → Str
  blob_url account container blob =
      codes "https://"
      ++ (account ++ (codes ".blob.core.windows.net/" ++ (container ++ (codes "/" ++ blob))))

  -- UploadBuffer
  unfoldable pub upload_buffer : Str → Str → Str → Exec (Azure W K B) CloudError Str
  upload_buffer container blob data_ = do
    ensure_blob
    on_blob λ b. sdk.upload_buffer b container blob data_
    λ a. (ok (blob_url a.azure_storage_account container blob), a)

  -- The deferred tmpFile.Close().
  unfoldable pub then_close :
      {A : Type 0} → Str → Exec (Azure W K B) CloudError A → Exec (Azure W K B) CloudError A
  then_close file m a = let (r, a') = m a in (r, record a' { world = sdk.close_file file a'.world })

  -- What DownloadFile does with the file once it is there.
  unfoldable pub download_to : Str → Str → Str → Exec (Azure W K B) CloudError Str
  download_to container blob file = do
    on_blob λ b. sdk.download_file b container blob file
    pure file

  -- DownloadFile
  unfoldable pub download_file : Str → Str → Exec (Azure W K B) CloudError Str
  unfolding path_base
  download_file container blob = do
    ensure_blob
    act (sdk.create (sdk.temp_file (path_base blob)))
    then_close (sdk.temp_file (path_base blob))
        (download_to container blob (sdk.temp_file (path_base blob)))

  -- GetPresignedUrl: an upload and a download URL, which are not made yet.
  unfoldable get_presigned_url : Str → Str → Str → ℕ → Azure W K B → (Str × Str) × Azure W K B
  get_presigned_url bucket path content_type expiry a = ((codes "", codes ""), a)

  abbrev tolerate : Result BlobError (Unit {0}) × W → Result Str (Unit {0}) × W
  tolerate (ok u, w) = (ok tt, w)
  tolerate (err e, w) = if e.already_exists then (ok tt, w) else (err e.message, w)

  -- EnsureBucket
  unfoldable pub ensure_bucket : Str → Exec (Azure W K B) CloudError (Unit {0})
  ensure_bucket name = do ensure_blob; on_blob λ b w. tolerate (sdk.create_container b name w)

  abbrev set_secret : SecretId → Result Str Str → Env → Env
  set_secret id (ok value) env = setenv id.name value env
  set_secret id (err e) env = env

  -- A secret that cannot be read is logged and passed over.
  unfoldable pub load_secret : K → SecretId → Env × W → Env × W
  load_secret k id (env, w) = let (r, w') = sdk.get_secret k id w in (set_secret id r env, w')

  unfoldable pub load_page : K → List SecretId → Env × W → Env × W
  load_page k [] s = s
  load_page k (id ∷ ids) s = load_page k ids (load_secret k id s)

  -- The loop over the pages stops at the first that fails.
  unfoldable pub load_pages : K → List (Result Str (List SecretId)) → Exec (Env × W) Str (Unit {0})
  load_pages k [] s = (ok tt, s)
  load_pages k (ok ids ∷ pages) s = load_pages k pages (load_page k ids s)
  load_pages k (err e ∷ pages) s = (err e, s)

  unfoldable pub load_all : Option K → Exec (Azure W K B) CloudError (Unit {0})
  load_all none a = (err nil_client, a)
  load_all (some k) a =
      let (pages, w) = sdk.pages k a.world in
      let (r, s) = load_pages k pages (a.env, w) in (failing r, record a { env = s.0; world = s.1 })

  -- LoadSecretsIntoEnv
  unfoldable pub load_secrets_into_env : Exec (Azure W K B) CloudError (Unit {0})
  load_secrets_into_env = do ensure_kv; λ a. load_all a.kv.client a
