-- ===== src/Tests/CloudRuns.antt =====
-- cloud/azure.go and server/ssl_cloud_cache.go with a blob store in memory.
use go_api_boot.Base.{
  ℕ, suc, Str, codes, [], ◌∷◌, ◌++◌, true, Option, none, some, Result, ok, err, ◌≡◌, refl, nat_eq,
  str_eq, str_beq,
}
use go_api_boot.Base.Dict.{Dict, lookup, insert}
use go_api_boot.Dotenv.{Env, setenv, has_char}
use go_api_boot.Cloud.{
  SecretId, Sdk, Azure, upload_buffer, ensure_blob, make_blob_client,
  get_service_client_token_credential, act, on_blob, on_client, blob_url, load_page, load_secret,
}
use go_api_boot.Cloud.Lazy.{untouched, ensure_client, do_once}
use go_api_boot.Ssl.{CloudFiles}

-- The number of credentials made, and the blobs.
abbrev World : Type 0
World = ℕ × Dict Str Str

abbrev found : Option Str → Result Str Str
found none = err (codes "not found")
found (some s) = ok s

abbrev sdk : Sdk World ℕ ℕ ℕ
sdk = record {
  new_default_cred = λ (n, d). (ok n, (suc n, d));
  new_kv_client = λ url cred w. (ok cred, w);
  new_blob_client = λ url cred w. (ok cred, w);
  pages = λ k w. ([], w);
  get_secret = λ k id w. (ok (codes "v"), w);
  upload_buffer = λ b container blob data_ (n, d). (ok tt, (n, insert blob data_ d));
  temp_file = λ name. codes "/tmp/" ++ name;
  create = λ name w. (ok tt, w);
  download_file = λ b container blob file w. (ok tt, w);
  close_file = λ name w. w;
  create_container =
      λ b name w. (err (record { message = codes "there"; already_exists = true }), w);
}

abbrev azure : Azure World ℕ ℕ
azure = record {
  azure_storage_account = codes "acc";
  azure_key_vault_name = [];
  kv = untouched;
  blob = untouched;
  env = [];
  world = (0, []);
}

run_upload :
    (upload_buffer sdk (codes "c") (codes "b") (codes "x") azure).0
    ≡ ok (codes "https://acc.blob.core.windows.net/c/b")
unfolding upload_buffer ensure_blob ensure_client do_once make_blob_client
    get_service_client_token_credential str_beq on_blob on_client act insert blob_url
run_upload = refl

abbrev key_id : SecretId
key_id = record { name = codes "KEY"; version = codes "1" }

abbrev start : Env × World
start = ([], (0, []))

run_page : load_page sdk 0 (key_id ∷ []) start ≡ ((codes "KEY", codes "v") ∷ [], (0, []))
unfolding load_page load_secret setenv has_char str_beq insert
run_page = refl

-- A bucket whose downloads are the names of files with the same content.
abbrev files : CloudFiles (Dict Str Str)
files = record {
  upload_buffer = λ bucket name data_ w. (ok name, insert name data_ w);
  download_file = λ bucket name w. (ok name, w);
  read_file = λ file w. (found (lookup file w), w);
}

abbrev the_file : Str → Result Str Str
the_file s = ok s

same_file :
    {a b : Str} (w : Dict Str Str)
    → lookup a w ≡ some b
    → {c : Str} → the_file a ≡ ok c
    → lookup c w ≡ some b
same_file w h x = cc (h, x)

same_bytes : (o : Option Str) {a b : Str} → o ≡ some a → found o ≡ ok b → b ≡ a
same_bytes none h x = cc h
same_bytes (some c) h x = cc (h, x)
