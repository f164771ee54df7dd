-- ===== src/Tests/GcpRuns.antt =====
-- cloud/gcp.go with a project of three secrets, and with a bucket in memory.
use go_api_boot.Base.{
  ℕ, Str, codes, List, map, arith, if◌then◌else◌, ◌==◌, [], ◌∷◌, ◌++◌, true, Option, none, some,
  Result, ok, err, ◌≡◌, ◌∙◌, ap, refl, nat_eq, str_eq, str_beq,
}
use go_api_boot.Base.Dict.{Dict, lookup, insert, lookup-insert_self}
use go_api_boot.Base.Exec.{Exec}
use go_api_boot.Strings.{after_last, path_base}
use go_api_boot.Cloud.Lazy.{untouched, do_once}
use go_api_boot.Cloud.Gcp.{
  GcpSdk, Gcp, ensure_secrets, load_names, load_secrets_into_env, upload_buffer, write_object,
  close_after, download_file, save_object, then_close, ensure_storage, on_storage, act, on_client,
}
use go_api_boot.Cloud.GcpSecrets.{IsVariable, load_secrets_into_env-lookup}
use go_api_boot.Cloud.GcpFiles.{Stores, gcp_files}
use go_api_boot.Cloud.GcpFiles.Kept.{get-put_gcp}
use go_api_boot.Ssl
use go_api_boot.Ssl.{put, get, upload, download}

-- A project of GCP with three secrets, of which the first cannot be read.
abbrev listing : List Str
listing = codes "p/BAD" ∷ codes "p/KEY" ∷ codes "p/OTHER" ∷ []

abbrev gcp_sdk : GcpSdk ℕ ℕ ℕ ℕ ℕ
gcp_sdk = record {
  new_secrets = λ w. (ok 5, w);
  new_storage = λ w. (ok 6, w);
  list_secrets = λ s parent w. (map ok listing, w);
  access_secret_version = λ s name w.
      (if name == codes "p/BAD/versions/latest" then err (codes "no") else ok (codes "v"), w);
  new_writer = λ b bucket path w. (0, w);
  copy_to = λ d bytes w. (ok tt, w);
  close_writer = λ d w. (ok tt, w);
  new_reader = λ b bucket path w. (ok 0, w);
  close_reader = λ r w. w;
  close_file = λ file w. w;
  temp_file = λ name. name;
  create = λ name w. (ok tt, w);
  copy_from = λ r name w. (ok tt, w);
  signed_url = λ b bucket path content_type expiry w. (ok path, w);
  attrs = λ b name w. (ok tt, w);
  create_bucket = λ b name project w. (ok tt, w);
}

abbrev gcp : Gcp ℕ ℕ ℕ
gcp = record {
  gcp_project_id = codes "proj";
  secrets = untouched;
  storage = untouched;
  env = [];
  world = 0;
}

abbrev with_secrets : Gcp ℕ ℕ ℕ
with_secrets = record gcp { secrets = record { is_done = true; failure = none; client = some 5 } }

IsVariable-key : IsVariable (codes "KEY")
IsVariable-key = record {
  nonempty = cc;
  no_slash = omega arith;
  no_equals = omega arith;
  no_nul = omega arith;
}

load_secrets_into_env-lookup_example :
    ((load_secrets_into_env gcp_sdk gcp).0 ≡ ok tt)
    × (lookup (codes "KEY") (load_secrets_into_env gcp_sdk gcp).1.env ≡ some (codes "v"))
unfolding ensure_secrets do_once load_names after_last str_beq
load_secrets_into_env-lookup_example =
    load_secrets_into_env-lookup gcp_sdk 5 gcp with_secrets (codes "KEY") (codes "v") (codes "p")
      (codes "p/BAD" ∷ []) (codes "p/OTHER" ∷ []) 0 refl refl (λ e. cc e) IsVariable-key
      (omega arith) ((λ e. cc e), tt) refl refl

-- Objects and files.
abbrev Kept : Type 0
Kept = Dict Str Str × Dict Str Str

abbrev found : Option Str → Result Str Str
found none = err (codes "not found")
found (some s) = ok s

same_bytes : (o : Option Str) {a b : Str} → o ≡ some a → found o ≡ ok b → b ≡ a
same_bytes none h x = cc h
same_bytes (some c) h x = cc (h, x)

abbrev at : Str → Str → Str
at bucket name = bucket ++ b'/' ∷ name

abbrev memory : GcpSdk Kept ℕ ℕ Str Str
memory = record {
  new_secrets = λ w. (ok 5, w);
  new_storage = λ w. (ok 6, w);
  list_secrets = λ s parent w. ([], w);
  access_secret_version = λ s name w. (ok [], w);
  new_writer = λ b bucket path w. (at bucket path, w);
  copy_to = λ d bytes (objects, files). (ok tt, (insert d bytes objects, files));
  close_writer = λ d w. (ok tt, w);
  new_reader =
      λ b bucket path (objects, files). (found (lookup (at bucket path) objects), (objects, files));
  close_reader = λ r w. w;
  close_file = λ file w. w;
  temp_file = λ name. codes "/tmp/" ++ name;
  create = λ name w. (ok tt, w);
  copy_from = λ r name (objects, files). (ok tt, (objects, insert name r files));
  signed_url = λ b bucket path content_type expiry w. (ok path, w);
  attrs = λ b name w. (ok tt, w);
  create_bucket = λ b name project w. (ok tt, w);
}

abbrev read : Str → Exec Kept Str Str
read file (objects, files) = (found (lookup file files), (objects, files))

memory-Stores : Stores memory read
memory-Stores = record {
  object = λ w bucket name. lookup (at bucket name) w.0;
  content = λ w file. lookup file w.1;
  connects = λ w bucket name. refl;
  writes = λ b bucket name bytes w x y. lookup-insert_self (at bucket name) bytes w.0;
  reads = λ b bucket name file bytes w {r} there opened x y.
      lookup-insert_self file r w.1
      ∙ ap some (same_bytes (lookup (at bucket name) w.0) there opened);
  closes = λ r file other w. refl;
  reads_file = λ file w there x. same_bytes (lookup file w.1) there x;
}

abbrev with_bucket : Gcp Kept ℕ ℕ
with_bucket = record {
  gcp_project_id = codes "proj";
  secrets = untouched;
  storage = untouched;
  env = [];
  world = ([], []);
}

get-put_gcp_example : codes "pem" ≡ codes "pem"
unfolding put get upload download Ssl.read gcp_files upload_buffer write_object close_after
    download_file save_object then_close ensure_storage do_once on_storage act on_client str_beq
    insert lookup path_base
get-put_gcp_example =
    get-put_gcp memory read memory-Stores (codes "bkt") (codes "cert") (codes "pem") with_bucket
      refl refl
