-- ===== src/Cloud/GcpFiles.antt =====
-- cloud/gcp.go behind server/ssl_cloud_cache.go: the cloud that the cache of certificates uses.
pub mod Kept
use go_api_boot.Base.{
  Str, codes, ◌++◌, ok_injective, Option, none, some, Result, ok, err, ◌≡◌, refl, sym, ◌∙◌, ap,
  Bool-cases, inl, inr, if◌then◌else◌,
}
use go_api_boot.Base.Exec.{Exec, continue, pure, continue-Gives}
use go_api_boot.Strings.{path_base}
use go_api_boot.Cloud.Lazy.{do_once}
use go_api_boot.Cloud.Gcp.{
  GcpError, failed, no_client, GcpSdk, Gcp, gcp_failing, same, ensure_storage, act, on_client,
  on_storage, close_after, write_object, object_url, upload_buffer, then_close, save_object,
  download_file,
}
use go_api_boot.Ssl.{CloudFiles, Keeps, put, get, get-put}

module _ {W S B D R : Type 0} (sdk : GcpSdk W S B D R) (read_file : Str → Exec W Str Str) where
  -- The text of an error.
  abbrev pub textual : {A : Type 0} → Result GcpError A → Result Str A
  textual (ok a) = ok a
  textual (err (failed e)) = err e
  textual (err no_client) = err (codes "nil pointer")

  -- GCP as the cloud of the cache, with os.ReadFile
  unfoldable pub gcp_files : CloudFiles (Gcp W S B)
  gcp_files = record {
    upload_buffer = λ bucket name bytes g.
        let (r, g') = upload_buffer sdk bucket name bytes g in (textual r, g');
    download_file =
        λ bucket name g. let (r, g') = download_file sdk bucket name g in (textual r, g');
    read_file = λ file g. let (r, w) = read_file file g.world in (r, record g { world = w });
  }

  -- The documented behaviour of Cloud Storage and the file system.
  pub record Stores : Type 0 where
    pub object : W → Str → Str → Option Str
    pub content : W → Str → Option Str
    -- Making a client changes no object.
    pub connects :
        (w : W) (bucket name : Str)
        → object (sdk.new_storage w).1 bucket name ≡ object w bucket name
    -- A writer that took the bytes and was closed has stored them.
    pub writes :
        (b : B) (bucket name bytes : Str) (w : W) {u v : Unit {0}}
        → (sdk.copy_to
            (sdk.new_writer b bucket name w).0
            bytes
            (sdk.new_writer b bucket name w).1).0
          ≡ ok u
        → (sdk.close_writer
            (sdk.new_writer b bucket name w).0
            (sdk.copy_to
              (sdk.new_writer b bucket name w).0
              bytes
              (sdk.new_writer b bucket name w).1).1).0
          ≡ ok v
        → object
            (sdk.close_writer
              (sdk.new_writer b bucket name w).0
              (sdk.copy_to
                (sdk.new_writer b bucket name w).0
                bytes
                (sdk.new_writer b bucket name w).1).1).1
            bucket
            name
          ≡ some bytes
    -- A reader that was copied to a new file leaves the object's bytes there.
    pub reads :
        (b : B) (bucket name file bytes : Str) (w : W) {r : R} {u v : Unit {0}}
        → object w bucket name ≡ some bytes
        → (sdk.new_reader b bucket name w).0 ≡ ok r
        → (sdk.create file (sdk.new_reader b bucket name w).1).0 ≡ ok u
        → (sdk.copy_from r file (sdk.create file (sdk.new_reader b bucket name w).1).1).0 ≡ ok v
        → content
            (sdk.copy_from r file (sdk.create file (sdk.new_reader b bucket name w).1).1).1
            file
          ≡ some bytes
    pub closes :
        (r : R) (file other : Str) (w : W)
        → content (sdk.close_reader r (sdk.close_file file w)) other ≡ content w other
    pub reads_file :
        (file : Str) (w : W) {data_ bytes : Str}
        → content w file ≡ some data_
        → (read_file file w).0 ≡ ok bytes
        → bytes ≡ data_
