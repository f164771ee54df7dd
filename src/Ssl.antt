-- ===== src/Ssl.antt =====
-- server/ssl_cloud_cache.go: the certificates of the ACME client, kept in a bucket of the cloud. The
-- cloud is the interface Cloud of cloud/cloud.go.
pub mod Manager
use go_api_boot.Base.{
  Str, codes, false, Result, ok, err, Result-cases, ◌==◌, ==_iff, str_eq, str_beq, nat_eq,
  if◌then◌else◌, ◌≡◌, ◌≢◌, refl, ◌∙◌, ap, Option, some, Bool-cases, inl, inr,
}
use go_api_boot.Base.Exec.{Exec, pure, raise, ◌>>=◌, continue-ok}

-- What the cache calls of Cloud, and os.ReadFile
pub record CloudFiles (W : Type 0) : Type 0 where
  pub upload_buffer : Str → Str → Str → Exec W Str Str
  pub download_file : Str → Str → Exec W Str Str
  pub read_file : Str → Exec W Str Str

pub data CacheError : Type 0 where
  bucket_not_set : CacheError
  download_failed : Str → CacheError
  upload_failed : Str → CacheError
  read_failed : Str → CacheError

module _ {W : Type 0} (cloud : CloudFiles W) (bucket : Str) where
  abbrev wrapped : {A : Type 0} → (Str → CacheError) → Result Str A × W → Result CacheError A × W
  wrapped h (ok a, w) = (ok a, w)
  wrapped h (err e, w) = (err (h e), w)

  unfoldable pub download : Str → Exec W CacheError Str
  download name w = wrapped download_failed (cloud.download_file bucket name w)

  unfoldable pub read : Str → Exec W CacheError Str
  read file w = wrapped read_failed (cloud.read_file file w)

  unfoldable pub upload : Str → Str → Exec W CacheError Str
  upload name data_ w = wrapped upload_failed (cloud.upload_buffer bucket name data_ w)

  -- SslCloudCache.Get
  unfoldable pub get : Str → Exec W CacheError Str
  unfolding str_beq
  get name = if bucket == codes "" then raise bucket_not_set else do file ← download name; read file

  -- SslCloudCache.Put
  unfoldable pub put : Str → Str → Exec W CacheError (Unit {0})
  unfolding str_beq
  put name data_ =
      if bucket == codes "" then raise bucket_not_set else do url ← upload name data_; pure tt

  -- SslCloudCache.Delete does nothing.
  unfoldable pub delete : Str → Exec W CacheError (Unit {0})
  delete name = pure tt

  -- The documented behaviour of the cloud and the file system: a download that returns stores the
  -- object that was uploaded under the name in the file whose path it returns.
  pub record Keeps : Type 0 where
    pub object : W → Str → Option Str
    pub content : W → Str → Option Str
    pub upload_keeps :
        (name data_ : Str) (w : W) {url : Str}
        → (cloud.upload_buffer bucket name data_ w).0 ≡ ok url
        → object (cloud.upload_buffer bucket name data_ w).1 name ≡ some data_
    pub download_keeps :
        (name : Str) (w : W) {file data_ : Str}
        → object w name ≡ some data_
        → (cloud.download_file bucket name w).0 ≡ ok file
        → content (cloud.download_file bucket name w).1 file ≡ some data_
    pub read_keeps :
        (file : Str) (w : W) {data_ bytes : Str}
        → content w file ≡ some data_
        → (cloud.read_file file w).0 ≡ ok bytes
        → bytes ≡ data_

  wrapped-ok :
      {A : Type 0} (h : Str → CacheError) (o : Result Str A × W) {a : A}
      → (wrapped h o).0 ≡ ok a
      → (o.0 ≡ ok a) × ((wrapped h o).1 ≡ o.1)
  wrapped-ok h (ok a, w) x = (cc x, refl)
  wrapped-ok h (err e, w) x = cc x

  get-stored :
      (laws : Keeps) (name : Str) (w : W) {data_ bytes : Str}
      → (bucket == codes "") ≡ false
      → laws.object w name ≡ some data_
      → (get name w).0 ≡ ok bytes
      → bytes ≡ data_
  unfolding get download read
  get-stored laws name w b h x =
      let (file, e, y) = continue-ok (download name w).0 read (download name w).1 (rw b at x) in
      let (f, same) = wrapped-ok download_failed (cloud.download_file bucket name w) e in
      let z = wrapped-ok read_failed (cloud.read_file file (download name w).1) y in
      laws.read_keeps file (download name w).1
        (ap (λ v. laws.content v file) same ∙ laws.download_keeps name w h f) z.0

  put-stores :
      (laws : Keeps) (name data_ : Str) (w : W) {u : Unit {0}}
      → (bucket == codes "") ≡ false
      → (put name data_ w).0 ≡ ok u
      → laws.object (put name data_ w).1 name ≡ some data_
  unfolding put upload
  put-stores laws name data_ w b x =
      elim (Result-cases (cloud.upload_buffer bucket name data_ w).0) [
        | inl (url, e) ↦ rw b (rw e (laws.upload_keeps name data_ w e))
        | inr (e, y) ↦ cc (rw (b, y) at x)
      ]

  -- With a cloud that downloads what was uploaded: what was put under a name is what Get of this
  -- name returns right after it, when both return; and then the bucket is set.
  pub get-put :
      (laws : Keeps) (name data_ : Str) (w : W) {u : Unit {0}} {bytes : Str}
      → (put name data_ w).0 ≡ ok u
      → (get name (put name data_ w).1).0 ≡ ok bytes
      → (bytes ≡ data_) × (bucket ≢ codes "")
  unfolding put
  get-put laws name data_ w x y = elim (Bool-cases (bucket == codes "")) [
    | inl b ↦ cc (rw b at x)
    | inr b ↦ (
      get-stored laws name (put name data_ w).1 b (put-stores laws name data_ w b x) y,
      (λ same. cc (b, (==_iff bucket (codes "")).1 same)),
    )
  ]
