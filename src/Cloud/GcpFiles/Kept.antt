-- ===== src/Cloud/GcpFiles/Kept.antt =====
-- What the cache of certificates puts into GCP is what it gets from there.
use go_api_boot.Base.{
  Str, codes, ◌++◌, ok_injective, Option, none, some, Result, ok, err, ◌≡◌, refl, ◌∙◌, Bool-cases,
  inl, inr,
}
use go_api_boot.Base.Exec.{Exec, continue, pure, continue-Gives}
use go_api_boot.Strings.{path_base}
use go_api_boot.Cloud.Lazy.{do_once}
use go_api_boot.Cloud.Gcp.{
  GcpError, failed, no_client, GcpSdk, Gcp, gcp_failing, same, ensure_storage, act, on_client,
  on_storage, close_after, write_object, upload_buffer, then_close, save_object, download_file,
}
use go_api_boot.Ssl.{Keeps, put, get, get-put}
use go_api_boot.Cloud.GcpFiles.{textual, gcp_files, Stores}

module _ {W S B D R : Type 0} (sdk : GcpSdk W S B D R) (read_file : Str → Exec W Str Str) where
  textual-ok :
      {A : Type 0} (r : Result GcpError A) {a : A} → textual sdk read_file r ≡ ok a → r ≡ ok a
  textual-ok (ok a) x = cc x
  textual-ok (err (failed e)) x = cc x
  textual-ok (err no_client) x = cc x

  failing-ok :
      {A : Type 0} (h : Str → Str) (r : Result Str A) {a : A}
      → gcp_failing sdk h r ≡ ok a
      → r ≡ ok a
  failing-ok h (ok a) x = cc x
  failing-ok h (err e) x = cc x

  close_after-ok :
      (d : D) (r : Result Str (Unit {0})) (w : W) {u : Unit {0}}
      → (close_after sdk d r w).0 ≡ ok u
      → (r ≡ ok tt) × (close_after sdk d r w ≡ sdk.close_writer d w)
  unfolding close_after
  close_after-ok d (ok tt) w x = (refl, refl)
  close_after-ok d (err e) w x = cc x

  module _ (st : Stores sdk read_file) (bucket name data_ : Str) where
    write_object-stores :
        (b : B) (w : W) {u : Unit {0}}
        → (write_object sdk b bucket name data_ w).0 ≡ ok u
        → st.object (write_object sdk b bucket name data_ w).1 bucket name ≡ some data_
    unfolding write_object
    write_object-stores b w x =
        let (d, w1) = sdk.new_writer b bucket name w in
        let (r, w2) = sdk.copy_to d data_ w1 in
        let (copied, closed) = close_after-ok d r w2 x in
        rw closed (st.writes b bucket name data_ w copied (rw closed at x))

    written :
        (o : Option B) (g : Gcp W S B) {u : Unit {0}}
        → (on_client sdk o (λ b. act sdk (same sdk) (write_object sdk b bucket name data_)) g).0
          ≡ ok u
        → st.object
            (on_client sdk o
              (λ b. act sdk (same sdk) (write_object sdk b bucket name data_))
              g).1.world
            bucket
            name
          ≡ some data_
    unfolding on_client act
    written none g x = cc x
    written (some b) g x = write_object-stores b g.world (failing-ok (same sdk) _ x)

    upload_buffer-stores :
        (g : Gcp W S B) (url : Str)
        → (upload_buffer sdk bucket name data_ g).0 ≡ ok url
        → st.object (upload_buffer sdk bucket name data_ g).1.world bucket name ≡ some data_
    unfolding upload_buffer on_storage
    upload_buffer-stores g url x =
        let Stored : Str → Gcp W S B → Type 0 = λ _ h. st.object h.world bucket name ≡ some data_ in
        continue-Gives Stored (ensure_storage sdk g).0 _ (ensure_storage sdk g).1
          (λ _ _.
            continue-Gives Stored _ _ _
              λ u e v y. written (ensure_storage sdk g).1.storage.client (ensure_storage sdk g).1 e)
          url x

    ensure_storage-keeps :
        (g : Gcp W S B)
        → st.object (ensure_storage sdk g).1.world bucket name ≡ st.object g.world bucket name
    unfolding ensure_storage do_once
    ensure_storage-keeps g = elim (Bool-cases g.storage.is_done) [
      | inl e ↦ rw e refl
      | inr e ↦ rw e (st.connects g.world bucket name)
    ]

    abbrev open_reader : B → Exec (Gcp W S B) GcpError R
    open_reader b = act sdk (λ e. codes "obj.NewReader: " ++ e) (sdk.new_reader b bucket name)

    -- What DownloadFile leaves behind the opening of the reader.
    saved :
        (b : B) (file : Str) (r : R) (w : W) (g : Gcp W S B) (path : Str)
        → g.world ≡ (sdk.new_reader b bucket name w).1
        → st.object w bucket name ≡ some data_
        → (sdk.new_reader b bucket name w).0 ≡ ok r
        → (save_object sdk file r g).0 ≡ ok path
        → st.content (sdk.close_reader r (save_object sdk file r g).1.world) path ≡ some data_
    unfolding save_object then_close act
    saved b file r w g path same_world there opened x =
        let Left : Str → Gcp W S B → Type 0 =
          λ p h. st.content (sdk.close_reader r h.world) p ≡ some data_ in
        let make = act sdk (λ e. codes "os.Create: " ++ e) (sdk.create file) in
        let copy =
          then_close sdk (sdk.close_file file)
            (act sdk (λ e. codes "io.Copy: " ++ e) (sdk.copy_from r file)) in
        continue-Gives Left (make g).0 _ (make g).1
          (λ u made.
            continue-Gives Left (copy (make g).1).0 (λ _. pure file) (copy (make g).1).1
              λ v copied p y.
                let created =
                  failing-ok (λ e. codes "os.Create: " ++ e) (sdk.create file g.world).0 made in
                let taken = failing-ok (λ e. codes "io.Copy: " ++ e) _ copied in
                rw (← ok_injective file p y) (
                  st.closes r file file _
                  ∙ rw same_world (
                      st.reads b bucket name file data_ w there opened (rw same_world at created)
                        (rw same_world at taken))))
          path x

    abbrev fetch : Option B → Str → Exec (Gcp W S B) GcpError Str
    fetch o file g =
        continue (on_client sdk o open_reader g).0
          (λ r. then_close sdk (sdk.close_reader r) (save_object sdk file r))
          (on_client sdk o open_reader g).1

    fetched :
        (o : Option B) (g : Gcp W S B) (file path : Str)
        → st.object g.world bucket name ≡ some data_
        → (fetch o file g).0 ≡ ok path
        → st.content (fetch o file g).1.world path ≡ some data_
    unfolding on_client act then_close
    fetched none g file path there x = cc x
    fetched (some b) g file path there x =
        let Left : Str → Gcp W S B → Type 0 = λ p h. st.content h.world p ≡ some data_ in
        let (r, w) = sdk.new_reader b bucket name g.world in
        continue-Gives Left (gcp_failing sdk (λ e. codes "obj.NewReader: " ++ e) r) _
          (record g { world = w })
          (λ reader opened p y.
            saved b file reader g.world (record g { world = w }) p refl there
              (failing-ok (λ e. codes "obj.NewReader: " ++ e) r opened) y)
          path x

    download_file-gives :
        (g : Gcp W S B) (path : Str)
        → st.object g.world bucket name ≡ some data_
        → (download_file sdk bucket name g).0 ≡ ok path
        → st.content (download_file sdk bucket name g).1.world path ≡ some data_
    unfolding download_file on_storage
    download_file-gives g path there x =
        let Left : Str → Gcp W S B → Type 0 = λ p h. st.content h.world p ≡ some data_ in
        continue-Gives Left (ensure_storage sdk g).0 _ (ensure_storage sdk g).1
          (λ _ _ p y.
            fetched (ensure_storage sdk g).1.storage.client (ensure_storage sdk g).1
              (sdk.temp_file (path_base name)) p (ensure_storage-keeps g ∙ there) y)
          path x

  -- GCP keeps what is uploaded, as the cache of certificates wants it.
  pub gcp_files-Keeps :
      (bucket : Str) → Stores sdk read_file → Keeps (gcp_files sdk read_file) bucket
  unfolding gcp_files
  gcp_files-Keeps bucket st = record {
    object = λ g name. st.object g.world bucket name;
    content = λ g file. st.content g.world file;
    upload_keeps = λ name data_ g {url} x.
        upload_buffer-stores st bucket name data_ g url
          (textual-ok (upload_buffer sdk bucket name data_ g).0 x);
    download_keeps = λ name g {file} {data_} h x.
        download_file-gives st bucket name data_ g file h
          (textual-ok (download_file sdk bucket name g).0 x);
    read_keeps = λ file g h x. st.reads_file file g.world h x;
  }

  -- If Cloud Storage and the file system store what is written, as documented: a certificate that the
  -- cache put into a bucket of GCP is the one that it gets from there right after it, when both
  -- return, whether the client was made before or not.
  pub get-put_gcp :
      (st : Stores sdk read_file) (bucket name data_ : Str) (g : Gcp W S B) {u : Unit {0}}
      {bytes : Str}
      → (put (gcp_files sdk read_file) bucket name data_ g).0 ≡ ok u
      → (get
          (gcp_files sdk read_file)
          bucket
          name
          (put (gcp_files sdk read_file) bucket name data_ g).1).0
        ≡ ok bytes
      → bytes ≡ data_
  get-put_gcp st bucket name data_ g x y =
      (get-put (gcp_files sdk read_file) bucket (gcp_files-Keeps bucket st) name data_ g x y).0
