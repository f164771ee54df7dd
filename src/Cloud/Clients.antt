-- ===== src/Cloud/Clients.antt =====
-- The blob operations never call a method of a nil client.
use go_api_boot.Base.{
  Str, Option, none, some, Result, ok, err, Result-cases, ◌≡◌, ◌≢◌, ◌∙◌, ap, inl, inr,
}
use go_api_boot.Base.Exec.{Exec, continue}
use go_api_boot.Strings.{path_base}
use go_api_boot.Cloud.{
  CloudError, nil_client, Sdk, Azure, make_blob_client, failing, ensure_blob, act, on_client,
  on_blob, upload_buffer, then_close, download_to, download_file, ensure_bucket,
}
use go_api_boot.Cloud.Lazy.{IsSound, ensure_client, ensure_client-IsEnsured}

module _ {W K B X : Type 0} (sdk : Sdk W K B X) where
  failing-not_nil : {A : Type 0} (r : Result Str A) → failing sdk r ≢ err nil_client
  failing-not_nil (ok a) x = cc x
  failing-not_nil (err e) x = cc x

  act-not_nil : {A : Type 0} (f : Exec W Str A) (a : Azure W K B) → (act sdk f a).0 ≢ err nil_client
  unfolding act
  act-not_nil f a = failing-not_nil (f a.world).0

  -- There is a client.
  abbrev pub HasClient : Azure W K B → Type 0
  HasClient a = (b : B) × (a.blob.client ≡ some b)

  act-HasClient :
      {A : Type 0} (f : Exec W Str A) (a : Azure W K B) → HasClient a → HasClient (act sdk f a).1
  unfolding act
  act-HasClient f a c = c

  on_client-not_nil :
      {A : Type 0} (o : Option B) (f : B → Exec W Str A) (a : Azure W K B) {b : B}
      → o ≡ some b
      → (on_client sdk o f a).0 ≢ err nil_client
  unfolding on_client
  on_client-not_nil none f a h = cc h
  on_client-not_nil (some c) f a h = act-not_nil (f c) a

  on_blob-not_nil :
      {A : Type 0} (f : B → Exec W Str A) (a : Azure W K B)
      → HasClient a
      → (on_blob sdk f a).0 ≢ err nil_client
  unfolding on_blob
  on_blob-not_nil f a (b, h) = on_client-not_nil a.blob.client f a h

  ensure_blob-not_nil : (a : Azure W K B) → (ensure_blob sdk a).0 ≢ err nil_client
  unfolding ensure_blob
  ensure_blob-not_nil a =
      failing-not_nil
        (ensure_client (make_blob_client sdk a.azure_storage_account) (a.blob, a.world)).0

  -- Behind EnsureBlob without an error there is a client.
  ensure_blob-HasClient :
      (a : Azure W K B) {u : Unit {0}}
      → IsSound a.blob
      → (ensure_blob sdk a).0 ≡ ok u
      → HasClient (ensure_blob sdk a).1
  unfolding ensure_blob
  ensure_blob-HasClient a sound x =
      elim (ensure_client-IsEnsured (make_blob_client sdk a.azure_storage_account) a.blob a.world
        sound) [ inl (_, b, h) ↦ (b, h) | inr (e, r, _, _, _) ↦ cc (rw r at x) ]

  -- An operation behind EnsureBlob.
  behind_ensure-not_nil :
      {A : Type 0} (f : Unit {0} → Exec (Azure W K B) CloudError A) (a : Azure W K B)
      → IsSound a.blob
      → ((u : Unit {0}) (a' : Azure W K B) → HasClient a' → (f u a').0 ≢ err nil_client)
      → (continue (ensure_blob sdk a).0 f (ensure_blob sdk a).1).0 ≢ err nil_client
  behind_ensure-not_nil f a sound h x = elim (Result-cases (ensure_blob sdk a).0) [
    | inl (u, e) ↦ h u (ensure_blob sdk a).1 (ensure_blob-HasClient a sound e) (rw e at x)
    | inr (e, y) ↦
        let same : e ≡ nil_client = cc (rw y at x) in
        ensure_blob-not_nil a (y ∙ ap (λ e'. err e') same)
  ]

  continue-not_nil :
      {A C : Type 0} (r : Result CloudError A) (f : A → Exec (Azure W K B) CloudError C)
      (a : Azure W K B)
      → r ≢ err nil_client
      → ((u : A) → (f u a).0 ≢ err nil_client)
      → (continue r f a).0 ≢ err nil_client
  continue-not_nil (ok u) f a hr hf x = hf u x
  continue-not_nil (err e) f a hr hf x =
      let same : e ≡ nil_client = cc x in hr (ap (λ e'. err e') same)

  -- Whatever the calls of the SDK return, uploading, downloading and ensuring a bucket never call a
  -- method of a nil client, if the blob client is there, could not be made or was not asked for yet.
  pub blob_operations-not_nil :
      (a : Azure W K B) (container blob data_ : Str)
      → IsSound a.blob
      → ((upload_buffer sdk container blob data_ a).0 ≢ err nil_client)
        × ((download_file sdk container blob a).0 ≢ err nil_client)
        × ((ensure_bucket sdk container a).0 ≢ err nil_client)
  unfolding upload_buffer then_close download_to download_file ensure_bucket
  blob_operations-not_nil a container blob data_ sound = (
    behind_ensure-not_nil _ a sound (λ u a' c.
        continue-not_nil (on_blob sdk (λ b. sdk.upload_buffer b container blob data_) a').0 _ _
          (on_blob-not_nil (λ b. sdk.upload_buffer b container blob data_) a' c) λ u' x. cc x),
    behind_ensure-not_nil _ a sound (λ u a' c.
        continue-not_nil (act sdk (sdk.create (sdk.temp_file (path_base blob))) a').0 _ _
          (act-not_nil (sdk.create (sdk.temp_file (path_base blob))) a')
          λ u'.
            let a'' = (act sdk (sdk.create (sdk.temp_file (path_base blob))) a').1 in
            let f : B → Exec W Str (Unit {0}) =
              λ b. sdk.download_file b container blob (sdk.temp_file (path_base blob)) in
            continue-not_nil (on_blob sdk f a'').0 _ _
              (on_blob-not_nil f a'' (act-HasClient _ a' c)) λ u'' x. cc x),
    behind_ensure-not_nil _ a sound (λ u a' c. on_blob-not_nil _ a' c),
  )
