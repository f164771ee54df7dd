-- ===== src/Odm/Saving.antt =====
-- What `Save` leaves in the collection, for a driver that does what the documentation of MongoDB
-- says of documents that are addressed by their `_id`.
use go_api_boot.Base.{
  ℕ, Str, codes, [], ◌∷◌, Bool, true, false, Option, none, some, ok, Result-cases, ◌≡◌, refl, ◌∙◌,
  ap, ltb, ◌==◌, str_eq, nat_eq, if◌then◌else◌, Bool-cases, inl, inr,
}
use go_api_boot.Base.Dict.{lookup, insert, lookup-insert}
use go_api_boot.Base.Exec.{continue-ok}
use go_api_boot.Odm.{string, int64, Fields}
use go_api_boot.Odm.Collection.{Driver, Model, by_id, exists, is_found, stamp, save_doc, save}

-- $set: the fields of the first document replace those of the second.
unfoldable pub merge : Fields → Fields → Fields
merge [] old = old
merge ((k, v) ∷ doc) old = insert k v (merge doc old)

lookup-merge :
    (k : Str) (doc old : Fields)
    → lookup k (merge doc old) ≡ (elim (lookup k doc) [ none ↦ lookup k old | some v ↦ some v ])
unfolding merge lookup
lookup-merge k [] old = refl
lookup-merge k ((j, v) ∷ doc) old = elim (Bool-cases (j == k)) [
  | inl e ↦ rw (lookup-insert j k v (merge doc old), e) refl
  | inr e ↦ rw (lookup-insert j k v (merge doc old), e) (lookup-merge k doc old)
]

abbrev pub fields_of : Option Fields → Fields
fields_of none = []
fields_of (some doc) = doc

abbrev pub number_of : Option Fields → ℕ
number_of none = 0
number_of (some _) = 1

-- The documents by their `_id`, and what the calls of `Save` do with them.
pub record Documented {W M : Type 0} (col : Driver W M) : Type 0 where
  pub stored : W → Str → Option Fields
  pub count-stored :
      (id : Str) (w : W) (n : ℕ)
      → (col.count_documents (some (by_id id)) w).0 ≡ ok n
      → n ≡ number_of (stored w id)
  pub stored-count :
      (id : Str) (w : W) (j : Str)
      → stored (col.count_documents (some (by_id id)) w).1 j ≡ stored w j
  pub stored-now : (w : W) (j : Str) → stored (col.now w).1 j ≡ stored w j
  pub stored-upsert :
      (id : Str) (doc : Fields) (w : W) {u : Unit {0}}
      → (col.upsert_one (by_id id) doc w).0 ≡ ok u
      → stored (col.upsert_one (by_id id) doc w).1 id ≡ some (merge doc (fields_of (stored w id)))

-- The document with this `_id` and the time under one key, whose other fields are those of the
-- first document, and those of the second that the first does not have.
abbrev pub IsStamped : Str → Fields → Fields → Str → ℕ → Fields → Type 0
IsStamped id doc old key time new =
    (k : Str)
    → lookup k new ≡ (
        if key == k
        then some (int64 time)
        else (if codes "_id" == k
            then some (string id)
            else (elim (lookup k doc) [ none ↦ lookup k old | some v ↦ some v ])))

module _ {W M : Type 0} (col : Driver W M) where
  -- The document that Save writes, at this time.
  abbrev pub stamped_by : Str → Fields → Bool → ℕ → Fields
  stamped_by id doc found time =
      insert (stamp col found) (int64 time) (insert (codes "_id") (string id) doc)

  -- What such a document holds under a key.
  lookup-stamped_by :
      (id : Str) (doc : Fields) (found : Bool) (time : ℕ) (k : Str)
      → lookup k (stamped_by id doc found time) ≡ (
          if stamp col found == k
          then some (int64 time)
          else (if codes "_id" == k then some (string id) else lookup k doc))
  lookup-stamped_by id doc found time k =
      lookup-insert (stamp col found) k (int64 time) (insert (codes "_id") (string id) doc)
      ∙ ap (λ o. if stamp col found == k then some (int64 time) else o)
          (lookup-insert (codes "_id") k (string id) doc)

  pub merge-stamped_by :
      (id : Str) (doc old : Fields) (found : Bool) (time : ℕ)
      → IsStamped id doc old (stamp col found) time (merge (stamped_by id doc found time) old)
  merge-stamped_by id doc old found time k =
      lookup-merge k (stamped_by id doc found time) old
      ∙ rw (lookup-stamped_by id doc found time k) (elim (Bool-cases (stamp col found == k)) [
        | inl e ↦ rw e refl
        | inr e ↦ elim (Bool-cases (codes "_id" == k)) [
          | inl f ↦ rw (e, f) refl
          | inr f ↦ rw (e, f) refl
        ]
      ])

module _ {W M : Type 0} (col : Driver W M) (db : Documented col) where
  -- The time that Save reads.
  abbrev pub time_of : Str → W → ℕ
  time_of id w = (col.now (exists col id w).1).0

  -- The document that Save writes.
  unfoldable pub stamped : Str → Fields → Bool → W → Fields
  stamped id doc found w = stamped_by col id doc found (time_of id w)

  pub stored-exists : (id : Str) (w : W) (j : Str) → db.stored (exists col id w).1 j ≡ db.stored w j
  unfolding exists
  stored-exists id w j = elim (Result-cases (col.count_documents (some (by_id id)) w).0) [
    | inl (n, e) ↦ rw e (db.stored-count id w j)
    | inr (e, x) ↦ rw x (db.stored-count id w j)
  ]

  -- Exists tells whether a document is stored, if it returns.
  pub exists-stored :
      (id : Str) (w : W) {b : Bool}
      → (exists col id w).0 ≡ ok b
      → b ≡ ltb 0 (number_of (db.stored w id))
  unfolding exists
  exists-stored id w x =
      let (n, e, y) = continue-ok (col.count_documents (some (by_id id)) w).0 _ _ x in
      let same = db.count-stored id w n e in cc

  pub is_found-exists :
      (id : Str) (w : W) → db.stored w id ≡ none → is_found col (exists col id w).0 ≡ false
  is_found-exists id w fresh = elim (Result-cases (exists col id w).0) [
    | inl (b, e) ↦ rw e (exists-stored id w e ∙ ap (λ o. ltb 0 (number_of o)) fresh)
    | inr (e, x) ↦ rw x refl
  ]

  pub stored-save_doc :
      (id : Str) (doc : Fields) (w : W) {u : Unit {0}}
      → (save_doc col id doc w).0 ≡ ok u
      → db.stored (save_doc col id doc w).1 id
        ≡ some (
            merge
              (stamped id doc (is_found col (exists col id w).0) w)
              (fields_of (db.stored w id)))
  unfolding save_doc stamped
  stored-save_doc id doc w x =
      db.stored-upsert id _ _ x
      ∙ ap (λ o. some (merge (stamped id doc (is_found col (exists col id w).0) w) (fields_of o)))
          (db.stored-now (exists col id w).1 id ∙ stored-exists id w id)

  pub merge-IsStamped :
      (id : Str) (doc old : Fields) (found : Bool) (w : W)
      → IsStamped id doc old (stamp col found) (time_of id w) (merge (stamped id doc found w) old)
  unfolding stamped
  merge-IsStamped id doc old found w = merge-stamped_by col id doc old found (time_of id w)

  -- With a driver that does what MongoDB documents, saving a model that converts, under an `_id`
  -- that is not stored, when it returns, stores a document with this `_id`, the time in
  -- `createdOn`, and the other fields of the model, whether or not the count behind Exists failed.
  pub save_first :
      (types : Model M) (model : M) (w : W) {doc : Fields} {u : Unit {0}}
      → types.convert_to_bson model ≡ ok doc
      → db.stored w (types.id model) ≡ none
      → (save col types model w).0 ≡ ok u
      → (new : Fields) × (db.stored (save col types model w).1 (types.id model) ≡ some new)
        × IsStamped (types.id model) doc [] (codes "createdOn") (time_of (types.id model) w) new
  unfolding save
  save_first types model w {doc} hc fresh x =
      let id = types.id model in
      (
        merge (stamped id doc false w) [],
        rw hc (stored-save_doc id doc w (rw hc at x) ∙ rw (fresh, is_found-exists id w fresh) refl),
        merge-IsStamped id doc [] false w,
      )

  -- With a driver that does what MongoDB documents, saving a model that converts, under an `_id`
  -- that is stored, when it returns and the count behind Exists did, sets the time in `updatedOn`,
  -- and keeps each other field of the stored document that the model does not have.
  pub save_again :
      (types : Model M) (model : M) (w : W) {doc old : Fields} {b : Bool} {u : Unit {0}}
      → types.convert_to_bson model ≡ ok doc
      → db.stored w (types.id model) ≡ some old
      → (exists col (types.id model) w).0 ≡ ok b
      → (save col types model w).0 ≡ ok u
      → (new : Fields) × (db.stored (save col types model w).1 (types.id model) ≡ some new)
        × IsStamped (types.id model) doc old (codes "updatedOn") (time_of (types.id model) w) new
  unfolding save
  save_again types model w {doc} {old} {b} hc there count x =
      let id = types.id model in
      let found : b ≡ true = exists-stored id w count ∙ ap (λ o. ltb 0 (number_of o)) there in
      (
        merge (stamped id doc true w) old,
        rw hc (stored-save_doc id doc w (rw hc at x) ∙ rw (there, count, found) refl),
        merge-IsStamped id doc old true w,
      )
