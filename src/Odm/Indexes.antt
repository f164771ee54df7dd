-- ===== src/Odm/Indexes.antt =====
-- EnsureIndexes of odm/ensure_index.go: the collection and every index that a model advertises.
use go_api_boot.Base.{
  ℕ, Str, List, Bool, false, Option, none, some, Result, Result-cases, ◌⊎◌, ok, err, map, ◌==◌,
  nat_eq, if◌then◌else◌, ◌≡◌, refl, Bool-cases, inl, inr,
}
use go_api_boot.Base.Exec.{Exec, pure, ◌>>◌}
use go_api_boot.Odm.{
  SearchIndexModel, VectorIndexSpec, TermSearchIndexSpec, vector_model, term_model,
}

-- An error of the driver: a mongo.CommandError with its code, or another one.
pub data DbError : Type 0 where
  command : ℕ → DbError
  other : Str → DbError

pub record Database (W X : Type 0) : Type 0 where
  pub create_collection : Str → Exec W DbError (Unit {0})
  pub create_indexes : Str → List X → Exec W DbError (Unit {0})
  pub create_search_indexes : Str → List SearchIndexModel → Exec W DbError (Unit {0})

-- What the zero value of the model's type implements.
pub record Advertised (X : Type 0) : Type 0 where
  pub collection_name : Str
  pub index_models : Option (List X)
  pub term_search_index_specs : Option (List TermSearchIndexSpec)
  pub vector_index_specs : Option (List VectorIndexSpec)

module _ {W X : Type 0} (db : Database W X) where
  -- The code 48 says that the collection is there.
  unfoldable pub is_there : DbError → Bool
  is_there (command code) = code == 48
  is_there (other _) = false

  abbrev tolerate : Result DbError (Unit {0}) × W → Result DbError (Unit {0}) × W
  tolerate (ok u, w) = (ok tt, w)
  tolerate (err e, w) = if is_there e then (ok tt, w) else (err e, w)

  unfoldable pub ensure_collection : Str → Exec W DbError (Unit {0})
  ensure_collection name w = tolerate (db.create_collection name w)

  unfoldable pub ensure_classic : Str → Option (List X) → Exec W DbError (Unit {0})
  ensure_classic name none = pure tt
  ensure_classic name (some models) = db.create_indexes name models

  unfoldable pub ensure_term : Str → Option (List TermSearchIndexSpec) → Exec W DbError (Unit {0})
  ensure_term name none = pure tt
  ensure_term name (some specs) = db.create_search_indexes name (map term_model specs)

  unfoldable pub ensure_vector : Str → Option (List VectorIndexSpec) → Exec W DbError (Unit {0})
  ensure_vector name none = pure tt
  ensure_vector name (some specs) = db.create_search_indexes name (map vector_model specs)

  -- EnsureIndexes
  unfoldable pub ensure_indexes : Advertised X → Exec W DbError (Unit {0})
  ensure_indexes model = do
    ensure_collection model.collection_name
    ensure_classic model.collection_name model.index_models
    ensure_term model.collection_name model.term_search_index_specs
    ensure_vector model.collection_name model.vector_index_specs

  -- A database in which creating a collection succeeds at once.
  abbrev pub with_collection : Database W X
  with_collection = record db { create_collection = λ name w. (ok tt, w) }

-- EnsureIndexes fails with the error of creating the collection, and creates no index, if this error
-- is not the one with code 48. Otherwise, also if the collection was there, it does what it does for
-- a collection that was just created.
pub ensure_indexes_cases :
    {W X : Type 0} (db : Database W X) (model : Advertised X) (w : W)
    → ((e : DbError) × (is_there db e ≡ false)
        × ((db.create_collection model.collection_name w).0 ≡ err e)
        × (ensure_indexes db model w ≡ (err e, (db.create_collection model.collection_name w).1)))
      ⊎ (ensure_indexes db model w
          ≡ ensure_indexes
              (with_collection db)
              model
              (db.create_collection model.collection_name w).1)
unfolding ensure_indexes ensure_collection ensure_classic ensure_term ensure_vector
ensure_indexes_cases db model w =
    elim (Result-cases (db.create_collection model.collection_name w).0) [
      | inl (u, x) ↦ inr (rw x refl)
      | inr (e, x) ↦ elim (Bool-cases (is_there db e)) [
        | inl y ↦ inr (rw (x, y) refl)
        | inr y ↦ inl (e, y, x, rw (x, y) refl)
      ]
    ]
