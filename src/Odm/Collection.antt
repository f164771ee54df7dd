-- ===== src/Odm/Collection.antt =====
-- odm/odm_collection.go: the typed collection. The MongoDB driver, the clock and the conversion of
-- models are arguments. `async.Go` runs its function, and the result is what the channel gives: an
-- operation is modelled as the function that it runs.
use go_api_boot.Base.{
  ℕ, Str, codes, List, [], ◌∷◌, Bool, true, false, ◌||◌, Option, none, some, Result, ok, err, ltb,
  str_eq, nat_eq, str_beq, if◌then◌else◌,
}
use go_api_boot.Base.Dict.{insert}
use go_api_boot.Base.Exec.{Exec, pure, raise, continue, ◌>>=◌}
use go_api_boot.Odm.{
  ℤ, is_not_positive, Bson, string, int, int64, binary, strings, document, Doc, end, field, Fields,
  as_doc, SearchHit, VectorSearchParams, TermSearchParams,
}

-- options.Find()
pub record FindOptions : Type 0 where
  pub skip : ℤ
  pub limit : Option ℤ
  pub sort : Option Doc

-- CollectionInterface of odm/mongo_interface.go, with documents decoded as an `M`.
pub record Driver (W M : Type 0) : Type 0 where
  pub count_documents : Option Fields → Exec W Str ℕ
  -- UpdateOne(filter, {"$set": doc}) with upsert
  pub upsert_one : Fields → Fields → Exec W Str (Unit {0})
  pub find_one : Fields → Exec W Str M
  pub find : Fields → FindOptions → Exec W Str (List M)
  pub delete_one : Fields → Exec W Str (Unit {0})
  pub distinct : Str → Doc → Exec W Str (List Bson)
  pub aggregate : List Doc → Exec W Str (List M)
  pub aggregate_hits : List Doc → Exec W Str (List (SearchHit M))
  -- c.timer.Now()
  pub now : W → ℕ × W
  -- bson.NewVector(embedding).Binary()
  pub vector : List ℕ → Str

-- DbModel, with bson.Marshal and bson.Unmarshal behind it
pub record Model (M : Type 0) : Type 0 where
  pub id : M → Str
  pub convert_to_bson : M → Result Str Fields

abbrev pub by_id : Str → Fields
by_id id = (codes "_id", string id) ∷ []

module _ {W M : Type 0} (col : Driver W M) where
  abbrev pub positive : ℕ → Bool
  positive count = ltb 0 count

  -- Exists
  unfoldable pub exists : Str → Exec W Str Bool
  exists id = do count ← col.count_documents (some (by_id id)); pure (positive count)

  -- The value of `exists, _ := async.Await(...)`: false with an error.
  abbrev pub is_found : Result Str Bool → Bool
  is_found (ok found) = found
  is_found (err _) = false

  abbrev pub stamp : Bool → Str
  stamp found = if found then codes "updatedOn" else codes "createdOn"

  -- Save, behind the conversion of the model.
  unfoldable pub save_doc : Str → Fields → Exec W Str (Unit {0})
  unfolding insert str_beq
  save_doc id doc w =
      let (found, w1) = exists id w in
      let (time, w2) = col.now w1 in
      let doc' =
        insert (stamp (is_found found)) (int64 time) (insert (codes "_id") (string id) doc) in
      col.upsert_one (by_id id) doc' w2

  -- Save
  unfoldable pub save : Model M → M → Exec W Str (Unit {0})
  save types model w = continue (types.convert_to_bson model) (save_doc (types.id model)) w

  -- FindOne; a nil filter is refused.
  unfoldable pub find_one : Option Fields → Exec W Str M
  find_one none = raise (codes "filters cannot be nil for FindOne")
  find_one (some filters) = col.find_one filters

  -- FindOneByID
  unfoldable pub find_one_by_id : Str → Exec W Str M
  find_one_by_id id = find_one (some (by_id id))

  abbrev or_empty : Option Fields → Fields
  or_empty none = []
  or_empty (some filters) = filters

  abbrev at_most : ℤ → Option ℤ
  at_most limit = if is_not_positive limit then none else some limit

  -- Find
  unfoldable pub find : Option Fields → Option Doc → ℤ → ℤ → Exec W Str (List M)
  find filters sort limit skip =
      col.find (or_empty filters) (record { skip = skip; limit = at_most limit; sort = sort })

  -- DeleteOne
  unfoldable pub delete_one : Option Fields → Exec W Str (Unit {0})
  delete_one none = raise (codes "filters cannot be nil for DeleteOne")
  delete_one (some filters) = col.delete_one filters

  -- DeleteByID
  unfoldable pub delete_by_id : Str → Exec W Str (Unit {0})
  delete_by_id id = delete_one (some (by_id id))

  -- Count
  unfoldable pub count : Option Fields → Exec W Str ℕ
  count filters = col.count_documents filters

  abbrev or_end : Option Doc → Doc
  or_end none = end
  or_end (some d) = d

  -- DistinctInto; the flag says whether there is an output slice.
  unfoldable pub distinct_into : Bool → Str → Option Doc → Exec W Str (List Bson)
  distinct_into false name filters = raise (codes "output slice cannot be nil")
  distinct_into true name filters = col.distinct name (or_end filters)

  -- Aggregate
  unfoldable pub aggregate : List Doc → Exec W Str (List M)
  aggregate pipeline = col.aggregate pipeline

  abbrev is_empty : {A : Type 0} → List A → Bool
  is_empty [] = true
  is_empty (_ ∷ _) = false

  abbrev pub is_invalid_vector_search : List ℕ → VectorSearchParams → Bool
  is_invalid_vector_search embedding params =
      is_empty embedding
      || is_empty params.index_name
      || is_empty params.path
      || is_not_positive params.k

  -- The stage that gives each document with its score.
  unfoldable pub project : Str → Doc
  project meta =
      field (codes "$project")
        (document (
          field (codes "score") (document (field (codes "$meta") (string meta) end))
            (field (codes "doc") (string (codes "$$ROOT")) end)))
        end

  unfoldable pub vector_pipeline : List ℕ → VectorSearchParams → List Doc
  vector_pipeline embedding params =
      field (codes "$vectorSearch")
        (document (
          field (codes "index") (string params.index_name) (
            field (codes "path") (string params.path) (
              field (codes "queryVector") (binary (col.vector embedding)) (
                field (codes "numCandidates") (int params.num_candidates) (
                  field (codes "limit") (int params.k)
                    (field (codes "filter") (document (as_doc (or_empty params.filter))) end)))))))
        end
      ∷ project (codes "vectorSearchScore")
      ∷ []

  -- VectorSearch
  unfoldable pub vector_search : List ℕ → VectorSearchParams → Exec W Str (List (SearchHit M))
  vector_search embedding params =
      if is_invalid_vector_search embedding params
      then raise (codes "invalid input - embedding, index name, path, and K must be provided")
      else col.aggregate_hits (vector_pipeline embedding params)

  abbrev pub is_invalid_term_search : Str → TermSearchParams → Bool
  is_invalid_term_search query params =
      is_empty query
      || is_empty params.index_name
      || is_empty params.path
      || is_not_positive params.limit

  unfoldable pub term_pipeline : Str → TermSearchParams → List Doc
  term_pipeline query params =
      field (codes "$search")
        (document (
          field (codes "index") (string params.index_name) (
            field (codes "text")
              (document (
                field (codes "query") (string query)
                  (field (codes "path") (strings params.path) end)))
              end)))
        end
      ∷ field (codes "$match") (document (as_doc (or_empty params.filter))) end
      ∷ project (codes "searchScore")
      ∷ field (codes "$limit") (int params.limit) end
      ∷ []

  -- TermSearch
  unfoldable pub term_search : Str → TermSearchParams → Exec W Str (List (SearchHit M))
  term_search query params =
      if is_invalid_term_search query params
      then raise (codes "invalid input - query, index name, path, and limit must be provided")
      else col.aggregate_hits (term_pipeline query params)
