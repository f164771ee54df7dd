-- ===== src/Tests/OdmRuns.antt =====
-- odm at a store in memory.
use go_api_boot.Base.{
  ℕ, Str, codes, [], ◌∷◌, Option, none, some, Result, ok, ◌≡◌, refl, nat_eq, str_eq, str_beq,
}
use go_api_boot.Base.Dict.{Dict, lookup, insert}
use go_api_boot.Strings.{join}
use go_api_boot.Odm.{string, int64, Fields, hashed_key, encode_to_string}
use go_api_boot.Odm.Collection.{Driver, Model, exists, save, save_doc}
use go_api_boot.Odm.Saving.{merge, fields_of, number_of}

abbrev Store : Type 0
Store = Dict Str Fields

abbrev id_of : Fields → Str
id_of ((_, string id) ∷ _) = id
id_of _ = []

abbrev upsert : Fields → Fields → Store → Result Str (Unit {0}) × Store
upsert filter doc w =
    (ok tt, insert (id_of filter) (merge doc (fields_of (lookup (id_of filter) w))) w)

abbrev number : Option Fields → Store → ℕ
number none w = 0
number (some filter) w = number_of (lookup (id_of filter) w)

abbrev driver : Driver Store Fields
driver = record {
  count_documents = λ filter w. (ok (number filter w), w);
  upsert_one = upsert;
  find_one = λ filter w. (ok (fields_of (lookup (id_of filter) w)), w);
  find = λ filter options w. (ok [], w);
  delete_one = λ filter w. (ok tt, w);
  distinct = λ name filter w. (ok [], w);
  aggregate = λ pipeline w. (ok [], w);
  aggregate_hits = λ pipeline w. (ok [], w);
  now = λ w. (42, w);
  vector = λ xs. xs;
}

abbrev models : Model Fields
models = record { id = λ m. codes "a"; convert_to_bson = λ m. ok m }

abbrev named : Fields
named = (codes "name", string (codes "Ann")) ∷ []

-- A document that was created at time 7.
abbrev old_doc : Fields
old_doc = (codes "_id", string (codes "a")) ∷ (codes "createdOn", int64 7) ∷ []

abbrev one_stored : Store
one_stored = (codes "a", old_doc) ∷ []

run_again : (save driver models named one_stored).1 ≡ (
    (
      codes "a",
      (codes "_id", string (codes "a"))
          ∷ (codes "createdOn", int64 7)
          ∷ (codes "updatedOn", int64 42)
          ∷ (codes "name", string (codes "Ann"))
          ∷ [],
    )
    ∷ [])
unfolding save save_doc exists insert lookup str_beq merge
run_again = refl

-- A hash that gives six bytes.
abbrev six_bytes : Str → Result Str Str
six_bytes s = ok (codes "abcdef")

run_hashed_key : hashed_key six_bytes (codes "x" ∷ []) ≡ ok (codes "616263646566")
unfolding hashed_key encode_to_string join
run_hashed_key = refl
